-- ===== src/Libc/Lines.antt =====
-- `fgets` and `fread` on what is left of a file.
use tizen_os.Base.{
  ℕ, zero, suc, ◌≤◌, ◌≡◌, refl, ap, List, [], ◌∷◌, ◌++◌, arith, ◌==◌, if◌then◌else◌, length, take,
  drop, take-append-drop, length-append, length-take, length-drop, All, join, ◌<◌, ◌∙◌, ◌≢◌,
}
use tizen_os.Libc

-- `fgets (buf, n + 1, f)` at the bytes left: what it stores, and what it leaves.
pub fgets : ℕ → Libc.Bytes → Libc.Bytes × Libc.Bytes
fgets zero s = ([], s)
fgets (suc n) [] = ([], [])
fgets (suc n) (c ∷ cs) =
    if c == b'\n' then (c ∷ [], cs) else let (line, rest) = fgets n cs in (c ∷ line, rest)

-- The buffers that `while (fgets (buf, n + 1, f))` sees; every round takes a byte, so the length of
-- the file is fuel enough.
pub fgets_all : ℕ → ℕ → Libc.Bytes → List Libc.Bytes
fgets_all zero n s = []
fgets_all (suc fuel) n [] = []
fgets_all (suc fuel) n (c ∷ cs) =
    let (line, rest) = fgets n (c ∷ cs) in line ∷ fgets_all fuel n rest

unfoldable pub lines : ℕ → Libc.Bytes → List Libc.Bytes
unfolding fgets fgets_all
lines n s = fgets_all (length s) n s

fgets-append : (n : ℕ) (s : Libc.Bytes) → (fgets n s).0 ++ (fgets n s).1 ≡ s
unfolding fgets
fgets-append zero s = refl
fgets-append (suc n) [] = refl
fgets-append (suc n) (c ∷ cs) = ground (arith, fgets-append n cs)

-- With room for a byte, `fgets` leaves less than it found.
fgets_shrinks : (n c : ℕ) (cs : Libc.Bytes) → 1 ≤ n → length (fgets n (c ∷ cs)).1 ≤ length cs
unfolding fgets
fgets_shrinks zero c cs h = absurd (omega arith)
fgets_shrinks (suc n) c cs h = ground (arith, rest_le n cs)
  where
    rest_le : (n : ℕ) (s : Libc.Bytes) → length (fgets n s).1 ≤ length s
    rest_le n s =
        omega (arith, ap length (fgets-append n s), length-append (fgets n s).0 (fgets n s).1)

length-fgets : (n : ℕ) (s : Libc.Bytes) → length (fgets n s).0 ≤ n
unfolding fgets
length-fgets zero s = omega arith
length-fgets (suc n) [] = omega arith
length-fgets (suc n) (c ∷ cs) = ground (arith, length-fgets n cs)

join-fgets_all :
    (fuel n : ℕ) (s : Libc.Bytes) → 1 ≤ n → length s ≤ fuel → join (fgets_all fuel n s) ≡ s
unfolding fgets_all
join-fgets_all zero n [] h k = refl
join-fgets_all zero n (c ∷ cs) h k = absurd (omega arith)
join-fgets_all (suc fuel) n [] h k = refl
join-fgets_all (suc fuel) n (c ∷ cs) h k =
    let rest = (fgets n (c ∷ cs)).1 in
    let shorter : length rest ≤ fuel = omega (arith, fgets_shrinks n c cs h) in
    rw (join-fgets_all fuel n rest h shorter) (fgets-append n (c ∷ cs))

All-fgets_all : (fuel n : ℕ) (s : Libc.Bytes) → All (λ l. length l ≤ n) (fgets_all fuel n s)
unfolding fgets_all
All-fgets_all zero n s = tt
All-fgets_all (suc fuel) n [] = tt
All-fgets_all (suc fuel) n (c ∷ cs) =
    (length-fgets n (c ∷ cs), All-fgets_all fuel n (fgets n (c ∷ cs)).1)

-- The loop reads the whole file, and never fills a buffer past its end.
pub lines_lem :
    (n : ℕ) (s : Libc.Bytes) → 1 ≤ n → (join (lines n s) ≡ s) × All (λ l. length l ≤ n) (lines n s)
unfolding lines
lines_lem n s h = (join-fgets_all (length s) n s h (omega arith), All-fgets_all (length s) n s)

-- `fread (buf, 1, n, f)`, round after round: the last round, which reads nothing, ends the loop.
pub fread_all : ℕ → ℕ → Libc.Bytes → List Libc.Bytes
fread_all zero n s = []
fread_all (suc fuel) n [] = []
fread_all (suc fuel) n (c ∷ cs) = take n (c ∷ cs) ∷ fread_all fuel n (drop n (c ∷ cs))

unfoldable pub chunks : ℕ → Libc.Bytes → List Libc.Bytes
unfolding fread_all
chunks n s = fread_all (length s) n s

join-fread_all :
    (fuel n : ℕ) (s : Libc.Bytes) → 1 ≤ n → length s ≤ fuel → join (fread_all fuel n s) ≡ s
unfolding fread_all
join-fread_all zero n [] h k = refl
join-fread_all zero n (c ∷ cs) h k = absurd (omega arith)
join-fread_all (suc fuel) n [] h k = refl
join-fread_all (suc fuel) n (c ∷ cs) h k =
    let shorter : length (drop n (c ∷ cs)) ≤ fuel = omega (arith, length-drop n (c ∷ cs)) in
    rw (join-fread_all fuel n (drop n (c ∷ cs)) h shorter) (take-append-drop n (c ∷ cs))

pub join-chunks : (n : ℕ) (s : Libc.Bytes) → 1 ≤ n → join (chunks n s) ≡ s
unfolding chunks
join-chunks n s h = join-fread_all (length s) n s h (omega arith)

pub All-chunks : (n : ℕ) (s : Libc.Bytes) → All (λ l. length l ≤ n) (chunks n s)
unfolding chunks
All-chunks n s = go (length s) n s
  where
    go : (fuel n : ℕ) (s : Libc.Bytes) → All (λ l. length l ≤ n) (fread_all fuel n s)
    go zero n s = tt
    go (suc fuel) n [] = tt
    go (suc fuel) n (c ∷ cs) = (omega (arith, length-take n (c ∷ cs)), go fuel n (drop n (c ∷ cs)))

abbrev pub Without : ℕ → Libc.Bytes → Type 0
Without b = All (λ c. c ≢ b)

pub fgets_line :
    (n : ℕ) (l rest : Libc.Bytes)
    → length l < n
    → Without b'\n' l
    → fgets n (l ++ b'\n' ∷ rest) ≡ (l ++ b'\n' ∷ [], rest)
unfolding fgets
fgets_line zero l rest h w = absurd (omega arith)
fgets_line (suc n) [] rest h w = refl
fgets_line (suc n) (c ∷ cs) rest h w = ground (arith, fgets_line n cs rest)

-- A text made of whole lines.
abbrev pub unlines : List Libc.Bytes → Libc.Bytes
unlines [] = []
unlines (l ∷ ls) = l ++ b'\n' ∷ unlines ls

abbrev pub terminated : List Libc.Bytes → List Libc.Bytes
terminated [] = []
terminated (l ∷ ls) = (l ++ b'\n' ∷ []) ∷ terminated ls

abbrev pub AreLines : ℕ → List Libc.Bytes → Type 0
AreLines n = All (λ l. (length l < n) × Without b'\n' l)

fgets_all-unlines :
    (fuel n : ℕ) (ls : List Libc.Bytes)
    → length (unlines ls) ≤ fuel
    → AreLines n ls
    → fgets_all fuel n (unlines ls) ≡ terminated ls
unfolding fgets_all
fgets_all-unlines zero n [] h a = refl
fgets_all-unlines (suc fuel) n [] h a = refl
fgets_all-unlines zero n (l ∷ ls) h a = absurd (omega (arith, length-append l (b'\n' ∷ unlines ls)))
fgets_all-unlines (suc fuel) n (l ∷ ls) h a =
    step_line fuel n l (unlines ls) a.0
    ∙ ap (◌∷◌ (l ++ b'\n' ∷ []))
        (fgets_all-unlines fuel n ls (omega (arith, length-append l (b'\n' ∷ unlines ls))) a.1)
  where
    step_line :
        (fuel n : ℕ) (l rest : Libc.Bytes)
        → (length l < n) × Without b'\n' l
        → fgets_all (suc fuel) n (l ++ b'\n' ∷ rest) ≡ (l ++ b'\n' ∷ []) ∷ fgets_all fuel n rest
    step_line fuel n [] rest h = ground (arith, fgets_line n [] rest h.0 h.1)
    step_line fuel n (c ∷ cs) rest h = ground (arith, fgets_line n (c ∷ cs) rest h.0 h.1)

-- Lines that fit the buffer are read one by one.
pub lines-unlines :
    (n : ℕ) (ls : List Libc.Bytes) → AreLines n ls → lines n (unlines ls) ≡ terminated ls
unfolding lines
lines-unlines n ls h = fgets_all-unlines (length (unlines ls)) n ls (omega arith) h
