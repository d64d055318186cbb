-- ===== src/Libc/Text.antt =====
-- Texts with letters beyond ASCII, and `sscanf (s, "%ns", word)`.
use tizen_os.Base.{
  ℕ, zero, suc, ◌+◌, ◌/◌, ◌%◌, ◌≤◌, ◌≡◌, refl, ap, ◌≢◌, inl, inr, Bool, true, false, ◌&&◌, ◌||◌,
  Option, none, some, [], ◌∷◌, ◌++◌, arith, ltb, leb, ◌==◌, if◌then◌else◌, Bool-cases, length, All,
  ◌∙◌,
}
use Prim.Native.Char.{code}
use Prim.Native.String.{String}
use mathlib.Core.Path.{subst}
use tizen_os.Libc

-- The bytes of a letter in UTF-8.
pub utf8_bytes : ℕ → Libc.Bytes
utf8_bytes c =
    if ltb c 128
    then c ∷ []
    else if ltb c 2048
    then (192 + c / 64) ∷ (128 + c % 64) ∷ []
    else if ltb c 65536
    then (224 + c / 4096) ∷ (128 + (c / 64) % 64) ∷ (128 + c % 64) ∷ []
    else (240 + c / 262144) ∷ (128 + (c / 4096) % 64) ∷ (128 + (c / 64) % 64) ∷ (128 + c % 64) ∷ []

-- The bytes of a literal of the source.
unfoldable pub utf8 : String → Libc.Bytes
unfolding utf8_bytes
utf8 String.[] = []
utf8 (String.◌∷◌ c s) = utf8_bytes (code c) ++ utf8 s

-- `isspace`
abbrev pub is_space : ℕ → Bool
is_space c = c == 32 || (leb 9 c && leb c 13)

-- The bytes up to the next space, at most `n`.
unfoldable pub word : ℕ → Libc.Bytes → Libc.Bytes
word zero s = []
word (suc n) [] = []
word (suc n) (c ∷ cs) = let rest = word n cs in if is_space c then [] else c ∷ rest

unfoldable pub skip_space : Libc.Bytes → Libc.Bytes
skip_space [] = []
skip_space (c ∷ cs) = if is_space c then skip_space cs else c ∷ cs

-- The word that `%ns` stores, if there is one.
unfoldable pub scan_word : ℕ → Libc.Bytes → Option Libc.Bytes
scan_word n s = elim (word n (skip_space s)) [ [] ↦ none | c ∷ cs ↦ some (c ∷ cs) ]

-- A word has no space in it.
abbrev pub IsWord : Libc.Bytes → Type 0
IsWord = All (λ c. is_space c ≡ false)

word-IsWord : (n : ℕ) (s : Libc.Bytes) → IsWord (word n s) × (length (word n s) ≤ n)
unfolding word
word-IsWord zero s = (tt, omega arith)
word-IsWord (suc n) [] = (tt, omega arith)
word-IsWord (suc n) (c ∷ cs) =
    let (ws, l) = word-IsWord n cs in
    elim (Bool-cases (is_space c)) [
      | inl e ↦ rw e (tt, omega arith)
      | inr e ↦ rw e ((e, ws), omega (arith, l))
    ]

found :
    (v w : Libc.Bytes) → elim v [ [] ↦ none | c ∷ cs ↦ some (c ∷ cs) ] ≡ some w → (v ≡ w) × (w ≢ [])
found [] w h = ground arith
found (c ∷ cs) w h = ground arith

-- What is scanned is a word of at most `n` bytes, and not empty.
pub scan_word_lem :
    (n : ℕ) (s w : Libc.Bytes) → scan_word n s ≡ some w → (w ≢ []) × IsWord w × (length w ≤ n)
unfolding scan_word
scan_word_lem n s w h =
    let (same, ne) = found (word n (skip_space s)) w h in
    let (short, long) = word-IsWord n (skip_space s) in
    let both = subst (λ v. IsWord v × (length v ≤ n)) same (short, long) in (ne, both.0, both.1)

word_first :
    (n : ℕ) (w rest : Libc.Bytes) (d : ℕ)
    → IsWord w
    → length w ≤ n
    → is_space d ≡ true
    → word n (w ++ d ∷ rest) ≡ w
unfolding word
word_first zero [] rest d h k e = refl
word_first zero (c ∷ cs) rest d h k e = absurd (omega arith)
word_first (suc n) [] rest d h k e = rw e refl
word_first (suc n) (c ∷ cs) rest d h k e =
    rw (h.0) (ap (◌∷◌ c) (word_first n cs rest d h.1 (omega arith) e))

-- The word that starts a line, before a space.
pub scan_word_first :
    (n : ℕ) (w rest : Libc.Bytes) (d : ℕ)
    → w ≢ []
    → IsWord w
    → length w ≤ n
    → is_space d ≡ true
    → scan_word n (w ++ d ∷ rest) ≡ some w
unfolding scan_word skip_space
scan_word_first n [] rest d ne h k e = absurd (ne refl)
scan_word_first n (c ∷ cs) rest d ne h k e =
    let skipped : skip_space (c ∷ (cs ++ d ∷ rest)) ≡ c ∷ (cs ++ d ∷ rest) = ground (arith, h.0) in
    let first = ap (word n) skipped ∙ word_first n (c ∷ cs) rest d h k e in
    ap (λ v. elim v [ [] ↦ none | x ∷ xs ↦ some (x ∷ xs) ]) first
