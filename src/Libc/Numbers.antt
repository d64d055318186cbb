-- ===== src/Libc/Numbers.antt =====
-- `atoi`. A value that does not fit an `int` is outside what the C standard defines, and is kept as it
-- stands in the text.
use tizen_os.Base.{
  ℕ, zero, suc, ◌+◌, ◌-◌, ◌*◌, Bool, ◌&&◌, ◌||◌, [], ◌∷◌, leb, ◌==◌, if◌then◌else◌, ◌/◌, ◌%◌, ◌<◌,
  ◌≡◌, refl, ap, ◌∙◌, inl, inr, true, ◌++◌, arith, ltb, Bool-cases, All,
}
use tizen_os.Base.Int.{ℤ, pos, negsuc}
use tizen_os.Libc.{Bytes}

is_digit : ℕ → Bool
is_digit c = leb b'0' c && leb c b'9'

is_space : ℕ → Bool
is_space c = c == b' ' || (leb 9 c && leb c 13)

digits_from : ℕ → Bytes → ℕ
digits_from acc [] = acc
digits_from acc (c ∷ cs) =
    let rest = digits_from (acc * 10 + (c - b'0')) cs in if is_digit c then rest else acc

skip_space : Bytes → Bytes
skip_space [] = []
skip_space (c ∷ cs) = if is_space c then skip_space cs else c ∷ cs

negate : ℕ → ℤ
negate zero = pos 0
negate (suc n) = negsuc n

signed : Bytes → ℤ
signed [] = pos 0
signed (c ∷ cs) =
    if c == b'-'
    then negate (digits_from 0 cs)
    else if c == b'+'
    then pos (digits_from 0 cs)
    else pos (digits_from 0 (c ∷ cs))

unfoldable pub atoi : Bytes → ℤ
unfolding digits_from skip_space signed is_digit is_space negate
atoi s = signed (skip_space s)

-- `%d`: the digits of a number, on fuel. A number has at most as many digits as its value, and one.
unfoldable digits : ℕ → ℕ → Bytes
digits zero n = []
digits (suc f) n =
    let front = digits f (n / 10) in
    let last = b'0' + n % 10 in if ltb n 10 then last ∷ [] else front ++ last ∷ []

unfoldable pub decimal : ℤ → Bytes
unfolding digits
decimal (pos n) = digits (suc n) n
decimal (negsuc n) = b'-' ∷ digits (n + 2) (n + 1)

digits_from-snoc :
    (acc : ℕ) (s : Bytes) (d : ℕ)
    → All (λ c. is_digit c ≡ true) s
    → d < 10
    → digits_from acc (s ++ (b'0' + d) ∷ []) ≡ digits_from acc s * 10 + d
unfolding digits_from is_digit
digits_from-snoc acc [] d h k = ground arith
digits_from-snoc acc (c ∷ cs) d h k =
    ground (arith, digits_from-snoc (acc * 10 + (c - b'0')) cs d h.1 k)

digits-snoc :
    (s : Bytes) (d : ℕ)
    → All (λ c. is_digit c ≡ true) s
    → d < 10
    → All (λ c. is_digit c ≡ true) (s ++ (b'0' + d) ∷ [])
unfolding is_digit
digits-snoc [] d h k = (ground arith, tt)
digits-snoc (c ∷ cs) d h k = (h.0, digits-snoc cs d h.1 k)

-- The digits are digits, and they are read back as the number.
digits_lem :
    (f n : ℕ) → n < f → All (λ c. is_digit c ≡ true) (digits f n) × (digits_from 0 (digits f n) ≡ n)
unfolding digits digits_from
digits_lem zero n h = absurd (omega arith)
digits_lem (suc f) n h = elim (Bool-cases (ltb n 10)) [
  | inl t ↦
      let small : n < 10 = ground arith in
      rw t (
        digits-snoc [] (n % 10) tt (omega arith),
        digits_from-snoc 0 [] (n % 10) tt (omega arith) ∙ omega arith,
      )
  | inr t ↦
      let before = digits_lem f (n / 10) (ground arith) in
      let last : n % 10 < 10 = omega arith in
      rw t (
        digits-snoc (digits f (n / 10)) (n % 10) before.0 last,
        digits_from-snoc 0 (digits f (n / 10)) (n % 10) before.0 last ∙ omega (arith, before.1),
      )
]

signed-digits :
    (s : Bytes) → All (λ c. is_digit c ≡ true) s → signed (skip_space s) ≡ pos (digits_from 0 s)
unfolding signed skip_space is_digit is_space digits_from
signed-digits [] h = refl
signed-digits (c ∷ cs) h = ground (arith, h.0)

-- What `%d` prints of an `int`, `atoi` reads back.
pub atoi-decimal : (z : ℤ) → atoi (decimal z) ≡ z
unfolding atoi decimal skip_space signed is_space negate
atoi-decimal (pos n) =
    let read = digits_lem (suc n) n (omega arith) in
    signed-digits (digits (suc n) n) read.0 ∙ ap pos read.1
atoi-decimal (negsuc n) =
    let read = digits_lem (n + 2) (n + 1) (omega arith) in
    let whole : digits_from 0 (digits (n + 2) (n + 1)) ≡ suc n = omega (arith, read.1) in
    ap negate whole
