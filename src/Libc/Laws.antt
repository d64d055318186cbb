-- ===== src/Libc/Laws.antt =====
-- Laws of the string functions.
use tizen_os.Base.{true, ◌≡◌, ◌↔◌, ◌∷◌, arith, ℕ, zero, suc, refl, [], take, some, ◌++◌}
use tizen_os.Libc.{Bytes, str_eq, c_str, chomp, split_at}
use tizen_os.Libc.Lines.{Without}

pub str_eq_iff : (a b : Bytes) → (str_eq a b ≡ true) ↔ (a ≡ b)
unfolding str_eq
str_eq_iff (x ∷ a) (y ∷ b) = ground (arith, str_eq_iff a b)
str_eq_iff _ _ = ground arith

-- A prefix of a text with no NUL has none.
pub c_str-take : (n : ℕ) (s : Bytes) → c_str s ≡ s → c_str (take n s) ≡ take n s
unfolding c_str
c_str-take zero s h = refl
c_str-take (suc n) [] h = refl
c_str-take (suc n) (c ∷ cs) h = ground (arith, c_str-take n cs)

c_str_id : (s : Bytes) → Without 0 s → c_str s ≡ s
unfolding c_str
c_str_id [] h = refl
c_str_id (c ∷ cs) h = ground (arith, c_str_id cs)

Without-append : (b : ℕ) (s t : Bytes) → Without b s → Without b t → Without b (s ++ t)
Without-append b [] t h k = k
Without-append b (c ∷ cs) t h k = (h.0, Without-append b cs t h.1 k)

-- A line with no NUL is what the buffer holds.
pub c_str_line : (s : Bytes) → Without 0 s → c_str (s ++ b'\n' ∷ []) ≡ s ++ b'\n' ∷ []
c_str_line s h = c_str_id (s ++ b'\n' ∷ []) (Without-append 0 s (b'\n' ∷ []) h (omega arith, tt))

pub chomp_line : (s : Bytes) → Without b'\r' s → Without b'\n' s → chomp (s ++ b'\n' ∷ []) ≡ s
unfolding chomp
chomp_line [] h k = refl
chomp_line (c ∷ cs) h k = ground (arith, chomp_line cs)

pub split_at_first : (d : ℕ) (s t : Bytes) → Without d s → split_at d (s ++ d ∷ t) ≡ some (s, t)
unfolding split_at
split_at_first d [] t h = ground arith
split_at_first d (c ∷ cs) t h = ground (arith, split_at_first d cs t)
