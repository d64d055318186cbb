-- ===== src/Libc.antt =====
-- The parts of the C library that the programs use, on strings as lists of bytes. A C string is the
-- bytes before the terminating NUL; a buffer of `n` bytes holds a string of at most `n - 1`.
pub mod Lines
pub mod Laws
pub mod Numbers
pub mod Text
use Prim.Native.Char.{code}
use Prim.Native.String.{String}
use tizen_os.Base.{
  ℕ, zero, suc, ◌-◌, ◌+◌, ◌*◌, ◌%◌, Bool, true, false, not, ◌&&◌, ◌||◌, List, [], ◌∷◌, ◌++◌, Option,
  none, some, ltb, leb, ◌==◌, if◌then◌else◌, length, take, ◌/◌, ◌^◌, ◌≤◌, ◌<◌, min, ◌≡◌, refl, sym,
  ap, ◌∙◌, ◌≢◌, ◌↔◌, ◌⊎◌, inl, inr, map, append_assoc, append-nil, arith, ==_iff, Bool-cases,
  Option-cases, drop, get_elem?, set, All, join, length-append, take-append-drop, length-take,
  length-drop, take_all,
}

abbrev pub Bytes : Type 0
Bytes = List ℕ

-- The bytes of an ASCII literal.
abbrev pub codes : String → Bytes
codes String.[] = []
codes (String.◌∷◌ c s) = code c ∷ codes s

-- `strcmp (a, b) == 0`
unfoldable pub str_eq : Bytes → Bytes → Bool
str_eq [] [] = true
str_eq [] (y ∷ ys) = false
str_eq (x ∷ xs) [] = false
str_eq (x ∷ xs) (y ∷ ys) = x == y && str_eq xs ys

unfoldable pub to_lower : ℕ → ℕ
to_lower c = if leb b'A' c && leb c b'Z' then c + 32 else c

-- `strcasecmp (a, b) == 0`, in the C locale
unfoldable pub str_case_eq : Bytes → Bytes → Bool
str_case_eq [] [] = true
str_case_eq [] (y ∷ ys) = false
str_case_eq (x ∷ xs) [] = false
str_case_eq (x ∷ xs) (y ∷ ys) = to_lower x == to_lower y && str_case_eq xs ys

-- Whether `p` is a prefix of `s`.
unfoldable pub starts_with : Bytes → Bytes → Bool
starts_with [] s = true
starts_with (p ∷ ps) [] = false
starts_with (p ∷ ps) (c ∷ cs) = p == c && starts_with ps cs

-- `strstr (s, p) != NULL`
unfoldable pub str_contains : Bytes → Bytes → Bool
str_contains [] p = starts_with p []
str_contains (c ∷ cs) p = starts_with p (c ∷ cs) || str_contains cs p

-- The string that starts a buffer: all before the first NUL.
unfoldable pub c_str : Bytes → Bytes
c_str [] = []
c_str (c ∷ cs) = if c == 0 then [] else c ∷ c_str cs

-- `s[strcspn (s, "\r\n")] = 0`
unfoldable pub chomp : Bytes → Bytes
chomp [] = []
chomp (c ∷ cs) = if c == b'\r' || c == b'\n' then [] else c ∷ chomp cs

-- `strchr (s, d)`: what stands before and behind the first `d`.
unfoldable pub split_at : ℕ → Bytes → Option (Bytes × Bytes)
split_at d [] = none
split_at d (c ∷ cs) =
    let rest = split_at d cs in
    if c == d
    then some ([], cs)
    else elim rest [ none ↦ none | some (before, behind) ↦ some (c ∷ before, behind) ]

-- What `snprintf` leaves in a buffer of `size` bytes of the text that it formats.
abbrev pub snprintf : ℕ → Bytes → Bytes
snprintf size text = take (size - 1) text

-- `strncat (dst, src, n)`
abbrev pub strncat : Bytes → Bytes → ℕ → Bytes
strncat dst src n = dst ++ take n src
