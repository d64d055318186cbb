-- ===== src/Security/Smack.antt =====
-- security/smack-utils/smack-manager.c: the rules that are written to the kernel. `true` for `writable`
-- is that `access` and `open` of the kernel's file succeed; the results of its writes only matter for
-- the messages.
use mathlib.Core.Path.{subst}
use tizen_os.Base.{
  ◌≡◌, refl, ap, Bool, true, false, ◌||◌, Option, none, some, List, [], ◌∷◌, arith, ◌==◌,
  if◌then◌else◌, All, ◌∙◌, ◌≢◌, inl, inr, ◌++◌, Bool-cases, join,
}
use tizen_os.Base.Int.{ℤ, pos, negsuc}
use tizen_os.Libc.{Bytes, codes, str_contains, c_str, starts_with}
use tizen_os.Libc.Lines.{lines, unlines, terminated, AreLines, lines-unlines, Without, lines_lem}
use tizen_os.Libc.Laws.{c_str_line}

-- `smack_is_available`, on what the list of the active modules holds, where it can be read.
unfoldable pub smack_is_available : Bool → Option Bytes → Bool
smack_is_available false lsm = false
smack_is_available true none = false
smack_is_available true (some text) = elim (lines 255 text) [
  | [] ↦ false
  | buf ∷ rest ↦ str_contains (c_str buf) (codes "smack")
]

-- The test for comments and empty lines.
abbrev is_skipped : Bytes → Bool
is_skipped [] = false
is_skipped (c ∷ cs) = c == b'#' || c == b'\n'

-- What the loop writes.
unfoldable pub write_rules : List Bytes → List Bytes
write_rules [] = []
write_rules (line ∷ rest) =
    let written = write_rules rest in if is_skipped line then written else c_str line ∷ written

-- `load_smack_rules`: its result and what it writes to the kernel.
unfoldable pub load_smack_rules : Bool → Option Bytes → ℤ × List Bytes
load_smack_rules opens none = (negsuc 0, [])
load_smack_rules false (some text) = (negsuc 0, [])
load_smack_rules true (some text) = (pos 0, write_rules (lines 255 text))

-- `main`, over the text of the rule file that its arguments name: what it writes.
unfoldable pub main : Bool → Option Bytes → Option Bytes → List Bytes
main writable lsm rules =
    if smack_is_available writable lsm then (load_smack_rules writable rules).1 else []

-- The lines of a rule file that are rules: neither empty nor comments.
unfoldable pub rules_of : List Bytes → List Bytes
rules_of [] = []
rules_of ([] ∷ ls) = rules_of ls
rules_of ((c ∷ cs) ∷ ls) = let rest = rules_of ls in if c == b'#' then rest else (c ∷ cs) ∷ rest

write_rules-terminated :
    (ls : List Bytes)
    → AreLines 255 ls
    → All (Without 0) ls
    → write_rules (terminated ls) ≡ terminated (rules_of ls)
unfolding write_rules rules_of
write_rules-terminated [] h z = refl
write_rules-terminated ([] ∷ ls) h z = write_rules-terminated ls h.1 z.1
write_rules-terminated ((c ∷ cs) ∷ ls) h z =
    let rest = write_rules-terminated ls h.1 z.1 in
    let whole = c_str_line (c ∷ cs) z.0 in ground (arith, rest, whole, h.0.1.0)

-- Where every line of a rule file fits the buffer of 256 bytes with its newline and none holds a
-- NUL, and the kernel's file opens, what is written to it is the lines of the rule file that are
-- neither empty nor comments, each whole, with its newline, in the order of the file; and the load
-- reports success.
pub load-unlines :
    (ls : List Bytes)
    → AreLines 255 ls
    → All (Without 0) ls
    → load_smack_rules true (some (unlines ls)) ≡ (pos 0, terminated (rules_of ls))
unfolding load_smack_rules
load-unlines ls h z =
    rw (lines-unlines 255 ls h) (ap (λ w. (pos 0, w)) (write_rules-terminated ls h z))

starts_with-extend : (p x s : Bytes) → starts_with p x ≡ true → starts_with p (x ++ s) ≡ true
unfolding starts_with
starts_with-extend [] x s h = refl
starts_with-extend (c ∷ cs) [] s h = ground arith
starts_with-extend (c ∷ cs) (d ∷ ds) s h = ground (arith, starts_with-extend cs ds s)

contains_nothing : (s p : Bytes) → starts_with p [] ≡ true → str_contains s p ≡ true
unfolding starts_with str_contains
contains_nothing [] p h = h
contains_nothing (c ∷ cs) [] h = refl
contains_nothing (c ∷ cs) (d ∷ ds) h = ground arith

str_contains-extend : (x s p : Bytes) → str_contains x p ≡ true → str_contains (x ++ s) p ≡ true
unfolding str_contains
str_contains-extend [] s p h = contains_nothing s p h
str_contains-extend (c ∷ cs) s p h =
    ground (arith, starts_with-extend p (c ∷ cs) s, str_contains-extend cs s p)

c_str_prefix : (x : Bytes) → (rest : Bytes) × (c_str x ++ rest ≡ x)
unfolding c_str
c_str_prefix [] = ([], refl)
c_str_prefix (c ∷ cs) = elim (Bool-cases (c == 0)) [
  | inl e ↦ (c ∷ cs, rw e refl)
  | inr e ↦ let (rest, same) = c_str_prefix cs in (rest, rw e (ap (◌∷◌ c) same))
]

available-named :
    (text : Bytes)
    → smack_is_available true (some text) ≡ true
    → str_contains text (codes "smack") ≡ true
unfolding smack_is_available
available-named text h = named (lines 255 text) (lines_lem 255 text (omega arith)).0 h
  where
    named :
        (ls : List Bytes)
        → join ls ≡ text
        → (elim ls [ [] ↦ false | buf ∷ rest ↦ str_contains (c_str buf) (codes "smack") ]) ≡ true
        → str_contains text (codes "smack") ≡ true
    named [] e k = ground arith
    named (buf ∷ rest) e k =
        let (after, same) = c_str_prefix buf in
        let one = str_contains-extend (c_str buf) after (codes "smack") k in
        let two = str_contains-extend (c_str buf ++ after) (join rest) (codes "smack") one in
        subst (λ t. str_contains t (codes "smack") ≡ true) (ap (λ b. b ++ join rest) same ∙ e) two

-- A rule is written only where the kernel's file can be written and the list of its active modules can
-- be read and names Smack.
pub main-named :
    (writable : Bool) (lsm rules : Option Bytes)
    → main writable lsm rules ≢ []
    → (writable ≡ true)
      × ((text : Bytes) × (lsm ≡ some text) × (str_contains text (codes "smack") ≡ true))
unfolding main smack_is_available
main-named false lsm rules h = absurd (h refl)
main-named true none rules h = absurd (h refl)
main-named true (some text) rules h = (
  refl,
  (
    text,
    refl,
    elim (Bool-cases (smack_is_available true (some text))) [
      | inl e ↦ available-named text e
      | inr e ↦ absurd (h (rw e refl))
    ],
  ),
)
