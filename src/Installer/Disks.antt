-- ===== src/Installer/Disks.antt =====
-- `populate_disks` of installer-ui.c: the disks that the list offers. The output of the `lsblk` pipeline
-- is a parameter, none where `popen` fails.
use tizen_os.Libc.Laws.{c_str_line}
use mathlib.Core.Path.{subst}
use tizen_os.Base.{
  Option, none, some, List, [], ◌∷◌, ◌++◌, length, ◌≤◌, ◌≡◌, refl, ◌≢◌, inl, inr, true, arith,
  Option-cases, All, take_all, sym, ap, ◌∙◌, append_assoc,
}
use tizen_os.Libc.{Bytes, codes, c_str, snprintf, starts_with}
use tizen_os.Libc.Lines.{lines, Without, AreLines, terminated, unlines, lines-unlines}
use tizen_os.Libc.Text.{scan_word, scan_word_lem, IsWord, scan_word_first}

-- The loop: `sscanf (line, "%63s", name)` on each line, and the device of the name.
unfoldable pub device_of : Bytes → Bytes
device_of name = snprintf 128 (codes "/dev/" ++ name)

abbrev add_disk : Option Bytes → List Bytes → List Bytes
add_disk none disks = disks
add_disk (some name) disks = device_of name ∷ disks

unfoldable pub disks_of : List Bytes → List Bytes
disks_of [] = []
disks_of (line ∷ rest) = add_disk (scan_word 63 (c_str line)) (disks_of rest)

abbrev pub or_sda : List Bytes → List Bytes
or_sda [] = codes "/dev/sda" ∷ []
or_sda (d ∷ ds) = d ∷ ds

unfoldable pub populate_disks : Option Bytes → List Bytes
populate_disks none = codes "/dev/sda" ∷ []
populate_disks (some output) = or_sda (disks_of (lines 255 output))

-- A device with a short name, with no space in it.
abbrev pub IsDisk : Bytes → Type 0
IsDisk d = (starts_with (codes "/dev/") d ≡ true) × IsWord d × (length d ≤ 68)

device_of_lem :
    (name : Bytes)
    → IsWord name
    → length name ≤ 63
    → (device_of name ≡ codes "/dev/" ++ name) × IsDisk (device_of name)
unfolding device_of starts_with
device_of_lem name h k =
    let whole = take_all 127 (codes "/dev/" ++ name) (omega arith) in
    (whole, subst IsDisk (sym whole) (refl, (refl, (refl, (refl, (refl, (refl, h))))), omega arith))

disks_of_lem : (ls : List Bytes) → All IsDisk (disks_of ls)
unfolding disks_of
disks_of_lem [] = tt
disks_of_lem (l ∷ ls) = elim (Option-cases (scan_word 63 (c_str l))) [
  | inl e ↦ subst (λ o. All IsDisk (add_disk o (disks_of ls))) (sym e) (disks_of_lem ls)
  | inr (name, e) ↦
      let word = scan_word_lem 63 (c_str l) name e in
      subst (λ o. All IsDisk (add_disk o (disks_of ls))) (sym e)
        ((device_of_lem name word.1 word.2).1, disks_of_lem ls)
]

or_sda_lem : (ds : List Bytes) → All IsDisk ds → (or_sda ds ≢ []) × All IsDisk (or_sda ds)
unfolding starts_with
or_sda_lem [] h = (λ e. ground arith, ground arith)
or_sda_lem (d ∷ ds) h = (λ e. ground arith, h)

-- Whatever `lsblk` prints, and if it cannot be run, the list offers at least one disk, and each that it
-- offers is `/dev/` and a name of at most 63 bytes with no space in it.
pub populate_disks_lem :
    (output : Option Bytes) → (populate_disks output ≢ []) × All IsDisk (populate_disks output)
unfolding populate_disks starts_with
populate_disks_lem none = (λ e. ground arith, ground arith)
populate_disks_lem (some output) =
    or_sda_lem (disks_of (lines 255 output)) (disks_of_lem (lines 255 output))

-- A row of `lsblk`: a name, a space, and the rest.
abbrev pub rows : List (Bytes × Bytes) → List Bytes
rows [] = []
rows ((name, rest) ∷ rs) = (name ++ b' ' ∷ rest) ∷ rows rs

abbrev pub devices : List (Bytes × Bytes) → List Bytes
devices [] = []
devices ((name, rest) ∷ rs) = (codes "/dev/" ++ name) ∷ devices rs

abbrev pub AreNames : List (Bytes × Bytes) → Type 0
AreNames [] = Unit {0}
AreNames ((name, rest) ∷ rs) = (name ≢ []) × IsWord name × (length name ≤ 63) × AreNames rs

disks_of-terminated :
    (rs : List (Bytes × Bytes))
    → AreNames rs
    → All (Without 0) (rows rs)
    → disks_of (terminated (rows rs)) ≡ devices rs
unfolding disks_of
disks_of-terminated [] h z = refl
disks_of-terminated ((name, rest) ∷ rs) (ne, word, short, more) z =
    let line = name ++ b' ' ∷ rest in
    let whole = c_str_line line z.0 ∙ append_assoc name (b' ' ∷ rest) (b'\n' ∷ []) in
    let scanned =
      ap (scan_word 63) whole
      ∙ scan_word_first 63 name (rest ++ b'\n' ∷ []) b' ' ne word short refl in
    let later = disks_of-terminated rs more z.1 in
    ap (λ o. add_disk o (disks_of (terminated (rows rs)))) scanned
    ∙ ap (λ d. d ∷ disks_of (terminated (rows rs))) (device_of_lem name word short).0
    ∙ ap (◌∷◌ (codes "/dev/" ++ name)) later

-- Where the rows of `lsblk` fit the buffer and hold no NUL, and their names are words of at most 63
-- bytes, the list offers the devices of the names, in the order of the rows, and `/dev/sda` if there
-- is no row.
pub populate-unlines :
    (rs : List (Bytes × Bytes))
    → AreLines 255 (rows rs)
    → All (Without 0) (rows rs)
    → AreNames rs
    → populate_disks (some (unlines (rows rs))) ≡ or_sda (devices rs)
unfolding populate_disks
populate-unlines rs h z names =
    ap (λ ls. or_sda (disks_of ls)) (lines-unlines 255 (rows rs) h)
    ∙ ap or_sda (disks_of-terminated rs names z)
