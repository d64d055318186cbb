-- ===== src/Installer/Entries.antt =====
-- The file that `target_install_generate_fstab` writes, as mount(8) reads it: lines that are empty or
-- start with `#` are passed over, and the others are words between blanks.
use mathlib.Core.Path.{ap₂}
use tizen_os.Installer.Shell.{Host}
use tizen_os.Base.{
  ℕ, zero, suc, ◌-◌, ◌≡◌, refl, ap, ◌∙◌, List, [], ◌∷◌, ◌++◌, append_assoc, arith, ◌==◌,
  if◌then◌else◌, length, ◌≢◌, Option, none, some, drop,
}
use tizen_os.Libc.{Bytes, codes}
use tizen_os.Libc.Lines.{Without}
use tizen_os.Installer.Fstab.{
  pad, spaces, entry_line, optional_line, fstab_lines, fetch_partition_uuid, root_options,
  esp_options, swap_options,
}

split : Bytes → Bytes × List Bytes
split [] = ([], [])
split (c ∷ cs) = let (w, ws) = split cs in if c == b' ' then ([], w ∷ ws) else (c ∷ w, ws)

compact : List Bytes → List Bytes
compact [] = []
compact ([] ∷ ws) = compact ws
compact ((c ∷ cs) ∷ ws) = (c ∷ cs) ∷ compact ws

pub words : Bytes → List Bytes
words s = compact ((split s).0 ∷ (split s).1)

words_of_line : Bytes → List (List Bytes)
words_of_line [] = []
words_of_line (c ∷ cs) = if c == b'#' then [] else words (c ∷ cs) ∷ []

-- The entries of a file, from its lines.
pub entries : List Bytes → List (List Bytes)
entries [] = []
entries (l ∷ ls) = words_of_line l ++ entries ls

split_word :
    (w rest : Bytes)
    → Without b' ' w
    → split (w ++ b' ' ∷ rest) ≡ (w, (split rest).0 ∷ (split rest).1)
unfolding split
split_word [] rest h = refl
split_word (c ∷ cs) rest h = ground (arith, split_word cs rest h.1)

words_word :
    (c : ℕ) (cs rest : Bytes)
    → Without b' ' (c ∷ cs)
    → words (c ∷ cs ++ b' ' ∷ rest) ≡ (c ∷ cs) ∷ words rest
unfolding words compact
words_word c cs rest h = rw (split_word (c ∷ cs) rest h) refl

words-spaces : (n : ℕ) (rest : Bytes) → words (spaces n ++ rest) ≡ words rest
unfolding words compact split
words-spaces zero rest = refl
words-spaces (suc n) rest = words-spaces n rest

spaces_comm : (n : ℕ) (rest : Bytes) → spaces n ++ b' ' ∷ rest ≡ b' ' ∷ (spaces n ++ rest)
spaces_comm zero rest = refl
spaces_comm (suc n) rest = ap (◌∷◌ b' ') (spaces_comm n rest)

-- A padded word, with a blank behind it, is read as the word.
words-pad :
    (n c : ℕ) (cs rest : Bytes)
    → Without b' ' (c ∷ cs)
    → words (pad n (c ∷ cs) ++ b' ' ∷ rest) ≡ (c ∷ cs) ∷ words rest
unfolding pad
words-pad n c cs rest h =
    let k : ℕ = n - length (c ∷ cs) in
    rw (append_assoc (c ∷ cs) (spaces k) (b' ' ∷ rest), spaces_comm k rest)
      (words_word c cs (spaces k ++ rest) h ∙ ap (◌∷◌ (c ∷ cs)) (words-spaces k rest))

abbrev IsWord : Bytes → Type 0
IsWord s = (s ≢ []) × Without b' ' s

-- The first word of an entry: the UUID where `blkid` gave one, the device otherwise.
abbrev pub spec : Option Bytes → Bytes → Bytes
spec none device = device
spec (some uuid) device = codes "UUID=" ++ uuid

words-padded :
    (w : Bytes) (k : ℕ) (rest : Bytes)
    → IsWord w
    → words (w ++ (spaces k ++ b' ' ∷ rest)) ≡ w ∷ words rest
words-padded [] k rest h = absurd (h.0 refl)
words-padded (c ∷ cs) k rest h =
    rw (spaces_comm k rest)
      (words_word c cs (spaces k ++ rest) h.1 ∙ ap (◌∷◌ (c ∷ cs)) (words-spaces k rest))

-- A device that `mount` can read back: not empty, no blank in it, and not a comment.
abbrev pub IsDevice : Bytes → Type 0
IsDevice [] = ⊥
IsDevice (c ∷ cs) = (c ≢ b'#') × Without b' ' (c ∷ cs)

abbrev pub IsUuid : Option Bytes → Type 0
IsUuid none = Unit
IsUuid (some uuid) = Without b' ' uuid

words_of_entry :
    (o : Option Bytes) (device rest : Bytes)
    → IsDevice device
    → IsUuid o
    → words_of_line (entry_line o device (b' ' ∷ rest)) ≡ (spec o device ∷ words rest) ∷ []
unfolding words_of_line pad
words_of_entry o [] rest d u = absurd d
words_of_entry none (c ∷ cs) rest d u =
    let device : Bytes = c ∷ cs in
    rw (append_assoc device (spaces (41 - length device)) (b' ' ∷ rest))
      (ground (arith, words-padded device (41 - length device) rest ((λ e. cc), d.1)))
words_of_entry (some uuid) (c ∷ cs) rest d u =
    rw (append_assoc uuid (spaces (36 - length uuid)) (b' ' ∷ rest)) (
      ground (
        arith,
        words-padded (codes "UUID=" ++ uuid) (36 - length uuid) rest (
          (λ e. cc),
          (omega arith, (omega arith, (omega arith, (omega arith, (omega arith, u))))),
        ),
      ))

abbrev pub entry_of : Host → Bytes → List Bytes → List (List Bytes)
entry_of host [] options = []
entry_of host (c ∷ cs) options =
    (spec (fetch_partition_uuid host (c ∷ cs) 128) (c ∷ cs) ∷ options) ∷ []

abbrev pub IsOptional : Host → Bytes → Type 0
IsOptional host [] = Unit
IsOptional host (c ∷ cs) = IsDevice (c ∷ cs) × IsUuid (fetch_partition_uuid host (c ∷ cs) 128)

abbrev pub tmpfs : Bytes → Bytes → List Bytes
tmpfs point options = codes "tmpfs" ∷ point ∷ codes "tmpfs" ∷ options ∷ codes "0" ∷ codes "0" ∷ []

entries-append : (xs ys : List Bytes) → entries (xs ++ ys) ≡ entries xs ++ entries ys
unfolding entries
entries-append [] ys = refl
entries-append (x ∷ xs) ys =
    rw (entries-append xs ys) (rw (append_assoc (words_of_line x) (entries xs) (entries ys)))

entries-optional :
    (host : Host) (part rest : Bytes)
    → IsOptional host part
    → entries (optional_line host part (b' ' ∷ rest)) ≡ entry_of host part (words rest)
unfolding entries optional_line
entries-optional host [] rest h = refl
entries-optional host (c ∷ cs) rest h =
    rw (words_of_entry (fetch_partition_uuid host (c ∷ cs) 128) (c ∷ cs) rest h.0 h.1)

-- Read as mount(8) reads it, the file has one entry for the root, the ESP and the swap partition, in
-- this order and each only if it is given, by its UUID if `blkid` printed one and by its device
-- otherwise, with the mount point, type, options and pass that are meant, and then two for tmpfs. The
-- devices are not comments and hold no blank, and neither does a UUID.
pub entries-fstab_lines :
    (host : Host) (root_part esp_part swap_part : Bytes)
    → IsDevice root_part
    → IsUuid (fetch_partition_uuid host root_part 128)
    → IsOptional host esp_part
    → IsOptional host swap_part
    → entries (fstab_lines host root_part esp_part swap_part)
      ≡ (spec (fetch_partition_uuid host root_part 128) root_part
          ∷ codes "/"
          ∷ codes "ext4"
          ∷ codes "noatime,errors=remount-ro"
          ∷ codes "0"
          ∷ codes "1"
          ∷ [])
        ∷ (entry_of host esp_part
              (codes "/boot/efi" ∷ codes "vfat" ∷ codes "umask=0077" ∷ codes "0" ∷ codes "2" ∷ [])
            ++ (entry_of host swap_part
                  (codes "none" ∷ codes "swap" ∷ codes "sw" ∷ codes "0" ∷ codes "0" ∷ [])
                ++ (tmpfs (codes "/tmp") (codes "defaults,noatime,mode=1777")
                    ∷ tmpfs (codes "/dev/shm") (codes "defaults,nosuid,nodev")
                    ∷ [])))
unfolding fstab_lines entries words words_of_line split compact
entries-fstab_lines host root_part esp_part swap_part d u e s =
    ap₂ ◌++◌
      (words_of_entry (fetch_partition_uuid host root_part 128) root_part (drop 1 root_options) d u)
      (entries-append (optional_line host esp_part esp_options) _
        ∙ ap₂ ◌++◌ (entries-optional host esp_part (drop 1 esp_options) e) (
            entries-append (optional_line host swap_part swap_options) _
            ∙ ap₂ ◌++◌ (entries-optional host swap_part (drop 1 swap_options) s) refl))
