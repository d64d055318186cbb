-- ===== src/Installer/Partitions.antt =====
-- The devices of the partitions that installer-ui.c names.
use tizen_os.Base.{
  ℕ, ◌≤◌, ◌≡◌, sym, ◌∙◌, ◌≢◌, Bool, true, false, ◌||◌, [], ◌∷◌, ◌++◌, arith, length, length-append,
  length-take, take_all,
}
use tizen_os.Libc.{Bytes, codes, str_contains}
use tizen_os.Installer.Run.{Form, selected_disk, partition, esp_part, swap_part, root_part, shorten}

append_cancel : (xs ys zs : Bytes) → xs ++ ys ≡ xs ++ zs → ys ≡ zs
append_cancel [] ys zs h = h
append_cancel (x ∷ xs) ys zs h = append_cancel xs ys zs (ground (arith, h))

abbrev name : Bool → Bytes → ℕ → Bytes
name true disk digit = shorten disk ++ b'p' ∷ digit ∷ []
name false disk digit = shorten disk ++ digit ∷ []

length-name : (p : Bool) (disk : Bytes) (digit : ℕ) → length (name p disk digit) ≤ 511
length-name true disk digit =
    omega (arith, length-append (shorten disk) (b'p' ∷ digit ∷ []), length-take 240 disk)
length-name false disk digit =
    omega (arith, length-append (shorten disk) (digit ∷ []), length-take 240 disk)

partition-name :
    (disk : Bytes) (digit : ℕ)
    → partition disk digit
      ≡ name (str_contains disk (codes "nvme") || str_contains disk (codes "mmcblk")) disk digit
unfolding partition
partition-name disk digit =
    let a = take_all 511 (name true disk digit) (length-name true disk digit) in
    let b = take_all 511 (name false disk digit) (length-name false disk digit) in
    ground (arith, a, b)

name_injective : (p : Bool) (disk : Bytes) (a b : ℕ) → name p disk a ≡ name p disk b → a ≡ b
name_injective true disk a b h =
    let e = append_cancel (shorten disk) (b'p' ∷ a ∷ []) (b'p' ∷ b ∷ []) h in ground (arith, e)
name_injective false disk a b h =
    let e = append_cancel (shorten disk) (a ∷ []) (b ∷ []) h in ground (arith, e)

-- Partitions of one disk with different digits are different devices, whatever the disk is called and
-- however long its name is: no name is cut.
pub partition_injective : (disk : Bytes) (a b : ℕ) → partition disk a ≡ partition disk b → a ≡ b
partition_injective disk a b h =
    name_injective (str_contains disk (codes "nvme") || str_contains disk (codes "mmcblk")) disk a b
      (sym (partition-name disk a) ∙ h ∙ partition-name disk b)

-- An installation has three different devices for the ESP, the swap and the root, whatever was
-- entered.
pub parts_differ :
    (form : Form)
    → (esp_part form ≢ swap_part form)
      × (esp_part form ≢ root_part form)
      × (swap_part form ≢ root_part form)
parts_differ form = (
  λ h. absurd (omega (arith, partition_injective (selected_disk form) b'2' b'3' h)),
  λ h. absurd (omega (arith, partition_injective (selected_disk form) b'2' b'4' h)),
  λ h. absurd (omega (arith, partition_injective (selected_disk form) b'3' b'4' h)),
)
