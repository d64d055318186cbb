-- ===== src/Installer/Partman.antt =====
-- partman.c: the commands that partition and format the disk. A `swap_part` that is NULL is the empty
-- string here; the code treats the two alike.
use tizen_os.Base.{◌≡◌, Bool, true, List, [], ◌∷◌, ◌++◌, append_assoc}
use tizen_os.Libc.{Bytes, codes}
use tizen_os.Installer.Shell.{
  Host, Trace, M, ◌>>=◌, ◌>>◌, return, system_in, succeeded, run_all, run_all_lem, formatted,
  issue_all,
}

abbrev settle : Bytes
settle = codes "udevadm settle 2>/dev/null || sleep 1"

abbrev parted : Bytes → Bytes → Bytes
parted disk what = codes "parted -s " ++ disk ++ what

abbrev pub flush : Bytes → Bytes
flush device = codes "blockdev --flushbufs " ++ device ++ codes " 2>/dev/null || true"

abbrev pub erase_commands : Bytes → List Bytes
erase_commands disk =
    parted disk (codes " mklabel gpt")
    ∷ parted disk (codes " mkpart primary 1MiB 3MiB")
    ∷ parted disk (codes " set 1 bios_grub on")
    ∷ parted disk (codes " mkpart ESP fat32 3MiB 515MiB")
    ∷ parted disk (codes " set 2 esp on")
    ∷ parted disk (codes " mkpart primary linux-swap 515MiB 4611MiB")
    ∷ parted disk (codes " mkpart primary ext4 4611MiB 100%")
    ∷ settle
    ∷ flush disk
    ∷ []

abbrev pub swap_commands : Bytes → List Bytes
swap_commands [] = []
swap_commands (c ∷ cs) = (codes "mkswap " ++ c ∷ cs) ∷ []

abbrev pub boot_commands : Bytes → Bytes → List Bytes
boot_commands esp_part swap_part =
    settle ∷ (codes "mkfs.fat -F32 " ++ esp_part) ∷ swap_commands swap_part

abbrev pub root_command : Bytes → Bytes
root_command root_part = codes "mkfs.ext4 -F -L \"TIZEN_ROOT\" " ++ root_part

abbrev pub format_commands : Bytes → Bytes → Bytes → List Bytes
format_commands esp_part swap_part root_part =
    boot_commands esp_part swap_part ++ root_command root_part ∷ flush root_part ∷ []

module _ (host : Host) where
  pub partman_erase_disk : Bytes → M Bool
  partman_erase_disk disk = do run_all host 512 (erase_commands disk); return true

  -- It runs no command.
  pub partman_setup_luks : Bytes → Bytes → M Bool
  partman_setup_luks disk passphrase = return true

  pub partman_format_partitions : Bytes → Bytes → Bytes → M Bool
  partman_format_partitions esp_part swap_part root_part = do
    run_all host 512 (boot_commands esp_part swap_part)
    res ← system_in host 512 (root_command root_part)
    system_in host 512 (flush root_part)
    return (succeeded res)

  -- It reports success, and has run every command, whatever they answered.
  pub partman_erase_disk_lem :
      (disk : Bytes) (t : Trace)
      → partman_erase_disk disk t ≡ (true, issue_all (formatted 512 (erase_commands disk)) t)
  unfolding partman_erase_disk
  partman_erase_disk_lem disk t = rw (run_all_lem host 512 (erase_commands disk) t)

  pub partman_format_partitions_lem :
      (esp_part swap_part root_part : Bytes) (t : Trace)
      → (partman_format_partitions esp_part swap_part root_part t).1
        ≡ issue_all (formatted 512 (format_commands esp_part swap_part root_part)) t
  unfolding partman_format_partitions
  partman_format_partitions_lem esp_part [] root_part t =
      rw (run_all_lem host 512 (boot_commands esp_part []) t) (simp append_assoc)
  partman_format_partitions_lem esp_part (c ∷ cs) root_part t =
      rw (run_all_lem host 512 (boot_commands esp_part (c ∷ cs)) t) (simp append_assoc)
