-- ===== src/Installer/Fstab.antt =====
-- `fetch_partition_uuid` and `target_install_generate_fstab` of target-install.c. A partition that is
-- NULL is the empty string here; the code treats the two alike for the ESP and for swap.
use tizen_os.Installer.Target.{target_mount}
use tizen_os.Base.{
  ℕ, zero, suc, ◌-◌, Option, none, some, List, [], ◌∷◌, ◌++◌, length, Bool, true, false,
  if◌then◌else◌,
}
use tizen_os.Libc.{Bytes, codes, snprintf, chomp, c_str}
use tizen_os.Libc.Lines.{fgets, unlines}
use tizen_os.Installer.Shell.{Host, M, write_file}

-- What `fgets (out_uuid, max_len, fp)` and the cut at the line's end leave of the output, if it is
-- not empty.
uuid_of : ℕ → Bytes → Option Bytes
uuid_of max_len output = elim (chomp (c_str (fgets (max_len - 1) output).0)) [
  | [] ↦ none
  | c ∷ cs ↦ some (c ∷ cs)
]

abbrev pub spaces : ℕ → Bytes
spaces zero = []
spaces (suc n) = b' ' ∷ spaces n

-- `%-Ns`
unfoldable pub pad : ℕ → Bytes → Bytes
pad n s = s ++ spaces (n - length s)

abbrev pub entry_line : Option Bytes → Bytes → Bytes → Bytes
entry_line none device rest = pad 41 device ++ rest
entry_line (some uuid) device rest = codes "UUID=" ++ (pad 36 uuid ++ rest)

abbrev pub root_options : Bytes
root_options = codes "  /               ext4    noatime,errors=remount-ro  0       1"

abbrev pub esp_options : Bytes
esp_options = codes "  /boot/efi       vfat    umask=0077      0       2"

abbrev pub swap_options : Bytes
swap_options = codes "  none            swap    sw              0       0"

module _ (host : Host) where
  -- The command goes through `popen`, and not into the log of the commands run by `system`.
  unfoldable pub fetch_partition_uuid : Bytes → ℕ → Option Bytes
  unfolding uuid_of
  fetch_partition_uuid part_dev max_len =
      let cmd =
        snprintf 512 (codes "blkid -s UUID -o value " ++ part_dev ++ codes " 2>/dev/null") in
      elim (host.first_line cmd) [ none ↦ none | some output ↦ uuid_of max_len output ]

  unfoldable pub optional_line : Bytes → Bytes → List Bytes
  optional_line [] rest = []
  optional_line (c ∷ cs) rest = entry_line (fetch_partition_uuid (c ∷ cs) 128) (c ∷ cs) rest ∷ []

  -- The lines of the file, without their newlines.
  unfoldable pub fstab_lines : Bytes → Bytes → Bytes → List Bytes
  unfolding optional_line
  fstab_lines root_part esp_part swap_part =
      codes "# /etc/fstab: Static file system information for TizenOS"
      ∷ codes
          "# <file system>                           <mount point>   <type>  <options>       <dump>  <pass>"
      ∷ []
      ∷ entry_line (fetch_partition_uuid root_part 128) root_part root_options
      ∷ (optional_line esp_part esp_options
          ++ (optional_line swap_part swap_options
              ++ (codes
                    "tmpfs                                      /tmp            tmpfs   defaults,noatime,mode=1777 0 0"
                  ∷ codes
                      "tmpfs                                      /dev/shm        tmpfs   defaults,nosuid,nodev 0 0"
                  ∷ [])))

  pub fstab_path : Bytes
  fstab_path = snprintf 512 (target_mount ++ codes "/etc/fstab")

  -- `target_install_generate_fstab`
  unfoldable pub target_install_generate_fstab : Bytes → Bytes → Bytes → M Bool
  target_install_generate_fstab root_part esp_part swap_part t =
      let written = write_file fstab_path (unlines (fstab_lines root_part esp_part swap_part)) t in
      if host.can_write fstab_path then (true, written.1) else (false, t)
