-- ===== src/Installer/Run.antt =====
-- `run_installation` of installer-ui.c: what it reads from the form, and all that it runs. The form
-- holds the texts of the entries, and the disk that is selected, if the list has one.
use tizen_os.Base.{
  ℕ, ◌+◌, true, ◌||◌, Option, none, some, List, [], ◌∷◌, ◌++◌, if◌then◌else◌, length, take,
}
use tizen_os.Libc.{Bytes, codes, snprintf, str_contains}
use tizen_os.Installer.Shell.{Host, M, ◌>>◌, return, system, system_in, succeeded, formatted}
use tizen_os.Installer.Partman.{
  erase_commands, format_commands, partman_erase_disk, partman_format_partitions,
}
use tizen_os.Installer.Target.{
  exit_code, rsync, live_rootfs, efivars, target_mount, cleanup, target_install_copy_rootfs,
  grub_commands, target_install_grub,
}
use tizen_os.Installer.Fstab.{target_install_generate_fstab}
use tizen_os.Installer.Users.{
  account_commands, hostname_path, hostname_commands, autologin_command, user_setup_create_account,
  user_setup_set_hostname, user_setup_enable_autologin,
}

pub record Form : Type 0 where
  pub disk : Option Bytes
  pub username : Bytes
  pub fullname : Bytes
  pub password : Bytes
  pub hostname : Bytes

abbrev pub or_default : Bytes → Bytes → Bytes
or_default [] d = d
or_default (c ∷ cs) d = c ∷ cs

-- `%.240s`
abbrev pub shorten : Bytes → Bytes
shorten s = take 240 s

unfoldable pub disk_of : Option Bytes → Bytes
disk_of none = codes "/dev/sda"
disk_of (some []) = codes "/dev/sda"
disk_of (some (c ∷ cs)) = snprintf 256 (shorten (c ∷ cs))

unfoldable pub selected_disk : Form → Bytes
unfolding disk_of
selected_disk form = disk_of form.disk

-- The device of a partition of the disk.
unfoldable pub partition : Bytes → ℕ → Bytes
partition disk digit =
    if str_contains disk (codes "nvme") || str_contains disk (codes "mmcblk")
    then snprintf 512 (shorten disk ++ b'p' ∷ digit ∷ [])
    else snprintf 512 (shorten disk ++ digit ∷ [])

abbrev pub esp_part : Form → Bytes
esp_part form = partition (selected_disk form) b'2'

abbrev pub swap_part : Form → Bytes
swap_part form = partition (selected_disk form) b'3'

abbrev pub root_part : Form → Bytes
root_part form = partition (selected_disk form) b'4'

abbrev pub username_of : Form → Bytes
username_of form = or_default form.username (codes "tizen")

abbrev pub fullname_of : Form → Bytes
fullname_of form = or_default form.fullname (codes "TizenOS User")

abbrev pub password_of : Form → Bytes
password_of form = or_default form.password (codes "live")

abbrev pub hostname_of : Form → Bytes
hostname_of form = or_default form.hostname (codes "TizenOS-PC")

abbrev pub mount_command : Form → Bytes
mount_command form =
    codes "mount "
    ++ root_part form
    ++ codes " /mnt/target && mkdir -p /mnt/target/boot/efi && mount "
    ++ esp_part form
    ++ codes " /mnt/target/boot/efi"

abbrev pub mount_commands : Form → List Bytes
mount_commands form = codes "mkdir -p /mnt/target" ∷ snprintf 2048 (mount_command form) ∷ []

module _ (host : Host) where
  unfoldable pub mount_target : Form → M (Unit {0})
  mount_target form = do
    system host (codes "mkdir -p /mnt/target")
    system_in host 2048 (mount_command form)
    return tt

  -- The five steps; the results of the calls are not read.
  unfoldable pub run_installation : Form → M (Unit {0})
  run_installation form = do
    partman_erase_disk host (selected_disk form)
    partman_format_partitions host (esp_part form) (swap_part form) (root_part form)
    mount_target form
    target_install_copy_rootfs host none (some target_mount)
    target_install_generate_fstab host (root_part form) (esp_part form) (swap_part form)
    user_setup_create_account host (username_of form) (password_of form) (fullname_of form)
    user_setup_set_hostname host (hostname_of form)
    user_setup_enable_autologin host (username_of form)
    target_install_grub host (selected_disk form) true
    return tt

  -- The commands of the copy, where `n` commands have run before.
  unfoldable pub copy_commands : ℕ → List Bytes
  copy_commands n =
      let live = snprintf 1024 (rsync live_rootfs target_mount) in
      let running = snprintf 1024 (rsync [] target_mount) in
      if host.has_path live_rootfs
      then (if succeeded (exit_code (host.answer n live))
          then live ∷ cleanup
          else live ∷ running ∷ cleanup)
      else running ∷ cleanup

  -- All that an installation runs.
  unfoldable pub plan : Form → ℕ → List Bytes
  plan form n =
      let before =
        formatted 512 (erase_commands (selected_disk form))
        ++ (formatted 512 (format_commands (esp_part form) (swap_part form) (root_part form))
            ++ mount_commands form) in
      before
      ++ (copy_commands (n + length before)
          ++ (formatted 1024
                (account_commands (username_of form) (password_of form) (fullname_of form))
              ++ (hostname_commands (host.can_write hostname_path) (hostname_of form)
                  ++ (autologin_command
                      ∷ grub_commands (host.has_path efivars) (selected_disk form)))))
