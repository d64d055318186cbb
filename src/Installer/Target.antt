-- ===== src/Installer/Target.antt =====
-- target-install.c: copying the system to the target and installing the boot loader.
use tizen_os.Base.{
  ℕ, ◌/◌, ◌%◌, ◌≡◌, ◌∙◌, Bool, true, Option, none, some, List, [], ◌∷◌, ◌++◌, append_assoc,
  append-nil, if◌then◌else◌,
}
use tizen_os.Libc.{Bytes, codes, snprintf}
use tizen_os.Installer.Shell.{
  Host, Trace, M, ◌>>=◌, ◌>>◌, return, system, succeeded, issue_all, make_dir,
}
use tizen_os.Installer.Partman.{flush}

abbrev pub target_mount : Bytes
target_mount = codes "/mnt/target"

abbrev pub live_rootfs : Bytes
live_rootfs = codes "/run/live/rootfs"

-- The code behind a wait status: `WEXITSTATUS`.
abbrev exit_status : ℕ → ℕ
exit_status status = status / 256 % 256

-- What `run_cmd` returns: -1 is none.
abbrev pub exit_code : Option ℕ → Option ℕ
exit_code none = none
exit_code (some status) = some (exit_status status)

abbrev excludes : Bytes
excludes =
    codes "--exclude='/proc/*' --exclude='/sys/*' --exclude='/dev/*' "
    ++ codes "--exclude='/tmp/*' --exclude='/run/*' --exclude='/mnt/*' "
    ++ codes "--exclude='/media/*' --exclude='/lost+found' "

abbrev pub rsync : Bytes → Bytes → Bytes
rsync from target =
    codes "rsync -aHAX --info=progress2 " ++ excludes ++ from ++ codes "/ " ++ target ++ codes "/"

abbrev remove_file : Bytes → Bytes
remove_file path = codes "rm -f " ++ target_mount ++ path ++ codes " 2>/dev/null || true"

abbrev pub cleanup : List Bytes
cleanup =
    remove_file (codes "/etc/skel/.config/autostart/tizenos-installer.desktop")
    ∷ remove_file (codes "/etc/skel/.config/autostart/tizenos-welcome.desktop")
    ∷ remove_file (codes "/home/*/.config/autostart/tizenos-installer.desktop")
    ∷ remove_file (codes "/home/*/.config/autostart/tizenos-welcome.desktop")
    ∷ []

abbrev pub efivars : Bytes
efivars = codes "/sys/firmware/efi/efivars"

abbrev pub bind : Bytes → Bytes
bind dir = codes "mount --bind " ++ dir ++ codes " " ++ target_mount ++ dir

abbrev pub unbind : Bytes → Bytes
unbind dir = codes "umount -l " ++ target_mount ++ dir ++ codes " 2>/dev/null || true"

abbrev pub chroot : Bytes → Bytes
chroot what = codes "chroot " ++ target_mount ++ codes " " ++ what ++ codes " 2>/dev/null || true"

abbrev pub target_of : Option Bytes → Bytes
target_of none = target_mount
target_of (some d) = d

-- The commands of `bind_virtual_fs`; the flag tells whether `efivars` is there.
abbrev pub bind_commands : Bool → List Bytes
bind_commands efi =
    bind (codes "/dev")
    ∷ bind (codes "/dev/pts")
    ∷ bind (codes "/proc")
    ∷ bind (codes "/sys")
    ∷ bind (codes "/run")
    ∷ (if efi
        then (codes "mkdir -p " ++ target_mount ++ efivars ++ codes " 2>/dev/null || true")
          ∷ (bind efivars ++ codes " 2>/dev/null || true")
          ∷ []
        else [])

-- The commands of `unbind_virtual_fs`.
abbrev pub unbind_commands : List Bytes
unbind_commands =
    unbind efivars
    ∷ unbind (codes "/dev/pts")
    ∷ unbind (codes "/dev")
    ∷ unbind (codes "/proc")
    ∷ unbind (codes "/sys")
    ∷ unbind (codes "/run")
    ∷ []

-- What `target_install_grub` runs between the two.
abbrev pub loader_commands : Bytes → List Bytes
loader_commands disk =
    snprintf 1024 (chroot (codes "grub-install --target=i386-pc --recheck " ++ disk))
    ∷ snprintf 1024 (
        chroot (
          codes "grub-install --target=x86_64-efi --efi-directory=/boot/efi "
          ++ codes "--bootloader-id=TizenOS --recheck --removable"))
    ∷ chroot (codes "systemctl enable open-vm-tools.service")
    ∷ chroot (codes "update-initramfs -u -k all")
    ∷ chroot (codes "update-grub")
    ∷ codes "sync"
    ∷ snprintf 1024 (flush disk)
    ∷ []

abbrev pub closing_commands : List Bytes
closing_commands =
    (codes "umount -R " ++ target_mount ++ codes " 2>/dev/null || true") ∷ codes "sync" ∷ []

abbrev pub grub_commands : Bool → Bytes → List Bytes
grub_commands efi disk =
    bind_commands efi ++ (loader_commands disk ++ (unbind_commands ++ closing_commands))

module _ (host : Host) where
  -- `run_cmd`
  unfoldable pub run_cmd : Bytes → M (Option ℕ)
  run_cmd cmd t = let (status, t') = system host cmd t in (exit_code status, t')

  unfoldable pub run_cmds : List Bytes → M (Unit {0})
  unfolding run_cmd
  run_cmds [] t = (tt, t)
  run_cmds (c ∷ cs) t = run_cmds cs (run_cmd c t).1

  pub run_cmds_lem : (cs : List Bytes) (t : Trace) → run_cmds cs t ≡ (tt, issue_all cs t)
  unfolding run_cmds
  run_cmds_lem [] t = simp append-nil
  run_cmds_lem (c ∷ cs) t = run_cmds_lem cs (run_cmd c t).1 ∙ simp append_assoc

  pub copy_running : Bytes → M Bool
  copy_running target = do
    res ← run_cmd (snprintf 1024 (rsync [] target))
    run_cmds cleanup
    return (succeeded res)

  pub copy_live : Bytes → M Bool
  unfolding copy_running
  copy_live target t =
      let (res, t') = run_cmd (snprintf 1024 (rsync live_rootfs target)) t in
      let again = copy_running target t' in
      if succeeded res then (true, (run_cmds cleanup t').1) else again

  -- `target_install_copy_rootfs`; the first argument, `source`, is not used by the code.
  unfoldable pub target_install_copy_rootfs : Option Bytes → Option Bytes → M Bool
  unfolding copy_running copy_live
  target_install_copy_rootfs source dest t =
      let target = target_of dest in
      let t' = (make_dir target t).1 in
      if host.has_path live_rootfs then copy_live target t' else copy_running target t'

  bind_virtual_fs : M Bool
  bind_virtual_fs = do run_cmds (bind_commands (host.has_path efivars)); return true

  unbind_virtual_fs : M Bool
  unbind_virtual_fs = do run_cmds unbind_commands; return true

  -- `target_install_grub`; the flag `is_uefi` is not used by the code.
  pub target_install_grub : Bytes → Bool → M Bool
  unfolding bind_virtual_fs unbind_virtual_fs
  target_install_grub disk is_uefi = do
    bind_virtual_fs
    run_cmds (loader_commands disk)
    unbind_virtual_fs
    run_cmds closing_commands
    return true

  pub target_install_grub_lem :
      (disk : Bytes) (is_uefi : Bool) (t : Trace)
      → target_install_grub disk is_uefi t
        ≡ (true, issue_all (grub_commands (host.has_path efivars) disk) t)
  unfolding target_install_grub
  target_install_grub_lem disk is_uefi t = simp (run_cmds_lem, append_assoc)
