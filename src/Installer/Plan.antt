-- ===== src/Installer/Plan.antt =====
-- What an installation runs, whatever its commands answer.
use tizen_os.Base.{
  ℕ, ◌+◌, ◌≡◌, ap, ◌∙◌, inl, inr, Bool, true, none, some, List, [], ◌∷◌, ◌++◌, append_assoc, arith,
  Bool-cases, length, length-append,
}
use tizen_os.Libc.{Bytes, snprintf}
use tizen_os.Installer.Shell.{Host, Trace, formatted, succeeded}
use tizen_os.Installer.Partman.{
  erase_commands, format_commands, partman_erase_disk, partman_format_partitions,
  partman_erase_disk_lem, partman_format_partitions_lem,
}
use tizen_os.Installer.Target.{
  target_mount, run_cmd, run_cmds_lem, rsync, live_rootfs, efivars, target_install_copy_rootfs,
  grub_commands, target_install_grub, target_install_grub_lem, exit_code,
}
use tizen_os.Installer.Fstab.{target_install_generate_fstab}
use tizen_os.Installer.Users.{
  account_commands, hostname_path, hostname_commands, autologin_command, user_setup_create_account,
  user_setup_set_hostname, user_setup_enable_autologin, commands-create_account,
  commands-set_hostname, commands-enable_autologin,
}
use tizen_os.Installer.Run.{
  Form, esp_part, swap_part, root_part, selected_disk, mount_commands, username_of, fullname_of,
  password_of, hostname_of, run_installation, copy_commands, plan, mount_target,
}

extend :
    (xs b c : List Bytes) {ys zs : List Bytes} → ys ≡ xs ++ b → zs ≡ ys ++ c → zs ≡ xs ++ (b ++ c)
extend xs b c p q = q ∙ rw p (append_assoc xs b c)

module _ (host : Host) where
  commands-copy :
      (t : Trace)
      → (target_install_copy_rootfs host none (some target_mount) t).1.commands
        ≡ t.commands ++ copy_commands host (length t.commands)
  unfolding target_install_copy_rootfs run_cmd copy_commands
  commands-copy t =
      let live = snprintf 1024 (rsync live_rootfs target_mount) in
      elim (Bool-cases (host.has_path live_rootfs)) [
        | inl e ↦ elim (Bool-cases (succeeded (exit_code (host.answer (length t.commands) live)))) [
          | inl k ↦ simp (e, k, run_cmds_lem, append_assoc)
          | inr k ↦ simp (e, k, run_cmds_lem, append_assoc)
        ]
        | inr e ↦ simp (e, run_cmds_lem, append_assoc)
      ]

  commands-mount :
      (form : Form) (t : Trace)
      → (mount_target host form t).1.commands ≡ t.commands ++ mount_commands form
  unfolding mount_target
  commands-mount form t = simp append_assoc

  commands-fstab :
      (root esp swap : Bytes) (t : Trace)
      → (target_install_generate_fstab host root esp swap t).1.commands ≡ t.commands
  unfolding target_install_generate_fstab
  commands-fstab root esp swap t = ground arith

  commands-grub :
      (disk : Bytes) (is_uefi : Bool) (t : Trace)
      → (target_install_grub host disk is_uefi t).1.commands
        ≡ t.commands ++ grub_commands (host.has_path efivars) disk
  commands-grub disk is_uefi t = rw (target_install_grub_lem host disk is_uefi t)

  -- An installation runs the commands of its plan, in order: the disk is partitioned, formatted,
  -- mounted and copied to, the account set up and the boot loader installed, and no answer of a command
  -- stops it or changes which follow, but for the one that chooses the second copy.
  pub commands-run_installation :
      (form : Form) (t : Trace)
      → (run_installation host form t).1.commands ≡ t.commands ++ plan host form (length t.commands)
  unfolding run_installation plan
  commands-run_installation form t =
      let erase = formatted 512 (erase_commands (selected_disk form)) in
      let format =
        formatted 512 (format_commands (esp_part form) (swap_part form) (root_part form)) in
      let before = erase ++ (format ++ mount_commands form) in
      let t1 = (partman_erase_disk host (selected_disk form) t).1 in
      let t2 =
        (partman_format_partitions host (esp_part form) (swap_part form) (root_part form) t1).1 in
      let t3 = (mount_target host form t2).1 in
      let t4 = (target_install_copy_rootfs host none (some target_mount) t3).1 in
      let t5 =
        (target_install_generate_fstab host (root_part form) (esp_part form) (swap_part form)
          t4).1 in
      let t6 =
        (user_setup_create_account host (username_of form) (password_of form) (fullname_of form)
          t5).1 in
      let t7 = (user_setup_set_hostname host (hostname_of form) t6).1 in
      let t8 = (user_setup_enable_autologin host (username_of form) t7).1 in
      let q1 : t1.commands ≡ t.commands ++ erase =
        ap (λ (r : Bool × Trace). r.1.commands)
          (partman_erase_disk_lem host (selected_disk form) t) in
      let q2 : t2.commands ≡ t1.commands ++ format =
        ap (λ (r : Trace). r.commands)
          (partman_format_partitions_lem host (esp_part form) (swap_part form) (root_part form)
            t1) in
      let q3 : t3.commands ≡ t.commands ++ before =
        extend t.commands erase (format ++ mount_commands form) q1
          (extend t1.commands format (mount_commands form) q2 (commands-mount form t2)) in
      let counted : length t3.commands ≡ length t.commands + length before =
        ap length q3 ∙ length-append t.commands before in
      let q4 = commands-copy t3 ∙ ap (λ (k : ℕ). t3.commands ++ copy_commands host k) counted in
      let q5 = commands-fstab (root_part form) (esp_part form) (swap_part form) t4 in
      let account =
        formatted 1024
          (account_commands (username_of form) (password_of form) (fullname_of form)) in
      let q6 =
        commands-create_account host (username_of form) (password_of form) (fullname_of form) t5
        ∙ ap (λ (c : List Bytes). c ++ account) q5 in
      let q7 = commands-set_hostname host (hostname_of form) t6 in
      let q8 = commands-enable_autologin host (username_of form) t7 in
      let grub = grub_commands (host.has_path efivars) (selected_disk form) in
      let named = hostname_commands (host.can_write hostname_path) (hostname_of form) in
      extend t.commands before _ q3 (
        extend t3.commands (copy_commands host (length t.commands + length before)) _ q4 (
          extend t4.commands account _ q6 (
            extend t6.commands named _ q7 (
              extend t7.commands (autologin_command ∷ []) grub q8
                (commands-grub (selected_disk form) true t8)))))
