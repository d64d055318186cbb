-- ===== src/Installer/Mounts.antt =====
-- The result of the copy, and the mounts that the boot loader's installation leaves behind.
use tizen_os.Base.{
  ℕ, ◌+◌, ◌≡◌, refl, ◌↔◌, ◌⊎◌, Bool, true, false, Option, some, List, [], ◌∷◌, arith, if◌then◌else◌,
  length, length-append,
}
use tizen_os.Libc.{Bytes, codes, str_eq, starts_with, snprintf}
use tizen_os.Installer.Shell.{Host, Trace}
use tizen_os.Installer.Target.{
  exit_code, rsync, live_rootfs, efivars, bind, unbind, target_of, cleanup, run_cmd, run_cmds_lem,
  target_install_copy_rootfs, grub_commands,
}

-- The exit code of a command that is the `n`-th to run.
abbrev pub code_of : Host → ℕ → Bytes → Option ℕ
code_of host n cmd = exit_code (host.answer n (snprintf 1024 cmd))

-- Copying reports success exactly if the live system is there and its rsync ends with code 0, or else
-- the rsync of the running system does, where what counts is the byte above the low eight bits of the
-- wait status.
pub copy_rootfs_lem :
    (host : Host) (source dest : Option Bytes) (t : Trace)
    → let n = length t.commands in
      ((target_install_copy_rootfs host source dest t).0 ≡ true) ↔ (
        (((host.has_path live_rootfs) ≡ true)
          × ((code_of host n (rsync live_rootfs (target_of dest)) ≡ some 0)
              ⊎ (code_of host (n + 1) (rsync [] (target_of dest)) ≡ some 0)))
        ⊎ (((host.has_path live_rootfs) ≡ false)
            × (code_of host n (rsync [] (target_of dest)) ≡ some 0)))
unfolding target_install_copy_rootfs run_cmd
copy_rootfs_lem host source dest t =
    let live = snprintf 1024 (rsync live_rootfs (target_of dest)) in
    let next = length-append t.commands (live ∷ []) in
    (λ h. ground (arith, run_cmds_lem host cleanup, next), λ h. ground (arith, next))

abbrev all_dirs : List Bytes
all_dirs =
    efivars ∷ codes "/dev" ∷ codes "/dev/pts" ∷ codes "/proc" ∷ codes "/sys" ∷ codes "/run" ∷ []

-- What one command does to the directories that are bound, with the newest first.
remove_dir : Bytes → List Bytes → List Bytes
remove_dir d [] = []
remove_dir d (x ∷ xs) = if str_eq x d then xs else x ∷ remove_dir d xs

effect_on : Bytes → List Bytes → List Bytes → List Bytes
effect_on cmd [] bound = bound
effect_on cmd (d ∷ ds) bound =
    let rest = effect_on cmd ds bound in
    if starts_with (bind d) cmd
    then d ∷ rest
    else if str_eq cmd (unbind d)
    then remove_dir d rest
    else rest

-- The directories that a log of commands leaves bound, from those bound before.
pub still_bound : List Bytes → List Bytes → List Bytes
unfolding effect_on remove_dir
still_bound bound [] = bound
still_bound bound (c ∷ cs) = still_bound (effect_on c all_dirs bound) cs

-- Installing the boot loader leaves none of the directories that it binds into the target, with the
-- EFI variables or without.
pub still_bound-grub : (efi : Bool) (disk : Bytes) → still_bound [] (grub_commands efi disk) ≡ []
unfolding still_bound starts_with str_eq
still_bound-grub true disk = refl
still_bound-grub false disk = refl
