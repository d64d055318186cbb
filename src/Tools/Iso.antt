-- ===== src/Tools/Iso.antt =====
-- tools/archive-mount/src/iso-mount.c and iso-mount-cli.c, on the machine of the installer's `Shell`.
use tizen_os.Base.{
  ◌+◌, ◌≡◌, ◌≢◌, ◌↔◌, ◌⊎◌, Bool, true, some, [], ◌∷◌, ◌++◌, arith, if◌then◌else◌, length,
  length-append, ℕ, ◌≤◌, inl, inr, false, List,
}
use tizen_os.Libc.{Bytes, codes, snprintf, str_eq}
use tizen_os.Installer.Shell.{Host, Trace, M, system_in, succeeded}

abbrev pub loop_setup : Bytes → Bytes
loop_setup iso_path = codes "udisksctl loop-setup -r -f \"" ++ (iso_path ++ codes "\"")

abbrev pub loop_mount : Bytes → Bytes → Bytes
loop_mount iso_path mount_point =
    codes "sudo mount -o loop \"" ++ (iso_path ++ (codes "\" \"" ++ (mount_point ++ codes "\"")))

module _ (host : Host) where
  unfoldable pub mount_iso : Bytes → Bytes → M Bool
  mount_iso iso_path mount_point t =
      let (ret, t') = system_in host 512 (loop_setup iso_path) t in
      if succeeded ret
      then (true, t')
      else (let (again, t'') = system_in host 512 (loop_mount iso_path mount_point) t' in
          (succeeded again, t''))

  unfoldable pub unmount_iso : Bytes → M Bool
  unmount_iso mount_point t =
      let (ret, t') =
        system_in host 512 (codes "sudo umount \"" ++ (mount_point ++ codes "\"")) t in
      (succeeded ret, t')

  -- Mounting reports success exactly if `udisksctl` ends with status 0 or else the loop mount does;
  -- the second command runs only if the first failed, and nothing else runs.
  pub mount_iso_lem :
      (iso_path mount_point : Bytes) (t : Trace)
      → let first = snprintf 512 (loop_setup iso_path) in
        let second = snprintf 512 (loop_mount iso_path mount_point) in
        let n = length t.commands in
        let (ok, after) = mount_iso iso_path mount_point t in
        ((ok ≡ true) ↔ (
          (host.answer n first ≡ some 0)
          ⊎ ((host.answer n first ≢ some 0) × (host.answer (n + 1) second ≡ some 0))))
        × ((after.commands ≡ t.commands ++ first ∷ [])
            ⊎ ((host.answer n first ≢ some 0)
                × (after.commands ≡ (t.commands ++ first ∷ []) ++ second ∷ [])))
  unfolding mount_iso
  mount_iso_lem iso_path mount_point t =
      let first = snprintf 512 (loop_setup iso_path) in
      let next = length-append t.commands (first ∷ []) in ground (arith, next)

  -- `main` of iso-mount-cli.c, on the words after the program's name: its status.
  unfoldable pub main : List Bytes → M ℕ
  main [] t = (1, t)
  main (command ∷ []) t = (1, t)
  main (command ∷ path ∷ []) t =
      if str_eq command (codes "mount")
      then (1, t)
      else if str_eq command (codes "unmount")
      then (0, (unmount_iso path t).1)
      else (0, t)
  main (command ∷ path ∷ mount_point ∷ more) t =
      if str_eq command (codes "mount")
      then (0, (mount_iso path mount_point t).1)
      else if str_eq command (codes "unmount")
      then (0, (unmount_iso path t).1)
      else (0, t)

  -- Whether a word is missing.
  unfoldable pub is_short : List Bytes → Bool
  is_short [] = true
  is_short (command ∷ []) = true
  is_short (command ∷ path ∷ []) = str_eq command (codes "mount")
  is_short (command ∷ path ∷ mount_point ∷ more) = false

  mount_iso-length :
      (iso_path mount_point : Bytes) (t : Trace)
      → length (mount_iso iso_path mount_point t).1.commands ≤ length t.commands + 2
  mount_iso-length iso_path mount_point t = elim (mount_iso_lem iso_path mount_point t).1 [
    | inl one ↦
        rw one (omega (arith, length-append t.commands (snprintf 512 (loop_setup iso_path) ∷ [])))
    | inr (failed, two) ↦
        let first = t.commands ++ snprintf 512 (loop_setup iso_path) ∷ [] in
        rw two (
          omega (
            arith,
            length-append t.commands (snprintf 512 (loop_setup iso_path) ∷ []),
            length-append first (snprintf 512 (loop_mount iso_path mount_point) ∷ []),
          ))
  ]

  unmount_iso-length :
      (mount_point : Bytes) (t : Trace)
      → length (unmount_iso mount_point t).1.commands ≡ length t.commands + 1
  unfolding unmount_iso
  unmount_iso-length mount_point t =
      let command = snprintf 512 (codes "sudo umount \"" ++ (mount_point ++ codes "\"")) in
      length-append t.commands (command ∷ [])

  -- The status says only whether a word is missing, and then nothing runs; it is the one of success
  -- whatever the commands answer, and for a command that there is not; and at most two commands run.
  pub iso_main_lem :
      (words : List Bytes) (t : Trace)
      → let (status, after) = main words t in
        (status ≡ (if is_short words then 1 else 0))
        × (length after.commands ≤ length t.commands + (if is_short words then 0 else 2))
  unfolding main is_short
  iso_main_lem [] t = ground arith
  iso_main_lem (command ∷ []) t = ground arith
  iso_main_lem (command ∷ path ∷ []) t = ground (arith, unmount_iso-length path t)
  iso_main_lem (command ∷ path ∷ mount_point ∷ more) t =
      ground (arith, unmount_iso-length path t, mount_iso-length path mount_point t)
