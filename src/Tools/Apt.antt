-- ===== src/Tools/Apt.antt =====
-- package-manager/pkgmgr-client/src/pkgmgr-cli.c: the program tpkg. The package manager that it calls,
-- and the shell, are outside: what is modelled is which of them it calls, and with what.
use tizen_os.Base.{
  ℕ, suc, ◌+◌, ◌-◌, ◌≤◌, ◌≡◌, sym, ◌∙◌, List, [], ◌∷◌, ◌++◌, append_assoc, append-nil, arith,
  if◌then◌else◌, length, take, length-append, length-take, take_all,
}
use tizen_os.Libc.{Bytes, codes, str_eq, snprintf, strncat}

pub data Call : Type 0 where
  pkgmgr_install pkgmgr_uninstall system : Bytes → Call
  usage : Call

-- One round of the loop, on a buffer of 256 bytes.
pub append_arg : Bytes → Bytes → Bytes
append_arg apt_cmd arg =
    let spaced = strncat apt_cmd (codes " ") (256 - length apt_cmd - 1) in
    strncat spaced arg (256 - length spaced - 1)

pub append_args : Bytes → List Bytes → Bytes
append_args apt_cmd [] = apt_cmd
append_args apt_cmd (arg ∷ args) = append_args (append_arg apt_cmd arg) args

pub apt_command : Bytes → List Bytes → Bytes
apt_command first more = append_args (snprintf 256 (codes "apt-get " ++ first)) more

-- `main`, on the arguments behind the program's name: the exit code and the calls.
unfoldable pub main : List Bytes → ℕ × List Call
main [] = (1, usage ∷ [])
main (cmd ∷ []) = (0, usage ∷ [])
main (cmd ∷ first ∷ more) =
    if str_eq cmd (codes "install")
    then (0, pkgmgr_install first ∷ [])
    else if str_eq cmd (codes "remove")
    then (0, pkgmgr_uninstall first ∷ [])
    else if str_eq cmd (codes "apt")
    then (0, system (apt_command first more) ∷ [])
    else (0, usage ∷ [])

-- The words, each behind a space.
pub spaced : List Bytes → Bytes
spaced [] = []
spaced (w ∷ ws) = b' ' ∷ (w ++ spaced ws)

append_arg-bounded : (cmd arg : Bytes) → length cmd ≤ 255 → length (append_arg cmd arg) ≤ 255
unfolding append_arg
append_arg-bounded cmd arg h =
    let next = strncat cmd (codes " ") (256 - length cmd - 1) in
    let a = length-append cmd (take (256 - length cmd - 1) (codes " ")) in
    let b = length-take (256 - length cmd - 1) (codes " ") in
    let c = length-append next (take (256 - length next - 1) arg) in
    let d = length-take (256 - length next - 1) arg in omega arith

append_args-bounded :
    (args : List Bytes) (cmd : Bytes) → length cmd ≤ 255 → length (append_args cmd args) ≤ 255
unfolding append_args
append_args-bounded [] cmd h = h
append_args-bounded (a ∷ more) cmd h =
    append_args-bounded more (append_arg cmd a) (append_arg-bounded cmd a h)

append_arg_fits :
    (cmd arg : Bytes) → length cmd + suc (length arg) ≤ 255 → append_arg cmd arg ≡ cmd ++ b' ' ∷ arg
unfolding append_arg
append_arg_fits cmd arg h =
    let e = take_all (256 - length cmd - 1) (codes " ") (omega arith) in
    let l = length-append cmd (codes " ") in
    let f = take_all (256 - length (cmd ++ codes " ") - 1) arg (omega arith) in
    rw (e) (rw (f) (append_assoc cmd (codes " ") arg))

append_args_fits :
    (args : List Bytes) (cmd : Bytes)
    → length cmd + length (spaced args) ≤ 255
    → append_args cmd args ≡ cmd ++ spaced args
unfolding append_args spaced
append_args_fits [] cmd h = sym (append-nil cmd)
append_args_fits (a ∷ more) cmd h =
    let l = length-append a (spaced more) in
    let e = append_arg_fits cmd a (omega arith) in
    let n = length-append cmd (b' ' ∷ a) in
    rw e (
      append_args_fits more (cmd ++ b' ' ∷ a) (omega arith)
      ∙ append_assoc cmd (b' ' ∷ a) (spaced more))

-- The command that tpkg hands to the shell never outgrows its buffer of 256 bytes, with its NUL,
-- whatever the arguments; and where all of it fits, it is `apt-get` and the arguments, each behind a
-- space.
pub apt_command_lem :
    (first : Bytes) (more : List Bytes)
    → (length (apt_command first more) ≤ 255)
      × (length (codes "apt-get" ++ spaced (first ∷ more)) ≤ 255
          → apt_command first more ≡ codes "apt-get" ++ spaced (first ∷ more))
unfolding apt_command spaced
apt_command_lem first more = (
  append_args-bounded more _ (omega (arith, length-take 255 (codes "apt-get " ++ first))),
  λ h.
      let l = length-append first (spaced more) in
      let whole = take_all 255 (codes "apt-get " ++ first) (omega arith) in
      rw (whole) (append_args_fits more (codes "apt-get " ++ first) (omega arith)),
)
