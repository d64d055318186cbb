-- ===== src/Installer/Users.antt =====
-- user-setup.c: the account, the host name and the automatic login on the target.
use tizen_os.Base.{
  ◌+◌, ◌≡◌, Bool, true, false, List, [], ◌∷◌, ◌++◌, append_assoc, append-nil, arith, if◌then◌else◌,
  length, length-append,
}
use tizen_os.Libc.{Bytes, codes, snprintf}
use tizen_os.Installer.Shell.{
  Host, Trace, M, ◌>>=◌, ◌>>◌, return, system, system_in, succeeded, formatted, write_file,
}
use tizen_os.Installer.Target.{target_mount}

abbrev bash : Bytes → Bytes
bash script = codes "chroot " ++ target_mount ++ codes " /bin/bash -c \"" ++ script ++ codes "\""

abbrev useradd : Bytes → Bytes → Bytes
useradd username fullname = bash (
    codes "groupadd -r nopasswdlogin 2>/dev/null || true; useradd -m -c '"
    ++ fullname
    ++ codes "' -G sudo,nopasswdlogin -s /bin/bash "
    ++ username
    ++ codes " 2>/dev/null || usermod -aG sudo,nopasswdlogin "
    ++ username
    ++ codes " 2>/dev/null || true")

abbrev chpasswd : Bytes → Bytes → Bytes
chpasswd username password =
    bash (codes "echo '" ++ username ++ codes ":" ++ password ++ codes "' | chpasswd")

abbrev chown : Bytes → Bytes
chown username = bash (
    codes "chown -R "
    ++ username
    ++ codes ":"
    ++ username
    ++ codes " /home/"
    ++ username
    ++ codes " 2>/dev/null || true")

abbrev pub account_commands : Bytes → Bytes → Bytes → List Bytes
account_commands username password fullname =
    useradd username fullname
    ∷ chpasswd username password
    ∷ bash (codes "echo 'root:tizenroot' | chpasswd")
    ∷ chown username
    ∷ []

abbrev pub hostname_path : Bytes
hostname_path = target_mount ++ codes "/etc/hostname"

-- The command for a host name where the file cannot be written.
abbrev pub hostname_commands : Bool → Bytes → List Bytes
hostname_commands true hostname = []
hostname_commands false hostname =
    snprintf 256 (codes "echo \"" ++ hostname ++ codes "\" > /etc/hostname") ∷ []

abbrev pub autologin_path : Bytes
autologin_path = target_mount ++ codes "/etc/lightdm/lightdm.conf.d/80-tizenos-autologin.conf"

abbrev pub autologin_command : Bytes
autologin_command = codes "mkdir -p " ++ target_mount ++ codes "/etc/lightdm/lightdm.conf.d"

abbrev autologin_text : Bytes → Bytes
autologin_text username =
    codes "[Seat:*]\nautologin-user="
    ++ username
    ++ codes "\nautologin-user-timeout=0\nuser-session=xfce\npam-service=lightdm-autologin\n"

module _ (host : Host) where
  pub user_setup_create_account : Bytes → Bytes → Bytes → M Bool
  user_setup_create_account username password fullname = do
    system_in host 1024 (useradd username fullname)
    res ← system_in host 1024 (chpasswd username password)
    system_in host 1024 (bash (codes "echo 'root:tizenroot' | chpasswd"))
    system_in host 1024 (chown username)
    return (succeeded res)

  pub user_setup_set_hostname : Bytes → M Bool
  user_setup_set_hostname hostname t =
      let written = write_file hostname_path (hostname ++ codes "\n") t in
      let (status, t') =
        system_in host 256 (codes "echo \"" ++ hostname ++ codes "\" > /etc/hostname") t in
      if host.can_write hostname_path then (true, written.1) else (succeeded status, t')

  pub user_setup_enable_autologin : Bytes → M Bool
  user_setup_enable_autologin username t =
      let (status, t') = system host autologin_command t in
      let written = write_file autologin_path (autologin_text username) t' in
      if host.can_write autologin_path then (true, written.1) else (true, t')

  pub commands-create_account :
      (username password fullname : Bytes) (t : Trace)
      → (user_setup_create_account username password fullname t).1.commands
        ≡ t.commands ++ formatted 1024 (account_commands username password fullname)
  unfolding user_setup_create_account
  commands-create_account username password fullname t = simp append_assoc

  pub commands-set_hostname :
      (hostname : Bytes) (t : Trace)
      → (user_setup_set_hostname hostname t).1.commands
        ≡ t.commands ++ hostname_commands (host.can_write hostname_path) hostname
  unfolding user_setup_set_hostname
  commands-set_hostname hostname t = ground (arith, append-nil t.commands)

  pub commands-enable_autologin :
      (username : Bytes) (t : Trace)
      → (user_setup_enable_autologin username t).1.commands ≡ t.commands ++ autologin_command ∷ []
  unfolding user_setup_enable_autologin
  commands-enable_autologin username t = ground arith

  -- The password that is set, the root password that is set, and what the result says of them: it is
  -- that of the second command alone.
  pub create_account_result :
      (username password fullname : Bytes) (t : Trace)
      → (user_setup_create_account username password fullname t).0
        ≡ succeeded
            (host.answer (length t.commands + 1) (snprintf 1024 (chpasswd username password)))
  unfolding user_setup_create_account
  create_account_result username password fullname t =
      ground (arith, length-append t.commands (snprintf 1024 (useradd username fullname) ∷ []))
