-- ===== src/Tools/Packages.antt =====
-- The package manager beside the program tpkg: package-manager/pkgmgr-client/src/pkgmgr-client.c, `usage` of
-- pkgmgr-cli.c and the tools of package-manager/tpk-tools/src; app-framework/app-installer/src; and
-- security/security-manager/security-manager.c. What they print is what they do.
use tizen_os.Base.{
  ℕ, ◌≡◌, refl, inl, inr, Bool, true, false, List, [], ◌∷◌, ◌++◌, arith, if◌then◌else◌, Bool-cases,
}
use tizen_os.Libc.{Bytes, codes, str_eq}
use tizen_os.Libc.Text.{utf8}
use tizen_os.Tools.Apt.{Call, usage, apt_command}
use tizen_os.Tools.Apt
use tizen_os.Libc.Laws.{str_eq_iff}
use tizen_os.Libc.Numbers.{decimal}
use tizen_os.Base.Int.{ℤ}

-- What a program does that can be seen from outside.
pub data Seen : Type 0 where
  prints shell : Bytes → Seen
  main_loop : Seen

-- The result of a function, and what it does.
unfoldable pub pkgmgr_install : Bytes → ℕ × List Seen
pkgmgr_install tpk_path =
    (0, prints (utf8 "Gửi yêu cầu cài đặt gói " ++ (tpk_path ++ utf8 " tới daemon...\n")) ∷ [])

unfoldable pub pkgmgr_uninstall : Bytes → ℕ × List Seen
pkgmgr_uninstall pkg_id =
    (0, prints (utf8 "Gửi yêu cầu gỡ bỏ gói " ++ (pkg_id ++ utf8 " tới daemon...\n")) ∷ [])

unfoldable pub print_usage : List Seen
print_usage =
    prints (utf8 "Sử dụng: tpkg <lệnh> [tham số]\n")
    ∷ prints (utf8 "Các lệnh:\n")
    ∷ prints (utf8 "  install <file.tpk>  Cài đặt gói TPK\n")
    ∷ prints (utf8 "  remove <pkg_id>     Gỡ bỏ gói\n")
    ∷ prints (utf8 "  list                Danh sách các gói đã cài đặt\n")
    ∷ prints (utf8 "  info <pkg_id>       Xem thông tin gói\n")
    ∷ prints (utf8 "  apt <lệnh_apt>      Cầu nối (proxy) sang hệ thống APT của Debian\n")
    ∷ []

-- The calls of tpkg, with what they do.
unfoldable pub perform : Call → List Seen
perform (Call.pkgmgr_install path) = (pkgmgr_install path).1
perform (Call.pkgmgr_uninstall id) = (pkgmgr_uninstall id).1
perform (Call.system cmd) = shell cmd ∷ []
perform usage = print_usage

unfoldable pub perform_all : List Call → List Seen
perform_all [] = []
perform_all (c ∷ cs) = perform c ++ perform_all cs

-- The program tpkg, with the client library that it calls: its status, and what it does. The message
-- before the usage and the one before the shell are left out.
unfoldable pub tpkg : List Bytes → ℕ × List Seen
tpkg args = let (status, calls) = Apt.main args in (status, perform_all calls)

-- The commands that reach the shell.
unfoldable pub shells : List Seen → List Bytes
shells [] = []
shells (shell cmd ∷ es) = cmd ∷ shells es
shells (_ ∷ es) = shells es

abbrev is_empty : List Bytes → Bool
is_empty [] = true
is_empty (a ∷ rest) = false

-- What the usage promises of `apt`: the command, where the word has something behind it.
unfoldable pub apt_commands : List Bytes → List Bytes
apt_commands (cmd ∷ first ∷ more) =
    if str_eq cmd (codes "apt") then apt_command first more ∷ [] else []
apt_commands _ = []

shells-dispatch :
    (cmd first : Bytes) (more : List Bytes)
    → shells (tpkg (cmd ∷ first ∷ more)).1 ≡ apt_commands (cmd ∷ first ∷ more)
unfolding tpkg shells perform_all perform pkgmgr_install pkgmgr_uninstall print_usage apt_commands
    Apt.main str_eq
shells-dispatch cmd first more = elim (Bool-cases (str_eq cmd (codes "install"))) [
  | inl t ↦ let e = (str_eq_iff cmd (codes "install")).0 t in rw e refl
  | inr f ↦ elim (Bool-cases (str_eq cmd (codes "remove"))) [
    | inl t ↦ let e = (str_eq_iff cmd (codes "remove")).0 t in rw e refl
    | inr g ↦ ground arith
  ]
]

-- tpkg fails exactly if it gets no argument. It hands the shell the command of `apt` where that word has
-- something behind it, and nothing in every other case: installing and removing a package only
-- print, and the status is 0 all the same.
pub tpkg_lem :
    (args : List Bytes)
    → ((tpkg args).0 ≡ (if is_empty args then 1 else 0))
      × (shells (tpkg args).1 ≡ apt_commands args)
unfolding tpkg shells perform_all perform print_usage apt_commands Apt.main
tpkg_lem [] = (refl, refl)
tpkg_lem (cmd ∷ []) = (refl, refl)
tpkg_lem (cmd ∷ first ∷ more) = (ground arith, shells-dispatch cmd first more)

-- `tpk_install` and `deb_bridge_install`, and the daemon that calls them once when it starts.
unfoldable pub tpk_install : Bytes → List Seen
tpk_install path =
    prints (utf8 "Đang giải mã và cài đặt TPK từ đường dẫn: " ++ (path ++ codes "\n")) ∷ []

unfoldable pub wgt_install : Bytes → List Seen
wgt_install path =
    prints (utf8 "Đang cài đặt W3C Widget từ đường dẫn: " ++ (path ++ codes "\n")) ∷ []

unfoldable pub deb_bridge_install : Bytes → List Seen
deb_bridge_install package_name =
    prints (
      utf8 "Cài đặt gói debian '"
      ++ (package_name ++ utf8 "' thông qua APT và tạo shortcut cho Tizen launcher...\n"))
    ∷ []

unfoldable pub installer_daemon_main : List Seen
installer_daemon_main =
    prints (utf8 "Khởi động Installer Daemon trên D-Bus...\n")
    ∷ (tpk_install (codes "/opt/app.tpk") ++ (deb_bridge_install (codes "nano") ++ main_loop ∷ []))

-- `install_app_security`, `set_process_credentials` and `main` of the security manager, on the words after
-- the program's name. The text of the process's number, `%d`, is `decimal`.
unfoldable pub install_app_security : Bytes → ℕ × List Seen
install_app_security app_id = (
  0,
  prints (utf8 "[SecurityManager] Đang thiết lập bảo mật cho ứng dụng: " ++ (app_id ++ codes "\n"))
      ∷ [],
)

unfoldable pub set_process_credentials : ℤ → Bytes → ℕ × List Seen
set_process_credentials pid app_id = (
  0,
  prints (
        utf8 "[SecurityManager] Đang áp dụng nhãn Smack cho PID "
        ++ (decimal pid ++ (codes " (App: " ++ (app_id ++ codes ")\n"))))
      ∷ [],
)

unfoldable pub security_manager_main : List Bytes → ℕ × List Seen
security_manager_main args = (
  0,
  prints (utf8 "TizenOS Security Manager khởi động.\n")
      ∷ elim args [ [] ↦ [] | app_id ∷ more ↦ (install_app_security app_id).1 ],
)

-- The three tools of tpk-tools.
unfoldable pub tpk_create_main : ℕ × List Seen
tpk_create_main = (0, prints (utf8 "Tạo gói TPK...\n") ∷ [])

unfoldable pub tpk_extract_main : ℕ × List Seen
tpk_extract_main = (0, prints (utf8 "Giải nén gói TPK...\n") ∷ [])

unfoldable pub tpk_verify_main : ℕ × List Seen
tpk_verify_main = (0, prints (utf8 "Xác minh gói TPK...\n") ∷ [])

-- None of these programs hands anything to the shell, whatever they are asked to install.
quiet :
    (path name : Bytes) (args : List Bytes)
    → (shells installer_daemon_main ≡ [])
      × (shells (tpk_install path ++ (wgt_install path ++ deb_bridge_install name)) ≡ [])
      × (shells (security_manager_main args).1 ≡ [])
unfolding shells installer_daemon_main tpk_install wgt_install deb_bridge_install
    security_manager_main install_app_security
quiet path name [] = (refl, refl, refl)
quiet path name (a ∷ more) = (refl, refl, refl)
