-- ===== src/Desktop/Applications.antt =====
-- The programs of GTK as applications: `main`, `apply_css` and what `activate` does beside its widgets, of
-- installer/tizenos-installer/src/installer-ui.c and boot-welcome.c, shell/panel/src/panel.c,
-- shell/settings/src/settings.c, shell/launcher/src/launcher.c and shell/file-manager/src/file-manager.c. How
-- often GTK activates an application while it runs, and the status that it gives, are parameters. The calls on the
-- widgets inside the windows are left out here.
use tizen_os.Base.Int.{ℤ}
use tizen_os.Base.{ℕ, zero, suc, List, [], ◌∷◌, ◌++◌}
use tizen_os.Libc.{Bytes, codes}
use tizen_os.Libc.Text.{utf8}

pub data Program : Type 0 where
  installer welcome panel settings launcher files : Program

pub data Edge : Type 0 where
  top bottom left right : Edge

pub data Layer : Type 0 where
  layer_top layer_overlay : Layer

-- The calls. A window that is made is the one that the calls after it are about.
pub data Call : Type 0 where
  application_new : Bytes → Call
  connect_activate application_run application_unref : Call
  provider_new provider_add provider_unref : Call
  provider_load : Bytes → Call
  window_new window_destroy_connect window_show : Call
  window_title : Bytes → Call
  window_size : ℕ → ℕ → Call
  layer_init : Call
  set_layer : Layer → Call
  set_anchor : Edge → Call
  set_exclusive_zone : ℕ → Call
  action_new : Bytes → Call
  action_connect action_add : Call
  set_child : Call

-- `gtk_style_context_add_provider_for_display` keeps a reference of its own.
pub apply_css : Bytes → List Call
apply_css css = provider_new ∷ provider_load css ∷ provider_add ∷ provider_unref ∷ []

pub installer_css : Bytes
installer_css =
    codes
      "window { background-color: #1e1e2e; color: #cdd6f4; font-family: 'Inter', sans-serif; }\n"
    ++ (codes
          ".sidebar { background-color: #181825; border-right: 1px solid #313244; padding: 16px; min-width: 230px; }\n"
        ++ (codes ".sidebar label { font-size: 14px; font-weight: bold; color: #a6adc8; }\n"
            ++ (codes
                  "listview row:selected, listbox row:selected { background-color: #89b4fa; color: #11111b; border-radius: 6px; font-weight: bold; }\n"
                ++ (codes "label { font-size: 14px; }\n"
                    ++ (codes
                          ".title-label { font-size: 20px; font-weight: bold; color: #89b4fa; margin-bottom: 8px; }\n"
                        ++ (codes
                              "button { background: #313244; color: #cdd6f4; border-radius: 8px; padding: 8px 16px; font-weight: bold; border: 1px solid #45475a; }\n"
                            ++ (codes "button:hover { background: #45475a; color: #89b4fa; }\n"
                                ++ (codes
                                      "button.suggested-action { background: #89b4fa; color: #11111b; border: none; }\n"
                                    ++ (codes
                                          "button.suggested-action:hover { background: #b4befe; }\n"
                                        ++ (codes
                                              "entry, dropdown { background: #313244; color: #cdd6f4; border-radius: 6px; padding: 6px; border: 1px solid #45475a; }\n"
                                            ++ (codes
                                                  "progressbar > trough { background-color: #313244; border-radius: 6px; }\n"
                                                ++ (codes
                                                    "progressbar > trough > progress { background-color: #89b4fa; border-radius: 6px; }\n"))))))))))))

pub welcome_css : Bytes
welcome_css =
    codes
      "window { background-color: #1e1e2e; color: #cdd6f4; font-family: 'Inter', sans-serif; }\n"
    ++ (codes
          ".welcome-header { font-size: 22px; font-weight: bold; color: #89b4fa; margin-bottom: 8px; }\n"
        ++ (codes ".sub-header { font-size: 14px; color: #a6adc8; margin-bottom: 16px; }\n"
            ++ (codes
                  ".card { background-color: #181825; border: 1px solid #313244; border-radius: 10px; padding: 16px; margin-bottom: 12px; }\n"
                ++ (codes
                      ".card-title { font-size: 16px; font-weight: bold; color: #f9e2af; margin-bottom: 8px; }\n"
                    ++ (codes
                          "button { background: #313244; color: #cdd6f4; border-radius: 8px; padding: 10px 16px; font-weight: bold; border: 1px solid #45475a; margin: 4px; }\n"
                        ++ (codes "button:hover { background: #45475a; color: #89b4fa; }\n"
                            ++ (codes
                                  "button.suggested-action { background: #89b4fa; color: #11111b; border: none; }\n"
                                ++ (codes
                                    "button.suggested-action:hover { background: #b4befe; }\n"))))))))

abbrev pub installer_activate : List Call
installer_activate =
    apply_css installer_css
    ++ window_new
      ∷ window_title (codes "TizenOS Debian Installer GTK4")
      ∷ window_size 920 640
      ∷ window_destroy_connect
      ∷ set_child
      ∷ window_show
      ∷ []

abbrev pub welcome_activate : List Call
welcome_activate =
    apply_css welcome_css
    ++ window_new
      ∷ window_title (utf8 "Chào Mừng Đến Với TizenOS 1.0")
      ∷ window_size 800 560
      ∷ set_child
      ∷ window_show
      ∷ []

abbrev pub panel_activate : List Call
panel_activate =
    window_new
    ∷ layer_init
    ∷ set_layer layer_top
    ∷ set_anchor top
    ∷ set_anchor left
    ∷ set_anchor right
    ∷ set_exclusive_zone 40
    ∷ set_child
    ∷ window_show
    ∷ []

abbrev pub settings_activate : List Call
settings_activate =
    window_new
    ∷ window_title (codes "TizenOS Settings")
    ∷ window_size 800 600
    ∷ set_child
    ∷ window_show
    ∷ []

abbrev pub launcher_activate : List Call
launcher_activate =
    window_new
    ∷ layer_init
    ∷ set_layer layer_overlay
    ∷ set_anchor top
    ∷ set_anchor bottom
    ∷ set_anchor left
    ∷ set_anchor right
    ∷ window_show
    ∷ []

abbrev pub files_activate : List Call
files_activate =
    window_new
    ∷ window_title (codes "TizenOS File Manager")
    ∷ window_size 800 600
    ∷ set_child
    ∷ action_new (codes "extract")
    ∷ action_connect
    ∷ action_add
    ∷ action_new (codes "mount")
    ∷ action_connect
    ∷ action_add
    ∷ window_show
    ∷ []

pub activate : Program → List Call
activate installer = installer_activate
activate welcome = welcome_activate
activate panel = panel_activate
activate settings = settings_activate
activate launcher = launcher_activate
activate files = files_activate

pub application_id : Program → Bytes
application_id installer = codes "org.tizenos.installer"
application_id welcome = codes "org.tizenos.welcome"
application_id panel = codes "org.tizenos.panel"
application_id settings = codes "org.tizenos.settings"
application_id launcher = codes "org.tizenos.launcher"
application_id files = codes "org.tizenos.files"

pub activations : Program → ℕ → List Call
activations program zero = []
activations program (suc n) = activate program ++ activations program n

-- The calls of a function `main`, with those of the activations behind `g_application_run`, and the status.
abbrev pub runs : Program → ℕ → ℤ → List Call × ℤ
runs program n status = (
  application_new (application_id program)
      ∷ connect_activate
      ∷ application_run
      ∷ (activations program n ++ application_unref ∷ []),
  status,
)

abbrev pub installer_main : ℕ → ℤ → List Call × ℤ
installer_main = runs installer

abbrev pub welcome_main : ℕ → ℤ → List Call × ℤ
welcome_main = runs welcome

abbrev pub panel_main : ℕ → ℤ → List Call × ℤ
panel_main = runs panel

abbrev pub settings_main : ℕ → ℤ → List Call × ℤ
settings_main = runs settings

abbrev pub launcher_main : ℕ → ℤ → List Call × ℤ
launcher_main = runs launcher

abbrev pub files_main : ℕ → ℤ → List Call × ℤ
files_main = runs files

pub main : Program → ℕ → ℤ → List Call × ℤ
main installer = installer_main
main welcome = welcome_main
main panel = panel_main
main settings = settings_main
main launcher = launcher_main
main files = files_main

-- `on_extract_here` and `on_mount_virtual_drive` of the file manager.
unfoldable pub on_extract_here : Bytes
on_extract_here = utf8 "Extract Here được chọn!\n"

unfoldable pub on_mount_virtual_drive : Bytes
on_mount_virtual_drive = utf8 "Mount Virtual Drive được chọn!\n"
