-- ===== src/Installer/Wizard/Lifetime.antt =====
-- How long the `InstallerApp` of installer-ui.c lives: `on_window_destroy` frees it, and
-- `run_installation` uses it before and after each of its five calls of `force_ui_update`, which handles
-- the clicks that have come meanwhile, the click that closes the window among them.
pub mod Use
use tizen_os.Base.{
  ℕ, ◌≡◌, refl, Bool, true, false, ◌||◌, List, [], ◌∷◌, arith, if◌then◌else◌, sym, ap, ◌∙◌, not,
  zero, suc, ◌+◌, ◌-◌, ◌*◌, ◌/◌, ◌%◌, ◌^◌, ◌≤◌, ◌<◌, min, ◌≢◌, ◌↔◌, ◌⊎◌, inl, inr, ◌&&◌, Option,
  none, some, ◌++◌, map, append_assoc, append-nil, ltb, leb, ◌==◌, ==_iff, Bool-cases, Option-cases,
  length, take, drop, get_elem?, set, All, join, length-append, take-append-drop, length-take,
  length-drop, take_all,
}
use tizen_os.Installer.Wizard.{
  InstallerApp, on_btn_next_clicked, on_btn_back_clicked, finish_installation, activated,
  click_next, click_back, handle, update_navigation,
}
use mathlib.Core.Path.{subst}
use tizen_os.Installer.Wizard.Steps.{IsValid, handle-IsValid, activated-IsValid}

-- What a user does to the main window.
pub data Input : Type 0 where
  next back close : Input

-- The window is open until it is destroyed; `misused` says that a freed application was used.
pub record Window : Type 0 where
  pub app : InstallerApp
  pub is_open : Bool
  pub misused : Bool

-- `on_window_destroy`
unfoldable pub on_window_destroy : Window → Window
on_window_destroy w = record w { is_open = false }

-- The buttons of a window that is closed are gone, and it is closed once.
unfoldable pub deliver : Input → Window → Window
deliver next w = if w.is_open then record w { app = handle click_next w.app } else w
deliver back w = if w.is_open then record w { app = handle click_back w.app } else w
deliver close w = if w.is_open then on_window_destroy w else w

-- `force_ui_update`: all that has come is handled. The timer's own source is not called again before
-- its call returns.
unfoldable pub force_ui_update : List Input → Window → Window
force_ui_update [] w = w
force_ui_update (i ∷ is) w = force_ui_update is (deliver i w)

-- A use of a field of the application.
unfoldable pub use_app : Window → Window
use_app w = if w.is_open then w else record w { misused = true }

-- One of the five steps: the label and the progress bar are set, and the window is updated.
unfoldable pub stage : List Input → Window → Window
stage is w = force_ui_update is (use_app w)

-- The form is read, the five steps, in which `during` comes, and the last label.
unfoldable pub steps : (ℕ → List Input) → Window → Window
steps during w = use_app (
    stage (during 4)
      (stage (during 3) (stage (during 2) (stage (during 1) (stage (during 0) (use_app w))))))

-- The last page: the step is written to the application, and its widgets are updated, whether or not the
-- memory was freed; freed memory is taken to hold what it held.
unfoldable pub finish : Window → Window
finish w = record w { app = finish_installation w.app; misused = w.misused || not w.is_open }

-- `run_installation`, as far as it uses the application.
unfoldable pub install : (ℕ → List Input) → Window → Window
install during w = finish (steps during w)

-- The end of `on_app_activate`.
unfoldable pub opened : Window
opened = record { app = activated; is_open = true; misused = false }

-- Whether the window is closed.
unfoldable pub closes : List Input → Bool
closes [] = false
closes (close ∷ is) = true
closes (_ ∷ is) = closes is

-- Whether the window is closed during one of the five updates.
unfoldable pub closes_during : (ℕ → List Input) → Bool
closes_during during =
    closes (during 0)
    || closes (during 1)
    || closes (during 2)
    || closes (during 3)
    || closes (during 4)
