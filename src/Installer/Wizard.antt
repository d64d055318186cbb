-- ===== src/Installer/Wizard.antt =====
-- The pages of installer-ui.c: the state of the window, and what its callbacks do to it. GTK delivers
-- no click to a button that is not sensitive, and a dialog's buttons answer while it is shown; the
-- timer calls `run_installation` once for each time that it was added. What an installation does to
-- the disk is in `Run`; here it is counted.
pub mod Steps
pub mod Lifetime
pub mod Several
use tizen_os.Base.{
  ℕ, zero, suc, ◌+◌, ◌-◌, ◌*◌, ◌/◌, ◌%◌, ◌^◌, ◌≤◌, ◌<◌, min, ◌≡◌, refl, sym, ap, ◌∙◌, ◌≢◌, ◌↔◌, ◌⊎◌,
  inl, inr, Bool, true, false, not, ◌&&◌, ◌||◌, Option, none, some, List, [], ◌∷◌, ◌++◌, map,
  append_assoc, append-nil, arith, ltb, leb, ◌==◌, if◌then◌else◌, ==_iff, Bool-cases, Option-cases,
  length, take, drop, get_elem?, set, All, join, length-append, take-append-drop, length-take,
  length-drop, take_all,
}

pub data Label : Type 0 where
  next_page begin_install reboot_now : Label

pub record InstallerApp : Type 0 where
  pub current_step : ℕ
  pub selected_row : ℕ
  pub page : ℕ
  pub back_sensitive : Bool
  pub next_sensitive : Bool
  pub next_label : Label
  pub timers : ℕ
  pub installs : ℕ
  pub modal : Bool
  pub reboots_by_next : ℕ
  pub reboots_by_modal : ℕ

-- `update_navigation`. The list has the rows 0 to 6.
unfoldable pub update_navigation : InstallerApp → InstallerApp
update_navigation app =
    let row = if ltb app.current_step 7 then app.current_step else app.selected_row in
    if app.current_step == 5
    then record app { selected_row = row; back_sensitive = true; next_label = begin_install }
    else if app.current_step == 6
    then record app { selected_row = row; back_sensitive = false; next_label = reboot_now }
    else record app {
      selected_row = row;
      back_sensitive = not (app.current_step == 0);
      next_label = next_page;
    }

-- `gtk_stack_set_visible_child_name` with the page named after the step: `step%d`.
abbrev show_page : InstallerApp → InstallerApp
show_page app = record app { page = app.current_step + 1 }

-- `on_btn_back_clicked`
unfoldable pub on_btn_back_clicked : InstallerApp → InstallerApp
on_btn_back_clicked app =
    if ltb 0 app.current_step && ltb app.current_step 6
    then update_navigation (show_page (record app { current_step = app.current_step - 1 }))
    else app

-- `on_btn_next_clicked`
unfoldable pub on_btn_next_clicked : InstallerApp → InstallerApp
on_btn_next_clicked app =
    if ltb app.current_step 5
    then update_navigation (show_page (record app { current_step = app.current_step + 1 }))
    else if app.current_step == 5
    then record app { current_step = 6; page = 7; next_sensitive = false; timers = app.timers + 1 }
    else if app.current_step == 6
    then record app { reboots_by_next = app.reboots_by_next + 1 }
    else app

-- The end of `run_installation`, and its return of `G_SOURCE_REMOVE`.
unfoldable pub finish_installation : InstallerApp → InstallerApp
finish_installation app =
    let finished = update_navigation (record app { current_step = 6 }) in
    record finished { installs = app.installs + 1; timers = app.timers - 1; modal = true }

-- The end of `on_app_activate`.
unfoldable pub activated : InstallerApp
activated = update_navigation (record {
  current_step = 0;
  selected_row = 0;
  page = 1;
  back_sensitive = true;
  next_sensitive = true;
  next_label = next_page;
  timers = 0;
  installs = 0;
  modal = false;
  reboots_by_next = 0;
  reboots_by_modal = 0;
})

pub data Event : Type 0 where
  click_next click_back timer_fires click_reboot_now click_reboot_later : Event

-- `on_btn_reboot_now`: the command that reboots.
abbrev pub on_btn_reboot_now : InstallerApp → InstallerApp
on_btn_reboot_now app = record app { reboots_by_modal = app.reboots_by_modal + 1 }

-- `on_btn_reboot_later`: the dialog is destroyed.
abbrev pub on_btn_reboot_later : InstallerApp → InstallerApp
on_btn_reboot_later app = record app { modal = false }

-- Which callback an event calls: those of the buttons that answer, and the timer. The closing of the
-- window is a matter of `Lifetime` and `Several`.
unfoldable pub handle : Event → InstallerApp → InstallerApp
handle click_next app = if app.next_sensitive then on_btn_next_clicked app else app
handle click_back app = if app.back_sensitive then on_btn_back_clicked app else app
handle timer_fires app = if ltb 0 app.timers then finish_installation app else app
handle click_reboot_now app = if app.modal then on_btn_reboot_now app else app
handle click_reboot_later app = on_btn_reboot_later app

unfoldable pub run : List Event → InstallerApp → InstallerApp
run [] app = app
run (e ∷ es) app = run es (handle e app)
