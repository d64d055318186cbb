-- ===== src/Installer/Wizard/Steps.antt =====
-- What holds of the installer's window after any events.
use tizen_os.Base.{
  ◌+◌, ◌≤◌, ◌<◌, ◌≡◌, true, false, not, arith, ◌==◌, ℕ, zero, suc, refl, ◌∙◌, List, [], ◌∷◌, ◌++◌,
}
use tizen_os.Installer.Wizard.{
  InstallerApp, update_navigation, on_btn_back_clicked, on_btn_next_clicked, finish_installation,
  activated, Event, click_next, handle, run, timer_fires,
}

pub record IsValid (app : InstallerApp) : Type 0 where
  pub step_bounded : app.current_step ≤ 6
  pub page_shown : app.page ≡ app.current_step + 1
  pub before_install :
      app.current_step < 6
      → (app.next_sensitive ≡ true)
        × (app.timers ≡ 0)
        × (app.installs ≡ 0)
        × (app.selected_row ≡ app.current_step)
        × (app.back_sensitive ≡ not (app.current_step == 0))
  pub in_install :
      app.current_step ≡ 6 → (app.next_sensitive ≡ false) × (app.timers + app.installs ≡ 1)
  pub back_shut : 0 < app.installs → app.back_sensitive ≡ false
  pub modal_installed : app.modal ≡ true → app.installs ≡ 1
  pub no_reboot_by_next : app.reboots_by_next ≡ 0
  pub reboot_installed : 0 < app.reboots_by_modal → app.installs ≡ 1

pub activated-IsValid : IsValid activated
unfolding activated update_navigation
activated-IsValid = ground arith

pub handle-IsValid : (e : Event) (app : InstallerApp) → IsValid app → IsValid (handle e app)
unfolding handle on_btn_next_clicked on_btn_back_clicked finish_installation update_navigation
handle-IsValid click_next app v = ground arith
handle-IsValid _ app v = ground arith

run_from-IsValid : (es : List Event) (app : InstallerApp) → IsValid app → IsValid (run es app)
unfolding run
run_from-IsValid [] app v = v
run_from-IsValid (e ∷ es) app v = run_from-IsValid es (handle e app) (handle-IsValid e app v)

-- After any events, the window is in order: the page shown is the one of the current step; before
-- the installation starts, Next answers, nothing is installed and the row marked is the current
-- one; from the moment that it starts, Next no longer answers and exactly one installation is
-- waiting or done, never two; once it is done Back does not answer; the dialog that offers the
-- reboot, and the reboot it starts, come after the installation; and the Next button, though the
-- last page labels it with the reboot, never reboots.
pub run-IsValid : (es : List Event) → IsValid (run es activated)
run-IsValid es = run_from-IsValid es activated activated-IsValid

click : Event → ℕ
click click_next = 1
click _ = 0

-- How often Next is clicked.
pub clicks : List Event → ℕ
clicks [] = 0
clicks (e ∷ es) = click e + clicks es

handle-click :
    (e : Event) (app : InstallerApp)
    → IsValid app
    → (handle e app).current_step ≤ app.current_step + click e
unfolding handle on_btn_next_clicked on_btn_back_clicked finish_installation update_navigation click
handle-click click_next app v = ground arith
handle-click _ app v = ground arith

run-clicks :
    (es : List Event) (app : InstallerApp)
    → IsValid app
    → (run es app).current_step ≤ app.current_step + clicks es
unfolding run clicks
run-clicks [] app v = omega arith
run-clicks (e ∷ es) app v =
    let h = run-clicks es (handle e app) (handle-IsValid e app v) in
    let k = handle-click e app v in omega arith

-- Nothing is installed before Next has been clicked six times, in whatever order the clicks, the
-- clicks of Back and the timer come.
pub installs-clicks : (es : List Event) → 0 < (run es activated).installs → 6 ≤ clicks es
unfolding activated update_navigation
installs-clicks es h =
    let v = run-IsValid es in let k = run-clicks es activated activated-IsValid in ground arith

-- `n` clicks of Next.
unfoldable pub next_clicks : ℕ → List Event
next_clicks zero = []
next_clicks (suc n) = click_next ∷ next_clicks n

next-step :
    (app : InstallerApp)
    → IsValid app
    → app.current_step < 6
    → ((handle click_next app).current_step ≡ app.current_step + 1)
      × ((handle click_next app).installs ≡ app.installs)
unfolding handle on_btn_next_clicked update_navigation
next-step app v h = ground arith

arrives :
    (n : ℕ) (app : InstallerApp)
    → IsValid app
    → app.current_step + n ≡ 6
    → ((run (next_clicks n) app).current_step ≡ 6)
      × ((run (next_clicks n) app).installs ≡ app.installs)
unfolding run next_clicks
arrives zero app v h = (omega arith, refl)
arrives (suc n) app v h =
    let k = next-step app v (omega arith) in
    let later = handle click_next app in
    let there = arrives n later (handle-IsValid click_next app v) (omega (arith, k.0)) in
    (there.0, there.1 ∙ k.1)

run-append : (xs ys : List Event) (app : InstallerApp) → run (xs ++ ys) app ≡ run ys (run xs app)
unfolding run
run-append [] ys app = refl
run-append (x ∷ xs) ys app = run-append xs ys (handle x app)

installed :
    (app : InstallerApp)
    → IsValid app
    → app.current_step ≡ 6
    → app.installs ≡ 0
    → let later = handle timer_fires app in
      (later.installs ≡ 1) × (later.modal ≡ true) × (later.current_step ≡ 6)
unfolding handle finish_installation update_navigation
installed app v h k = ground arith

-- The wizard can always be finished: after any events that leave it before its last page, clicking
-- Next on the remaining pages and the timer's call perform exactly one installation and show the
-- dialog.
pub finishes :
    (es : List Event) (n : ℕ)
    → (run es activated).current_step + suc n ≡ 6
    → let app = run (es ++ (next_clicks (suc n) ++ timer_fires ∷ [])) activated in
      (app.installs ≡ 1) × (app.modal ≡ true) × (app.current_step ≡ 6)
unfolding run
finishes es n h =
    let valid = run-IsValid es in
    let there = arrives (suc n) (run es activated) valid h in
    let before = valid.before_install (omega (arith, h)) in
    let ready = run_from-IsValid (next_clicks (suc n)) (run es activated) valid in
    let fires =
      installed (run (next_clicks (suc n)) (run es activated)) ready there.0 (there.1 ∙ before.2) in
    let e = run-append es (next_clicks (suc n) ++ timer_fires ∷ []) activated in
    let k = run-append (next_clicks (suc n)) (timer_fires ∷ []) (run es activated) in
    rw (e, k) fires
