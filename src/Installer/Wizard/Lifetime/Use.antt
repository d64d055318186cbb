-- ===== src/Installer/Wizard/Lifetime/Use.antt =====
-- When the application of installer-ui.c is used after it is freed.
use tizen_os.Base.{ℕ, ◌≡◌, refl, Bool, true, false, ◌||◌, List, [], ◌∷◌, arith, sym, ap, ◌∙◌, not}
use tizen_os.Installer.Wizard.{
  InstallerApp, on_btn_next_clicked, on_btn_back_clicked, finish_installation, click_next,
  click_back, handle, update_navigation,
}
use mathlib.Core.Path.{subst}
use tizen_os.Installer.Wizard.Steps.{IsValid, handle-IsValid, activated-IsValid}
use tizen_os.Installer.Wizard.Lifetime.{
  Input, next, back, close, Window, on_window_destroy, deliver, force_ui_update, use_app, stage,
  steps, finish, install, opened, closes, closes_during,
}

-- What stays while the installation runs.
abbrev pub IsInstalling : InstallerApp → Type 0
IsInstalling app = IsValid app × (app.current_step ≡ 6) × (app.timers ≡ 1)

next-IsInstalling : (app : InstallerApp) → IsInstalling app → IsInstalling (handle click_next app)
unfolding handle on_btn_next_clicked
next-IsInstalling app v =
    let kept = handle-IsValid click_next app v.0 in
    let off = (v.0.in_install v.1).0 in (kept, ground (arith, off), ground (arith, off))

back-IsInstalling : (app : InstallerApp) → IsInstalling app → IsInstalling (handle click_back app)
unfolding handle on_btn_back_clicked
back-IsInstalling app v =
    let kept = handle-IsValid click_back app v.0 in (kept, ground arith, ground arith)

-- A window whose installation runs: closed or not, misused or not.
record IsRunning (w : Window) (closed misused : Bool) : Type 0 where
  open_is : w.is_open ≡ not closed
  misused_is : w.misused ≡ misused
  installing : IsInstalling w.app

deliver-IsRunning :
    (i : Input) (w : Window) (c m : Bool)
    → IsRunning w c m
    → IsRunning (deliver i w) (c || closes (i ∷ [])) m
unfolding deliver on_window_destroy closes
deliver-IsRunning next w c m r = let k = next-IsInstalling w.app r.installing in ground arith
deliver-IsRunning back w c m r = let k = back-IsInstalling w.app r.installing in ground arith
deliver-IsRunning close w c m r = let k = r.installing in ground arith

closes-cons : (i : Input) (is : List Input) → closes (i ∷ is) ≡ closes (i ∷ []) || closes is
unfolding closes
closes-cons next is = refl
closes-cons back is = refl
closes-cons close is = refl

or_assoc : (a b c : Bool) → (a || b) || c ≡ a || (b || c)
or_assoc true b c = refl
or_assoc false b c = refl

updated-IsRunning :
    (is : List Input) (w : Window) (c m : Bool)
    → IsRunning w c m
    → IsRunning (force_ui_update is w) (c || closes is) m
unfolding force_ui_update closes
updated-IsRunning [] w c m r = ground arith
updated-IsRunning (i ∷ is) w c m r =
    let one = deliver-IsRunning i w c m r in
    let rest = updated-IsRunning is (deliver i w) (c || closes (i ∷ [])) m one in
    subst (λ x. IsRunning (force_ui_update is (deliver i w)) x m)
      (or_assoc c (closes (i ∷ [])) (closes is) ∙ ap (◌||◌ c) (sym (closes-cons i is))) rest

use-IsRunning : (w : Window) (c m : Bool) → IsRunning w c m → IsRunning (use_app w) c (m || c)
unfolding use_app
use-IsRunning w true m r = ground arith
use-IsRunning w false true r = ground arith
use-IsRunning w false false r = ground arith

stage-IsRunning :
    (is : List Input) (w : Window) (c m : Bool)
    → IsRunning w c m
    → IsRunning (stage is w) (c || closes is) (m || c)
unfolding stage
stage-IsRunning is w c m r = updated-IsRunning is (use_app w) c (m || c) (use-IsRunning w c m r)

absorbed :
    (a b c d e : Bool)
    → ((((false || a) || (a || b)) || (a || b || c)) || (a || b || c || d))
        || (a || b || c || d || e)
      ≡ a || b || c || d || e
absorbed true b c d e = ground arith
absorbed false b c d e = ground arith

-- After the five steps and the last use.
steps-IsRunning :
    (during : ℕ → List Input) (w : Window)
    → IsRunning w false false
    → IsRunning (steps during w) (closes_during during) (closes_during during)
unfolding steps closes_during
steps-IsRunning during w r =
    let first = use-IsRunning w false false r in
    let one = stage-IsRunning (during 0) (use_app w) false false first in
    let two = stage-IsRunning (during 1) _ _ _ one in
    let three = stage-IsRunning (during 2) _ _ _ two in
    let four = stage-IsRunning (during 3) _ _ _ three in
    let five = stage-IsRunning (during 4) _ _ _ four in
    let last = use-IsRunning _ _ _ five in
    let tidy =
      absorbed (closes (during 0)) (closes (during 1)) (closes (during 2)) (closes (during 3))
        (closes (during 4)) in
    subst (λ x. IsRunning (steps during w) (closes_during during) x) tidy last

finished :
    (w : Window) (c : Bool)
    → IsRunning w c c
    → let later = finish w in
      (later.misused ≡ c) × (later.is_open ≡ not c) × (later.app.installs ≡ 1)
unfolding finish finish_installation update_navigation
finished w true r =
    let once = (r.installing.0.in_install r.installing.1).1 in ground (arith, once, r.installing.2)
finished w false r =
    let once = (r.installing.0.in_install r.installing.1).1 in ground (arith, once, r.installing.2)

-- Before the timer is called.
record IsWaiting (w : Window) : Type 0 where
  valid : IsValid w.app
  unharmed : w.misused ≡ false

deliver-IsWaiting : (i : Input) (w : Window) → IsWaiting w → IsWaiting (deliver i w)
unfolding deliver on_window_destroy
deliver-IsWaiting next w v = let k = handle-IsValid click_next w.app v.valid in ground arith
deliver-IsWaiting back w v = let k = handle-IsValid click_back w.app v.valid in ground arith
deliver-IsWaiting close w v = ground arith

updated-IsWaiting : (is : List Input) (w : Window) → IsWaiting w → IsWaiting (force_ui_update is w)
unfolding force_ui_update
updated-IsWaiting [] w v = v
updated-IsWaiting (i ∷ is) w v = updated-IsWaiting is (deliver i w) (deliver-IsWaiting i w v)

opened-IsWaiting : IsWaiting opened
unfolding opened
opened-IsWaiting = record { valid = activated-IsValid; unharmed = refl }

waiting_installs : (app : InstallerApp) → IsValid app → app.timers ≡ 1 → app.current_step ≡ 6
waiting_installs app v t = ground arith

-- After any clicks that start the installation and leave the window open, the installation uses the
-- freed application exactly if the window is closed during one of its five updates, and the window is
-- then still closed and else open; either way the installation goes on to its end and is performed
-- once, the freed memory being taken to hold what it held.
pub install-misused :
    (is : List Input) (during : ℕ → List Input)
    → (force_ui_update is opened).is_open ≡ true
    → (force_ui_update is opened).app.timers ≡ 1
    → let later = install during (force_ui_update is opened) in
      let closed = closes_during during in
      (later.misused ≡ closed) × (later.is_open ≡ not closed) × (later.app.installs ≡ 1)
unfolding install
install-misused is during o t =
    let w = updated-IsWaiting is opened opened-IsWaiting in
    let late = waiting_installs _ w.valid t in
    finished (steps during _) _ (
      steps-IsRunning during _
        record { open_is = o; misused_is = w.unharmed; installing = (w.valid, late, t) })
