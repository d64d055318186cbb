-- ===== src/Installer/Wizard/Several.antt =====
-- `on_app_activate` of installer-ui.c, called again: GTK hands a second start of the program to the one that
-- runs, which makes another `InstallerApp` with its own window. The state is all of them, in the order
-- in which they were made, the closed ones too: `on_window_destroy` frees the application and leaves the
-- timer, whose call then runs the installation with freed memory, taken to hold what it held.
use tizen_os.Base.{
  inl, inr, Bool, true, false, not, ◌&&◌, if◌then◌else◌, Bool-cases, ℕ, zero, suc, ◌+◌, ◌≤◌, ◌≡◌,
  refl, sym, ap, ◌∙◌, List, [], ◌∷◌, ◌++◌, map, arith, length, All, length-append,
}
use tizen_os.Installer.Wizard.{
  InstallerApp, activated, Event, timer_fires, click_next, click_back, click_reboot_now,
  click_reboot_later, handle, run, update_navigation,
}
use tizen_os.Installer.Wizard.Steps.{
  IsValid, activated-IsValid, handle-IsValid, next_clicks, finishes,
}

pub data Input : Type 0 where
  activate : Input
  at : ℕ → Event → Input
  close : ℕ → Input

pub record Window : Type 0 where
  pub app : InstallerApp
  pub is_open : Bool

abbrev pub opened : InstallerApp → Window
opened app = record { app = app; is_open = true }

-- The buttons that stand in the window itself.
abbrev is_click : Event → Bool
is_click click_next = true
is_click click_back = true
is_click _ = false

-- The buttons of a closed window are gone; the timer and the dialog are not in it.
unfoldable pub deliver : Event → Window → Window
deliver e w = if is_click e && not w.is_open then w else record w { app = handle e w.app }

-- `on_window_destroy`
unfoldable pub on_window_destroy : Window → Window
on_window_destroy w = record w { is_open = false }

unfoldable pub update : ℕ → (Window → Window) → List Window → List Window
update i f [] = []
update zero f (w ∷ ws) = f w ∷ ws
update (suc i) f (w ∷ ws) = w ∷ update i f ws

unfoldable pub receive : Input → List Window → List Window
receive activate ws = ws ++ opened activated ∷ []
receive (at i e) ws = update i (deliver e) ws
receive (close i) ws = update i on_window_destroy ws

unfoldable pub receive_all : List Input → List Window → List Window
receive_all [] ws = ws
receive_all (x ∷ xs) ws = receive_all xs (receive x ws)

-- The installations of all windows, and the starts of the program.
unfoldable pub total_installs : List Window → ℕ
total_installs [] = 0
total_installs (w ∷ ws) = w.app.installs + total_installs ws

unfoldable pub starts : List Input → ℕ
starts [] = 0
starts (activate ∷ xs) = suc (starts xs)
starts (_ ∷ xs) = starts xs

-- The application of a window, closed or not, is in order.
abbrev pub HasValid : Window → Type 0
HasValid w = IsValid w.app

deliver-HasValid : (e : Event) (w : Window) → HasValid w → HasValid (deliver e w)
unfolding deliver
deliver-HasValid e w v = elim (Bool-cases (is_click e && not w.is_open)) [
  | inl t ↦ rw t v
  | inr f ↦ rw f (handle-IsValid e w.app v)
]

update-All :
    (i : ℕ) (f : Window → Window) (ws : List Window)
    → ((w : Window) → HasValid w → HasValid (f w))
    → All HasValid ws
    → All HasValid (update i f ws)
unfolding update
update-All i f [] keep v = v
update-All zero f (w ∷ ws) keep v = (keep w v.0, v.1)
update-All (suc i) f (w ∷ ws) keep v = (v.0, update-All i f ws keep v.1)

length-update :
    (i : ℕ) (e : Window → Window) (ws : List Window) → length (update i e ws) ≡ length ws
unfolding update
length-update i e [] = refl
length-update zero e (w ∷ ws) = refl
length-update (suc i) e (w ∷ ws) = ap suc (length-update i e ws)

All-append : (ws vs : List Window) → All HasValid ws → All HasValid vs → All HasValid (ws ++ vs)
All-append [] vs h k = k
All-append (w ∷ ws) vs h k = (h.0, All-append ws vs h.1 k)

receive-All : (x : Input) (ws : List Window) → All HasValid ws → All HasValid (receive x ws)
unfolding receive on_window_destroy
receive-All activate ws v = All-append ws (opened activated ∷ []) v (activated-IsValid, tt)
receive-All (at i e) ws v = update-All i (deliver e) ws (deliver-HasValid e) v
receive-All (close i) ws v = update-All i on_window_destroy ws (λ w h. h) v

receive_all-All :
    (xs : List Input) (ws : List Window) → All HasValid ws → All HasValid (receive_all xs ws)
unfolding receive_all
receive_all-All [] ws v = v
receive_all-All (x ∷ xs) ws v = receive_all-All xs (receive x ws) (receive-All x ws v)

length-receive_all :
    (xs : List Input) (ws : List Window) → length (receive_all xs ws) ≡ starts xs + length ws
unfolding receive_all receive starts
length-receive_all [] ws = omega arith
length-receive_all (activate ∷ xs) ws =
    let later = length-receive_all xs (ws ++ opened activated ∷ []) in
    omega (arith, later, length-append ws (opened activated ∷ []))
length-receive_all (at i e ∷ xs) ws =
    let later = length-receive_all xs (update i (deliver e) ws) in
    omega (arith, later, length-update i (deliver e) ws)
length-receive_all (close i ∷ xs) ws =
    let later = length-receive_all xs (update i on_window_destroy ws) in
    omega (arith, later, length-update i on_window_destroy ws)

installs_once : (w : InstallerApp) → IsValid w → w.installs ≤ 1
installs_once w v = ground (arith, v.before_install, v.in_install, v.step_bounded)

total_installs-length : (ws : List Window) → All HasValid ws → total_installs ws ≤ length ws
unfolding total_installs
total_installs-length [] v = omega arith
total_installs-length (w ∷ ws) v =
    omega (arith, installs_once w.app v.0, total_installs-length ws v.1)

-- The whole of one window: it is opened, Next is clicked through, and the timer calls.
unfoldable whole_run : ℕ → List Input
whole_run k = activate ∷ map (at k) (next_clicks 6 ++ timer_fires ∷ [])

update-last :
    (e : Window → Window) (ws : List Window) (w : Window)
    → update (length ws) e (ws ++ w ∷ []) ≡ ws ++ e w ∷ []
unfolding update
update-last e [] w = refl
update-last e (v ∷ ws) w = ap (◌∷◌ v) (update-last e ws w)

deliver-opened : (e : Event) (app : InstallerApp) → deliver e (opened app) ≡ opened (handle e app)
unfolding deliver
deliver-opened click_next app = refl
deliver-opened click_back app = refl
deliver-opened timer_fires app = refl
deliver-opened click_reboot_now app = refl
deliver-opened click_reboot_later app = refl

run-last :
    (es : List Event) (ws : List Window) (w : InstallerApp)
    → receive_all (map (at (length ws)) es) (ws ++ opened w ∷ []) ≡ ws ++ opened (run es w) ∷ []
unfolding receive_all receive run
run-last [] ws w = refl
run-last (e ∷ es) ws w =
    ap (receive_all (map (at (length ws)) es))
      (update-last (deliver e) ws (opened w) ∙ ap (λ v. ws ++ v ∷ []) (deliver-opened e w))
    ∙ run-last es ws (handle e w)

total-append :
    (ws vs : List Window) → total_installs (ws ++ vs) ≡ total_installs ws + total_installs vs
unfolding total_installs
total-append [] vs = omega arith
total-append (w ∷ ws) vs = omega (arith, total-append ws vs)

receive_all-append :
    (xs ys : List Input) (ws : List Window)
    → receive_all (xs ++ ys) ws ≡ receive_all ys (receive_all xs ws)
unfolding receive_all
receive_all-append [] ys ws = refl
receive_all-append (x ∷ xs) ys ws = receive_all-append xs ys (receive x ws)

-- `n` starts of the program, each used to its end.
unfoldable pub runs : ℕ → List Input
unfolding whole_run
runs zero = []
runs (suc n) = runs n ++ whole_run n

runs_lem :
    (n : ℕ)
    → (total_installs (receive_all (runs n) []) ≡ n) × (length (receive_all (runs n) []) ≡ n)
unfolding runs whole_run receive_all receive total_installs run activated update_navigation
runs_lem zero = (refl, refl)
runs_lem (suc n) =
    let before = runs_lem n in
    let ws = receive_all (runs n) [] in
    let steps = next_clicks 6 ++ timer_fires ∷ [] in
    let w = run steps activated in
    let done : w.installs ≡ 1 = (finishes [] 5 refl).0 in
    let split = receive_all-append (runs n) (whole_run n) [] in
    let named = ap (λ k. receive_all (whole_run k) ws) (sym before.1) in
    let last = split ∙ named ∙ run-last steps ws activated in
    (
      ap total_installs last ∙ omega (arith, total-append ws (opened w ∷ []), before.0, done),
      ap length last ∙ omega (arith, length-append ws (opened w ∷ []), before.1),
    )

-- However often the program is started while it runs, and whatever is clicked in its windows and
-- whichever of them are closed: one application was made for each start, the state of each is in order,
-- and no more installations are performed than there were starts, those of closed windows included,
-- whose timer still comes, freed memory being taken to hold what it held; but every window can perform
-- its own, so `n` starts can install `n` times on the one machine.
pub several_lem :
    (xs : List Input) (n : ℕ)
    → let windows = receive_all xs [] in
      (length windows ≡ starts xs)
      × All HasValid windows
      × (total_installs windows ≤ starts xs)
      × (starts (runs n) ≡ n)
      × (total_installs (receive_all (runs n) []) ≡ n)
several_lem xs n =
    let valid = receive_all-All xs [] tt in
    let count : length (receive_all xs []) ≡ starts xs = omega (arith, length-receive_all xs []) in
    let runs_count = length-receive_all (runs n) [] in
    let all = runs_lem n in
    (
      count,
      valid,
      omega (arith, count, total_installs-length (receive_all xs []) valid),
      omega (arith, runs_count, all.1),
      all.0,
    )
