-- ===== src/Installer/Welcome/Clicks.antt =====
-- What the clicks in the window of boot-welcome.c start.
use tizen_os.Libc.{Bytes, codes}
use tizen_os.Base.{
  ℕ, zero, suc, ◌≡◌, refl, sym, ap, ◌∙◌, Bool, true, false, not, ◌||◌, Option, none, some, List, [],
  ◌∷◌, ◌++◌, append_assoc, append-nil, arith, ◌==◌, if◌then◌else◌, get_elem?, All,
}
use mathlib.Core.Path.{subst}
use tizen_os.Gtk.{buttons}
use tizen_os.Installer.Welcome.{Handler, Greeter, call, on_app_activate, press, clicks, opened}

-- The command of each of the first four places.
unfoldable pub programs : List Bytes
programs =
    codes "/usr/local/bin/tizenos-installer-gui &"
    ∷ codes "firefox-esr &"
    ∷ codes "thunar &"
    ∷ codes "xfce4-terminal &"
    ∷ []

abbrev program_at : Option Bytes → List Bytes
program_at none = []
program_at (some cmd) = cmd ∷ []

-- What clicks should start: the program of each, until the fifth place closes the window.
unfoldable pub started : List ℕ → List Bytes
started [] = []
started (i ∷ is) =
    let rest = started is in if i == 4 then [] else program_at (get_elem? programs i) ++ rest

unfoldable pub is_closed : List ℕ → Bool
is_closed [] = false
is_closed (i ∷ is) = i == 4 || is_closed is

-- Whether a command ends in the `&` that leaves it in the background.
unfoldable pub in_background : Bytes → Bool
in_background [] = false
in_background (c ∷ []) = c == b'&'
in_background (c ∷ d ∷ cs) = in_background (d ∷ cs)

open_with : List Bytes → Greeter
open_with cs = record { is_open = true; commands = cs }

shut_with : List Bytes → Greeter
shut_with cs = record { is_open = false; commands = cs }

press_at : ℕ → Greeter → Greeter
press_at i g = press (get_elem? (buttons on_app_activate) i) g

shut-press :
    (o : Option (Bytes × Option Handler)) (cs : List Bytes) → press o (shut_with cs) ≡ shut_with cs
unfolding press shut_with
shut-press none cs = refl
shut-press (some (text, none)) cs = refl
shut-press (some (text, some h)) cs = refl

shut-clicks : (is : List ℕ) (cs : List Bytes) → clicks is (shut_with cs) ≡ shut_with cs
unfolding clicks
shut-clicks [] cs = refl
shut-clicks (i ∷ is) cs =
    ap (clicks is) (shut-press (get_elem? (buttons on_app_activate) i) cs) ∙ shut-clicks is cs

later : (i : ℕ) → (suc (suc (suc (suc (suc i)))) == 4) ≡ false
later i = ground arith

-- One click of the open window, at the fifth place and elsewhere.
press_step :
    (i : ℕ) (cs : List Bytes)
    → press_at i (open_with cs)
      ≡ (if i == 4 then shut_with cs else open_with (cs ++ program_at (get_elem? programs i)))
unfolding press_at press open_with shut_with call on_app_activate buttons programs
press_step zero cs = refl
press_step (suc zero) cs = refl
press_step (suc (suc zero)) cs = refl
press_step (suc (suc (suc zero))) cs = refl
press_step (suc (suc (suc (suc zero)))) cs = refl
press_step (suc (suc (suc (suc (suc i))))) cs =
    ap open_with (sym (append-nil cs))
    ∙ ap (λ b. if b then shut_with cs else open_with (cs ++ [])) (sym (later i))

-- The clicks after one that closes the window or starts `ps`.
clicks_after :
    (b : Bool) (is : List ℕ) (cs ps : List Bytes)
    → (clicks is (open_with (cs ++ ps))
        ≡ record { is_open = not (is_closed is); commands = (cs ++ ps) ++ started is })
    → clicks is (if b then shut_with cs else open_with (cs ++ ps)) ≡ record {
      is_open = not (b || is_closed is);
      commands = cs ++ (if b then [] else ps ++ started is);
    }
unfolding shut_with
clicks_after true is cs ps h =
    shut-clicks is cs ∙ ap (λ c. record { is_open = false; commands = c }) (sym (append-nil cs))
clicks_after false is cs ps h =
    h
    ∙ ap (λ c. record { is_open = not (is_closed is); commands = c })
        (append_assoc cs ps (started is))

clicks_from :
    (is : List ℕ) (cs : List Bytes)
    → clicks is (open_with cs)
      ≡ record { is_open = not (is_closed is); commands = cs ++ started is }
unfolding clicks is_closed started press_at open_with
clicks_from [] cs = ap open_with (sym (append-nil cs))
clicks_from (i ∷ is) cs =
    let ps = program_at (get_elem? programs i) in
    ap (clicks is) (press_step i cs) ∙ clicks_after (i == 4) is cs ps (clicks_from is (cs ++ ps))

All-append : (P : Bytes → Type 0) (xs ys : List Bytes) → All P xs → All P ys → All P (xs ++ ys)
All-append P [] ys h k = k
All-append P (x ∷ xs) ys h k = (h.0, All-append P xs ys h.1 k)

abbrev pub IsBackground : Bytes → Type 0
IsBackground c = in_background c ≡ true

program-IsBackground : (i : ℕ) → All IsBackground (program_at (get_elem? programs i))
unfolding programs in_background
program-IsBackground zero = (refl, tt)
program-IsBackground (suc zero) = (refl, tt)
program-IsBackground (suc (suc zero)) = (refl, tt)
program-IsBackground (suc (suc (suc zero))) = (refl, tt)
program-IsBackground (suc (suc (suc (suc i)))) = tt

unless-IsBackground :
    (b : Bool) (cs : List Bytes) → All IsBackground cs → All IsBackground (if b then [] else cs)
unless-IsBackground true cs h = tt
unless-IsBackground false cs h = h

started-IsBackground : (is : List ℕ) → All IsBackground (started is)
unfolding started
started-IsBackground [] = tt
started-IsBackground (i ∷ is) =
    unless-IsBackground (i == 4) (program_at (get_elem? programs i) ++ started is) (
      All-append IsBackground (program_at (get_elem? programs i)) (started is)
        (program-IsBackground i) (started-IsBackground is))

-- Whatever buttons are clicked, in the order in which they stand in the window, each click of one of the
-- first four starts its program, in the order of the clicks, until the first click of the fifth, which
-- closes the window; and every command is one that the shell leaves in the background, so the window
-- waits for none.
pub clicks_lem :
    (is : List ℕ)
    → ((clicks is opened).commands ≡ started is)
      × ((clicks is opened).is_open ≡ not (is_closed is))
      × All IsBackground (clicks is opened).commands
unfolding open_with
clicks_lem is =
    let same = clicks_from is [] in
    let ran = ap (λ g. g.commands) same in
    (ran, ap (λ g. g.is_open) same, subst (All IsBackground) (sym ran) (started-IsBackground is))
