-- ===== src/Launchpad/Service.antt =====
-- The D-Bus method of app-framework/launchpad/src/launchpad-daemon.c over a launcher: what a caller of
-- `LaunchApp` may rely on. It is stated for any launcher, and then for the pool.
use tizen_os.Base.{
  ℕ, ◌+◌, ◌≡◌, refl, sym, ap, ◌∙◌, inl, inr, Bool, true, false, Option, none, some, List, [], ◌∷◌,
  ◌++◌, append_assoc, append-nil, arith, if◌then◌else◌, Bool-cases, length, length-append,
}
use tizen_os.Libc.{Bytes, codes, str_eq}
use tizen_os.Launchpad.{Spawned, Daemon, handle_method_call}
use tizen_os.Launchpad.Descriptors.{IsValid}
use tizen_os.Launchpad.Delivery.{gain}
use tizen_os.Launchpad.Abstract.{spec_launch, Launcher, launchpad, view}

-- A call: the method's name, its two strings, and what the kernel answers if a worker is spawned.
pub record Message : Type 0 where
  pub method : Bytes
  pub app_id : Bytes
  pub app_so_path : Bytes
  pub answer : Spawned

abbrev is_launch : Message → Bool
is_launch m = str_eq m.method (codes "LaunchApp")

-- The paths of the calls that were answered with true.
abbrev pub accepted : List Message → List (Option Bool) → List Bytes
accepted (m ∷ ms) (some true ∷ rs) = m.app_so_path ∷ accepted ms rs
accepted (m ∷ ms) (r ∷ rs) = accepted ms rs
accepted _ _ = []

-- The workers that the kernel gave back after those calls.
abbrev pub refilled : List Message → List (Option Bool) → ℕ
refilled (m ∷ ms) (some true ∷ rs) = gain m.answer + refilled ms rs
refilled (m ∷ ms) (r ∷ rs) = refilled ms rs
refilled _ _ = 0

module _ {State : Type 0} (l : Launcher State) where
  pub call : Message → State → State × Option Bool
  call m s =
      let launched = l.launch m.app_so_path m.answer s in
      if is_launch m then (launched.0, some launched.1) else (s, none)

  pub calls : List Message → State → State × List (Option Bool)
  calls [] s = (s, [])
  calls (m ∷ ms) s =
      let (s', reply) = call m s in let (last, replies) = calls ms s' in (last, reply ∷ replies)

  -- The kernel's answers are fresh where they are used.
  abbrev pub AllFresh : List Message → State → Type 0
  AllFresh [] s = Unit {0}
  AllFresh (m ∷ ms) s =
      (is_launch m ≡ true → l.Fresh m.app_so_path m.answer s) × AllFresh ms (call m s).0

  call-Valid :
      (m : Message) (s : State)
      → (is_launch m ≡ true → l.Fresh m.app_so_path m.answer s)
      → l.Valid s
      → l.Valid (call m s).0
  unfolding call
  call-Valid m s f v = elim (Bool-cases (is_launch m)) [
    | inl e ↦ rw e (l.stays m.app_so_path m.answer s (f e) v)
    | inr e ↦ rw e v
  ]

  -- What one call does to the view.
  call_lem :
      (m : Message) (s : State)
      → l.Valid s
      → ((l.shows (call m s).0).delivered
          ≡ (l.shows s).delivered ++ accepted (m ∷ []) ((call m s).1 ∷ []))
        × ((l.shows (call m s).0).ready + length (accepted (m ∷ []) ((call m s).1 ∷ []))
            ≡ (l.shows s).ready + refilled (m ∷ []) ((call m s).1 ∷ []))
  unfolding call spec_launch
  call_lem m s v =
      let spec = l.refines m.app_so_path m.answer s v in
      let ready = ap (λ x. x.0.ready) spec in
      let delivered = ap (λ x. x.0.delivered) spec in
      let done = ap (λ x. x.1) spec in
      let whole = append-nil (l.shows s).delivered in ground (arith, ready, delivered, done, whole)

  accepted-cons :
      (m : Message) (r : Option Bool) (ms : List Message) (rs : List (Option Bool))
      → (accepted (m ∷ ms) (r ∷ rs) ≡ accepted (m ∷ []) (r ∷ []) ++ accepted ms rs)
        × (refilled (m ∷ ms) (r ∷ rs) ≡ refilled (m ∷ []) (r ∷ []) + refilled ms rs)
  accepted-cons m none ms rs = (refl, omega arith)
  accepted-cons m (some true) ms rs = (refl, omega arith)
  accepted-cons m (some false) ms rs = (refl, omega arith)

  pub calls_lem :
      (ms : List Message) (s : State)
      → AllFresh ms s
      → l.Valid s
      → let (s', replies) = calls ms s in
        ((l.shows s').delivered ≡ (l.shows s).delivered ++ accepted ms replies)
        × ((l.shows s').ready + length (accepted ms replies)
            ≡ (l.shows s).ready + refilled ms replies)
  unfolding calls
  calls_lem [] s f v = (sym (append-nil _), refl)
  calls_lem (m ∷ ms) s f v =
      let (s', reply) = call m s in
      let here = call_lem m s v in
      let later = calls_lem ms s' f.1 (call-Valid m s f.0 v) in
      let rs = (calls ms s').1 in
      let both = accepted-cons m reply ms rs in
      let one = accepted (m ∷ []) (reply ∷ []) in
      let joined = length-append one (accepted ms rs) in
      (
        later.0
            ∙ ap (λ x. x ++ accepted ms rs) here.0
            ∙ append_assoc (l.shows s).delivered one (accepted ms rs)
            ∙ ap (λ x. (l.shows s).delivered ++ x) (sym both.0),
        omega (arith, here.1, later.1, both.1, joined, ap length both.0),
      )

-- The daemon, over the calls that it gets.
unfoldable pub serve : List Message → Daemon → Daemon × List (Option Bool)
serve [] d = (d, [])
serve (m ∷ ms) d =
    let (d', reply) = handle_method_call m.method m.app_id m.app_so_path m.answer d in
    let (last, replies) = serve ms d' in (last, reply ∷ replies)

serve-calls : (ms : List Message) (d : Daemon) → serve ms d ≡ calls launchpad ms d
unfolding serve calls handle_method_call call
serve-calls [] d = refl
serve-calls (m ∷ ms) d =
    ap (λ x. (x.0, (call launchpad m d).1 ∷ x.1)) (serve-calls ms (call launchpad m d).0)

-- From a valid state, and while the kernel's answers are fresh, the paths that the daemon hands to its
-- workers over any calls are the paths of the calls that it answers with true, in their order; and it
-- answers as many with true as it loses workers and gets new ones.
pub serve_lem :
    (ms : List Message) (d : Daemon)
    → AllFresh launchpad ms d
    → IsValid d
    → let (d', replies) = serve ms d in
      ((view d').delivered ≡ (view d).delivered ++ accepted ms replies)
      × ((view d').ready + length (accepted ms replies) ≡ (view d).ready + refilled ms replies)
serve_lem ms d f v = rw (serve-calls ms d) (calls_lem launchpad ms d f v)
