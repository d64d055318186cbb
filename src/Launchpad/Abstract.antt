-- ===== src/Launchpad/Abstract.antt =====
-- What the pool promises to the daemon, without the workers: a number of apps that it can start at
-- once, and the paths that it has handed over. `Launcher` is the interface that the daemon's
-- `handle_method_call` needs, and `launchpad` is the pool behind it.
use tizen_os.Base.{
  ℕ, zero, suc, ◌+◌, ◌-◌, ◌≤◌, ◌≡◌, refl, ap, ◌∙◌, inl, inr, Bool, true, false, some, List, [], ◌∷◌,
  ◌++◌, arith, ◌==◌, if◌then◌else◌, get_elem?,
}
use tizen_os.Libc.{Bytes}
use tizen_os.Launchpad.{PreForkWorker, Spawned, Daemon, is_available, launchpad_launch_app}
use tizen_os.Launchpad.Descriptors.{IsValid}
use tizen_os.Launchpad.Pool.{Request, run, IsFreshAt, AllFreshAt, launch-IsValid}
use tizen_os.Launchpad.Delivery.{NoneAvailable, launch_lem, idle_count, idle_count-launch, gain}

pub record Pool : Type 0 where
  pub ready : ℕ
  pub delivered : List Bytes

-- A launch takes one worker, hands the path to it, and gets what the kernel gives back.
unfoldable pub spec_launch : Bytes → Spawned → Pool → Pool × Bool
spec_launch path answer p =
    if p.ready == 0
    then (p, false)
    else (record { ready = p.ready - 1 + gain answer; delivered = p.delivered ++ path ∷ [] }, true)

pub spec_run : Pool → List Request → Pool × List Bool
spec_run p [] = (p, [])
spec_run p ((path, answer) ∷ rs) =
    let (p', done) = spec_launch path answer p in
    let (last, replies) = spec_run p' rs in (last, done ∷ replies)

abbrev pub paths_of : List (ℕ × Bytes) → List Bytes
paths_of [] = []
paths_of ((fd, path) ∷ rest) = path ∷ paths_of rest

paths_of-append : (xs ys : List (ℕ × Bytes)) → paths_of (xs ++ ys) ≡ paths_of xs ++ paths_of ys
paths_of-append [] ys = refl
paths_of-append ((fd, path) ∷ xs) ys = ap (◌∷◌ path) (paths_of-append xs ys)

-- The pool that the daemon's table and its log stand for.
abbrev pub view : Daemon → Pool
view d = record { ready = idle_count d.pool; delivered = paths_of d.sent }

idle_count-none : (ws : List PreForkWorker) → NoneAvailable ws → idle_count ws ≡ 0
idle_count-none [] h = refl
idle_count-none (w ∷ ws) h = ground (arith, idle_count-none ws h.1)

idle_count-some :
    (ws : List PreForkWorker) (i : ℕ) (w : PreForkWorker)
    → get_elem? ws i ≡ some w
    → is_available w ≡ true
    → 1 ≤ idle_count ws
idle_count-some [] i w e h = ground arith
idle_count-some (x ∷ ws) zero w e h = ground arith
idle_count-some (x ∷ ws) (suc i) w e h = ground (arith, idle_count-some ws i w)

-- One launch does to the view what the specification says, and answers as it does.
pub launch_refines :
    (path : Bytes) (answer : Spawned) (d : Daemon)
    → IsValid d
    → let (d', done) = launchpad_launch_app path answer d in
      (view d', done) ≡ spec_launch path answer (view d)
unfolding spec_launch
launch_refines path answer d v = elim (launch_lem path answer d v) [
  | inl (none_free, same) ↦ rw same (ground (arith, idle_count-none d.pool none_free))
  | inr (sent_on, done) ↦
      let first = sent_on.first in
      let free = idle_count-some d.pool first.offset sent_on.worker first.stands first.available in
      let counted = idle_count-launch path answer d done in
      let logged =
        ap paths_of sent_on.message
        ∙ paths_of-append d.sent ((sent_on.worker.socket_fd, path) ∷ []) in
      ground (arith, free, counted, logged, done)
]

-- A pool as its client sees it.
pub record Launcher (State : Type 0) : Type 1 where
  pub launch : Bytes → Spawned → State → State × Bool
  pub shows : State → Pool
  pub Valid : State → Type 0
  pub Fresh : Bytes → Spawned → State → Type 0
  pub refines :
      (path : Bytes) (answer : Spawned) (s : State)
      → Valid s
      → (shows (launch path answer s).0, (launch path answer s).1)
        ≡ spec_launch path answer (shows s)
  pub stays :
      (path : Bytes) (answer : Spawned) (s : State)
      → Fresh path answer s
      → Valid s
      → Valid (launch path answer s).0

abbrev pub launchpad : Launcher Daemon
launchpad = record {
  launch = launchpad_launch_app;
  shows = view;
  Valid = IsValid;
  Fresh = IsFreshAt;
  refines = launch_refines;
  stays = launch-IsValid;
}

-- From a valid state, and while the kernel's answers are fresh, the daemon's table, its log and its
-- replies over any requests are what the specification gives from the view of the state.
pub run_refines :
    (rs : List Request) (d : Daemon)
    → AllFreshAt rs d
    → IsValid d
    → (view (run d rs).0, (run d rs).1) ≡ spec_run (view d) rs
unfolding run spec_run
run_refines [] d f v = refl
run_refines ((path, answer) ∷ rs) d f v =
    let here = launch_refines path answer d v in
    let later =
      run_refines rs (launchpad_launch_app path answer d).0 f.1
        (launch-IsValid path answer d f.0 v) in
    ap (λ x. (x.0, (launchpad_launch_app path answer d).1 ∷ x.1)) later
    ∙ ap (λ x. ((spec_run x.0 rs).0, x.1 ∷ (spec_run x.0 rs).1)) here
