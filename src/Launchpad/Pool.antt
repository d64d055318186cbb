-- ===== src/Launchpad/Pool.antt =====
-- `launchpad_launch_app` over any history: what a launch does, and how many workers are left.
use tizen_os.Base.{
  ℕ, ◌≤◌, ◌≡◌, inl, inr, Bool, some, List, [], ◌∷◌, arith, Option-cases, get_elem?, Option, none,
}
use mathlib.Core.Path.{subst}
use tizen_os.Libc.{Bytes}
use tizen_os.Launchpad.{
  PreForkWorker, Spawned, Daemon, count, launchpad_init_pool, prefork_pool_size, start,
  find_available, hand_over, launchpad_launch_app,
}
use tizen_os.Launchpad.Descriptors.{
  IsValid, IsFresh, AllFresh, spawn-IsValid, init_from-IsValid, find_available-IsFirst,
  hand_over-IsValid,
}

-- A request with what the kernel answers when the slot is filled again.
abbrev pub Request : Type 0
Request = Bytes × Spawned

unfoldable pub run : Daemon → List Request → Daemon × List Bool
run d [] = (d, [])
run d ((path, answer) ∷ rs) =
    let (d', done) = launchpad_launch_app path answer d in
    let (last, replies) = run d' rs in (last, done ∷ replies)

-- The answer is used only where a worker is found, and is then fresh.
abbrev pub IsFreshFor : Bytes → Spawned → Daemon → Option (ℕ × PreForkWorker) → Type 0
IsFreshFor path answer d none = Unit
IsFreshFor path answer d (some (i, w)) = IsFresh answer (hand_over path i w d).open_fds

abbrev pub IsFreshAt : Bytes → Spawned → Daemon → Type 0
IsFreshAt path answer d = IsFreshFor path answer d (find_available 0 d.pool)

abbrev pub AllFreshAt : List Request → Daemon → Type 0
AllFreshAt [] d = Unit
AllFreshAt ((path, answer) ∷ rs) d =
    IsFreshAt path answer d × AllFreshAt rs (launchpad_launch_app path answer d).0

pub launch-IsValid :
    (path : Bytes) (answer : Spawned) (d : Daemon)
    → IsFreshAt path answer d
    → IsValid d
    → IsValid (launchpad_launch_app path answer d).0
unfolding launchpad_launch_app
launch-IsValid path answer d f v = elim (Option-cases (find_available 0 d.pool)) [
  | inl e ↦ rw (e, launchpad_launch_app) v
  | inr ((i, w), e) ↦
      let first = find_available-IsFirst 0 d.pool i w e in
      let at : get_elem? d.pool i ≡ some w = ground (arith, first.index_is, first.stands) in
      rw (e, launchpad_launch_app)
        (spawn-IsValid i answer (hand_over path i w d) (subst (IsFreshFor path answer d) e f)
          (hand_over-IsValid path i w d at first.available v))
]

run-IsValid : (d : Daemon) (rs : List Request) → AllFreshAt rs d → IsValid d → IsValid (run d rs).0
unfolding run
run-IsValid d [] f v = v
run-IsValid d ((path, answer) ∷ rs) f v =
    run-IsValid (launchpad_launch_app path answer d).0 rs f.1 (launch-IsValid path answer d f.0 v)

start-IsValid : (held : List ℕ) → ((a : ℕ) → count a held ≤ 1) → IsValid (start held)
start-IsValid held h a = (omega arith, h a)

-- In every state that the daemon reaches from a start with distinct descriptors `held`, by
-- `launchpad_init_pool` and any requests, no descriptor is open twice, and each descriptor of a
-- worker that can take an app is open and belongs to that worker alone, given that the descriptors
-- that `socketpair` returns are distinct and were not open and that `fork` returns an id above 0.
pub init-run-IsValid :
    (held : List ℕ) (answers : ℕ → Spawned) (rs : List Request)
    → ((a : ℕ) → count a held ≤ 1)
    → AllFresh prefork_pool_size 0 answers (start held)
    → AllFreshAt rs (launchpad_init_pool answers (start held))
    → IsValid (run (launchpad_init_pool answers (start held)) rs).0
unfolding launchpad_init_pool
init-run-IsValid held answers rs h f g =
    run-IsValid (launchpad_init_pool answers (start held)) rs g
      (init_from-IsValid prefork_pool_size 0 answers (start held) f (start-IsValid held h))
