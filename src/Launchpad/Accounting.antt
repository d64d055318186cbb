-- ===== src/Launchpad/Accounting.antt =====
-- How many descriptors the daemon has open: what a launch takes and gives back, and what is lost.
use tizen_os.Base.{
  ℕ, ◌+◌, ◌≤◌, ◌≡◌, refl, inl, inr, Bool, true, some, List, [], ◌∷◌, arith, if◌then◌else◌,
  Option-cases, length, get_elem?,
}
use tizen_os.Launchpad.{
  PreForkWorker, Spawned, no_pair, no_fork, child, Daemon, is_available, close, count,
  launchpad_spawn_worker, find_available, hand_over, launchpad_launch_app, Bytes,
}
use mathlib.Core.Path.{subst}
use tizen_os.Launchpad.Descriptors.{IsValid, IsFresh, owns-le-owners, find_available-IsFirst}
use tizen_os.Launchpad.Pool.{Request, run, IsFreshAt, IsFreshFor, AllFreshAt, launch-IsValid}
use tizen_os.Launchpad.Delivery.{idle_count, idle_count-launch, gain}

length-close : (fd : ℕ) (fds : List ℕ) → 1 ≤ count fd fds → length (close fd fds) + 1 ≡ length fds
length-close fd [] h = absurd (omega arith)
length-close fd (x ∷ xs) h = ground (arith, length-close fd xs)

added : Spawned → ℕ
added no_pair = 0
added (no_fork near far) = 2
added (child near far pid) = 1

-- The descriptors of a pair whose worker was never made.
pub lost : Spawned → ℕ
lost (no_fork near far) = 2
lost _ = 0

length-spawn :
    (i : ℕ) (answer : Spawned) (d : Daemon)
    → IsFresh answer d.open_fds
    → length (launchpad_spawn_worker i answer d).open_fds ≡ length d.open_fds + added answer
unfolding launchpad_spawn_worker added
length-spawn i no_pair d f = omega arith
length-spawn i (no_fork near far) d f = omega arith
length-spawn i (child near far pid) d f = ground arith

length-hand_over :
    (path : Bytes) (i : ℕ) (w : PreForkWorker) (d : Daemon)
    → IsValid d
    → get_elem? d.pool i ≡ some w
    → is_available w ≡ true
    → length (hand_over path i w d).open_fds + 1 ≡ length d.open_fds
unfolding hand_over
length-hand_over path i w d v at h =
    let owned = owns-le-owners w.socket_fd i d.pool w at in
    let taken = length-close w.socket_fd d.open_fds (ground (arith, v w.socket_fd)) in ground arith

gain-added :
    (answer : Spawned) (fds : List ℕ)
    → IsFresh answer fds
    → added answer ≡ gain answer + lost answer
unfolding added lost
gain-added no_pair fds f = refl
gain-added (no_fork near far) fds f = refl
gain-added (child near far pid) fds f = ground arith

-- What a launch loses: nothing if it was refused.
pub lost_at : Bool → Spawned → ℕ
lost_at served answer = if served then lost answer else 0

descriptors-launch :
    (path : Bytes) (answer : Spawned) (d : Daemon)
    → IsFreshAt path answer d
    → IsValid d
    → let (d', served) = launchpad_launch_app path answer d in
      length d'.open_fds + idle_count d.pool
      ≡ length d.open_fds + idle_count d'.pool + lost_at served answer
unfolding launchpad_launch_app lost_at
descriptors-launch path answer d f v = elim (Option-cases (find_available 0 d.pool)) [
  | inl e ↦ ground arith
  | inr ((i, w), e) ↦
      let first = find_available-IsFirst 0 d.pool i w e in
      let at : get_elem? d.pool i ≡ some w = ground (arith, first.index_is, first.stands) in
      let fresh = subst (IsFreshFor path answer d) e f in
      let served : (launchpad_launch_app path answer d).1 ≡ true =
        rw (e, launchpad_launch_app) refl in
      let idle = idle_count-launch path answer d served in
      let handed = length-hand_over path i w d v at first.available in
      let spawned = length-spawn i answer (hand_over path i w d) fresh in
      let both = gain-added answer (hand_over path i w d).open_fds fresh in
      ground (arith, idle, handed, spawned, both, e)
]

-- What a list of requests loses.
pub lost_by : List Request → Daemon → ℕ
lost_by [] d = 0
lost_by ((path, answer) ∷ rs) d =
    let (d', served) = launchpad_launch_app path answer d in lost_at served answer + lost_by rs d'

-- From a state in which each worker that can take an app owns an open descriptor, and where the
-- kernel returns descriptors that were not open and ids above 0, the daemon has open after any
-- requests what it had before, less one descriptor for each worker that it lost, and besides the two
-- of each pair whose `fork` failed, which it never closes.
pub descriptors-run :
    (rs : List Request) (d : Daemon)
    → AllFreshAt rs d
    → IsValid d
    → length (run d rs).0.open_fds + idle_count d.pool
      ≡ length d.open_fds + idle_count (run d rs).0.pool + lost_by rs d
unfolding run lost_by
descriptors-run [] d f v = omega arith
descriptors-run ((path, answer) ∷ rs) d f v =
    let here = descriptors-launch path answer d f.0 v in
    let later =
      descriptors-run rs (launchpad_launch_app path answer d).0 f.1
        (launch-IsValid path answer d f.0 v) in
    omega (arith, here, later)
