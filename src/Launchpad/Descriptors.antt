-- ===== src/Launchpad/Descriptors.antt =====
-- The pool against the table of open descriptors: a worker that can take an app has an open socket,
-- and shares it with no other.
use tizen_os.Base.{
  ℕ, zero, suc, ◌+◌, ◌-◌, ◌≤◌, ◌<◌, ◌≡◌, ◌≢◌, false, ◌∷◌, [], List, ◌==◌, if◌then◌else◌, set,
  get_elem?, some, arith, inl, inr, true, Bool-cases,
}
use tizen_os.Launchpad.{
  PreForkWorker, Spawned, no_pair, no_fork, child, Daemon, is_available, close, count,
  launchpad_spawn_worker, init_from, find_available, hand_over, Bytes,
}

-- 1 if this worker could be handed an app through descriptor `a`.
abbrev pub owns : ℕ → PreForkWorker → ℕ
owns a w = if is_available w then (if w.socket_fd == a then 1 else 0) else 0

abbrev pub owners : ℕ → List PreForkWorker → ℕ
owners a [] = 0
owners a (w ∷ ws) = owns a w + owners a ws

-- Every descriptor is open at most once, and owned by a worker only while it is open, and only once.
abbrev pub IsValid : Daemon → Type 0
IsValid d = (a : ℕ) → (owners a d.pool ≤ count a d.open_fds) × (count a d.open_fds ≤ 1)

-- What `socketpair` and `fork` promise: descriptors that were not open, and an id that is not 0.
abbrev pub IsFresh : Spawned → List ℕ → Type 0
IsFresh no_pair fds = Unit
IsFresh (no_fork near far) fds = (near ≢ far) × (count near fds ≡ 0) × (count far fds ≡ 0)
IsFresh (child near far pid) fds =
    (near ≢ far) × (count near fds ≡ 0) × (count far fds ≡ 0) × (0 < pid)

pub count-close :
    (a fd : ℕ) (fds : List ℕ) → count a (close fd fds) ≡ count a fds - (if fd == a then 1 else 0)
count-close a fd [] = ground arith
count-close a fd (x ∷ xs) = ground (arith, count-close a fd xs)

pub owners-set_le :
    (a i : ℕ) (ws : List PreForkWorker) (w : PreForkWorker)
    → owners a (set ws i w) ≤ owners a ws + owns a w
owners-set_le a i [] w = omega arith
owners-set_le a zero (x ∷ ws) w = omega arith
owners-set_le a (suc i) (x ∷ ws) w = omega (arith, owners-set_le a i ws w)

pub owners-set :
    (a i : ℕ) (ws : List PreForkWorker) (v w : PreForkWorker)
    → get_elem? ws i ≡ some v
    → owners a (set ws i w) + owns a v ≡ owners a ws + owns a w
owners-set a i [] v w e = ground arith
owners-set a zero (x ∷ ws) v w e = ground arith
owners-set a (suc i) (x ∷ ws) v w e = omega (arith, owners-set a i ws v w e)

pub spawn-IsValid :
    (i : ℕ) (answer : Spawned) (d : Daemon)
    → IsFresh answer d.open_fds
    → IsValid d
    → IsValid (launchpad_spawn_worker i answer d)
unfolding launchpad_spawn_worker
spawn-IsValid i no_pair d f v a = v a
spawn-IsValid i (no_fork near far) d f v a = ground (arith, v a)
spawn-IsValid i (child near far pid) d f v a = ground (
  arith,
  v a,
  count-close a far (near ∷ far ∷ d.open_fds),
  owners-set_le a i d.pool (record { pid = pid; socket_fd = near; is_busy = false }),
)

-- The answers are fresh, each at the time when it is given.
abbrev pub AllFresh : ℕ → ℕ → (ℕ → Spawned) → Daemon → Type 0
AllFresh zero i answers d = Unit
AllFresh (suc n) i answers d =
    IsFresh (answers i) d.open_fds
    × AllFresh n (i + 1) answers (launchpad_spawn_worker i (answers i) d)

pub init_from-IsValid :
    (n i : ℕ) (answers : ℕ → Spawned) (d : Daemon)
    → AllFresh n i answers d
    → IsValid d
    → IsValid (init_from n i answers d)
unfolding init_from
init_from-IsValid zero i answers d f v = v
init_from-IsValid (suc n) i answers d f v =
    init_from-IsValid n (i + 1) answers (launchpad_spawn_worker i (answers i) d) f.1
      (spawn-IsValid i (answers i) d f.0 v)

-- What the scan returns: the worker at that index, which is available, and none before it is.
pub record IsFirst (k : ℕ) (ws : List PreForkWorker) (i : ℕ) (w : PreForkWorker) : Type 0 where
  pub offset : ℕ
  pub index_is : i ≡ k + offset
  pub stands : get_elem? ws offset ≡ some w
  pub available : is_available w ≡ true
  pub none_before :
      (m : ℕ) (v : PreForkWorker) → m < offset → get_elem? ws m ≡ some v → is_available v ≡ false

pub find_available-IsFirst :
    (k : ℕ) (ws : List PreForkWorker) (i : ℕ) (w : PreForkWorker)
    → find_available k ws ≡ some (i, w)
    → IsFirst k ws i w
unfolding find_available
find_available-IsFirst k [] i w e = cc
find_available-IsFirst k (x ∷ ws) i w e = elim (Bool-cases (is_available x)) [
  | inl yes' ↦ record {
    offset = 0;
    index_is = ground arith;
    stands = ground arith;
    available = ground arith;
    none_before = λ m v lt _. absurd (omega arith);
  }
  | inr no' ↦
      let first = find_available-IsFirst (k + 1) ws i w (ground arith) in
      record {
        offset = suc first.offset;
        index_is = omega (arith, first.index_is);
        stands = first.stands;
        available = first.available;
        none_before = λ m v lt g. later x ws first.offset no' first.none_before m v lt g;
      }
]
  where
    later :
        (x : PreForkWorker) (ws : List PreForkWorker) (j : ℕ)
        → is_available x ≡ false
        → ((m : ℕ) (v : PreForkWorker) → m < j → get_elem? ws m ≡ some v → is_available v ≡ false)
        → (m : ℕ) (v : PreForkWorker) → m < suc j
        → get_elem? (x ∷ ws) m ≡ some v
        → is_available v ≡ false
    later x ws j no' h zero v lt g = ground arith
    later x ws j no' h (suc m) v lt g = h m v (omega arith) g

pub hand_over-IsValid :
    (path : Bytes) (i : ℕ) (w : PreForkWorker) (d : Daemon)
    → get_elem? d.pool i ≡ some w
    → is_available w ≡ true
    → IsValid d
    → IsValid (hand_over path i w d)
unfolding hand_over
hand_over-IsValid path i w d e av v a = ground (
  arith,
  v a,
  count-close a w.socket_fd d.open_fds,
  owners-set a i d.pool w (record w { is_busy = true }) e,
)

pub owns-le-owners :
    (a i : ℕ) (ws : List PreForkWorker) (w : PreForkWorker)
    → get_elem? ws i ≡ some w
    → owns a w ≤ owners a ws
owns-le-owners a i [] w e = ground arith
owns-le-owners a zero (x ∷ ws) w e = ground arith
owns-le-owners a (suc i) (x ∷ ws) w e = omega (arith, owns-le-owners a i ws w e)
