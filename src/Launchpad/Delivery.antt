-- ===== src/Launchpad/Delivery.antt =====
-- What one launch does to the sockets and the slots, and how a pool runs out.
use tizen_os.Base.{
  ℕ, zero, suc, ◌+◌, ◌≡◌, refl, ap, ◌∙◌, ◌≢◌, ◌⊎◌, inl, inr, Bool, true, false, none, some, List,
  [], ◌∷◌, ◌++◌, arith, ltb, if◌then◌else◌, Option-cases, get_elem?, set, All,
}
use tizen_os.Libc.{Bytes}
use tizen_os.Launchpad.{
  PreForkWorker, Spawned, no_pair, no_fork, child, Daemon, is_available, launchpad_spawn_worker,
  find_available, hand_over, launchpad_launch_app,
}
use tizen_os.Launchpad.Descriptors.{IsValid, IsFirst, find_available-IsFirst, owns-le-owners}
use tizen_os.Launchpad.Pool.{Request, run}

-- `d'` is `d` after `path` went to the first worker that was free: one message more, on the socket of
-- that worker, and every other slot as it was.
pub record Delivered (path : Bytes) (d d' : Daemon) : Type 0 where
  pub index : ℕ
  pub worker : PreForkWorker
  pub first : IsFirst 0 d.pool index worker
  pub message : d'.sent ≡ d.sent ++ (worker.socket_fd, path) ∷ []
  pub others : (m : ℕ) → m ≢ index → get_elem? d'.pool m ≡ get_elem? d.pool m

abbrev pub NoneAvailable : List PreForkWorker → Type 0
NoneAvailable = All (λ w. is_available w ≡ false)

find_available-none :
    (k : ℕ) (ws : List PreForkWorker) → find_available k ws ≡ none → NoneAvailable ws
unfolding find_available
find_available-none k [] e = tt
find_available-none k (w ∷ ws) e = ground (arith, find_available-none (k + 1) ws)

NoneAvailable-find :
    (k : ℕ) (ws : List PreForkWorker) → NoneAvailable ws → find_available k ws ≡ none
unfolding find_available
NoneAvailable-find k [] h = refl
NoneAvailable-find k (w ∷ ws) h = ground (arith, NoneAvailable-find (k + 1) ws)

get_elem?-set_ne {ℓ} :
    {A : Type ℓ} (xs : List A) (i m : ℕ) (v : A) → m ≢ i → get_elem? (set xs i v) m ≡ get_elem? xs m
get_elem?-set_ne [] i m v h = refl
get_elem?-set_ne (x ∷ xs) zero zero v h = absurd (h refl)
get_elem?-set_ne (x ∷ xs) zero (suc m) v h = refl
get_elem?-set_ne (x ∷ xs) (suc i) zero v h = refl
get_elem?-set_ne (x ∷ xs) (suc i) (suc m) v h = get_elem?-set_ne xs i m v (λ e. h (ap suc e))

spawn_others :
    (i : ℕ) (answer : Spawned) (d : Daemon) (m : ℕ)
    → m ≢ i
    → get_elem? (launchpad_spawn_worker i answer d).pool m ≡ get_elem? d.pool m
unfolding launchpad_spawn_worker
spawn_others i no_pair d m h = refl
spawn_others i (no_fork near far) d m h = refl
spawn_others i (child near far pid) d m h = get_elem?-set_ne d.pool i m _ h

sent-spawn :
    (i : ℕ) (answer : Spawned) (d : Daemon) → (launchpad_spawn_worker i answer d).sent ≡ d.sent
unfolding launchpad_spawn_worker
sent-spawn i no_pair d = refl
sent-spawn i _ d = refl

sent-hand_over :
    (path : Bytes) (i : ℕ) (w : PreForkWorker) (d : Daemon)
    → get_elem? d.pool i ≡ some w
    → is_available w ≡ true
    → IsValid d
    → (hand_over path i w d).sent ≡ d.sent ++ (w.socket_fd, path) ∷ []
unfolding hand_over
sent-hand_over path i w d e av v =
    ground (arith, v w.socket_fd, owns-le-owners w.socket_fd i d.pool w e)

pub pool-hand_over :
    (path : Bytes) (i : ℕ) (w : PreForkWorker) (d : Daemon)
    → (hand_over path i w d).pool ≡ set d.pool i (record w { is_busy = true })
unfolding hand_over
pool-hand_over path i w d = ground arith

-- In a valid state a launch is refused, and changes nothing, exactly when no worker can take an app;
-- otherwise it returns true and the path goes to the first free worker only, whatever the kernel
-- answers when the slot is filled again.
pub launch_lem :
    (path : Bytes) (answer : Spawned) (d : Daemon)
    → IsValid d
    → (NoneAvailable d.pool × (launchpad_launch_app path answer d ≡ (d, false)))
      ⊎ (Delivered path d (launchpad_launch_app path answer d).0
          × ((launchpad_launch_app path answer d).1 ≡ true))
unfolding launchpad_launch_app
launch_lem path answer d v = elim (Option-cases (find_available 0 d.pool)) [
  | inl e ↦ inl (find_available-none 0 d.pool e, rw (e, launchpad_launch_app))
  | inr ((i, w), e) ↦
      let first = find_available-IsFirst 0 d.pool i w e in
      let at : get_elem? d.pool i ≡ some w = ground (arith, first.index_is, first.stands) in
      inr (rw (e, launchpad_launch_app) (delivered i w first at, refl))
]
  where
    delivered :
        (i : ℕ) (w : PreForkWorker)
        → IsFirst 0 d.pool i w
        → get_elem? d.pool i ≡ some w
        → Delivered path d (launchpad_spawn_worker i answer (hand_over path i w d))
    delivered i w first at = record {
      index = i;
      worker = w;
      first = first;
      message = sent-spawn i answer _ ∙ sent-hand_over path i w d at first.available v;
      others = λ m h.
          spawn_others i answer (hand_over path i w d) m h
          ∙ rw (pool-hand_over path i w d) (get_elem?-set_ne d.pool i m _ h);
    }

-- How many workers can take an app.
abbrev pub idle_count : List PreForkWorker → ℕ
idle_count [] = 0
idle_count (w ∷ ws) = (if is_available w then 1 else 0) + idle_count ws

idle_count-set :
    (i : ℕ) (ws : List PreForkWorker) (v w : PreForkWorker)
    → get_elem? ws i ≡ some v
    → idle_count (set ws i w) + (if is_available v then 1 else 0)
      ≡ idle_count ws + (if is_available w then 1 else 0)
idle_count-set i [] v w e = ground arith
idle_count-set zero (x ∷ ws) v w e = ground arith
idle_count-set (suc i) (x ∷ ws) v w e = omega (arith, idle_count-set i ws v w e)

get_elem?-set_self {ℓ} :
    {A : Type ℓ} (xs : List A) (i : ℕ) {x : A} (v : A)
    → get_elem? xs i ≡ some x
    → get_elem? (set xs i v) i ≡ some v
get_elem?-set_self [] i v e = cc
get_elem?-set_self (x ∷ xs) zero v e = refl
get_elem?-set_self (x ∷ xs) (suc i) v e = get_elem?-set_self xs i v e

-- What the new spawn gives back to the pool.
abbrev pub gain : Spawned → ℕ
gain (child near far pid) = if ltb 0 pid then 1 else 0
gain _ = 0

idle_count-spawn :
    (i : ℕ) (answer : Spawned) (d : Daemon) {w : PreForkWorker}
    → get_elem? d.pool i ≡ some w
    → is_available w ≡ false
    → idle_count (launchpad_spawn_worker i answer d).pool ≡ idle_count d.pool + gain answer
unfolding launchpad_spawn_worker
idle_count-spawn i no_pair d e h = omega arith
idle_count-spawn i (no_fork near far) d e h = omega arith
idle_count-spawn i (child near far pid) d {w} e h =
    ground
      (arith, idle_count-set i d.pool w (record { pid = pid; socket_fd = near; is_busy = false }) e)

-- A launch that is served takes one worker, and gives one back only if the kernel made a new one.
pub idle_count-launch :
    (path : Bytes) (answer : Spawned) (d : Daemon)
    → (launchpad_launch_app path answer d).1 ≡ true
    → idle_count (launchpad_launch_app path answer d).0.pool + 1 ≡ idle_count d.pool + gain answer
unfolding launchpad_launch_app
idle_count-launch path answer d h = elim (Option-cases (find_available 0 d.pool)) [
  | inl e ↦ ground arith
  | inr ((i, w), e) ↦
      let first = find_available-IsFirst 0 d.pool i w e in
      let at : get_elem? d.pool i ≡ some w = ground (arith, first.index_is, first.stands) in
      let busy : PreForkWorker = record w { is_busy = true } in
      let marked : get_elem? (hand_over path i w d).pool i ≡ some busy =
        rw (pool-hand_over path i w d) (get_elem?-set_self d.pool i busy at) in
      rw (e, launchpad_launch_app)
        (omega (
          arith,
          idle_count-spawn i answer (hand_over path i w d) marked refl,
          ap idle_count (pool-hand_over path i w d),
          taken i w busy at first.available refl,
        ))
]
  where
    taken :
        (i : ℕ) (w busy : PreForkWorker)
        → get_elem? d.pool i ≡ some w
        → is_available w ≡ true
        → is_available busy ≡ false
        → idle_count (set d.pool i busy) + 1 ≡ idle_count d.pool
    taken i w busy at a b = ground (arith, idle_count-set i d.pool w busy at)

abbrev pub all_refused : List Request → List Bool
all_refused [] = []
all_refused (r ∷ rs) = false ∷ all_refused rs

-- A pool with no worker left stays so: every later request is refused and nothing is spawned again.
pub exhausted_forever :
    (d : Daemon) (rs : List Request) → NoneAvailable d.pool → run d rs ≡ (d, all_refused rs)
unfolding run launchpad_launch_app
exhausted_forever d [] h = refl
exhausted_forever d ((path, answer) ∷ rs) h =
    ground (arith, NoneAvailable-find 0 d.pool h, exhausted_forever d rs h)
