-- ===== src/Launchpad.antt =====
-- The pre-fork pool of app-framework/launchpad/src/launchpad-loader.c, and the method of
-- launchpad-daemon.c that uses it. What `socketpair` and `fork` answer is an argument of each spawn;
-- the descriptors that the daemon holds open and what it has written are part of its state.
pub mod Descriptors
pub mod Pool
pub mod Delivery
pub mod Accounting
pub mod Abstract
pub mod Service
pub mod Worker
pub mod Whole
pub mod Tests
use tizen_os.Base.{
  ℕ, zero, suc, ◌+◌, ◌<◌, ◌≢◌, ◌≡◌, Bool, true, false, not, ◌&&◌, List, [], ◌∷◌, ◌++◌, ltb, ◌==◌,
  if◌then◌else◌, set, Option, none, some, ◌-◌, ◌*◌, ◌/◌, ◌%◌, ◌^◌, ◌≤◌, min, refl, sym, ap, ◌∙◌,
  ◌↔◌, ◌⊎◌, inl, inr, ◌||◌, map, append_assoc, append-nil, arith, leb, ==_iff, Bool-cases,
  Option-cases, length, take, drop, get_elem?, All, join, length-append, take-append-drop,
  length-take, length-drop, take_all,
}
use tizen_os.Libc.{Bytes, codes, str_eq}

abbrev pub prefork_pool_size : ℕ
prefork_pool_size = 3

pub record PreForkWorker : Type 0 where
  pub pid : ℕ
  pub socket_fd : ℕ
  pub is_busy : Bool

-- What the kernel answers when a worker is spawned: the two ends of the pair, and the child's id.
pub data Spawned : Type 0 where
  no_pair : Spawned
  no_fork : ℕ → ℕ → Spawned
  child : ℕ → ℕ → ℕ → Spawned

pub record Daemon : Type 0 where
  pub pool : List PreForkWorker
  pub open_fds : List ℕ
  pub sent : List (ℕ × Bytes)

abbrev pub is_available : PreForkWorker → Bool
is_available w = not w.is_busy && ltb 0 w.pid

-- `close (fd)`
abbrev pub close : ℕ → List ℕ → List ℕ
close fd [] = []
close fd (x ∷ xs) = if x == fd then xs else x ∷ close fd xs

-- How often a descriptor stands in a table.
abbrev pub count : ℕ → List ℕ → ℕ
count a [] = 0
count a (x ∷ xs) = (if x == a then 1 else 0) + count a xs

-- `write (fd, text, strlen (text))`, whose result the code ignores: nothing goes out on a descriptor
-- that is not open.
abbrev pub write : ℕ → Bytes → Daemon → Daemon
write fd text d =
    if ltb 0 (count fd d.open_fds) then record d { sent = d.sent ++ (fd, text) ∷ [] } else d

-- `launchpad_spawn_worker`, in the parent.
pub launchpad_spawn_worker : ℕ → Spawned → Daemon → Daemon
launchpad_spawn_worker index no_pair d = d
launchpad_spawn_worker index (no_fork near far) d = record d { open_fds = near ∷ far ∷ d.open_fds }
launchpad_spawn_worker index (child near far pid) d = record d {
  pool = set d.pool index (record { pid = pid; socket_fd = near; is_busy = false });
  open_fds = close far (near ∷ far ∷ d.open_fds);
}

-- The loop of `launchpad_init_pool`, from `i`, with `n` rounds left.
pub init_from : ℕ → ℕ → (ℕ → Spawned) → Daemon → Daemon
init_from zero i answers d = d
init_from (suc n) i answers d = init_from n (i + 1) answers (launchpad_spawn_worker i (answers i) d)

-- `launchpad_init_pool`
pub launchpad_init_pool : (ℕ → Spawned) → Daemon → Daemon
launchpad_init_pool = init_from prefork_pool_size 0

-- The static pool is zero at the start.
abbrev pub start : List ℕ → Daemon
start held = record { pool = zeroed ∷ zeroed ∷ zeroed ∷ []; open_fds = held; sent = [] }
  where
    zeroed : PreForkWorker
    zeroed = record { pid = 0; socket_fd = 0; is_busy = false }

-- The index and the entry of the first worker that can take an app, from `i` on.
pub find_available : ℕ → List PreForkWorker → Option (ℕ × PreForkWorker)
find_available i [] = none
find_available i (w ∷ ws) = if is_available w then some (i, w) else find_available (i + 1) ws

-- What the loop body does with the worker at `i`, up to the new spawn. The `write` is taken to go out: a
-- worker that has ended in the meantime is not modelled.
pub hand_over : Bytes → ℕ → PreForkWorker → Daemon → Daemon
hand_over app_so_path i w d =
    let written = write w.socket_fd app_so_path d in
    record written {
      open_fds = close w.socket_fd written.open_fds;
      pool = set written.pool i (record w { is_busy = true });
    }

-- `launchpad_launch_app`
pub launchpad_launch_app : Bytes → Spawned → Daemon → Daemon × Bool
launchpad_launch_app app_so_path answer d = elim (find_available 0 d.pool) [
  | none ↦ (d, false)
  | some (i, w) ↦ (launchpad_spawn_worker i answer (hand_over app_so_path i w d), true)
]

-- `handle_method_call`: the reply to `LaunchApp`, and no reply to any other method.
unfoldable pub handle_method_call : Bytes → Bytes → Bytes → Spawned → Daemon → Daemon × Option Bool
handle_method_call method app_id app_so_path answer d =
    let launched = launchpad_launch_app app_so_path answer d in
    if str_eq method (codes "LaunchApp") then (launched.0, some launched.1) else (d, none)
