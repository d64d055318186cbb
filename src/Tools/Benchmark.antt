-- ===== src/Tools/Benchmark.antt =====
-- The processes of tools/benchmark-launchpad/src/main.c: the one that measures, and the worker that it
-- forks and asks over a stream socket. The socket is the number of bytes that wait in each direction.
-- The times that are measured and the lines printed are left out.
pub mod Progress
use tizen_os.Base.{
  ℕ, ◌+◌, ◌-◌, min, Bool, true, false, Option, none, some, ltb, ◌==◌, if◌then◌else◌, zero, suc, ◌*◌,
  ◌/◌, ◌%◌, ◌^◌, ◌≤◌, ◌<◌, ◌≡◌, refl, sym, ap, ◌∙◌, ◌≢◌, ◌↔◌, ◌⊎◌, inl, inr, not, ◌&&◌, ◌||◌, List,
  [], ◌∷◌, ◌++◌, map, append_assoc, append-nil, arith, leb, ==_iff, Bool-cases, Option-cases,
  length, take, drop, get_elem?, set, All, join, length-append, take-append-drop, length-take,
  length-drop, take_all,
}

-- NUM_TRIALS
abbrev pub num_trials : ℕ
num_trials = 10

-- What the first process does next, in which trial; `wait_any` is `waitpid (-1, …)`, and `broken` its
-- end by SIGPIPE.
pub data Parent : Type 0 where
  cold wait_any ask await : ℕ → Parent
  stop done broken : Parent

-- There is no worker if `fork` fails.
pub data Worker : Type 0 where
  absent loading ready reply killed : Worker

pub record Bench : Type 0 where
  pub parent : Parent
  pub worker : Worker
  pub to_worker : ℕ
  pub to_parent : ℕ
  pub trials : ℕ

unfoldable pub is_absent : Worker → Bool
is_absent absent = true
is_absent _ = false

-- After the trial: the loop's test, and `kill`.
unfoldable pub next_trial : ℕ → Parent
next_trial i = if ltb i num_trials then cold (i + 1) else stop

-- `benchmark_traditional`: a process is forked, runs `true`, and is waited for. Where `fork` fails, its
-- result, -1, is what `waitpid` is called with.
unfoldable pub benchmark_traditional : Bool → ℕ → Bench → Bench
benchmark_traditional forked i b = record b { parent = if forked then ask i else wait_any i }

-- `waitpid (-1, …)` returns at once where there is no child, and else waits for one to end, which the
-- worker does not before it is killed.
unfoldable pub wait_child : ℕ → Bench → Option Bench
wait_child i b = if is_absent b.worker then some (record b { parent = ask i }) else none

-- The first half of `benchmark_prefork`: the 7 bytes of `RUN_APP`. Without an other end of the socket,
-- `write` raises SIGPIPE.
unfoldable pub send_request : ℕ → Bench → Bench
send_request i b =
    if is_absent b.worker
    then record b { parent = broken }
    else record b { parent = await i; to_worker = b.to_worker + 7 }

-- The second half: `read` of at most 64 bytes, which waits while nothing has come and there is a worker;
-- its result is not read. Then the loop of `main` counts the trial.
unfoldable pub receive_response : ℕ → Bench → Option Bench
receive_response i b =
    if b.to_parent == 0 && not (is_absent b.worker)
    then none
    else some (record b {
      parent = next_trial i;
      trials = b.trials + 1;
      to_parent = b.to_parent - min 64 b.to_parent;
    })

-- A step of `main`, where `forks i` is whether the `fork` of a trial succeeds; none if it waits or has
-- ended.
unfoldable pub parent_step : (ℕ → Bool) → Parent → Bench → Option Bench
parent_step forks (cold i) b = some (benchmark_traditional (forks i) i b)
parent_step forks (wait_any i) b = wait_child i b
parent_step forks (ask i) b = some (send_request i b)
parent_step forks (await i) b = receive_response i b
parent_step forks stop b = some (record b { parent = done; worker = killed })
parent_step forks done b = none
parent_step forks broken b = none

-- A step of `mock_prefork_worker`: it loads the library, then reads and replies.
unfoldable pub worker_step : Worker → Bench → Option Bench
worker_step loading b = some (record b { worker = ready })
worker_step ready b =
    if b.to_worker == 0
    then none
    else some (record b { worker = reply; to_worker = b.to_worker - min 64 b.to_worker })
worker_step reply b = some (record b { worker = ready; to_parent = b.to_parent + 2 })
worker_step absent b = none
worker_step killed b = none

pub data Actor : Type 0 where
  main_process mock_prefork_worker : Actor

unfoldable pub act : (ℕ → Bool) → Actor → Bench → Option Bench
act forks main_process b = parent_step forks b.parent b
act forks mock_prefork_worker b = worker_step b.worker b

-- `main` up to the loop, where there is a socket pair and `fork` succeeds or fails.
unfoldable pub start : Bool → Bench
start forked = record {
  parent = cold 1;
  worker = if forked then loading else absent;
  to_worker = 0;
  to_parent = 0;
  trials = 0;
}

-- What `n` steps reach, of either process in any order.
pub data Runs (forks : ℕ → Bool) (b : Bench) : ℕ → Bench → Type 0 where
  here : Runs forks b 0 b
  next :
      {n : ℕ} {c d : Bench} (a : Actor)
      → Runs forks b n c
      → act forks a c ≡ some d
      → Runs forks b (suc n) d
