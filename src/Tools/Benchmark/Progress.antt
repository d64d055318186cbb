-- ===== src/Tools/Benchmark/Progress.antt =====
-- The benchmark ends: every step brings it nearer to its end, and it never waits for ever.
use tizen_os.Base.{
  ℕ, suc, ◌+◌, ◌-◌, ◌*◌, ◌≤◌, ◌≡◌, refl, ◌⊎◌, inl, inr, Bool, true, false, Option, none, some,
  arith, if◌then◌else◌, ◌==◌, Option-cases,
}
use mathlib.Core.Path.{subst}
use tizen_os.Tools.Benchmark.{
  Parent, cold, wait_any, ask, await, stop, done, broken, Worker, absent, loading, ready, reply,
  killed, Bench, is_absent, next_trial, parent_step, worker_step, Actor, main_process,
  mock_prefork_worker, act, start, Runs, here, next, num_trials, benchmark_traditional,
  send_request, receive_response,
}

-- The worker before a request: it loads its library or is ready.
Waits : Worker → Type 0
Waits w = (w ≡ loading) ⊎ (w ≡ ready)

-- The one request, or its one answer, is with the worker or in the socket.
OnItsWay : Bench → Type 0
OnItsWay b =
    (Waits b.worker × (b.to_worker ≡ 7) × (b.to_parent ≡ 0))
    ⊎ ((b.worker ≡ reply) × (b.to_worker ≡ 0) × (b.to_parent ≡ 0))
    ⊎ ((b.worker ≡ ready) × (b.to_worker ≡ 0) × (b.to_parent ≡ 2))

Holds : Parent → Bench → Type 0
Holds (cold i) b =
    (i ≤ 10) × (b.trials + 1 ≡ i) × Waits b.worker × (b.to_worker ≡ 0) × (b.to_parent ≡ 0)
Holds (ask i) b =
    (i ≤ 10) × (b.trials + 1 ≡ i) × Waits b.worker × (b.to_worker ≡ 0) × (b.to_parent ≡ 0)
Holds (await i) b = (i ≤ 10) × (b.trials + 1 ≡ i) × OnItsWay b
Holds stop b = (b.trials ≡ 10) × (b.worker ≡ ready) × (b.to_worker ≡ 0) × (b.to_parent ≡ 0)
Holds done b = (b.trials ≡ 10) × (b.worker ≡ killed) × (b.to_worker ≡ 0) × (b.to_parent ≡ 0)
Holds (wait_any i) b = ⊥
Holds broken b = ⊥

-- The steps that the worker has left before its answer can be read.
to_answer : Worker → ℕ → ℕ
to_answer loading n = 3
to_answer ready n = if n == 0 then 0 else 2
to_answer reply n = 1
to_answer _ n = 0

to_load : Worker → ℕ
to_load loading = 1
to_load _ = 0

-- The steps that are left.
left : Parent → Bench → ℕ
left (cold i) b = 5 * (11 - i) + 1 + to_load b.worker
left (ask i) b = 5 * (11 - i) + to_load b.worker
left (await i) b = 5 * (10 - i) + 2 + to_answer b.worker b.to_worker
left stop b = 1
left done b = 0
left (wait_any i) b = 0
left broken b = 0

-- One step leads from a state in order to one in order, and one step nearer to the end.
abbrev Nearer : Bench → Option Bench → Type 0
Nearer b none = Unit
Nearer b (some d) = Holds d.parent d × (left b.parent b ≡ suc (left d.parent d))

module _ (forks : ℕ → Bool) (all_fork : (i : ℕ) → forks i ≡ true) where
  parent-Nearer :
      (p : Parent) (b : Bench) → b.parent ≡ p → Holds p b → Nearer b (parent_step forks p b)
  unfolding parent_step benchmark_traditional send_request receive_response is_absent next_trial
      Holds Waits OnItsWay left to_load to_answer
  parent-Nearer (cold i) b e h = ground (arith, e, h, all_fork i)
  parent-Nearer (wait_any i) b e h = absurd h
  parent-Nearer (ask i) b e h = ground (arith, e, h)
  parent-Nearer (await i) b e h = ground (arith, e, h)
  parent-Nearer stop b e h = ground (arith, e, h)
  parent-Nearer done b e h = tt
  parent-Nearer broken b e h = tt

worker-Nearer :
    (p : Parent) (w : Worker) (b : Bench)
    → b.parent ≡ p
    → b.worker ≡ w
    → Holds p b
    → Nearer b (worker_step w b)
unfolding worker_step Holds Waits OnItsWay left to_load to_answer
worker-Nearer p absent b e f h = tt
worker-Nearer p killed b e f h = tt
worker-Nearer p loading b e f h = ground (arith, e, f, h)
worker-Nearer p ready b e f h = ground (arith, e, f, h)
worker-Nearer p reply b e f h = ground (arith, e, f, h)

module _ (forks : ℕ → Bool) (all_fork : (i : ℕ) → forks i ≡ true) where
  act-Nearer : (a : Actor) (b : Bench) → Holds b.parent b → Nearer b (act forks a b)
  unfolding act
  act-Nearer main_process b h = parent-Nearer forks all_fork b.parent b refl h
  act-Nearer mock_prefork_worker b h = worker-Nearer b.parent b.worker b refl refl h

  -- The states that runs of a benchmark with a worker reach.
  Runs-Holds :
      {n : ℕ} {b : Bench}
      → Runs forks (start true) n b
      → Holds b.parent b × (n + left b.parent b ≡ 52)
  unfolding Holds Waits left to_load start
  Runs-Holds here = ground arith
  Runs-Holds (next {n} {c} {d} a r e) =
      let before = Runs-Holds r in
      let after = subst (Nearer c) e (act-Nearer a c before.0) in
      (after.0, omega (arith, before.1, after.1))

-- The end that is meant.
pub Done : Bench → Type 0
Done b =
    (b.parent ≡ done)
    × (b.worker ≡ killed)
    × (b.trials ≡ num_trials)
    × (b.to_worker ≡ 0)
    × (b.to_parent ≡ 0)

-- Where neither can go on, all is done.
stuck :
    (forks : ℕ → Bool) (p : Parent) (w : Worker) (b : Bench)
    → b.parent ≡ p
    → b.worker ≡ w
    → Holds p b
    → parent_step forks p b ≡ none
    → worker_step w b ≡ none
    → Done b
unfolding worker_step parent_step send_request receive_response Holds Waits OnItsWay Done is_absent
stuck forks broken w b e f h k l = absurd h
stuck forks (wait_any i) w b e f h k l = absurd h
stuck forks done w b e f h k l = ground (arith, e, h)
stuck forks (ask i) absent b e f h k l = ground (arith, f, h)
stuck forks (ask i) w b e f h k l = ground (arith, f, h, k)
stuck forks (await i) absent b e f h k l = ground (arith, f, h)
stuck forks (await i) killed b e f h k l = ground (arith, f, h)
stuck forks (await i) w b e f h k l = ground (arith, f, h, k, l)
stuck forks _ w b e f h k l = ground (arith, k)

goes_on :
    (forks : ℕ → Bool) (b : Bench)
    → Holds b.parent b
    → ((a : Actor) × (c : Bench) × (act forks a b ≡ some c)) ⊎ Done b
unfolding act
goes_on forks b h = elim (Option-cases (act forks main_process b)) [
  | inr (c, e) ↦ inl (main_process, c, e)
  | inl k ↦ elim (Option-cases (act forks mock_prefork_worker b)) [
    | inr (c, e) ↦ inl (mock_prefork_worker, c, e)
    | inl l ↦ inr (stuck forks b.parent b.worker b refl refl h k l)
  ]
]

socket_bounds : (p : Parent) (b : Bench) → Holds p b → (b.to_worker ≤ 7) × (b.to_parent ≤ 2)
unfolding Holds Waits OnItsWay
socket_bounds broken b h = absurd h
socket_bounds (wait_any i) b h = absurd h
socket_bounds _ b h = ground (arith, h)

ends : (b : Bench) (n : ℕ) → Done b → n + left b.parent b ≡ 52 → n ≡ 52
unfolding Done left
ends b n all e = ground (arith, all, e)

-- Where every `fork` succeeds, the benchmark ends, whichever process goes first at each moment: a run
-- has at most 52 steps, and in each state that it reaches one of the two processes has a step to take,
-- or it has taken all the 52, the ten trials are measured, nothing waits in the socket and the worker is
-- killed. There is never more than one request or one answer in the socket, less than the 64 bytes
-- that a `read` takes.
pub benchmark-ends :
    (forks : ℕ → Bool) {n : ℕ} {b : Bench}
    → ((i : ℕ) → forks i ≡ true)
    → Runs forks (start true) n b
    → (n ≤ 52)
      × (b.to_worker ≤ 7)
      × (b.to_parent ≤ 2)
      × (((a : Actor) × (c : Bench) × (act forks a b ≡ some c)) ⊎ ((n ≡ 52) × Done b))
benchmark-ends forks {n} {b} all_fork r =
    let v = Runs-Holds forks all_fork r in
    let bounds = socket_bounds b.parent b v.0 in
    let n_bound : n ≤ 52 = omega (arith, v.1) in
    elim (goes_on forks b v.0) [
      | inl more ↦ (n_bound, bounds.0, bounds.1, inl more)
      | inr all ↦ (n_bound, bounds.0, bounds.1, inr (ends b n all v.1, all))
    ]

-- The state of a `main` that waits for a worker that does not end.
Hangs : ℕ → ℕ → Bench → Type 0
Hangs i trials b = (b.parent ≡ wait_any i) × (is_absent b.worker ≡ false) × (b.trials ≡ trials)
