-- ===== src/Launchpad/Whole.antt =====
-- `main` of app-framework/launchpad/src/launchpad-daemon.c, and both ends of a launch together: the
-- daemon's, and the worker's at the other end of the socket.
use tizen_os.Base.{
  ℕ, zero, suc, ◌+◌, ◌≤◌, ◌≡◌, refl, ap, ◌∙◌, ◌≢◌, inl, inr, Bool, true, Option, List, [], ◌∷◌,
  ◌++◌, arith, if◌then◌else◌, length, take, set,
}
use tizen_os.Libc.{Bytes, c_str}
use tizen_os.Libc.Laws.{c_str-take}
use tizen_os.Launchpad.{
  Spawned, no_pair, no_fork, child, Daemon, PreForkWorker, start, prefork_pool_size, count,
  launchpad_init_pool, init_from, launchpad_spawn_worker, launchpad_launch_app,
}
use tizen_os.Launchpad.Descriptors.{IsValid, AllFresh}
use tizen_os.Launchpad.Pool.{run, init-run-IsValid}
use tizen_os.Launchpad.Delivery.{idle_count, launch_lem}
use tizen_os.Launchpad.Worker.{child_process, opened, called, child_process_at}
use tizen_os.Launchpad.Abstract.{paths_of, view, launchpad}
use tizen_os.Launchpad.Service.{Message, serve, serve_lem, accepted, refilled}
use tizen_os.Launchpad.Service

-- `main`: the pool is filled, and then the calls are served.
unfoldable pub main : (ℕ → Spawned) → List ℕ → List Message → Daemon × List (Option Bool)
main answers held ms = serve ms (launchpad_init_pool answers (start held))

idle_count-le-length : (ws : List PreForkWorker) → idle_count ws ≤ length ws
idle_count-le-length [] = omega arith
idle_count-le-length (w ∷ ws) = ground (arith, idle_count-le-length ws)

length-set : (ws : List PreForkWorker) (i : ℕ) (w : PreForkWorker) → length (set ws i w) ≡ length ws
length-set [] i w = refl
length-set (x ∷ ws) zero w = refl
length-set (x ∷ ws) (suc i) w = ap suc (length-set ws i w)

spawn_lem :
    (i : ℕ) (answer : Spawned) (d : Daemon)
    → (length (launchpad_spawn_worker i answer d).pool ≡ length d.pool)
      × ((launchpad_spawn_worker i answer d).sent ≡ d.sent)
unfolding launchpad_spawn_worker
spawn_lem i no_pair d = (refl, refl)
spawn_lem i (no_fork near far) d = (refl, refl)
spawn_lem i (child near far pid) d = (length-set d.pool i _, refl)

init_lem :
    (n i : ℕ) (answers : ℕ → Spawned) (d : Daemon)
    → (length (init_from n i answers d).pool ≡ length d.pool)
      × ((init_from n i answers d).sent ≡ d.sent)
unfolding init_from
init_lem zero i answers d = (refl, refl)
init_lem (suc n) i answers d =
    let one = spawn_lem i (answers i) d in
    let rest = init_lem n (i + 1) answers (launchpad_spawn_worker i (answers i) d) in
    (rest.0 ∙ one.0, rest.1 ∙ one.1)

-- The daemon, from its start with distinct descriptors and while the kernel's answers are fresh: what
-- it hands to its workers is the paths of the calls that it answers with true, in their order, and
-- these are at most three more than the workers that it got back since.
pub main_lem :
    (answers : ℕ → Spawned) (held : List ℕ) (ms : List Message)
    → ((a : ℕ) → count a held ≤ 1)
    → AllFresh prefork_pool_size 0 answers (start held)
    → Service.AllFresh launchpad ms (launchpad_init_pool answers (start held))
    → let (d, replies) = main answers held ms in
      ((view d).delivered ≡ accepted ms replies)
      × (length (accepted ms replies) ≤ 3 + refilled ms replies)
unfolding main launchpad_init_pool run
main_lem answers held ms h f g =
    let valid = init-run-IsValid held answers [] h f tt in
    let made = init_lem prefork_pool_size 0 answers (start held) in
    let full = idle_count-le-length (launchpad_init_pool answers (start held)).pool in
    let served = serve_lem ms (launchpad_init_pool answers (start held)) g valid in
    (
      served.0 ∙ ap (λ x. paths_of x ++ accepted ms (main answers held ms).1) made.1,
      omega (arith, served.1, full, made.0),
    )

take-nonempty : (path : Bytes) → path ≢ [] → take 511 path ≢ []
take-nonempty [] ne e = ne refl
take-nonempty (c ∷ cs) ne e = ground arith

module _ (loads : Bytes → Bool) (has_main : Bytes → Bool) where
  -- A launch that returns true, of a path that is not empty and has no NUL, sends one message more, and
  -- the worker that reads it opens the first 511 bytes of the path and nothing else, and calls its
  -- `app_main` if it loads and has one.
  pub launch-opens :
      (path : Bytes) (answer : Spawned) (d : Daemon)
      → IsValid d
      → path ≢ []
      → c_str path ≡ path
      → (launchpad_launch_app path answer d).1 ≡ true
      → (message : ℕ × Bytes) × ((launchpad_launch_app path answer d).0.sent
          ≡ d.sent ++ message ∷ [])
        × (opened loads has_main (child_process loads has_main message.1) ≡ take 511 path ∷ [])
        × (called loads has_main (child_process loads has_main message.1) ≡ (
            if loads (take 511 path)
            then (if has_main (take 511 path) then take 511 path ∷ [] else [])
            else []))
  launch-opens path answer d v ne z done = elim (launch_lem path answer d v) [
    | inl (none_free, same) ↦ absurd (ground (arith, done, ap (λ x. x.1) same))
    | inr (sent_on, ok) ↦
        let worker =
          child_process_at loads has_main path (take 511 path) refl (take-nonempty path ne)
            (c_str-take 511 path z) in
        ((sent_on.worker.socket_fd, path), sent_on.message, worker.0, worker.1)
  ]
