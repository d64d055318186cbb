-- ===== src/Launchpad/Tests.antt =====
-- The theorems on the pool at concrete inputs.
use tizen_os.Launchpad.Accounting.{lost_by, descriptors-run}
use tizen_os.Base.{
  ℕ, ◌+◌, ◌*◌, ◌≡◌, refl, true, false, [], ◌∷◌, arith, length, ◌≤◌, Option, none, some, List, ◌++◌,
}
use tizen_os.Launchpad.Abstract.{launchpad, view, spec_run, run_refines}
use tizen_os.Launchpad.Service.{Message, accepted, refilled, call}
use tizen_os.Launchpad.Whole.{main, main_lem, launch-opens}
use tizen_os.Libc.{Bytes, codes, c_str}
use tizen_os.Launchpad.{
  init_from, PreForkWorker, Spawned, no_pair, child, Daemon, launchpad_init_pool, start,
  launchpad_launch_app, launchpad_spawn_worker, find_available, hand_over, no_fork,
}
use tizen_os.Launchpad.Descriptors.{IsValid}
use tizen_os.Launchpad.Pool.{run, init-run-IsValid, AllFreshAt, IsFreshFor}
use tizen_os.Launchpad.Delivery.{idle_count}
use tizen_os.Launchpad.Worker.{child_process, opened, called}

abbrev app : Bytes
app = codes "/opt/apps/clock.so"

-- Descriptors 3 to 8 and the ids 101 to 103.
abbrev answers : ℕ → Spawned
answers i = child (3 + 2 * i) (4 + 2 * i) (101 + i)

abbrev ready : PreForkWorker
ready = record { pid = 101; socket_fd = 3; is_busy = false }

abbrev spent : PreForkWorker
spent = record { pid = 102; socket_fd = 5; is_busy = true }

abbrev one_left : Daemon
one_left = record { pool = spent ∷ ready ∷ spent ∷ []; open_fds = 0 ∷ 3 ∷ []; sent = [] }

abbrev used_up : Daemon
used_up = record { pool = spent ∷ spent ∷ spent ∷ []; open_fds = 0 ∷ []; sent = [] }

one_left-IsValid : IsValid one_left
one_left-IsValid a = (ground arith, ground arith)

init-run-IsValid_example :
    IsValid (run (launchpad_init_pool answers (start (0 ∷ []))) ((app, child 9 10 104) ∷ [])).0
unfolding launchpad_init_pool init_from launchpad_launch_app find_available launchpad_spawn_worker
    hand_over
init-run-IsValid_example =
    init-run-IsValid (0 ∷ []) answers ((app, child 9 10 104) ∷ []) (λ a. ground arith)
      (omega arith, (omega arith, (omega arith, tt))) ((omega arith), tt)

-- A served request: the first worker gets the path, its socket is closed and the slot is filled again.
served : (launchpad_launch_app app (child 7 8 104) one_left).0 ≡ record {
  pool = spent ∷ record { pid = 104; socket_fd = 7; is_busy = false } ∷ spent ∷ [];
  open_fds = 7 ∷ 0 ∷ [];
  sent = (3, app) ∷ [];
}
unfolding launchpad_launch_app find_available launchpad_spawn_worker hand_over
served = refl

failing : AllFreshAt ((app, no_fork 7 8) ∷ []) one_left
unfolding find_available hand_over
failing = (ground arith, tt)

-- A launch whose `fork` fails.
descriptors-run_example :
    length (run one_left ((app, no_fork 7 8) ∷ [])).0.open_fds + 1
    ≡ 2
      + idle_count (run one_left ((app, no_fork 7 8) ∷ [])).0.pool
      + lost_by ((app, no_fork 7 8) ∷ []) one_left
descriptors-run_example =
    descriptors-run ((app, no_fork 7 8) ∷ []) one_left failing one_left-IsValid

run_refines_example :
    (view (run one_left ((app, no_fork 7 8) ∷ [])).0, (run one_left ((app, no_fork 7 8) ∷ [])).1)
    ≡ spec_run (view one_left) ((app, no_fork 7 8) ∷ [])
run_refines_example = run_refines ((app, no_fork 7 8) ∷ []) one_left failing one_left-IsValid

was_served : (launchpad_launch_app app (child 7 8 104) one_left).1 ≡ true
unfolding launchpad_launch_app find_available launchpad_spawn_worker hand_over
was_served = refl

app_whole : c_str app ≡ app
unfolding c_str
app_whole = refl

launch-opens_example :
    (message : ℕ × Bytes) × ((launchpad_launch_app app (child 7 8 104) one_left).0.sent
      ≡ [] ++ message ∷ [])
    × (opened (λ _. true) (λ _. true) (child_process (λ _. true) (λ _. true) message.1) ≡ app ∷ [])
    × (called (λ _. true) (λ _. true) (child_process (λ _. true) (λ _. true) message.1) ≡ app ∷ [])
launch-opens_example =
    launch-opens (λ _. true) (λ _. true) app (child 7 8 104) one_left one_left-IsValid
      (λ e. ground arith) app_whole was_served

-- Two calls, of which one asks for no method that there is.
abbrev messages : List Message
messages =
    record {
      method = codes "LaunchApp";
      app_id = codes "clock";
      app_so_path = app;
      answer = no_pair;
    }
    ∷ record { method = codes "Stop"; app_id = []; app_so_path = app; answer = no_pair }
    ∷ []

fresh_for : (d : Daemon) (found : Option (ℕ × PreForkWorker)) → IsFreshFor app no_pair d found
fresh_for d none = tt
fresh_for d (some (i, w)) = tt

main_lem_example :
    let (d, replies) = main answers (0 ∷ []) messages in
    ((view d).delivered ≡ accepted messages replies)
    × (length (accepted messages replies) ≤ 3 + refilled messages replies)
unfolding launchpad_spawn_worker
main_lem_example =
    let filled = launchpad_init_pool answers (start (0 ∷ [])) in
    let after =
      (call launchpad
        (record {
          method = codes "LaunchApp";
          app_id = codes "clock";
          app_so_path = app;
          answer = no_pair;
        })
        filled).0 in
    main_lem answers (0 ∷ []) messages (λ a. ground arith)
      (omega arith, (omega arith, (omega arith, tt)))
      (
        (λ e. fresh_for filled (find_available 0 filled.pool)),
        ((λ e. fresh_for after (find_available 0 after.pool)), tt),
      )
