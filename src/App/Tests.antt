-- ===== src/App/Tests.antt =====
-- The theorems of `App` at a concrete main loop: whether it runs.
use tizen_os.Base.{List, ◌++◌, if◌then◌else◌, ◌≡◌, refl, Bool, true, false, none, some, [], ◌∷◌}
use tizen_os.App.{work_of, callback, app_main_lem, Act, until_exit, some_exits}
use tizen_os.Base.{refl, Bool, true, false, some, none, [], ◌∷◌, ◌≡◌}
use tizen_os.App.{
  GMainLoop, AppCallbacks, exits, works, app_main, worked, events_registered, invoke, app_exit,
  g_main_loop_run,
}

abbrev loop : GMainLoop Bool
loop = record {
  new = false;
  start = λ l. true;
  quit = λ l. false;
  is_running = λ l. l;
  start-is_running = λ l. refl;
  quit-is_running = λ l. refl;
}

abbrev callbacks : AppCallbacks
callbacks = record {
  create = some (works 1 ∷ exits ∷ []);
  terminate = some (works 9 ∷ []);
  pause = none;
  resume = none;
  control = none;
}

-- The exit in `create` is lost, and the one in the second event ends the loop.
exits_later :
    app_main loop
      (some callbacks)
      ((works 2 ∷ []) ∷ (works 3 ∷ exits ∷ []) ∷ (works 4 ∷ []) ∷ [])
      (record { main_loop = none; seen = [] })
    ≡ (
      record {
        main_loop = some false;
        seen = worked 1 ∷ events_registered ∷ worked 2 ∷ worked 3 ∷ worked 9 ∷ [];
      },
      some 0,
    )
unfolding app_main invoke app_exit g_main_loop_run
exits_later = refl

abbrev events : List (List Act)
events = (works 2 ∷ []) ∷ (works 3 ∷ exits ∷ []) ∷ (works 4 ∷ []) ∷ []

app_main_lem_example :
    let (app', result) =
      app_main loop (some callbacks) events (record { main_loop = none; seen = [] }) in
    (app'.seen
      ≡ []
        ++ (work_of (callback loop (λ c. c.create) (some callbacks))
            ++ (events_registered
                ∷ (until_exit events
                    ++ (if some_exits events
                        then work_of (callback loop (λ c. c.terminate) (some callbacks))
                        else [])))))
    × (result ≡ (if some_exits events then some 0 else none))
app_main_lem_example =
    app_main_lem loop (some callbacks) events (record { main_loop = none; seen = [] })
