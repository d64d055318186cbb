-- ===== src/App.antt =====
-- The application framework: app-framework/app-core/src/app-main.c and include/tizen/app.h. GLib's main
-- loop is an interface, whose laws are what GLib documents of it. A callback is the list of what it
-- does: calls of `app_exit`, and work of its own, by a number.
pub mod Messages
pub mod Tests
use tizen_os.Base.{
  ℕ, zero, suc, ◌+◌, ◌-◌, ◌*◌, ◌/◌, ◌%◌, ◌^◌, ◌≤◌, ◌<◌, min, ◌≡◌, refl, sym, ap, ◌∙◌, ◌≢◌, ◌↔◌, ◌⊎◌,
  inl, inr, Bool, true, false, not, ◌&&◌, ◌||◌, Option, none, some, List, [], ◌∷◌, ◌++◌, map,
  append_assoc, append-nil, arith, ltb, leb, ◌==◌, if◌then◌else◌, ==_iff, Bool-cases, Option-cases,
  length, take, drop, get_elem?, set, All, join, length-append, take-append-drop, length-take,
  length-drop, take_all,
}

-- What the framework uses of a `GMainLoop`; `start` is the beginning of `g_main_loop_run`.
pub record GMainLoop (Loop : Type 0) : Type 0 where
  pub new : Loop
  pub start : Loop → Loop
  pub quit : Loop → Loop
  pub is_running : Loop → Bool
  pub start-is_running : (l : Loop) → is_running (start l) ≡ true
  pub quit-is_running : (l : Loop) → is_running (quit l) ≡ false

pub data Act : Type 0 where
  exits : Act
  works : ℕ → Act

-- `app_callbacks_t`; a pointer that may be NULL is an option.
pub record AppCallbacks : Type 0 where
  pub create : Option (List Act)
  pub terminate : Option (List Act)
  pub pause : Option (List Act)
  pub resume : Option (List Act)
  pub control : Option (List Act)

-- What can be seen of an application.
pub data Entry : Type 0 where
  worked : ℕ → Entry
  events_registered : Entry

-- The work of a callback, without its calls of `app_exit`, and whether it has one.
unfoldable pub work : List Act → List Entry
work [] = []
work (exits ∷ acts) = work acts
work (works n ∷ acts) = worked n ∷ work acts

unfoldable pub exits_in : List Act → Bool
exits_in [] = false
exits_in (exits ∷ acts) = true
exits_in (works n ∷ acts) = exits_in acts

-- The work of a callback that may be missing.
abbrev pub work_of : Option (List Act) → List Entry
work_of none = []
work_of (some acts) = work acts

-- The work of the events up to the first that exits, and whether there is one.
unfoldable pub until_exit : List (List Act) → List Entry
until_exit [] = []
until_exit (e ∷ es) = let rest = until_exit es in work e ++ (if exits_in e then [] else rest)

unfoldable pub some_exits : List (List Act) → Bool
some_exits [] = false
some_exits (e ∷ es) = exits_in e || some_exits es

module _ {Loop : Type 0} (glib : GMainLoop Loop) where
  -- The static `main_loop`, and what was seen so far.
  pub record Framework : Type 0 where
    pub main_loop : Option Loop
    pub seen : List Entry

  pub app_exit : Framework → Framework
  app_exit app = elim app.main_loop [
    | none ↦ app
    | some l ↦ record app { main_loop = some (glib.quit l) }
  ]

  pub invoke : List Act → Framework → Framework
  invoke [] app = app
  invoke (exits ∷ acts) app = invoke acts (app_exit app)
  invoke (works n ∷ acts) app = invoke acts (record app { seen = app.seen ++ worked n ∷ [] })

  -- `if (callbacks && callbacks->f) callbacks->f (user_data)`
  abbrev pub invoke_if : Option (List Act) → Framework → Framework
  invoke_if none app = app
  invoke_if (some acts) app = invoke acts app

  abbrev is_live : Framework → Bool
  is_live app = elim app.main_loop [ none ↦ false | some l ↦ glib.is_running l ]

  -- `g_main_loop_run` on the events that come: whether it returns.
  pub g_main_loop_run : List (List Act) → Framework → Framework × Bool
  g_main_loop_run [] app = (app, false)
  g_main_loop_run (e ∷ es) app =
      let app' = invoke e app in if is_live app' then g_main_loop_run es app' else (app', true)

  abbrev pub callback : (AppCallbacks → Option (List Act)) → Option AppCallbacks → Option (List Act)
  callback field none = none
  callback field (some callbacks) = field callbacks

  -- The result, where it returns.
  pub app_main : Option AppCallbacks → List (List Act) → Framework → Framework × Option ℕ
  app_main callbacks events app =
      let created = invoke_if (callback (λ c. c.create) callbacks) app in
      let registered = record created { seen = created.seen ++ events_registered ∷ [] } in
      let started = record registered { main_loop = some (glib.start glib.new) } in
      let (left, returns) = g_main_loop_run events started in
      if returns
      then (invoke_if (callback (λ c. c.terminate) callbacks) left, some 0)
      else (left, none)

  seen-app_exit : (app : Framework) → (app_exit app).seen ≡ app.seen
  unfolding app_exit
  seen-app_exit app = ground arith

  seen-invoke : (acts : List Act) (app : Framework) → (invoke acts app).seen ≡ app.seen ++ work acts
  unfolding invoke work
  seen-invoke [] app = sym (append-nil app.seen)
  seen-invoke (exits ∷ acts) app = rw (seen-invoke acts (app_exit app), seen-app_exit app) refl
  seen-invoke (works n ∷ acts) app =
      rw (seen-invoke acts (record app { seen = app.seen ++ worked n ∷ [] }))
        (append_assoc app.seen (worked n ∷ []) (work acts))

  seen-invoke_if :
      (c : Option (List Act)) (app : Framework) → (invoke_if c app).seen ≡ app.seen ++ work_of c
  seen-invoke_if none app = sym (append-nil app.seen)
  seen-invoke_if (some acts) app = seen-invoke acts app

  live-quit :
      (m : Option Loop) (seen : List Entry)
      → is_live (app_exit (record { main_loop = m; seen = seen })) ≡ false
  unfolding app_exit
  live-quit none seen = refl
  live-quit (some l) seen = glib.quit-is_running l

  live-app_exit : (app : Framework) → is_live (app_exit app) ≡ false
  live-app_exit app = live-quit app.main_loop app.seen

  live-invoke :
      (acts : List Act) (app : Framework)
      → is_live (invoke acts app) ≡ (is_live app && not (exits_in acts))
  unfolding invoke exits_in
  live-invoke [] app = ground arith
  live-invoke (exits ∷ acts) app =
      ground (arith, live-invoke acts (app_exit app), live-app_exit app)
  live-invoke (works n ∷ acts) app =
      live-invoke acts (record app { seen = app.seen ++ worked n ∷ [] })

  -- The loop, from a state in which it runs.
  run_lem :
      (events : List (List Act)) (app : Framework)
      → is_live app ≡ true
      → let (app', returns) = g_main_loop_run events app in
        (app'.seen ≡ app.seen ++ until_exit events) × (returns ≡ some_exits events)
  unfolding g_main_loop_run until_exit some_exits
  run_lem [] app h = (sym (append-nil app.seen), refl)
  run_lem (e ∷ es) app h =
      let later = run_lem es (invoke e app) in
      let live = live-invoke e app in
      let here = seen-invoke e app in
      let whole = append-nil (work e) in
      let joined = append_assoc app.seen (work e) (until_exit es) in
      elim (Bool-cases (exits_in e)) [
        | inl t ↦ ground arith
        | inr f ↦ let rest = later (ground arith) in ground arith
      ]

  -- The end of `app_main`, from what the loop leaves.
  ending :
      (terminate : Option (List Act)) (app : Framework) (returns b : Bool)
      (before events : List Entry)
      → app.seen ≡ before ++ events
      → returns ≡ b
      → let (app', result) : Framework × Option ℕ =
          if returns then (invoke_if terminate app, some 0) else (app, none) in
        (app'.seen ≡ before ++ (events ++ (if b then work_of terminate else [])))
        × (result ≡ (if b then some 0 else none))
  ending t app true b before events e h =
      ground (arith, seen-invoke_if t app, append_assoc before events (work_of t))
  ending t app false b before events e h = ground (arith, append-nil events)

  -- Whatever happened before, `app_main` calls `create` first, then registers for the system's events,
  -- then handles what comes up to the first event whose handler calls `app_exit`, and then calls
  -- `terminate` and returns 0; if none of the events does, it handles them all and has not returned. A
  -- call of `app_exit` in `create` changes nothing, and the other three callbacks are not called.
  pub app_main_lem :
      (callbacks : Option AppCallbacks) (events : List (List Act)) (app : Framework)
      → let (app', result) = app_main callbacks events app in
        (app'.seen
          ≡ app.seen
            ++ (work_of (callback (λ c. c.create) callbacks)
                ++ (events_registered
                    ∷ (until_exit events
                        ++ (if some_exits events
                            then work_of (callback (λ c. c.terminate) callbacks)
                            else [])))))
        × (result ≡ (if some_exits events then some 0 else none))
  unfolding app_main
  app_main_lem callbacks events app =
      let create = callback (λ c. c.create) callbacks in
      let terminate = callback (λ c. c.terminate) callbacks in
      let created = invoke_if create app in
      let started : Framework = record {
        main_loop = some (glib.start glib.new);
        seen = created.seen ++ events_registered ∷ [];
      } in
      let run = run_lem events started (glib.start-is_running glib.new) in
      let left = g_main_loop_run events started in
      let end =
        ending terminate left.0 left.1 (some_exits events) started.seen (until_exit events) run.0
          run.1 in
      (end.0 ∙ rw (seen-invoke_if create app) (simp append_assoc refl), end.1)
