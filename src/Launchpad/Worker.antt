-- ===== src/Launchpad/Worker.antt =====
-- `preload_shared_libraries` and `worker_process_main` of
-- app-framework/launchpad/src/launchpad-loader.c: what a child does with the bytes that arrive on its
-- socket. Which files `dlopen` can load and which of them define `app_main` are parameters.
use tizen_os.Base.{
  ℕ, ◌-◌, ◌≤◌, ◌≡◌, refl, ◌≢◌, Bool, List, [], ◌∷◌, ◌++◌, arith, if◌then◌else◌, length, take,
  take_all, ap, length-take,
}
use tizen_os.Libc.Laws.{c_str-take}
use tizen_os.Libc.{Bytes, codes, c_str}

pub data Act : Type 0 where
  preload : Bytes → Act
  open_app : Bytes → Act
  call_main : Bytes → Act
  close_app : Act
  close_socket : Act

abbrev path_size : ℕ
path_size = 512

pub preload_shared_libraries : List Act
preload_shared_libraries =
    preload (codes "libglib-2.0.so.0")
    ∷ preload (codes "libgio-2.0.so.0")
    ∷ preload (codes "libgtk-4.so.1")
    ∷ preload (codes "libwayland-client.so.0")
    ∷ []

module _ (loads : Bytes → Bool) (has_main : Bytes → Bool) where
  -- The part under `if (bytes_read > 0)`, on the string that the buffer then holds.
  run_app : Bytes → List Act
  run_app app_so_path =
      if loads app_so_path
      then open_app app_so_path
        ∷ ((if has_main app_so_path then call_main app_so_path ∷ [] else []) ++ close_app ∷ [])
      else open_app app_so_path ∷ []

  -- `worker_process_main`: one `read` of at most `sizeof (app_so_path) - 1` bytes.
  pub worker_process_main : Bytes → List Act
  worker_process_main arrived = elim (take (path_size - 1) arrived) [
    | [] ↦ close_socket ∷ []
    | c ∷ cs ↦ run_app (c_str (c ∷ cs)) ++ close_socket ∷ []
  ]

  -- `launchpad_spawn_worker`, in the child.
  pub child_process : Bytes → List Act
  child_process arrived = preload_shared_libraries ++ worker_process_main arrived

  abbrev pub opened : List Act → List Bytes
  opened [] = []
  opened (open_app p ∷ acts) = p ∷ opened acts
  opened (a ∷ acts) = opened acts

  abbrev pub called : List Act → List Bytes
  called [] = []
  called (call_main p ∷ acts) = p ∷ called acts
  called (a ∷ acts) = called acts

  main_lem :
      (arrived buf : Bytes)
      → take 511 arrived ≡ buf
      → buf ≢ []
      → c_str buf ≡ buf
      → worker_process_main arrived ≡ run_app buf ++ close_socket ∷ []
  unfolding worker_process_main
  main_lem arrived [] e ne z = absurd (ne refl)
  main_lem arrived (c ∷ cs) e ne z = rw (e, worker_process_main) (rw z)

  pub child_process_at :
      (arrived buf : Bytes)
      → take 511 arrived ≡ buf
      → buf ≢ []
      → c_str buf ≡ buf
      → (opened (child_process arrived) ≡ buf ∷ [])
        × (called (child_process arrived)
            ≡ (if loads buf then (if has_main buf then buf ∷ [] else []) else []))
  unfolding child_process preload_shared_libraries run_app
  child_process_at arrived buf e ne z = ground (arith, main_lem arrived buf e ne z)

  -- A worker that receives a path of 1 to 511 bytes with no NUL in it opens just that file, and calls
  -- its `app_main` once if the file loads and has one, and calls nothing otherwise.
  pub child_process_lem :
      (path : Bytes)
      → path ≢ []
      → c_str path ≡ path
      → length path ≤ 511
      → (opened (child_process path) ≡ path ∷ [])
        × (called (child_process path)
            ≡ (if loads path then (if has_main path then path ∷ [] else []) else []))
  child_process_lem path ne z h = child_process_at path path (take_all 511 path h) ne z

  -- Of a longer path with no NUL in it the worker opens the first 511 bytes.
  pub child_process_cut :
      (path : Bytes)
      → c_str path ≡ path
      → 512 ≤ length path
      → opened (child_process path) ≡ take 511 path ∷ []
  child_process_cut path z h =
      let nonempty : take 511 path ≢ [] =
        λ e. absurd (omega (arith, ap length e, length-take 511 path)) in
      (child_process_at path (take 511 path) refl nonempty (c_str-take 511 path z)).0
