-- ===== src/Tools/Tests.antt =====
-- The theorems of `Tools` at concrete arguments.
use tizen_os.Base.{
  ◌+◌, ◌≤◌, ◌≡◌, refl, some, List, [], ◌∷◌, ◌++◌, length, true, false, arith, All, ◌≢◌, ◌⊎◌, none,
  ◌==◌, if◌then◌else◌, ℕ, Bool,
}
use tizen_os.Tools.Player.{
  Heap, Request, set_uri, play, pause, session, tizen_player_destroy, tizen_player_get_state,
  player_state_paused, player_state_playing, run, serve, tizen_player_create, tizen_player_set_uri,
  tizen_player_play, tizen_player_pause,
}
use tizen_os.Tools.Player.Session.{uris, loads, owned, session_lem}
use tizen_os.Tools.Benchmark.{
  benchmark_traditional, send_request, Bench, Actor, Runs, start, act, parent_step, worker_step,
  is_absent, next, here, main_process, mock_prefork_worker, await, ready, wait_any,
}
use tizen_os.Tools.Benchmark.Progress.{Done, benchmark-ends}
use tizen_os.Installer.Shell.{Host, Trace}
use tizen_os.Tools.Archive.{Entry, extract_archive, finished, paths, placed, extract_lem}
use tizen_os.Libc.{starts_with, codes}

abbrev two_songs : List Request
two_songs =
    set_uri (some (codes "a.ogg")) ∷ play ∷ set_uri (some (codes "b.ogg")) ∷ play ∷ pause ∷ []

abbrev heap : Heap
heap = record { live = []; next = 0 }

session_lem_example :
    let (player, after) = session two_songs heap in
    (length (tizen_player_destroy player after).live + owned player ≡ 0 + uris two_songs)
    × ((1 ≤ loads two_songs)
        ⊎ ((tizen_player_get_state player ≢ player_state_playing)
            × (tizen_player_get_state player ≢ player_state_paused)))
session_lem_example = session_lem two_songs heap

is_paused : tizen_player_get_state (session two_songs heap).0 ≡ player_state_paused
unfolding session run serve tizen_player_get_state tizen_player_create tizen_player_set_uri
    tizen_player_play tizen_player_pause
is_paused = refl

abbrev two_entries : List Entry
two_entries =
    record {
      read_ok = true;
      pathname = codes "a.txt";
      header_ok = true;
      size = 2;
      blocks = record { bytes = codes "hi"; offset = 0; is_written = false } ∷ [];
    }
    ∷ record { read_ok = true; pathname = codes "../b"; header_ok = false; size = 0; blocks = [] }
    ∷ []

-- The third header comes with a warning, and a fourth is never read.
abbrev warned : List Entry
warned =
    record { read_ok = false; pathname = codes "c"; header_ok = true; size = 0; blocks = [] }
    ∷ record { read_ok = true; pathname = codes "d"; header_ok = true; size = 0; blocks = [] }
    ∷ []

extract_lem_example :
    let (ok, steps) = extract_archive (some (two_entries ++ warned)) (codes "/mnt") in
    (ok ≡ true)
    × (finished steps ≡ length two_entries)
    × (paths steps ≡ placed (codes "/mnt") two_entries)
    × All (λ p. starts_with (codes "/mnt" ++ b'/' ∷ []) p ≡ true) (paths steps)
extract_lem_example =
    extract_lem two_entries warned (codes "/mnt") (omega arith) (refl, (refl, tt)) refl

-- A machine with no `udisksctl`.
abbrev plain : Host
plain = record {
  answer = λ n cmd. if n == 0 then some 32512 else some 0;
  can_write = λ path. true;
  has_path = λ path. true;
  first_line = λ cmd. none;
}

abbrev nothing_run : Trace
nothing_run = record { commands = []; files = []; dirs = [] }

-- The first three steps: a request is written while the worker still loads its library.
abbrev requested : Bench
requested = record { parent = await 1; worker = ready; to_worker = 7; to_parent = 0; trials = 0 }

-- Every `fork` succeeds.
abbrev all_forks : ℕ → Bool
all_forks i = true

first_steps : Runs all_forks (start true) 3 requested
unfolding start act parent_step benchmark_traditional send_request worker_step is_absent
first_steps = next mock_prefork_worker (next main_process (next main_process here refl) refl) refl

benchmark-ends_example :
    let steps : ℕ = 3 in
    (steps ≤ 52)
    × (requested.to_worker ≤ 7)
    × (requested.to_parent ≤ 2)
    × (((a : Actor) × (c : Bench) × (act all_forks a requested ≡ some c))
        ⊎ ((steps ≡ 52) × Done requested))
benchmark-ends_example = benchmark-ends all_forks (λ i. refl) first_steps

-- No process can be forked for the first trial, and the worker loads its library.
abbrev no_forks : ℕ → Bool
no_forks i = false

abbrev loaded : Bench
loaded = record { parent = wait_any 1; worker = ready; to_worker = 0; to_parent = 0; trials = 0 }
