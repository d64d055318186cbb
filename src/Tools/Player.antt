-- ===== src/Tools/Player.antt =====
-- multimedia/player/src/player.c: the player's states and the URI that it owns. The player is none
-- for a NULL pointer; `malloc`, `strdup` and `free` act on a heap of numbered blocks, and the
-- first two are taken to succeed, as the code does not check them. `block` is the player's own.
pub mod Session
use tizen_os.Libc.Text.{utf8}
use tizen_os.Base.{
  ℕ, zero, suc, ◌+◌, ◌≤◌, ◌≡◌, refl, ◌∙◌, ◌≢◌, ◌⊎◌, inl, inr, Bool, true, false, ◌||◌, Option, none,
  some, List, [], ◌∷◌, arith, ◌==◌, if◌then◌else◌, Option-cases, length, ◌-◌, ◌*◌, ◌/◌, ◌%◌, ◌^◌,
  ◌<◌, min, sym, ap, ◌↔◌, not, ◌&&◌, ◌++◌, map, append_assoc, append-nil, ltb, leb, ==_iff,
  Bool-cases, take, drop, get_elem?, set, All, join, length-append, take-append-drop, length-take,
  length-drop, take_all,
}
use tizen_os.Libc.{Bytes}

pub data TizenPlayerState : Type 0 where
  player_state_idle player_state_ready player_state_playing player_state_paused
        player_state_stopped :
      TizenPlayerState

pub record TizenPlayer : Type 0 where
  pub block : ℕ
  pub state : TizenPlayerState
  pub uri : Option ℕ

-- The blocks that are allocated, with what they hold, and the number of the next one.
pub record Heap : Type 0 where
  pub live : List (ℕ × Bytes)
  pub next : ℕ

-- `malloc` of the player, and its first state.
unfoldable pub tizen_player_create : Heap → TizenPlayer × Heap
tizen_player_create heap = (
  record { block = heap.next; state = player_state_idle; uri = none },
  record { live = (heap.next, []) ∷ heap.live; next = heap.next + 1 },
)

abbrev pub remove : ℕ → List (ℕ × Bytes) → List (ℕ × Bytes)
remove p [] = []
remove p ((q, s) ∷ rest) = let kept = remove p rest in if p == q then rest else (q, s) ∷ kept

unfoldable pub free : Option ℕ → Heap → Heap
free none heap = heap
free (some p) heap = record heap { live = remove p heap.live }

unfoldable pub tizen_player_destroy : Option TizenPlayer → Heap → Heap
tizen_player_destroy none heap = heap
tizen_player_destroy (some player) heap = free (some player.block) (free player.uri heap)

unfoldable pub tizen_player_set_uri :
    Option TizenPlayer → Option Bytes → Heap → Option TizenPlayer × Heap
tizen_player_set_uri none uri heap = (none, heap)
tizen_player_set_uri (some player) none heap =
    (some (record player { state = player_state_ready; uri = none }), heap)
tizen_player_set_uri (some player) (some text) heap = (
  some (record player { state = player_state_ready; uri = some heap.next }),
  record { live = (heap.next, text) ∷ heap.live; next = heap.next + 1 },
)

abbrev pub played : TizenPlayerState → TizenPlayerState
played player_state_ready = player_state_playing
played player_state_paused = player_state_playing
played s = s

abbrev pub paused : TizenPlayerState → TizenPlayerState
paused player_state_playing = player_state_paused
paused s = s

unfoldable pub tizen_player_play : Option TizenPlayer → Option TizenPlayer
tizen_player_play none = none
tizen_player_play (some player) = some (record player { state = played player.state })

unfoldable pub tizen_player_pause : Option TizenPlayer → Option TizenPlayer
tizen_player_pause none = none
tizen_player_pause (some player) = some (record player { state = paused player.state })

unfoldable pub tizen_player_stop : Option TizenPlayer → Option TizenPlayer
tizen_player_stop none = none
tizen_player_stop (some player) = some (record player { state = player_state_stopped })

unfoldable pub tizen_player_get_state : Option TizenPlayer → TizenPlayerState
tizen_player_get_state none = player_state_idle
tizen_player_get_state (some player) = player.state

pub data Request : Type 0 where
  set_uri : Option Bytes → Request
  play pause stop : Request

unfoldable pub serve : Request → Option TizenPlayer × Heap → Option TizenPlayer × Heap
serve (set_uri uri) (player, heap) = tizen_player_set_uri player uri heap
serve play (player, heap) = (tizen_player_play player, heap)
serve pause (player, heap) = (tizen_player_pause player, heap)
serve stop (player, heap) = (tizen_player_stop player, heap)

unfoldable pub run : List Request → Option TizenPlayer × Heap → Option TizenPlayer × Heap
run [] s = s
run (r ∷ rs) s = run rs (serve r s)

-- A player, created over a heap, then served with requests.
unfoldable pub session : List Request → Heap → Option TizenPlayer × Heap
session rs heap = let (player, made) = tizen_player_create heap in run rs (some player, made)

-- player-audio.c and player-display.c there: what they print.
unfoldable pub player_audio_init : Bytes
player_audio_init = utf8 "PipeWire audio sink cho Âm thanh đã được khởi tạo.\n"

unfoldable pub player_display_init : Bytes
player_display_init = utf8 "Wayland subsurface sink cho Video đã được khởi tạo.\n"
