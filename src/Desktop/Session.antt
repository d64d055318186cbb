-- ===== src/Desktop/Session.antt =====
-- shell/session-x11/src/session-x11.c and wm-x11.c: the session and its window manager, as the log of the
-- requests that they send to the X server. The events that the server has sent so far are a
-- parameter: `XNextEvent` waits for the next one and does not fail (where the connection breaks, Xlib
-- ends the process), so the loop is never left and what stands behind it is not reached.
use tizen_os.Libc.{Bytes, codes}
use tizen_os.Base.{ℕ, Bool, Option, none, some, List, [], ◌∷◌, ◌++◌, ◌==◌, if◌then◌else◌}

-- A `MapRequest` of a window, or an event of another type.
pub data XEvent : Type 0 where
  map_request : ℕ → XEvent
  other_event : ℕ → XEvent

pub data Request : Type 0 where
  select_input sync change_supported : Request
  spawned : Bytes → Request
  intern_atom : Bytes → Request
  map_window set_input_focus raise_window change_active : ℕ → Request

-- `wm_init`: its result, 0, and its requests.
unfoldable pub wm_init : ℕ × List Request
wm_init = (
  0,
  select_input
      ∷ sync
      ∷ intern_atom (codes "_NET_SUPPORTED")
      ∷ intern_atom (codes "_NET_WM_NAME")
      ∷ intern_atom (codes "_NET_ACTIVE_WINDOW")
      ∷ change_supported
      ∷ [],
)

unfoldable pub handle_map_request : ℕ → List Request
handle_map_request window =
    map_window window
    ∷ set_input_focus window
    ∷ raise_window window
    ∷ intern_atom (codes "_NET_ACTIVE_WINDOW")
    ∷ change_active window
    ∷ []

-- `wm_run`; nothing in the loop clears `running`.
unfoldable pub wm_run : List XEvent → List Request
wm_run [] = []
wm_run (map_request window ∷ es) = handle_map_request window ++ wm_run es
wm_run (other_event type ∷ es) = wm_run es

-- `spawn`, in the process that goes on.
abbrev spawn : Bytes → List Request
spawn cmd = spawned cmd ∷ []

-- `main`, where the display opens or does not: its status if it ends, and the requests so far.
unfoldable pub main : Bool → List XEvent → Option ℕ × List Request
main opens es =
    if opens
    then (
      none,
      spawn (codes "xsetroot -solid '#222222'")
          ++ (spawn (codes "tizenos-panel &")
              ++ (if wm_init.0 == 0 then wm_init.1 ++ wm_run es else wm_init.1)),
    )
    else (some 1, [])

-- The windows of the last requests for the focus, to raise a window, and to set `_NET_ACTIVE_WINDOW`.
unfoldable pub focus : Option ℕ → List Request → Option ℕ
focus w [] = w
focus w (set_input_focus window ∷ rs) = focus (some window) rs
focus w (_ ∷ rs) = focus w rs

unfoldable pub top : Option ℕ → List Request → Option ℕ
top w [] = w
top w (raise_window window ∷ rs) = top (some window) rs
top w (_ ∷ rs) = top w rs

unfoldable pub active : Option ℕ → List Request → Option ℕ
active w [] = w
active w (change_active window ∷ rs) = active (some window) rs
active w (_ ∷ rs) = active w rs

-- The windows that are mapped, in their order.
unfoldable pub mapped : List Request → List ℕ
mapped [] = []
mapped (map_window window ∷ rs) = window ∷ mapped rs
mapped (_ ∷ rs) = mapped rs

unfoldable pub requested : List XEvent → List ℕ
requested [] = []
requested (map_request window ∷ es) = window ∷ requested es
requested (_ ∷ es) = requested es

unfoldable pub last_of : Option ℕ → List ℕ → Option ℕ
last_of w [] = w
last_of w (x ∷ xs) = last_of (some x) xs
