-- ===== src/Desktop/Tests.antt =====
-- The theorems of `Desktop` at concrete events.
use tizen_os.Base.{◌≡◌, refl, none, some, List, [], ◌∷◌}
use tizen_os.Desktop.Session.{XEvent, map_request, other_event, requested, last_of}

-- Two windows come, and something ends.
abbrev events : List XEvent
events = map_request 7 ∷ other_event 17 ∷ map_request 9 ∷ []

last_wins : last_of none (requested events) ≡ some 9
unfolding last_of requested
last_wins = refl
