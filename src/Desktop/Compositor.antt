-- ===== src/Desktop/Compositor.antt =====
-- shell/compositor/src/compositor.c over wlroots: `main` makes its objects one from another. Whether each
-- is made is a parameter.
use tizen_os.Base.{ℕ, ◌≡◌, ◌↔◌, Bool, true, false, not, ◌&&◌, ◌||◌, List, [], ◌∷◌, arith}

pub data Object : Type 0 where
  display backend renderer allocator : Object

-- What wlroots gives, not NULL.
pub record Wlroots : Type 0 where
  pub makes : Object → Bool

-- A call that makes an object, and one that uses some.
pub data Call : Type 0 where
  makes_from : Object → List Object → Call
  init_display compositor_create data_device_manager_create : List Object → Call
  display_run display_destroy : Call
  setenv backend_start : Call

unfoldable pub main : List Call × ℕ
main = (
  makes_from display []
      ∷ makes_from backend (display ∷ [])
      ∷ makes_from renderer (backend ∷ [])
      ∷ init_display (renderer ∷ display ∷ [])
      ∷ makes_from allocator (backend ∷ renderer ∷ [])
      ∷ compositor_create (display ∷ renderer ∷ [])
      ∷ data_device_manager_create (display ∷ [])
      ∷ display_run
      ∷ display_destroy
      ∷ [],
  0,
)

-- The objects that a call is given.
unfoldable pub given : Call → List Object
given (makes_from o os) = os
given (init_display os) = os
given (compositor_create os) = os
given (data_device_manager_create os) = os
given display_run = display ∷ []
given display_destroy = display ∷ []
given _ = []

unfoldable pub all_made : Wlroots → List Object → Bool
all_made wlr [] = true
all_made wlr (o ∷ os) = wlr.makes o && all_made wlr os

-- Whether some call is given an object that was not made.
unfoldable pub uses_null : Wlroots → List Call → Bool
uses_null wlr [] = false
uses_null wlr (c ∷ cs) = not (all_made wlr (given c)) || uses_null wlr cs

-- Whether a call gets the compositor its screens, or tells wlroots what was found of the GPU.
unfoldable pub prepares : List Call → Bool
prepares [] = false
prepares (setenv ∷ cs) = true
prepares (backend_start ∷ cs) = true
prepares (_ ∷ cs) = prepares cs

-- The compositor goes on whatever wlroots answers, so a NULL is passed on exactly if the display, the
-- backend or the renderer is not made; and it comes to its loop without starting the backend or setting
-- the variables of the GPU backend.
pub compositor_lem :
    (wlr : Wlroots)
    → ((uses_null wlr main.0 ≡ false)
        ↔ ((wlr.makes display ≡ true) × (wlr.makes backend ≡ true) × (wlr.makes renderer ≡ true)))
      × (prepares main.0 ≡ false)
unfolding main given all_made uses_null prepares
compositor_lem wlr = ground arith
