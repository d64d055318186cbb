-- ===== src/Dbus.antt =====
-- The calls of GDBus that the daemons and core/libtizen-dbus make, as the log of what they acquire,
-- release and say. What GDBus answers is a parameter: whether a call gave a value, and whether it set
-- the error.
pub mod Daemons
pub mod Library
pub mod Interfaces
pub mod Mains
pub mod Tests
use tizen_os.Libc.{Bytes}
use tizen_os.Base.{
  ℕ, zero, suc, ◌+◌, ◌-◌, ◌*◌, ◌/◌, ◌%◌, ◌^◌, ◌≤◌, ◌<◌, min, ◌≡◌, refl, sym, ap, ◌∙◌, ◌≢◌, ◌↔◌, ◌⊎◌,
  inl, inr, Bool, true, false, not, ◌&&◌, ◌||◌, Option, none, some, List, [], ◌∷◌, ◌++◌, map,
  append_assoc, append-nil, arith, ltb, leb, ◌==◌, if◌then◌else◌, ==_iff, Bool-cases, Option-cases,
  length, take, drop, get_elem?, set, All, join, length-append, take-append-drop, length-take,
  length-drop, take_all,
}

pub record Reply : Type 0 where
  pub value : Bool
  pub error : Bool

-- GLib: a call gives a value or sets the error, and never both.
unfoldable pub AsDocumented : Reply → Type 0
AsDocumented r = r.value ≡ not r.error

pub data Effect : Type 0 where
  error_made error_freed node_made node_freed null_used said_ok said_failed : Effect
  asked : Bytes → Effect

abbrev pub made_by : Reply → List Effect
made_by r = if r.error then error_made ∷ [] else []

-- `error->message` is printed, and the error is freed.
abbrev pub report : Bool → List Effect
report true = said_failed ∷ error_freed ∷ []
report false = null_used ∷ []

unfoldable pub count : (Effect → Bool) → List Effect → ℕ
count p [] = 0
count p (e ∷ es) = if p e then suc (count p es) else count p es

abbrev pub is_error_made : Effect → Bool
is_error_made error_made = true
is_error_made _ = false

abbrev pub is_error_freed : Effect → Bool
is_error_freed error_freed = true
is_error_freed _ = false

abbrev pub is_node_made : Effect → Bool
is_node_made node_made = true
is_node_made _ = false

abbrev pub is_node_freed : Effect → Bool
is_node_freed node_freed = true
is_node_freed _ = false

abbrev pub is_null_used : Effect → Bool
is_null_used null_used = true
is_null_used _ = false

abbrev pub is_ok : Effect → Bool
is_ok said_ok = true
is_ok _ = false

abbrev pub is_failed : Effect → Bool
is_failed said_failed = true
is_failed _ = false

abbrev pub is_asked : Effect → Bool
is_asked (asked path) = true
is_asked _ = false

-- Each error and each node that was made is freed once, and nothing that is NULL is used.
pub IsClean : List Effect → Type 0
IsClean es =
    (count is_error_made es ≡ count is_error_freed es)
    × (count is_node_made es ≡ count is_node_freed es)
    × (count is_null_used es ≡ 0)
