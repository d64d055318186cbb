-- ===== src/Dbus/Library.antt =====
-- core/libtizen-dbus/src: the connections to the two buses (dbus-conn.c), the registration of an object
-- (dbus-method.c) and the emission of a signal (dbus-signal.c). A pointer that may be NULL is an option;
-- of the pointers whose target is not read it is kept whether they are NULL.
use tizen_os.Base.{
  ◌≡◌, ◌↔◌, Bool, true, false, not, ◌||◌, Option, none, some, List, [], ◌∷◌, ◌++◌, arith,
  if◌then◌else◌, ◌&&◌,
}
use tizen_os.Base.Int.{ℤ, pos, negsuc}
use tizen_os.Dbus.{
  Reply, AsDocumented, Effect, error_made, said_ok, asked, made_by, report, count, IsClean, Bytes,
}

-- `TIZEN_ERROR_NONE`, `TIZEN_ERROR_INVALID_PARAMETER` and `TIZEN_ERROR_IO_ERROR`
abbrev pub error_none : ℤ
error_none = pos 0

abbrev pub error_invalid_parameter : ℤ
error_invalid_parameter = negsuc 0

abbrev pub error_io_error : ℤ
error_io_error = negsuc 2

pub record Bus : Type 0 where
  pub system : Reply
  pub session : Reply
  pub register : Bytes → Reply
  pub emit : Bytes → Bytes → Bytes → Reply

pub record Connected : Type 0 where
  pub conn : Bool
  pub stored : Option ℤ
  pub effects : List Effect

-- What the caller's `error` gets, if it gave one.
abbrev pub store : Bool → ℤ → Option ℤ
store true code = some code
store false code = none

pub tizen_dbus_get_system_connection : Bus → Bool → Connected
tizen_dbus_get_system_connection bus wants =
    if bus.system.error
    then record {
      conn = false;
      stored = store wants error_io_error;
      effects = error_made ∷ report true;
    }
    else record { conn = bus.system.value; stored = store wants error_none; effects = said_ok ∷ [] }

pub tizen_dbus_get_session_connection : Bus → Bool → Connected
tizen_dbus_get_session_connection bus wants =
    if bus.session.error
    then record {
      conn = false;
      stored = store wants error_io_error;
      effects = error_made ∷ report true;
    }
    else record {
      conn = bus.session.value;
      stored = store wants error_none;
      effects = said_ok ∷ [];
    }

-- `interface_info` and `vtable` are not NULL if the Booleans are true.
pub tizen_dbus_register_method : Bus → Bool → Option Bytes → Bool → Bool → ℤ × List Effect
tizen_dbus_register_method bus conn none interface_info vtable = (error_invalid_parameter, [])
tizen_dbus_register_method bus conn (some path) interface_info vtable =
    let r = bus.register path in
    if not conn || not interface_info || not vtable
    then (error_invalid_parameter, [])
    else if r.value
    then (error_none, asked path ∷ (made_by r ++ said_ok ∷ []))
    else (error_io_error, asked path ∷ (made_by r ++ report r.error))

pub tizen_dbus_emit_signal :
    Bus → Bool → Option Bytes → Option Bytes → Option Bytes → ℤ × List Effect
tizen_dbus_emit_signal bus true (some path) (some interface) (some signal) =
    let r = bus.emit path interface signal in
    if r.value
    then (error_none, asked path ∷ (made_by r ++ said_ok ∷ []))
    else (error_io_error, asked path ∷ (made_by r ++ report r.error))
tizen_dbus_emit_signal bus _ _ _ _ = (error_invalid_parameter, [])

-- Whether GDBus registers an object at the path, if there is one.
pub registers : Bus → Option Bytes → Bool
registers bus none = false
registers bus (some path) = (bus.register path).value

-- Whether GDBus emits the signal, if all its names are given.
pub emits : Bus → Option Bytes → Option Bytes → Option Bytes → Bool
emits bus (some path) (some interface) (some signal) = (bus.emit path interface signal).value
emits bus _ _ _ = false

-- A result that says what was done: the code for success exactly if it was, the code for invalid
-- parameters exactly if GDBus was not called; and all is freed.
pub IsReport : Bool → ℤ × List Effect → Type 0
IsReport succeeded (code, effects) =
    ((code ≡ error_none) ↔ (succeeded ≡ true))
    × ((code ≡ error_invalid_parameter) ↔ (effects ≡ []))
    × IsClean effects

register_method_lem :
    (bus : Bus) (conn : Bool) (path : Option Bytes) (interface_info vtable : Bool)
    → ((p : Bytes) → AsDocumented (bus.register p))
    → IsReport
        (conn && interface_info && vtable && registers bus path)
        (tizen_dbus_register_method bus conn path interface_info vtable)
unfolding tizen_dbus_register_method AsDocumented count IsClean registers IsReport
register_method_lem bus false none interface_info vtable h = ground arith
register_method_lem bus true none interface_info vtable h = ground arith
register_method_lem bus false (some path) interface_info vtable h = ground arith
register_method_lem bus true (some path) false vtable h = ground arith
register_method_lem bus true (some path) true false h = ground arith
register_method_lem bus true (some path) true true h = ground (arith, h path)

emit_signal_lem :
    (bus : Bus) (conn : Bool) (path interface signal : Option Bytes)
    → ((p i s : Bytes) → AsDocumented (bus.emit p i s))
    → IsReport
        (conn && emits bus path interface signal)
        (tizen_dbus_emit_signal bus conn path interface signal)
unfolding tizen_dbus_emit_signal AsDocumented count IsClean emits IsReport
emit_signal_lem bus false path interface signal h = ground arith
emit_signal_lem bus true none interface signal h = ground arith
emit_signal_lem bus true (some p) none signal h = ground arith
emit_signal_lem bus true (some p) (some i) none h = ground arith
emit_signal_lem bus true (some p) (some i) (some s) h = ground (arith, h p i s)

-- A connection comes with the code for success, and none with the code for an error, where the caller
-- asked for a code.
pub IsConnection : Bool → Connected → Type 0
IsConnection wants c =
    (c.stored ≡ store wants (if c.conn then error_none else error_io_error)) × IsClean c.effects

connection_lem :
    (bus : Bus) (wants : Bool)
    → AsDocumented bus.system
    → AsDocumented bus.session
    → IsConnection wants (tizen_dbus_get_system_connection bus wants)
      × IsConnection wants (tizen_dbus_get_session_connection bus wants)
unfolding tizen_dbus_get_system_connection tizen_dbus_get_session_connection AsDocumented count
    IsClean IsConnection
connection_lem bus wants h k = ground arith

-- Where GDBus answers as it documents, the library's results say what was done: a connection to either
-- bus comes with the code for success, if a code is asked for; an object is registered, and a signal is
-- emitted, exactly if the code is the one for success; GDBus is not called exactly if the code is the one
-- for invalid parameters; and an error that was set is freed once, and none is read that was not set.
pub library_lem :
    (bus : Bus) (wants conn : Bool) (path interface signal : Option Bytes)
    (interface_info vtable : Bool)
    → AsDocumented bus.system
    → AsDocumented bus.session
    → ((p : Bytes) → AsDocumented (bus.register p))
    → ((p i s : Bytes) → AsDocumented (bus.emit p i s))
    → IsConnection wants (tizen_dbus_get_system_connection bus wants)
      × IsConnection wants (tizen_dbus_get_session_connection bus wants)
      × IsReport
          (conn && interface_info && vtable && registers bus path)
          (tizen_dbus_register_method bus conn path interface_info vtable)
      × IsReport
          (conn && emits bus path interface signal)
          (tizen_dbus_emit_signal bus conn path interface signal)
library_lem bus wants conn path interface signal interface_info vtable h k r e = (
  (connection_lem bus wants h k).0,
  (connection_lem bus wants h k).1,
  register_method_lem bus conn path interface_info vtable r,
  emit_signal_lem bus conn path interface signal e,
)
