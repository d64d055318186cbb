-- ===== src/Dbus/Mains.antt =====
-- `main` of app-framework/launchpad/src/launchpad-daemon.c, security/tizen-auth/src/auth-daemon.c and
-- security/cynara/cynara-daemon.c on the bus, the first behind the pool of `Whole`: the object is registered
-- once the bus is there, and the loop passes on the calls that come. The calls are a parameter, and what
-- GDBus does to hold back those of an object that is not registered is not modelled. Nothing quits the
-- loops, so `main` ends only where the policy daemon cannot set up its database.
use tizen_os.Base.{ℕ, not, Option, none, some, List, [], map, if◌then◌else◌, Bool}
use tizen_os.Libc.{Bytes}
use tizen_os.Dbus.{Effect}
use tizen_os.Dbus.Daemons.{
  Gio, launchpad_on_bus_acquired, auth_on_bus_acquired, cynara_on_bus_acquired,
}
use tizen_os.Launchpad.{Spawned, Daemon}
use tizen_os.Launchpad.Service.{Message}
use tizen_os.Launchpad.Whole
use tizen_os.Security.Auth
use tizen_os.Security.Auth.{Pam}
use tizen_os.Security.Cynara
use tizen_os.Security.Cynara.{Sqlite, init_database}

-- A call with its name and its strings.
pub record AuthCall : Type 0 where
  pub method_name : Bytes
  pub first : Bytes
  pub second : Bytes

pub record CynaraCall : Type 0 where
  pub method_name : Bytes
  pub client_label : Bytes
  pub user_id : Bytes
  pub privilege : Bytes

-- The pool is filled before the bus is there.
unfoldable pub launchpad_main :
    Gio → (ℕ → Spawned) → List ℕ → List Message → List Effect × (Daemon × List (Option Bool))
launchpad_main gio answers held requests =
    (launchpad_on_bus_acquired gio, Whole.main answers held requests)

-- What the registration does, and the replies.
unfoldable pub auth_main : Gio → Pam → List AuthCall → List Effect × List (Option Bool)
auth_main gio pam requests = (
  auth_on_bus_acquired gio,
  map (λ r. Auth.handle_method_call pam r.method_name r.first r.second) requests,
)

-- The same, and the status where `main` ends.
unfoldable pub cynara_main :
    Gio → Sqlite → List CynaraCall → List Effect × List (Option ℕ) × Option ℕ
cynara_main gio sql requests = if not (init_database sql).0 then ([], [], some 1) else (
  cynara_on_bus_acquired gio,
  map (λ r. Cynara.handle_method_call sql r.method_name r.client_label r.user_id r.privilege)
      requests,
  none,
)
