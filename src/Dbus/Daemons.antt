-- ===== src/Dbus/Daemons.antt =====
-- `on_bus_acquired` of app-framework/launchpad/src/launchpad-daemon.c, security/tizen-auth/src/auth-daemon.c
-- and security/cynara/cynara-daemon.c: the registration of the daemon's object.
use tizen_os.Libc.{codes}
use tizen_os.Base.{
  Bool, true, false, ◌||◌, List, [], ◌∷◌, ◌++◌, if◌then◌else◌, ◌+◌, ◌≡◌, ◌&&◌, arith,
}
use tizen_os.Dbus.{
  Reply, Effect, node_made, node_freed, said_ok, asked, made_by, report, Bytes, count, AsDocumented,
  is_ok, IsClean, is_failed, is_asked,
}

-- `g_dbus_node_info_new_for_xml`, then `g_dbus_connection_register_object`.
pub record Gio : Type 0 where
  pub node_info : Reply
  pub register : Bytes → Reply

-- The end of all three: what the error says.
abbrev outcome : Bool → List Effect
outcome true = report true
outcome false = said_ok ∷ []

register_node : Reply → Bytes → List Effect
register_node r path = node_made ∷ asked path ∷ (made_by r ++ node_freed ∷ [])

-- Without a node it goes on to the test of the error.
acquired : Gio → Bytes → List Effect
acquired gio path =
    if gio.node_info.value
    then made_by gio.node_info
      ++ (register_node (gio.register path) path
          ++ outcome (gio.node_info.error || (gio.register path).error))
    else made_by gio.node_info ++ outcome gio.node_info.error

pub launchpad_on_bus_acquired : Gio → List Effect
launchpad_on_bus_acquired gio = acquired gio (codes "/org/tizen/Launchpad")

pub auth_on_bus_acquired : Gio → List Effect
auth_on_bus_acquired gio = acquired gio (codes "/org/tizen/Auth")

-- Without a node it returns.
pub cynara_on_bus_acquired : Gio → List Effect
cynara_on_bus_acquired gio =
    let path = codes "/org/tizen/cynara" in
    if gio.node_info.value
    then made_by gio.node_info
      ++ (register_node (gio.register path) path
          ++ outcome (gio.node_info.error || (gio.register path).error))
    else made_by gio.node_info ++ report gio.node_info.error

-- What an observer sees of the registration at a path: the object is there exactly if the daemon says
-- so, and otherwise it says that it failed, once; all is freed and no NULL is used.
abbrev pub IsSettled : Gio → Bytes → List Effect → Type 0
IsSettled gio path es =
    (count is_ok es ≡ (if gio.node_info.value && (gio.register path).value then 1 else 0))
    × (count is_ok es + count is_failed es ≡ 1)
    × (count is_asked es ≡ (if gio.node_info.value then 1 else 0))
    × IsClean es

acquired-IsSettled :
    (gio : Gio) (path : Bytes)
    → AsDocumented gio.node_info
    → AsDocumented (gio.register path)
    → IsSettled gio path (acquired gio path)
unfolding acquired register_node AsDocumented count IsClean
acquired-IsSettled gio path h k = ground arith

-- Where GDBus answers as it documents, each of the three daemons settles its registration: it says once
-- that the object is registered if GDBus took it, and once that it failed otherwise; the node and the
-- error are freed as often as they were made, and no error is read that was not set.
pub daemons-IsSettled :
    (gio : Gio)
    → AsDocumented gio.node_info
    → ((path : Bytes) → AsDocumented (gio.register path))
    → IsSettled gio (codes "/org/tizen/Launchpad") (launchpad_on_bus_acquired gio)
      × IsSettled gio (codes "/org/tizen/Auth") (auth_on_bus_acquired gio)
      × IsSettled gio (codes "/org/tizen/cynara") (cynara_on_bus_acquired gio)
unfolding launchpad_on_bus_acquired auth_on_bus_acquired cynara_on_bus_acquired register_node
    AsDocumented count IsClean
daemons-IsSettled gio h k = (
  acquired-IsSettled gio _ h (k _),
  acquired-IsSettled gio _ h (k _),
  ground (arith, h, k (codes "/org/tizen/cynara")),
)
