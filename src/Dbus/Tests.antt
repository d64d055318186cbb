-- ===== src/Dbus/Tests.antt =====
-- The theorems of `Dbus` at concrete answers.
use tizen_os.Dbus.Mains.{CynaraCall, cynara_main}
use tizen_os.Security.Cynara.{init_database}
use tizen_os.Launchpad
use tizen_os.Security.Auth
use tizen_os.Security.Cynara
use tizen_os.Launchpad.{no_pair, Spawned, Daemon}
use tizen_os.Security.Auth.{Pam}
use tizen_os.Security.Cynara.{Sqlite, sqlite_done}
use tizen_os.Dbus.Interfaces.{
  launchpad_xml, auth_xml, cynara_xml, launchpad_formats, auth_formats, cynara_formats, declared,
  interfaces_lem,
}
use tizen_os.Base.{refl, true, false, ◌&&◌, none, some, ◌≡◌, ◌↔◌, List, [], ◌∷◌}
use tizen_os.Libc.{codes, str_eq}
use tizen_os.Dbus.{AsDocumented, Bytes}
use tizen_os.Dbus.Daemons.{
  Gio, IsSettled, launchpad_on_bus_acquired, auth_on_bus_acquired, cynara_on_bus_acquired,
  daemons-IsSettled,
}
use tizen_os.Dbus.Library.{
  Bus, IsConnection, IsReport, registers, emits, tizen_dbus_get_system_connection,
  tizen_dbus_get_session_connection, tizen_dbus_register_method, tizen_dbus_emit_signal,
  library_lem,
}

-- The object cannot be registered.
abbrev taken : Gio
taken = record {
  node_info = record { value = true; error = false };
  register = λ path. record { value = false; error = true };
}

daemons-IsSettled_example :
    IsSettled taken (codes "/org/tizen/Launchpad") (launchpad_on_bus_acquired taken)
    × IsSettled taken (codes "/org/tizen/Auth") (auth_on_bus_acquired taken)
    × IsSettled taken (codes "/org/tizen/cynara") (cynara_on_bus_acquired taken)
unfolding AsDocumented
daemons-IsSettled_example = daemons-IsSettled taken refl (λ path. refl)

-- The session bus is away, and signals are not sent.
abbrev half : Bus
half = record {
  system = record { value = true; error = false };
  session = record { value = false; error = true };
  register = λ path. record { value = true; error = false };
  emit = λ path interface signal. record { value = false; error = true };
}

library_lem_example :
    let path = some (codes "/org/tizen") in
    IsConnection true (tizen_dbus_get_system_connection half true)
    × IsConnection true (tizen_dbus_get_session_connection half true)
    × IsReport
        (true && true && true && registers half path)
        (tizen_dbus_register_method half true path true true)
    × IsReport (true && emits half path none path) (tizen_dbus_emit_signal half true path none path)
unfolding AsDocumented
library_lem_example =
    library_lem half true true (some (codes "/org/tizen")) none (some (codes "/org/tizen")) true
      true refl refl (λ p. refl) (λ p i s. refl)

-- A method of one of the three.
interfaces_lem_example :
    ((declared launchpad_xml (codes "LaunchApp") ≡ launchpad_formats (codes "LaunchApp"))
      × ((id path : Bytes) (answer : Spawned) (d : Daemon)
          → ((Launchpad.handle_method_call (codes "LaunchApp") id path answer d).1 ≡ none)
            ↔ (declared launchpad_xml (codes "LaunchApp") ≡ none)))
    × ((declared auth_xml (codes "LaunchApp") ≡ auth_formats (codes "LaunchApp"))
        × ((pam : Pam) (first second : Bytes)
            → (Auth.handle_method_call pam (codes "LaunchApp") first second ≡ none)
              ↔ (declared auth_xml (codes "LaunchApp") ≡ none)))
    × ((declared cynara_xml (codes "LaunchApp") ≡ cynara_formats (codes "LaunchApp"))
        × ((sql : Sqlite) (client user privilege : Bytes)
            → (Cynara.handle_method_call sql (codes "LaunchApp") client user privilege ≡ none)
              ↔ (declared cynara_xml (codes "LaunchApp") ≡ none)))
interfaces_lem_example = interfaces_lem (codes "LaunchApp")

strings_in : launchpad_formats (codes "LaunchApp") ≡ some (codes "(&s&s)", codes "(b)")
unfolding launchpad_formats str_eq
strings_in = refl

-- A request of each of two daemons, of which the second has no database.
abbrev here : Gio
here = record {
  node_info = record { value = true; error = false };
  register = λ path. record { value = true; error = false };
}

abbrev pam : Pam
pam = record { starts = λ u. true; authenticates = λ u p. false; manages = λ u. true }

abbrev broken : Sqlite
broken = record {
  opens = λ path. false;
  exec = true;
  prepares = true;
  first_step = λ label privilege. sqlite_done;
}

abbrev asks_cynara : List CynaraCall
asks_cynara =
    record {
      method_name = codes "CheckPrivilege";
      client_label = codes "App";
      user_id = codes "1000";
      privilege = codes "camera";
    }
    ∷ []

-- The database cannot be opened, so the daemon ends before it is on the bus.
not_on_bus : cynara_main here broken asks_cynara ≡ ([], [], some 1)
unfolding cynara_main init_database
not_on_bus = refl
