-- ===== src/Dbus/Interfaces.antt =====
-- The texts `introspection_xml` of app-framework/launchpad/src/launchpad-daemon.c,
-- security/tizen-auth/src/auth-daemon.c and security/cynara/cynara-daemon.c beside the methods that the three
-- handlers answer. GDBus lets a call through to a handler by what it reads from the text; here a
-- reader of such texts says what they declare.
use tizen_os.Base.{
  ◌≡◌, refl, ◌↔◌, Bool, true, false, Option, none, some, List, [], ◌∷◌, ◌++◌, arith, ◌==◌,
  if◌then◌else◌, length, drop,
}
use tizen_os.Launchpad
use tizen_os.Launchpad.{Spawned, Daemon}
use tizen_os.Security.Auth
use tizen_os.Security.Auth.{Pam}
use tizen_os.Security.Cynara
use tizen_os.Security.Cynara.{Sqlite}
use tizen_os.Libc.{Bytes, codes, str_eq, starts_with, split_at}

-- The string literals, as the compiler joins them.
abbrev pub launchpad_xml : Bytes
launchpad_xml =
    codes "<node>"
    ++ (codes "  <interface name='org.tizen.Launchpad'>"
        ++ (codes "    <method name='LaunchApp'>"
            ++ (codes "      <arg type='s' name='app_id' direction='in'/>"
                ++ (codes "      <arg type='s' name='app_path' direction='in'/>"
                    ++ (codes "      <arg type='b' name='success' direction='out'/>"
                        ++ (codes "    </method>"
                            ++ (codes "  </interface>" ++ codes "</node>")))))))

abbrev pub auth_xml : Bytes
auth_xml =
    codes "<node>"
    ++ (codes "  <interface name='org.tizen.Auth'>"
        ++ (codes "    <method name='AuthenticateUser'>"
            ++ (codes "      <arg type='s' name='username' direction='in'/>"
                ++ (codes "      <arg type='s' name='password' direction='in'/>"
                    ++ (codes "      <arg type='b' name='success' direction='out'/>"
                        ++ (codes "    </method>"
                            ++ (codes "    <method name='RequestPermissionConsent'>"
                                ++ (codes "      <arg type='s' name='app_id' direction='in'/>"
                                    ++ (codes
                                          "      <arg type='s' name='permission_name' direction='in'/>"
                                        ++ (codes
                                              "      <arg type='b' name='granted' direction='out'/>"
                                            ++ (codes "    </method>"
                                                ++ (codes "  </interface>"
                                                    ++ codes "</node>"))))))))))))

abbrev pub cynara_xml : Bytes
cynara_xml =
    codes "<node>"
    ++ (codes "  <interface name='org.tizen.cynara'>"
        ++ (codes "    <method name='CheckPrivilege'>"
            ++ (codes "      <arg type='s' name='client_label' direction='in'/>"
                ++ (codes "      <arg type='s' name='user_id' direction='in'/>"
                    ++ (codes "      <arg type='s' name='privilege' direction='in'/>"
                        ++ (codes "      <arg type='i' name='result' direction='out'/>"
                            ++ (codes "    </method>"
                                ++ (codes "  </interface>" ++ codes "</node>"))))))))

-- The formats of `g_variant_get` and of `g_variant_new` in a handler, by the method's name: none where
-- the handler does nothing.
unfoldable pub launchpad_formats : Bytes → Option (Bytes × Bytes)
launchpad_formats method_name =
    if str_eq method_name (codes "LaunchApp") then some (codes "(&s&s)", codes "(b)") else none

unfoldable pub auth_formats : Bytes → Option (Bytes × Bytes)
auth_formats method_name =
    if str_eq method_name (codes "AuthenticateUser")
    then some (codes "(&s&s)", codes "(b)")
    else if str_eq method_name (codes "RequestPermissionConsent")
    then some (codes "(&s&s)", codes "(b)")
    else none

unfoldable pub cynara_formats : Bytes → Option (Bytes × Bytes)
cynara_formats method_name =
    if str_eq method_name (codes "CheckPrivilege")
    then some (codes "(&s&s&s)", codes "(i)")
    else none

-- What stands between `<` and `>`, in order: the first argument is the tag that is being read.
unfoldable tags : Option Bytes → Bytes → List Bytes
tags tag [] = []
tags none (c ∷ cs) = tags (if c == b'<' then some [] else none) cs
tags (some tag) (c ∷ cs) = elim (c == b'>') [
  | true ↦ tag ∷ tags none cs
  | false ↦ tags (some (tag ++ c ∷ [])) cs
]

-- What follows the first place where a text stands.
unfoldable behind : Bytes → Bytes → Bytes
behind p [] = []
behind p (c ∷ cs) = elim (starts_with p (c ∷ cs)) [
  | true ↦ drop (length p) (c ∷ cs)
  | false ↦ behind p cs
]

unfoldable attribute : Bytes → Bytes → Bytes
attribute key tag = elim (split_at b'\'' (behind (codes " " ++ (key ++ codes "='")) tag)) [
  | none ↦ []
  | some (value, _) ↦ value
]

record Arg : Type 0 where
  type : Bytes
  is_out : Bool

record Method : Type 0 where
  name : Bytes
  args : List Arg

-- The arguments that belong to a method further left, and the methods.
unfoldable methods : List Bytes → List Arg × List Method
methods [] = ([], [])
methods (t ∷ ts) =
    let (args, ms) = methods ts in
    if starts_with (codes "arg ") t
    then (
      record {
        type = attribute (codes "type") t;
        is_out = str_eq (attribute (codes "direction") t) (codes "out");
      }
          ∷ args,
      ms,
    )
    else if starts_with (codes "method ") t
    then ([], record { name = attribute (codes "name") t; args = args } ∷ ms)
    else (args, ms)

-- The types of the arguments of one direction; a string is lent where it is read.
unfoldable types : Bool → List Arg → Bytes
types out [] = []
types true (a ∷ rest) = let ts = types true rest in if a.is_out then a.type ++ ts else ts
types false (a ∷ rest) =
    let ts = types false rest in
    if a.is_out then ts else (if str_eq a.type (codes "s") then codes "&s" else a.type) ++ ts

unfoldable find_method : Bytes → List Method → Option (Bytes × Bytes)
find_method method_name [] = none
find_method method_name (m ∷ ms) =
    let rest = find_method method_name ms in
    if str_eq method_name m.name
    then some (
      codes "(" ++ (types false m.args ++ codes ")"),
      codes "(" ++ (types true m.args ++ codes ")"),
    )
    else rest

-- What a text declares under a name, as the formats that fit it.
pub declared : Bytes → Bytes → Option (Bytes × Bytes)
declared xml method_name = find_method method_name (methods (tags none xml)).1

-- The name of the first interface.
pub interface_name : Bytes → Bytes
interface_name xml = attribute (codes "name") (behind (codes "<interface") xml)

launchpad-declared : (m : Bytes) → declared launchpad_xml m ≡ launchpad_formats m
unfolding declared find_method methods tags attribute behind types launchpad_formats str_eq
    starts_with split_at
launchpad-declared m = refl

auth-declared : (m : Bytes) → declared auth_xml m ≡ auth_formats m
unfolding declared find_method methods tags attribute behind types auth_formats str_eq starts_with
    split_at
auth-declared m = refl

cynara-declared : (m : Bytes) → declared cynara_xml m ≡ cynara_formats m
unfolding declared find_method methods tags attribute behind types cynara_formats str_eq starts_with
    split_at
cynara-declared m = refl

-- For each of the three daemons, whatever a method is called: what the object's text declares under
-- the name are the formats with which the handler reads the call and writes its reply, and the handler
-- replies exactly if the text declares the method, whatever the arguments and the daemon's state are.
pub interfaces_lem :
    (m : Bytes)
    → ((declared launchpad_xml m ≡ launchpad_formats m)
        × ((id path : Bytes) (answer : Spawned) (d : Daemon)
            → ((Launchpad.handle_method_call m id path answer d).1 ≡ none)
              ↔ (declared launchpad_xml m ≡ none)))
      × ((declared auth_xml m ≡ auth_formats m)
          × ((pam : Pam) (first second : Bytes)
              → (Auth.handle_method_call pam m first second ≡ none) ↔ (declared auth_xml m ≡ none)))
      × ((declared cynara_xml m ≡ cynara_formats m)
          × ((sql : Sqlite) (client user privilege : Bytes)
              → (Cynara.handle_method_call sql m client user privilege ≡ none)
                ↔ (declared cynara_xml m ≡ none)))
unfolding Launchpad.handle_method_call Auth.handle_method_call Cynara.handle_method_call
    launchpad_formats auth_formats cynara_formats
interfaces_lem m = (
  (launchpad-declared m, λ id path answer d. ground (arith, launchpad-declared m)),
  (auth-declared m, λ pam first second. ground (arith, auth-declared m)),
  (cynara-declared m, λ sql client user privilege. ground (arith, cynara-declared m)),
)

-- The names that the texts give to the interfaces are the names that the daemons own on the bus.
interface-name :
    (interface_name launchpad_xml ≡ codes "org.tizen.Launchpad")
    × (interface_name auth_xml ≡ codes "org.tizen.Auth")
    × (interface_name cynara_xml ≡ codes "org.tizen.cynara")
unfolding interface_name attribute behind split_at starts_with
interface-name = (refl, refl, refl)
