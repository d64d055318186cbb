-- ===== src/Tools/Servers.antt =====
-- The daemons of the media and of the packages: multimedia/media-server/src/media-server.c and
-- media-scanner.c over GStreamer, and package-manager/pkgmgr-server/src/pkgmgr-daemon.c and pkgmgr-dbus.c, with
-- the databases of `Databases`. What GStreamer answers is a parameter; its times are printed by a macro
-- of its own, whose text is one too.
use tizen_os.Base.{
  ℕ, ◌+◌, ◌-◌, ◌≡◌, refl, ap, ◌∙◌, inl, inr, Bool, true, false, Option, none, some, List, [], ◌∷◌,
  ◌++◌, map, append-nil, arith, ◌==◌, if◌then◌else◌, Bool-cases,
}
use tizen_os.Tools.Databases.{Sqlite, media_db_init, pkgmgr_db_init, messages}
use tizen_os.Tools.Databases
use tizen_os.Dbus.{Reply, AsDocumented}
use tizen_os.Libc.{Bytes, codes}
use tizen_os.Libc.Text.{utf8}

-- What a daemon does: calls of its database, of GStreamer and of its main loop, and the error that
-- GStreamer sets.
pub data Step : Type 0 where
  database : Databases.Call → Step
  gst_init discoverer_new discoverer_start error_made error_used error_cleared null_used : Step
  connect_discovered loop_new loop_run loop_unref : Step
  discover_uri prints prints_error : Bytes → Step

-- `on_discovered`: the message of the error, where there is one, or the file and its time.
unfoldable pub on_discovered : (ℕ → Bytes) → Option Bytes → Bytes → ℕ → List Step
on_discovered time (some message) uri duration =
    prints_error (utf8 "Lỗi khi quét file: " ++ (message ++ codes "\n")) ∷ []
on_discovered time none uri duration =
    prints (
      utf8 "Đã phát hiện file: "
      ++ (uri ++ (utf8 ", Thời lượng: " ++ (time duration ++ codes "\n"))))
    ∷ []

abbrev error_of : Reply → List Step
error_of r = if r.error then error_made ∷ [] else []

-- The message is read from the error, which is then freed; there may be none.
abbrev clear_error : Bool → List Step
clear_error true = error_used ∷ error_cleared ∷ []
clear_error false = null_used ∷ []

unfoldable pub media_scanner_start : Reply → List Step
media_scanner_start discoverer =
    gst_init
    ∷ discoverer_new
    ∷ (error_of discoverer
        ++ (if discoverer.value
            then connect_discovered
              ∷ discover_uri (codes "file:///usr/share/media/sample.mp4")
              ∷ discoverer_start
              ∷ []
            else clear_error discoverer.error))

unfoldable pub media_server_main : Sqlite → Reply → List Step
media_server_main sql discoverer =
    map database (media_db_init sql)
    ++ (media_scanner_start discoverer ++ loop_new ∷ loop_run ∷ loop_unref ∷ [])

unfoldable pub pkgmgr_dbus_init : List Step
pkgmgr_dbus_init = prints (utf8 "Khởi tạo kết nối D-Bus cho tizen-pkgmgrd...\n") ∷ []

-- Its loop is not freed: it never ends.
unfoldable pub pkgmgr_main : Sqlite → List Step
pkgmgr_main sql =
    prints (utf8 "Khởi động Tizen Package Manager Daemon...\n")
    ∷ (map database (pkgmgr_db_init sql) ++ (pkgmgr_dbus_init ++ loop_new ∷ loop_run ∷ []))

-- The calls of the database.
unfoldable pub database_calls : List Step → List Databases.Call
database_calls [] = []
database_calls (database c ∷ es) = c ∷ database_calls es
database_calls (_ ∷ es) = database_calls es

-- The files that are asked for.
unfoldable pub asked_for : List Step → List Bytes
asked_for [] = []
asked_for (discover_uri uri ∷ es) = uri ∷ asked_for es
asked_for (_ ∷ es) = asked_for es

-- What a daemon of these may be in: whether its scanner is connected, started, and the errors held.
pub data Phase : Type 0 where
  off connected asked scanning serving ended failed : Phase

pub record State : Type 0 where
  pub phase : Phase
  pub errors : ℕ

-- GStreamer's rules for a discoverer and GLib's for a loop: the handler is connected before a file is
-- asked for, that is before it starts, and the loop runs after all that; an error is read while it is
-- held.
unfoldable pub step : Step → State → State
step error_made s = record s { errors = s.errors + 1 }
step error_cleared s =
    if s.errors == 0 then record s { phase = failed } else record s { errors = s.errors - 1 }
step error_used s = if s.errors == 0 then record s { phase = failed } else s
step null_used s = record s { phase = failed }
step connect_discovered s = record s { phase = elim s.phase [ off ↦ connected | _ ↦ failed ] }
step (discover_uri uri) s = record s { phase = elim s.phase [ connected ↦ asked | _ ↦ failed ] }
step discoverer_start s = record s { phase = elim s.phase [ asked ↦ scanning | _ ↦ failed ] }
step loop_run s = record s {
  phase = elim s.phase [ off ↦ serving | scanning ↦ serving | _ ↦ failed ];
}
step loop_unref s = record s { phase = elim s.phase [ serving ↦ ended | _ ↦ failed ] }
step _ s = s

unfoldable pub steps : List Step → State → State
steps [] s = s
steps (e ∷ es) s = steps es (step e s)

abbrev pub begun : State
begun = record { phase = off; errors = 0 }

steps-database :
    (cs : List Databases.Call) (es : List Step) (s : State)
    → steps (map database cs ++ es) s ≡ steps es s
unfolding steps step
steps-database [] es s = refl
steps-database (c ∷ cs) es s = steps-database cs es s

database-map :
    (cs : List Databases.Call) (es : List Step)
    → database_calls (map database cs ++ es) ≡ cs ++ database_calls es
unfolding database_calls
database-map [] es = refl
database-map (c ∷ cs) es = ap (◌∷◌ c) (database-map cs es)

asked-map :
    (cs : List Databases.Call) (es : List Step) → asked_for (map database cs ++ es) ≡ asked_for es
unfolding asked_for
asked-map [] es = refl
asked-map (c ∷ cs) es = asked-map cs es

-- The media server behind its database.
abbrev scanning_and_loop : Reply → List Step
scanning_and_loop r = media_scanner_start r ++ loop_new ∷ loop_run ∷ loop_unref ∷ []

scanning_lem :
    (r : Reply)
    → AsDocumented r
    → (steps (scanning_and_loop r) begun ≡ record { phase = ended; errors = 0 })
      × (asked_for (scanning_and_loop r)
          ≡ (if r.value then codes "file:///usr/share/media/sample.mp4" ∷ [] else []))
      × (database_calls (scanning_and_loop r) ≡ [])
unfolding media_scanner_start steps step asked_for database_calls AsDocumented
scanning_lem r h = elim (Bool-cases r.error) [ inl t ↦ ground arith | inr f ↦ ground arith ]

-- Where GStreamer answers as it documents, the media server keeps the order of the calls and comes to
-- its loop whether or not there is a discoverer and a database, with every error freed, and scans the
-- one file of the code exactly if there is a discoverer; the package manager's server comes to its
-- loop as well. Neither daemon calls its database but to set it up, so what is found is not stored.
pub servers_lem :
    (sql : Sqlite) (discoverer : Reply)
    → AsDocumented discoverer
    → (steps (media_server_main sql discoverer) begun ≡ record { phase = ended; errors = 0 })
      × (asked_for (media_server_main sql discoverer)
          ≡ (if discoverer.value then codes "file:///usr/share/media/sample.mp4" ∷ [] else []))
      × (database_calls (media_server_main sql discoverer) ≡ media_db_init sql)
      × (steps (pkgmgr_main sql) begun ≡ record { phase = serving; errors = 0 })
      × (database_calls (pkgmgr_main sql) ≡ pkgmgr_db_init sql)
unfolding media_server_main pkgmgr_main pkgmgr_dbus_init steps step database_calls
servers_lem sql discoverer h =
    let scan = scanning_lem discoverer h in
    let media = media_db_init sql in
    let packages = pkgmgr_db_init sql in
    (
      steps-database media (scanning_and_loop discoverer) begun ∙ scan.0,
      asked-map media (scanning_and_loop discoverer) ∙ scan.1,
      database-map media (scanning_and_loop discoverer)
          ∙ ap (λ cs. media ++ cs) scan.2
          ∙ append-nil media,
      steps-database packages (pkgmgr_dbus_init ++ loop_new ∷ loop_run ∷ []) begun,
      database-map packages (pkgmgr_dbus_init ++ loop_new ∷ loop_run ∷ []) ∙ append-nil packages,
    )
