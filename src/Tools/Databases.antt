-- ===== src/Tools/Databases.antt =====
-- The databases of the media server and of the package manager: `media_db_init` of
-- multimedia/media-server/src/media-db.c and `pkgmgr_db_init` of package-manager/pkgmgr-server/src/pkgmgr-db.c,
-- over what SQLite answers, as the log of the calls and of the message that SQLite allocates for an error.
use tizen_os.Base.{ℕ, ◌+◌, ◌-◌, ◌≡◌, Bool, not, ◌&&◌, List, [], ◌∷◌, ◌++◌, arith, if◌then◌else◌}
use tizen_os.Libc.{Bytes, codes}

pub data Call : Type 0 where
  sqlite_open : Bytes → Call
  sqlite_exec message_made message_freed : Call

-- Whether the file opens, and whether the statement runs; where it does not, there is a message.
pub record Sqlite : Type 0 where
  pub opens : Bytes → Bool
  pub exec : Bool

abbrev executed : Sqlite → List Call
executed sql = if sql.exec then sqlite_exec ∷ [] else sqlite_exec ∷ message_made ∷ []

unfoldable pub media_db_init : Sqlite → List Call
media_db_init sql =
    let path = codes "/var/lib/tizen-media/media.db" in
    if sql.opens path
    then sqlite_open path ∷ (executed sql ++ (if sql.exec then [] else message_freed ∷ []))
    else sqlite_open path ∷ []

unfoldable pub pkgmgr_db_init : Sqlite → List Call
pkgmgr_db_init sql =
    let path = codes "/var/lib/pkgmgr/pkgmgr.db" in
    if sql.opens path then sqlite_open path ∷ executed sql else sqlite_open path ∷ []

-- The messages that are held after the calls.
unfoldable pub messages : ℕ → List Call → ℕ
messages n [] = n
messages n (message_made ∷ cs) = messages (n + 1) cs
messages n (message_freed ∷ cs) = messages (n - 1) cs
messages n (_ ∷ cs) = messages n cs

-- The media server frees the message of an error; the package manager keeps it where its file opens and
-- its statement fails.
pub databases_lem :
    (sql : Sqlite)
    → (messages 0 (media_db_init sql) ≡ 0)
      × (messages 0 (pkgmgr_db_init sql)
          ≡ (if sql.opens (codes "/var/lib/pkgmgr/pkgmgr.db") && not sql.exec then 1 else 0))
unfolding media_db_init pkgmgr_db_init messages
databases_lem sql = ground arith
