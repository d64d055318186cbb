-- ===== src/Security/Cynara.antt =====
-- security/cynara/cynara-daemon.c. SQLite is what the code calls: `first_step label privilege` is what
-- `sqlite3_step` answers to its query, where the statement is prepared: a row with its column `result`,
-- the end of the rows, or an error such as that of a database that is locked.
pub mod Policies
use tizen_os.Libc.Laws.{str_eq_iff}
use tizen_os.Base.{
  ℕ, ◌≡◌, ◌↔◌, inl, inr, Bool, true, false, ◌||◌, Option, none, some, List, [], ◌∷◌, map, arith,
  if◌then◌else◌, Bool-cases, refl, ◌⊎◌,
}
use tizen_os.Libc.{Bytes, codes, str_eq, str_contains}

pub data Stepped : Type 0 where
  sqlite_row : ℕ → Stepped
  sqlite_done sqlite_error : Stepped

pub record Sqlite : Type 0 where
  pub opens : Bytes → Bool
  pub exec : Bool
  pub prepares : Bool
  pub first_step : Bytes → Bytes → Stepped

-- The calls that the daemon makes of its database.
pub data Call : Type 0 where
  sqlite_open : Bytes → Call
  sqlite_exec : Call

-- `init_database`: whether it returns true, and the calls that it made.
unfoldable pub init_database : Sqlite → Bool × List Call
init_database sql =
    if sql.opens (codes "/var/lib/cynara/cynara.db")
    then (sql.exec, sqlite_open (codes "/var/lib/cynara/cynara.db") ∷ sqlite_exec ∷ [])
    else if sql.opens (codes ":memory:")
    then (
      sql.exec,
      sqlite_open (codes "/var/lib/cynara/cynara.db")
          ∷ sqlite_open (codes ":memory:")
          ∷ sqlite_exec
          ∷ [],
    )
    else (
      false,
      sqlite_open (codes "/var/lib/cynara/cynara.db") ∷ sqlite_open (codes ":memory:") ∷ [],
    )

-- The result that `CheckPrivilege` computes.
pub check_privilege : Sqlite → Bytes → Bytes → Bytes → ℕ
check_privilege sql client_label user_id privilege =
    if str_eq client_label (codes "System") || str_eq client_label (codes "root")
    then 1
    else if sql.prepares
    then elim (sql.first_step client_label privilege) [
      | sqlite_row result ↦ result
      | _ ↦ if str_contains privilege (codes "internet") then 1 else 0
    ]
    else 0

-- `handle_method_call`: the value returned to the caller; another method gets none.
unfoldable pub handle_method_call : Sqlite → Bytes → Bytes → Bytes → Bytes → Option ℕ
handle_method_call sql method_name client_label user_id privilege =
    if str_eq method_name (codes "CheckPrivilege")
    then some (check_privilege sql client_label user_id privilege)
    else none

-- The daemon, over the calls that it gets: none where it ends before it serves.
pub serve : Sqlite → List (Bytes × Bytes × Bytes × Bytes) → Option (List (Option ℕ))
serve sql requests =
    if (init_database sql).0
    then some (map (λ r. handle_method_call sql r.0 r.1 r.2 r.3) requests)
    else none

-- Who the daemon lets through.
pub data IsAllowed (sql : Sqlite) (label privilege : Bytes) : Type 0 where
  by_system : label ≡ codes "System" → IsAllowed sql label privilege
  by_root : label ≡ codes "root" → IsAllowed sql label privilege
  by_policy :
      sql.prepares ≡ true
      → sql.first_step label privilege ≡ sqlite_row 1
      → IsAllowed sql label privilege
  by_default :
      sql.prepares ≡ true
      → sql.first_step label privilege ≡ sqlite_done
      → str_contains privilege (codes "internet") ≡ true
      → IsAllowed sql label privilege
  by_failure :
      sql.prepares ≡ true
      → sql.first_step label privilege ≡ sqlite_error
      → str_contains privilege (codes "internet") ≡ true
      → IsAllowed sql label privilege

Stepped-cases :
    (s : Stepped) → (s ≡ sqlite_done) ⊎ ((s ≡ sqlite_error) ⊎ ((r : ℕ) × (s ≡ sqlite_row r)))
Stepped-cases sqlite_done = inl refl
Stepped-cases sqlite_error = inr (inl refl)
Stepped-cases (sqlite_row r) = inr (inr (r, refl))

-- The daemon allows a privilege exactly to the labels System and root, to the labels whose policy says
-- so, and, where there is no policy, if the privilege's name has `internet` in it; the same default
-- holds where stepping the query fails, and where the query cannot be prepared nothing else is
-- allowed.
pub check_privilege_iff :
    (sql : Sqlite) (label user privilege : Bytes)
    → (check_privilege sql label user privilege ≡ 1) ↔ IsAllowed sql label privilege
unfolding check_privilege
check_privilege_iff sql label user privilege = (
  λ h. elim (Bool-cases (str_eq label (codes "System"))) [
    | inl t ↦ by_system ((str_eq_iff label _).0 t)
    | inr f ↦ elim (Bool-cases (str_eq label (codes "root"))) [
      | inl t ↦ by_root ((str_eq_iff label _).0 t)
      | inr g ↦ elim (Bool-cases sql.prepares) [
        | inr p ↦ absurd (ground arith)
        | inl p ↦ elim (Stepped-cases (sql.first_step label privilege)) [
          | inl e ↦ by_default p e (ground arith)
          | inr other ↦ elim other [
            | inl e ↦ by_failure p e (ground arith)
            | inr (r, e) ↦ by_policy p (ground arith)
          ]
        ]
      ]
    ]
  ],
  λ allowed. decided allowed,
)
  where
    decided : IsAllowed sql label privilege → check_privilege sql label user privilege ≡ 1
    decided (by_system e) = ground (arith, (str_eq_iff label (codes "System")).1 e)
    decided (by_root e) = ground (arith, (str_eq_iff label (codes "root")).1 e)
    decided (by_policy p e) = ground arith
    decided (by_default p e c) = ground arith
    decided (by_failure p e c) = ground arith
