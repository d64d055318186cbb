-- ===== src/Security/Cynara/Policies.antt =====
-- The table of policies behind security/cynara/cynara-daemon.c: the rows that `init_database` inserts, and what
-- SQLite answers to the daemon's query over a table, as a relation.
use tizen_os.Base.{
  ℕ, zero, suc, ◌≡◌, refl, sym, ap, ◌∙◌, ◌≢◌, ◌↔◌, ◌⊎◌, inl, inr, true, Option, none, some, List,
  [], ◌∷◌, get_elem?,
}
use mathlib.Core.Path.{subst}
use tizen_os.Libc.{Bytes, codes, str_contains, starts_with}
use tizen_os.Security.Cynara.{
  Sqlite, check_privilege, IsAllowed, by_system, by_root, by_policy, by_default,
  check_privilege_iff, Stepped, sqlite_row, sqlite_done, by_failure,
}

pub record Row : Type 0 where
  pub client_label : Bytes
  pub user_id : Bytes
  pub privilege : Bytes
  pub result : ℕ

-- The two statements `INSERT OR IGNORE`, on a table that is empty.
abbrev pub default_rows : List Row
default_rows =
    record {
      client_label = codes "User";
      user_id = codes "*";
      privilege = codes "http://tizen.org/privilege/internet";
      result = 1;
    }
    ∷ record {
      client_label = codes "System";
      user_id = codes "*";
      privilege = codes "*";
      result = 1;
    }
    ∷ []

-- What the query `SELECT result FROM policies WHERE client_label = ? AND privilege = ?` may step to: the
-- result of a row that has both, whoever its user is, and no row only if none has both.
pub data Answers (table : List Row) (label privilege : Bytes) : Stepped → Type 0 where
  found :
      (i : ℕ) (row : Row)
      → get_elem? table i ≡ some row
      → row.client_label ≡ label
      → row.privilege ≡ privilege
      → Answers table label privilege (sqlite_row row.result)
  nothing :
      ((i : ℕ) (row : Row)
        → get_elem? table i ≡ some row
        → row.client_label ≡ label
        → row.privilege ≢ privilege)
      → Answers table label privilege sqlite_done

abbrev Allows : Row → Type 0
Allows row =
    (row.result ≡ 1)
    × ((row.client_label ≡ codes "System") ⊎ (str_contains row.privilege (codes "internet") ≡ true))

abbrev row_or : Row → Option Row → Row
row_or row none = row
row_or row (some r) = r

-- Every row of the defaults allows, and only what is allowed without it.
row-Allows : (i : ℕ) (row : Row) → get_elem? default_rows i ≡ some row → Allows row
unfolding str_contains starts_with
row-Allows zero row e = subst Allows (ap (row_or row) e) (refl, inr refl)
row-Allows (suc zero) row e = subst Allows (ap (row_or row) e) (refl, inl refl)
row-Allows (suc (suc i)) row e = absurd (cc)

-- The two in the order of the code, and then the privilege.
abbrev pub Default : Bytes → Bytes → Type 0
Default label privilege =
    (label ≡ codes "System")
    ⊎ ((label ≡ codes "root") ⊎ (str_contains privilege (codes "internet") ≡ true))

IsAllowed-Default :
    (sql : Sqlite) (label privilege : Bytes)
    → Answers default_rows label privilege (sql.first_step label privilege)
    → IsAllowed sql label privilege
    → Default label privilege
IsAllowed-Default sql label privilege answers (by_system e) = inl e
IsAllowed-Default sql label privilege answers (by_root e) = inr (inl e)
IsAllowed-Default sql label privilege answers (by_default p e c) = inr (inr c)
IsAllowed-Default sql label privilege answers (by_failure p e c) = inr (inr c)
IsAllowed-Default sql label privilege answers (by_policy p e) = from_row _ answers e
  where
    from_row :
        (answer : Stepped)
        → Answers default_rows label privilege answer
        → answer ≡ sqlite_row 1
        → Default label privilege
    from_row _ (nothing none_has) h = absurd (cc)
    from_row _ (found i row at l q) h = elim (row-Allows i row at).1 [
      | inl system ↦ inl (sym l ∙ system)
      | inr internet ↦ inr (inr (ap (λ t. str_contains t (codes "internet")) (sym q) ∙ internet))
    ]

Default-IsAllowed :
    (sql : Sqlite) (label privilege : Bytes)
    → sql.prepares ≡ true
    → Answers default_rows label privilege (sql.first_step label privilege)
    → Default label privilege
    → IsAllowed sql label privilege
Default-IsAllowed sql label privilege prepared answers (inl e) = by_system e
Default-IsAllowed sql label privilege prepared answers (inr (inl e)) = by_root e
Default-IsAllowed sql label privilege prepared answers (inr (inr c)) = from_row _ answers refl
  where
    from_row :
        (answer : Stepped)
        → Answers default_rows label privilege answer
        → sql.first_step label privilege ≡ answer
        → IsAllowed sql label privilege
    from_row _ (nothing none_has) h = by_default prepared h c
    from_row _ (found i row at l q) h =
        by_policy prepared (h ∙ ap sqlite_row (row-Allows i row at).0)

no_row :
    (label privilege : Bytes) (answer : Stepped)
    → Answers [] label privilege answer
    → answer ≡ sqlite_done
no_row label privilege _ (nothing none_has) = refl
no_row label privilege _ (found i row at l p) = absurd (cc)

IsAllowed-Default_empty :
    (sql : Sqlite) (label privilege : Bytes)
    → Answers [] label privilege (sql.first_step label privilege)
    → IsAllowed sql label privilege
    → Default label privilege
IsAllowed-Default_empty sql label privilege answers (by_system e) = inl e
IsAllowed-Default_empty sql label privilege answers (by_root e) = inr (inl e)
IsAllowed-Default_empty sql label privilege answers (by_default p e c) = inr (inr c)
IsAllowed-Default_empty sql label privilege answers (by_failure p e c) = inr (inr c)
IsAllowed-Default_empty sql label privilege answers (by_policy p e) =
    let none_there = no_row label privilege _ answers in absurd (cc)

Default-IsAllowed_empty :
    (sql : Sqlite) (label privilege : Bytes)
    → sql.prepares ≡ true
    → Answers [] label privilege (sql.first_step label privilege)
    → Default label privilege
    → IsAllowed sql label privilege
Default-IsAllowed_empty sql label privilege prepared answers (inl e) = by_system e
Default-IsAllowed_empty sql label privilege prepared answers (inr (inl e)) = by_root e
Default-IsAllowed_empty sql label privilege prepared answers (inr (inr c)) =
    by_default prepared (no_row label privilege _ answers) c

-- On a database that holds the rows of the code and no others, and from which SQLite can answer, the
-- daemon allows a privilege exactly to the labels System and root and to whom the privilege's name
-- has `internet` in it, for every user: what it would allow with an empty table, so neither of its
-- rows has an effect.
pub defaults_lem :
    (sql empty : Sqlite) (label user privilege : Bytes)
    → sql.prepares ≡ true
    → empty.prepares ≡ true
    → Answers default_rows label privilege (sql.first_step label privilege)
    → Answers [] label privilege (empty.first_step label privilege)
    → ((check_privilege sql label user privilege ≡ 1) ↔ Default label privilege)
      × ((check_privilege empty label user privilege ≡ 1) ↔ Default label privilege)
defaults_lem sql empty label user privilege prepared ready answers no_answers =
    let full = check_privilege_iff sql label user privilege in
    let bare = check_privilege_iff empty label user privilege in
    (
      (
        λ h. IsAllowed-Default sql label privilege answers (full.0 h),
        λ h. full.1 (Default-IsAllowed sql label privilege prepared answers h),
      ),
      (
        λ h. IsAllowed-Default_empty empty label privilege no_answers (bare.0 h),
        λ h. bare.1 (Default-IsAllowed_empty empty label privilege ready no_answers h),
      ),
    )
