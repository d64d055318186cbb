-- ===== src/Security/Clients.antt =====
-- The programs and functions beside the daemons: security/cynara/cynara-client.c and cynara-admin.c,
-- security/smack-utils/smack-labels.c and security/tizen-auth/src/keyring.c. A pointer that may be NULL is
-- an option, and of a pointer to write to it is kept whether it is there. `fsetxattr` is a parameter.
use tizen_os.Base.{
  ℕ, ◌≡◌, refl, sym, ap, ◌↔◌, Bool, true, false, Option, none, some, List, [], ◌∷◌, ◌==◌, length,
}
use tizen_os.Base.Int.{ℤ, pos, negsuc}
use tizen_os.Libc.{Bytes, codes}
use tizen_os.Security.Cynara.{Sqlite, check_privilege, IsAllowed, check_privilege_iff}

-- `cynara_check_privilege` asks nobody.
unfoldable pub cynara_check_privilege : Bytes → Bytes → Bytes → ℕ
cynara_check_privilege client_label user privilege = 1

-- The client gives the answer that the daemon would give exactly for what the daemon allows.
pub client-daemon :
    (sql : Sqlite) (label user privilege : Bytes)
    → (check_privilege sql label user privilege ≡ cynara_check_privilege label user privilege)
      ↔ IsAllowed sql label privilege
unfolding cynara_check_privilege
client-daemon sql label user privilege = check_privilege_iff sql label user privilege

-- A policy that was to be set: the label, the user, the privilege and the result.
abbrev pub Policy : Type 0
Policy = Bytes × Bytes × Bytes × Bool

abbrev starts_with_one : Bytes → Bool
starts_with_one [] = false
starts_with_one (c ∷ cs) = c == b'1'

-- `main` of cynara-admin.c on the words after the program's name: its status, and the policy that it
-- prints; `cynara_set_policy` stores none.
unfoldable pub main : List Bytes → ℕ × List Policy
main (client ∷ user ∷ privilege ∷ result ∷ more) =
    (0, (client, user, privilege, starts_with_one result) ∷ [])
main _ = (1, [])

-- `apply_smack_label`: the attribute that is set, and the result.
unfoldable pub apply_smack_label : (Bytes → Bytes → ℤ) → Bytes → ℤ
apply_smack_label fsetxattr label = elim (fsetxattr (codes "security.SMACK64") label) [
  | negsuc n ↦ negsuc 0
  | pos n ↦ pos 0
]

unfoldable pub tizen_keyring_store : Option Bytes → Option Bytes → ℤ
tizen_keyring_store (some label) (some secret) = pos 0
tizen_keyring_store _ _ = negsuc 0

-- The result, and the secret and its length where they are written.
unfoldable pub tizen_keyring_retrieve : Option Bytes → Bool → Bool → ℤ × Option (Bytes × ℕ)
tizen_keyring_retrieve (some label) true true =
    (pos 0, some (codes "decrypted_secret_mock", length (codes "decrypted_secret_mock")))
tizen_keyring_retrieve _ _ _ = (negsuc 0, none)

unfoldable pub tizen_keyring_delete : Option Bytes → ℤ
tizen_keyring_delete none = negsuc 0
tizen_keyring_delete (some label) = pos 0

-- Both calls succeed, and the secret that comes back is the one that was stored exactly if that is the
-- fixed text of the code.
pub keyring_lem :
    (label secret : Bytes)
    → (tizen_keyring_store (some label) (some secret) ≡ pos 0)
      × ((tizen_keyring_retrieve (some label) true true ≡ (pos 0, some (secret, length secret)))
          ↔ (secret ≡ codes "decrypted_secret_mock"))
unfolding tizen_keyring_store tizen_keyring_retrieve
keyring_lem label secret = (
  refl,
  (
    λ e. sym (ap (λ r. elim r.1 [ none ↦ [] | some (s, n) ↦ s ]) e),
    λ e. ap (λ s. (pos 0, some (s, length s))) (sym e),
  ),
)
