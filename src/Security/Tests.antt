-- ===== src/Security/Tests.antt =====
-- The theorems of `Security` at concrete requests.
use tizen_os.Base.{
  Option, ℕ, zero, suc, ◌≡◌, refl, ◌≢◌, ◌↔◌, true, false, some, List, [], ◌∷◌, arith, if◌then◌else◌,
  get_elem?,
}
use tizen_os.Security.Auth.{handle_method_call}
use tizen_os.Security.Auth.Conversation.{
  Asking, decides, asks, Stack, pam_of, Checks, informs, prompts, NeverPrompts, decided,
  authenticate_lem, only_informs,
}
use tizen_os.Security.Cynara.Policies.{Answers, default_rows, nothing, Default, defaults_lem, Row}
use tizen_os.Base.{
  ℕ, ◌≡◌, refl, ◌↔◌, true, false, some, List, [], ◌∷◌, arith, if◌then◌else◌, get_elem?,
}
use tizen_os.Security.Cynara.{
  sqlite_row, sqlite_done, Sqlite, check_privilege, IsAllowed, check_privilege_iff,
}
use tizen_os.Security.Auth.{prompt_echo_off, text_info}
use tizen_os.Security.Smack.{
  main, load_smack_rules, rules_of, load-unlines, smack_is_available, write_rules,
}
use tizen_os.Base.Int.{pos}
use tizen_os.Libc.{Bytes, codes, str_eq, str_contains, starts_with, c_str}
use tizen_os.Libc.Lines.{unlines, terminated, lines}

abbrev user_db : Sqlite
user_db = record {
  opens = λ path. true;
  exec = true;
  prepares = true;
  first_step = λ label privilege. if str_eq label (codes "User") then sqlite_row 1 else sqlite_done;
}

check_privilege_iff_example :
    (check_privilege user_db (codes "User") (codes "1000") (codes "camera") ≡ 1)
    ↔ IsAllowed user_db (codes "User") (codes "camera")
check_privilege_iff_example =
    check_privilege_iff user_db (codes "User") (codes "1000") (codes "camera")

abbrev rule_file : List Bytes
rule_file = codes "# rules" ∷ [] ∷ codes "User System rwx" ∷ []

load-unlines_example :
    load_smack_rules true (some (unlines rule_file)) ≡ (pos 0, terminated (rules_of rule_file))
load-unlines_example = load-unlines rule_file (ground arith) (ground arith)

one_rule : rules_of rule_file ≡ codes "User System rwx" ∷ []
unfolding rules_of
one_rule = refl

abbrev modules : Bytes
modules = codes "capability,smack\n"

one_written : main true (some modules) (some (codes "a b r\n")) ≡ codes "a b r\n" ∷ []
unfolding main smack_is_available load_smack_rules write_rules lines str_contains starts_with c_str
one_written = refl

-- A stack that greets and compares, and lets the guest in.
abbrev compares : List (Option Bytes) → Asking
compares (some reply ∷ []) = decides (str_eq reply (codes "live"))
compares _ = decides false

abbrev stack : Stack
stack = record {
  starts = λ user. true;
  asking = λ user.
      if str_eq user (codes "guest")
      then decides true
      else asks (text_info ∷ [])
          (λ first. asks (prompt_echo_off ∷ []) (λ answer. compares answer.1));
  manages = λ user. true;
}

abbrev tizen : Bytes
tizen = codes "tizen"

abbrev guest : Bytes
guest = codes "guest"

abbrev wrong : Bytes
wrong = codes "wrong"

abbrev live : Bytes
live = codes "live"

stack-Checks : Checks live (stack.asking tizen)
unfolding str_eq only_informs
stack-Checks =
    informs (text_info ∷ []) (λ first. asks (prompt_echo_off ∷ []) (λ answer. compares answer.1))
      refl (λ first. prompts (λ answer. compares answer.1) (λ reply. refl))

guest-NeverPrompts : NeverPrompts (stack.asking guest)
unfolding str_eq
guest-NeverPrompts = decided true

authenticate_lem_example :
    let reply = λ (name secret : Bytes).
      handle_method_call (pam_of stack) (codes "AuthenticateUser") name secret in
    ((reply tizen wrong ≡ some true) ↔ ((true ≡ true) × (wrong ≡ live) × (true ≡ true)))
    × (reply guest wrong ≡ reply guest live)
authenticate_lem_example =
    authenticate_lem stack tizen guest wrong live live stack-Checks guest-NeverPrompts

-- Neither table has a row for the label.
abbrev no_rows : Sqlite
no_rows = record {
  opens = λ path. true;
  exec = true;
  prepares = true;
  first_step = λ label privilege. sqlite_done;
}

not_app :
    (i : ℕ) (row : Row)
    → get_elem? default_rows i ≡ some row
    → row.client_label ≡ codes "App"
    → row.privilege ≢ codes "camera"
not_app zero row e l p = ground arith
not_app (suc zero) row e l p = ground arith
not_app (suc (suc i)) row e l p = cc

none_for_app : Answers default_rows (codes "App") (codes "camera") sqlite_done
none_for_app = nothing not_app

none_at_all : Answers [] (codes "App") (codes "camera") sqlite_done
none_at_all = nothing (λ i row e l p. ground arith)

defaults_lem_example :
    ((check_privilege no_rows (codes "App") (codes "1000") (codes "camera") ≡ 1)
      ↔ Default (codes "App") (codes "camera"))
    × ((check_privilege no_rows (codes "App") (codes "1000") (codes "camera") ≡ 1)
        ↔ Default (codes "App") (codes "camera"))
defaults_lem_example =
    defaults_lem no_rows no_rows (codes "App") (codes "1000") (codes "camera") refl refl
      none_for_app none_at_all
