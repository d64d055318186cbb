-- ===== src/Security/Auth/Conversation.antt =====
-- security/tizen-auth/src/auth-daemon.c over a PAM stack that asks through `pam_conv_cb`, the callback that
-- `perform_pam_auth` gives to `pam_start` with the password. What a stack asks, and what it makes of the
-- replies, is a parameter: a tree of questions, each of which has the messages of one call of the
-- callback.
use tizen_os.Base.{
  ℕ, zero, suc, ◌≡◌, refl, ap, ◌∙◌, ◌↔◌, Bool, true, false, ◌&&◌, Option, none, some, List, [], ◌∷◌,
  map, arith, length, take,
}
use tizen_os.Libc.{Bytes, codes, str_eq}
use tizen_os.Libc.Laws.{str_eq_iff}
use tizen_os.Base.Int.{pos}
use tizen_os.Security.Auth.{
  Style, prompt_echo_off, prompt_echo_on, error_msg, text_info, PamCode, pam_success, pam_conv_cb,
  Pam, perform_pam_auth, handle_method_call, reply_to,
}

pub data Asking : Type 0 where
  decides : Bool → Asking
  asks : List Style → (PamCode × List (Option Bytes) → Asking) → Asking

-- What the stack decides where the code answers, with a password, and with memory or without.
unfoldable pub converse : Bool → Option Bytes → Asking → Bool
converse allocates appdata (decides b) = b
converse allocates appdata (asks msg next) =
    converse allocates appdata (next (pam_conv_cb allocates (pos (length msg)) msg appdata))

pub record Stack : Type 0 where
  pub starts : Bytes → Bool
  pub asking : Bytes → Asking
  pub manages : Bytes → Bool

-- PAM with a stack, where memory is there.
unfoldable pub pam_of : Stack → Pam
pam_of stack = record {
  starts = stack.starts;
  authenticates = λ user password. converse true (some password) (stack.asking user);
  manages = stack.manages;
}

unfoldable pub only_informs : List Style → Bool
only_informs [] = true
only_informs (error_msg ∷ msg) = only_informs msg
only_informs (text_info ∷ msg) = only_informs msg
only_informs (_ ∷ msg) = false

-- A stack that checks a password against the stored one: it may say something first, and goes on
-- whatever it is answered, and then prompts once, without echo, and accepts exactly the stored password.
pub data Checks (stored : Bytes) : Asking → Type 0 where
  informs :
      (msg : List Style) (next : PamCode × List (Option Bytes) → Asking)
      → only_informs msg ≡ true
      → ((answer : PamCode × List (Option Bytes)) → Checks stored (next answer))
      → Checks stored (asks msg next)
  prompts :
      (next : PamCode × List (Option Bytes) → Asking)
      → ((reply : Bytes) → next (pam_success, some reply ∷ []) ≡ decides (str_eq reply stored))
      → Checks stored (asks (prompt_echo_off ∷ []) next)

-- A stack that never prompts.
pub data NeverPrompts : Asking → Type 0 where
  decided : (b : Bool) → NeverPrompts (decides b)
  informed :
      (msg : List Style) (next : PamCode × List (Option Bytes) → Asking)
      → only_informs msg ≡ true
      → ((answer : PamCode × List (Option Bytes)) → NeverPrompts (next answer))
      → NeverPrompts (asks msg next)

converse-Checks :
    (stored password : Bytes) (asking : Asking)
    → Checks stored asking
    → converse true (some password) asking ≡ str_eq password stored
unfolding converse pam_conv_cb
converse-Checks stored password _ (informs msg next h k) =
    let answer = pam_conv_cb true (pos (length msg)) msg (some password) in
    converse-Checks stored password (next answer) (k answer)
converse-Checks stored password _ (prompts next h) = rw (h password) refl

-- No password goes to a stack that does not prompt.
take-informs :
    (n : ℕ) (msg : List Style) (a b : Bytes)
    → only_informs msg ≡ true
    → map (reply_to (some a)) (take n msg) ≡ map (reply_to (some b)) (take n msg)
unfolding only_informs
take-informs zero msg a b h = refl
take-informs (suc n) [] a b h = refl
take-informs (suc n) (prompt_echo_off ∷ msg) a b h = absurd (ground arith)
take-informs (suc n) (prompt_echo_on ∷ msg) a b h = absurd (ground arith)
take-informs (suc n) (error_msg ∷ msg) a b h = ap (◌∷◌ none) (take-informs n msg a b h)
take-informs (suc n) (text_info ∷ msg) a b h = ap (◌∷◌ none) (take-informs n msg a b h)

answer-informs :
    (n : ℕ) (msg : List Style) (a b : Bytes)
    → only_informs msg ≡ true
    → pam_conv_cb true (pos n) msg (some a) ≡ pam_conv_cb true (pos n) msg (some b)
unfolding pam_conv_cb
answer-informs zero msg a b h = refl
answer-informs (suc n) msg a b h = rw (take-informs (suc n) msg a b h) refl

converse-NeverPrompts :
    (a b : Bytes) (asking : Asking)
    → NeverPrompts asking
    → converse true (some a) asking ≡ converse true (some b) asking
unfolding converse
converse-NeverPrompts a b _ (decided c) = refl
converse-NeverPrompts a b _ (informed msg next h k) =
    let answer = pam_conv_cb true (pos (length msg)) msg (some b) in
    ap (λ x. converse true (some a) (next x)) (answer-informs (length msg) msg a b h)
    ∙ converse-NeverPrompts a b (next answer) (k answer)

authenticate-converse :
    (stack : Stack) (user password : Bytes)
    → handle_method_call (pam_of stack) (codes "AuthenticateUser") user password
      ≡ some (
          stack.starts user
          && (converse true (some password) (stack.asking user) && stack.manages user))
unfolding handle_method_call perform_pam_auth pam_of str_eq
authenticate-converse stack user password = ground arith

all_three :
    (a b c : Bool)
    → (◌≡◌ {A = Option Bool} (some (a && (b && c))) (some true))
      ↔ ((a ≡ true) × (b ≡ true) × (c ≡ true))
all_three a b c = ground arith

-- Where the user's PAM stack checks a password against the stored one, a caller of `AuthenticateUser` gets
-- true exactly if PAM starts for the user, the password is the stored one and PAM accepts the
-- account; where the stack of a second user never prompts, any two passwords get that user the same
-- answer.
pub authenticate_lem :
    (stack : Stack) (user other password second stored : Bytes)
    → Checks stored (stack.asking user)
    → NeverPrompts (stack.asking other)
    → let reply = λ (name secret : Bytes).
      handle_method_call (pam_of stack) (codes "AuthenticateUser") name secret in
      ((reply user password ≡ some true)
        ↔ ((stack.starts user ≡ true) × (password ≡ stored) × (stack.manages user ≡ true)))
      × (reply other password ≡ reply other second)
authenticate_lem stack user other password second stored h k =
    let same = converse-Checks stored password (stack.asking user) h in
    let equal = str_eq_iff password stored in
    let silent = converse-NeverPrompts password second (stack.asking other) k in
    let all = all_three (stack.starts user) (str_eq password stored) (stack.manages user) in
    (
      rw (authenticate-converse stack user password, same)
          (
            λ e. let parts = all.0 e in (parts.0, equal.0 parts.1, parts.2),
            λ parts. all.1 (parts.0, equal.1 parts.1, parts.2),
          ),
      rw
          (
            authenticate-converse stack other password,
            authenticate-converse stack other second,
            silent,
          )
          refl,
    )
