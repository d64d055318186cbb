-- ===== src/Security/Auth.antt =====
-- security/tizen-auth/src/auth-daemon.c. PAM is what the code calls: each call answers whether it
-- gave `PAM_SUCCESS`, and the code's calls are logged.
pub mod Conversation
use tizen_os.Base.{
  ℕ, zero, suc, ◌≤◌, ◌≡◌, refl, ap, ◌∙◌, ◌↔◌, ◌⊎◌, Bool, true, false, not, Option, none, some, List,
  [], ◌∷◌, map, arith, ltb, if◌then◌else◌, length, take, get_elem?, take_all, ◌+◌, ◌-◌, ◌*◌, ◌/◌,
  ◌%◌, ◌^◌, ◌<◌, min, sym, ◌≢◌, inl, inr, ◌&&◌, ◌||◌, ◌++◌, append_assoc, append-nil, leb, ◌==◌,
  ==_iff, Bool-cases, Option-cases, drop, set, All, join, length-append, take-append-drop,
  length-take, length-drop,
}
use tizen_os.Base.Int.{ℤ, pos, negsuc}
use tizen_os.Libc.{Bytes, codes, str_eq}

-- `msg_style`: the two prompts, and the two that only inform.
pub data Style : Type 0 where
  prompt_echo_off prompt_echo_on error_msg text_info : Style

pub data PamCode : Type 0 where
  pam_success pam_conv_err pam_buf_err : PamCode

abbrev reply_to : Option Bytes → Style → Option Bytes
reply_to none error_msg = none
reply_to none text_info = none
reply_to none _ = some []
reply_to (some pass) error_msg = none
reply_to (some pass) text_info = none
reply_to (some pass) _ = some pass

-- `pam_conv_cb` on the messages of an array of `num_msg`: the code, and the replies where it succeeds.
-- `PAM_MAX_NUM_MSG` is 32.
pub pam_conv_cb : Bool → ℤ → List Style → Option Bytes → PamCode × List (Option Bytes)
pam_conv_cb allocates (negsuc n) msg appdata = (pam_conv_err, [])
pam_conv_cb allocates (pos zero) msg appdata = (pam_conv_err, [])
pam_conv_cb allocates (pos (suc n)) msg appdata =
    if ltb 32 (suc n)
    then (pam_conv_err, [])
    else if allocates
    then (pam_success, map (reply_to appdata) (take (suc n) msg))
    else (pam_buf_err, [])

pub record Pam : Type 0 where
  pub starts : Bytes → Bool
  pub authenticates : Bytes → Bytes → Bool
  pub manages : Bytes → Bool

pub data Call : Type 0 where
  pam_start pam_authenticate pam_acct_mgmt : Call
  pam_end : Bool → Call

-- `perform_pam_auth`: its result and its calls; `pam_end` is told whether all went well.
pub perform_pam_auth : Pam → Bytes → Bytes → Bool × List Call
perform_pam_auth pam username password =
    if not (pam.starts username)
    then (false, pam_start ∷ [])
    else if not (pam.authenticates username password)
    then (false, pam_start ∷ pam_authenticate ∷ pam_end false ∷ [])
    else if not (pam.manages username)
    then (false, pam_start ∷ pam_authenticate ∷ pam_acct_mgmt ∷ pam_end false ∷ [])
    else (true, pam_start ∷ pam_authenticate ∷ pam_acct_mgmt ∷ pam_end true ∷ [])

-- `handle_method_call`, on the method's name and its two strings: the value that the caller gets, where
-- it gets one.
unfoldable pub handle_method_call : Pam → Bytes → Bytes → Bytes → Option Bool
handle_method_call pam method_name first second =
    if str_eq method_name (codes "AuthenticateUser")
    then some (perform_pam_auth pam first second).0
    else if str_eq method_name (codes "RequestPermissionConsent")
    then some true
    else none

-- How often a log ends a session, and what its last call tells PAM, where it is the end of one.
abbrev pub ends : List Call → ℕ
ends [] = 0
ends (pam_end b ∷ cs) = suc (ends cs)
ends (_ ∷ cs) = ends cs

abbrev pub last_end : List Call → Option Bool
last_end [] = none
last_end (pam_end b ∷ []) = some b
last_end (_ ∷ cs) = last_end cs

-- A user is let in exactly if PAM started, took the password and accepts the account, and each session
-- that PAM started is ended once, with the result that the caller gets, while none is ended that did
-- not start.
pub perform_pam_auth_lem :
    (pam : Pam) (user password : Bytes)
    → let (ok, calls) = perform_pam_auth pam user password in
      ((ok ≡ true) ↔ (
        (pam.starts user ≡ true)
        × (pam.authenticates user password ≡ true)
        × (pam.manages user ≡ true)))
      × (ends calls ≡ (if pam.starts user then 1 else 0))
      × (last_end calls ≡ (if pam.starts user then some ok else none))
unfolding perform_pam_auth
perform_pam_auth_lem pam user password = ground arith

reply-prompt :
    (pass : Bytes) (s : Style)
    → (reply_to (some pass) s ≡ some pass) ↔ ((s ≡ prompt_echo_off) ⊎ (s ≡ prompt_echo_on))
reply-prompt pass prompt_echo_off = ground arith
reply-prompt pass prompt_echo_on = ground arith
reply-prompt pass error_msg = ground arith
reply-prompt pass text_info = ground arith

length-map : (f : Style → Option Bytes) (msg : List Style) → length (map f msg) ≡ length msg
length-map f [] = refl
length-map f (m ∷ ms) = ap suc (length-map f ms)

get_elem?-map :
    (f : Style → Option Bytes) (msg : List Style) (i : ℕ) (s : Style)
    → get_elem? msg i ≡ some s
    → get_elem? (map f msg) i ≡ some (f s)
get_elem?-map f [] i s h = ground arith
get_elem?-map f (m ∷ ms) zero s h = ground arith
get_elem?-map f (m ∷ ms) (suc i) s h = get_elem?-map f ms i s h

answered :
    (n : ℕ) (msg : List Style) (pass : Bytes)
    → 1 ≤ n
    → n ≤ 32
    → length msg ≡ n
    → pam_conv_cb true (pos n) msg (some pass) ≡ (pam_success, map (reply_to (some pass)) msg)
unfolding pam_conv_cb
answered zero msg pass h k e = absurd (omega arith)
answered (suc n) msg pass h k e = ground (arith, take_all (suc n) msg (omega arith))

-- Where PAM asks 1 to 32 messages and memory is there, its conversation answers as many as it was
-- asked, and gives the password to the prompts only: a reply is the password exactly if its message
-- is a prompt, with or without echo.
pub pam_conv_cb_lem :
    (n : ℕ) (msg : List Style) (pass : Bytes)
    → 1 ≤ n
    → n ≤ 32
    → length msg ≡ n
    → let (code, replies) = pam_conv_cb true (pos n) msg (some pass) in
      (code ≡ pam_success)
      × (length replies ≡ n)
      × ((i : ℕ) (s : Style)
          → get_elem? msg i ≡ some s
          → (get_elem? replies i ≡ some (some pass))
            ↔ ((s ≡ prompt_echo_off) ⊎ (s ≡ prompt_echo_on)))
pam_conv_cb_lem n msg pass h k e = rw (answered n msg pass h k e) (
  refl,
  length-map (reply_to (some pass)) msg ∙ e,
  λ i s found.
      let reply = get_elem?-map (reply_to (some pass)) msg i s found in
      let prompt = reply-prompt pass s in
      (λ r. prompt.0 (ground (arith, reply, r)), λ p. reply ∙ ap some (prompt.1 p)),
)
