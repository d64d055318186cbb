-- ===== src/Crypto/Tool.antt =====
-- The three commands of tools/signFile/src/main.c one after another, on the files as each leaves them.
mod Tests
use tizen_os.Base.{
  ◌≡◌, false, some, [], ◌∷◌, Option, ℕ, zero, suc, ◌+◌, ◌-◌, ◌*◌, ◌/◌, ◌%◌, ◌^◌, ◌≤◌, ◌<◌, min,
  refl, sym, ap, ◌∙◌, ◌≢◌, ◌↔◌, ◌⊎◌, inl, inr, Bool, not, ◌&&◌, ◌||◌, none, List, ◌++◌, map,
  append_assoc, append-nil, ltb, leb, ◌==◌, if◌then◌else◌, ==_iff, Bool-cases, Option-cases, take,
  drop, get_elem?, set, All, join, length-append, take-append-drop, length-take, length-drop,
}
use tizen_os.Crypto.{Openssl, Files, Trace}
use tizen_os.Crypto.SignFile.{Ended, main}
use tizen_os.Crypto.Laws.{fresh}
use tizen_os.Libc.{Bytes, str_eq, codes}

-- What the two files of a key pair are read back as.
pub record IsPair {Ctx Key : Type 0} (ssl : Openssl Ctx Key) (key priv public : Key) : Type 0 where
  pub private_read : ssl.read_private (ssl.pem_private key) ≡ some priv
  pub public_read : ssl.read_public (ssl.pem_public key) ≡ some public

-- No two of the four paths are one file.
pub record AreApart (data_path priv_path pub_path sig_path : Bytes) : Type 0 where
  pub data_priv : str_eq data_path priv_path ≡ false
  pub data_pub : str_eq data_path pub_path ≡ false
  pub data_sig : str_eq data_path sig_path ≡ false
  pub priv_pub : str_eq priv_path pub_path ≡ false
  pub pub_sig : str_eq pub_path sig_path ≡ false

module _ {Ctx Key : Type 0} (ssl : Openssl Ctx Key) (now : Files) where
  -- The commands, each on the files as they are then.
  abbrev pub keygen_run : Bytes → Bytes → Bytes → Option Ended × Trace
  keygen_run priv_path pub_path algo =
      main ssl now (codes "keygen" ∷ priv_path ∷ pub_path ∷ algo ∷ []) fresh

  abbrev pub sign_run : Bytes → Bytes → Bytes → Bytes → Option Ended × Trace
  sign_run data_path priv_path sig_path algo =
      main ssl now (codes "sign" ∷ data_path ∷ priv_path ∷ sig_path ∷ algo ∷ []) fresh

  abbrev pub verify_run : Bytes → Bytes → Bytes → Bytes → Option Ended × Trace
  verify_run data_path sig_path pub_path algo =
      main ssl now (codes "verify" ∷ data_path ∷ sig_path ∷ pub_path ∷ algo ∷ []) fresh
