-- ===== src/Crypto/Signature.antt =====
-- core/libtizen-core/src/signature.c. A function gives a value where it returns true, and none where
-- it returns false. The allocations that the source does not check are taken to succeed; `malloc` of
-- the signature that is read is checked, and may fail.
use tizen_os.Base.{Option, none, some, [], ◌∷◌, ◌==◌, if◌then◌else◌, length, take}
use tizen_os.Crypto.{
  Md, Openssl, Files, M, ◌>>=◌, ◌>>◌, return, attempt, obtain, does, whether, update_all, file,
  context, release, evp_sha256, acquire, key, memory, write_out,
}
use tizen_os.Libc.Lines.{chunks}
use tizen_os.Libc.{Bytes}

pub data TizenSignatureAlgorithm : Type 0 where
  tizen_sig_ed25519 tizen_sig_rsa_pss tizen_sig_ecdsa_p256 : TizenSignatureAlgorithm

-- `md` in both functions: Ed25519 hashes by itself.
abbrev pub md_of : TizenSignatureAlgorithm → Option Md
md_of tizen_sig_ed25519 = none
md_of _ = some evp_sha256

-- What `fread` leaves in the buffer, where it reads as many bytes as `ftell` told.
unfoldable pub read_signature : Files → Bytes → Bytes → Option Bytes
read_signature files path bytes =
    let sig_len = files.told path in
    if length (take sig_len bytes) == sig_len then some (take sig_len bytes) else none

module _ {Ctx Key : Type 0} (ssl : Openssl Ctx Key) (files : Files) where
  abbrev load_key : (Bytes → Option Key) → Bytes → M Key
  load_key read path = do
    pem ← obtain file (files.content path) []
    does (release file ∷ [])
    obtain key (read pem) []

  unfoldable pub load_public_key : Bytes → M Key
  load_public_key = load_key ssl.read_public

  unfoldable pub load_private_key : Bytes → M Key
  load_private_key = load_key ssl.read_private

  abbrev padded : TizenSignatureAlgorithm → Ctx → Ctx
  padded tizen_sig_rsa_pss ctx = ssl.set_pss ctx
  padded _ ctx = ctx

  -- `malloc` and `fread` stand in one test; where the first fails, `free` gets NULL.
  unfoldable pub load_signature : Bytes → M Bytes
  load_signature sig_path = do
    sig ← obtain file (files.content sig_path) (release key ∷ [])
    obtain memory (whether (files.allocates (files.told sig_path)))
        (release file ∷ release key ∷ [])
    sig_buf ←
        attempt (read_signature files sig_path sig)
          (release file ∷ release memory ∷ release key ∷ [])
    does (release file ∷ [])
    return sig_buf

  -- `tizen_signature_verify_file`
  unfoldable pub tizen_signature_verify_file :
      Option Bytes → Option Bytes → Option Bytes → TizenSignatureAlgorithm → M (Unit {0})
  tizen_signature_verify_file (some data_path) (some sig_path) (some pubkey_pem_path) algo t =
      (do
        pkey ← load_public_key pubkey_pem_path
        sig_buf ← load_signature sig_path
        does (acquire context ∷ [])
        ctx ←
            attempt (ssl.verify_init (md_of algo) pkey)
              (release memory ∷ release context ∷ release key ∷ [])
        content ←
            obtain file (files.content data_path)
              (release memory ∷ release context ∷ release key ∷ [])
        full ←
            attempt (update_all ssl.verify_update (chunks 8192 content) (padded algo ctx))
              (release file ∷ release memory ∷ release context ∷ release key ∷ [])
        does (release file ∷ release memory ∷ release context ∷ release key ∷ [])
        attempt (whether (ssl.verify_final full sig_buf)) [])
        t
  tizen_signature_verify_file _ _ _ algo t = (none, t)

  -- What `tizen_signature_sign_file` does before it opens its output: the signature.
  unfoldable pub make_signature : Option Md → Bytes → Bytes → M Bytes
  make_signature md data_path privkey_pem_path = do
    pkey ← load_private_key privkey_pem_path
    does (acquire context ∷ [])
    ctx ← attempt (ssl.sign_init md pkey) (release context ∷ release key ∷ [])
    content ← obtain file (files.content data_path) (release context ∷ release key ∷ [])
    full ←
        attempt (update_all ssl.sign_update (chunks 8192 content) ctx)
          (release file ∷ release context ∷ release key ∷ [])
    does (release file ∷ [])
    sig_len ← attempt (ssl.sign_length full) (release context ∷ release key ∷ [])
    does (acquire memory ∷ [])
    attempt (ssl.sign_final full) (release memory ∷ release context ∷ release key ∷ [])

  -- `tizen_signature_sign_file`
  unfoldable pub tizen_signature_sign_file :
      Option Bytes → Option Bytes → Option Bytes → TizenSignatureAlgorithm → M (Unit {0})
  tizen_signature_sign_file (some data_path) (some privkey_pem_path) (some out_sig_path) algo t =
      (do
        sig_buf ← make_signature (md_of algo) data_path privkey_pem_path
        (if files.can_write out_sig_path then write_out out_sig_path sig_buf else return tt)
        does (release memory ∷ release context ∷ release key ∷ []))
        t
  tizen_signature_sign_file _ _ _ algo t = (none, t)
