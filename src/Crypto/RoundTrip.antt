-- ===== src/Crypto/RoundTrip.antt =====
-- What the functions of `Checksum` and `Signature` compute, where OpenSSL behaves as it is documented:
-- an update may be cut into several, and a signature made with a private key verifies with its public
-- key, over the same bytes and the same digest.
use tizen_os.Base.{
  ◌≡◌, refl, inl, inr, Bool, true, false, some, List, [], ◌∷◌, arith, if◌then◌else◌, Option-cases,
  length,
}
use tizen_os.Crypto.{Openssl, Files, evp_sha256}
use tizen_os.Crypto.Checksum.{tizen_checksum_file, tizen_checksum_buffer, TizenHashType, get_evp_md}
use tizen_os.Crypto.Signature.{
  tizen_signature_sign_file, make_signature, load_private_key, TizenSignatureAlgorithm, md_of,
}
use tizen_os.Crypto.Streaming.{IsStreaming, StreamsHashed, update_chunks, update_chunks_from}
use tizen_os.Crypto.Laws.{fresh}
use tizen_os.Libc.Laws.{str_eq_iff}
use tizen_os.Libc.{Bytes, str_eq}

module _ {Ctx Key : Type 0} (ssl : Openssl Ctx Key) (files : Files) where
  -- Where the updates of a digest may be cut anywhere, the checksum of a file that can be read is
  -- the checksum of its bytes in memory, in success and in failure, however long the file is.
  pub checksum_file-buffer :
      IsStreaming ssl.digest_update
      → (filepath content : Bytes) (type : TizenHashType) (out : Bool)
      → files.content filepath ≡ some content
      → (tizen_checksum_file ssl files (some filepath) type out fresh).0
        ≡ (tizen_checksum_buffer ssl files (some content) type out fresh).0
  unfolding tizen_checksum_file tizen_checksum_buffer
  checksum_file-buffer law filepath content type false e = refl
  checksum_file-buffer law filepath content type true e =
      elim (Option-cases (ssl.digest_init (get_evp_md type))) [
        | inl none_made ↦ ground arith
        | inr (ctx, made) ↦ ground (arith, update_chunks ssl.digest_update law content ctx)
      ]

-- That OpenSSL signs some bytes with a private key, over SHA-256, and that what it makes verifies with a
-- public key.
pub record Signs {Ctx Key : Type 0} (ssl : Openssl Ctx Key) (priv public : Key) (bytes sig : Bytes)
    : Type 0 where
  pub sign_ctx : Ctx
  pub sign_full : Ctx
  pub verify_ctx : Ctx
  pub verify_full : Ctx
  pub sign_starts : ssl.sign_init (some evp_sha256) priv ≡ some sign_ctx
  pub sign_reads : ssl.sign_update sign_ctx bytes ≡ some sign_full
  pub sign_ends : ssl.sign_final sign_full ≡ some sig
  pub sign_told : ssl.sign_length sign_full ≡ some (length sig)
  pub verify_starts : ssl.verify_init (some evp_sha256) public ≡ some verify_ctx
  pub verify_reads : ssl.verify_update verify_ctx bytes ≡ some verify_full
  pub verify_ends : ssl.verify_final verify_full sig ≡ true

-- The files after some are written.
unfoldable pub after : Files → List (Bytes × Bytes) → Files
after files [] = files
after files ((path, bytes) ∷ ws) =
    after
      (record files {
        content = λ p. if str_eq p path then some bytes else files.content p;
        told = λ p. if str_eq p path then length bytes else files.told p;
      })
      ws

pub str_eq_refl : (s : Bytes) → str_eq s s ≡ true
str_eq_refl s = (str_eq_iff s s).1 refl

module _ {Ctx Key : Type 0} (ssl : Openssl Ctx Key) (files : Files) where
  pub signs :
      (data_path privkey sig_path content pem sig : Bytes) (priv public : Key)
      → (algo : TizenSignatureAlgorithm) → md_of algo ≡ some evp_sha256
      → StreamsHashed ssl.sign_init ssl.sign_update
      → files.content data_path ≡ some content
      → files.content privkey ≡ some pem
      → files.can_write sig_path ≡ true
      → ssl.read_private pem ≡ some priv
      → Signs ssl priv public content sig
      → let signed =
          tizen_signature_sign_file ssl files
            (some data_path)
            (some privkey)
            (some sig_path)
            algo
            fresh in
        (signed.0 ≡ some tt) × (signed.1.written ≡ (sig_path, sig) ∷ [])
  unfolding tizen_signature_sign_file make_signature load_private_key
  signs d k o content pem sig priv public algo m law h1 h2 h3 h4 s =
      let streams = law evp_sha256 priv s.sign_ctx s.sign_starts in
      let read = update_chunks_from ssl.sign_update s.sign_ctx streams content in
      rw m (ground (arith, read, s.sign_starts, s.sign_reads, s.sign_ends, s.sign_told))
