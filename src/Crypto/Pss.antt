-- ===== src/Crypto/Pss.antt =====
-- What signature.c does with RSA-PSS: verifying sets the padding, and signing does not.
use tizen_os.Base.{
  ◌≡◌, refl, inl, inr, true, false, none, some, List, [], ◌∷◌, arith, Option-cases, length,
  take_all,
}
use tizen_os.Crypto.{Openssl, Files, update_all}
use tizen_os.Crypto.Signature.{
  tizen_signature_verify_file, tizen_signature_sign_file, load_signature, load_public_key,
  read_signature, tizen_sig_rsa_pss,
}
use tizen_os.Crypto.Laws.{fresh}
use tizen_os.Libc.Lines.{chunks}
use tizen_os.Libc.{Bytes, str_eq}
use tizen_os.Crypto.Streaming.{StreamsHashed}
use tizen_os.Crypto.RoundTrip.{Signs, signs, after, str_eq_refl}

module _ {Ctx Key : Type 0} (ssl : Openssl Ctx Key) (files : Files) where
  pss_rejected :
      (data_path pubkey sig_path content pem sig : Bytes) (priv public : Key)
      → files.content data_path ≡ some content
      → files.content pubkey ≡ some pem
      → files.content sig_path ≡ some sig
      → files.told sig_path ≡ length sig
      → files.allocates (length sig) ≡ true
      → ssl.read_public pem ≡ some public
      → (s : Signs ssl priv public content sig)
      → ((bs : List Bytes) (full : Ctx)
          → update_all ssl.verify_update bs (ssl.set_pss s.verify_ctx) ≡ some full
          → ssl.verify_final full sig ≡ false)
      → (tizen_signature_verify_file ssl files
          (some data_path)
          (some sig_path)
          (some pubkey)
          tizen_sig_rsa_pss
          fresh).0
        ≡ none
  unfolding tizen_signature_verify_file load_public_key load_signature read_signature
  pss_rejected d p o content pem sig priv public h1 h2 h3 h4 h5 h6 s h =
      let whole = take_all (length sig) sig (omega arith) in
      let update = update_all ssl.verify_update (chunks 8192 content) (ssl.set_pss s.verify_ctx) in
      elim (Option-cases update) [
        | inl e ↦ ground (arith, e, whole, s.verify_starts)
        | inr (full, e) ↦
            let rejects = h (chunks 8192 content) full e in
            ground (arith, e, rejects, whole, s.verify_starts)
      ]

module _ {Ctx Key : Type 0} (ssl : Openssl Ctx Key) (files : Files)
    (sign_law : StreamsHashed ssl.sign_init ssl.sign_update) where
  -- What the library signs as RSA-PSS it does not verify as RSA-PSS: where OpenSSL signs the bytes of the
  -- file over SHA-256, in pieces cut anywhere, and would accept the signature without the padding, and
  -- a context that is set to PSS accepts no signature that was made without it, whatever bytes it is
  -- given, the files are readable, memory is there for the signature, and the signature's path is
  -- writable and none of the other two, signing reports success and writes one file, the signature, and
  -- verifying, on the files as they are then, reports failure.
  pub pss_never_verifies :
      (data_path privkey pubkey sig_path content pem_private pem_public sig : Bytes)
      → (priv public : Key) → files.content data_path ≡ some content
      → files.content privkey ≡ some pem_private
      → files.content pubkey ≡ some pem_public
      → files.can_write sig_path ≡ true
      → files.allocates (length sig) ≡ true
      → str_eq data_path sig_path ≡ false
      → str_eq pubkey sig_path ≡ false
      → ssl.read_private pem_private ≡ some priv
      → ssl.read_public pem_public ≡ some public
      → (s : Signs ssl priv public content sig)
      → ((bs : List Bytes) (full : Ctx)
          → update_all ssl.verify_update bs (ssl.set_pss s.verify_ctx) ≡ some full
          → ssl.verify_final full sig ≡ false)
      → let signed =
          tizen_signature_sign_file ssl files
            (some data_path)
            (some privkey)
            (some sig_path)
            tizen_sig_rsa_pss
            fresh in
        (signed.0 ≡ some tt)
        × (signed.1.written ≡ (sig_path, sig) ∷ [])
        × ((tizen_signature_verify_file ssl
              (after files signed.1.written)
              (some data_path)
              (some sig_path)
              (some pubkey)
              tizen_sig_rsa_pss
              fresh).0
            ≡ none)
  unfolding after
  pss_never_verifies d k p o content pem_k pem_p sig priv public h2 h3 h4 h5 h6 h7 h8 h9 h10 s h =
      let done =
        signs ssl files d k o content pem_k sig priv public tizen_sig_rsa_pss refl sign_law h2 h3 h5
          h9 s in
      let now = after files ((o, sig) ∷ []) in
      let same = str_eq_refl o in
      let fails =
        pss_rejected ssl now d p o content pem_p sig priv public (ground (arith, h7))
          (ground (arith, h8)) (ground (arith, same)) (ground (arith, same)) h6 h10 s h in
      (done.0, done.1, rw (done.1) fails)
