-- ===== src/Crypto/OneShot.antt =====
-- core/libtizen-core/src/signature.c and tools/signFile/src/main.c with Ed25519 as OpenSSL documents it: a key of
-- that kind signs and verifies in one call of `EVP_DigestSign` and `EVP_DigestVerify` only, and the calls that
-- take the bytes in pieces fail. The code makes those calls with every algorithm.
use tizen_os.Base.{
  ◌≡◌, ap, ◌∙◌, ◌⊎◌, inl, inr, false, Option, none, some, List, [], ◌∷◌, arith, Option-cases,
}
use tizen_os.Crypto.{Openssl, Files, update_all}
use tizen_os.Crypto.Signature.{
  tizen_signature_verify_file, tizen_signature_sign_file, make_signature, load_public_key,
  load_private_key, load_signature, read_signature, tizen_sig_ed25519,
}
use tizen_os.Crypto.SignFile.{do_sign, do_verify, get_md_by_algo}
use tizen_os.Crypto.Laws.{fresh}
use tizen_os.Libc.Lines.{chunks}
use tizen_os.Libc.{Bytes, codes, str_case_eq, to_lower}

-- A private and a public key that OpenSSL uses in one call only: a context that it gives for one of them
-- takes no update and comes to no end.
pub record IsOneShot {Ctx Key : Type 0} (ssl : Openssl Ctx Key) (priv public : Key) : Type 0 where
  pub sign_update_fails :
      (ctx : Ctx) (bytes : Bytes)
      → ssl.sign_init none priv ≡ some ctx
      → ssl.sign_update ctx bytes ≡ none
  pub sign_length_fails :
      (ctx : Ctx) → ssl.sign_init none priv ≡ some ctx → ssl.sign_length ctx ≡ none
  pub verify_update_fails :
      (ctx : Ctx) (bytes : Bytes)
      → ssl.verify_init none public ≡ some ctx
      → ssl.verify_update ctx bytes ≡ none
  pub verify_final_fails :
      (ctx : Ctx) (sig : Bytes)
      → ssl.verify_init none public ≡ some ctx
      → ssl.verify_final ctx sig ≡ false

-- Where every update fails, the loop gets to its end only if there is nothing to read.
update_all_stays :
    {Ctx : Type 0} (update : Ctx → Bytes → Option Ctx) (c full : Ctx)
    → ((bytes : Bytes) → update c bytes ≡ none)
    → (bs : List Bytes) → update_all update bs c ≡ some full
    → full ≡ c
unfolding update_all
update_all_stays update c full h [] e = ground (arith, e)
update_all_stays update c full h (b ∷ bs) e = let fails = h b in absurd (ground arith)

module _ {Ctx Key : Type 0} (ssl : Openssl Ctx Key) (files : Files) where
  make_signature_fails :
      (data_path priv_path pem : Bytes) (priv public : Key)
      → files.content priv_path ≡ some pem
      → ssl.read_private pem ≡ some priv
      → IsOneShot ssl priv public
      → let made = make_signature ssl files none data_path priv_path fresh in
        (made.0 ≡ none) × (made.1.written ≡ [])
  unfolding make_signature load_private_key
  make_signature_fails data_path priv_path pem priv public h k one =
      elim (Option-cases (ssl.sign_init none priv)) [
        | inl e ↦ ground arith
        | inr (ctx, e) ↦ elim (Option-cases (files.content data_path)) [
          | inl e2 ↦ ground arith
          | inr (content, e2) ↦
              elim (Option-cases (update_all ssl.sign_update (chunks 8192 content) ctx)) [
                | inl e3 ↦ ground arith
                | inr (full, e3) ↦
                    let stays =
                      update_all_stays ssl.sign_update ctx full
                        (λ bytes. one.sign_update_fails ctx bytes e) (chunks 8192 content) e3 in
                    let ends = ap ssl.sign_length stays ∙ one.sign_length_fails ctx e in
                    ground (arith, ends)
              ]
        ]
      ]

  -- The bytes are not taken, or what they leave verifies no signature.
  never_verifies :
      (content sig : Bytes) (ctx : Ctx) (priv public : Key)
      → IsOneShot ssl priv public
      → ssl.verify_init none public ≡ some ctx
      → (update_all ssl.verify_update (chunks 8192 content) ctx ≡ none)
        ⊎ ((full : Ctx) × (update_all ssl.verify_update (chunks 8192 content) ctx ≡ some full)
            × (ssl.verify_final full sig ≡ false))
  never_verifies content sig ctx priv public one e =
      elim (Option-cases (update_all ssl.verify_update (chunks 8192 content) ctx)) [
        | inl none_left ↦ inl none_left
        | inr (full, left) ↦
            let stays =
              update_all_stays ssl.verify_update ctx full
                (λ bytes. one.verify_update_fails ctx bytes e) (chunks 8192 content) left in
            inr (
              full,
              left,
              ap (λ c. ssl.verify_final c sig) stays ∙ one.verify_final_fails ctx sig e,
            )
      ]

  library_verify_fails :
      (data_path pub_path sig_path pem : Bytes) (priv public : Key)
      → files.content pub_path ≡ some pem
      → ssl.read_public pem ≡ some public
      → IsOneShot ssl priv public
      → (tizen_signature_verify_file ssl files
          (some data_path)
          (some sig_path)
          (some pub_path)
          tizen_sig_ed25519
          fresh).0
        ≡ none
  unfolding tizen_signature_verify_file load_public_key load_signature
  library_verify_fails d p o pem priv public h k one = elim (Option-cases (files.content o)) [
    | inl e ↦ ground arith
    | inr (read, e) ↦ elim (Option-cases (read_signature files o read)) [
      | inl e2 ↦ ground arith
      | inr (sig, e2) ↦ elim (Option-cases (ssl.verify_init none public)) [
        | inl e3 ↦ ground arith
        | inr (ctx, e3) ↦ elim (Option-cases (files.content d)) [
          | inl e4 ↦ ground arith
          | inr (content, e4) ↦ elim (never_verifies content sig ctx priv public one e3) [
            | inl e5 ↦ ground arith
            | inr (full, e5, e6) ↦ ground arith
          ]
        ]
      ]
    ]
  ]

  tool_verify_fails :
      (data_path pub_path sig_path pem : Bytes) (priv public : Key)
      → files.content pub_path ≡ some pem
      → ssl.read_public pem ≡ some public
      → IsOneShot ssl priv public
      → (do_verify ssl files data_path sig_path pub_path (codes "ed25519") fresh).0 ≡ none
  unfolding do_verify get_md_by_algo str_case_eq to_lower load_public_key load_signature
  tool_verify_fails d p o pem priv public h k one = elim (Option-cases (files.content o)) [
    | inl e ↦ ground arith
    | inr (read, e) ↦ elim (Option-cases (read_signature files o read)) [
      | inl e2 ↦ ground arith
      | inr (sig, e2) ↦ elim (Option-cases (ssl.verify_init none public)) [
        | inl e3 ↦ ground arith
        | inr (ctx, e3) ↦ elim (Option-cases (files.content d)) [
          | inl e4 ↦ ground arith
          | inr (content, e4) ↦ elim (never_verifies content sig ctx priv public one e3) [
            | inl e5 ↦ ground arith
            | inr (full, e5, e6) ↦ ground arith
          ]
        ]
      ]
    ]
  ]

  library_sign_fails :
      (data_path priv_path sig_path pem : Bytes) (priv public : Key)
      → files.content priv_path ≡ some pem
      → ssl.read_private pem ≡ some priv
      → IsOneShot ssl priv public
      → let signed =
          tizen_signature_sign_file ssl files
            (some data_path)
            (some priv_path)
            (some sig_path)
            tizen_sig_ed25519
            fresh in
        (signed.0 ≡ none) × (signed.1.written ≡ [])
  unfolding tizen_signature_sign_file
  library_sign_fails d k o pem priv public h1 h2 one =
      let made = make_signature_fails d k pem priv public h1 h2 one in
      ground (arith, made.0, made.1)

  tool_sign_fails :
      (data_path priv_path sig_path pem : Bytes) (priv public : Key)
      → files.content priv_path ≡ some pem
      → ssl.read_private pem ≡ some priv
      → IsOneShot ssl priv public
      → let signed = do_sign ssl files data_path priv_path sig_path (codes "ed25519") fresh in
        (signed.0 ≡ none) × (signed.1.written ≡ [])
  unfolding do_sign get_md_by_algo str_case_eq to_lower
  tool_sign_fails d k o pem priv public h1 h2 one =
      let made = make_signature_fails d k pem priv public h1 h2 one in
      ground (arith, made.0, made.1)

  -- With keys that OpenSSL uses in one call only, as it documents of Ed25519, signing with Ed25519 fails
  -- in the library and in signFile, whatever the file is and wherever the signature is to go, and
  -- writes nothing; and no signature verifies in either, whatever it is.
  pub one_shot_lem :
      (data_path priv_path pub_path sig_path pem_private pem_public : Bytes) (priv public : Key)
      → files.content priv_path ≡ some pem_private
      → files.content pub_path ≡ some pem_public
      → ssl.read_private pem_private ≡ some priv
      → ssl.read_public pem_public ≡ some public
      → IsOneShot ssl priv public
      → let signed =
          tizen_signature_sign_file ssl files
            (some data_path)
            (some priv_path)
            (some sig_path)
            tizen_sig_ed25519
            fresh in
        let by_tool = do_sign ssl files data_path priv_path sig_path (codes "ed25519") fresh in
        (signed.0 ≡ none)
        × (signed.1.written ≡ [])
        × (by_tool.0 ≡ none)
        × (by_tool.1.written ≡ [])
        × ((tizen_signature_verify_file ssl files
              (some data_path)
              (some sig_path)
              (some pub_path)
              tizen_sig_ed25519
              fresh).0
            ≡ none)
        × ((do_verify ssl files data_path sig_path pub_path (codes "ed25519") fresh).0 ≡ none)
  one_shot_lem d k p o pem_k pem_p priv public h1 h2 h3 h4 one =
      let library = library_sign_fails d k o pem_k priv public h1 h3 one in
      let tool = tool_sign_fails d k o pem_k priv public h1 h3 one in
      (
        library.0,
        library.1,
        tool.0,
        tool.1,
        library_verify_fails d p o pem_p priv public h2 h4 one,
        tool_verify_fails d p o pem_p priv public h2 h4 one,
      )
