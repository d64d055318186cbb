-- ===== src/Crypto/Tool/Tests.antt =====
-- The theorems of `Tool` and `OneShot` on the machine of `Toy`.
use tizen_os.Crypto.SignFile.{do_verify}
use tizen_os.Crypto.OneShot.{IsOneShot, one_shot_lem}
use tizen_os.Base.{◌≡◌, refl, none, some, [], false}
use tizen_os.Crypto.{Openssl}
use tizen_os.Crypto.Signature.{
  tizen_signature_verify_file, tizen_signature_sign_file, tizen_sig_ed25519,
}
use tizen_os.Crypto.SignFile.{do_sign}
use tizen_os.Crypto.Laws.{fresh}
use tizen_os.Libc.{Bytes, codes, str_eq}
use tizen_os.Crypto.Toy.{toy_ssl, toy_files}

-- An OpenSSL that takes no bytes in pieces.
abbrev strict_ssl : Openssl Bytes Bytes
strict_ssl = record toy_ssl {
  sign_update = λ c bytes. none;
  sign_length = λ c. none;
  verify_update = λ c bytes. none;
  verify_final = λ c sig. false;
}

key-IsOneShot : IsOneShot strict_ssl (codes "key") (codes "key")
key-IsOneShot = record {
  sign_update_fails = λ ctx bytes e. refl;
  sign_length_fails = λ ctx e. refl;
  verify_update_fails = λ ctx bytes e. refl;
  verify_final_fails = λ ctx sig e. refl;
}

one_shot_lem_example :
    let signed =
      tizen_signature_sign_file strict_ssl toy_files
        (some (codes "app.tpk"))
        (some (codes "key.pem"))
        (some (codes "app.sig"))
        tizen_sig_ed25519
        fresh in
    let by_tool =
      do_sign strict_ssl toy_files
        (codes "app.tpk")
        (codes "key.pem")
        (codes "app.sig")
        (codes "ed25519")
        fresh in
    (signed.0 ≡ none)
    × (signed.1.written ≡ [])
    × (by_tool.0 ≡ none)
    × (by_tool.1.written ≡ [])
    × ((tizen_signature_verify_file strict_ssl toy_files
          (some (codes "app.tpk"))
          (some (codes "app.sig"))
          (some (codes "key.pem"))
          tizen_sig_ed25519
          fresh).0
        ≡ none)
    × ((do_verify strict_ssl toy_files
          (codes "app.tpk")
          (codes "app.sig")
          (codes "key.pem")
          (codes "ed25519")
          fresh).0
        ≡ none)
unfolding str_eq
one_shot_lem_example =
    one_shot_lem strict_ssl toy_files (codes "app.tpk") (codes "key.pem") (codes "key.pem")
      (codes "app.sig") (codes "key") (codes "key") (codes "key") (codes "key") refl refl refl refl
      key-IsOneShot
