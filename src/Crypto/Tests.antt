-- ===== src/Crypto/Tests.antt =====
-- The theorems of `Crypto` on the machine of `Toy`.
use tizen_os.Base.{◌≡◌, refl, ◌≢◌, ◌↔◌, true, none, some, List, [], ◌∷◌, arith}
use tizen_os.Crypto.Checksum.{
  tizen_checksum_file, tizen_checksum_buffer, tizen_checksum_verify_file, tizen_hash_sha256,
}
use tizen_os.Crypto.Signature.{
  tizen_signature_verify_file, tizen_signature_sign_file, tizen_sig_rsa_pss, make_signature,
  load_private_key,
}
use tizen_os.Crypto.SignFile.{main, do_sign, null_file}
use tizen_os.Crypto.Laws.{fresh, IsBalanced, main-IsBalanced, library-IsBalanced}
use tizen_os.Crypto.RoundTrip.{after, checksum_file-buffer}
use tizen_os.Crypto.Pss.{pss_never_verifies}
use tizen_os.Crypto.Hex.{unhex, checksum_verify_file_iff}
use tizen_os.Libc.{Bytes, codes, str_eq}
use tizen_os.Crypto.Toy.{
  toy_ssl, toy_files, reads-IsStreaming, reads-StreamsHashed, pss_ssl, pss-Signs, pss_rejects,
}

pss_never_verifies_example :
    let signed =
      tizen_signature_sign_file pss_ssl toy_files
        (some (codes "app.tpk"))
        (some (codes "key.pem"))
        (some (codes "app.sig"))
        tizen_sig_rsa_pss
        fresh in
    (signed.0 ≡ some tt)
    × (signed.1.written ≡ (codes "app.sig", codes "hell") ∷ [])
    × ((tizen_signature_verify_file pss_ssl
          (after toy_files signed.1.written)
          (some (codes "app.tpk"))
          (some (codes "app.sig"))
          (some (codes "key.pem"))
          tizen_sig_rsa_pss
          fresh).0
        ≡ none)
unfolding str_eq pss-Signs
pss_never_verifies_example =
    pss_never_verifies pss_ssl toy_files reads-StreamsHashed (codes "app.tpk") (codes "key.pem")
      (codes "key.pem") (codes "app.sig") (codes "hello") (codes "key") (codes "key") (codes "hell")
      (codes "key") (codes "key") refl refl refl refl refl refl refl refl refl pss-Signs pss_rejects

abbrev signing : List Bytes
signing = codes "sign" ∷ codes "app.tpk" ∷ codes "key.pem" ∷ codes "app.sig" ∷ codes "ed25519" ∷ []

main_succeeds : (main toy_ssl toy_files signing fresh).0 ≢ some null_file
unfolding main do_sign make_signature load_private_key str_eq
main_succeeds h = ground arith

main-IsBalanced_example : IsBalanced (main toy_ssl toy_files signing fresh).1
main-IsBalanced_example = main-IsBalanced toy_ssl toy_files signing main_succeeds

library-IsBalanced_example :
    IsBalanced
      (tizen_signature_verify_file toy_ssl toy_files
        (some (codes "app.tpk"))
        none
        (some (codes "key.pem"))
        tizen_sig_rsa_pss
        fresh).1
    × IsBalanced
        (tizen_signature_sign_file toy_ssl toy_files
          (some (codes "app.tpk"))
          (some (codes "key.pem"))
          (some (codes "app.sig"))
          tizen_sig_rsa_pss
          fresh).1
    × IsBalanced
        (tizen_checksum_file toy_ssl toy_files
          (some (codes "app.tpk"))
          tizen_hash_sha256
          true
          fresh).1
library-IsBalanced_example =
    library-IsBalanced toy_ssl toy_files (some (codes "app.tpk")) none (some (codes "key.pem"))
      (some (codes "app.sig")) tizen_sig_rsa_pss tizen_hash_sha256 true

checksum_file-buffer_example :
    (tizen_checksum_file toy_ssl toy_files (some (codes "app.tpk")) tizen_hash_sha256 true fresh).0
    ≡ (tizen_checksum_buffer toy_ssl toy_files
        (some (codes "hello"))
        tizen_hash_sha256
        true
        fresh).0
unfolding str_eq
checksum_file-buffer_example =
    checksum_file-buffer toy_ssl toy_files reads-IsStreaming (codes "app.tpk") (codes "hello")
      tizen_hash_sha256 true refl

checksum_verify_file_iff_example :
    ((tizen_checksum_verify_file toy_ssl toy_files
        (some (codes "app.tpk"))
        tizen_hash_sha256
        (some (codes "68656C6c"))
        fresh).0
      ≡ some true)
    ↔ (unhex (codes "68656C6c") ≡ some (codes "hell"))
unfolding str_eq
checksum_verify_file_iff_example =
    checksum_verify_file_iff toy_ssl toy_files reads-IsStreaming (codes "app.tpk") (codes "hello")
      (codes "68656C6c") (codes "hell") tizen_hash_sha256 [] (codes "hello") refl refl refl refl
      refl (ground arith)
