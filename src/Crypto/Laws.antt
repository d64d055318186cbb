-- ===== src/Crypto/Laws.antt =====
-- What holds of the functions of `Checksum`, `Signature` and `SignFile` that fail or succeed: nothing
-- that they acquire is kept or released twice.
use tizen_os.Base.{
  ◌≡◌, refl, Bool, true, false, Option, none, some, List, [], ◌∷◌, arith, if◌then◌else◌, ◌≢◌,
}
use tizen_os.Crypto.{
  Resource, Op, Openssl, Files, Trace, file, context, release, acquire, key, key_context, memory,
}
use tizen_os.Crypto.Checksum.{tizen_checksum_file, TizenHashType}
use tizen_os.Crypto.Signature.{
  tizen_signature_verify_file, tizen_signature_sign_file, load_signature, make_signature,
  load_public_key, load_private_key, TizenSignatureAlgorithm,
}
use tizen_os.Crypto.SignFile.{null_file, last_of, main, do_keygen, write_keys, do_sign, do_verify}
use tizen_os.Libc.{Bytes, codes}

-- How often a log acquires, and releases, a kind of resource.
same : Resource → Resource → Bool
same file file = true
same context context = true
same key key = true
same key_context key_context = true
same memory memory = true
same _ _ = false

-- What is held after the steps of a log, from what is held before; none where a resource is released
-- that is not held.
take_one : Resource → List Resource → Option (List Resource)
unfolding same
take_one r [] = none
take_one r (x ∷ xs) =
    let rest = take_one r xs in
    if same r x then some xs else elim rest [ none ↦ none | some ys ↦ some (x ∷ ys) ]

pub held : List Op → List Resource → Option (List Resource)
unfolding take_one
held [] rs = some rs
held (acquire r ∷ ops) rs = held ops (r ∷ rs)
held (release r ∷ ops) rs = elim (take_one r rs) [ none ↦ none | some left ↦ held ops left ]

abbrev pub fresh : Trace
fresh = record { ops = []; written = [] }

-- Every acquired resource is released, once, and nothing else is.
abbrev pub IsBalanced : Trace → Type 0
IsBalanced t = held t.ops [] ≡ some []

module _ {Ctx Key : Type 0} (ssl : Openssl Ctx Key) (files : Files) where
  -- Hashing a file closes it and frees the context once, on every path.
  pub checksum_file-IsBalanced :
      (filepath : Option Bytes) (type : TizenHashType) (out : Bool)
      → IsBalanced (tizen_checksum_file ssl files filepath type out fresh).1
  unfolding tizen_checksum_file held take_one same
  checksum_file-IsBalanced none type out = refl
  checksum_file-IsBalanced (some filepath) type false = refl
  checksum_file-IsBalanced (some filepath) type true = ground arith

  -- Verifying a signature closes both files and the file of the key, and frees the key, the context and
  -- the signature, once each, on every path.
  pub verify_file-IsBalanced :
      (data_path sig_path pubkey : Option Bytes) (algo : TizenSignatureAlgorithm)
      → IsBalanced (tizen_signature_verify_file ssl files data_path sig_path pubkey algo fresh).1
  unfolding tizen_signature_verify_file load_public_key load_signature held take_one same
  verify_file-IsBalanced (some d) (some s) (some k) algo = ground arith
  verify_file-IsBalanced none s k algo = refl
  verify_file-IsBalanced (some d) none k algo = refl
  verify_file-IsBalanced (some d) (some s) none algo = refl

  -- Signing a file closes every file that it opened, and frees the key, the context and the signature,
  -- once each, on every path.
  pub sign_file-IsBalanced :
      (data_path privkey out : Option Bytes) (algo : TizenSignatureAlgorithm)
      → IsBalanced (tizen_signature_sign_file ssl files data_path privkey out algo fresh).1
  unfolding tizen_signature_sign_file make_signature load_private_key held take_one same
  sign_file-IsBalanced (some d) (some k) (some o) algo = ground arith
  sign_file-IsBalanced none k o algo = refl
  sign_file-IsBalanced (some d) none o algo = refl
  sign_file-IsBalanced (some d) (some k) none algo = refl

  -- The library's three functions on files close every file that they opened, and free the keys, the
  -- contexts and the blocks of memory that they acquired, once each, on every path: with any argument
  -- NULL, a file that cannot be opened, a signature for which there is no memory or that is read
  -- short, or a call of OpenSSL that fails.
  pub library-IsBalanced :
      (text sig priv out : Option Bytes) (algo : TizenSignatureAlgorithm) (hash : TizenHashType)
      (wants : Bool)
      → IsBalanced (tizen_signature_verify_file ssl files text sig priv algo fresh).1
        × IsBalanced (tizen_signature_sign_file ssl files text priv out algo fresh).1
        × IsBalanced (tizen_checksum_file ssl files text hash wants fresh).1
  library-IsBalanced text sig priv out algo hash wants = (
    verify_file-IsBalanced text sig priv algo,
    sign_file-IsBalanced text priv out algo,
    checksum_file-IsBalanced text hash wants,
  )

  do_sign-IsBalanced :
      (data_path priv_path sig_path algo : Bytes)
      → IsBalanced (do_sign ssl files data_path priv_path sig_path algo fresh).1
  unfolding do_sign make_signature load_private_key held take_one same
  do_sign-IsBalanced d k s algo = ground arith

  do_verify-IsBalanced :
      (data_path sig_path pub_path algo : Bytes)
      → IsBalanced (do_verify ssl files data_path sig_path pub_path algo fresh).1
  unfolding do_verify load_public_key load_signature held take_one same
  do_verify-IsBalanced d s k algo = ground arith

  do_keygen-IsBalanced :
      (priv_path pub_path algo : Bytes)
      → (do_keygen ssl files priv_path pub_path algo fresh).0 ≢ some null_file
      → IsBalanced (do_keygen ssl files priv_path pub_path algo fresh).1
  unfolding do_keygen write_keys held take_one same
  do_keygen-IsBalanced p k algo h = ground arith

  -- Whatever its arguments are, the program closes every file and frees every context, that of the key
  -- generation too, and every key and block of memory that it acquired, once, and frees nothing else,
  -- unless it ends in the generation of keys with a file that could not be opened.
  pub main-IsBalanced :
      (args : List Bytes)
      → (main ssl files args fresh).0 ≢ some null_file
      → IsBalanced (main ssl files args fresh).1
  unfolding main held
  main-IsBalanced [] h = refl
  main-IsBalanced (a ∷ []) h = refl
  main-IsBalanced (a ∷ b ∷ []) h = refl
  main-IsBalanced (mode ∷ first ∷ second ∷ []) h =
      ground (arith, do_keygen-IsBalanced first second (codes "ed25519"))
  main-IsBalanced (mode ∷ first ∷ second ∷ third ∷ more) h =
      let algo = last_of third more in
      ground (
        arith,
        do_sign-IsBalanced first second third algo,
        do_verify-IsBalanced first second third algo,
        do_keygen-IsBalanced first second algo,
      )
