-- ===== src/Crypto/SignFile.antt =====
-- tools/signFile/src/main.c. A command gives a value where its exit code is 0, and none where it
-- is 1. The allocations that the source does not check are taken to succeed.
use tizen_os.Base.{Option, none, some, List, [], ◌∷◌, if◌then◌else◌, ◌++◌}
use tizen_os.Crypto.{
  Md, Openssl, Files, M, ◌>>=◌, ◌>>◌, return, attempt, obtain, does, whether, update_all, file,
  context, release, evp_sha256, acquire, log, key, key_context, memory, write_out, KeyType,
  rsa_4096, prime256v1, ed25519,
}
use tizen_os.Crypto.Signature.{load_signature, make_signature}
use tizen_os.Libc.Text.{utf8}
use tizen_os.Libc.Lines.{chunks}
use tizen_os.Libc.{Bytes, codes, str_eq, str_case_eq}

-- How a command that does not exit with 1 ends: with code 0, or by a write to the file that it did
-- not check that it opened.
pub data Ended : Type 0 where
  exit_success null_file : Ended

unfoldable pub get_md_by_algo : Bytes → Option Md
get_md_by_algo algo = if str_case_eq algo (codes "ed25519") then none else some evp_sha256

unfoldable pub key_type : Bytes → KeyType
key_type algo_name =
    if str_case_eq algo_name (codes "rsa")
    then rsa_4096
    else if str_case_eq algo_name (codes "ecdsa")
    then prime256v1
    else ed25519

-- The last of the arguments.
unfoldable pub last_of : Bytes → List Bytes → Bytes
last_of a [] = a
last_of a (b ∷ bs) = last_of b bs

-- What is printed where the arguments are not those of a command.
unfoldable pub print_usage : Bytes → List Bytes
print_usage prog =
    utf8 "====================================================================\n"
    ∷ utf8 " TizenOS Digital Signature Utility (signFile)\n"
    ∷ utf8 "====================================================================\n"
    ∷ utf8 "Cú pháp sử dụng:\n"
    ∷ utf8 "  1. Ký số (Sign File):\n"
    ∷ (utf8 "     "
        ++ (prog
            ++ utf8
                " sign <data_file> <private_key.pem> <output.sig> [algo: ed25519|rsa|ecdsa]\n\n"))
    ∷ utf8 "  2. Xác minh chữ ký (Verify Signature):\n"
    ∷ (utf8 "     "
        ++ (prog
            ++ utf8
                " verify <data_file> <sig_file> <public_key.pem> [algo: ed25519|rsa|ecdsa]\n\n"))
    ∷ utf8 "  3. Tạo cặp khóa mới (Generate Keypair):\n"
    ∷ (utf8 "     "
        ++ (prog ++ utf8 " keygen <private_key.pem> <public_key.pem> [algo: ed25519|rsa|ecdsa]\n"))
    ∷ utf8 "====================================================================\n"
    ∷ []

module _ {Ctx Key : Type 0} (ssl : Openssl Ctx Key) (files : Files) where
  -- The tool's own function.
  abbrev pub load_public_key : Bytes → M Key
  load_public_key path = do
    pem ← obtain file (files.content path) []
    does (release file ∷ [])
    obtain key (ssl.read_public pem) []

  unfoldable pub do_sign : Bytes → Bytes → Bytes → Bytes → M Ended
  do_sign data_path priv_path sig_path algo = do
    sig_buf ← make_signature ssl files (get_md_by_algo algo) data_path priv_path
    attempt (whether (files.can_write sig_path))
        (release memory ∷ release context ∷ release key ∷ [])
    write_out sig_path sig_buf
    does (release memory ∷ release context ∷ release key ∷ [])
    return exit_success

  unfoldable pub do_verify : Bytes → Bytes → Bytes → Bytes → M Ended
  do_verify data_path sig_path pub_path algo = do
    pkey ← load_public_key pub_path
    sig_buf ← load_signature ssl files sig_path
    does (acquire context ∷ [])
    ctx ←
        attempt (ssl.verify_init (get_md_by_algo algo) pkey)
          (release memory ∷ release context ∷ release key ∷ [])
    content ←
        obtain file (files.content data_path) (release memory ∷ release context ∷ release key ∷ [])
    full ←
        attempt (update_all ssl.verify_update (chunks 8192 content) ctx)
          (release file ∷ release memory ∷ release context ∷ release key ∷ [])
    does (release file ∷ release memory ∷ release context ∷ release key ∷ [])
    attempt (whether (ssl.verify_final full sig_buf)) []
    return exit_success

  -- The second half of `do_keygen`. The results of the two `fopen` are not checked.
  unfoldable pub write_keys : Bytes → Bytes → Key → M Ended
  write_keys priv_path pub_path pkey t =
      if files.can_write priv_path
      then (let (_, t') = write_out priv_path (ssl.pem_private pkey) t in
          if files.can_write pub_path
          then (let (_, t'') = write_out pub_path (ssl.pem_public pkey) t' in
              (some exit_success, log (release key ∷ []) t''))
          else (some null_file, t'))
      else (some null_file, t)

  unfoldable pub do_keygen : Bytes → Bytes → Bytes → M Ended
  do_keygen priv_path pub_path algo_name = do
    does (acquire key_context ∷ [])
    pkey ← obtain key (ssl.keygen (key_type algo_name)) (release key_context ∷ [])
    does (release key_context ∷ [])
    write_keys priv_path pub_path pkey

  -- `main`, on the arguments behind the program's name: `argc` is one more than their number.
  unfoldable pub main : List Bytes → M Ended
  main (mode ∷ first ∷ second ∷ []) t =
      if str_eq mode (codes "sign")
      then (none, t)
      else if str_eq mode (codes "verify")
      then (none, t)
      else if str_eq mode (codes "keygen")
      then do_keygen first second (codes "ed25519") t
      else (none, t)
  main (mode ∷ first ∷ second ∷ third ∷ more) t =
      let algo = last_of third more in
      if str_eq mode (codes "sign")
      then do_sign first second third algo t
      else if str_eq mode (codes "verify")
      then do_verify first second third algo t
      else if str_eq mode (codes "keygen")
      then do_keygen first second algo t
      else (none, t)
  main _ t = (none, t)
