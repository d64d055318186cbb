-- ===== src/Crypto/Toy.antt =====
-- A small OpenSSL, whose contexts are the bytes read and whose signature and digest are their first
-- four, and a machine with a file and two keys.
use tizen_os.Base.{
  List, ◌∷◌, ◌≡◌, false, arith, refl, ap, true, Option, none, some, [], ◌++◌, append_assoc,
  append-nil, if◌then◌else◌, length, take,
}
use tizen_os.Crypto.{Openssl, Files, update_all}
use tizen_os.Crypto.Streaming.{IsStreaming, StreamsHashed, update_all_lem}
use tizen_os.Crypto.RoundTrip.{Signs}
use tizen_os.Libc.{Bytes, codes, str_eq}

abbrev pub reads : Bytes → Bytes → Option Bytes
reads c bytes = some (c ++ bytes)

abbrev pub toy_ssl : Openssl Bytes Bytes
toy_ssl = record {
  ctx_new = true;
  digest_init = λ md. some [];
  digest_update = reads;
  digest_final = λ c. some (take 4 c);
  read_private = some;
  read_public = some;
  sign_init = λ md key. some [];
  sign_update = reads;
  sign_length = λ c. some (length (take 4 c));
  sign_final = λ c. some (take 4 c);
  verify_init = λ md key. some [];
  set_pss = λ c. c;
  verify_update = reads;
  verify_final = λ c sig. str_eq (take 4 c) sig;
  keygen = λ kind. some (codes "key");
  pem_private = λ key. key;
  pem_public = λ key. key;
}

abbrev pub toy_files : Files
toy_files = record {
  content = λ p.
      if str_eq p (codes "app.tpk")
      then some (codes "hello")
      else if str_eq p (codes "key.pem")
      then some (codes "key")
      else none;
  told = λ p. 0;
  can_write = λ p. true;
  allocates = λ n. true;
}

pub reads-IsStreaming : IsStreaming reads
reads-IsStreaming = record {
  empty = λ c. ap some (append-nil c);
  both = λ c xs ys. ap some (append_assoc c xs ys);
}

pub reads-StreamsHashed : StreamsHashed {Key = Bytes} (λ md key. some []) reads
reads-StreamsHashed md key c e = (reads-IsStreaming.empty c, reads-IsStreaming.both c)

pub toy-Signs : Signs toy_ssl (codes "key") (codes "key") (codes "hello") (codes "hell")
unfolding str_eq
toy-Signs = record {
  sign_ctx = [];
  sign_full = codes "hello";
  verify_ctx = [];
  verify_full = codes "hello";
  sign_starts = refl;
  sign_reads = refl;
  sign_ends = refl;
  sign_told = refl;
  verify_starts = refl;
  verify_reads = refl;
  verify_ends = refl;
}

-- An OpenSSL whose PSS contexts start with another byte.
abbrev pub pss_ssl : Openssl Bytes Bytes
pss_ssl = record toy_ssl { set_pss = λ c. 999 ∷ c }

unfoldable pub pss-Signs : Signs pss_ssl (codes "key") (codes "key") (codes "hello") (codes "hell")
unfolding str_eq
pss-Signs = record {
  sign_ctx = [];
  sign_full = codes "hello";
  verify_ctx = [];
  verify_full = codes "hello";
  sign_starts = refl;
  sign_reads = refl;
  sign_ends = refl;
  sign_told = refl;
  verify_starts = refl;
  verify_reads = refl;
  verify_ends = refl;
}

pub pss_rejects :
    (bs : List Bytes) (full : Bytes)
    → update_all reads bs (999 ∷ []) ≡ some full
    → str_eq (take 4 full) (codes "hell") ≡ false
unfolding str_eq
pss_rejects bs full e =
    let read = update_all_lem reads reads-IsStreaming bs (999 ∷ []) in ground (arith, e, read)
