-- ===== src/Crypto/Checksum.antt =====
-- core/libtizen-core/src/checksum.c. A function gives the text that it leaves in `out_hash_hex` where
-- it returns true. A NULL argument is none, and for `out_hash_hex` the flag `out`.
use tizen_os.Base.{
  ℕ, ◌+◌, ◌/◌, ◌%◌, Bool, true, false, Option, none, some, [], ◌∷◌, ltb, if◌then◌else◌,
}
use tizen_os.Crypto.{
  Md, Openssl, Files, M, ◌>>=◌, ◌>>◌, return, attempt, obtain, does, whether, update_all, file,
  context, release, evp_md5, evp_sha256, evp_sha512,
}
use tizen_os.Libc.Lines.{chunks}
use tizen_os.Libc.{Bytes, str_case_eq}

pub data TizenHashType : Type 0 where
  tizen_hash_md5 tizen_hash_sha256 tizen_hash_sha512 : TizenHashType

unfoldable pub get_evp_md : TizenHashType → Md
get_evp_md tizen_hash_md5 = evp_md5
get_evp_md tizen_hash_sha256 = evp_sha256
get_evp_md tizen_hash_sha512 = evp_sha512

unfoldable pub hex_digit : ℕ → ℕ
hex_digit n = if ltb n 10 then b'0' + n else 87 + n

-- The loop of `sprintf (out + 2 * i, "%02x", hash[i])`.
unfoldable pub hex : Bytes → Bytes
hex [] = []
hex (b ∷ bs) = hex_digit (b / 16) ∷ hex_digit (b % 16) ∷ hex bs

module _ {Ctx Key : Type 0} (ssl : Openssl Ctx Key) (files : Files) where
  unfoldable pub tizen_checksum_buffer : Option Bytes → TizenHashType → Bool → M Bytes
  tizen_checksum_buffer none type out t = (none, t)
  tizen_checksum_buffer (some data_bytes) type false t = (none, t)
  tizen_checksum_buffer (some data_bytes) type true t =
      (do
        obtain context (whether ssl.ctx_new) []
        ctx ← attempt (ssl.digest_init (get_evp_md type)) (release context ∷ [])
        full ← attempt (ssl.digest_update ctx data_bytes) (release context ∷ [])
        hash ← attempt (ssl.digest_final full) (release context ∷ [])
        does (release context ∷ [])
        return (hex hash))
        t

  unfoldable pub tizen_checksum_file : Option Bytes → TizenHashType → Bool → M Bytes
  tizen_checksum_file none type out t = (none, t)
  tizen_checksum_file (some filepath) type false t = (none, t)
  tizen_checksum_file (some filepath) type true t =
      (do
        content ← obtain file (files.content filepath) []
        obtain context (whether ssl.ctx_new) (release file ∷ [])
        ctx ← attempt (ssl.digest_init (get_evp_md type)) (release context ∷ release file ∷ [])
        full ←
            attempt (update_all ssl.digest_update (chunks 8192 content) ctx)
              (release context ∷ release file ∷ [])
        hash ← attempt (ssl.digest_final full) (release context ∷ release file ∷ [])
        does (release context ∷ release file ∷ [])
        return (hex hash))
        t

  unfoldable pub tizen_checksum_verify_file : Option Bytes → TizenHashType → Option Bytes → M Bool
  tizen_checksum_verify_file none type expected t = (none, t)
  tizen_checksum_verify_file (some filepath) type none t = (none, t)
  tizen_checksum_verify_file (some filepath) type (some expected) t =
      (do
        calculated ← tizen_checksum_file (some filepath) type true
        return (str_case_eq calculated expected))
        t
