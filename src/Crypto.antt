-- ===== src/Crypto.antt =====
-- The signing and hashing code: libtizen-core's checksum.c and signature.c, and the program signFile.
-- OpenSSL and the files are what the code calls. This file holds both as records, and the monad in
-- which the code is written: a call that fails ends the function, after what its branch releases.
pub mod Checksum
pub mod Signature
pub mod SignFile
pub mod Laws
pub mod Streaming
pub mod RoundTrip
pub mod Pss
pub mod Tool
pub mod OneShot
pub mod Hex
pub mod Toy
pub mod Tests
use tizen_os.Base.{
  ℕ, Bool, Option, none, some, List, [], ◌∷◌, ◌++◌, zero, suc, ◌+◌, ◌-◌, ◌*◌, ◌/◌, ◌%◌, ◌^◌, ◌≤◌,
  ◌<◌, min, ◌≡◌, refl, sym, ap, ◌∙◌, ◌≢◌, ◌↔◌, ◌⊎◌, inl, inr, true, false, not, ◌&&◌, ◌||◌, map,
  append_assoc, append-nil, arith, ltb, leb, ◌==◌, if◌then◌else◌, ==_iff, Bool-cases, Option-cases,
  length, take, drop, get_elem?, set, All, join, length-append, take-append-drop, length-take,
  length-drop, take_all,
}
use tizen_os.Libc.{Bytes}

-- The digests of OpenSSL that the code names: `EVP_md5`, `EVP_sha256`, `EVP_sha512`.
pub data Md : Type 0 where
  evp_md5 evp_sha256 evp_sha512 : Md

-- The kinds of key that signFile generates: RSA of 4096 bits, the curve P-256, and Ed25519.
pub data KeyType : Type 0 where
  rsa_4096 prime256v1 ed25519 : KeyType

-- What the functions acquire and release: `FILE *`, `EVP_MD_CTX *`, `EVP_PKEY *`, `EVP_PKEY_CTX *` and
-- allocated bytes.
pub data Resource : Type 0 where
  file context key key_context memory : Resource

pub data Op : Type 0 where
  acquire release : Resource → Op

-- The calls of OpenSSL's EVP and PEM functions, over its contexts and keys. A call that may fail is
-- an option; a call on a context gives the context after it.
pub record Openssl (Ctx Key : Type 0) : Type 0 where
  pub ctx_new : Bool
  pub digest_init : Md → Option Ctx
  pub digest_update : Ctx → Bytes → Option Ctx
  pub digest_final : Ctx → Option Bytes
  pub read_private : Bytes → Option Key
  pub read_public : Bytes → Option Key
  pub sign_init : Option Md → Key → Option Ctx
  pub sign_update : Ctx → Bytes → Option Ctx
  pub sign_length : Ctx → Option ℕ
  pub sign_final : Ctx → Option Bytes
  pub verify_init : Option Md → Key → Option Ctx
  pub set_pss : Ctx → Ctx
  pub verify_update : Ctx → Bytes → Option Ctx
  pub verify_final : Ctx → Bytes → Bool
  pub keygen : KeyType → Option Key
  pub pem_private : Key → Bytes
  pub pem_public : Key → Bytes

-- `content path` is what the file holds, where `fopen` can read it; `told path` is what `fseek` and
-- `ftell` say of its length; `can_write` is whether `fopen` can write it, `allocates` what `malloc`
-- answers.
pub record Files : Type 0 where
  pub content : Bytes → Option Bytes
  pub told : Bytes → ℕ
  pub can_write : Bytes → Bool
  pub allocates : ℕ → Bool

-- What a function has acquired and released, and the files that it has written.
pub record Trace : Type 0 where
  pub ops : List Op
  pub written : List (Bytes × Bytes)

abbrev pub M : Type 0 → Type 0
M A = Trace → Option A × Trace

infixl 5 ◌>>=◌ ◌>>◌
abbrev pub ◌>>=◌ : {A B : Type 0} → M A → (A → M B) → M B
◌>>=◌ m f t = let (a, t') = m t in elim a [ none ↦ (none, t') | some x ↦ f x t' ]

abbrev pub ◌>>◌ : {A B : Type 0} → M A → M B → M B
◌>>◌ m k t = let (a, t') = m t in elim a [ none ↦ (none, t') | some x ↦ k t' ]

abbrev pub return : {A : Type 0} → A → M A
return a t = (some a, t)

abbrev pub log : List Op → Trace → Trace
log ops t = record t { ops = t.ops ++ ops }

-- A call that gives a result, or else releases what it must and ends the function.
abbrev pub attempt : {A : Type 0} → Option A → List Op → M A
attempt none cleanup t = (none, log cleanup t)
attempt (some a) cleanup t = (some a, t)

-- A call that acquires a resource where it succeeds.
abbrev pub obtain : {A : Type 0} → Resource → Option A → List Op → M A
obtain r none cleanup t = (none, log cleanup t)
obtain r (some a) cleanup t = (some a, log (acquire r ∷ []) t)

abbrev pub does : List Op → M (Unit {0})
does ops t = (some tt, log ops t)

-- `fopen (path, "wb")`, `fwrite` and `fclose`.
abbrev pub write_out : Bytes → Bytes → M (Unit {0})
write_out path bytes t = (
  some tt,
  record t {
    ops = t.ops ++ (acquire file ∷ release file ∷ []);
    written = t.written ++ (path, bytes) ∷ [];
  },
)

abbrev pub whether : Bool → Option (Unit {0})
whether true = some tt
whether false = none

-- One update for each of the rounds of `fread`, up to the first that fails.
unfoldable pub update_all :
    {Ctx : Type 0} → (Ctx → Bytes → Option Ctx) → List Bytes → Ctx → Option Ctx
update_all update [] c = some c
update_all update (b ∷ bs) c = elim (update c b) [ none ↦ none | some c' ↦ update_all update bs c' ]
