-- ===== src/Crypto/Hex.antt =====
-- The text of a digest in checksum.c: how long it is, and what it compares equal to.
use tizen_os.Base.{
  ℕ, ◌+◌, ◌-◌, ◌*◌, ◌/◌, ◌%◌, ◌≤◌, ◌<◌, ◌≡◌, refl, ◌↔◌, inl, inr, true, ◌&&◌, Option, none, some,
  [], ◌∷◌, arith, leb, ◌==◌, if◌then◌else◌, Option-cases, length, All, Bool, false,
}
use tizen_os.Crypto.{Openssl, Files, update_all}
use tizen_os.Crypto.Checksum.{
  tizen_checksum_file, tizen_checksum_verify_file, TizenHashType, get_evp_md, hex, hex_digit,
}
use tizen_os.Crypto.Streaming.{IsStreaming, update_chunks}
use tizen_os.Crypto.Laws.{fresh}
use tizen_os.Libc.Lines.{chunks}
use tizen_os.Libc.{Bytes, str_case_eq, to_lower}

-- The value of a hexadecimal digit of either case.
pub digit_value : ℕ → Option ℕ
digit_value c =
    if leb b'0' c && leb c b'9'
    then some (c - 48)
    else if leb b'a' c && leb c b'f'
    then some (c - 87)
    else if leb b'A' c && leb c b'F'
    then some (c - 55)
    else none

abbrev byte_of : Option ℕ → Option ℕ → Option Bytes → Option Bytes
byte_of (some high) (some low) (some bs) = some ((high * 16 + low) ∷ bs)
byte_of _ _ _ = none

-- The bytes that a text of hexadecimal digits, two for each byte, stands for.
pub unhex : Bytes → Option Bytes
unhex [] = some []
unhex (x ∷ []) = none
unhex (x ∷ y ∷ rest) = byte_of (digit_value x) (digit_value y) (unhex rest)

digit_value_small : (c n : ℕ) → digit_value c ≡ some n → n < 16
unfolding digit_value
digit_value_small c n h = ground arith

byte_of_iff :
    (high low : Option ℕ) (rest : Option Bytes) (b : ℕ) (bs : Bytes)
    → ((n : ℕ) → high ≡ some n → n < 16)
    → ((n : ℕ) → low ≡ some n → n < 16)
    → ((high ≡ some (b / 16)) × (low ≡ some (b % 16)) × (rest ≡ some bs))
      ↔ (byte_of high low rest ≡ some (b ∷ bs))
byte_of_iff none low rest b bs h k = ground arith
byte_of_iff (some x) none rest b bs h k = ground arith
byte_of_iff (some x) (some y) none b bs h k = ground arith
byte_of_iff (some x) (some y) (some r) b bs h k = ground (arith, h x refl, k y refl)

never : (p : Bool) (bs : Bytes) → ((p && false) ≡ true) ↔ (none ≡ some bs)
never p bs = ground arith

not_empty :
    (high low : Option ℕ) (rest : Option Bytes) → (false ≡ true) ↔ (byte_of high low rest ≡ some [])
not_empty none low rest = ground arith
not_empty (some x) none rest = ground arith
not_empty (some x) (some y) none = ground arith
not_empty (some x) (some y) (some r) = ground arith

and_iff : (p q r : Bool) → ((p && (q && r)) ≡ true) ↔ ((p ≡ true) × (q ≡ true) × (r ≡ true))
and_iff p q r = ground arith

digit-value :
    (n c : ℕ) → n < 16 → ((to_lower (hex_digit n) == to_lower c) ≡ true) ↔ (digit_value c ≡ some n)
unfolding to_lower hex_digit digit_value
digit-value n c h = ground arith

case_eq-hex :
    (hash text : Bytes)
    → All (λ b. b < 256) hash
    → (str_case_eq (hex hash) text ≡ true) ↔ (unhex text ≡ some hash)
unfolding str_case_eq hex unhex
case_eq-hex [] [] h = ground arith
case_eq-hex [] (x ∷ []) h = ground arith
case_eq-hex [] (x ∷ y ∷ rest) h = not_empty (digit_value x) (digit_value y) (unhex rest)
case_eq-hex (b ∷ bs) [] h = ground arith
case_eq-hex (b ∷ bs) (x ∷ []) h = never _ (b ∷ bs)
case_eq-hex (b ∷ bs) (x ∷ y ∷ rest) h =
    let dx = digit-value (b / 16) x (omega (arith, h.0)) in
    let dy = digit-value (b % 16) y (omega arith) in
    let ih = case_eq-hex bs rest h.1 in
    let e =
      byte_of_iff (digit_value x) (digit_value y) (unhex rest) b bs (digit_value_small x)
        (digit_value_small y) in
    let both = and_iff _ _ _ in
    (
      λ k. let (p, q, r) = both.0 k in e.0 (dx.0 p, dy.0 q, ih.0 r),
      λ k. let (p, q, r) = e.1 k in both.1 (dx.1 p, dy.1 q, ih.1 r),
    )

length-hex : (hash : Bytes) → length (hex hash) ≡ 2 * length hash
unfolding hex
length-hex [] = refl
length-hex (b ∷ bs) = omega (arith, length-hex bs)

module _ {Ctx Key : Type 0} (ssl : Openssl Ctx Key) (files : Files) where
  -- Where a digest has at most 64 bytes, as SHA-512 has, the text that hashing a file leaves in its
  -- output takes, with its NUL, at most the 129 bytes that the header asks for, and `verify_file`
  -- has 130.
  pub length-checksum_file :
      ((c : Ctx) (hash : Bytes) → ssl.digest_final c ≡ some hash → length hash ≤ 64)
      → (filepath text : Bytes) (type : TizenHashType)
      → (tizen_checksum_file ssl files (some filepath) type true fresh).0 ≡ some text
      → length text + 1 ≤ 129
  unfolding tizen_checksum_file
  length-checksum_file bound filepath text type e = elim (Option-cases (files.content filepath)) [
    | inl e1 ↦ ground arith
    | inr (s, e1) ↦ elim (Option-cases (ssl.digest_init (get_evp_md type))) [
      | inl e2 ↦ ground arith
      | inr (ctx, e2) ↦ elim (Option-cases (update_all ssl.digest_update (chunks 8192 s) ctx)) [
        | inl e3 ↦ ground arith
        | inr (full, e3) ↦ elim (Option-cases (ssl.digest_final full)) [
          | inl e4 ↦ ground arith
          | inr (hash, e4) ↦ ground (arith, bound full hash e4, length-hex hash)
        ]
      ]
    ]
  ]

  -- Where a file can be read, the updates of a digest may be cut anywhere and OpenSSL hashes the
  -- bytes of the file to a digest of bytes below 256, the file verifies against a text exactly if
  -- the text is that digest in hexadecimal, in either case: all of it, with nothing behind it.
  pub checksum_verify_file_iff :
      IsStreaming ssl.digest_update
      → (filepath content expected hash : Bytes) (type : TizenHashType) (ctx full : Ctx)
      → files.content filepath ≡ some content
      → ssl.ctx_new ≡ true
      → ssl.digest_init (get_evp_md type) ≡ some ctx
      → ssl.digest_update ctx content ≡ some full
      → ssl.digest_final full ≡ some hash
      → All (λ b. b < 256) hash
      → ((tizen_checksum_verify_file ssl files (some filepath) type (some expected) fresh).0
          ≡ some true)
        ↔ (unhex expected ≡ some hash)
  unfolding tizen_checksum_verify_file tizen_checksum_file
  checksum_verify_file_iff law filepath content expected hash type ctx full h1 h2 h3 h4 h5 h6 =
      let read = update_chunks ssl.digest_update law content ctx in
      ground (arith, read, case_eq-hex hash expected h6)
