-- ===== src/Crypto/Streaming.antt =====
-- The loops of checksum.c, signature.c and signFile's main.c that hand a file to OpenSSL in pieces of 8192
-- bytes, where OpenSSL takes the bytes cut anywhere.
use tizen_os.Base.{
  ◌≡◌, sym, ap, ◌∙◌, inl, inr, Option, none, some, List, [], ◌∷◌, ◌++◌, arith, append-nil,
  append_assoc, Option-cases, join,
}
use tizen_os.Crypto.{Md, update_all}
use tizen_os.Libc.Lines.{chunks, join-chunks}
use tizen_os.Libc.{Bytes}

-- Updates may be cut anywhere.
pub record IsStreaming {Ctx : Type 0} (update : Ctx → Bytes → Option Ctx) : Type 0 where
  pub empty : (c : Ctx) → update c [] ≡ some c
  pub both :
      (c : Ctx) (xs ys : Bytes)
      → elim (update c xs) [ none ↦ none | some c' ↦ update c' ys ] ≡ update c (xs ++ ys)

pub update_all_lem :
    {Ctx : Type 0} (update : Ctx → Bytes → Option Ctx)
    → IsStreaming update
    → (bs : List Bytes) (c : Ctx) → update_all update bs c ≡ update c (join bs)
unfolding update_all
update_all_lem update s [] c = sym (s.empty c)
update_all_lem update s (b ∷ bs) c =
    let law = s.both c b (join bs) in
    elim (Option-cases (update c b)) [
      | inl e ↦ ground (arith, law)
      | inr (c', e) ↦ ground (arith, law, update_all_lem update s bs c')
    ]

pub update_chunks :
    {Ctx : Type 0} (update : Ctx → Bytes → Option Ctx)
    → IsStreaming update
    → (s : Bytes) (c : Ctx) → update_all update (chunks 8192 s) c ≡ update c s
update_chunks update law s c =
    update_all_lem update law (chunks 8192 s) c ∙ ap (update c) (join-chunks 8192 s (omega arith))

-- Updates from one context may be cut anywhere.
abbrev pub StreamsFrom : {Ctx : Type 0} → (Ctx → Bytes → Option Ctx) → Ctx → Type 0
StreamsFrom update start =
    (update start [] ≡ some start)
    × ((xs ys : Bytes)
        → elim (update start xs) [ none ↦ none | some c ↦ update c ys ] ≡ update start (xs ++ ys))

update_all_from :
    {Ctx : Type 0} (update : Ctx → Bytes → Option Ctx) (start : Ctx)
    → StreamsFrom update start
    → (bs : List Bytes) (xs : Bytes) (c : Ctx) → update start xs ≡ some c
    → update_all update bs c ≡ update start (xs ++ join bs)
unfolding update_all
update_all_from update start s [] xs c e = sym e ∙ ap (update start) (sym (append-nil xs))
update_all_from update start s (b ∷ bs) xs c e =
    let one = s.1 xs b in
    let law = s.1 (xs ++ b) (join bs) in
    let moved = ap (update start) (append_assoc xs b (join bs)) in
    elim (Option-cases (update c b)) [
      | inl stops ↦ ground (arith, e, one, law, moved, stops)
      | inr (c', goes) ↦
          let e' : update start (xs ++ b) ≡ some c' = ground (arith, e, one, goes) in
          let later = update_all_from update start s bs (xs ++ b) c' e' ∙ moved in
          ground (arith, goes, later)
    ]

pub update_chunks_from :
    {Ctx : Type 0} (update : Ctx → Bytes → Option Ctx) (start : Ctx)
    → StreamsFrom update start
    → (s : Bytes) → update_all update (chunks 8192 s) start ≡ update start s
update_chunks_from update start law s =
    update_all_from update start law (chunks 8192 s) [] start law.0
    ∙ ap (update start) (join-chunks 8192 s (omega arith))

-- The bytes may be cut anywhere in every context that is made with a digest. OpenSSL documents this of
-- signing and verifying with a digest, and excludes it for Ed25519, which takes none.
abbrev pub StreamsHashed :
    {Ctx Key : Type 0} → (Option Md → Key → Option Ctx) → (Ctx → Bytes → Option Ctx) → Type 0
StreamsHashed {Ctx} {Key} init update =
    (md : Md) (key : Key) (c : Ctx) → init (some md) key ≡ some c → StreamsFrom update c
