-- ===== src/Tools/Player/Session.antt =====
-- What holds over any session with the player of player.c.
use tizen_os.Base.{
  ℕ, zero, suc, ◌+◌, ◌≤◌, ◌<◌, ◌≡◌, refl, ◌≢◌, ◌⊎◌, inl, inr, Bool, true, false, ◌||◌, Option, none,
  some, List, [], ◌∷◌, arith, ◌==◌, Option-cases, length,
}
use tizen_os.Libc.{Bytes}
use tizen_os.Tools.Player.{
  TizenPlayerState, TizenPlayer, Heap, tizen_player_create, remove, free, tizen_player_destroy,
  tizen_player_set_uri, played, paused, tizen_player_play, tizen_player_pause, tizen_player_stop,
  tizen_player_get_state, Request, serve, run, session, player_state_idle, player_state_ready,
  player_state_playing, player_state_paused, player_state_stopped, set_uri, play, pause, stop,
}

-- How many requests set a URI that is not NULL.
pub uris : List Request → ℕ
uris [] = 0
uris (set_uri (some text) ∷ rs) = suc (uris rs)
uris (_ ∷ rs) = uris rs

-- How many blocks the player owns.
abbrev pub owned : Option TizenPlayer → ℕ
owned none = 0
owned (some player) = elim player.uri [ none ↦ 0 | some p ↦ 1 ]

abbrev holds : ℕ → List (ℕ × Bytes) → Bool
holds p [] = false
holds p ((q, s) ∷ rest) = (p == q) || holds p rest

length-remove :
    (p : ℕ) (live : List (ℕ × Bytes))
    → holds p live ≡ true
    → suc (length (remove p live)) ≡ length live
length-remove p [] h = ground arith
length-remove p ((q, s) ∷ rest) h = ground (arith, length-remove p rest)

holds-remove :
    (p q : ℕ) (live : List (ℕ × Bytes))
    → (q == p) ≡ false
    → holds q live ≡ true
    → holds q (remove p live) ≡ true
holds-remove p q [] h k = k
holds-remove p q ((r, s) ∷ rest) h k = ground (arith, holds-remove p q rest)

-- The player's block is allocated, and the URI is another block that is.
record IsOwner (player : TizenPlayer) (heap : Heap) : Type 0 where
  older : player.block < heap.next
  block_live : holds player.block heap.live ≡ true
  uri_live : (p : ℕ) → player.uri ≡ some p → holds p heap.live ≡ true
  apart : (p : ℕ) → player.uri ≡ some p → (player.block == p) ≡ false

length-destroy :
    (player : TizenPlayer) (heap : Heap)
    → IsOwner player heap
    → suc (length (tizen_player_destroy (some player) heap).live + owned (some player))
      ≡ length heap.live
unfolding tizen_player_destroy free
length-destroy player heap own = elim (Option-cases player.uri) [
  | inl e ↦ ground (arith, length-remove player.block heap.live own.block_live)
  | inr (p, e) ↦
      let kept = holds-remove p player.block heap.live (own.apart p e) own.block_live in
      let fewer = length-remove p heap.live (own.uri_live p e) in
      let last = length-remove player.block (remove p heap.live) kept in ground (arith, fewer, last)
]

create-IsOwner : (heap : Heap) → IsOwner (tizen_player_create heap).0 (tizen_player_create heap).1
unfolding tizen_player_create
create-IsOwner heap = record {
  older = omega arith;
  block_live = ground arith;
  uri_live = λ p e. ground arith;
  apart = λ p e. ground arith;
}

set_uri-IsOwner :
    (text : Bytes) (player : TizenPlayer) (heap : Heap)
    → IsOwner player heap
    → IsOwner
        (record player { state = player_state_ready; uri = some heap.next })
        (record { live = (heap.next, text) ∷ heap.live; next = heap.next + 1 })
set_uri-IsOwner text player heap own = record {
  older = omega (arith, own.older);
  block_live = ground (arith, own.block_live);
  uri_live = λ p e. ground arith;
  apart = λ p e. ground (arith, own.older);
}

no_uri-IsOwner :
    (player : TizenPlayer) (heap : Heap)
    → IsOwner player heap
    → IsOwner (record player { state = player_state_ready; uri = none }) heap
no_uri-IsOwner player heap own = record {
  older = own.older;
  block_live = own.block_live;
  uri_live = λ p e. ground arith;
  apart = λ p e. ground arith;
}

state-IsOwner :
    (player : TizenPlayer) (s : TizenPlayerState) (heap : Heap)
    → IsOwner player heap
    → IsOwner (record player { state = s }) heap
state-IsOwner player s heap own = record {
  older = own.older;
  block_live = own.block_live;
  uri_live = own.uri_live;
  apart = own.apart;
}

run-live :
    (rs : List Request) (player : TizenPlayer) (heap : Heap)
    → IsOwner player heap
    → let (player', heap') = run rs (some player, heap) in
      suc (length (tizen_player_destroy player' heap').live + owned player')
      ≡ length heap.live + uris rs
unfolding run serve uris tizen_player_set_uri tizen_player_play tizen_player_pause tizen_player_stop
run-live [] player heap own = omega (arith, length-destroy player heap own)
run-live (set_uri none ∷ rs) player heap own = run-live rs _ heap (no_uri-IsOwner player heap own)
run-live (set_uri (some text) ∷ rs) player heap own =
    let more = run-live rs _ _ (set_uri-IsOwner text player heap own) in omega (arith, more)
run-live (play ∷ rs) player heap own =
    run-live rs _ heap (state-IsOwner player (played player.state) heap own)
run-live (pause ∷ rs) player heap own =
    run-live rs _ heap (state-IsOwner player (paused player.state) heap own)
run-live (stop ∷ rs) player heap own =
    run-live rs _ heap (state-IsOwner player player_state_stopped heap own)

-- Over any session, as many blocks are left after the player is destroyed as there were before it
-- was created, and one for each URI that was set, less the one that the player owns at the end, if it does: the URIs
-- that a later one replaces are not freed.
pub session_leaks :
    (rs : List Request) (heap : Heap)
    → let (player, after) = session rs heap in
      length (tizen_player_destroy player after).live + owned player ≡ length heap.live + uris rs
unfolding session tizen_player_create
session_leaks rs heap = let all = run-live rs _ _ (create-IsOwner heap) in omega (arith, all)

abbrev IsSilent : TizenPlayerState → Type 0
IsSilent s = (s ≢ player_state_playing) × (s ≢ player_state_paused) × (s ≢ player_state_ready)

played-IsSilent : (s : TizenPlayerState) → IsSilent s → IsSilent (played s)
played-IsSilent player_state_ready silent = absurd (silent.2 refl)
played-IsSilent player_state_paused silent = absurd (silent.1 refl)
played-IsSilent player_state_idle silent = silent
played-IsSilent player_state_playing silent = silent
played-IsSilent player_state_stopped silent = silent

paused-IsSilent : (s : TizenPlayerState) → IsSilent s → IsSilent (paused s)
paused-IsSilent player_state_playing silent = absurd (silent.0 refl)
paused-IsSilent player_state_ready silent = silent
paused-IsSilent player_state_paused silent = silent
paused-IsSilent player_state_idle silent = silent
paused-IsSilent player_state_stopped silent = silent

-- How many requests set a URI, NULL or not.
pub loads : List Request → ℕ
loads [] = 0
loads (set_uri uri ∷ rs) = suc (loads rs)
loads (_ ∷ rs) = loads rs

run-IsSilent :
    (rs : List Request) (player : TizenPlayer) (heap : Heap)
    → loads rs ≡ 0
    → IsSilent player.state
    → IsSilent (tizen_player_get_state (run rs (some player, heap)).0)
unfolding run serve loads tizen_player_play tizen_player_pause tizen_player_stop
    tizen_player_get_state
run-IsSilent [] player heap h silent = silent
run-IsSilent (set_uri uri ∷ rs) player heap h silent = absurd (omega arith)
run-IsSilent (play ∷ rs) player heap h silent =
    run-IsSilent rs _ heap h (played-IsSilent player.state silent)
run-IsSilent (pause ∷ rs) player heap h silent =
    run-IsSilent rs _ heap h (paused-IsSilent player.state silent)
run-IsSilent (stop ∷ rs) player heap h silent = run-IsSilent rs _ heap h (ground arith)

-- A player plays, or is paused, only if a URI was set before.
pub session-plays :
    (rs : List Request) (heap : Heap)
    → (tizen_player_get_state (session rs heap).0 ≡ player_state_playing)
      ⊎ (tizen_player_get_state (session rs heap).0 ≡ player_state_paused)
    → 1 ≤ loads rs
unfolding session tizen_player_create
session-plays rs heap h = elim (zero_or_more (loads rs)) [
  | inl e ↦ absurd (elim h [
    | inl k ↦ (run-IsSilent rs _ _ e (ground arith)).0 k
    | inr k ↦ (run-IsSilent rs _ _ e (ground arith)).1 k
  ])
  | inr e ↦ e
]
  where
    zero_or_more : (n : ℕ) → (n ≡ 0) ⊎ (1 ≤ n)
    zero_or_more zero = inl refl
    zero_or_more (suc n) = inr (omega arith)

-- Over any session, as many blocks are left after the player is destroyed as there were before it was
-- created, and one for each URI that was set, less the one that the player owns at the end, if it does: the URIs that a
-- later one replaces are not freed. And where no request set a URI, the player neither plays nor is
-- paused at the end.
pub session_lem :
    (rs : List Request) (heap : Heap)
    → let (player, after) = session rs heap in
      (length (tizen_player_destroy player after).live + owned player ≡ length heap.live + uris rs)
      × ((1 ≤ loads rs)
          ⊎ ((tizen_player_get_state player ≢ player_state_playing)
              × (tizen_player_get_state player ≢ player_state_paused)))
session_lem rs heap = (session_leaks rs heap, silent (loads rs) refl)
  where
    silent :
        (n : ℕ)
        → loads rs ≡ n
        → (1 ≤ loads rs)
          ⊎ ((tizen_player_get_state (session rs heap).0 ≢ player_state_playing)
              × (tizen_player_get_state (session rs heap).0 ≢ player_state_paused))
    silent zero e = inr (
      λ h. absurd (omega (arith, session-plays rs heap (inl h))),
      λ h. absurd (omega (arith, session-plays rs heap (inr h))),
    )
    silent (suc n) e = inl (omega arith)
