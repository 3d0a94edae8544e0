-- ===== src/P2pCore/Silence.antt =====
-- core/p2p_core.cpp, `p2p_modify_play_values`: the wait for a peer from which nothing comes.
use kaillera_client.Prelude.{
  ℕ, ◌+◌, ◌≡◌, refl, ap, ◌∙◌, List, [], ◌∷◌, true, false, some, arith, length, ltb, ◌==◌,
  Bool-cases, inl, inr,
}
use kaillera_client.P2pMessage.{P2pMessage, has_data, send_message}
use kaillera_client.P2pCore.{P2pCore, Env, Poll, at, late, waits, await_peer, retransmit, drop_game}

-- Nothing to read, and more than 20 ms between any two looks at the clock.
abbrev pub Silent : ℕ → List Poll → Type 0
Silent ti [] = Unit
Silent ti (poll ∷ polls) =
    (poll.readable ≡ false) × ((late poll.now ti ≡ true) × Silent poll.now polls)

send_message-has_data : (m : P2pMessage) (limit : ℕ) → has_data (send_message m limit) ≡ has_data m
unfolding send_message has_data
send_message-has_data m limit = elim (Bool-cases (ltb 0 m.dsc)) [
  | inl skip ↦ rw skip refl
  | inr goes ↦ rw goes refl
]

-- A round in which nothing comes, before the last one.
silent_round :
    (e : Env) (poll : Poll) (polls : List Poll) (ti count : ℕ) (c : P2pCore)
    → waits c ≡ true
    → has_data c.connection ≡ false
    → poll.readable ≡ false
    → late poll.now ti ≡ true
    → (count + 1 == 320) ≡ false
    → await_peer e (poll ∷ polls) ti count c
      ≡ await_peer e polls poll.now (count + 1) (retransmit c)
unfolding await_peer
silent_round e poll polls ti count c w h r l n = rw (await_peer, w, h, r, l, n) refl

last_round :
    (e : Env) (poll : Poll) (ti count : ℕ) (c : P2pCore)
    → waits c ≡ true
    → has_data c.connection ≡ false
    → poll.readable ≡ false
    → late poll.now ti ≡ true
    → (count + 1 == 320) ≡ true
    → await_peer e (poll ∷ []) ti count c ≡ some (true, (drop_game (at e poll) (retransmit c), []))
unfolding await_peer
last_round e poll ti count c w h r l n = rw (await_peer, w, h, r, l, n) refl

-- A wait in which the peer's input is missing, nothing is at hand and nothing comes, with more than
-- 20 ms between any two looks at the clock: after as many rounds as are left of 320 it is over and
-- reports the end of the game, and the client is back in the lobby with both sides not ready.
pub await_peer-Silent :
    (e : Env) (poll : Poll) (polls : List Poll) (ti count : ℕ) (c : P2pCore)
    → waits c ≡ true
    → has_data c.connection ≡ false
    → Silent ti (poll ∷ polls)
    → count + length (poll ∷ polls) ≡ 320
    → (c' : P2pCore) × (await_peer e (poll ∷ polls) ti count c ≡ some (true, (c', [])))
      × (c'.status ≡ 1)
      × (c'.userready ≡ false)
      × (c'.peerready ≡ false)
unfolding retransmit drop_game
await_peer-Silent e poll [] ti count c w h s n =
    let done : (count + 1 == 320) ≡ true = ap (λ (m : ℕ). m == 320) n in
    (
      drop_game (at e poll) (retransmit c),
      last_round e poll ti count c w h s.0 s.1.0 done,
      refl,
      refl,
      refl,
    )
await_peer-Silent e poll (next ∷ polls) ti count c w h s n =
    let more : (count + 1 == 320) ≡ false = ground (arith, n) in
    let (c', eq, st, u, p) =
      await_peer-Silent e next polls poll.now (count + 1) (retransmit c) w
        (send_message-has_data c.connection (c.throughput + 2) ∙ h) s.1.1 (omega (arith, n)) in
    (c', silent_round e poll (next ∷ polls) ti count c w h s.0 s.1.0 more ∙ eq, st, u, p)
