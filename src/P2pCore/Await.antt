-- ===== src/P2pCore/Await.antt =====
-- core/p2p_core.cpp, `p2p_modify_play_values`: the wait in which a frame of the peer is read.
use kaillera_client.Prelude.{
  ℕ, suc, ◌+◌, ◌-◌, ◌≤◌, ◌<◌, ◌%◌, ◌≡◌, refl, ap, ◌∙◌, sym, min, List, [], ◌∷◌, ◌++◌, true, false,
  ◌||◌, Option, none, some, arith, length, take, append-nil, le→ltb, ◌==◌, length-take,
  take_of_length-le,
}
use kaillera_client.FrameCache.{FrameCache}
use kaillera_client.FrameCache.Queue
use kaillera_client.FrameCache.Queue.{put_data_lem}
use kaillera_client.P2pInstruction
use kaillera_client.P2pInstruction.{P2pInstruction}
use kaillera_client.P2pInstruction.Codec
use kaillera_client.P2pInstruction.Codec.{
  store_bytes_bounded, load_bytes_lem, read_from_message-write_to_message,
}
use kaillera_client.P2pMessage.{P2pMessage, Address, Datagram, has_data, receive_instructionx}
use kaillera_client.P2pMessage.Heard.{Ready, bundle_of, receive_instructionx_lem}
use kaillera_client.P2pCore.{
  P2pCore, Env, Poll, data_type, receive_data, game_message, process_game_stuff, stuff_fuel, marked,
  at, waits, await_peer,
}
use kaillera_client.P2pCore.Rounds.{EnvOk, message, wire, Carries}

make-IsValid : (e : Env) → EnvOk e → Codec.IsValid (P2pInstruction.make e.body data_type 0)
make-IsValid e v = record {
  body = v.body;
  pos = omega arith;
  len = omega arith;
  type = omega arith;
  flags = omega arith;
}

store_bytes-type :
    (k : P2pInstruction) (src : List ℕ) (n : ℕ) → (P2pInstruction.store_bytes k src n).type ≡ k.type
unfolding P2pInstruction.store_bytes
store_bytes-type k src n = refl

length-write_to_message :
    (k : P2pInstruction) → length (P2pInstruction.write_to_message k) ≤ k.pos + 1
unfolding P2pInstruction.write_to_message
length-write_to_message k = omega (arith, length-take k.pos k.body)

wire_lem :
    (e e' : Env) (bytes : List ℕ)
    → EnvOk e
    → EnvOk e'
    → length bytes ≤ 32
    → ((P2pInstruction.load_bytes
          (wire e e' bytes (length bytes))
          (take (length bytes) e.bytes)
          (length bytes)).0
        ≡ bytes)
      × ((wire e e' bytes (length bytes)).type ≡ data_type)
      × (length (message e' bytes (length bytes)) ≤ 255)
wire_lem e e' bytes v v' h =
    let k = P2pInstruction.make e'.body data_type 0 in
    let (p, at, w) =
      store_bytes_bounded {k = k} bytes (length bytes) (make-IsValid e' v') (omega arith) in
    let sent = P2pInstruction.store_bytes k bytes (length bytes) in
    let (t, f, m, n, z, vr) =
      read_from_message-write_to_message {k = sent} {k' = e.fresh} w v.fresh in
    let whole : take (min (length bytes) (255 - 0)) bytes ≡ bytes =
      take_of_length-le (min (length bytes) (255 - 0)) bytes (omega arith) in
    (
      (load_bytes_lem {k = wire e e' bytes (length bytes)} (take (length bytes) e.bytes) bytes [] vr
          (omega arith) (m ∙ p ∙ whole ∙ sym (append-nil bytes))
          (omega (arith, length-take (length bytes) e.bytes, v.bytes))).0,
      t ∙ store_bytes-type k bytes (length bytes),
      omega (arith, length-write_to_message sent, at, h),
    )

receive_data_lem :
    (e e' : Env) (c : P2pCore) (bytes : List ℕ)
    → EnvOk e
    → EnvOk e'
    → length bytes ≡ c.datalen
    → c.datalen ≤ 32
    → Queue.IsValid c.peerdata
    → c.peerdata.buffer ≡ []
    → (p : FrameCache) × (receive_data e c (wire e e' bytes (length bytes))
        ≡ some (record c { peerdata = p }))
      × (p.buffer ≡ bytes)
      × Queue.IsValid p
unfolding receive_data
receive_data_lem e e' c bytes v v' l s q z =
    let (p, put, b, vp) =
      put_data_lem {k = c.peerdata} bytes q (omega (arith, ap length z, l, s)) in
    let got : (P2pInstruction.load_bytes (wire e e' bytes (length bytes)) (take c.datalen e.bytes)
          c.datalen).0
        ≡ bytes =
      ap
        (λ (n : ℕ).
          (P2pInstruction.load_bytes (wire e e' bytes (length bytes)) (take n e.bytes) n).0)
        (sym l)
      ∙ (wire_lem e e' bytes v v' (omega (arith, l, s))).0 in
    (p, rw (le→ltb 32 c.datalen s, got, put) refl, b ∙ ap (λ (t : List ℕ). t ++ bytes) z, vp)

process_none :
    (fuel : ℕ) (e : Env) (c : P2pCore)
    → has_data c.connection ≡ false
    → process_game_stuff (suc fuel) e none c ≡ some (false, c)
unfolding process_game_stuff
process_none fuel e c h = rw (process_game_stuff, h) refl

-- One message that is at hand, a frame of the peer, is taken, and nothing is left.
process_lem :
    (fuel : ℕ) (e : Env) (datagram : Datagram) (c : P2pCore) (k : P2pInstruction) (m : P2pMessage)
    (p : FrameCache)
    → has_data c.connection ≡ true
    → receive_instructionx datagram c.connection e.fresh ≡ (some k, m)
    → k.type ≡ data_type
    → receive_data e (record c { connection = m }) k
      ≡ some (record c { connection = m; peerdata = p })
    → has_data m ≡ false
    → process_game_stuff (suc (suc fuel)) e datagram c
      ≡ some (false, record c { connection = m; peerdata = p })
unfolding process_game_stuff game_message
process_lem fuel e datagram c k m p h r t d n =
    let is_data : (k.type == data_type) ≡ true = ground (arith, t) in
    let first = ap (λ (o : Option P2pInstruction × P2pMessage). o.0) r in
    let second = ap (λ (o : Option P2pInstruction × P2pMessage). o.1) r in
    rw (process_game_stuff, h, first, second, is_data, d)
      (process_none fuel e (record c { connection = m; peerdata = p }) n)

marked_lem :
    (poll : Poll) (c : P2pCore)
    → c.connection.has_data_waiting ≡ false
    → poll.readable ≡ true
    → marked poll c ≡ record c { connection = record (c.connection) { has_data_waiting = true } }
marked_lem poll c h r = rw (h, r) refl

Ready-has_data :
    (peer : Address) (last : ℕ) (m : P2pMessage) → Ready peer last m → has_data m ≡ false
unfolding has_data
Ready-has_data peer last m r =
    let u = r.unread in
    let empty : (m.in_cache.length == 0) ≡ true = ground (arith, r.taken) in rw (empty, u) refl

marked-has_data :
    (peer : Address) (last : ℕ) (m : P2pMessage)
    → Ready peer last m
    → has_data (record m { has_data_waiting = true }) ≡ true
unfolding has_data
marked-has_data peer last m r =
    let empty : (m.in_cache.length == 0) ≡ true = ground (arith, r.taken) in rw empty refl

pub await_over :
    (e : Env) (polls : List Poll) (ti count : ℕ) (c : P2pCore)
    → waits c ≡ false
    → await_peer e polls ti count c ≡ some (false, (c, polls))
unfolding await_peer
await_over e [] ti count c h = rw (await_peer, h) refl
await_over e (poll ∷ polls) ti count c h = rw (await_peer, h) refl

-- A wait for a frame ends with the datagram that brings it.
pub await_lem :
    (e e' : Env) (poll : Poll) (polls : List Poll) (ti count last : ℕ) (peer : Address)
    (c : P2pCore) (bytes : List ℕ)
    → EnvOk e
    → EnvOk e'
    → Carries e' peer last bytes poll
    → Ready peer last c.connection
    → 1 < c.status
    → 0 < c.datalen
    → c.datalen ≤ 32
    → length bytes ≡ c.datalen
    → Queue.IsValid c.peerdata
    → c.peerdata.buffer ≡ []
    → (m : P2pMessage) × (p : FrameCache) × (await_peer e (poll ∷ polls) ti count c
        ≡ some (false, (record c { connection = m; peerdata = p }, polls)))
      × (p.buffer ≡ bytes)
      × Queue.IsValid p
      × Ready peer ((last + 1) % 256) m
unfolding await_peer
await_lem e e' poll polls ti count last peer c bytes v v' b r st pos s l q z =
    let (loaded, typed, small) = wire_lem e e' bytes v v' (omega (arith, l, s)) in
    let (m, got, ready) =
      receive_instructionx_lem peer b.count last (message e' bytes (length bytes)) b.older
        c.connection e.fresh r b.sent b.few small b.follows in
    let (p, put, held, valid) =
      receive_data_lem (at e poll) e' (record c { connection = m }) bytes
        (record { fresh = v.fresh; body = v.body; bytes = v.bytes }) v' l s q z in
    let taken : P2pCore = record c { connection = m; peerdata = p } in
    let held_none : has_data c.connection ≡ false = Ready-has_data peer last c.connection r in
    let found : (has_data c.connection || poll.readable) ≡ true =
      ground (arith, held_none, b.readable) in
    let waiting : waits c ≡ true = ground (arith, ap length z, pos, st) in
    let over : waits taken ≡ false = ground (arith, ap length held, l) in
    let heard : process_game_stuff stuff_fuel (at e poll) poll.datagram (marked poll c)
        ≡ some (false, taken) =
      ap (λ (x : P2pCore). process_game_stuff stuff_fuel (at e poll) poll.datagram x)
        (marked_lem poll c r.unread b.readable)
      ∙ ap
          (λ (d : Datagram).
            process_game_stuff stuff_fuel (at e poll) d
              (record c { connection = record (c.connection) { has_data_waiting = true } }))
          b.datagram
      ∙ process_lem 33 (at e poll)
          (bundle_of peer b.count last (message e' bytes (length bytes)) b.older)
          (record c { connection = record (c.connection) { has_data_waiting = true } })
          (wire e e' bytes (length bytes)) m p (marked-has_data peer last c.connection r) got typed
          put (Ready-has_data peer ((last + 1) % 256) m ready) in
    (
      m,
      p,
      rw (await_peer, waiting, found, held_none, heard) (await_over e polls ti count taken over),
      held,
      valid,
      ready,
    )
