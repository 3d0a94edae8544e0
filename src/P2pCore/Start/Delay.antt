-- ===== src/P2pCore/Start/Delay.antt =====
-- core/p2p_core.cpp, the delay of a game: what the host chooses and what the other side hears.
use kaillera_client.Prelude.{
  ℕ, ◌-◌, ◌^◌, ◌≤◌, ◌<◌, ◌≡◌, refl, ap, ap₂, ◌∙◌, sym, List, [], ◌++◌, true, some, length, take,
  min, arith, le32, from_le32, from_le32-le32, append-nil,
}
use kaillera_client.P2pInstruction
use kaillera_client.P2pInstruction.{
  P2pInstruction, store_int, load_int, read_from_message, write_to_message, remaining,
}
use kaillera_client.P2pInstruction.Codec.{
  IsValid, payload, store_bytes_bounded, load_bytes_lem, read_from_message-write_to_message,
}
use kaillera_client.P2pCore.{Env}
use kaillera_client.P2pCore.Start.{Start, Look, Settings, ttime_type}
use kaillera_client.P2pCore.Start.Sync.{chosen_delay, delay_message, announce_delay, follow_message}

type-store_bytes :
    (k : P2pInstruction) (src : List ℕ) (n : ℕ) → (P2pInstruction.store_bytes k src n).type ≡ k.type
unfolding P2pInstruction.store_bytes
type-store_bytes k src n = refl

-- A number in a message of its own.
int_round_trip :
    {k k' : P2pInstruction} (x : ℕ) (junk : List ℕ)
    → IsValid k
    → IsValid k'
    → k.pos ≡ 0
    → x < 2 ^ 32
    → length junk ≡ 4
    → let r = read_from_message k' (write_to_message (store_int k x)) in
      ((load_int r junk).0 ≡ x) × (r.type ≡ k.type)
unfolding store_int load_int
int_round_trip {k} {k'} x junk v w z h j =
    let (p, q, u) = store_bytes_bounded {k = k} (le32 x) 4 v (omega arith) in
    let (t, f, m, n, zero_pos, vr) =
      read_from_message-write_to_message {k = store_int k x} {k' = k'} u w in
    let room : min 4 (255 - k.pos) ≡ 4 = omega arith in
    let stored : payload (store_int k x) ≡ le32 x ++ [] =
      p ∙ ap₂ (λ (i j : ℕ). take i k.body ++ take j (le32 x)) z room ∙ sym (append-nil (le32 x)) in
    let got =
      load_bytes_lem {k = read_from_message k' (write_to_message (store_int k x))} junk (le32 x) []
        vr (omega arith) (m ∙ stored) j in
    (ap from_le32 got.0 ∙ from_le32-le32 x h, t ∙ type-store_bytes k (le32 x) 4)

chosen_delay-lt : (set : Settings) (ttime : ℕ) → chosen_delay set ttime < 2 ^ 32
unfolding chosen_delay
chosen_delay-lt set ttime = ground arith

-- Where the measured way is less than 17 minutes, and the user's choices are numbers below a
-- million, the delay is a frame at least.
chosen_delay-positive :
    (set : Settings) (ttime : ℕ) → ttime < 1000000 → set.pad < 1000000 → 1 ≤ chosen_delay set ttime
unfolding chosen_delay
chosen_delay-positive set ttime h k = ground arith

-- What the other side makes of a message of the delay.
follow_message-ttime :
    (e : Env) (l : Look) (s : Start) (k : P2pInstruction)
    → k.type ≡ ttime_type
    → follow_message e l s k
      ≡ some (true, record s { core = record s.core { throughput = (load_int k e.int).0 } })
unfolding follow_message
follow_message-ttime e l s k h = rw (h, follow_message) refl

-- Where the measured way is less than 1000 seconds, and the user's own choice is below a million:
-- the host's message of the delay, sent and read into a valid object in which a local `int` has its
-- four bytes, ends the other side's loop with the delay that the host plays with, and that is a
-- frame at least.
pub announce_delay-follow_message :
    (e e' : Env) (set : Settings) (ttime : ℕ) (l : Look) (host other : Start) (k : P2pInstruction)
    → length e.body ≡ 256
    → length e'.int ≡ 4
    → IsValid k
    → ttime < 1000000
    → set.pad < 1000000
    → let h = announce_delay e set ttime host in
      let received = read_from_message k (write_to_message (delay_message e h)) in
      (follow_message e' l other received
        ≡ some (true, record other { core = record other.core { throughput = h.core.throughput } }))
      × (1 ≤ h.core.throughput)
unfolding announce_delay
announce_delay-follow_message e e' set ttime l host other k b j v small pad =
    let x = chosen_delay set ttime in
    let fresh : IsValid (P2pInstruction.make e.body ttime_type 0) = record {
      body = b;
      pos = omega arith;
      len = omega arith;
      type = omega arith;
      flags = omega arith;
    } in
    let (got, type) =
      int_round_trip {k = P2pInstruction.make e.body ttime_type 0} {k' = k} x e'.int fresh v refl
        (chosen_delay-lt set ttime) j in
    let received =
      read_from_message k
        (write_to_message (store_int (P2pInstruction.make e.body ttime_type 0) x)) in
    (
      follow_message-ttime e' l other received type
          ∙ ap
              (λ (n : ℕ). some (true, record other { core = record other.core { throughput = n } }))
              got,
      chosen_delay-positive set ttime small pad,
    )
