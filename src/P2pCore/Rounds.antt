-- ===== src/P2pCore/Rounds.antt =====
-- core/p2p_core.cpp: the input of a frame as it is sent, and the calls of a run of frames.
use kaillera_client.Prelude.{
  ℕ, zero, suc, ◌+◌, ◌≤◌, ◌<◌, ◌%◌, ◌^◌, ◌≡◌, refl, ap, ◌∙◌, sym, List, [], ◌∷◌, ◌++◌, Bool, true,
  Option, none, some, arith, length, take, replicate, append_assoc, append-nil, take-append, leb,
  if◌then◌else◌, ◌>>=◌,
}
use kaillera_client.FrameCache.{FrameCache}
use kaillera_client.FrameCache.Queue
use kaillera_client.FrameCache.Queue.{put_data_lem, get_data_lem}
use kaillera_client.P2pInstruction
use kaillera_client.P2pInstruction.{P2pInstruction, remaining}
use kaillera_client.P2pInstruction.Codec
use kaillera_client.P2pInstruction.Codec.{
  store_bytes_bounded, load_bytes_lem, read_from_message-write_to_message, payload,
}
use kaillera_client.P2pMessage.{Address, send_instruction}
use kaillera_client.P2pMessage.Heard.{Older, bundle_of, Ready, send_instruction-Ready}
use kaillera_client.P2pCore.{
  P2pCore, Env, Poll, Result, data_type, send_input, play_sent, modify_play_values,
}

-- A frame of this side, and the frame of the peer with the same number.
abbrev pub Round : Type 0
Round = List ℕ × List ℕ

-- What a side sends of a frame, and how it is read by the other.
abbrev pub message : Env → List ℕ → ℕ → List ℕ
message e bytes n =
    P2pInstruction.write_to_message
      (P2pInstruction.store_bytes (P2pInstruction.make e.body data_type 0) bytes n)

abbrev pub wire : Env → Env → List ℕ → ℕ → P2pInstruction
wire e e' bytes n = P2pInstruction.read_from_message e.fresh (message e' bytes n)

-- A look at the socket that finds a datagram of the peer, the newest message of which is the frame
-- `bytes`; `last` is the message before it.
pub record Carries (e' : Env) (peer : Address) (last : ℕ) (bytes : List ℕ) (poll : Poll)
    : Type 0 where
  pub count : ℕ
  pub older : List ℕ
  pub readable : poll.readable ≡ true
  pub sent : 0 < count
  pub few : count < 15
  pub follows : Older last older
  pub datagram : poll.datagram ≡ bundle_of peer count last (message e' bytes (length bytes)) older

-- The looks bring these frames, in their order.
abbrev pub Brings : Env → Address → ℕ → List (List ℕ) → List Poll → Type 0
Brings e' peer last [] polls = Unit
Brings e' peer last (f ∷ frames) [] = ⊥
Brings e' peer last (f ∷ frames) (poll ∷ polls) =
    Carries e' peer last f poll × Brings e' peer ((last + 1) % 256) frames polls

-- The bytes that a call gives to the game; `none` is a call that returned -1.
abbrev pub output : Result → Option (List ℕ)
output r = elim r.length [ none ↦ none | some l ↦ some (take l r.values) ]

abbrev pub Given : Type 0
Given = Option (Option (List ℕ) × (P2pCore × List Poll))

abbrev pub given : Option Result → Given
given o = do played ← o; some (output played, (played.core, played.polls))

-- A call of every frame of this side, which looks at the socket as it needs to.
abbrev pub run : Env → List Poll → List (List ℕ) → P2pCore → Option (List (Option (List ℕ)))
run e polls [] c = some []
run e polls (x ∷ inputs) c = do
  played ← given (modify_play_values e polls (x ++ replicate c.datalen 0) c)
  rest ← run e played.1.1 inputs played.1.0
  some (played.0 ∷ rest)

abbrev pub joined : Bool → Round → List ℕ
joined host r = if host then r.0 ++ r.1 else r.1 ++ r.0

-- The frames that the game is given, `delay` calls later than they were played.
abbrev pub expected : Bool → ℕ → List Round → List Round → List (Option (List ℕ))
expected host delay queued [] = []
expected host (suc delay) queued (r ∷ rounds) =
    some [] ∷ expected host delay (queued ++ r ∷ []) rounds
expected host zero [] (r ∷ rounds) = some (joined host r) ∷ expected host zero [] rounds
expected host zero (q ∷ queued) (r ∷ rounds) =
    some (joined host q) ∷ expected host zero (queued ++ r ∷ []) rounds

abbrev pub mine : List Round → List ℕ
mine [] = []
mine (r ∷ rounds) = r.0 ++ mine rounds

abbrev pub theirs : List Round → List ℕ
theirs [] = []
theirs (r ∷ rounds) = r.1 ++ theirs rounds

-- The frames of this side, and those of the peer.
abbrev pub inputs : List Round → List (List ℕ)
inputs [] = []
inputs (r ∷ rounds) = r.0 ∷ inputs rounds

abbrev pub peers : List Round → List (List ℕ)
peers [] = []
peers (r ∷ rounds) = r.1 ∷ peers rounds

abbrev pub Sized : ℕ → List Round → Type 0
Sized d [] = Unit
Sized d (r ∷ rounds) = ((length r.0 ≡ d) × (length r.1 ≡ d)) × Sized d rounds

-- The local variables have their sizes.
pub record EnvOk (e : Env) : Type 0 where
  pub fresh : Codec.IsValid e.fresh
  pub body : length e.body ≡ 256
  pub bytes : length e.bytes ≡ 32

-- A game of frames of `d` bytes in which the rounds `queued` are not played yet: the peer's inputs
-- are still to be read, and `last` is the last message of the peer that was read.
pub record Playing (d : ℕ) (peer : Address) (last : ℕ) (queued : List Round) (c : P2pCore)
    : Type 0 where
  pub status : 1 < c.status
  pub datalen : c.datalen ≡ d
  pub user : c.userdata.buffer ≡ mine queued
  pub peer_empty : c.peerdata.buffer ≡ []
  pub user_valid : Queue.IsValid c.userdata
  pub peer_valid : Queue.IsValid c.peerdata
  pub ready : Ready peer last c.connection

pub mine-append : (q : List Round) (r : Round) → mine (q ++ r ∷ []) ≡ mine q ++ r.0
mine-append [] r = append-nil r.0
mine-append (s ∷ q) r =
    ap (λ (t : List ℕ). s.0 ++ t) (mine-append q r) ∙ sym (append_assoc s.0 (mine q) r.0)

send_input_lem :
    (e : Env) (c : P2pCore) (bytes room : List ℕ)
    → length bytes ≡ c.datalen
    → Queue.IsValid c.userdata
    → length c.userdata.buffer + length bytes ≤ 2 ^ 28
    → (u : FrameCache) × (k : P2pInstruction) × (send_input e c (bytes ++ room)
        ≡ some (record c { userdata = u; connection = send_instruction c.connection k }))
      × (u.buffer ≡ c.userdata.buffer ++ bytes)
      × Queue.IsValid u
unfolding send_input
send_input_lem e c bytes room l q r =
    let (u, put, b, vu) = put_data_lem {k = c.userdata} bytes q r in
    let front : take c.datalen (bytes ++ room) ≡ bytes =
      ap (λ (n : ℕ). take n (bytes ++ room)) (sym l) ∙ take-append bytes room in
    let k =
      P2pInstruction.store_bytes (P2pInstruction.make e.body data_type 0) (bytes ++ room)
        c.datalen in
    (u, k, rw (front, put) refl, b, vu)

-- The input of a round goes out: this side's queue has one frame more.
pub queue_round :
    (e : Env) (d : ℕ) (peer : Address) (last : ℕ) (polls : List Poll) (queued : List Round)
    (r : Round) (c : P2pCore)
    → Playing d peer last queued c
    → length r.0 ≡ d
    → length (mine queued) + d ≤ 2 ^ 28
    → (c' : P2pCore) × (given (modify_play_values e polls (r.0 ++ replicate c.datalen 0) c)
        ≡ given (play_sent e polls (r.0 ++ replicate c.datalen 0) c' (leb c.throughput c.frameno)))
      × Playing d peer last (queued ++ r ∷ []) c'
      × (c'.host ≡ c.host)
      × (c'.throughput ≡ c.throughput)
      × (c'.frameno ≡ c.frameno + 1)
unfolding modify_play_values
queue_round e d peer last polls queued r c j lm bm =
    let (u, k, sent, bu, vu) =
      send_input_lem e c r.0 (replicate c.datalen 0) (lm ∙ sym j.datalen) j.user_valid
        (omega (arith, ap length j.user, lm, bm)) in
    let m = send_instruction c.connection k in
    let c' = record c { userdata = u; connection = m; frameno = c.frameno + 1 } in
    (
      c',
      rw sent refl,
      record {
        status = j.status;
        datalen = j.datalen;
        user = bu ∙ ap (λ (t : List ℕ). t ++ r.0) j.user ∙ sym (mine-append queued r);
        user_valid = vu;
        peer_empty = j.peer_empty;
        peer_valid = j.peer_valid;
        ready = send_instruction-Ready peer last c.connection k j.ready;
      },
      refl,
      refl,
      refl,
    )
