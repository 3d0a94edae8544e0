-- ===== src/P2pCore.antt =====
-- core/p2p_core.cpp: the peer-to-peer client while a game is played. Each side sends its input of
-- every frame, and a frame is played once the inputs of both are there.
pub mod Rounds
pub mod Await
pub mod Merged
pub mod Played
pub mod Lockstep
pub mod Silence
pub mod Start
use kaillera_client.Prelude.{
  ℕ, zero, suc, ◌+◌, ◌-◌, ◌*◌, ◌%◌, ◌^◌, List, [], ◌∷◌, ◌++◌, Bool, true, false, ◌&&◌, ◌||◌, Option,
  none, some, length, take, drop, set, replicate, ltb, leb, ◌==◌, ◌>>=◌, if◌then◌else◌, c_str,
}
use kaillera_client.Containers.Oslist
use kaillera_client.Containers.Oslist.{Oslist}
use kaillera_client.FrameCache
use kaillera_client.FrameCache.{FrameCache}
use kaillera_client.P2pInstruction
use kaillera_client.P2pInstruction.{P2pInstruction}
use kaillera_client.P2pMessage
use kaillera_client.P2pMessage.{P2pMessage, Datagram}

-- `DATA`, `DROP`, `CHAT`
abbrev pub data_type : ℕ
data_type = 7

abbrev pub drop_type : ℕ
drop_type = 8

abbrev pub chat_type : ℕ
chat_type = 9

-- `P2P_CHAT_BUFFER_LEN`
abbrev pub chat_room : ℕ
chat_room = 32

-- `p2p_chatstruct`, with what stands in the array `msg[251]`.
pub record ChatLine : Type 0 where
  pub crframeno : ℕ
  pub local : Bool
  pub msg : List ℕ

pub data Callback : Type 0 where
  chat : List ℕ → List ℕ → Callback
  client_dropped : List ℕ → ℕ → Callback
  end_game : Callback

-- The part of `P2PCORE` that a game uses, `p2p_chat_cache`, and the calls of the user interface,
-- the latest first.
pub record P2pCore : Type 0 where
  pub connection : P2pMessage
  pub host : Bool
  pub status : ℕ
  pub throughput : ℕ
  pub frameno : ℕ
  pub crframeno : ℕ
  pub datalen : ℕ
  pub userdata : FrameCache
  pub peerdata : FrameCache
  pub userready : Bool
  pub peerready : Bool
  pub username : List ℕ
  pub peername : List ℕ
  pub last_ping_sent_time : ℕ
  pub last_ping_echo_time : ℕ
  pub chat_cache : Oslist ChatLine
  pub calls : List Callback

-- What the code reads besides its state: the bytes that local variables hold before they are set,
-- and `p2p_GetTime()`.
pub record Env : Type 0 where
  pub fresh : P2pInstruction
  pub body : List ℕ
  pub bytes : List ℕ
  pub int : List ℕ
  pub now : ℕ

-- What a round of a loop reads: whether the socket is readable, the datagram, and the time.
pub record Poll : Type 0 where
  pub readable : Bool
  pub datagram : Datagram
  pub now : ℕ

abbrev pub call : P2pCore → Callback → P2pCore
call c f = record c { calls = f ∷ c.calls }

abbrev pub transmit : P2pCore → P2pInstruction → P2pCore
transmit c k = record c { connection = P2pMessage.send_instruction c.connection k }

-- `p2p_send_chat`. `none` is a cache that is full, where the code writes past its array.
unfoldable pub send_chat : Env → P2pCore → List ℕ → Option P2pCore
send_chat e c text =
    let due = c.frameno + c.throughput + 2 in
    let first = (if Oslist.size c.chat_cache == 0 then record c { crframeno = due } else c) in
    let line : ChatLine = record {
      crframeno = due;
      local = true;
      msg = take 250 (text ++ replicate 250 0) ++ 0 ∷ [];
    } in
    let k = P2pInstruction.store_int (P2pInstruction.make e.body chat_type 0) first.crframeno in
    if ltb (Oslist.size c.chat_cache) chat_room
    then some (
        transmit (record first { chat_cache = Oslist.add c.chat_cache line })
          (P2pInstruction.store_vstring k (some text)))
    else none

-- `p2p_handle_chat_instruction`, on the array of the line that is taken.
unfoldable pub handle_chat : Env → P2pCore → P2pInstruction → Option P2pCore
handle_chat e c k = elim (Oslist.get c.chat_cache (Oslist.size c.chat_cache)) [
  | none ↦ none
  | some old ↦
      let (due, k1) = P2pInstruction.load_int k e.int in
      let (text, k2) = P2pInstruction.load_vstring k1 old.msg in
      let lines = Oslist.add c.chat_cache (record { crframeno = due; local = false; msg = text }) in
      elim (Oslist.get lines 0) [
        | none ↦ none
        | some head ↦ some (record c { chat_cache = lines; crframeno = head.crframeno })
      ]
]

-- The end of the game, for both sides.
abbrev pub both_dropped : P2pCore → P2pCore
both_dropped c =
    let ours = (if c.host then 1 else 2) in
    let theirs = (if c.host then 2 else 1) in
    call (call (call c (client_dropped c.peername theirs)) (client_dropped c.username ours))
      end_game

-- `DATA`, through an array of 32 bytes; `none` is a frame that is longer.
unfoldable pub receive_data : Env → P2pCore → P2pInstruction → Option P2pCore
receive_data e c k = if ltb 32 c.datalen then none else (do
  put ←
      FrameCache.put_data c.peerdata
        (P2pInstruction.load_bytes k (take c.datalen e.bytes) c.datalen).0
  some (record c { peerdata = put }))

-- `p2p_mark_lobby_ping_alive`
abbrev pub mark_lobby_ping_alive : Env → P2pCore → P2pCore
mark_lobby_ping_alive e c = record c { last_ping_sent_time = e.now; last_ping_echo_time = e.now }

unfoldable pub peer_dropped : Env → P2pCore → P2pCore
peer_dropped e c =
    both_dropped
      (mark_lobby_ping_alive e (record c { status = 1; userready = false; peerready = false }))

-- One message of the game: whether the game is over, and the state.
unfoldable pub game_message : Env → P2pCore → P2pInstruction → Option (Bool × P2pCore)
game_message e c k =
    if k.type == data_type
    then (do taken ← receive_data e c k; some (false, taken))
    else if k.type == chat_type
    then (do noted ← handle_chat e c k; some (false, noted))
    else if k.type == drop_type
    then some (true, peer_dropped e c)
    else some (false, c)

-- The loop of `ProcessGameStuff`. There is one datagram at most to read, and each other round
-- takes a message of the 32 slots.
unfoldable pub process_game_stuff : ℕ → Env → Datagram → P2pCore → Option (Bool × P2pCore)
process_game_stuff zero e datagram c = none
process_game_stuff (suc fuel) e datagram c = elim (P2pMessage.has_data c.connection) [
  | false ↦ some (false, c)
  | true ↦
      let got = P2pMessage.receive_instructionx datagram c.connection e.fresh in
      let received = record c { connection = got.1 } in
      elim got.0 [
        | none ↦ process_game_stuff fuel e none received
        | some k ↦ (do
          handled ← game_message e received k
          elim handled.0 [ true ↦ some handled | false ↦ process_game_stuff fuel e none handled.1 ])
      ]
]

abbrev pub stuff_fuel : ℕ
stuff_fuel = P2pMessage.cache_size + 3

unfoldable pub retransmit : P2pCore → P2pCore
retransmit c = record c { connection = P2pMessage.send_message c.connection (c.throughput + 2) }

-- `p2p_drop_game`
unfoldable pub drop_game : Env → P2pCore → P2pCore
drop_game e c =
    let told = record c { connection = P2pMessage.send_tinst c.connection e.body drop_type 0 } in
    both_dropped (
      retransmit (
        mark_lobby_ping_alive e (record told { status = 1; userready = false; peerready = false })))

-- The player's own input is queued and sent.
unfoldable pub send_input : Env → P2pCore → List ℕ → Option P2pCore
send_input e c values = do
  put ← FrameCache.put_data c.userdata (take c.datalen values)
  some (
      transmit (record c { userdata = put })
        (P2pInstruction.store_bytes (P2pInstruction.make e.body data_type 0) values c.datalen))

abbrev pub at : Env → Poll → Env
at e poll = record e { now = poll.now }

abbrev pub waits : P2pCore → Bool
waits c = ltb (FrameCache.pos c.peerdata) c.datalen && ltb 1 c.status

-- `check_sockets` marks the connection.
abbrev pub marked : Poll → P2pCore → P2pCore
marked poll c =
    let m = c.connection in
    record c { connection = record m { has_data_waiting = m.has_data_waiting || poll.readable } }

-- More than 20 ms, as an `int`.
abbrev pub late : ℕ → ℕ → Bool
late now ti = let passed = (now + 2 ^ 32 - ti) % 2 ^ 32 in ltb 20 passed && ltb passed (2 ^ 31)

-- The wait for the peer's input: whether the game is over, the state, and the polls left; `ti` and
-- `count` are `TI` and `TO`. After 320 repetitions the game is given up. `none` if the polls run
-- out.
unfoldable pub await_peer :
    Env → List Poll → ℕ → ℕ → P2pCore → Option (Bool × (P2pCore × List Poll))
await_peer e [] ti count c = elim (waits c) [ false ↦ some (false, (c, [])) | true ↦ none ]
await_peer e (poll ∷ polls) ti count c = elim (waits c) [
  | false ↦ some (false, (c, poll ∷ polls))
  | true ↦
      let held = P2pMessage.has_data c.connection in
      elim (held || poll.readable) [
        | true ↦ (do
          r ←
              process_game_stuff stuff_fuel (at e poll) poll.datagram
                (if held then c else marked poll c)
          elim r.0 [ true ↦ some (true, (r.1, polls)) | false ↦ await_peer e polls ti count r.1 ])
        | false ↦ elim (late poll.now ti) [
          | false ↦ await_peer e polls ti count c
          | true ↦ elim (count + 1 == 320) [
            | true ↦ some (true, (drop_game (at e poll) (retransmit c), polls))
            | false ↦ await_peer e polls poll.now (count + 1) (retransmit c)
          ]
        ]
      ]
]

-- A line of chat that is due.
unfoldable pub show_chat : P2pCore → P2pCore
show_chat c = elim (ltb c.crframeno c.frameno && ltb 0 (Oslist.size c.chat_cache)) [
  | false ↦ c
  | true ↦ elim (Oslist.get c.chat_cache 0) [
    | none ↦ c
    | some line ↦
        let shown =
          call c (chat (if line.local then c.username else c.peername) (c_str line.msg)) in
        let lines = Oslist.removei c.chat_cache 0 in
        let next : ℕ = elim (Oslist.get lines 0) [ none ↦ 5 * c.frameno | some n ↦ n.crframeno ] in
        record shown {
          chat_cache = lines;
          crframeno = if ltb 0 (Oslist.size lines) then next else 5 * c.frameno;
        }
  ]
]

-- What a call returns: the length, `none` for -1, the caller's array, the state and the polls left.
pub record Result : Type 0 where
  pub length : Option ℕ
  pub values : List ℕ
  pub core : P2pCore
  pub polls : List Poll

abbrev pub overlay : ℕ → List ℕ → List ℕ → List ℕ
overlay n bytes values = take n values ++ (bytes ++ drop (n + length bytes) values)

-- The input of the host stands first, on both sides.
unfoldable pub merge_frame : List ℕ → P2pCore → List Poll → Result
merge_frame values c polls =
    let (user, userdata) = FrameCache.get_data c.userdata c.datalen in
    let (peer, peerdata) = FrameCache.get_data c.peerdata c.datalen in
    let first = (if c.host then user else peer) in
    let second = (if c.host then peer else user) in
    if leb c.datalen (FrameCache.pos c.peerdata)
    then record {
      length = some (c.datalen * 2);
      values = overlay c.datalen second (overlay 0 first values);
      core = record c { userdata = userdata; peerdata = peerdata };
      polls = polls;
    }
    else record { length = none; values = values; core = c; polls = polls }

-- What follows the sending, by whether there is a frame to wait for.
unfoldable pub play_sent : Env → List Poll → List ℕ → P2pCore → Bool → Option Result
play_sent e polls values c false =
    some (record { length = some 0; values = values; core = c; polls = polls })
play_sent e polls values c true = do
  r ← await_peer e polls e.now 0 c
  elim r.0 [
    | true ↦ some (record { length = none; values = values; core = r.1.0; polls = r.1.1 })
    | false ↦ some (merge_frame values (show_chat r.1.0) r.1.1)
  ]

-- `p2p_modify_play_values` while a game is played (`status > 1`). The first `throughput` frames are
-- not waited for.
unfoldable pub modify_play_values : Env → List Poll → List ℕ → P2pCore → Option Result
modify_play_values e polls values c = do
  put ← send_input e c values
  play_sent e polls values (record put { frameno = put.frameno + 1 })
      (leb put.throughput put.frameno)
