-- ===== src/P2pCore/Start.antt =====
-- core/p2p_core.cpp, the start of a game: both sides wait for each other, the host measures the way
-- between them and works out the delay, and both set out at one time.
pub mod Sync
pub mod Delay
use kaillera_client.Prelude.{
  ℕ, zero, suc, ◌+◌, ◌-◌, ◌*◌, ◌/◌, ◌%◌, ◌^◌, min, List, [], ◌∷◌, Bool, true, false, not, ◌&&◌,
  ◌||◌, Option, none, some, ltb, leb, ◌==◌, ◌>>=◌, if◌then◌else◌, take,
}
use kaillera_client.Containers.Oslist
use kaillera_client.FrameCache
use kaillera_client.P2pInstruction
use kaillera_client.P2pInstruction.{P2pInstruction}
use kaillera_client.P2pMessage
use kaillera_client.P2pMessage.{Datagram}
use kaillera_client.P2pCore.{P2pCore, Env, transmit, handle_chat, chat_type}

-- `PING`, `TSYNC`, `TTIME`, `LOAD`, `START` and the flags of `LOAD`, `PING` and `TSYNC`.
abbrev pub ping_type : ℕ
ping_type = 1

abbrev pub tsync_type : ℕ
tsync_type = 3

abbrev pub ttime_type : ℕ
ttime_type = 4

abbrev pub load_type : ℕ
load_type = 5

abbrev pub start_type : ℕ
start_type = 6

abbrev pub load_loaded : ℕ
load_loaded = 1

abbrev pub ping_ping : ℕ
ping_ping = 0

abbrev pub ping_echo : ℕ
ping_echo = 1

abbrev pub tsync_force : ℕ
tsync_force = 1

abbrev pub tsync_check : ℕ
tsync_check = 2

abbrev pub tsync_adjust : ℕ
tsync_adjust = 4

-- What of `P2PCORE` the start uses besides, `p2p_PING_TIME` and `p2p_initial_time`; the numbers
-- are those of 32 bits.
pub record Start : Type 0 where
  pub core : P2pCore
  pub ping : ℕ
  pub pingc : ℕ
  pub ping_time : ℕ
  pub initial_time : ℕ
  pub userloaded : Bool
  pub peerloaded : Bool

-- What a round of a loop reads: whether the socket is readable, the datagram, and the tick count
-- then and, after a `Sleep`, later.
pub record Look : Type 0 where
  pub readable : Bool
  pub datagram : Datagram
  pub tick : ℕ
  pub later : ℕ

-- What the user chose: `p2p_getSelectedDelay()`, `p2p_frame_delay_override` and `p2p_30fps_mode`.
pub record Settings : Type 0 where
  pub pad : ℕ
  pub frame_delay_override : ℕ
  pub thirty_fps : Bool

-- `p2p_GetTime`
abbrev pub get_time : Start → ℕ → ℕ
get_time s tick = (tick + 2 ^ 32 - s.initial_time) % 2 ^ 32

-- Division of an `int` by a positive number, towards zero.
abbrev pub int_div : ℕ → ℕ → ℕ
int_div a n = if ltb a (2 ^ 31) then a / n else (2 ^ 32 - (2 ^ 32 - a) / n) % 2 ^ 32

-- `0 < a` as an `int`.
abbrev pub is_positive : ℕ → Bool
is_positive a = ltb 0 a && ltb a (2 ^ 31)

abbrev pub send : Start → P2pInstruction → Start
send s k = record s { core = transmit s.core k }

-- A message of one number.
abbrev pub number : Env → ℕ → ℕ → ℕ → P2pInstruction
number e type flags x = P2pInstruction.store_int (P2pInstruction.make e.body type flags) x

-- The test of the loops, and the message that is taken.
unfoldable pub look : Env → Look → Start → Option P2pInstruction × Start
look e l s =
    let m = s.core.connection in
    let held = P2pMessage.has_data m in
    let marked =
      (if held then m else record m { has_data_waiting = m.has_data_waiting || l.readable }) in
    let got = P2pMessage.receive_instruction l.datagram marked e.fresh false in
    if held || l.readable
    then (got.0, record s { core = record s.core { connection = got.1 } })
    else (none, s)

unfoldable pub take_chat : Env → Start → P2pInstruction → Option Start
take_chat e s k = do core ← handle_chat e s.core k; some (record s { core = core })

-- A message while one side waits for the other to load.
unfoldable pub loading_message : Env → Start → P2pInstruction → Option Start
loading_message e s k =
    if k.type == load_type
    then (let c = s.core in
        let told = P2pMessage.send_tinst c.connection e.body load_type load_loaded in
        some (record s { core = record c { status = 2; connection = told }; peerloaded = true }))
    else if k.type == chat_type
    then take_chat e s k
    else some s

abbrev pub maybe :
    (Start → P2pInstruction → Option Start) → Start → Option P2pInstruction → Option Start
maybe f s none = some s
maybe f s (some k) = f s k

unfoldable pub loading_loop : Env → List Look → Start → Option (Start × List Look)
loading_loop e [] s = if not s.peerloaded && s.core.status == 1 then none else some (s, [])
loading_loop e (l ∷ looks) s = elim (not s.peerloaded && s.core.status == 1) [
  | false ↦ some (s, l ∷ looks)
  | true ↦ (do
    s' ← maybe (loading_message e) (look e l s).1 (look e l s).0
    loading_loop e looks s')
]

-- `p2p_WaitForPeerToLoadOrDie`; `none` if the looks run out.
unfoldable pub wait_for_peer : Env → List Look → Start → Option (Start × List Look)
wait_for_peer e looks s =
    let c = s.core in
    let told = P2pMessage.send_tinst c.connection e.body load_type load_loaded in
    loading_loop e looks
      (record s { core = record c { connection = told }; userloaded = true; peerloaded = false })

-- `p2p_PING_TIMES`
abbrev pub ping_times : ℕ
ping_times = 4

-- A message while the way is measured.
unfoldable pub ping_message : Env → Start → P2pInstruction → Option Start
ping_message e s k =
    if k.type == ping_type
    then if k.flags == ping_ping
      then if s.core.host
        then (let counted = record s { pingc = s.pingc + 1 } in
            if leb ping_times (s.pingc + 1) then some counted else some (send counted k))
        else some (send s k)
      else some (record s { ping = (P2pInstruction.load_int k e.int).0; pingc = 99 })
    else if k.type == chat_type
    then take_chat e s k
    else some s

unfoldable pub ping_loop : Env → List Look → Start → Option (Start × List Look)
ping_loop e [] s = if ltb s.pingc ping_times then none else some (s, [])
ping_loop e (l ∷ looks) s = elim (ltb s.pingc ping_times) [
  | false ↦ some (s, l ∷ looks)
  | true ↦ (do s' ← maybe (ping_message e) (look e l s).1 (look e l s).0; ping_loop e looks s')
]

-- What the host does after the loop, at `tick`.
unfoldable pub ping_result : Env → ℕ → Start → Start
ping_result e tick s =
    let passed = (get_time s tick + 2 ^ 32 - s.ping_time) % 2 ^ 32 in
    let measured = int_div passed ping_times in
    if s.core.host
    then send (record s { ping = measured }) (number e ping_type ping_echo measured)
    else s

-- `p2p_CalculatePingOrDie`, which begins at `first` and ends at `last`.
unfoldable pub calculate_ping : Env → ℕ → ℕ → List Look → Start → Option (Start × List Look)
calculate_ping e first last looks s = do
  let fresh = record s { pingc = 0 }
  let c = s.core
  let told = P2pMessage.send_tinst c.connection e.body ping_type ping_ping
  (s', rest) ← ping_loop e looks (
      if c.host
      then record fresh { core = record c { connection = told }; ping_time = get_time s first }
      else fresh)
  some (ping_result e last s', rest)
