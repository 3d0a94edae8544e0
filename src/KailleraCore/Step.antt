-- ===== src/KailleraCore/Step.antt =====
-- kcore/kaillera_core.cpp, `kaillera_step` and `kaillera_retryconnect_pump`: the messages that have
-- arrived are handled, and the connection is kept alive.
use kaillera_client.Prelude.{
  ℕ, zero, suc, ◌+◌, ◌-◌, ◌/◌, ◌%◌, ◌^◌, List, Bool, true, false, ◌&&◌, ◌||◌, Option, none, some,
  ltb, ◌==◌, ◌>>=◌, if◌then◌else◌,
}
use kaillera_client.KInstruction
use kaillera_client.KInstruction.{KInstruction, tmoutrst}
use kaillera_client.KMessage.{Datagram, cache_size, has_data, receive_instruction, send_message}
use kaillera_client.RetryConnect
use kaillera_client.KailleraCore.{Core, transmit, logged_in, of_type, chat_send, game_chat_send}
use kaillera_client.KailleraCore.General.{Env, process_general_instruction}

-- One call of `k_socket::check_sockets` and what `recvfrom` gives after it: whether the socket is
-- readable, the datagram, and the time.
pub record Poll : Type 0 where
  pub readable : Bool
  pub datagram : Datagram
  pub now : ℕ

abbrev pub at : Env → Poll → Env
at e poll = record e { now = poll.now }

-- The difference of two times, on 32 bits.
abbrev pub since : ℕ → ℕ → ℕ
since now then_time = (now + 2 ^ 32 - then_time) % 2 ^ 32

-- `KAILLERA_TIMEOUT_RESET`, `KAILLERA_TIMEOUT_NETSYNC_RETR_INTERVAL`
abbrev pub timeout_reset : ℕ
timeout_reset = 60000

abbrev pub retry_interval : ℕ
retry_interval = 5000

-- `check_sockets` marks the connection that has something to read.
unfoldable pub check_sockets : Poll → Core → Core
check_sockets poll c = elim c.connection [
  | none ↦ c
  | some m ↦ record c {
    connection = some (record m { has_data_waiting = m.has_data_waiting || poll.readable });
  }
]

-- The loop `while (connection && connection->has_data())`. There is one datagram at most to read,
-- and each other round takes a message from the cache, so `drain_fuel` is enough.
unfoldable pub drain : ℕ → Env → Datagram → Core → Option Core
drain zero e datagram c = none
drain (suc fuel) e datagram c = elim c.connection [
  | none ↦ some c
  | some m ↦
      let looked = has_data e.now m in
      let got = receive_instruction e.now datagram looked.1 KInstruction.init false in
      let received = record c { connection = some got.1 } in
      elim looked.0 [
        | false ↦ some (record c { connection = some looked.1 })
        | true ↦ elim got.0 [
          | none ↦ drain fuel e none received
          | some read ↦ (do
            k ← read
            handled ← process_general_instruction e received k
            drain fuel e none handled)
        ]
      ]
]

abbrev pub drain_fuel : ℕ
drain_fuel = cache_size + 3

-- The announcement of a false ping, once it is due; `text` is `sprintf` of the ping and of the
-- delay that it aims at.
unfoldable pub announce_spoof : (ℕ → ℕ → List ℕ) → Env → Core → Option Core
announce_spoof text e c =
    if c.pending_spoof_announce && RetryConnect.int_geb e.now c.spoof_announce_time
    then (let line = text e.spoof_ping ((e.spoof_ping + 8) / 16) in
        let announced = record c { pending_spoof_announce = false } in
        if c.userstat == 3 then game_chat_send announced line else chat_send announced line)
    else some c

-- The difference of the times is an `int`: one past 2 ^ 31 counts as negative.
abbrev pub overdue : ℕ → ℕ → Bool
overdue now since_time =
    ltb timeout_reset (since now since_time) && ltb (since now since_time) (2 ^ 31)

-- `TMOUTRST`, once a minute.
unfoldable pub keep_alive : Env → Core → Option Core
keep_alive e c = elim (logged_in c) [
  | none ↦ some c
  | some m ↦
      if overdue e.now c.tmoutrsttime
      then transmit (record c { tmoutrsttime = e.now }) (some m) (some (of_type tmoutrst))
      else some c
]

unfoldable pub step : (ℕ → ℕ → List ℕ) → Env → Poll → Core → Option Core
step text e poll c = elim c.connection [
  | none ↦ some c
  | some m ↦ (do
    drained ← drain drain_fuel (at e poll) poll.datagram (check_sockets poll c)
    announced ← announce_spoof text (at e poll) drained
    keep_alive (at e poll) announced)
]

unfoldable pub resend : Core → Core
resend c = elim c.connection [
  | none ↦ c
  | some m ↦ record c { connection = some (send_message m 5) }
]

-- The line that a replayed session puts off.
unfoldable pub pending_announce : Env → Core → Option Core
pending_announce e c =
    let checked = RetryConnect.check_pending_announce c.retry e.now in
    let posted = record c { retry = checked.1 } in
    elim checked.0 [ none ↦ some posted | some line ↦ game_chat_send posted line ]

-- The resend of `kaillera_retryconnect_pump`, on unsigned numbers.
unfoldable pub pump_resend : Env → Core → Core
pump_resend e c = elim c.connection [
  | none ↦ c
  | some m ↦
      if ltb retry_interval (since e.now c.last_resend)
      then resend (record c { last_resend = e.now })
      else c
]

-- The keep-alive of `kaillera_retryconnect_pump`: its `now` is a `DWORD`, so the difference is
-- unsigned.
unfoldable pub pump_keep_alive : Env → Core → Option Core
pump_keep_alive e c = elim (logged_in c) [
  | none ↦ some c
  | some m ↦
      if ltb timeout_reset (since e.now c.tmoutrsttime)
      then transmit (record c { tmoutrsttime = e.now }) (some m) (some (of_type tmoutrst))
      else some c
]

-- Whether the session goes on, and the state.
unfoldable pub pump : Env → Poll → Core → Option (Bool × Core)
pump e poll c = elim c.retry.active [
  | false ↦ some (false, c)
  | true ↦ (do
    announced ← pending_announce (at e poll) c
    drained ← drain drain_fuel (at e poll) poll.datagram (check_sockets poll announced)
    alive ← pump_keep_alive (at e poll) (pump_resend (at e poll) drained)
    some (alive.retry.active, alive))
]
