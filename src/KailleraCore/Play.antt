-- ===== src/KailleraCore/Play.antt =====
-- kcore/kaillera_core.cpp, `kaillera_GameStartSequence` and `kaillera_modify_play_values`: the wait
-- for the other players, and one frame of the game. `player_is_watching()` is taken to be false.
use kaillera_client.Prelude.{
  ℕ, zero, suc, ◌+◌, ◌-◌, ◌*◌, ◌%◌, ◌^◌, List, [], ◌∷◌, ◌++◌, Bool, true, false, ◌&&◌, Option, none,
  some, length, take, drop, ltb, leb, ◌==◌, ◌>>=◌, if◌then◌else◌,
}
use kaillera_client.Containers.Oslist
use kaillera_client.KInstruction
use kaillera_client.KInstruction.{
  KInstruction, type_code, store_short, store_bytes, gamedata, gamrsrdy,
}
use kaillera_client.KMessage.{KMessage, has_data, receive_instruction}
use kaillera_client.FrameCache
use kaillera_client.RetryConnect
use kaillera_client.KailleraCore.{
  Core, PlayerStat, idle, netsync, playing, call, transmit, of_type, game_drop, netsync_wait,
}
use kaillera_client.KailleraCore.General.{Env, process_general_instruction}
use kaillera_client.KailleraCore.Step.{Poll, at, since, retry_interval, check_sockets, resend, pump}
use kaillera_client.KailleraCore.Game.{process_game_instruction}

-- `KAILLERA_TIMEOUT_NETSYNC`
abbrev pub timeout_netsync : ℕ
timeout_netsync = 120000

unfoldable pub receive_from : Env → Poll → KMessage → Core → Option (Option KInstruction) × Core
receive_from e poll m c =
    let got = receive_instruction e.now poll.datagram m KInstruction.init false in
    (got.0, record c { connection = some got.1 })

-- `receive_instruction`, if `has_data()`: what it gives, and the state.
unfoldable pub receive_one : Env → Poll → Core → Option (Option KInstruction) × Core
receive_one e poll c = elim c.connection [
  | none ↦ (none, c)
  | some m ↦
      let looked = has_data e.now m in
      elim looked.0 [
        | false ↦ (none, record c { connection = some looked.1 })
        | true ↦ receive_from e poll looked.1 c
      ]
]

-- `DATALEN` and what follows it, up to the loop.
unfoldable pub start_game_data : Core → ℕ → Option Core
start_game_data c size =
    transmit
      (record c {
        datalen = size;
        reqdatalen = size * c.conset;
        userdata = FrameCache.reset c.userdata;
        frameno = 0;
        incoming_data_cache = Oslist.clear c.incoming_data_cache;
        gv_queue = Oslist.clear c.gv_queue;
      })
      c.connection (some (of_type gamrsrdy))

-- A message during the wait.
unfoldable pub sync_message : Env → Core → KInstruction → Option Core
sync_message e c k =
    if k.type == type_code gamrsrdy
    then some (record c { playerstat = playing })
    else process_general_instruction e c k

-- The end of a round: the time is up, or the wait goes on. `tit` never changes `ti`.
unfoldable pub sync_wait : ℕ → ℕ → Core → Core
sync_wait now ti c =
    let tx = since now ti in
    if ltb timeout_netsync tx && ltb tx (2 ^ 31)
    then record c { playerstat = idle }
    else (let waited = call c (netsync_wait ((timeout_netsync + 2 ^ 32 - tx) % 2 ^ 32)) in
        if leb ((ti + retry_interval) % 2 ^ 32) ti then resend waited else waited)

abbrev pub is_netsync : PlayerStat → Bool
is_netsync netsync = true
is_netsync s = false

abbrev pub is_playing : PlayerStat → Bool
is_playing playing = true
is_playing s = false

-- One round of the wait; `check_sockets` comes first, and nothing is read unless it finds something.
unfoldable pub sync_round : Env → ℕ → Poll → Core → Option Core
sync_round e ti poll c =
    let got =
      (if poll.readable then receive_one (at e poll) poll (check_sockets poll c) else (none, c)) in
    elim got.0 [
      | none ↦ some (sync_wait poll.now ti got.1)
      | some read ↦ (do
        k ← read
        handled ← sync_message (at e poll) got.1 k
        some (if k.type == type_code gamrsrdy then handled else sync_wait poll.now ti handled))
    ]

-- The loop, over what the socket and the clock give in each round: the state, and the polls that
-- are left. `none` if they run out.
unfoldable pub sync_loop : Env → ℕ → List Poll → Core → Option (Core × List Poll)
sync_loop e ti [] c = none
sync_loop e ti (poll ∷ polls) c = elim c.connection [
  | none ↦ some (c, poll ∷ polls)
  | some m ↦ elim (is_netsync c.playerstat) [
    | false ↦ some (c, poll ∷ polls)
    | true ↦ (do next ← sync_round e ti poll c; sync_loop e ti polls next)
  ]
]

unfoldable pub game_start_sequence : Env → List Poll → Core → ℕ → Option (Core × List Poll)
game_start_sequence e polls c size = elim c.connection [
  | none ↦ some (record c { playerstat = idle }, polls)
  | some m ↦ (do ready ← start_game_data c size; sync_loop e e.now polls ready)
]

-- The message that takes the input of `conset` frames.
unfoldable pub input_message : ℕ → List ℕ → Option KInstruction
input_message reqdatalen bytes = do
  k ← store_short (of_type gamedata) (reqdatalen % 2 ^ 16)
  store_bytes k (take reqdatalen bytes)

unfoldable pub flush_input : Core → Option Core
flush_input c =
    if leb c.reqdatalen (FrameCache.pos c.userdata)
    then (do
      sent ← transmit c c.connection (input_message c.reqdatalen c.userdata.buffer)
      some (record sent { userdata = FrameCache.reset sent.userdata }))
    else some c

-- The player's own input is kept until there is enough of it for a message.
unfoldable pub put_input : Core → List ℕ → Option Core
put_input c input = do
  filled ← FrameCache.put_data c.userdata input
  flush_input (record c { userdata = filled })

-- What a call returns: the length, `none` for -1, the caller's array, the state and the polls left.
pub record Result : Type 0 where
  pub length : Option ℕ
  pub values : List ℕ
  pub core : Core
  pub polls : List Poll

-- The head of the queue goes to the game.
unfoldable pub pop_frame : List ℕ → Core → List Poll → Option Result
pop_frame values c polls = elim (is_playing c.playerstat && ltb 0 (Oslist.size c.gv_queue)) [
  | false ↦ some (record { length = none; values = values; core = c; polls = polls })
  | true ↦ (do
    kd ← Oslist.get c.gv_queue 0
    some (record {
      length = some (length kd);
      values = kd ++ drop (length kd) values;
      core = record c { gv_queue = Oslist.removei c.gv_queue 0; frameno = c.frameno + 1 };
      polls = polls;
    }))
]

-- The counters of the wait for a frame.
pub record Patience : Type 0 where
  pub pix : ℕ
  pub ttx : ℕ

-- The timers of a round in which no frame came: the counters, and whether a message is repeated.
unfoldable pub wait_frame : Patience → ℕ → Patience × Bool
wait_frame w now =
    if w.ttx == 0
    then (record { pix = w.pix + 1; ttx = now }, false)
    else if ltb 10 (since now w.ttx)
    then (record { pix = w.pix + 1; ttx = now }, true)
    else (w, false)

-- The sockets are checked only if no message is at hand.
unfoldable pub receive_game : Env → Poll → Core → Option (Option KInstruction) × Core
receive_game e poll c = elim c.connection [
  | none ↦ (none, c)
  | some m ↦
      let looked = has_data e.now m in
      let held = record c { connection = some looked.1 } in
      elim looked.0 [
        | true ↦ receive_from e poll looked.1 c
        | false ↦
            if poll.readable then receive_one e poll (check_sockets poll held) else (none, held)
      ]
]

unfoldable pub game_message : Env → Poll → Core → Option Core
game_message e poll c =
    let got = receive_game e poll c in
    elim got.0 [ none ↦ some got.1 | some read ↦ (do k ← read; process_game_instruction e got.1 k) ]

abbrev pub failed : List ℕ → Core → List Poll → Result
failed values c polls = record { length = none; values = values; core = c; polls = polls }

-- The loop that waits for a frame. During the first `dframeno` calls there is none to wait for.
-- After 500 of its periods the game is given up. `none` if the polls run out.
unfoldable pub play_loop : Env → List Poll → Patience → List ℕ → Core → Option Result
play_loop e [] w values c = none
play_loop e (poll ∷ polls) w values c = elim c.connection [
  | none ↦ some (failed values c (poll ∷ polls))
  | some m ↦ (do
    got ← game_message (at e poll) poll c
    elim (ltb got.frameno got.dframeno) [
      | true ↦ some (record {
        length = some 0;
        values = values;
        core = record got { frameno = got.frameno + 1 };
        polls = polls;
      })
      | false ↦ elim (ltb 0 (Oslist.size got.gv_queue)) [
        | true ↦ pop_frame values got polls
        | false ↦
            let waited = wait_frame w poll.now in
            let nudged = (if waited.1 then resend got else got) in
            elim (waited.1 && (waited.0.pix == 500)) [
              | true ↦ (do dropped ← game_drop nudged; some (failed values dropped polls))
              | false ↦ elim (is_playing nudged.playerstat) [
                | true ↦ play_loop e polls waited.0 values nudged
                | false ↦ pop_frame values nudged polls
              ]
            ]
      ]
    ])
]

-- `PLAYERSTAT == 2 && kaillera_retryconnect_pump()`
unfoldable pub pumped : Env → List Poll → Core → Option (Bool × (Core × List Poll))
pumped e polls c = elim (is_playing c.playerstat && c.retry.active) [
  | false ↦ some (false, (c, polls))
  | true ↦ elim polls [ [] ↦ none | poll ∷ rest ↦ (do r ← pump e poll c; some (r.0, (r.1, rest))) ]
]

-- A frame of a recording that the room replays.
unfoldable pub replay_frame : List ℕ → Core → List Poll → Option Result
replay_frame values c polls = do
  served ← RetryConnect.modify_play_values c.retry values
  some (record {
    length = some served.0;
    values = served.1;
    core = record c { retry = served.2 };
    polls = polls;
  })

-- `kaillera_modify_play_values`, with the caller's array as `values`. It calls itself after the
-- wait for the other players, which leaves the wait over; two levels are enough.
unfoldable pub modify_play_values : ℕ → Env → List Poll → List ℕ → ℕ → Core → Option Result
modify_play_values zero e polls values size c = none
modify_play_values (suc fuel) e polls values size c = elim c.connection [
  | none ↦ some (failed values c polls)
  | some m ↦ (do
    r ← pumped e polls c
    elim r.0 [
      | true ↦ replay_frame values r.1.0 r.1.1
      | false ↦ elim (ltb 2 r.1.0.userstat) [
        | false ↦ some (failed values r.1.0 r.1.1)
        | true ↦ elim r.1.0.playerstat [
          | playing ↦ (do
            put ← put_input r.1.0 (take size values)
            play_loop e r.1.1 (record { pix = 0; ttx = 0 }) values put)
          | netsync ↦ (do
            synced ← game_start_sequence e r.1.1 r.1.0 size
            modify_play_values fuel e synced.1 values size synced.0)
          | _ ↦ some (failed values r.1.0 r.1.1)
        ]
      ]
    ])
]
