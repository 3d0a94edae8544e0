-- ===== src/P2pCore/Start/Sync.antt =====
-- core/p2p_core.cpp, `p2p_SynChronizeClocksOrDie` and the part of `p2p_modify_play_values` that
-- starts a game: the host works out the delay, and the other side takes it over.
use kaillera_client.Prelude.{
  ℕ, ◌+◌, ◌-◌, ◌*◌, ◌/◌, ◌%◌, ◌^◌, min, List, [], ◌∷◌, Bool, true, false, ◌&&◌, Option, none, some,
  ltb, leb, ◌==◌, ◌>>=◌, if◌then◌else◌,
}
use kaillera_client.Containers.Oslist
use kaillera_client.FrameCache
use kaillera_client.P2pInstruction
use kaillera_client.P2pInstruction.{P2pInstruction}
use kaillera_client.P2pCore.{Env, chat_type}
use kaillera_client.P2pCore.Start.{
  Start, Look, Settings, get_time, int_div, is_positive, send, number, look, take_chat,
  wait_for_peer, calculate_ping, tsync_type, ttime_type, start_type, tsync_force, tsync_check,
  tsync_adjust,
}

-- `a < b` as `int`s.
abbrev pub int_lt : ℕ → ℕ → Bool
int_lt a b = ltb ((a + 2 ^ 31) % 2 ^ 32) ((b + 2 ^ 31) % 2 ^ 32)

-- `x * ADJUST_RATIO_T`
abbrev pub adjusted : ℕ → ℕ
adjusted x = int_div x 30

-- The host's loop: `readjustments`, `ttime` and the state.
pub record Adjusting : Type 0 where
  pub readjustments : ℕ
  pub ttime : ℕ
  pub start : Start

-- A check of the other side's clock, at `tick`.
abbrev pub send_check : Env → ℕ → ℕ → Start → Start
send_check e ttime tick s =
    send s (number e tsync_type tsync_check ((get_time s tick + ttime) % 2 ^ 32))

unfoldable pub adjust_message : Env → ℕ → Adjusting → P2pInstruction → Option Adjusting
adjust_message e later a k =
    if k.type == tsync_type
    then if k.flags == tsync_adjust
      then (let dx = (P2pInstruction.load_int k e.int).0 in
          let small = is_positive dx && int_lt dx (adjusted a.ttime) in
          let ttime = (if small then (a.ttime + adjusted dx) % 2 ^ 32 else a.ttime) in
          let count = (if dx == 0 then 5 else a.readjustments + 1) in
          some (record {
            readjustments = count;
            ttime = ttime;
            start = if ltb count 4 then send_check e ttime later a.start else a.start;
          }))
      else some a
    else if k.type == chat_type
    then (do s ← take_chat e a.start k; some (record a { start = s }))
    else some a

unfoldable pub adjust_loop : Env → List Look → Adjusting → Option (Adjusting × List Look)
adjust_loop e [] a = if ltb a.readjustments 4 then none else some (a, [])
adjust_loop e (l ∷ looks) a = elim (ltb a.readjustments 4) [
  | false ↦ some (a, l ∷ looks)
  | true ↦ (do
    let (got, s) = look e l a.start
    a' ← elim got as (λ _. Option Adjusting) [
      | none ↦ some (record a { start = s })
      | some k ↦ adjust_message e l.later (record a { start = s }) k
    ]
    adjust_loop e looks a')
]

-- `calculated_delay`
abbrev pub calculated_delay : Settings → ℕ → ℕ
calculated_delay set ttime =
    (1 + int_div (ttime * 60 % 2 ^ 32) 1000 + (if leb 2 set.pad then set.pad - 1 else 0)) % 2 ^ 32

-- The delay that the host chooses.
unfoldable pub chosen_delay : Settings → ℕ → ℕ
chosen_delay set ttime =
    let delay =
      (if is_positive set.frame_delay_override
        then set.frame_delay_override
        else calculated_delay set ttime) in
    if set.thirty_fps && (is_positive delay && ltb 1 delay) then (delay + 1) / 2 else delay

abbrev pub delay_message : Env → Start → P2pInstruction
delay_message e s = number e ttime_type 0 s.core.throughput

-- The end of the host's part.
unfoldable pub announce_delay : Env → Settings → ℕ → Start → Start
announce_delay e set ttime s =
    let chosen = record s { core = record s.core { throughput = chosen_delay set ttime } } in
    send chosen (delay_message e chosen)

-- The host's part: the tick counts are those before the first `Sleep` and after each of the two.
unfoldable pub sync_host :
    Env → Settings → ℕ → ℕ → ℕ → List Look → Start → Option (Start × List Look)
sync_host e set t0 t1 t2 looks s = do
  let s0 = record s { initial_time = t0 }
  let ttime = (int_div s.ping 2 + (if set.pad == 1 then 4 else 0)) % 2 ^ 32
  let forced = send s0 (number e tsync_type tsync_force ((get_time s0 t1 + ttime) % 2 ^ 32))
  (a, rest) ←
      adjust_loop e looks
        (record { readjustments = 0; ttime = ttime; start = send_check e ttime t2 forced })
  some (announce_delay e set a.ttime a.start, rest)

-- A message on the other side: whether it ends the loop.
unfoldable pub follow_message : Env → Look → Start → P2pInstruction → Option (Bool × Start)
follow_message e l s k =
    let tx = (P2pInstruction.load_int k e.int).0 in
    if k.type == tsync_type
    then if k.flags == tsync_force
      then (let reset = record s { initial_time = l.tick } in
          let behind = (get_time reset l.later + 2 ^ 32 - tx) % 2 ^ 32 in
          some (false, record s { initial_time = (l.tick + behind) % 2 ^ 32 }))
      else if k.flags == tsync_check
      then (let dx = (get_time s l.tick + 2 ^ 32 - tx) % 2 ^ 32 in
          let moved = record s { initial_time = (s.initial_time + adjusted dx) % 2 ^ 32 } in
          some (false, send moved (number e tsync_type tsync_adjust dx)))
      else some (false, s)
    else if k.type == ttime_type
    then some (true, record s { core = record s.core { throughput = tx } })
    else if k.type == chat_type
    then (do s' ← take_chat e s k; some (false, s'))
    else some (false, s)

unfoldable pub sync_other : Env → List Look → Start → Option (Start × List Look)
sync_other e [] s = none
sync_other e (l ∷ looks) s = do
  let (got, s') = look e l s
  r ← elim got as (λ _. Option (Bool × Start)) [
    | none ↦ some (false, s')
    | some k ↦ follow_message e l s' k
  ]
  elim r.0 [ true ↦ some (r.1, looks) | false ↦ sync_other e looks r.1 ]

-- `p2p_SynChronizeClocksOrDie`
unfoldable pub synchronize :
    Env → Settings → ℕ → ℕ → ℕ → List Look → Start → Option (Start × List Look)
synchronize e set t0 t1 t2 looks s = do
  (s', rest) ← if s.core.host then sync_host e set t0 t1 t2 looks s else sync_other e looks s
  some (record s' { core = record s'.core { status = 3 } }, rest)

-- `P2P_GAMESYNC_WAIT`
abbrev pub gamesync_wait : ℕ
gamesync_wait = 900

-- The loop that waits for the time of the start.
unfoldable pub start_loop : Env → List Look → ℕ → Start → Option (Start × List Look)
start_loop e [] start_time s = if start_time == 0 then none else some (s, [])
start_loop e (l ∷ looks) start_time s = elim (start_time == 0) [
  | false ↦ some (s, l ∷ looks)
  | true ↦
      let (got, s') = look e l s in
      let start_time' : ℕ = elim got [
        | none ↦ start_time
        | some k ↦ if k.type == start_type then (P2pInstruction.load_int k e.int).0 else start_time
      ] in
      start_loop e looks start_time' s'
]

-- The tick counts that the start reads between its loops.
pub record Ticks : Type 0 where
  pub ping_first : ℕ
  pub ping_last : ℕ
  pub sync_first : ℕ
  pub sync_forced : ℕ
  pub sync_checked : ℕ
  pub start : ℕ

-- `max(2, min(throughput + 1, 8))`
abbrev pub messages_of : ℕ → ℕ
messages_of throughput =
    let n = (throughput + 1) % 2 ^ 32 in if is_positive n && ltb 2 (min n 8) then min n 8 else 2

-- The host sets the time of the start, and the other side waits for it.
unfoldable pub agree_start : Env → ℕ → List Look → Start → Option (Start × List Look)
agree_start e tick looks s =
    let start_time = (get_time s tick + gamesync_wait) % 2 ^ 32 in
    if s.core.host
    then some (send s (number e start_type 0 start_time), looks)
    else start_loop e looks 0 s

-- `p2p_modify_play_values` when no game is played, up to the wait for the time of the start, after
-- which it calls itself.
unfoldable pub begin_game :
    Env → Settings → Ticks → ℕ → List Look → Start → Option (Start × List Look)
begin_game e set t size looks s = do
  let c = s.core
  (s1, l1) ← wait_for_peer e looks (record s {
    core = record c {
      userdata = FrameCache.reset c.userdata;
      peerdata = FrameCache.reset c.peerdata;
      chat_cache = Oslist.clear c.chat_cache;
      datalen = size;
      status = 1;
    };
  })
  (s2, l2) ←
      if s1.core.status == 2 then calculate_ping e t.ping_first t.ping_last l1 s1 else some (s1, l1)
  (s3, l3) ←
      if s2.core.status == 2
      then synchronize e set t.sync_first t.sync_forced t.sync_checked l2 s2
      else some (s2, l2)
  (s4, l4) ←
      agree_start e t.start l3 (record s3 { core = record s3.core { frameno = 0; crframeno = 0 } })
  let m = s4.core.connection
  some (
    record s4 {
      core = record s4.core {
        connection = record m { default_ipm = messages_of s4.core.throughput };
      };
    },
    l4,
  )
