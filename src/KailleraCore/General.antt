-- ===== src/KailleraCore/General.antt =====
-- kcore/kaillera_core.cpp, `kaillera_ProcessGeneralInstruction`: what the client does with a message
-- of the server outside the game.
use kaillera_client.Prelude.{
  ℕ, zero, suc, ◌+◌, ◌-◌, ◌*◌, ◌/◌, ◌%◌, ◌^◌, min, List, [], ◌∷◌, Bool, true, false, not, ◌&&◌,
  Option, none, some, set, ltb, ◌==◌, ◌>>=◌, if◌then◌else◌, c_str, bytes_eq, from_le32,
}
use kaillera_client.KInstruction.{
  KInstruction, InstructionType, type_code, load_int, load_short, load_char, load_str, load_bytes,
  invdnone, userleav, userjoin, userlogn, longsucc, servping, userpong, partchat, gamechat,
  tmoutrst, gamemake, gamrleav, gamrjoin, gamrslst, gamestat, gamrkick, gameshut, gamebegn,
  gamedata, gamcdata, gamrdrop, gamrsrdy, lognstat, motdline, retrycon,
}
use kaillera_client.RetryConnect
use kaillera_client.KrecReader
use kaillera_client.KailleraCore.{
  Core, outside, idle, netsync, call, send_pong, send_nak, reset_live_frameno, user_join,
  user_leave, user_add, duplicate_username, game_create, user_game_create, game_add,
  game_status_change, game_close, user_game_closed, end_game, game, user_game_joined, player_add,
  player_joined, player_left, user_kicked, player_dropped, chat, game_chat, motd, login_stat, error,
  retrycon_select, retrycon_control, retrycon_nak,
}

-- What the code reads besides its state. `garbage k i` is byte `i` of the `k`-th local variable
-- that a handler leaves uninitialised. `same_name a b` is `_stricmp(a, b) == 0`, `now` is
-- `p2p_GetTime()`, `download` is `DownloadReplay` with the file it makes, and `valid_game` is
-- `ValidateGameBeforePlay`.
pub record Env : Type 0 where
  pub garbage : ℕ → ℕ → ℕ
  pub same_name : List ℕ → List ℕ → Bool
  pub now : ℕ
  pub spoofing : Bool
  pub spoof_ping : ℕ
  pub half_rate : Bool
  pub download : List ℕ → Option (Option (List ℕ))
  pub valid_game : List ℕ → Bool

-- The first `n` of the bytes `f`, the last of them first.
abbrev pub array : (ℕ → ℕ) → ℕ → List ℕ
array f zero = []
array f (suc n) = f n ∷ array f n

-- A message that is being read, and the number of local variables used for it.
pub record Cursor : Type 0 where
  pub message : KInstruction
  pub locals : ℕ

abbrev pub moved : Cursor → KInstruction → Cursor
moved p k = record { message = k; locals = p.locals + 1 }

abbrev pub int : Env → Cursor → ℕ × Cursor
int e p = let (x, k) = load_int p.message (array (e.garbage p.locals) 4) in (x, moved p k)

abbrev pub short : Env → Cursor → ℕ × Cursor
short e p = let (x, k) = load_short p.message (array (e.garbage p.locals) 2) in (x, moved p k)

abbrev pub char : Env → Cursor → ℕ × Cursor
char e p = let (x, k) = load_char p.message (array (e.garbage p.locals) 1) in (x, moved p k)

-- `load_str` into an array of `n` bytes, as the C string that it then holds.
abbrev pub str : Env → ℕ → Cursor → List ℕ × Cursor
str e n p =
    let (s, k) =
      load_str p.message (array (e.garbage (p.locals + 1)) 256) (array (e.garbage p.locals) n) in
    (c_str s, record { message = k; locals = p.locals + 2 })

abbrev pub start : KInstruction → Cursor
start k = record { message = k; locals = 0 }

-- The rounds of `for (x = 0; x < n; x++)` with the 32 bits of an `int` as `n`.
abbrev pub rounds : ℕ → ℕ
rounds n = if ltb n (2 ^ 31) then n else 0

unfoldable pub on_userjoin : Env → Core → KInstruction → Core
on_userjoin e c k =
    let (id, p) = short e (start k) in
    let (ping, p) = int e p in
    let (conn, p) = char e p in
    let logged =
      (if (c.userstat == 1) && e.same_name k.user c.username
        then record c { userstat = 2; tmoutrsttime = e.now }
        else c) in
    call logged (user_join k.user ping id conn)

unfoldable pub on_userleav : Env → Core → KInstruction → Core
on_userleav e c k =
    let (id, p) = short e (start k) in
    let (quitmsg, p) = str e 128 p in call c (user_leave k.user quitmsg id)

unfoldable pub on_gamemake : Env → Core → KInstruction → Core
on_gamemake e c k =
    let (gname, p) = str e 128 (start k) in
    let (emulator, p) = str e 128 p in
    let (id, p) = int e p in
    let told = call c (game_create gname id emulator k.user) in
    let mine =
      bytes_eq gname c.game_name && (bytes_eq emulator c.app && bytes_eq k.user c.username) in
    if c.game_id_requested
    then if mine
      then call
          (record told {
            game_id = id;
            game_id_requested = false;
            user_id_requested = true;
            userstat = 3;
            playerstat = idle;
          })
          user_game_create
      else record told { game_id = id }
    else told

unfoldable pub on_gamestat : Env → Core → KInstruction → Core
on_gamestat e c k =
    let (id, p) = int e (start k) in
    let (status, p) = char e p in
    let (players, p) = char e p in
    let (maxplayers, p) = char e p in call c (game_status_change id status players maxplayers)

unfoldable pub on_gameshut : Env → Core → KInstruction → Core
on_gameshut e c k =
    let (id, p) = int e (start k) in
    let told = call c (game_close id) in
    if id == c.game_id
    then record (call (call told user_game_closed) end_game) { userstat = 2; playerstat = outside }
    else told

-- `(throughput + 1) * conset - 1`, halved and rounded up for a core of 30 frames per second. The
-- connection settings start at 1.
unfoldable pub frame_delay : Bool → ℕ → ℕ → ℕ
frame_delay half_rate throughput conset =
    let delay = (throughput + 1) * conset - 1 in
    if half_rate && ltb 1 delay then (delay + 1) / 2 else delay

unfoldable pub on_gamebegn : Env → Core → KInstruction → Core
on_gamebegn e c k =
    let (throughput, p) = short e (start k) in
    let (playerno, p) = char e p in
    let (players, p) = char e p in
    if c.leave_game_requested
    then c
    else call
        (record c {
          playerstat = netsync;
          throughput = throughput;
          dframeno = frame_delay e.half_rate throughput c.conset;
          playerno = playerno;
        })
        (game playerno players)

-- The loop over the players of a room.
unfoldable pub add_players : Env → ℕ → Cursor → Core → Core
add_players e zero p c = c
add_players e (suc n) p c =
    let (name, p) = str e 32 p in
    let (ping, p) = int e p in
    let (id, p) = short e p in
    let (conn, p) = char e p in add_players e n p (call c (player_add name ping id conn))

-- The announcement that is put off by two seconds.
unfoldable pub schedule_spoof : Env → Core → Core
schedule_spoof e c =
    if e.spoofing && ltb 0 e.spoof_ping
    then record c { pending_spoof_announce = true; spoof_announce_time = (e.now + 2000) % 2 ^ 32 }
    else c

unfoldable pub on_gamrslst : Env → Core → KInstruction → Core
on_gamrslst e c k =
    let joined = (if c.owner then c else call c user_game_joined) in
    let (numplayers, p) = int e (start k) in
    schedule_spoof e
      (add_players e (rounds numplayers) p (record joined { userstat = 3; playerstat = idle }))

unfoldable pub on_gamrjoin : Env → Core → KInstruction → Core
on_gamrjoin e c k =
    let (skipped, p) = int e (start k) in
    let (username, p) = str e 32 p in
    let (ping, p) = int e p in
    let (uid, p) = short e p in
    let (connset, p) = char e p in
    let told = call c (player_joined username ping uid connset) in
    if c.user_id_requested
    then if (c.conset == connset) && bytes_eq username c.username
      then record told { user_id = uid; user_id_requested = false; userstat = 3; playerstat = idle }
      else record told { user_id = uid }
    else told

unfoldable pub on_gamrleav : Env → Core → KInstruction → Core
on_gamrleav e c k =
    let (id, p) = short e (start k) in
    let told = call c (player_left k.user id) in
    if (id == c.user_id) && not c.leave_game_requested
    then record (call told user_kicked) { userstat = 2; playerstat = outside }
    else told

unfoldable pub on_gamrdrop : Env → Core → KInstruction → Core
on_gamrdrop e c k =
    let (gdpl, p) = char e (start k) in
    if c.playerno == gdpl
    then call (record c { userstat = 3; playerstat = idle }) end_game
    else call c (player_dropped k.user gdpl)

-- What follows the choice of a recording, by whether it is taken and whether the file was opened:
-- a refusal goes to the room, and the user is told of a file that cannot be opened.
unfoldable pub after_select : Core → Bool → Bool → Option Core
after_select c true opened = some c
after_select c false true = send_nak c
after_select c false false = send_nak (call c error)

-- `kaillera_retryconnect_select_callback`
unfoldable pub select_callback : Env → Core → List ℕ → Option Core
select_callback e c session = elim (e.download session) [
  | none ↦ send_nak (call c error)
  | some content ↦ (do
    taken ← RetryConnect.select c.retry session content e.valid_game
    after_select (record c { retry = taken.1 }) taken.0
        (KrecReader.open_file c.retry.reader content).0)
]

-- `kaillera_retryconnect_control_callback`
unfoldable pub control_callback : Core → ℕ → ℕ → Core
control_callback c action frame_index =
    let (live, t) = RetryConnect.control c.retry action frame_index in
    let posted = record c { retry = t } in if live then reset_live_frameno posted else posted

-- `kaillera_retryconnect_nak_callback`
unfoldable pub nak_callback : Core → Core
nak_callback c = record (call c error) { retry = RetryConnect.reset_session c.retry }

-- The `switch` on the subtype.
unfoldable pub on_subtype : Env → Core → ℕ → ℕ → Cursor → Option Core
on_subtype e c subtype payload_len p =
    if subtype == retrycon_select
    then (let n = min payload_len 63 in
        let (session, m) = load_bytes p.message (array (e.garbage p.locals) 64) n in
        select_callback e c (c_str (set session n 0)))
    else if subtype == retrycon_control
    then (let (action, q) = char e p in
        let (frame_index, m) = load_bytes q.message (0 ∷ 0 ∷ 0 ∷ 0 ∷ []) 4 in
        some (control_callback c action (from_le32 frame_index)))
    else if subtype == retrycon_nak
    then some (nak_callback c)
    else some c

unfoldable pub on_retrycon : Env → Core → KInstruction → Option Core
on_retrycon e c k =
    let (subtype, p) = char e (start k) in
    let (payload_len, p) = short e p in on_subtype e c subtype payload_len p

-- The loop over the users on the server: the first whose name is ours, and the rest of the message.
unfoldable pub add_users :
    Env → ℕ → Option (List ℕ) → Cursor → Core → Option (List ℕ) × (Cursor × Core)
add_users e zero duplicate p c = (duplicate, (p, c))
add_users e (suc n) duplicate p c =
    let (name, p) = str e 32 p in
    let (ping, p) = int e p in
    let (status, p) = char e p in
    let (id, p) = short e p in
    let (conn, p) = char e p in
    let found : Option (List ℕ) = elim duplicate [
      | some other ↦ some other
      | none ↦ if e.same_name name c.username then some name else none
    ] in
    add_users e n found p (call c (user_add name ping status id conn))

unfoldable pub add_games : Env → ℕ → Cursor → Core → Core
add_games e zero p c = c
add_games e (suc n) p c =
    let (gname, p) = str e 128 p in
    let (id, p) = int e p in
    let (emulator, p) = str e 128 p in
    let (owner, p) = str e 32 p in
    let (users, p) = str e 20 p in
    let (status, p) = char e p in
    add_games e n p (call c (game_add gname id emulator owner users status))

unfoldable pub on_longsucc : Env → Core → KInstruction → Core
on_longsucc e c k =
    let (user_count, p) = int e (start k) in
    let (game_count, p) = int e p in
    let logged = record c { userstat = if c.userstat == 1 then 2 else c.userstat } in
    let (duplicate, rest) = add_users e (rounds user_count) none p logged in
    elim duplicate [
      | some name ↦ call rest.1 (duplicate_username name)
      | none ↦
          let told = add_games e (rounds game_count) rest.0 rest.1 in
          schedule_spoof e (record told { tmoutrsttime = e.now })
    ]

unfoldable pub on_lognstat : Env → Core → KInstruction → Core
on_lognstat e c k =
    let (skipped, p) = short e (start k) in
    let (lsmsg, p) = str e 128 p in call c (login_stat lsmsg)

abbrev pub all_types : List InstructionType
all_types =
    invdnone ∷ userleav ∷ userjoin ∷ userlogn ∷ longsucc ∷ servping ∷ userpong ∷ partchat ∷ gamechat
    ∷ tmoutrst ∷ gamemake ∷ gamrleav ∷ gamrjoin ∷ gamrslst ∷ gamestat ∷ gamrkick ∷ gameshut
    ∷ gamebegn ∷ gamedata ∷ gamcdata ∷ gamrdrop ∷ gamrsrdy ∷ lognstat ∷ motdline ∷ retrycon ∷ []

abbrev pub type_among : List InstructionType → ℕ → Option InstructionType
type_among [] code = none
type_among (t ∷ types) code = if type_code t == code then some t else type_among types code

-- The enumerator of a byte, if there is one.
unfoldable pub type_of : ℕ → Option InstructionType
type_of code = type_among all_types code

-- The `switch`
unfoldable pub handle : Env → Option InstructionType → Core → KInstruction → Option Core
handle e (some userjoin) c k = some (on_userjoin e c k)
handle e (some userleav) c k = some (on_userleav e c k)
handle e (some gamemake) c k = some (on_gamemake e c k)
handle e (some gamestat) c k = some (on_gamestat e c k)
handle e (some gameshut) c k = some (on_gameshut e c k)
handle e (some gamebegn) c k = some (on_gamebegn e c k)
handle e (some gamrslst) c k = some (on_gamrslst e c k)
handle e (some gamrjoin) c k = some (on_gamrjoin e c k)
handle e (some gamrleav) c k = some (on_gamrleav e c k)
handle e (some gamrdrop) c k = some (on_gamrdrop e c k)
handle e (some retrycon) c k = on_retrycon e c k
handle e (some partchat) c k = some (call c (chat k.user (c_str k.buffer)))
handle e (some gamechat) c k = some (call c (game_chat k.user (c_str k.buffer)))
handle e (some motdline) c k = some (call c (motd k.user (c_str k.buffer)))
handle e (some longsucc) c k = some (on_longsucc e c k)
handle e (some servping) c k = if e.spoofing then some c else send_pong c
handle e (some lognstat) c k = some (on_lognstat e c k)
handle e type c k = some c

unfoldable pub process_general_instruction : Env → Core → KInstruction → Option Core
process_general_instruction e c k = handle e (type_of k.type) c k
