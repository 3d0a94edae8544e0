-- ===== src/KailleraCore.antt =====
-- kcore/kaillera_core.cpp: the Kaillera client. This module has the state and the commands of the
-- user interface; its children have what is done with the server's messages.
pub mod General
pub mod Step
pub mod Game
pub mod Play
pub mod Bundles
pub mod Frames
pub mod Status
pub mod Handled
pub mod RetryMessages
use kaillera_client.Prelude.{
  ℕ, zero, suc, ◌+◌, ◌^◌, List, [], ◌∷◌, ◌++◌, Bool, true, false, Option, none, some, take, ltb,
  ◌==◌, ◌>>=◌, if◌then◌else◌, replicate, le32, length,
}
use kaillera_client.Containers.Oslist
use kaillera_client.Containers.Oslist.{Oslist}
use kaillera_client.KInstruction
use kaillera_client.KInstruction.{
  KInstruction, InstructionType, type_code, store_string, store_short, store_int, store_char,
  store_bytes, userleav, userpong, partchat, gamechat, tmoutrst, gamemake, gamrleav, gamrjoin,
  gamrkick, gamebegn, gamrdrop, retrycon,
}
use kaillera_client.KMessage
use kaillera_client.KMessage.{KMessage, send_instruction}
use kaillera_client.FrameCache
use kaillera_client.FrameCache.{FrameCache}
use kaillera_client.RetryConnect
use kaillera_client.RetryConnect.{Retry}

-- `PLAYERSTAT`: -1, 0, 1 and 2.
pub data PlayerStat : Type 0 where
  outside idle netsync playing : PlayerStat

-- The functions of the user interface that the core calls, with their arguments; a C string is
-- the list of its characters.
pub data Callback : Type 0 where
  user_join : List ℕ → ℕ → ℕ → ℕ → Callback
  user_leave : List ℕ → List ℕ → ℕ → Callback
  user_add : List ℕ → ℕ → ℕ → ℕ → ℕ → Callback
  duplicate_username : List ℕ → Callback
  game_create : List ℕ → ℕ → List ℕ → List ℕ → Callback
  user_game_create : Callback
  game_add : List ℕ → ℕ → List ℕ → List ℕ → List ℕ → ℕ → Callback
  game_status_change : ℕ → ℕ → ℕ → ℕ → Callback
  game_close : ℕ → Callback
  user_game_closed : Callback
  end_game : Callback
  game : ℕ → ℕ → Callback
  user_game_joined : Callback
  player_add : List ℕ → ℕ → ℕ → ℕ → Callback
  player_joined : List ℕ → ℕ → ℕ → ℕ → Callback
  player_left : List ℕ → ℕ → Callback
  user_kicked : Callback
  player_dropped : List ℕ → ℕ → Callback
  chat game_chat motd : List ℕ → List ℕ → Callback
  login_stat : List ℕ → Callback
  netsync_wait : ℕ → Callback
  error : Callback

-- `KAILLERAC`, with the module of a replayed session, the static variable of
-- `kaillera_retryconnect_pump` and the calls to the user interface, the latest first. An entry of the queues has the bytes behind its two bytes of length.
pub record Core : Type 0 where
  pub connection : Option KMessage
  pub frameno : ℕ
  pub dframeno : ℕ
  pub throughput : ℕ
  pub reqdatalen : ℕ
  pub datalen : ℕ
  pub userdata : FrameCache
  pub incoming_data_cache : Oslist (List ℕ)
  pub gv_queue : Oslist (List ℕ)
  pub playerno : ℕ
  pub app : List ℕ
  pub game_name : List ℕ
  pub username : List ℕ
  pub conset : ℕ
  pub userstat : ℕ
  pub playerstat : PlayerStat
  pub owner : Bool
  pub game_id_requested : Bool
  pub game_id : ℕ
  pub user_id_requested : Bool
  pub leave_game_requested : Bool
  pub user_id : ℕ
  pub tmoutrsttime : ℕ
  pub pending_spoof_announce : Bool
  pub spoof_announce_time : ℕ
  pub retry : Retry
  pub last_resend : ℕ
  pub calls : List Callback

abbrev pub empty_queue : Oslist (List ℕ)
empty_queue = record { items = replicate 256 []; length = 0 }

-- `KAILLERAC` as `kaillera_core_initialize` leaves it at the start of the program, with a socket
-- for `connection`.
unfoldable pub initialize : List ℕ → List ℕ → ℕ → KMessage → Core
initialize appname username connection_setting m = record {
  connection = some m;
  frameno = 0;
  dframeno = 0;
  throughput = 0;
  reqdatalen = 0;
  datalen = 0;
  userdata = FrameCache.init;
  incoming_data_cache = empty_queue;
  gv_queue = empty_queue;
  playerno = 0;
  app = take 127 appname;
  game_name = [];
  username = take 31 username;
  conset = connection_setting;
  userstat = 0;
  playerstat = outside;
  owner = false;
  game_id_requested = false;
  game_id = 0;
  user_id_requested = false;
  leave_game_requested = false;
  user_id = 0;
  tmoutrsttime = 0;
  pending_spoof_announce = false;
  spoof_announce_time = 0;
  retry = RetryConnect.init;
  last_resend = 0;
  calls = [];
}

abbrev pub call : Core → Callback → Core
call c f = record c { calls = f ∷ c.calls }

abbrev pub of_type : InstructionType → KInstruction
of_type t = record KInstruction.init { type = type_code t }

-- A message goes out if there is a connection. `none` is a message that cannot be built.
unfoldable pub transmit : Core → Option KMessage → Option KInstruction → Option Core
transmit c none k = some c
transmit c (some m) none = none
transmit c (some m) (some k) = some (record c { connection = some (send_instruction m k) })

-- The connection, if the user is logged in.
unfoldable pub logged_in : Core → Option KMessage
logged_in c = if ltb 1 c.userstat then c.connection else none

-- The payload of `SendPong`
unfoldable pub pong : Option KInstruction
pong = do k ← store_int (of_type userpong) 0; k ← store_int k 1; k ← store_int k 2; store_int k 3

unfoldable pub send_pong : Core → Option Core
send_pong c = transmit c c.connection pong

unfoldable pub chat_send : Core → List ℕ → Option Core
chat_send c text = transmit c (logged_in c) (store_string (of_type partchat) text)

unfoldable pub game_chat_send : Core → List ℕ → Option Core
game_chat_send c text = transmit c (logged_in c) (store_string (of_type gamechat) text)

-- The message of `RetryConnectSend`
unfoldable pub retrycon_message : ℕ → List ℕ → Option KInstruction
retrycon_message subtype payload = do
  k ← store_char (of_type retrycon) subtype
  k ← store_short k (length payload)
  if ltb 0 (length payload) then store_bytes k payload else some k

unfoldable pub retry_connect_send : Core → ℕ → List ℕ → Option Core
retry_connect_send c subtype payload = transmit c (logged_in c) (retrycon_message subtype payload)

-- `RETRYCON_SELECT`, `RETRYCON_CONTROL`, `RETRYCON_NAK`
abbrev pub retrycon_select : ℕ
retrycon_select = 1

abbrev pub retrycon_control : ℕ
retrycon_control = 2

abbrev pub retrycon_nak : ℕ
retrycon_nak = 3

unfoldable pub send_select : Core → List ℕ → Option Core
send_select c session = retry_connect_send c retrycon_select session

unfoldable pub send_control : Core → ℕ → ℕ → Option Core
send_control c action frame_index =
    retry_connect_send c retrycon_control (action ∷ le32 frame_index)

unfoldable pub send_nak : Core → Option Core
send_nak c = retry_connect_send c retrycon_nak []

unfoldable pub kick_user : Core → ℕ → Option Core
kick_user c id = transmit c (logged_in c) (store_short (of_type gamrkick) id)

unfoldable pub join_message : ℕ → ℕ → Option KInstruction
join_message id conset = do
  k ← store_int (of_type gamrjoin) id
  k ← store_char k 0
  k ← store_int k 0
  k ← store_short k 65535
  store_char k conset

unfoldable pub join_game : Core → ℕ → Option Core
join_game c id = elim c.connection [
  | none ↦ some c
  | some m ↦
      let asked = record c {
        game_id_requested = false;
        game_id = id;
        leave_game_requested = false;
        owner = false;
      } in
      transmit asked c.connection (join_message id c.conset)
]

unfoldable pub create_message : List ℕ → Option KInstruction
create_message name = do
  k ← store_string (of_type gamemake) name
  k ← store_char k 0
  store_int k 4294967295

unfoldable pub create_game : Core → List ℕ → Option Core
create_game c name = elim c.connection [
  | none ↦ some c
  | some m ↦
      let asked = record c { game_name = take 127 name; game_id_requested = true; owner = true } in
      transmit asked c.connection (create_message name)
]

-- What leaving, dropping and ending a game tell the user interface.
abbrev pub local_drop : Core → Core
local_drop c =
    let dropped = call c (player_dropped c.username c.playerno) in
    record dropped { playerstat = idle }

unfoldable pub leave_game : Core → Option Core
leave_game c = do
  sent ←
      transmit (record c { leave_game_requested = true }) c.connection
        (store_short (of_type gamrleav) 65535)
  some (call (call (local_drop sent) end_game) user_game_closed)

unfoldable pub start_game : Core → Option Core
start_game c =
    transmit (record c { leave_game_requested = false }) c.connection
      (store_int (of_type gamebegn) 4294967295)

unfoldable pub drop_message : Option KInstruction
drop_message = do k ← store_char (of_type gamrdrop) 0; store_char k 0

unfoldable pub game_drop : Core → Option Core
game_drop c = do
  sent ← transmit (record c { leave_game_requested = false }) c.connection drop_message
  some (call (local_drop sent) end_game)

-- `kaillera_end_game`
unfoldable pub finish_game : Core → Option Core
finish_game c = do
  sent ← transmit c c.connection drop_message
  some (call (if ltb 1 sent.userstat then local_drop sent else sent) end_game)

unfoldable pub quit_message : List ℕ → Option KInstruction
quit_message quitmsg = do k ← store_short (of_type userleav) 65535; store_string k quitmsg

-- The message goes out three times.
unfoldable pub disconnect : Core → List ℕ → Option Core
disconnect c quitmsg = do
  once ← transmit c (logged_in c) (quit_message quitmsg)
  twice ← transmit once (logged_in once) (quit_message quitmsg)
  thrice ← transmit twice (logged_in twice) (quit_message quitmsg)
  some (record thrice { userstat = 0; playerstat = outside })

unfoldable pub reset_live_frameno : Core → Core
reset_live_frameno c = record c { frameno = 0; userdata = FrameCache.reset c.userdata }

unfoldable pub is_game_running : Core → Bool
is_game_running c = elim c.playerstat [ playing ↦ c.userstat == 3 | _ ↦ false ]
