-- ===== src/RetryConnect.antt =====
-- kcore/kaillera_retryconnect.cpp: the session in which a room replays a recording together before
-- it goes on live. The messages that it sends are in KailleraCore.
pub mod Serve
pub mod Order
pub mod Select
use kaillera_client.Prelude.{
  ℕ, zero, suc, ◌+◌, ◌%◌, ◌^◌, min, List, [], ◌∷◌, ◌++◌, Bool, true, false, Option, none, some,
  length, take, drop, leb, not, c_str, ◌==◌, if◌then◌else◌, replicate, ◌>>=◌, ◌&&◌,
}
use kaillera_client.KrecReader
use kaillera_client.KrecReader.{KrecReader, RecordType, eof, unknown, chat, input, drop_record}

-- `RC_ACTION_GO_LIVE`; no action is 0.
abbrev pub go_live : ℕ
go_live = 3

-- `sizeof(g_last_frame)`
abbrev pub frame_room : ℕ
frame_room = 256

-- The module's variables. `last_frame` holds the bytes `g_last_frame[0..g_last_frame_len)`.
pub record Retry : Type 0 where
  pub active : Bool
  pub session_id : List ℕ
  pub reader : KrecReader
  pub total_frames : Option ℕ
  pub last_frame : List ℕ
  pub pending_action : ℕ
  pub pending_frame : ℕ
  pub pending_announce : List ℕ
  pub announce_deadline : ℕ

abbrev pub init : Retry
init = record {
  active = false;
  session_id = [];
  reader = KrecReader.init;
  total_frames = none;
  last_frame = [];
  pending_action = 0;
  pending_frame = 0;
  pending_announce = [];
  announce_deadline = 0;
}

-- `ResetSession`
unfoldable pub reset_session : Retry → Retry
reset_session t = record t {
  active = false;
  reader = KrecReader.close t.reader;
  last_frame = [];
  pending_action = 0;
  total_frames = none;
}

-- What both sides do with a recording that was downloaded, `none` if the file cannot be opened:
-- whether it is taken, and the session. `valid_game` is `ValidateGameBeforePlay`.
unfoldable pub select : Retry → List ℕ → Option (List ℕ) → (List ℕ → Bool) → Option (Bool × Retry)
select t session content valid_game =
    let opened = KrecReader.open_file t.reader content in
    if opened.0
    then (if valid_game (c_str opened.1.game_name)
        then (do
          counted ← KrecReader.count_total_frames opened.1
          some (
            true,
            record t {
              active = true;
              session_id = take 63 session;
              reader = counted.1;
              total_frames = some counted.0;
              last_frame = [];
              pending_action = 0;
            },
          ))
        else some (false, record t { reader = KrecReader.close opened.1 }))
    else some (false, record t { reader = opened.1 })

-- The deadline of the line that the host announces. A deadline of 0 would mean that there is none.
unfoldable pub announce : Retry → ℕ → List ℕ → Retry
announce t now text =
    let deadline = (now + 5000) % 2 ^ 32 in
    record t {
      pending_announce = take 199 text;
      announce_deadline = if deadline == 0 then 1 else deadline;
    }

-- `>=` on the 32 bits of two `int`s.
abbrev pub int_geb : ℕ → ℕ → Bool
int_geb a b = leb ((b + 2 ^ 31) % 2 ^ 32) ((a + 2 ^ 31) % 2 ^ 32)

-- `kaillera_retryconnect_check_pending_announce`: the line to send, if it is due.
unfoldable pub check_pending_announce : Retry → ℕ → Option (List ℕ) × Retry
check_pending_announce t now =
    if not (t.announce_deadline == 0) && int_geb now t.announce_deadline
    then (some t.pending_announce, record t { announce_deadline = 0 })
    else (none, t)

-- `kaillera_retryconnect_control_callback`: whether the game goes live, and the session.
unfoldable pub control : Retry → ℕ → ℕ → Bool × Retry
control t action frame_index =
    let posted = record t { pending_action = action; pending_frame = frame_index } in
    if action == go_live then (true, record posted { active = false }) else (false, posted)

-- `kaillera_retryconnect_poll`
unfoldable pub poll : Retry → Option (ℕ × ℕ) × Retry
poll t =
    if t.pending_action == 0
    then (none, t)
    else (some (t.pending_action, t.pending_frame), record t { pending_action = 0 })

-- The loop of `kaillera_retryconnect_modify_play_values`, with the caller's array `values` as its
-- contents: the length returned, and the array. `none` is fuel that runs out.
unfoldable pub serve : ℕ → Retry → List ℕ → Option (ℕ × List ℕ × Retry)
serve zero t values = none
serve (suc fuel) t values =
    let next = KrecReader.next_record t.reader (some frame_room) in
    let copied = next.values ++ drop (length next.values) values in
    let read = record t { reader = next.reader } in
    let kept = take (length t.last_frame) t.last_frame ++ drop (length t.last_frame) values in
    elim next.type [
      | input ↦ some (
        next.out_len,
        copied,
        record read { last_frame = take (min next.out_len frame_room) copied },
      )
      | chat ↦ serve fuel read values
      | drop_record ↦ serve fuel read values
      | _ ↦ some (length t.last_frame, kept, read)
    ]

unfoldable pub modify_play_values : Retry → List ℕ → Option (ℕ × List ℕ × Retry)
modify_play_values t values = serve (KrecReader.scan_fuel t.reader) t values

-- `none` stands for -1.
unfoldable pub get_frame_index : Retry → Option ℕ
get_frame_index t = if t.active then some (KrecReader.frame_index t.reader) else none

unfoldable pub get_total_frames : Retry → Option ℕ
get_total_frames t = if t.active then t.total_frames else none

-- `kaillera_retryconnect_can_control`, with `kaillera_is_host()` as an argument.
unfoldable pub can_control : Bool → Retry → Bool
can_control is_host t = t.active && is_host

unfoldable pub seek_local : Bool → Retry → ℕ → Option Retry
seek_local is_host t frame_index =
    if can_control is_host t
    then (do
      sought ← KrecReader.seek_to_frame t.reader frame_index
      some (record t { reader = sought }))
    else some t

-- The end of `kaillera_retryconnect_download_state`, once a state was downloaded for `frame_index`.
unfoldable pub download_state : Retry → ℕ → Option Retry
download_state t frame_index = do
  sought ← KrecReader.seek_to_frame t.reader frame_index
  some (record t { reader = sought })
