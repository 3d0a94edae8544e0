-- ===== src/KrecReader.antt =====
-- common/krec_reader.h: the reader of .krec recordings.
pub mod Markers
pub mod Progress
pub mod Loads
pub mod Open
pub mod Scan
use kaillera_client.Prelude.{
  ℕ, zero, suc, ◌+◌, ◌-◌, min, List, [], ◌∷◌, ◌++◌, Bool, true, false, not, ◌&&◌, ◌||◌, Option,
  none, some, length, take, drop, set, get_or, ltb, leb, ◌==◌, if◌then◌else◌, strlen, c_str,
  from_le16, from_le32, codes, replicate, bytes_eq,
}

-- `krec_record_type`
pub data RecordType : Type 0 where
  eof unknown chat input drop_record : RecordType

-- `== KREC_EOF`
abbrev pub is_eof : RecordType → Bool
is_eof eof = true
is_eof _ = false

-- The object over a buffer that is in memory: `ptr` is the offset from `buffer`, and `end` is its
-- length; a closed reader has the empty buffer. The character arrays are lists of their size. The
-- numbers are 32-bit patterns.
pub record KrecReader : Type 0 where
  pub buffer : List ℕ
  pub ptr : ℕ
  pub owns_buffer : Bool
  pub app_name : List ℕ
  pub game_name : List ℕ
  pub playerno : ℕ
  pub numplayers : ℕ
  pub is_krc1 : Bool
  pub frames_consumed : ℕ
  pub last_drop_nick : List ℕ
  pub last_drop_playerno : ℕ
  pub last_chat_nick : List ℕ
  pub last_chat_msg : List ℕ

-- The constructor.
abbrev pub init : KrecReader
init = record {
  buffer = [];
  ptr = 0;
  owns_buffer = false;
  app_name = replicate 128 0;
  game_name = replicate 128 0;
  playerno = 0;
  numplayers = 0;
  is_krc1 = false;
  frames_consumed = 0;
  last_drop_nick = replicate 100 0;
  last_drop_playerno = 0;
  last_chat_nick = replicate 100 0;
  last_chat_msg = replicate 500 0;
}

abbrev pub end_of : KrecReader → ℕ
end_of r = length r.buffer

unfoldable pub close : KrecReader → KrecReader
close r = record r { buffer = []; ptr = 0; owns_buffer = false; frames_consumed = 0 }

-- `load_bytes(out, len)`: the bytes that go to the front of `out`, none in the last 10 bytes of the
-- buffer.
unfoldable pub load_bytes : KrecReader → ℕ → List ℕ × KrecReader
load_bytes r len =
    if ltb (r.ptr + 10) (end_of r)
    then (let p = min len (end_of r - r.ptr) in
        (take p (drop r.ptr r.buffer), record r { ptr = r.ptr + p }))
    else ([], r)

-- The length that `load_str` works out. A string that runs past `end` gives the second bound
-- whatever stands there.
unfoldable pub str_len : KrecReader → ℕ → ℕ
str_len r maxlen = min (min maxlen (strlen (drop r.ptr r.buffer) + 1)) (end_of r - r.ptr + 1)

-- `load_str(out, maxlen)` on an array of `maxlen` bytes: its contents afterwards, and the index of
-- the final `out[len] = 0`, which changes nothing here where it is `maxlen`, one past the array.
unfoldable pub load_str : KrecReader → List ℕ → List ℕ × ℕ × KrecReader
load_str r out =
    let len = str_len r (length out) in
    let loaded = load_bytes r len in
    (set (loaded.0 ++ drop (length loaded.0) out) len 0, len, loaded.1)

unfoldable pub load_int : KrecReader → ℕ × KrecReader
load_int r = let loaded = load_bytes r 4 in (from_le32 loaded.0, loaded.1)

unfoldable pub load_char : KrecReader → ℕ × KrecReader
load_char r = let loaded = load_bytes r 1 in (get_or loaded.0 0 0, loaded.1)

unfoldable pub load_short : KrecReader → ℕ × KrecReader
load_short r = let loaded = load_bytes r 2 in (from_le16 loaded.0, loaded.1)

abbrev pub header_size : Bool → ℕ
header_size is_krc1 = if is_krc1 then 400 else 272

-- `open_from_memory(data, len)`. The NUL that may go one past `app_name` or `game_name` is
-- overwritten by the loads that follow.
unfoldable pub open_from_memory : KrecReader → List ℕ → Bool × KrecReader
open_from_memory r content =
    let closed = close r in
    if ltb (length content) 272
    then (false, closed)
    else (let krc1 = bytes_eq (take 4 content) (codes "KRC1") in
        let known = record closed { is_krc1 = krc1 } in
        if ltb (length content) (header_size krc1)
        then (false, known)
        else (let at_app = record known { buffer = content; ptr = 4 } in
            let app = load_str at_app at_app.app_name in
            let at_game = record app.2 { app_name = app.0; ptr = 132 } in
            let game = load_str at_game at_game.game_name in
            let at_numbers = record game.2 { game_name = game.0; ptr = 264 } in
            let player = load_int at_numbers in
            let players = load_int player.1 in
            (
              true,
              record players.1 {
                playerno = player.0;
                numplayers = players.0;
                ptr = header_size krc1;
                owns_buffer = false;
              },
            )))

-- `open_file(path)`, with the file's content as `CreateFile` and `ReadFile` give it.
unfoldable pub open_file : KrecReader → Option (List ℕ) → Bool × KrecReader
open_file r none = (false, close r)
open_file r (some content) =
    if ltb (length content) 272
    then (false, close r)
    else (let opened = open_from_memory (close r) content in
        if opened.0 then (true, record opened.1 { owns_buffer = true }) else (false, opened.1))

unfoldable pub at_end : KrecReader → Bool
at_end r = not (ltb (r.ptr + 10) (end_of r))

unfoldable pub frame_index : KrecReader → ℕ
frame_index r = r.frames_consumed

-- What `next_record` gives: the type, the bytes stored at `out_values`, `*out_len`, the reader.
pub record Next : Type 0 where
  pub type : RecordType
  pub values : List ℕ
  pub out_len : ℕ
  pub reader : KrecReader

-- `out_values ? min(l, max_size) : 0`, where `wanted` is `max_size`, or `none` for `NULL`.
unfoldable pub wanted_bytes : Option ℕ → ℕ → ℕ
wanted_bytes none l = 0
wanted_bytes (some max_size) l = min l max_size

unfoldable pub copy_values : KrecReader → ℕ → List ℕ × KrecReader
copy_values r n = if ltb 0 n then load_bytes r n else ([], r)

-- The part of the payload that was not copied.
unfoldable pub skip_rest : KrecReader → ℕ → KrecReader
skip_rest r remaining = record r { ptr = r.ptr + min remaining (end_of r - r.ptr) }

unfoldable pub count_frame : KrecReader → KrecReader
count_frame r = record r { frames_consumed = r.frames_consumed + 1 }

-- The input record, behind its type byte.
unfoldable pub next_input : KrecReader → Option ℕ → Next
next_input r wanted =
    let short = load_short r in
    let l = short.0 in
    let n = wanted_bytes wanted l in
    let loaded = copy_values short.1 n in
    record {
      type = input;
      values = loaded.0;
      out_len = l;
      reader = count_frame (skip_rest loaded.1 (l - n));
    }

unfoldable pub next_drop : KrecReader → Next
next_drop r =
    let nick = load_str r r.last_drop_nick in
    let player = load_int (record nick.2 { last_drop_nick = nick.0 }) in
    record {
      type = drop_record;
      values = [];
      out_len = 0;
      reader = record player.1 { last_drop_playerno = player.0 };
    }

-- The NUL that goes one past `last_chat_nick` stands at the front of `last_chat_msg`.
unfoldable pub next_chat : KrecReader → Next
next_chat r =
    let nick = load_str r r.last_chat_nick in
    let msg =
      (if nick.1 == length r.last_chat_nick then set r.last_chat_msg 0 0 else r.last_chat_msg) in
    let text = load_str (record nick.2 { last_chat_nick = nick.0; last_chat_msg = msg }) msg in
    record {
      type = chat;
      values = [];
      out_len = 0;
      reader = record text.2 { last_chat_msg = text.0 };
    }

unfoldable pub next_record : KrecReader → Option ℕ → Next
next_record r wanted =
    if at_end r
    then record { type = eof; values = []; out_len = 0; reader = r }
    else (let b = load_char r in
        if b.0 == 0x12
        then next_input b.1 wanted
        else if b.0 == 0x14
        then next_drop b.1
        else if b.0 == 0x08
        then next_chat b.1
        else record { type = unknown; values = []; out_len = 0; reader = b.1 })

-- Right after the header, as the scans start.
unfoldable pub rewind : KrecReader → KrecReader
rewind r = record r { ptr = header_size r.is_krc1; frames_consumed = 0 }

-- The loop of `seek_to_frame`, with `none` for fuel that runs out.
unfoldable pub seek_loop : ℕ → ℕ → KrecReader → Option KrecReader
seek_loop zero target r = none
seek_loop (suc fuel) target r = elim (ltb r.frames_consumed target) [
  | false ↦ some r
  | true ↦
      let next = next_record r none in
      elim (is_eof next.type) [
        | true ↦ some next.reader
        | false ↦ seek_loop fuel target next.reader
      ]
]

-- A record takes a byte at least, so these rounds are enough.
abbrev pub scan_fuel : KrecReader → ℕ
scan_fuel r = length r.buffer + 2

unfoldable pub seek_to_frame : KrecReader → ℕ → Option KrecReader
seek_to_frame r target = seek_loop (scan_fuel r) target (rewind r)

-- The loop of `count_total_frames`.
unfoldable pub count_loop : ℕ → KrecReader → Option KrecReader
count_loop zero r = none
count_loop (suc fuel) r =
    let next = next_record r none in
    elim (is_eof next.type) [ true ↦ some next.reader | false ↦ count_loop fuel next.reader ]

-- The read position is put back afterwards.
unfoldable pub restore : KrecReader → KrecReader → KrecReader
restore saved r = record r { ptr = saved.ptr; frames_consumed = saved.frames_consumed }

unfoldable pub count_total_frames : KrecReader → Option (ℕ × KrecReader)
count_total_frames r = elim (count_loop (scan_fuel r) (rewind r)) [
  | none ↦ none
  | some scanned ↦ some (scanned.frames_consumed, restore r scanned)
]

-- The loop of `detect_marker`, over a parser of the chat text; `none` stands for a negative result.
unfoldable pub detect_loop {ℓ} :
    {A : Type ℓ} → (List ℕ → Option A) → ℕ → KrecReader → Option A × KrecReader
detect_loop parse zero r = (none, r)
detect_loop parse (suc i) r =
    let next = next_record r none in
    let more = detect_loop parse i next.reader in
    elim next.type [
      | chat ↦ elim (parse (c_str next.reader.last_chat_msg)) [
        | some found ↦ (some found, next.reader)
        | none ↦ more
      ]
      | drop_record ↦ more
      | _ ↦ (none, next.reader)
    ]

unfoldable pub detect_marker {ℓ} :
    {A : Type ℓ} → KrecReader → (List ℕ → Option A) → ℕ → Option A × KrecReader
detect_marker r parse max_records =
    let scanned = detect_loop parse max_records (rewind r) in (scanned.0, restore r scanned.1)
