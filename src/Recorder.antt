-- ===== src/Recorder.antt =====
-- kailleraclient.cpp, the recorder: what a match writes to its .krec file, through a buffer of 500
-- bytes that is emptied at every frame.
pub mod Content
pub mod Failed
pub mod Records
pub mod Replay
use kaillera_client.Prelude.{
  ℕ, ◌+◌, ◌-◌, List, [], ◌∷◌, ◌++◌, Bool, Option, none, some, length, take, ltb, leb, if◌then◌else◌,
  le16, le32, codes, ◌>>=◌,
}

-- `out` is the content of the file, or `none` for `INVALID_HANDLE_VALUE`; `buffer` holds the bytes
-- `RecordingBuffer.buffer[0..position)`.
pub record Recorder : Type 0 where
  pub out : Option (List ℕ)
  pub buffer : List ℕ

-- `char buffer[500]`
abbrev pub buffer_size : ℕ
buffer_size = 500

unfoldable pub reset : Recorder → Recorder
reset r = record r { buffer = [] }

-- The puts do not look at the size; `none` is a write past the array.
unfoldable pub put_bytes : Recorder → List ℕ → Option Recorder
put_bytes r x =
    if leb (length r.buffer + length x) buffer_size
    then some (record r { buffer = r.buffer ++ x })
    else none

unfoldable pub put_char : Recorder → ℕ → Option Recorder
put_char r x = put_bytes r (x ∷ [])

-- The two bytes of a `short`.
unfoldable pub put_short : Recorder → ℕ → Option Recorder
put_short r x = put_bytes r (le16 x)

-- `WriteFile` appends all bytes, and does nothing on an invalid handle.
unfoldable pub write_file : Option (List ℕ) → List ℕ → Option (List ℕ)
write_file none bytes = none
write_file (some content) bytes = some (content ++ bytes)

unfoldable pub write : Recorder → Recorder
write r = reset (record r { out = write_file r.out r.buffer })

-- The file that `close_recording` leaves, if there is one; the handle is given up.
unfoldable pub close_recording : Recorder → Option (List ℕ) × Recorder
close_recording r = elim r.out [
  | none ↦ (none, r)
  | some content ↦
      let flushed = (if ltb 0 (length r.buffer) then write r else r) in
      (flushed.out, record flushed { out = none })
]

-- A chat record with its two strings, and the write that follows.
unfoldable pub put_chat : Recorder → List ℕ → List ℕ → Option Recorder
put_chat r nick text = do
  r1 ← put_char r 8
  r2 ← put_bytes r1 (nick ++ 0 ∷ [])
  put_bytes r2 (text ++ 0 ∷ [])

-- `_chatReceivedCallback`: the record waits in the buffer for the next write.
unfoldable pub chat_received : Recorder → List ℕ → List ℕ → Option Recorder
chat_received r nick text = elim r.out [ none ↦ some r | some content ↦ put_chat r nick text ]

unfoldable pub put_drop : Recorder → List ℕ → ℕ → Option Recorder
put_drop r nick playernb = do
  r1 ← put_char r 20
  r2 ← put_bytes r1 (nick ++ 0 ∷ [])
  put_bytes r2 (le32 playernb)

-- `_clientDroppedCallback`
unfoldable pub client_dropped : Recorder → List ℕ → ℕ → Option Recorder
client_dropped r nick playernb = elim r.out [
  | none ↦ some r
  | some content ↦ put_drop r nick playernb
]

-- `put_bytes(values, siz)`, with `siz` as the 16 bits of a `short`: a negative one puts nothing.
abbrev pub played : ℕ → List ℕ → List ℕ
played siz values = if ltb siz 0x8000 then take siz values else []

unfoldable pub put_frame : Recorder → List ℕ → ℕ → Option Recorder
put_frame r values siz = do
  r1 ← put_char r 0x12
  r2 ← put_short r1 siz
  r3 ← put_bytes r2 (played siz values)
  some (write r3)

-- The frame that `kailleraModifyPlayValues` records when `MPV` has returned `siz`.
unfoldable pub play_values : Recorder → List ℕ → ℕ → Option Recorder
play_values r values siz = elim r.out [ none ↦ some r | some content ↦ put_frame r values siz ]

-- What the header says: the two names in arrays of 128 bytes, the time, the numbers, and the
-- players' names in an array of 4 × 32 bytes.
pub record Header : Type 0 where
  pub app_name : List ℕ
  pub game_name : List ℕ
  pub time : ℕ
  pub player : ℕ
  pub numplayers : ℕ
  pub player_names : List ℕ

unfoldable pub header_bytes : Header → List ℕ
header_bytes h =
    codes "KRC1"
    ++ (h.app_name
        ++ (h.game_name
            ++ (le32 h.time ++ (le32 h.player ++ (le32 h.numplayers ++ h.player_names)))))

-- A marker record under the nick "n02", written at once.
unfoldable pub write_marker : Recorder → List ℕ → Option Recorder
write_marker r marker = do r1 ← put_chat r (codes "n02") marker; some (write r1)

-- The part of the game callback that starts a recording, where the file could be created: the
-- header and the two markers.
unfoldable pub start_recording : Header → List ℕ → List ℕ → Option Recorder
start_recording h memcard_marker multitap_marker = do
  r ← write_marker (record { out = some (header_bytes h); buffer = [] }) memcard_marker
  write_marker r multitap_marker
