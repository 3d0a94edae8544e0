-- ===== src/Recorder/Failed.antt =====
-- kailleraclient.cpp, `kailleraModifyPlayValues`: the record of a frame for which `MPV` returns -1.
use kaillera_client.Prelude.{
  ℕ, ◌+◌, ◌-◌, ◌≤◌, ◌≡◌, refl, ap, min, List, [], ◌∷◌, ◌++◌, none, some, arith, length, le16,
  length-drop, drop_of_length-le,
}
use kaillera_client.KrecReader.{
  KrecReader, end_of, next_record, next_input, copy_values, skip_rest, count_frame, wanted_bytes,
  input,
}
use kaillera_client.KrecReader.Loads.{ahead, on, ahead-on, load_char-ahead, load_short-ahead}
use kaillera_client.Recorder.{
  play_values, put_frame, put_char, put_short, put_bytes, write, write_file, reset,
}
use kaillera_client.Recorder.Records.{not_at_end}

-- The record of a failed frame is three bytes, and a reader that scans over it skips all records
-- behind it, where these are 10 to 65535 bytes: it stands at the end of the file.
pub play_values-next_record :
    (file values rest : List ℕ) (r : KrecReader)
    → ahead r ≡ 0x12 ∷ (le16 65535 ++ rest)
    → 10 ≤ length rest
    → length rest ≤ 65535
    → (play_values (record { out = some file; buffer = [] }) values 65535
        ≡ some (record { out = some (file ++ 0x12 ∷ le16 65535); buffer = [] }))
      × ((next_record r none).type ≡ input)
      × (ahead (next_record r none).reader ≡ [])
unfolding play_values put_frame put_char put_short put_bytes write write_file reset next_record
    next_input copy_values skip_rest count_frame wanted_bytes
play_values-next_record file values rest r h l k =
    let tail = le16 65535 ++ rest in
    let c = load_char-ahead r 0x12 tail h (omega arith) in
    let behind = ahead-on r (0x12 ∷ []) tail h in
    let s = load_short-ahead (on 1 r) 65535 rest (omega arith) behind l in
    let left = ahead-on (on 1 r) (le16 65535) rest behind in
    let size = length-drop (r.ptr + 1 + 2) r.buffer in
    (
      refl,
      rw (not_at_end r (omega (arith, ap length h)), next_record) (rw (c, next_record) refl),
      rw (not_at_end r (omega (arith, ap length h)), next_record)
          (rw (c, next_record)
            (rw (s, next_record)
              (drop_of_length-le (r.ptr + 1 + 2 + min (65535 - 0) (end_of r - (r.ptr + 1 + 2)))
                r.buffer (omega (arith, size, ap length left))))),
    )
