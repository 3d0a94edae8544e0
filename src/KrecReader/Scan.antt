-- ===== src/KrecReader/Scan.antt =====
-- common/krec_reader.h, `count_total_frames` and `seek_to_frame`: the scans end, the count leaves
-- the read position alone, and a seek stops at the frame asked for or at the last one.
use kaillera_client.Prelude.{
  ℕ, zero, suc, ◌+◌, ◌≤◌, ◌<◌, ◌≡◌, refl, ap, ◌∙◌, sym, min, true, false, none, some, arith, length,
  ltb, Bool-cases, inl, inr, ltb→lt, ltb→le,
}
use mathlib.Core.Option.{some-injective}
use kaillera_client.KrecReader.{
  KrecReader, RecordType, Next, input, is_eof, end_of, at_end, frame_index, next_record, rewind,
  restore, seek_loop, scan_fuel, seek_to_frame, count_loop, count_total_frames,
}
use kaillera_client.KrecReader.Progress.{
  IsOpen, Moved-IsOpen, frames_of, next_record_end, next_record-Took,
}

count_loop_end : (fuel : ℕ) (r : KrecReader) → at_end r ≡ true → count_loop (suc fuel) r ≡ some r
unfolding count_loop
count_loop_end fuel r h =
    let e = next_record_end r none h in
    rw (ap (λ (n : Next). is_eof n.type) e, count_loop) (ap (λ (n : Next). some n.reader) e)

count_loop_more :
    (fuel : ℕ) (r : KrecReader)
    → at_end r ≡ false
    → count_loop (suc fuel) r ≡ count_loop fuel (next_record r none).reader
unfolding count_loop
count_loop_more fuel r h = rw ((next_record-Took r none h).type, count_loop)

seek_loop_there :
    (fuel target : ℕ) (r : KrecReader)
    → ltb r.frames_consumed target ≡ false
    → seek_loop (suc fuel) target r ≡ some r
unfolding seek_loop
seek_loop_there fuel target r h = rw (h, seek_loop)

seek_loop_end :
    (fuel target : ℕ) (r : KrecReader)
    → ltb r.frames_consumed target ≡ true
    → at_end r ≡ true
    → seek_loop (suc fuel) target r ≡ some r
unfolding seek_loop
seek_loop_end fuel target r l h =
    let e = next_record_end r none h in
    rw (l, seek_loop) (rw (ap (λ (n : Next). is_eof n.type) e) (ap (λ (n : Next). some n.reader) e))

seek_loop_more :
    (fuel target : ℕ) (r : KrecReader)
    → ltb r.frames_consumed target ≡ true
    → at_end r ≡ false
    → seek_loop (suc fuel) target r ≡ seek_loop fuel target (next_record r none).reader
unfolding seek_loop
seek_loop_more fuel target r l h = rw (l, seek_loop) (rw ((next_record-Took r none h).type))

-- The state after a scan that is given rounds enough: it stands at the end of the same buffer.
count_loop_lem :
    (fuel : ℕ) (r : KrecReader)
    → IsOpen r
    → end_of r < fuel + r.ptr
    → (c : KrecReader) × (count_loop fuel r ≡ some c)
      × (c.buffer ≡ r.buffer)
      × (r.frames_consumed ≤ c.frames_consumed)
      × (at_end c ≡ true)
count_loop_lem zero r o h = absurd (omega (arith, o.inside))
count_loop_lem (suc fuel) r o h = elim (Bool-cases (at_end r)) [
  | inl e ↦ (r, count_loop_end fuel r e, refl, omega arith, e)
  | inr e ↦
      let n = next_record r none in
      let t = next_record-Took r none e in
      let (c, eq, b, f, d) =
        count_loop_lem fuel n.reader (Moved-IsOpen t.moved o)
          (omega (arith, t.progress, ap length t.moved.buffer)) in
      (c, count_loop_more fuel r e ∙ eq, b ∙ t.moved.buffer, omega (arith, t.moved.frames), d)
]

frames_of-le : (t : RecordType) → frames_of t ≤ 1
frames_of-le input = omega arith
frames_of-le _ = omega arith

-- A seek that is not past its target ends at the target, or at the end of the buffer.
seek_loop_lem :
    (fuel target : ℕ) (r c : KrecReader)
    → IsOpen r
    → end_of r < fuel + r.ptr
    → r.frames_consumed ≤ target
    → count_loop fuel r ≡ some c
    → (s : KrecReader) × (seek_loop fuel target r ≡ some s)
      × (s.frames_consumed ≡ min target c.frames_consumed)
      × IsOpen s
      × (s.buffer ≡ r.buffer)
seek_loop_lem zero target r c o h f k = absurd (omega (arith, o.inside))
seek_loop_lem (suc fuel) target r c o h f k = elim (Bool-cases (ltb r.frames_consumed target)) [
  | inr there ↦
      let (c', eq, b, g, d) = count_loop_lem (suc fuel) r o h in
      let same : c' ≡ c = some-injective c' c (sym eq ∙ k) in
      (
        r,
        seek_loop_there fuel target r there,
        omega (arith, ltb→le _ _ there, g, ap (λ (x : KrecReader). x.frames_consumed) same),
        o,
        refl,
      )
  | inl before ↦ elim (Bool-cases (at_end r)) [
    | inl e ↦
        let same : r ≡ c = some-injective r c (sym (count_loop_end fuel r e) ∙ k) in
        (
          r,
          seek_loop_end fuel target r before e,
          omega (arith, ltb→lt _ _ before, ap (λ (x : KrecReader). x.frames_consumed) same),
          o,
          refl,
        )
    | inr e ↦
        let n = next_record r none in
        let t = next_record-Took r none e in
        let (s, eq, m, os, b) =
          seek_loop_lem fuel target n.reader c (Moved-IsOpen t.moved o)
            (omega (arith, t.progress, ap length t.moved.buffer))
            (omega (arith, t.moved.frames, frames_of-le n.type, ltb→lt _ _ before))
            (sym (count_loop_more fuel r e) ∙ k) in
        (s, seek_loop_more fuel target r before e ∙ eq, m, os, b ∙ t.moved.buffer)
  ]
]

rewind-IsOpen : {r : KrecReader} → IsOpen r → IsOpen (rewind r)
unfolding rewind
rewind-IsOpen o = record { header = o.header; inside = o.header }

count_total_of :
    (r c : KrecReader)
    → count_loop (scan_fuel r) (rewind r) ≡ some c
    → count_total_frames r ≡ some (c.frames_consumed, restore r c)
unfolding count_total_frames
count_total_of r c h = rw (h, count_total_frames)

-- On an open reader the count ends, whatever the file holds, and leaves the position, the count of
-- frames consumed and the buffer as they were.
pub count_total_frames_lem :
    {r : KrecReader}
    → IsOpen r
    → (total : ℕ) × (r' : KrecReader) × (count_total_frames r ≡ some (total, r'))
      × (r'.ptr ≡ r.ptr)
      × (r'.frames_consumed ≡ r.frames_consumed)
      × (r'.buffer ≡ r.buffer)
unfolding restore rewind
count_total_frames_lem {r} o =
    let (c, eq, b, g, d) =
      count_loop_lem (scan_fuel r) (rewind r) (rewind-IsOpen o) (omega arith) in
    (c.frames_consumed, restore r c, count_total_of r c eq, refl, refl, b)

-- On an open reader a seek ends, whatever the file holds and wherever the reader stood, at the
-- frame asked for, or at the last frame of the file if it has fewer; the reader stays open.
pub seek_to_frame_lem :
    {r : KrecReader} (target : ℕ)
    → IsOpen r
    → (s : KrecReader) × (total : ℕ) × (r' : KrecReader) × (seek_to_frame r target ≡ some s)
      × (count_total_frames r ≡ some (total, r'))
      × (frame_index s ≡ min target total)
      × IsOpen s
unfolding seek_to_frame frame_index rewind
seek_to_frame_lem {r} target o =
    let (c, eq, b, g, d) =
      count_loop_lem (scan_fuel r) (rewind r) (rewind-IsOpen o) (omega arith) in
    let (s, es, m, os, bs) =
      seek_loop_lem (scan_fuel r) target (rewind r) c (rewind-IsOpen o) (omega arith) (omega arith)
        eq in
    (s, c.frames_consumed, restore r c, es, count_total_of r c eq, m, os)
