-- ===== src/RetryConnect/Serve.antt =====
-- kcore/kaillera_retryconnect.cpp, `kaillera_retryconnect_modify_play_values`: the end of a call.
use kaillera_client.Prelude.{
  ℕ, zero, suc, ◌+◌, ◌<◌, ◌≡◌, refl, ap, ◌∙◌, sym, List, Option, some, arith, length, Bool-cases,
  inl, inr, subst, ◌≢◌, ◌⊎◌,
}
use kaillera_client.KrecReader.{
  KrecReader, RecordType, Next, scan_fuel, end_of, next_record, at_end, eof, unknown, chat, input,
  drop_record,
}
use kaillera_client.KrecReader.Progress.{IsOpen, Moved-IsOpen, next_record-Took, next_record_end}
use kaillera_client.RetryConnect.{Retry, frame_room, serve, modify_play_values}

-- The reader behind the next record is open, and further on unless the file has ended.
next_record-IsOpen :
    (r : KrecReader) (wanted : Option ℕ)
    → IsOpen r
    → IsOpen (next_record r wanted).reader
      × (((next_record r wanted).type ≡ eof)
          ⊎ ((r.ptr < (next_record r wanted).reader.ptr)
              × (end_of (next_record r wanted).reader ≡ end_of r)))
next_record-IsOpen r wanted o = elim (Bool-cases (at_end r)) [
  | inl e ↦
      let k = next_record_end r wanted e in
      (subst IsOpen (sym (ap (λ (n : Next). n.reader) k)) o, inl (ap (λ (n : Next). n.type) k))
  | inr e ↦
      let t = next_record-Took r wanted e in
      (Moved-IsOpen t.moved o, inr (t.progress, ap length t.moved.buffer))
]

-- A record that is not the end.
further :
    (n : Next) (r : KrecReader) {ty : RecordType}
    → n.type ≡ ty
    → ty ≢ eof
    → (n.type ≡ eof) ⊎ ((r.ptr < n.reader.ptr) × (end_of n.reader ≡ end_of r))
    → (r.ptr < n.reader.ptr) × (end_of n.reader ≡ end_of r)
further n r e d (inl h) = absurd (d (sym e ∙ h))
further n r e d (inr h) = h

chat-eof : chat ≢ eof
chat-eof h = cc

drop_record-eof : drop_record ≢ eof
drop_record-eof h = cc

abbrev Returns : Option (ℕ × List ℕ × Retry) → Type 0
Returns o =
    (n : ℕ) × (values' : List ℕ) × (t' : Retry) × (o ≡ some (n, values', t')) × IsOpen t'.reader

-- One round of the loop, given the rounds after it.
round-Returns :
    (fuel : ℕ) (t : Retry) (values : List ℕ)
    → IsOpen t.reader
    → ((t.reader.ptr < (next_record t.reader (some frame_room)).reader.ptr)
          × (end_of (next_record t.reader (some frame_room)).reader ≡ end_of t.reader)
        → Returns (
            serve fuel
              (record t { reader = (next_record t.reader (some frame_room)).reader })
              values))
    → Returns (serve (suc fuel) t values)
unfolding serve
round-Returns fuel t values o rest = step next.type refl
  where
    next : Next
    next = next_record t.reader (some frame_room)

    found :
        IsOpen next.reader
        × ((next.type ≡ eof)
            ⊎ ((t.reader.ptr < next.reader.ptr) × (end_of next.reader ≡ end_of t.reader)))
    found = next_record-IsOpen t.reader (some frame_room) o

    step : (ty : RecordType) → next.type ≡ ty → Returns (serve (suc fuel) t values)
    step input e = rw (e, serve) (_, _, _, refl, found.0)
    step chat e = rw (e, serve) (rest (further next t.reader e chat-eof found.1))
    step drop_record e = rw (e, serve) (rest (further next t.reader e drop_record-eof found.1))
    step eof e = rw (e, serve) (_, _, _, refl, found.0)
    step unknown e = rw (e, serve) (_, _, _, refl, found.0)

-- With a round for every byte left, the loop returns.
serve-Returns :
    (fuel : ℕ) (t : Retry) (values : List ℕ)
    → IsOpen t.reader
    → end_of t.reader < fuel + t.reader.ptr
    → Returns (serve fuel t values)
serve-Returns zero t values o h = absurd (omega (arith, o.inside))
serve-Returns (suc fuel) t values o h =
    let n = next_record t.reader (some frame_room) in
    round-Returns fuel t values o (λ moved.
      serve-Returns fuel (record t { reader = n.reader }) values
        (next_record-IsOpen t.reader (some frame_room) o).0 (omega (arith, moved.0, moved.1, h)))

-- On an open recording a call always returns, whatever the file holds, and leaves it open.
pub modify_play_values-Returns :
    (t : Retry) (values : List ℕ) → IsOpen t.reader → Returns (modify_play_values t values)
unfolding modify_play_values
modify_play_values-Returns t values o = serve-Returns (scan_fuel t.reader) t values o (omega arith)
