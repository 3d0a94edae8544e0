-- ===== src/Recorder/Content.antt =====
-- kailleraclient.cpp, the recorder: what stands in the file after a run of the callbacks.
use kaillera_client.Prelude.{
  ℕ, ◌+◌, ◌≤◌, ◌≡◌, refl, ap, ◌∙◌, sym, List, [], ◌∷◌, ◌++◌, true, Option, some, arith, length, ltb,
  le→leb, le16, le32, append_assoc, append-nil, length-append, take_of_length-le, ◌>>=◌, lt→ltb,
  subst,
}
use kaillera_client.Recorder.{
  Recorder, buffer_size, put_bytes, put_char, put_short, write_file, write, reset, close_recording,
  put_chat, chat_received, put_drop, client_dropped, played, put_frame, play_values,
}

-- What the game and the room report during a recording.
pub data Event : Type 0 where
  frame : List ℕ → Event
  chat : List ℕ → List ℕ → Event
  dropped : List ℕ → ℕ → Event

-- The callback for it; a frame is recorded with its own length.
unfoldable pub record_event : Recorder → Event → Option Recorder
record_event r (frame values) = play_values r values (length values)
record_event r (chat nick text) = chat_received r nick text
record_event r (dropped nick playernb) = client_dropped r nick playernb

unfoldable pub record_events : Recorder → List Event → Option Recorder
record_events r [] = some r
record_events r (e ∷ events) = record_event r e >>= λ r'. record_events r' events

-- The record of an event in the format of the file.
abbrev pub encode : Event → List ℕ
encode (frame values) = 0x12 ∷ (le16 (length values) ++ values)
encode (chat nick text) = 8 ∷ ((nick ++ 0 ∷ []) ++ (text ++ 0 ∷ []))
encode (dropped nick playernb) = 20 ∷ ((nick ++ 0 ∷ []) ++ le32 playernb)

unfoldable pub encodings : List Event → List ℕ
encodings [] = []
encodings (e ∷ events) = encode e ++ encodings events

-- What waits in the buffer after an event.
abbrev pub pending : ℕ → Event → ℕ
pending n (frame values) = 0
pending n (chat nick text) = n + length (encode (chat nick text))
pending n (dropped nick playernb) = n + length (encode (dropped nick playernb))

-- With `n` bytes waiting, no event comes when the buffer has no room for its record.
abbrev pub Fit : ℕ → List Event → Type 0
Fit n [] = Unit
Fit n (e ∷ events) = (n + length (encode e) ≤ buffer_size) × Fit (pending n e) events

put_bytes_lem :
    (r : Recorder) (x : List ℕ)
    → length r.buffer + length x ≤ buffer_size
    → put_bytes r x ≡ some (record r { buffer = r.buffer ++ x })
unfolding put_bytes
put_bytes_lem r x h = rw (le→leb (length r.buffer + length x) buffer_size h) refl

-- Two puts, and what comes behind them.
put_two :
    (r : Recorder) (a b : List ℕ) (k : Recorder → Option Recorder)
    → length r.buffer + (length a + length b) ≤ buffer_size
    → (put_bytes r a >>= λ r1. put_bytes r1 b >>= k)
      ≡ k (record r { buffer = r.buffer ++ (a ++ b) })
put_two r a b k h =
    let la = length-append r.buffer a in
    rw (put_bytes_lem r a (omega arith)) (
      rw (put_bytes_lem (record r { buffer = r.buffer ++ a }) b (omega arith))
        (ap (λ (s : List ℕ). k (record r { buffer = s })) (append_assoc r.buffer a b)))

put_three :
    (r : Recorder) (a b c : List ℕ)
    → length r.buffer + (length a + (length b + length c)) ≤ buffer_size
    → (put_bytes r a >>= λ r1. put_bytes r1 b >>= λ r2. put_bytes r2 c)
      ≡ some (record r { buffer = r.buffer ++ (a ++ (b ++ c)) })
put_three r a b c h =
    let l = length-append r.buffer (a ++ b) in
    put_two r a b (λ r2. put_bytes r2 c) (omega arith)
    ∙ put_bytes_lem (record r { buffer = r.buffer ++ (a ++ b) }) c
        (omega (arith, length-append a b))
    ∙ ap (λ (s : List ℕ). some (record r { buffer = s }))
        (append_assoc r.buffer (a ++ b) c ∙ ap (◌++◌ r.buffer) (append_assoc a b c))

-- An event adds its record to what stands in the file and the buffer.
record_event_lem :
    (file buffer : List ℕ) (e : Event)
    → length buffer + length (encode e) ≤ buffer_size
    → (file' : List ℕ) × (buffer' : List ℕ) × (record_event
          (record { out = some file; buffer = buffer })
          e
        ≡ some (record { out = some file'; buffer = buffer' }))
      × (file' ++ buffer' ≡ file ++ (buffer ++ encode e))
      × (length buffer' ≡ pending (length buffer) e)
unfolding record_event play_values put_frame put_short put_char chat_received put_chat
    client_dropped put_drop write write_file reset
record_event_lem file buffer (frame values) h =
    let r : Recorder = record { out = some file; buffer = buffer } in
    let n : ltb (length values) 0x8000 ≡ true =
      lt→ltb (length values) 0x8000 (omega (arith, length-append (le16 (length values)) values)) in
    let all = take_of_length-le (length values) values (omega arith) in
    let front = 0x12 ∷ le16 (length values) in
    (
      file ++ (buffer ++ (front ++ values)),
      [],
      put_two r (0x12 ∷ []) (le16 (length values))
            (λ r2. put_bytes r2 (played (length values) values) >>= λ r3. some (write r3))
            (omega arith)
          ∙ rw (n, all)
              (rw
                (put_bytes_lem (record r { buffer = buffer ++ front }) values
                  (omega (arith, length-append buffer front)))
                (ap (λ (s : List ℕ). some (record { out = some (file ++ s); buffer = [] }))
                  (append_assoc buffer front values))),
      append-nil (file ++ (buffer ++ (front ++ values))),
      refl,
    )
record_event_lem file buffer (chat nick text) h =
    let r : Recorder = record { out = some file; buffer = buffer } in
    (
      file,
      buffer ++ encode (chat nick text),
      put_three r (8 ∷ []) (nick ++ 0 ∷ []) (text ++ 0 ∷ [])
          (omega (arith, length-append (nick ++ 0 ∷ []) (text ++ 0 ∷ []))),
      refl,
      length-append buffer (encode (chat nick text)),
    )
record_event_lem file buffer (dropped nick playernb) h =
    let r : Recorder = record { out = some file; buffer = buffer } in
    (
      file,
      buffer ++ encode (dropped nick playernb),
      put_three r (20 ∷ []) (nick ++ 0 ∷ []) (le32 playernb)
          (omega (arith, length-append (nick ++ 0 ∷ []) (le32 playernb))),
      refl,
      length-append buffer (encode (dropped nick playernb)),
    )

-- A run of events adds their records, in order.
record_events_run :
    (file buffer : List ℕ) (events : List Event)
    → Fit (length buffer) events
    → (file' : List ℕ) × (buffer' : List ℕ) × (record_events
          (record { out = some file; buffer = buffer })
          events
        ≡ some (record { out = some file'; buffer = buffer' }))
      × (file' ++ buffer' ≡ file ++ (buffer ++ encodings events))
unfolding record_events encodings
record_events_run file buffer [] h = (file, buffer, refl, ap (◌++◌ file) (sym (append-nil buffer)))
record_events_run file buffer (e ∷ events) h =
    let (file1, buffer1, k, c, n) = record_event_lem file buffer e h.0 in
    let (file2, buffer2, k', c') =
      record_events_run file1 buffer1 events (subst (λ (m : ℕ). Fit m events) (sym n) h.1) in
    (
      file2,
      buffer2,
      rw (k, record_events) k',
      c'
          ∙ sym (append_assoc file1 buffer1 (encodings events))
          ∙ ap (λ (s : List ℕ). s ++ encodings events) c
          ∙ append_assoc file (buffer ++ encode e) (encodings events)
          ∙ ap (◌++◌ file) (append_assoc buffer (encode e) (encodings events)),
    )

close_recording_lem :
    (file buffer : List ℕ)
    → (close_recording (record { out = some file; buffer = buffer })).0 ≡ some (file ++ buffer)
unfolding close_recording write write_file reset
close_recording_lem file [] = ap some (sym (append-nil file))
close_recording_lem file (b ∷ buffer) =
    let more : ltb 0 (length (b ∷ buffer)) ≡ true = ground arith in rw more refl

-- Where the buffer has room for every record, the recording goes through, and the file that it
-- leaves holds what it held at first and the records of all events, in their order.
pub record_events-encodings :
    (file : List ℕ) (events : List Event)
    → Fit 0 events
    → (r : Recorder) × (record_events (record { out = some file; buffer = [] }) events ≡ some r)
      × ((close_recording r).0 ≡ some (file ++ encodings events))
record_events-encodings file events h =
    let (file', buffer', k, c) = record_events_run file [] events h in
    (
      record { out = some file'; buffer = buffer' },
      k,
      close_recording_lem file' buffer' ∙ ap some c,
    )
