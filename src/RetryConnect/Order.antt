-- ===== src/RetryConnect/Order.antt =====
-- kcore/kaillera_retryconnect.cpp, `kaillera_retryconnect_modify_play_values`, on the records of a
-- match.
use kaillera_client.Prelude.{
  ℕ, zero, suc, min, ◌<◌, ◌≤◌, ◌≡◌, refl, ap, ◌∙◌, sym, List, [], ◌∷◌, ◌++◌, Option, none, some,
  arith, length, take, drop, subst, append_assoc, length-append, length-drop, take-append, ◌>>=◌,
  ◌⊎◌, inl, inr,
}
use kaillera_client.KrecReader.{
  RecordType, Next, scan_fuel, next_record, eof, unknown, chat, input, drop_record,
}
use kaillera_client.KrecReader.Loads.{ahead}
use kaillera_client.Recorder.Content.{Event, encode, encodings}
use kaillera_client.Recorder.Replay.{AllOk}
use kaillera_client.Recorder.Records.{Arrays, Read, event_of, next_record-ahead}
use kaillera_client.RetryConnect.{Retry, frame_room, serve, modify_play_values}

-- The frames among the events.
abbrev pub frames_of : List Event → List (List ℕ)
frames_of [] = []
frames_of (Event.frame values ∷ events) = values ∷ frames_of events
frames_of (Event.chat nick text ∷ events) = frames_of events
frames_of (Event.dropped nick playernb ∷ events) = frames_of events

-- So many calls, with the caller's array: what they give to the game, and the session.
abbrev pub replay : ℕ → List ℕ → Retry → Option (List (List ℕ) × Retry)
replay zero values t = some ([], t)
replay (suc n) values t = do
  served ← modify_play_values t values
  rest ← replay n served.1 served.2
  some (take served.0 served.1 ∷ rest.0, rest.1)

-- The session stands in front of these events.
pub record Before (t : Retry) (events : List Event) (rest : List ℕ) : Type 0 where
  pub ok : AllOk frame_room events
  pub arrays : Arrays t.reader
  pub ahead : ahead t.reader ≡ encodings events ++ rest

abbrev event_at : Next → RecordType → Option Event
event_at n ty = event_of (record n { type = ty })

abbrev frame_values : Option Event → List ℕ
frame_values none = []
frame_values (some (Event.frame values)) = values
frame_values (some (Event.chat nick text)) = []
frame_values (some (Event.dropped nick playernb)) = []

frame_read :
    (n : Next) (values : List ℕ)
    → event_of n ≡ some (Event.frame values)
    → (n.type ≡ input) × (n.values ≡ values)
frame_read n values e = go n.type refl
  where
    seen : (ty : RecordType) → n.type ≡ ty → event_at n ty ≡ some (Event.frame values)
    seen ty h = sym (ap (event_at n) h) ∙ e

    go : (ty : RecordType) → n.type ≡ ty → (n.type ≡ input) × (n.values ≡ values)
    go input h = (h, ap frame_values (seen input h))
    go chat h = let x = seen chat h in cc
    go drop_record h = let x = seen drop_record h in cc
    go eof h = let x = seen eof h in cc
    go unknown h = let x = seen unknown h in cc

chat_read :
    (n : Next) (nick text : List ℕ) → event_of n ≡ some (Event.chat nick text) → n.type ≡ chat
chat_read n nick text e = go n.type refl
  where
    seen : (ty : RecordType) → n.type ≡ ty → event_at n ty ≡ some (Event.chat nick text)
    seen ty h = sym (ap (event_at n) h) ∙ e

    go : (ty : RecordType) → n.type ≡ ty → n.type ≡ chat
    go input h = let x = seen input h in cc
    go chat h = h
    go drop_record h = let x = seen drop_record h in cc
    go eof h = let x = seen eof h in cc
    go unknown h = let x = seen unknown h in cc

drop_read :
    (n : Next) (nick : List ℕ) (nb : ℕ)
    → event_of n ≡ some (Event.dropped nick nb)
    → n.type ≡ drop_record
drop_read n nick nb e = go n.type refl
  where
    seen : (ty : RecordType) → n.type ≡ ty → event_at n ty ≡ some (Event.dropped nick nb)
    seen ty h = sym (ap (event_at n) h) ∙ e

    go : (ty : RecordType) → n.type ≡ ty → n.type ≡ drop_record
    go input h = let x = seen input h in cc
    go chat h = let x = seen chat h in cc
    go drop_record h = h
    go eof h = let x = seen eof h in cc
    go unknown h = let x = seen unknown h in cc

-- One round of the loop, by the type of the record.
serve-input :
    (fuel : ℕ) (t : Retry) (values : List ℕ)
    → (next_record t.reader (some frame_room)).type ≡ input
    → let n = next_record t.reader (some frame_room) in
      (t' : Retry) × (serve (suc fuel) t values
        ≡ some (n.out_len, n.values ++ drop (length n.values) values, t'))
      × (t'.reader ≡ n.reader)
unfolding serve
serve-input fuel t values h =
    let n = next_record t.reader (some frame_room) in
    (
      record t {
        reader = n.reader;
        last_frame = take (min n.out_len frame_room) (n.values ++ drop (length n.values) values);
      },
      rw (serve, h) refl,
      refl,
    )

serve-other :
    (fuel : ℕ) (t : Retry) (values : List ℕ)
    → ((next_record t.reader (some frame_room)).type ≡ chat)
      ⊎ ((next_record t.reader (some frame_room)).type ≡ drop_record)
    → serve (suc fuel) t values
      ≡ serve fuel (record t { reader = (next_record t.reader (some frame_room)).reader }) values
unfolding serve
serve-other fuel t values (inl h) = rw (serve, h) refl
serve-other fuel t values (inr h) = rw (serve, h) refl

next_record-Read :
    (t : Retry) (e : Event) (events : List Event) (rest : List ℕ)
    → Before t (e ∷ events) rest
    → 10 ≤ length rest
    → Read (next_record t.reader (some frame_room)) e (encodings events ++ rest)
unfolding encodings
next_record-Read t e events rest b l =
    next_record-ahead t.reader e (encodings events ++ rest) frame_room b.arrays b.ok.0
      (b.ahead ∙ append_assoc (encode e) (encodings events) rest)
      (omega (arith, length-append (encodings events) rest))

abbrev pub Served : ℕ → Retry → List ℕ → List (List ℕ) → List ℕ → Type 0
Served fuel t values [] rest = Unit
Served fuel t values (v ∷ vs) rest =
    (t' : Retry) × (after : List Event) × (serve fuel t values
      ≡ some (length v, v ++ drop (length v) values, t'))
    × (frames_of after ≡ vs)
    × Before t' after rest

skipped :
    (fuel : ℕ) (t t1 : Retry) (values rest : List ℕ) (vs : List (List ℕ))
    → serve (suc fuel) t values ≡ serve fuel t1 values
    → Served fuel t1 values vs rest
    → Served (suc fuel) t values vs rest
skipped fuel t t1 values rest [] h s = tt
skipped fuel t t1 values rest (v ∷ vs) h (t', after, eq, fs, bf) = (t', after, h ∙ eq, fs, bf)

serve_lem :
    (fuel : ℕ) (t : Retry) (values : List ℕ) (events : List Event) (rest : List ℕ)
    → Before t events rest
    → 10 ≤ length rest
    → length events ≤ fuel
    → Served fuel t values (frames_of events) rest
serve_lem fuel t values [] rest b l f = tt
serve_lem zero t values (e ∷ events) rest b l f = absurd (omega (arith, f))
serve_lem (suc fuel) t values (Event.frame v ∷ events) rest b l f =
    let r = next_record-Read t (Event.frame v) events rest b l in
    let n = next_record t.reader (some frame_room) in
    let (ty, same) = frame_read n v r.event in
    let (t', served, at) = serve-input fuel t values ty in
    (
      t',
      events,
      served
          ∙ ap (λ (x : ℕ). some (x, n.values ++ drop (length n.values) values, t')) r.size
          ∙ ap (λ (x : List ℕ). some (length x, x ++ drop (length x) values, t')) same,
      refl,
      record { ok = b.ok.1; arrays = subst Arrays (sym at) r.arrays; ahead = ap ahead at ∙ r.left },
    )
serve_lem (suc fuel) t values (Event.chat nick text ∷ events) rest b l f =
    let e = Event.chat nick text in
    let r = next_record-Read t e events rest b l in
    let n = next_record t.reader (some frame_room) in
    let t1 = record t { reader = n.reader } in
    skipped fuel t t1 values rest (frames_of events)
      (serve-other fuel t values (inl (chat_read n nick text r.event)))
      (serve_lem fuel t1 values events rest
        (record { ok = b.ok.1; arrays = r.arrays; ahead = r.left }) l (omega (arith, f)))
serve_lem (suc fuel) t values (Event.dropped nick nb ∷ events) rest b l f =
    let e = Event.dropped nick nb in
    let r = next_record-Read t e events rest b l in
    let n = next_record t.reader (some frame_room) in
    let t1 = record t { reader = n.reader } in
    skipped fuel t t1 values rest (frames_of events)
      (serve-other fuel t values (inr (drop_read n nick nb r.event)))
      (serve_lem fuel t1 values events rest
        (record { ok = b.ok.1; arrays = r.arrays; ahead = r.left }) l (omega (arith, f)))

length-encodings : (events : List Event) → length events ≤ length (encodings events)
unfolding encodings
length-encodings [] = omega arith
length-encodings (e ∷ events) =
    omega
      (arith, length-append (encode e) (encodings events), length-encodings events, encode_some e)
  where
    encode_some : (e : Event) → 0 < length (encode e)
    encode_some (Event.frame values) = omega arith
    encode_some (Event.chat nick text) = omega arith
    encode_some (Event.dropped nick playernb) = omega arith

one_more :
    (t t1 t' : Retry) (v : List ℕ) (vs : List (List ℕ)) (values : List ℕ)
    → serve (scan_fuel t.reader) t values ≡ some (length v, v ++ drop (length v) values, t1)
    → replay (length vs) (v ++ drop (length v) values) t1 ≡ some (vs, t')
    → replay (suc (length vs)) values t ≡ some (v ∷ vs, t')
unfolding modify_play_values
one_more t t1 t' v vs values served more =
    rw (served, more, take-append v (drop (length v) values)) refl

-- A session in front of the records of a match serves the frames of the match, one for each call
-- and in their order; lines of chat and drops between them are passed over.
pub replay-frames_of :
    (t : Retry) (values : List ℕ) (events : List Event) (rest : List ℕ)
    → Before t events rest
    → 10 ≤ length rest
    → (t' : Retry) × (replay (length (frames_of events)) values t ≡ some (frames_of events, t'))
replay-frames_of t values events rest b l = go (frames_of events) t values events refl b
  where
    go :
        (vs : List (List ℕ)) (t : Retry) (values : List ℕ) (events : List Event)
        → frames_of events ≡ vs
        → Before t events rest
        → (t' : Retry) × (replay (length vs) values t ≡ some (vs, t'))
    go [] t values events e b = (t, refl)
    go (v ∷ vs) t values events e b =
        let enough : length events ≤ scan_fuel t.reader = omega (
          arith,
          length-encodings events,
          ap length b.ahead,
          length-append (encodings events) rest,
          length-drop t.reader.ptr t.reader.buffer,
        ) in
        let (t1, after, served, fs, b1) =
          subst (λ (fs : List (List ℕ)). Served (scan_fuel t.reader) t values fs rest) e
            (serve_lem (scan_fuel t.reader) t values events rest b l enough) in
        let (t', more) = go vs t1 (v ++ drop (length v) values) after fs b1 in
        (t', one_more t t1 t' v vs values served more)
