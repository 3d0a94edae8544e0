-- ===== src/Recorder/Replay.antt =====
-- kailleraclient.cpp, the recorder, and common/krec_reader.h: a recording that is opened and read.
use kaillera_client.Prelude.{
  ℕ, zero, suc, ◌+◌, ◌≤◌, ◌≡◌, refl, ap, ap₂, ◌∙◌, sym, subst, List, [], ◌∷◌, ◌++◌, Bool, true,
  false, none, some, arith, length, take, drop, codes, ltb, append_assoc, length-append,
  take-append_le, drop-append, Bool-cases, inl, inr,
}
use kaillera_client.Recorder.{Recorder, close_recording}
use kaillera_client.KrecReader
use kaillera_client.KrecReader.{
  open_from_memory, KrecReader, RecordType, Next, end_of, load_bytes, str_len, load_str, load_int,
  close, at_end, next_record, next_input, next_drop, next_chat, copy_values, skip_rest, count_frame,
  wanted_bytes, input, chat, drop_record,
}
use kaillera_client.KrecReader.Loads.{ahead}
use kaillera_client.KrecReader.Open.{open_from_memory-IsOpen}
use kaillera_client.Recorder.Content
use kaillera_client.Recorder.Content.{Event, encode, encodings}
use kaillera_client.Recorder.Records.{event_of, EventOk, Arrays, next_record-ahead}

-- The next `n` records, as long as they stand for events.
unfoldable pub read_events : ℕ → ℕ → KrecReader → List Event
read_events room zero r = []
read_events room (suc n) r =
    let next = next_record r (some room) in
    elim (event_of next) [ none ↦ [] | some e ↦ e ∷ read_events room n next.reader ]

abbrev pub AllOk : ℕ → List Event → Type 0
AllOk room [] = Unit
AllOk room (e ∷ events) = EventOk room e × AllOk room events

read_events-encodings :
    (r : KrecReader) (events : List Event) (rest : List ℕ) (room : ℕ)
    → Arrays r
    → AllOk room events
    → ahead r ≡ encodings events ++ rest
    → 10 ≤ length rest
    → read_events room (length events) r ≡ events
unfolding read_events encodings
read_events-encodings r [] rest room a ok h l = refl
read_events-encodings r (e ∷ events) rest room a ok h l =
    let tail = encodings events ++ rest in
    let n = next_record r (some room) in
    let x =
      next_record-ahead r e tail room a ok.0 (h ∙ append_assoc (encode e) (encodings events) rest)
        (omega (arith, length-append (encodings events) rest)) in
    rw (x.event, read_events)
      (ap (◌∷◌ e) (read_events-encodings n.reader events rest room x.arrays ok.1 x.left l))

encodings-append : (xs ys : List Event) → encodings (xs ++ ys) ≡ encodings xs ++ encodings ys
unfolding encodings
encodings-append [] ys = refl
encodings-append (e ∷ xs) ys =
    ap (◌++◌ (encode e)) (encodings-append xs ys)
    ∙ sym (append_assoc (encode e) (encodings xs) (encodings ys))

load_bytes-Arrays : (r : KrecReader) (n : ℕ) → Arrays r → Arrays (load_bytes r n).1
unfolding load_bytes
load_bytes-Arrays r n a = elim (Bool-cases (ltb (r.ptr + 10) (end_of r))) [
  | inl inside ↦
      rw inside (record { drop_nick = a.drop_nick; chat_nick = a.chat_nick; chat_msg = a.chat_msg })
  | inr out ↦ rw out a
]

load_str-Arrays : (r : KrecReader) (out : List ℕ) → Arrays r → Arrays (load_str r out).2
unfolding load_str
load_str-Arrays r out a = load_bytes-Arrays r (str_len r (length out)) a

load_int-Arrays : (r : KrecReader) → Arrays r → Arrays (load_int r).1
unfolding load_int
load_int-Arrays r a = load_bytes-Arrays r 4 a

-- A file of the newer kind opens, behind its header of 400 bytes.
open_krc1 :
    (content : List ℕ)
    → take 4 content ≡ codes "KRC1"
    → 400 ≤ length content
    → let opened = open_from_memory KrecReader.init content in
      (opened.0 ≡ true) × (opened.1.ptr ≡ 400) × Arrays opened.1
unfolding open_from_memory close
open_krc1 content k h =
    let long : ltb (length content) 272 ≡ false = ground arith in
    let whole : ltb (length content) 400 ≡ false = ground arith in
    let at_app = record KrecReader.init { is_krc1 = true; buffer = content; ptr = 4 } in
    let app = load_str at_app at_app.app_name in
    let a =
      load_str-Arrays at_app at_app.app_name
        (record { drop_nick = refl; chat_nick = refl; chat_msg = refl }) in
    let at_game = record app.2 { app_name = app.0; ptr = 132 } in
    let g =
      load_str-Arrays at_game at_game.game_name
        (record { drop_nick = a.drop_nick; chat_nick = a.chat_nick; chat_msg = a.chat_msg }) in
    let game = load_str at_game at_game.game_name in
    let at_numbers = record game.2 { game_name = game.0; ptr = 264 } in
    let p =
      load_int-Arrays at_numbers
        (record { drop_nick = g.drop_nick; chat_nick = g.chat_nick; chat_msg = g.chat_msg }) in
    let q = load_int-Arrays (load_int at_numbers).1 p in
    rw (k, open_from_memory)
      (rw (long, open_from_memory)
        (rw (whole, open_from_memory)
          (
            refl,
            refl,
            record { drop_nick = q.drop_nick; chat_nick = q.chat_nick; chat_msg = q.chat_msg },
          )))

-- A match is recorded behind the header, and the file is opened: its records are read back as the
-- events, one by one and in their order, but for a tail whose records take ten bytes or more.
pub read_events-record_events :
    (room : ℕ) (header : List ℕ) (events last : List Event)
    → length header ≡ 400
    → take 4 header ≡ codes "KRC1"
    → Content.Fit 0 (events ++ last)
    → AllOk room events
    → 10 ≤ length (encodings last)
    → (w : Recorder) × (file : List ℕ) × (r : KrecReader) × (Content.record_events
          (record { out = some header; buffer = [] })
          (events ++ last)
        ≡ some w)
      × ((close_recording w).0 ≡ some file)
      × (open_from_memory KrecReader.init file ≡ (true, r))
      × (read_events room (length events) r ≡ events)
read_events-record_events room header events last h k f ok l =
    let all = encodings (events ++ last) in
    let file = header ++ all in
    let (w, written, closed) = Content.record_events-encodings header (events ++ last) f in
    let long = length-append header all in
    let magic : take 4 file ≡ codes "KRC1" = take-append_le 4 header all (omega arith) ∙ k in
    let (opens, start, arrays) = open_krc1 file magic (omega arith) in
    let opened = open_from_memory KrecReader.init file in
    let (o, content, z, at) = open_from_memory-IsOpen KrecReader.init file opens in
    let front : drop 400 file ≡ all =
      subst (λ (n : ℕ). drop n file ≡ all) h (drop-append header all) in
    let at_records : ahead opened.1 ≡ encodings events ++ encodings last =
      ap₂ drop start content ∙ (front ∙ encodings-append events last) in
    (
      w,
      file,
      opened.1,
      written,
      closed,
      ap (λ (b : Bool). (b, opened.1)) opens,
      read_events-encodings opened.1 events (encodings last) room arrays ok at_records l,
    )
