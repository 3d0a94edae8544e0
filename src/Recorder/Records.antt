-- ===== src/Recorder/Records.antt =====
-- common/krec_reader.h, `next_record`, on the records that the recorder of kailleraclient.cpp writes.
use kaillera_client.Prelude.{
  ℕ, ◌+◌, ◌-◌, ◌^◌, ◌≤◌, ◌<◌, ◌≡◌, refl, ap, ap₂, ◌∙◌, subst, min, List, [], ◌∷◌, ◌++◌, true, false,
  Option, none, some, arith, length, drop, ltb, ◌==◌, lt→ltb, le16, le32, append_assoc,
  length-append, length-drop, NoNul, c_str, not,
}
use kaillera_client.KrecReader.{
  KrecReader, Next, end_of, load_str, at_end, next_record, next_input, next_drop, next_chat,
  copy_values, skip_rest, count_frame, wanted_bytes, input, chat, drop_record,
}
use kaillera_client.KrecReader.Loads.{
  ahead, on, ahead-on, load_bytes-ahead, load_char-ahead, load_short-ahead, load_int-ahead,
  load_str-ahead,
}
use kaillera_client.Recorder.Content.{Event, encode}

-- What a record that was read stands for.
abbrev pub event_of : Next → Option Event
event_of n = elim n.type [
  | input ↦ some (Event.frame n.values)
  | chat ↦ some (Event.chat (c_str n.reader.last_chat_nick) (c_str n.reader.last_chat_msg))
  | drop_record ↦ some (Event.dropped (c_str n.reader.last_drop_nick) n.reader.last_drop_playerno)
  | _ ↦ none
]

-- Events that fit what the reader and its caller keep: values of `room` bytes at most, and strings
-- shorter than their arrays.
abbrev pub EventOk : ℕ → Event → Type 0
EventOk room (Event.frame values) = (length values ≤ room) × (length values < 2 ^ 16)
EventOk room (Event.chat nick text) =
    NoNul nick × (length nick < 99) × NoNul text × (length text < 500)
EventOk room (Event.dropped nick playernb) = NoNul nick × (length nick < 100) × (playernb < 2 ^ 32)

-- The reader's arrays have their sizes.
pub record Arrays (r : KrecReader) : Type 0 where
  pub drop_nick : length r.last_drop_nick ≡ 100
  pub chat_nick : length r.last_chat_nick ≡ 100
  pub chat_msg : length r.last_chat_msg ≡ 500

-- A record was read as `e`, and `rest` is ahead.
pub record Read (n : Next) (e : Event) (rest : List ℕ) : Type 0 where
  pub event : event_of n ≡ some e
  pub size : n.out_len ≡ length n.values
  pub left : ahead n.reader ≡ rest
  pub arrays : Arrays n.reader

pub not_at_end : (r : KrecReader) → 10 < length (ahead r) → at_end r ≡ false
unfolding at_end
not_at_end r h = ap not (lt→ltb (r.ptr + 10) (end_of r) (omega (arith, length-drop r.ptr r.buffer)))

copy_values-ahead :
    (r : KrecReader) (x rest : List ℕ)
    → ahead r ≡ x ++ rest
    → 10 ≤ length rest
    → copy_values r (length x) ≡ (x, on (length x) r)
unfolding copy_values
copy_values-ahead r [] rest h l =
    let e : r.ptr ≡ r.ptr + 0 = omega arith in ap (λ (p : ℕ). ([], record r { ptr = p })) e
copy_values-ahead r (c ∷ x) rest h l =
    let more : ltb 0 (length (c ∷ x)) ≡ true = ground arith in
    rw more (load_bytes-ahead r (c ∷ x) rest h (omega arith))

next_input-ahead :
    (r : KrecReader) (values rest : List ℕ) (room : ℕ)
    → Arrays r
    → EventOk room (Event.frame values)
    → ahead r ≡ le16 (length values) ++ (values ++ rest)
    → 10 ≤ length rest
    → Read (next_input r (some room)) (Event.frame values) rest
unfolding next_input skip_rest count_frame wanted_bytes
next_input-ahead r values rest room a ok h l =
    let s =
      load_short-ahead r (length values) (values ++ rest) ok.1 h
        (omega (arith, length-append values rest)) in
    let all : min (length values) room ≡ length values = omega arith in
    let c =
      copy_values-ahead (on 2 r) values rest (ahead-on r (le16 (length values)) (values ++ rest) h)
        l in
    let there : r.ptr
          + 2
          + length values
          + min (length values - length values) (end_of r - (r.ptr + 2 + length values))
        ≡ r.ptr + 2 + length values =
      omega arith in
    rw (s, next_input)
      (rw (all, next_input)
        (rw (c, next_input)
          (record {
            size = refl;
            event = refl;
            left =
                ap (λ (p : ℕ). drop p r.buffer) there
                ∙ ahead-on (on 2 r) values rest
                    (ahead-on r (le16 (length values)) (values ++ rest) h);
            arrays = record {
              drop_nick = a.drop_nick;
              chat_nick = a.chat_nick;
              chat_msg = a.chat_msg;
            };
          })))

next_drop-ahead :
    (r : KrecReader) (nick : List ℕ) (playernb : ℕ) (rest : List ℕ) (room : ℕ)
    → Arrays r
    → EventOk room (Event.dropped nick playernb)
    → ahead r ≡ (nick ++ 0 ∷ []) ++ (le32 playernb ++ rest)
    → 10 ≤ length rest
    → Read (next_drop r) (Event.dropped nick playernb) rest
unfolding next_drop
next_drop-ahead r nick playernb rest room a ok h l =
    let tail = le32 playernb ++ rest in
    let n = length nick + 1 in
    let one : length (nick ++ 0 ∷ []) ≡ n = length-append nick (0 ∷ []) in
    let (str, size, len, moved) =
      load_str-ahead r nick tail r.last_drop_nick ok.0 (omega (arith, a.drop_nick))
        (h ∙ append_assoc nick (0 ∷ []) tail) (omega arith) in
    let behind =
      subst (λ (k : ℕ). ahead (on k r) ≡ tail) one (ahead-on r (nick ++ 0 ∷ []) tail h) in
    let at = record (on n r) { last_drop_nick = (load_str r r.last_drop_nick).0 } in
    let i = load_int-ahead at playernb rest ok.2 behind l in
    rw (moved, next_drop)
      (rw (i, next_drop)
        (record {
          size = refl;
          event = ap (λ (s : List ℕ). some (Event.dropped s playernb)) str;
          left = ahead-on at (le32 playernb) rest behind;
          arrays = record {
            drop_nick = size ∙ a.drop_nick;
            chat_nick = a.chat_nick;
            chat_msg = a.chat_msg;
          };
        }))

next_chat-ahead :
    (r : KrecReader) (nick text rest : List ℕ) (room : ℕ)
    → Arrays r
    → EventOk room (Event.chat nick text)
    → ahead r ≡ (nick ++ 0 ∷ []) ++ ((text ++ 0 ∷ []) ++ rest)
    → 10 ≤ length rest
    → Read (next_chat r) (Event.chat nick text) rest
unfolding next_chat
next_chat-ahead r nick text rest room a ok h l =
    let tail = (text ++ 0 ∷ []) ++ rest in
    let n = length nick + 1 in
    let one : length (nick ++ 0 ∷ []) ≡ n = length-append nick (0 ∷ []) in
    let (str, size, len, moved) =
      load_str-ahead r nick tail r.last_chat_nick ok.0 (omega (arith, a.chat_nick))
        (h ∙ append_assoc nick (0 ∷ []) tail)
        (omega (arith, length-append (text ++ 0 ∷ []) rest)) in
    let behind =
      subst (λ (k : ℕ). ahead (on k r) ≡ tail) one (ahead-on r (nick ++ 0 ∷ []) tail h) in
    let at = record (on n r) { last_chat_nick = (load_str r r.last_chat_nick).0 } in
    let (str', size', len', moved') =
      load_str-ahead at text rest r.last_chat_msg ok.2 (omega (arith, ok.3, a.chat_msg))
        (behind ∙ append_assoc text (0 ∷ []) rest) l in
    let within : ((load_str r r.last_chat_nick).1 == length r.last_chat_nick) ≡ false =
      ground (arith, len, a.chat_nick, ok.1) in
    let one' : length (text ++ 0 ∷ []) ≡ length text + 1 = length-append text (0 ∷ []) in
    rw (within, next_chat)
      (rw (moved, next_chat)
        (rw (moved', next_chat)
          (record {
            size = refl;
            event = ap₂ (λ (s t : List ℕ). some (Event.chat s t)) str str';
            left =
                subst (λ (k : ℕ). ahead (on k at) ≡ rest) one'
                  (ahead-on at (text ++ 0 ∷ []) rest behind);
            arrays = record {
              drop_nick = a.drop_nick;
              chat_nick = size ∙ a.chat_nick;
              chat_msg = size' ∙ a.chat_msg;
            };
          })))

-- One record of the file.
pub next_record-ahead :
    (r : KrecReader) (e : Event) (rest : List ℕ) (room : ℕ)
    → Arrays r
    → EventOk room e
    → ahead r ≡ encode e ++ rest
    → 10 ≤ length rest
    → Read (next_record r (some room)) e rest
unfolding next_record
next_record-ahead r (Event.frame values) rest room a ok h l =
    let tail = (le16 (length values) ++ values) ++ rest in
    let long = length-append (le16 (length values) ++ values) rest in
    let c = load_char-ahead r 0x12 tail h (omega arith) in
    rw (not_at_end r (omega (arith, ap length h)), next_record)
      (rw (c, next_record)
        (next_input-ahead (on 1 r) values rest room
          (record { drop_nick = a.drop_nick; chat_nick = a.chat_nick; chat_msg = a.chat_msg }) ok
          (ahead-on r (0x12 ∷ []) tail h) l))
next_record-ahead r (Event.chat nick text) rest room a ok h l =
    let tail = ((nick ++ 0 ∷ []) ++ (text ++ 0 ∷ [])) ++ rest in
    let long = length-append ((nick ++ 0 ∷ []) ++ (text ++ 0 ∷ [])) rest in
    let c = load_char-ahead r 8 tail h (omega arith) in
    rw (not_at_end r (omega (arith, ap length h)), next_record)
      (rw (c, next_record)
        (next_chat-ahead (on 1 r) nick text rest room
          (record { drop_nick = a.drop_nick; chat_nick = a.chat_nick; chat_msg = a.chat_msg }) ok
          (ahead-on r (8 ∷ []) tail h ∙ append_assoc (nick ++ 0 ∷ []) (text ++ 0 ∷ []) rest) l))
next_record-ahead r (Event.dropped nick playernb) rest room a ok h l =
    let tail = ((nick ++ 0 ∷ []) ++ le32 playernb) ++ rest in
    let long = length-append ((nick ++ 0 ∷ []) ++ le32 playernb) rest in
    let c = load_char-ahead r 20 tail h (omega arith) in
    rw (not_at_end r (omega (arith, ap length h)), next_record)
      (rw (c, next_record)
        (next_drop-ahead (on 1 r) nick playernb rest room
          (record { drop_nick = a.drop_nick; chat_nick = a.chat_nick; chat_msg = a.chat_msg }) ok
          (ahead-on r (20 ∷ []) tail h ∙ append_assoc (nick ++ 0 ∷ []) (le32 playernb) rest) l))
