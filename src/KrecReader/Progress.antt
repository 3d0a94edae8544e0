-- ===== src/KrecReader/Progress.antt =====
-- common/krec_reader.h: the reader stays inside its buffer, and every record takes it forward.
use kaillera_client.Prelude.{
  ℕ, ◌+◌, ◌-◌, ◌≤◌, ◌<◌, ◌≡◌, refl, ap, ◌∙◌, List, [], Bool, true, false, Option, arith, length,
  set, ◌==◌, if◌then◌else◌,
}
use kaillera_client.KrecReader.{
  KrecReader, RecordType, Next, is_eof, end_of, load_bytes, load_str, load_int, wanted_bytes,
  copy_values, skip_rest, count_frame, load_char, load_short, header_size, at_end, next_input,
  next_drop, next_chat, next_record, str_len, eof, input,
}

-- A reader that is open: its header is whole, and it stands inside its buffer.
pub record IsOpen (r : KrecReader) : Type 0 where
  pub header : header_size r.is_krc1 ≤ end_of r
  pub inside : r.ptr ≤ end_of r

-- `r'` is `r` further on in the same buffer, with `n` frames more.
pub record Moved (n : ℕ) (r r' : KrecReader) : Type 0 where
  pub buffer : r'.buffer ≡ r.buffer
  pub forward : r.ptr ≤ r'.ptr
  pub inside : r'.ptr ≤ end_of r
  pub krc1 : r'.is_krc1 ≡ r.is_krc1
  pub frames : r'.frames_consumed ≡ r.frames_consumed + n

pub Moved-trans : {m n : ℕ} {r s t : KrecReader} → Moved m r s → Moved n s t → Moved (m + n) r t
Moved-trans {r} {s} {t} a b = record {
  buffer = b.buffer ∙ a.buffer;
  forward = omega (arith, a.forward, b.forward);
  inside = omega (arith, b.inside, ap length a.buffer);
  krc1 = b.krc1 ∙ a.krc1;
  frames = omega (arith, a.frames, b.frames);
}

pub Moved-IsOpen : {n : ℕ} {r r' : KrecReader} → Moved n r r' → IsOpen r → IsOpen r'
Moved-IsOpen {r} {r'} m o = record {
  header = rw (m.krc1, m.buffer) o.header;
  inside = omega (arith, m.inside, ap length m.buffer);
}

pub load_bytes-Moved :
    (r : KrecReader) (len : ℕ) → r.ptr ≤ end_of r → Moved 0 r (load_bytes r len).1
unfolding load_bytes
load_bytes-Moved r len h = ground arith

pub load_str-Moved :
    (r : KrecReader) (out : List ℕ) → r.ptr ≤ end_of r → Moved 0 r (load_str r out).2
unfolding load_str
load_str-Moved r out h = load_bytes-Moved r (str_len r (length out)) h

pub load_int-Moved : (r : KrecReader) → r.ptr ≤ end_of r → Moved 0 r (load_int r).1
unfolding load_int
load_int-Moved r h = load_bytes-Moved r 4 h

load_short-Moved : (r : KrecReader) → r.ptr ≤ end_of r → Moved 0 r (load_short r).1
unfolding load_short
load_short-Moved r h = load_bytes-Moved r 2 h

-- The type byte is always there, and is taken.
load_char-Moved :
    (r : KrecReader)
    → at_end r ≡ false
    → Moved 0 r (load_char r).1 × ((load_char r).1.ptr ≡ r.ptr + 1)
unfolding load_char load_bytes at_end
load_char-Moved r h = ground arith

copy_values-Moved : (r : KrecReader) (n : ℕ) → r.ptr ≤ end_of r → Moved 0 r (copy_values r n).1
unfolding copy_values
copy_values-Moved r n h = let m = load_bytes-Moved r n h in ground arith

skip_rest-Moved : (r : KrecReader) (n : ℕ) → r.ptr ≤ end_of r → Moved 0 r (skip_rest r n)
unfolding skip_rest
skip_rest-Moved r n h = ground arith

count_frame-Moved : (r : KrecReader) → r.ptr ≤ end_of r → Moved 1 r (count_frame r)
unfolding count_frame
count_frame-Moved r h = ground arith

-- A step behind another.
then_move :
    {n : ℕ} {r s t : KrecReader} → Moved 0 r s → (s.ptr ≤ end_of s → Moved n s t) → Moved n r t
then_move {n} {r} {s} {t} a b =
    let m = Moved-trans a (b (omega (arith, a.inside, ap length a.buffer))) in
    record {
      buffer = m.buffer;
      forward = m.forward;
      inside = m.inside;
      krc1 = m.krc1;
      frames = omega (arith, m.frames);
    }

next_input-Moved :
    (r : KrecReader) (wanted : Option ℕ) → r.ptr ≤ end_of r → Moved 1 r (next_input r wanted).reader
unfolding next_input
next_input-Moved r wanted h =
    let short = load_short r in
    let n = wanted_bytes wanted short.0 in
    let loaded = copy_values short.1 n in
    then_move (load_short-Moved r h) (λ h1.
      then_move (copy_values-Moved short.1 n h1)
        (λ h2. then_move (skip_rest-Moved loaded.1 (short.0 - n) h2) (count_frame-Moved _)))

-- Fields of the reader that a step does not look at.
next_drop-Moved : (r : KrecReader) → r.ptr ≤ end_of r → Moved 0 r (next_drop r).reader
unfolding next_drop
next_drop-Moved r h =
    let nick = load_str r r.last_drop_nick in
    let a = load_str-Moved r r.last_drop_nick h in
    let s = record nick.2 { last_drop_nick = nick.0 } in
    let a' : Moved 0 r s = record {
      buffer = a.buffer;
      forward = a.forward;
      inside = a.inside;
      krc1 = a.krc1;
      frames = a.frames;
    } in
    let b = then_move a' (load_int-Moved s) in
    record {
      buffer = b.buffer;
      forward = b.forward;
      inside = b.inside;
      krc1 = b.krc1;
      frames = b.frames;
    }

next_chat-Moved : (r : KrecReader) → r.ptr ≤ end_of r → Moved 0 r (next_chat r).reader
unfolding next_chat
next_chat-Moved r h =
    let nick = load_str r r.last_chat_nick in
    let msg =
      (if nick.1 == length r.last_chat_nick then set r.last_chat_msg 0 0 else r.last_chat_msg) in
    let a = load_str-Moved r r.last_chat_nick h in
    let s = record nick.2 { last_chat_nick = nick.0; last_chat_msg = msg } in
    let a' : Moved 0 r s = record {
      buffer = a.buffer;
      forward = a.forward;
      inside = a.inside;
      krc1 = a.krc1;
      frames = a.frames;
    } in
    let b = then_move a' (load_str-Moved s msg) in
    record {
      buffer = b.buffer;
      forward = b.forward;
      inside = b.inside;
      krc1 = b.krc1;
      frames = b.frames;
    }

-- The frames that a record counts for.
abbrev pub frames_of : RecordType → ℕ
frames_of input = 1
frames_of _ = 0

-- A record was taken: its type is not that of the end, the reader went forward by a byte at least
-- and stays inside the buffer, and it counts one frame more exactly for an input record.
pub record Took (r : KrecReader) (n : Next) : Type 0 where
  pub type : is_eof n.type ≡ false
  pub progress : r.ptr < n.reader.ptr
  pub moved : Moved (frames_of n.type) r n.reader

if-Took :
    {r : KrecReader} {x y : Next} (b : Bool) → Took r x → Took r y → Took r (if b then x else y)
if-Took true t u = t
if-Took false t u = u

pub next_record_end :
    (r : KrecReader) (wanted : Option ℕ)
    → at_end r ≡ true
    → next_record r wanted ≡ record { type = eof; values = []; out_len = 0; reader = r }
unfolding next_record
next_record_end r wanted h = rw h

-- Before the end `next_record` takes a record, whatever the bytes are.
pub next_record-Took :
    (r : KrecReader) (wanted : Option ℕ) → at_end r ≡ false → Took r (next_record r wanted)
unfolding next_record next_input next_drop next_chat
next_record-Took r wanted h =
    let (m, p) = load_char-Moved r h in
    let b = load_char r in
    let s = b.1 in
    let inside : s.ptr ≤ end_of s = omega (arith, m.inside, ap length m.buffer) in
    let i = next_input-Moved s wanted inside in
    let d = next_drop-Moved s inside in
    let c = next_chat-Moved s inside in
    rw h (
      if-Took (b.0 == 0x12)
        (record { type = refl; progress = omega (arith, i.forward); moved = then_move m (λ _. i) })
        (if-Took (b.0 == 0x14)
          (record {
            type = refl;
            progress = omega (arith, d.forward);
            moved = then_move m (λ _. d);
          })
          (if-Took (b.0 == 0x08)
            (record {
              type = refl;
              progress = omega (arith, c.forward);
              moved = then_move m (λ _. c);
            })
            (record { type = refl; progress = omega arith; moved = m }))))
