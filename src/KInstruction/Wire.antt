-- ===== src/KInstruction/Wire.antt =====
-- kcore/k_instruction.h, `write_to_message` and `read_from_message`: what is written is read back.
use kaillera_client.Prelude.{
  ℕ, ◌+◌, ◌-◌, ◌%◌, ◌^◌, ◌≤◌, ◌<◌, ◌≡◌, refl, ap, ◌∙◌, List, [], ◌∷◌, ◌++◌, min, some, arith,
  length, length-append, take, drop, length-take, strlen, strlen-append, lt→ltb, le→ltb,
  take-min-length, drop-append_suc, NoNul, take-append,
}
use kaillera_client.KInstruction.{
  KInstruction, write_to_message, read_from_message, refused, ensure_sized,
}
use kaillera_client.KInstruction.Grow.{IsValid, ensure_sized_lem}

-- The part of the payload that fits a message of `max_len` bytes.
abbrev pub sent_payload : KInstruction → ℕ → List ℕ
sent_payload k max_len = take (max_len - (length k.user + 2)) k.buffer

-- Where the header of a message fits `max_len`, the message written is the type, the name with
-- its NUL and as much of the payload as fits, and no longer than `max_len`.
pub write_to_message_lem :
    (k : KInstruction) (max_len : ℕ)
    → length k.user + 2 ≤ max_len
    → max_len < 2 ^ 32
    → (write_to_message k max_len ≡ k.type ∷ (k.user ++ 0 ∷ sent_payload k max_len))
      × (length (write_to_message k max_len) ≤ max_len)
unfolding write_to_message
write_to_message_lem k max_len h w =
    let room = max_len - (length k.user + 2) in
    let e : (max_len + 2 ^ 32 - (length k.user + 2)) % 2 ^ 32 ≡ room = omega arith in
    rw e (
      ap (λ (p : List ℕ). k.type ∷ (k.user ++ 0 ∷ p)) (take-min-length room k.buffer),
      omega (
        arith,
        length-append k.user (0 ∷ take (min room (length k.buffer)) k.buffer),
        length-take (min room (length k.buffer)) k.buffer,
      ),
    )

read_step :
    (k k' : KInstruction) (t : ℕ) (p name payload : List ℕ)
    → strlen p < length p
    → drop (strlen p + 1) p ≡ payload
    → take (min (strlen p) 31) p ≡ name
    → ensure_sized k (length payload) ≡ some k'
    → read_from_message k (t ∷ p) ≡ some (record k' { type = t; user = name; buffer = payload })
unfolding read_from_message
read_step k k' t p name payload l d n e =
    rw (lt→ltb (strlen p) (length p) l) (rw d (rw e (rw (d, n))))

-- Reading a message with a user name of at most 31 characters gives the type, the name and the
-- payload that it was made of, whatever the receiving object held before, and leaves that object
-- valid.
pub read_from_message_lem :
    {k : KInstruction} (t : ℕ) (name payload : List ℕ)
    → IsValid k
    → length name ≤ 31
    → NoNul name
    → length payload ≤ 2 ^ 31
    → (k' : KInstruction) × (read_from_message k (t ∷ (name ++ 0 ∷ payload)) ≡ some k')
      × (k'.type ≡ t)
      × (k'.user ≡ name)
      × (k'.buffer ≡ payload)
      × IsValid k'
unfolding read_from_message
read_from_message_lem {k} t name payload v h plain l =
    let p = name ++ 0 ∷ payload in
    let a = length-append name (0 ∷ payload) in
    let u : strlen p ≡ length name = strlen-append name payload plain in
    let (n, g, wn, ln, nl) = ensure_sized_lem {k = k} (length payload) v.allocated v.small l in
    (
      record { type = t; user = name; buffer = payload; buffer_len = n },
      read_step k (record k { buffer_len = n }) t p name payload (omega arith)
          (ap (λ (m : ℕ). drop (m + 1) p) u ∙ drop-append_suc name 0 payload)
          (ap (λ (m : ℕ). take m p) (omega arith) ∙ take-append name (0 ∷ payload)) g,
      refl,
      refl,
      refl,
      record { allocated = omega arith; small = nl; fits = wn; user_fits = h; user_plain = plain },
    )

-- A message travels: what one valid object writes within `max_len` bytes, another reads back as
-- the same type and user name, and as much of the payload as `max_len` had room for.
pub read-write :
    {k : KInstruction} (from : KInstruction) (max_len : ℕ)
    → IsValid k
    → IsValid from
    → length from.user + 2 ≤ max_len
    → max_len ≤ 2 ^ 31
    → (k' : KInstruction) × (read_from_message k (write_to_message from max_len) ≡ some k')
      × (k'.type ≡ from.type)
      × (k'.user ≡ from.user)
      × (k'.buffer ≡ sent_payload from max_len)
      × IsValid k'
read-write {k} from max_len v w h l = rw (write_to_message_lem from max_len h (omega arith)).0 (
    read_from_message_lem {k = k} from.type from.user (sent_payload from max_len) v w.user_fits
      w.user_plain (omega (arith, length-take (max_len - (length from.user + 2)) from.buffer)))

-- A message is refused exactly when no NUL stands behind its first byte: it then leaves an empty
-- message of type 0, in whatever state the object was.
pub read_malformed :
    (k : KInstruction) (t : ℕ) (p : List ℕ)
    → strlen p ≡ length p
    → (read_from_message k (t ∷ p) ≡ some (refused k)) × (read_from_message k [] ≡ some (refused k))
unfolding read_from_message
read_malformed k t p h = (rw (h, le→ltb (length p) (length p) (omega arith)), refl)
