-- ===== src/P2pInstruction/Codec.antt =====
-- core/p2p_instruction.cpp: the body as a queue of bytes, and the way through the wire.
use kaillera_client.Prelude.{
  ℕ, ◌+◌, ◌-◌, ◌%◌, ◌≤◌, ◌<◌, ◌≡◌, refl, ap, ◌∙◌, sym, min, List, ◌++◌, arith, length, take, drop,
  length-take, length-drop, length-append, take-append_add, take-take_le, drop-take, drop-drop,
  take_of_length-le, drop_of_length-le, append-nil, take-append, drop-append, le→leb,
}
use kaillera_client.P2pInstruction.{
  P2pInstruction, store_bytes, load_bytes, remaining, write_to_message, read_from_message,
}

-- The body has its 256 bytes and the positions are within it; the fields of 4 bits are that.
pub record IsValid (k : P2pInstruction) : Type 0 where
  pub body : length k.body ≡ 256
  pub pos : k.pos ≤ 255
  pub len : k.len ≤ 255
  pub type : k.type < 16
  pub flags : k.flags < 16

-- What has been stored so far.
abbrev pub payload : P2pInstruction → List ℕ
payload k = take k.pos k.body

-- Storing appends to the payload what is left of room for 255 bytes, never more, and stays within
-- the body.
pub store_bytes_bounded :
    {k : P2pInstruction} (src : List ℕ) (n : ℕ)
    → IsValid k
    → n ≤ length src
    → (payload (store_bytes k src n) ≡ payload k ++ take (min n (255 - k.pos)) src)
      × ((store_bytes k src n).pos ≡ k.pos + min n (255 - k.pos))
      × IsValid (store_bytes k src n)
unfolding store_bytes
store_bytes_bounded {k} src n v h =
    let le = min (n + k.pos) 255 - k.pos in
    let room = min n (255 - k.pos) in
    let e : le ≡ room = omega (arith, v.pos) in
    let p : (k.pos + le) % 256 ≡ k.pos + room = omega (arith, v.pos) in
    let l0 : length (take k.pos k.body) ≡ k.pos =
      omega (arith, length-take k.pos k.body, v.body, v.pos) in
    let l1 : length (take room src) ≡ room = omega (arith, length-take room src) in
    rw (p, e)
      (
        take-append_add k.pos room (take k.pos k.body) (take room src ++ drop (k.pos + room) k.body)
              l0
            ∙ ap (λ (t : List ℕ). take k.pos k.body ++ t)
                (ap (λ (m : ℕ). take m (take room src ++ drop (k.pos + room) k.body)) (sym l1)
                  ∙ take-append (take room src) (drop (k.pos + room) k.body)),
        refl,
        record {
          body = omega (
            arith,
            length-append (take k.pos k.body) (take room src ++ drop (k.pos + room) k.body),
            length-append (take room src) (drop (k.pos + room) k.body),
            length-drop (k.pos + room) k.body,
            l0,
            l1,
            v.body,
            v.pos,
          );
          pos = omega (arith, v.pos);
          len = v.len;
          type = v.type;
          flags = v.flags;
        },
      )

-- A load that the message has bytes for takes exactly them, whatever stood in the caller's
-- variable, and leaves the rest to be loaded.
pub load_bytes_lem :
    {k : P2pInstruction} (out bytes rest : List ℕ)
    → IsValid k
    → k.pos ≤ k.len
    → remaining k ≡ bytes ++ rest
    → length out ≡ length bytes
    → let (got, k') = load_bytes k out (length bytes) in
      (got ≡ bytes) × (remaining k' ≡ rest) × (k'.pos ≤ k'.len) × IsValid k'
unfolding load_bytes
load_bytes_lem {k} out bytes rest v w e h =
    let n = length bytes in
    let m = k.len - k.pos in
    let le : n ≤ m =
      omega (arith, ap length e, length-append bytes rest, length-take m (drop k.pos k.body)) in
    let p : (k.pos + n) % 256 ≡ k.pos + n = omega (arith, v.len) in
    rw (le→leb (k.pos + n) k.len (omega arith), p)
      (
        ap (λ (t : List ℕ). take n (drop k.pos k.body) ++ t) (drop_of_length-le n out (omega arith))
            ∙ append-nil _
            ∙ sym (take-take_le n m (drop k.pos k.body) le)
            ∙ ap (take n) e
            ∙ take-append bytes rest,
        ap (take (k.len - (k.pos + n))) (sym (drop-drop n k.pos k.body))
            ∙ ap (λ (j : ℕ). take j (drop n (drop k.pos k.body))) (omega arith)
            ∙ sym (drop-take n m (drop k.pos k.body))
            ∙ ap (drop n) e
            ∙ drop-append bytes rest,
        omega arith,
        record {
          body = v.body;
          pos = omega (arith, v.len);
          len = v.len;
          type = v.type;
          flags = v.flags;
        },
      )

-- A message travels: what is written is read back with its type, its flags and its payload, and
-- the reader stands at the front of it.
pub read_from_message-write_to_message :
    {k k' : P2pInstruction}
    → IsValid k
    → IsValid k'
    → let r = read_from_message k' (write_to_message k) in
      (r.type ≡ k.type)
      × (r.flags ≡ k.flags)
      × (remaining r ≡ payload k)
      × (r.len ≡ k.pos)
      × (r.pos ≡ 0)
      × IsValid r
unfolding read_from_message write_to_message
read_from_message-write_to_message {k} {k'} v w =
    let l : length (payload k) ≡ k.pos = omega (arith, length-take k.pos k.body, v.body, v.pos) in
    let n : min (length (payload k)) 255 ≡ k.pos = omega (arith, v.pos) in
    let t = take_of_length-le k.pos (payload k) (omega arith) in
    let body : length (take k.pos (payload k) ++ drop k.pos k'.body) ≡ 256 = omega (
      arith,
      length-append (take k.pos (payload k)) (drop k.pos k'.body),
      length-drop k.pos k'.body,
      ap length t,
      w.body,
      v.pos,
    ) in
    rw n (
      omega (arith, v.type),
      omega (arith, v.type),
      ap (λ (j : ℕ). take j (take k.pos (payload k) ++ drop k.pos k'.body)) (omega arith)
          ∙ take-append_add k.pos 0 (take k.pos (payload k)) (drop k.pos k'.body)
              (omega (arith, ap length t))
          ∙ append-nil _
          ∙ t,
      refl,
      refl,
      record {
        body = body;
        pos = omega arith;
        len = v.pos;
        type = omega arith;
        flags = omega (arith, v.type, v.flags);
      },
    )
