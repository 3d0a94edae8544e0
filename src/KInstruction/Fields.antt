-- ===== src/KInstruction/Fields.antt =====
-- kcore/k_instruction.h, `load_bytes` and the numbers: the payload is a queue of bytes, and a load
-- of more than it holds leaves part of the caller's variable as it was.
use kaillera_client.Prelude.{
  ℕ, suc, ◌^◌, ◌<◌, ◌≡◌, refl, List, [], ◌∷◌, ◌++◌, min, arith, length, length-append, suc-ne-zero,
  get_or, min_left, take-append, drop-append, le16, le32, from_le16, from_le32, from_le32-le32,
  from_le16-le16, drop_of_length-le, append-nil,
}
use kaillera_client.KInstruction.{KInstruction, load_bytes, load_int, load_short, load_char}

-- A load whose bytes are all there takes exactly them off the front, and the caller's variable,
-- of that size, holds nothing else afterwards.
pub load_bytes_lem :
    (k : KInstruction) (bytes rest out : List ℕ)
    → length out ≡ length bytes
    → load_bytes (record k { buffer = bytes ++ rest }) out (length bytes)
      ≡ (bytes, record k { buffer = rest })
unfolding load_bytes
load_bytes_lem k [] [] [] h = refl
load_bytes_lem k [] (r ∷ rest) [] h =
    rw (suc-ne-zero (length rest), min_left 0 (suc (length rest)) (omega arith))
load_bytes_lem k [] rest (o ∷ out) h = absurd (omega arith)
load_bytes_lem k (b ∷ bytes) rest out h =
    let e : min (suc (length bytes)) (suc (length (bytes ++ rest))) ≡ suc (length bytes) =
      omega (arith, length-append bytes rest) in
    rw (
      suc-ne-zero (length (bytes ++ rest)),
      e,
      take-append bytes rest,
      drop-append bytes rest,
      drop_of_length-le (suc (length bytes)) out (omega arith),
      append-nil,
    )

-- A load from an empty payload changes neither the variable nor the message.
pub load_bytes_empty :
    (k : KInstruction) (out : List ℕ) (n : ℕ)
    → load_bytes (record k { buffer = [] }) out n ≡ (out, record k { buffer = [] })
unfolding load_bytes
load_bytes_empty k out n = refl

-- `load_int`, `load_short` and `load_char` take a stored number off the front, whatever stood in
-- their local variable; on an empty payload their result is what stood there.
pub load_numbers :
    (k : KInstruction) (x y z : ℕ) (rest junk junk' junk'' : List ℕ)
    → x < 2 ^ 32
    → y < 2 ^ 16
    → z < 256
    → length junk ≡ 4
    → length junk' ≡ 2
    → length junk'' ≡ 1
    → let at = λ (b : List ℕ). record k { buffer = b } in
      (load_int (at (le32 x ++ rest)) junk ≡ (x, at rest))
      × (load_short (at (le16 y ++ rest)) junk' ≡ (y, at rest))
      × (load_char (at (z ∷ rest)) junk'' ≡ (z, at rest))
      × (load_int (at []) junk ≡ (from_le32 junk, at []))
      × (load_short (at []) junk' ≡ (from_le16 junk', at []))
      × (load_char (at []) junk'' ≡ (get_or junk'' 0 0, at []))
unfolding load_int load_short load_char
load_numbers k x y z rest junk junk' junk'' hx hy hz j j' j'' = (
  rw (load_bytes_lem k (le32 x) rest junk j) (rw (from_le32-le32 x hx)),
  rw (load_bytes_lem k (le16 y) rest junk' j') (rw (from_le16-le16 y hy)),
  rw (load_bytes_lem k (z ∷ []) rest junk'' j''),
  rw (load_bytes_empty k junk 4),
  rw (load_bytes_empty k junk' 2),
  rw (load_bytes_empty k junk'' 1),
)
