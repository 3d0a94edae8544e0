-- ===== src/P2pInstruction.antt =====
-- core/p2p_instruction.h and .cpp: one message of the peer-to-peer protocol, in a body of 256
-- bytes with a position and a length that are bytes.
pub mod Codec
pub mod Fields
use kaillera_client.Prelude.{
  ℕ, zero, suc, ◌+◌, ◌-◌, ◌*◌, ◌/◌, ◌%◌, min, List, [], ◌∷◌, ◌++◌, Option, none, some, length, take,
  drop, set, replicate, get_or, ltb, leb, ◌==◌, if◌then◌else◌, strlen, le16, le32, from_le16,
  from_le32,
}

-- `p2p_instruction_st` and the two positions; `type` and `flags` are fields of 4 bits.
pub record P2pInstruction : Type 0 where
  pub type : ℕ
  pub flags : ℕ
  pub body : List ℕ
  pub pos : ℕ
  pub len : ℕ

-- `p2p_instruction(in, FLAGS)`; the body is not initialised, `junk` is what stands there.
abbrev pub make : List ℕ → ℕ → ℕ → P2pInstruction
make junk in_type flags = record {
  type = in_type % 16;
  flags = flags % 16;
  body = junk;
  pos = 0;
  len = 0;
}

-- `clone` leaves `len` as it is.
unfoldable pub clone : P2pInstruction → P2pInstruction → P2pInstruction
clone k other = record other { len = k.len }

unfoldable pub size : P2pInstruction → ℕ
size k = min 255 (k.len + 1)

-- `store_bytes(arg_0, n)`, with the bytes at `arg_0` as a list of at least `n` elements.
unfoldable pub store_bytes : P2pInstruction → List ℕ → ℕ → P2pInstruction
store_bytes k src n =
    let le = min (n + k.pos) 255 - k.pos in
    record k {
      body = take k.pos k.body ++ (take le src ++ drop (k.pos + le) k.body);
      pos = (k.pos + le) % 256;
    }

unfoldable pub store_string : P2pInstruction → List ℕ → P2pInstruction
unfolding store_bytes
store_string k src = store_bytes k src 128

unfoldable pub store_sstring : P2pInstruction → List ℕ → P2pInstruction
unfolding store_bytes
store_sstring k src = store_bytes k src 32

unfoldable pub store_mstring : P2pInstruction → List ℕ → P2pInstruction
unfolding store_bytes
store_mstring k src = store_bytes k src 64

-- `store_vstring(arg_0)`; `none` is `NULL`.
unfoldable pub store_vstring : P2pInstruction → Option (List ℕ) → P2pInstruction
store_vstring k none = store_bytes k (0 ∷ []) 1
store_vstring k (some s) = store_bytes (store_bytes k s (min 250 (strlen s))) (0 ∷ []) 1

unfoldable pub store_int : P2pInstruction → ℕ → P2pInstruction
store_int k x = store_bytes k (le32 x) 4

unfoldable pub store_short : P2pInstruction → ℕ → P2pInstruction
store_short k x = store_bytes k (le16 x) 2

unfoldable pub store_char : P2pInstruction → ℕ → P2pInstruction
store_char k x = store_bytes k (x ∷ []) 1

-- The unsigned numbers have the same bytes.
unfoldable pub store_uint : P2pInstruction → ℕ → P2pInstruction
store_uint k x = store_bytes k (le32 x) 4

unfoldable pub store_ushort : P2pInstruction → ℕ → P2pInstruction
store_ushort k x = store_bytes k (le16 x) 2

unfoldable pub store_uchar : P2pInstruction → ℕ → P2pInstruction
store_uchar k x = store_bytes k (x ∷ []) 1

-- `load_bytes(arg_0, n)`: `out` is what stands at `arg_0` before.
unfoldable pub load_bytes : P2pInstruction → List ℕ → ℕ → List ℕ × P2pInstruction
load_bytes k out n =
    if leb (k.pos + n) k.len
    then (take n (drop k.pos k.body) ++ drop n out, record k { pos = (k.pos + n) % 256 })
    else (out, k)

unfoldable pub load_string : P2pInstruction → List ℕ → List ℕ × P2pInstruction
load_string k out = let (s, k') = load_bytes k out 128 in (set s 127 0, k')

unfoldable pub load_mstring : P2pInstruction → List ℕ → List ℕ × P2pInstruction
load_mstring k out = let (s, k') = load_bytes k out 64 in (set s 63 0, k')

unfoldable pub load_sstring : P2pInstruction → List ℕ → List ℕ × P2pInstruction
load_sstring k out = let (s, k') = load_bytes k out 32 in (set s 31 0, k')

-- The bytes from `pos` on, within `len`.
abbrev pub remaining : P2pInstruction → List ℕ
remaining k = take (k.len - k.pos) (drop k.pos k.body)

-- The bytes that the string at `pos` takes, its NUL included if there is one.
unfoldable pub string_extent : P2pInstruction → ℕ
string_extent k =
    let nul_pos = strlen (remaining k) in
    if ltb nul_pos (k.len - k.pos) then nul_pos + 1 else k.len - k.pos

-- `load_vstring(arg_0, n)` with an array of `n` bytes; the empty one stands for `NULL` too.
unfoldable pub load_vstring : P2pInstruction → List ℕ → List ℕ × P2pInstruction
unfolding string_extent
load_vstring k [] = ([], record k { pos = min k.len (k.pos + string_extent k) })
load_vstring k (c ∷ out) =
    let array = c ∷ out in
    let consume = string_extent k in
    let max_copy = length array - 1 in
    let to_copy = min max_copy consume in
    let copied = take to_copy (drop k.pos k.body) ++ drop to_copy array in
    (set copied (min to_copy max_copy) 0, record k { pos = min k.len (k.pos + consume) })

-- The loads return a local variable with no initial value, whose bytes are `junk`.
unfoldable pub load_int : P2pInstruction → List ℕ → ℕ × P2pInstruction
load_int k junk = let (x, k') = load_bytes k junk 4 in (from_le32 x, k')

unfoldable pub load_short : P2pInstruction → List ℕ → ℕ × P2pInstruction
load_short k junk = let (x, k') = load_bytes k junk 2 in (from_le16 x, k')

unfoldable pub load_char : P2pInstruction → List ℕ → ℕ × P2pInstruction
load_char k junk = let (x, k') = load_bytes k junk 1 in (get_or x 0 0, k')

unfoldable pub load_uint : P2pInstruction → List ℕ → ℕ × P2pInstruction
load_uint k junk = let (x, k') = load_bytes k junk 4 in (from_le32 x, k')

unfoldable pub load_ushort : P2pInstruction → List ℕ → ℕ × P2pInstruction
load_ushort k junk = let (x, k') = load_bytes k junk 2 in (from_le16 x, k')

unfoldable pub load_uchar : P2pInstruction → List ℕ → ℕ × P2pInstruction
load_uchar k junk = let (x, k') = load_bytes k junk 1 in (get_or x 0 0, k')

-- `write_to_message`: the type in the low half of the first byte.
unfoldable pub write_to_message : P2pInstruction → List ℕ
write_to_message k = (k.type + 16 * k.flags) ∷ take k.pos k.body

unfoldable pub read_from_message : P2pInstruction → List ℕ → P2pInstruction
read_from_message k [] = record { type = 0; flags = 0; body = replicate 256 0; pos = 0; len = 0 }
read_from_message k (b ∷ p) =
    let payload_len = min (length p) 255 in
    record {
      type = b % 16;
      flags = b / 16;
      body = take payload_len p ++ drop payload_len k.body;
      pos = 0;
      len = payload_len;
    }
