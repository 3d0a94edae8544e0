-- ===== src/KInstruction.antt =====
-- kcore/k_instruction.h: one message of the Kaillera protocol, a type, a user name and a payload
-- that is filled from the back and consumed from the front.
pub mod Grow
pub mod Fields
pub mod Strings
pub mod Wire
use kaillera_client.Prelude.{
  ℕ, zero, suc, ◌+◌, ◌-◌, ◌*◌, ◌%◌, ◌^◌, min, List, [], ◌∷◌, ◌++◌, Bool, true, false, Option, none,
  some, length, take, drop, set, get_or, ltb, leb, ◌==◌, if◌then◌else◌, strlen, le16, le32,
  from_le16, from_le32,
}

-- `enum INSTRUCTION`, in its order.
pub data InstructionType : Type 0 where
  invdnone userleav userjoin userlogn longsucc servping userpong partchat : InstructionType
  gamechat tmoutrst gamemake gamrleav gamrjoin gamrslst gamestat gamrkick : InstructionType
  gameshut gamebegn gamedata gamcdata gamrdrop gamrsrdy lognstat motdline : InstructionType
  retrycon : InstructionType

-- The byte of the enumerator, as `write_to_message` stores it.
unfoldable pub type_code : InstructionType → ℕ
type_code invdnone = 0
type_code userleav = 1
type_code userjoin = 2
type_code userlogn = 3
type_code longsucc = 4
type_code servping = 5
type_code userpong = 6
type_code partchat = 7
type_code gamechat = 8
type_code tmoutrst = 9
type_code gamemake = 10
type_code gamrleav = 11
type_code gamrjoin = 12
type_code gamrslst = 13
type_code gamestat = 14
type_code gamrkick = 15
type_code gameshut = 16
type_code gamebegn = 17
type_code gamedata = 18
type_code gamcdata = 19
type_code gamrdrop = 20
type_code gamrsrdy = 21
type_code lognstat = 22
type_code motdline = 23
type_code retrycon = 24

-- The object. `type` is the byte of the 8-bit field; `user` holds the characters of the C string
-- in `user[32]`; `buffer` holds the live bytes `buffer[0..buffer_pos)`, so that `buffer_pos` is
-- its length; `buffer_len` is the size of the allocation.
pub record KInstruction : Type 0 where
  pub type : ℕ
  pub user : List ℕ
  pub buffer : List ℕ
  pub buffer_len : ℕ

abbrev pub buffer_pos : KInstruction → ℕ
buffer_pos k = length k.buffer

-- The constructor `k_instruction()`.
abbrev pub init : KInstruction
init = record { type = 0; user = []; buffer = []; buffer_len = 16 }

-- The loop `for (;buffer_len < arg_0; buffer_len*=2)` on `unsigned int`: `none` if the fuel runs
-- out. A length of 0, or one that wraps to 0, never ends it.
unfoldable pub grow : ℕ → ℕ → ℕ → Option ℕ
grow zero len want = none
grow (suc fuel) len want = elim (ltb len want) [
  | true ↦ grow fuel (len * 2 % 2 ^ 32) want
  | false ↦ some len
]

-- A length of 16 doubled 28 times wraps to 0, so more rounds than these change nothing.
abbrev pub grow_fuel : ℕ
grow_fuel = 33

-- `none` is the loop that does not end.
unfoldable pub ensure_sized : KInstruction → ℕ → Option KInstruction
ensure_sized k want = elim (grow grow_fuel k.buffer_len want) [
  | none ↦ none
  | some n ↦ some (record k { buffer_len = n })
]

unfoldable pub clone : KInstruction → KInstruction
clone other = record {
  type = other.type;
  user = take 31 other.user;
  buffer = other.buffer;
  buffer_len = other.buffer_len;
}

unfoldable pub set_username : KInstruction → List ℕ → KInstruction
set_username k name = record k { user = take (min (length name) 31) name }

-- `store_bytes(arg_0, arg_4)`, with the bytes at `arg_0` as a list of `arg_4` elements.
unfoldable pub store_bytes : KInstruction → List ℕ → Option KInstruction
store_bytes k bytes = elim (ensure_sized k ((buffer_pos k + length bytes) % 2 ^ 32)) [
  | none ↦ none
  | some k' ↦ some (record k' { buffer = k'.buffer ++ bytes })
]

-- `load_bytes(arg_0, n)`: what stands at `arg_0` before the call is `out`, and the part of it
-- that the payload is too short to fill stays.
unfoldable pub load_bytes : KInstruction → List ℕ → ℕ → List ℕ × KInstruction
load_bytes k out n =
    if buffer_pos k == 0
    then (out, k)
    else (let p = min n (buffer_pos k) in
        (take p k.buffer ++ drop p out, record k { buffer = drop p k.buffer }))

unfoldable pub store_string : KInstruction → List ℕ → Option KInstruction
store_string k s = store_bytes k (s ++ 0 ∷ [])

-- The loop that consumes what does not fit, through a scratch array of 256 bytes. Each round takes
-- a byte at least, so the count of bytes is fuel enough.
unfoldable pub skip_chunks : ℕ → ℕ → List ℕ → KInstruction → KInstruction
skip_chunks zero remaining scratch k = k
skip_chunks (suc fuel) remaining scratch k = elim (ltb 0 remaining) [
  | true ↦
      let chunk = min 256 remaining in
      let loaded = load_bytes k scratch chunk in
      skip_chunks fuel (remaining - chunk) loaded.0 loaded.1
  | false ↦ k
]

-- The bytes that a string takes in the payload, its NUL included if there is one.
unfoldable pub string_extent : List ℕ → ℕ
string_extent buffer =
    let nul_pos = strlen buffer in
    if ltb nul_pos (length buffer) then nul_pos + 1 else length buffer

-- `load_str(NULL, n)`: the string is consumed and not kept.
unfoldable pub skip_str : KInstruction → List ℕ → KInstruction
skip_str k scratch = let consume = string_extent k.buffer in skip_chunks consume consume scratch k

-- `load_str(arg_0, n)` with an array of `n` bytes, whose contents before the call are `out`. The
-- result is the array's contents.
unfoldable pub load_str : KInstruction → List ℕ → List ℕ → List ℕ × KInstruction
load_str k scratch [] = ([], skip_str k scratch)
load_str k scratch (c ∷ out) =
    let array = c ∷ out in
    let consume = string_extent k.buffer in
    let max_copy = length array - 1 in
    let to_copy = min max_copy consume in
    let copied = (if ltb 0 to_copy then load_bytes k array to_copy else (array, k)) in
    let at = min to_copy max_copy in
    let remaining = consume - to_copy in
    (set copied.0 at 0, skip_chunks remaining remaining scratch copied.1)

unfoldable pub store_int : KInstruction → ℕ → Option KInstruction
store_int k x = store_bytes k (le32 x)

unfoldable pub store_short : KInstruction → ℕ → Option KInstruction
store_short k x = store_bytes k (le16 x)

unfoldable pub store_char : KInstruction → ℕ → Option KInstruction
store_char k x = store_bytes k (x ∷ [])

-- The loads return a local variable that has no initial value: `junk` holds its bytes before the
-- call. The result of `load_int` is given by its 32 bits.
unfoldable pub load_int : KInstruction → List ℕ → ℕ × KInstruction
load_int k junk = let (x, k') = load_bytes k junk 4 in (from_le32 x, k')

unfoldable pub load_short : KInstruction → List ℕ → ℕ × KInstruction
load_short k junk = let (x, k') = load_bytes k junk 2 in (from_le16 x, k')

unfoldable pub load_char : KInstruction → List ℕ → ℕ × KInstruction
load_char k junk = let (x, k') = load_bytes k junk 1 in (get_or x 0 0, k')

-- `write_to_message(arg_0, max_len)` gives the bytes that stand at `arg_0`, as many as its result
-- says. `max_len - eax` is on `unsigned int`, and wraps.
unfoldable pub write_to_message : KInstruction → ℕ → List ℕ
write_to_message k max_len =
    let eax = length k.user + 2 in
    let ebx = min ((max_len + 2 ^ 32 - eax) % 2 ^ 32) (buffer_pos k) in
    k.type ∷ (k.user ++ 0 ∷ take ebx k.buffer)

-- The state in which `read_from_message` leaves a message that it refuses.
abbrev pub refused : KInstruction → KInstruction
refused k = record k { type = 0; user = []; buffer = [] }

-- `read_from_message(p_buffer, p_buffer_len)`, with the message as a list of bytes. A message
-- with no NUL behind its first byte is refused.
unfoldable pub read_from_message : KInstruction → List ℕ → Option KInstruction
read_from_message k [] = some (refused k)
read_from_message k (t ∷ p) =
    let ul = strlen p in
    if ltb ul (length p)
    then (let payload = drop (ul + 1) p in
        elim (ensure_sized k (length payload)) [
          | none ↦ none
          | some k' ↦ some (record k' { type = t; user = take (min ul 31) p; buffer = payload })
        ])
    else some (refused k)
