-- ===== src/FrameCache.antt =====
-- common/k_framecache.h: the buffer of input bytes between the network and the game, filled at the
-- back and taken from the front.
pub mod Queue
use kaillera_client.Prelude.{
  ℕ, ◌+◌, ◌-◌, ◌*◌, ◌^◌, min, List, [], ◌++◌, Bool, true, false, Option, none, some, length, take,
  drop, ltb, if◌then◌else◌,
}

-- The object. `buffer` holds the bytes `buffer[0..pos)`, so that `pos` is its length; `size` is the
-- size of the allocation, and `allocated` tells whether there is one.
pub record FrameCache : Type 0 where
  pub buffer : List ℕ
  pub size : ℕ
  pub allocated : Bool

abbrev pub pos : FrameCache → ℕ
pos k = length k.buffer

-- `k_framecache()`
abbrev pub init : FrameCache
init = record { buffer = []; size = 0; allocated = false }

-- `k_framecache(buf, len)`
abbrev pub make : List ℕ → FrameCache
make buf = record { buffer = buf; size = length buf; allocated = true }

-- A size computed in `int`, where it fits; what the code does otherwise is undefined.
unfoldable pub int_size : ℕ → Option ℕ
int_size n = if ltb n (2 ^ 31) then some n else none

unfoldable pub ensure_sized : FrameCache → ℕ → Option FrameCache
ensure_sized k datalen =
    if k.allocated
    then if ltb k.size datalen
      then (elim (int_size (datalen * 2)) [ none ↦ none | some n ↦ some (record k { size = n }) ])
      else some k
    else (elim (int_size (datalen * 6)) [
      | none ↦ none
      | some n ↦ some (record k { size = n; allocated = true })
    ])

-- `put_data(data, datalen)`
unfoldable pub put_data : FrameCache → List ℕ → Option FrameCache
put_data k bytes =
    if ltb 0 (length bytes)
    then (elim (ensure_sized k (pos k + length bytes)) [
      | none ↦ none
      | some sized ↦ some (record sized { buffer = sized.buffer ++ bytes })
    ])
    else some k

-- `peek_data(datab, len)`: the bytes copied; as many as it returns.
unfoldable pub peek_data : FrameCache → ℕ → List ℕ
peek_data k len = let x = min len (pos k) in if ltb 0 x then take x k.buffer else []

-- `get_data(datab, len)`; `memcpy` on itself moves the bytes down, as the code relies on.
unfoldable pub get_data : FrameCache → ℕ → List ℕ × FrameCache
get_data k len =
    let x = min len (pos k) in
    if ltb 0 x
    then (take x k.buffer, record k { buffer = take (pos k - x) (drop x k.buffer) })
    else ([], k)

unfoldable pub reset : FrameCache → FrameCache
reset k = record k { buffer = [] }
