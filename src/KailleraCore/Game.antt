-- ===== src/KailleraCore/Game.antt =====
-- kcore/kaillera_core.cpp, `kaillera_ProcessGameInstruction`: the input of a game comes in bundles
-- of frames, which are cut up and queued.
use kaillera_client.Prelude.{
  ℕ, zero, suc, ◌/◌, ◌^◌, List, [], ◌∷◌, ◌||◌, Option, none, some, length, take, drop, ltb, leb,
  ◌==◌, ◌>>=◌, if◌then◌else◌,
}
use kaillera_client.Containers.Oslist
use kaillera_client.Containers.Oslist.{Oslist}
use kaillera_client.KInstruction.{KInstruction, InstructionType, load_bytes, gamedata, gamcdata}
use kaillera_client.KailleraCore.{Core}
use kaillera_client.KailleraCore.General.{Env, Cursor, array, char, short, start, type_of, handle}

-- The size of the two queues.
abbrev pub queue_size : ℕ
queue_size = 256

-- `add`. `none` is a queue that is full, where the code writes past its array.
unfoldable pub push : Oslist (List ℕ) → List ℕ → Option (Oslist (List ℕ))
push q item = if ltb (Oslist.size q) queue_size then some (Oslist.add q item) else none

-- The loop `for (x = 0; x < len; x += ilen)`, over the bytes that are left. `none` is undefined in
-- the code: steps of 0 never end, and the last step may read past the bytes. Each round takes a
-- byte, so the count of bytes and one more are fuel enough.
unfoldable pub queue_slices : ℕ → ℕ → List ℕ → Oslist (List ℕ) → Option (Oslist (List ℕ))
queue_slices zero ilen bytes q = none
queue_slices (suc fuel) ilen [] q = some q
queue_slices (suc fuel) ilen (b ∷ bytes) q =
    if (ilen == 0) || ltb (length (b ∷ bytes)) ilen then none else (do
      pushed ← push q (take ilen (b ∷ bytes))
      queue_slices fuel ilen (drop ilen (b ∷ bytes)) pushed)

-- The frames of a bundle of `conset` frames; a division by 0 is undefined.
unfoldable pub queue_frames : Core → List ℕ → Option Core
queue_frames c bytes = if c.conset == 0 then none else (do
  queued ← queue_slices (suc (length bytes)) (length bytes / c.conset) bytes c.gv_queue
  some (record c { gv_queue = queued }))

-- The block for a bundle of `len` bytes: what it holds, and the cache. A full cache gives up its
-- oldest block, whose place is not known once `realloc` has moved it (`none`).
unfoldable pub take_block : Env → Cursor → ℕ → Oslist (List ℕ) → Option (List ℕ × Oslist (List ℕ))
take_block e p len cache =
    if Oslist.size cache == queue_size
    then (elim (Oslist.get cache 0) [
      | none ↦ none
      | some old ↦ if length old == len then some (old, Oslist.removei cache 0) else none
    ])
    else some (array (e.garbage p.locals) len, cache)

-- `GAMEDATA`, behind its length, which is a `short`: a negative one is undefined.
unfoldable pub store_bundle : Env → Core → ℕ → Cursor → Option Core
store_bundle e c len p = if leb (2 ^ 15) len then none else (do
  block ← take_block e p len c.incoming_data_cache
  cached ← push block.1 (load_bytes p.message block.0 len).0
  queue_frames (record c { incoming_data_cache = cached }) (load_bytes p.message block.0 len).0)

unfoldable pub on_gamedata : Env → Core → KInstruction → Option Core
on_gamedata e c k = let (len, p) = short e (start k) in store_bundle e c len p

-- `GAMCDATA`: the bundle is one that is in the cache. The index is not checked; `none` is one past
-- the blocks in use.
unfoldable pub on_gamcdata : Env → Core → KInstruction → Option Core
on_gamcdata e c k =
    let (index, p) = char e (start k) in
    if ltb index (Oslist.size c.incoming_data_cache)
    then (do block ← Oslist.get c.incoming_data_cache index; queue_frames c block)
    else none

unfoldable pub handle_game : Env → Option InstructionType → Core → KInstruction → Option Core
handle_game e (some gamedata) c k = on_gamedata e c k
handle_game e (some gamcdata) c k = on_gamcdata e c k
handle_game e type c k = handle e type c k

unfoldable pub process_game_instruction : Env → Core → KInstruction → Option Core
process_game_instruction e c k = handle_game e (type_of k.type) c k
