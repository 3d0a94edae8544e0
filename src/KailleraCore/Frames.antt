-- ===== src/KailleraCore/Frames.antt =====
-- kcore/kaillera_core.cpp, from the input of the players to the frames of the game.
use kaillera_client.Prelude.{
  ℕ, zero, suc, ◌+◌, ◌<◌, ◌^◌, ◌%◌, ◌≡◌, refl, ap, ap₂, ◌&&◌, ltb, ◌∙◌, sym, List, [], ◌∷◌, ◌++◌,
  true, Option, some, inl, arith, length, take, drop, take-append, lt→ltb, le16, get_elem?, ◌>>=◌,
  take_of_length-le, append-nil,
}
use kaillera_client.Containers.Oslist
use kaillera_client.Containers.Oslist.{Oslist, contents}
use kaillera_client.Containers.Oslist.Laws
use kaillera_client.KInstruction
use kaillera_client.KInstruction.{KInstruction, type_code, store_bytes, gamedata}
use kaillera_client.KInstruction.Grow
use kaillera_client.KInstruction.Grow.{store_bytes_lem}
use kaillera_client.KailleraCore.{Core, PlayerStat, of_type, playing}
use kaillera_client.KailleraCore.General.{Env, type_of}
use kaillera_client.KailleraCore.Game.{
  queue_size, on_gamedata, handle_game, process_game_instruction,
}
use kaillera_client.KailleraCore.Play.{input_message, pop_frame, is_playing}
use kaillera_client.KailleraCore.Bundles.{Bundle, flatten, on_gamedata_lem}

-- The frames of so many calls that take them off the queue, and the state after them.
abbrev pub play_frames : ℕ → List ℕ → Core → Option (List (List ℕ) × Core)
play_frames zero values c = some ([], c)
play_frames (suc n) values c = do
  r ← pop_frame values c []
  l ← r.length
  rest ← play_frames n r.values r.core
  some (take l r.values ∷ rest.0, rest.1)

pop_frame_lem :
    (values : List ℕ) (c : Core) (frame : List ℕ) (rest : List (List ℕ))
    → Laws.IsValid queue_size c.gv_queue
    → c.playerstat ≡ playing
    → contents c.gv_queue ≡ frame ∷ rest
    → let q = Oslist.removei c.gv_queue 0 in
      (pop_frame values c []
        ≡ some (record {
          length = some (length frame);
          values = frame ++ drop (length frame) values;
          core = record c { gv_queue = q; frameno = c.frameno + 1 };
          polls = [];
        }))
      × (contents q ≡ rest)
      × Laws.IsValid queue_size q
unfolding pop_frame Oslist.size
pop_frame_lem values c frame rest v p h =
    let some_queued : 0 < c.gv_queue.length =
      omega (arith, sym (Laws.length-contents v), ap length h) in
    let found : Oslist.get c.gv_queue 0 ≡ some frame =
      Laws.get-contents c.gv_queue 0 some_queued ∙ ap (λ (t : List (List ℕ)). get_elem? t 0) h in
    let (e, v') = Laws.contents-removei 0 v some_queued in
    let ready : (is_playing c.playerstat && ltb 0 c.gv_queue.length) ≡ true =
      ap (λ (s : PlayerStat). is_playing s && ltb 0 c.gv_queue.length) p
      ∙ lt→ltb 0 c.gv_queue.length some_queued in
    (rw (pop_frame, ready, found), e ∙ ap (Laws.remove_at 0) h, v')

-- What is queued is played in its order, and what is behind it stays.
pub play_frames_lem :
    (frames : List (List ℕ)) (values : List ℕ) (c : Core) (rest : List (List ℕ))
    → Laws.IsValid queue_size c.gv_queue
    → c.playerstat ≡ playing
    → contents c.gv_queue ≡ frames ++ rest
    → (c' : Core) × (play_frames (length frames) values c ≡ some (frames, c'))
      × (contents c'.gv_queue ≡ rest)
      × (c'.frameno ≡ c.frameno + length frames)
play_frames_lem [] values c rest v p h = (c, refl, h, omega arith)
play_frames_lem (frame ∷ frames) values c rest v p h =
    let (e, q, v') = pop_frame_lem values c frame (frames ++ rest) v p h in
    let next = record c { gv_queue = Oslist.removei c.gv_queue 0; frameno = c.frameno + 1 } in
    let values' = frame ++ drop (length frame) values in
    let (c', ps, left, n) = play_frames_lem frames values' next rest v' p q in
    (c', rw (e, ps, take-append frame (drop (length frame) values)), left, omega (arith, n))

-- The message of a player's input: its length, and the bytes.
pub input_message_lem :
    (bytes : List ℕ)
    → length bytes < 2 ^ 15
    → (k : KInstruction) × (input_message (length bytes) bytes ≡ some k)
      × (k.type ≡ type_code gamedata)
      × (k.buffer ≡ le16 (length bytes) ++ bytes)
unfolding input_message KInstruction.store_short
input_message_lem bytes h =
    let e : length bytes % 2 ^ 16 ≡ length bytes = omega arith in
    let v : Grow.IsValid (of_type gamedata) = record {
      allocated = omega arith;
      small = omega arith;
      fits = omega arith;
      user_fits = omega arith;
      user_plain = tt;
    } in
    let (k1, e1, b1, t1, u1, v1) =
      store_bytes_lem {k = of_type gamedata} (le16 (length bytes)) v (omega arith) in
    let (k2, e2, b2, t2, u2, v2) =
      store_bytes_lem {k = k1} bytes v1 (omega (arith, ap length b1)) in
    (
      k2,
      ap₂
            (λ (n : ℕ) (b : List ℕ).
              KInstruction.store_short (of_type gamedata) n
              >>= (λ (k : KInstruction). store_bytes k b))
            e (take_of_length-le (length bytes) bytes (omega arith))
          ∙ ap (λ (o : Option KInstruction). o >>= (λ (k : KInstruction). store_bytes k bytes)) e1
          ∙ e2,
      t2 ∙ t1,
      b2 ∙ ap (λ (t : List ℕ). t ++ bytes) b1,
    )

game_message_type :
    (e : Env) (c : Core) (k : KInstruction)
    → k.type ≡ type_code gamedata
    → process_game_instruction e c k ≡ on_gamedata e c k
unfolding process_game_instruction handle_game type_of type_code
game_message_type e c k t = ap (λ (n : ℕ). handle_game e (type_of n) c k) t

-- The input of `conset` frames that is sent, and comes back as it is, is played in its order: the
-- queue was empty before, and is empty after.
pub input_message-play_frames :
    (e : Env) (c : Core) (n : ℕ) (frames : List (List ℕ)) (values : List ℕ)
    → Bundle c n frames
    → Laws.IsValid queue_size c.incoming_data_cache
    → c.incoming_data_cache.length < queue_size
    → length (flatten frames) < 2 ^ 15
    → c.playerstat ≡ playing
    → contents c.gv_queue ≡ []
    → (k : KInstruction) × (c' c'' : Core) × (input_message
          (length (flatten frames))
          (flatten frames)
        ≡ some k)
      × (process_game_instruction e c k ≡ some c')
      × (play_frames (length frames) values c' ≡ some (frames, c''))
      × (contents c''.gv_queue ≡ [])
      × (c''.frameno ≡ c.frameno + length frames)
input_message-play_frames e c n frames values b v room small p h =
    let (k, sent, t, body) = input_message_lem (flatten frames) small in
    let (cache', q', got, (queued, vq, lq), cached, vc) =
      on_gamedata_lem e c k n frames b v (inl room) small body in
    let c' = record c { incoming_data_cache = cache'; gv_queue = q' } in
    let all : contents q' ≡ frames ++ [] =
      queued ∙ ap (λ (l : List (List ℕ)). l ++ frames) h ∙ sym (append-nil frames) in
    let (c'', played, left, count) = play_frames_lem frames values c' [] vq p all in
    (k, c', c'', sent, game_message_type e c k t ∙ got, played, left, count)
