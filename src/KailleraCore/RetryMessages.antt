-- ===== src/KailleraCore/RetryMessages.antt =====
-- kcore/kaillera_core.cpp, `RETRYCON` from `RetryConnectSend` to the case that receives it.
use kaillera_client.Prelude.{
  ℕ, suc, ◌+◌, ◌<◌, ◌^◌, ◌≡◌, refl, ap, ◌∙◌, min, List, [], ◌∷◌, ◌++◌, Bool, Option, some, arith,
  length, drop, set, le16, le32, from_le32, from_le32-le32, c_str, c_str-append, NoNul, ◌>>=◌, ltb,
  lt→ltb, suc-ne-zero, take_of_length-le, set-take-drop, if◌then◌else◌,
}
use kaillera_client.KInstruction.{
  KInstruction, type_code, store_bytes, store_char, store_short, load_bytes, retrycon,
}
use kaillera_client.KInstruction.Fields.{load_numbers, load_bytes_lem}
use kaillera_client.KInstruction.Grow
use kaillera_client.KInstruction.Grow.{store_bytes_lem}
use kaillera_client.KailleraCore.{
  Core, of_type, retrycon_message, retrycon_select, retrycon_control, retrycon_nak,
}
use kaillera_client.KailleraCore.General.{
  Env, Cursor, array, moved, char, short, start, on_retrycon, on_subtype, control_callback,
  select_callback, nak_callback, handle, type_of, process_general_instruction,
}

abbrev pub retrycon_body : ℕ → List ℕ → List ℕ
retrycon_body subtype payload = subtype ∷ (le16 (length payload) ++ payload)

-- The subtype and the length of a message that is being built.
fields_built :
    (subtype n : ℕ)
    → (k1 k2 : KInstruction) × (store_char (of_type retrycon) subtype ≡ some k1)
      × (store_short k1 n ≡ some k2)
      × (k2.type ≡ type_code retrycon)
      × (k2.buffer ≡ subtype ∷ le16 n)
      × Grow.IsValid k2
unfolding store_char store_short
fields_built subtype n =
    let v : Grow.IsValid (of_type retrycon) = record {
      allocated = omega arith;
      small = omega arith;
      fits = omega arith;
      user_fits = omega arith;
      user_plain = tt;
    } in
    let (k1, e1, b1, t1, u1, v1) =
      store_bytes_lem {k = of_type retrycon} (subtype ∷ []) v (omega arith) in
    let (k2, e2, b2, t2, u2, v2) =
      store_bytes_lem {k = k1} (le16 n) v1 (omega (arith, ap length b1)) in
    (k1, k2, e1, e2, t2 ∙ t1, b2 ∙ ap (λ (t : List ℕ). t ++ le16 n) b1, v2)

-- The message is built: the subtype, the length of the payload, and the payload.
retrycon_message_lem :
    (subtype : ℕ) (payload : List ℕ)
    → length payload < 2 ^ 16
    → (k : KInstruction) × (retrycon_message subtype payload ≡ some k)
      × (k.type ≡ type_code retrycon)
      × (k.buffer ≡ retrycon_body subtype payload)
unfolding retrycon_message
retrycon_message_lem subtype [] h =
    let (k1, k2, e1, e2, t, b, v) = fields_built subtype 0 in
    (
      k2,
      ap
            (λ (o : Option KInstruction).
              o >>= (λ (k : KInstruction). store_short k 0 >>= (λ (k : KInstruction). some k)))
            e1
          ∙ ap (λ (o : Option KInstruction). o >>= (λ (k : KInstruction). some k)) e2,
      t,
      b,
    )
retrycon_message_lem subtype (x ∷ p) h =
    let payload = x ∷ p in
    let (k1, k2, e1, e2, t, b, v) = fields_built subtype (length payload) in
    let (k3, e3, b3, t3, u3, v3) =
      store_bytes_lem {k = k2} payload v (omega (arith, ap length b)) in
    let add =
      λ (k : KInstruction). if ltb 0 (length payload) then store_bytes k payload else some k in
    (
      k3,
      ap
            (λ (o : Option KInstruction).
              o >>= (λ (k : KInstruction). store_short k (length payload) >>= add))
            e1
          ∙ ap (λ (o : Option KInstruction). o >>= add) e2
          ∙ ap (λ (more : Bool). if more then store_bytes k2 payload else some k2)
              (lt→ltb 0 (length payload) (omega arith))
          ∙ e3,
      t3 ∙ t,
      b3 ∙ ap (λ (l : List ℕ). l ++ payload) b,
    )

-- The two fields in front of the payload.
received_fields :
    (e : Env) (c : Core) (k : KInstruction) (subtype : ℕ) (payload : List ℕ)
    → subtype < 256
    → length payload < 2 ^ 16
    → k.buffer ≡ retrycon_body subtype payload
    → on_retrycon e c k
      ≡ on_subtype e c subtype
          (length payload)
          (record { message = record k { buffer = payload }; locals = 2 })
unfolding on_retrycon
received_fields e c k subtype payload s l h =
    let tail = le16 (length payload) ++ payload in
    let n =
      load_numbers k 0 (length payload) subtype tail (0 ∷ 0 ∷ 0 ∷ 0 ∷ []) (0 ∷ 0 ∷ [])
        (array (e.garbage 0) 1) (omega arith) l s refl refl refl in
    let m =
      load_numbers k 0 (length payload) 0 payload (0 ∷ 0 ∷ 0 ∷ 0 ∷ []) (array (e.garbage 1) 2)
        (0 ∷ []) (omega arith) l (omega arith) refl refl refl in
    let first : char e (start k)
        ≡ (subtype, record { message = record k { buffer = tail }; locals = 1 }) =
      ap (λ (t : List ℕ). char e (start (record k { buffer = t }))) h
      ∙ ap (λ (r : ℕ × KInstruction). (r.0, moved (start k) r.1)) n.2 in
    let second : short e (record { message = record k { buffer = tail }; locals = 1 })
        ≡ (length payload, record { message = record k { buffer = payload }; locals = 2 }) =
      ap (λ (r : ℕ × KInstruction). (r.0, moved (record { message = r.1; locals = 1 }) r.1)) m.1 in
    ap (λ (r : ℕ × Cursor). let (n, p) = short e r.1 in on_subtype e c r.0 n p) first
    ∙ ap (λ (r : ℕ × Cursor). on_subtype e c subtype r.0 r.1) second

by_type :
    (e : Env) (c : Core) (k : KInstruction)
    → k.type ≡ type_code retrycon
    → process_general_instruction e c k ≡ on_retrycon e c k
unfolding process_general_instruction handle type_of type_code
by_type e c k t = ap (λ (n : ℕ). handle e (type_of n) c k) t

control_received :
    (e : Env) (c : Core) (k : KInstruction) (action frame_index : ℕ)
    → action < 256
    → frame_index < 2 ^ 32
    → on_subtype e c retrycon_control 5
        (record { message = record k { buffer = action ∷ le32 frame_index }; locals = 2 })
      ≡ some (control_callback c action frame_index)
unfolding on_subtype
control_received e c k action frame_index a f =
    let n =
      load_numbers k 0 0 action (le32 frame_index) (0 ∷ 0 ∷ 0 ∷ 0 ∷ []) (0 ∷ 0 ∷ [])
        (array (e.garbage 2) 1) (omega arith) (omega arith) a refl refl refl in
    let frame : (load_bytes (record k { buffer = le32 frame_index }) (0 ∷ 0 ∷ 0 ∷ 0 ∷ []) 4).0
        ≡ le32 frame_index =
      ap (λ (t : List ℕ × KInstruction). t.0)
        (load_bytes_lem k (le32 frame_index) [] (0 ∷ 0 ∷ 0 ∷ 0 ∷ []) refl) in
    ap
      (λ (r : ℕ × KInstruction).
        some (control_callback c r.0 (from_le32 (load_bytes r.1 (0 ∷ 0 ∷ 0 ∷ 0 ∷ []) 4).0)))
      n.2
    ∙ ap (λ (t : List ℕ). some (control_callback c action (from_le32 t))) frame
    ∙ ap (λ (n : ℕ). some (control_callback c action n)) (from_le32-le32 frame_index f)

-- A payload into an array that is longer.
load_all :
    (k : KInstruction) (bytes out : List ℕ)
    → (load_bytes (record k { buffer = bytes }) out (length bytes)).0
      ≡ bytes ++ drop (length bytes) out
unfolding load_bytes
load_all k [] out = refl
load_all k (b ∷ bytes) out =
    let e : min (suc (length bytes)) (suc (length bytes)) ≡ suc (length bytes) = omega arith in
    rw (suc-ne-zero (length bytes), e, take_of_length-le (length bytes) bytes (omega arith))

session_text :
    (k : KInstruction) (session out : List ℕ) (n : ℕ)
    → NoNul session
    → n ≡ length session
    → length session < length out
    → c_str (set (load_bytes (record k { buffer = session }) out n).0 n 0) ≡ session
session_text k session out n s e l =
    ap (λ (m : ℕ). c_str (set (load_bytes (record k { buffer = session }) out m).0 m 0)) e
    ∙ ap (λ (t : List ℕ). c_str (set t (length session) 0)) (load_all k session out)
    ∙ ap c_str (set-take-drop (length session) session out 0 refl l)
    ∙ c_str-append session (drop (length session + 1) out) s

select_received :
    (e : Env) (c : Core) (k : KInstruction) (session : List ℕ)
    → NoNul session
    → length session < 64
    → on_subtype e c retrycon_select
        (length session)
        (record { message = record k { buffer = session }; locals = 2 })
      ≡ select_callback e c session
unfolding on_subtype
select_received e c k session s l = ap (select_callback e c) (
    session_text k session (array (e.garbage 2) 64) (min (length session) 63) s (omega arith)
      (omega arith))

nak_received :
    (e : Env) (c : Core) (n : ℕ) (p : Cursor)
    → on_subtype e c retrycon_nak n p ≡ some (nak_callback c)
unfolding on_subtype
nak_received e c n p = refl

-- What `RetryConnectSend` puts into a message comes out of it at the other side, under whatever
-- name the server passes it on: the action and the frame of a control message, a session of less
-- than 64 characters, and a refusal.
pub retrycon_round_trip :
    (e : Env) (c : Core) (action frame_index : ℕ) (session user : List ℕ) (len : ℕ)
    → action < 256
    → frame_index < 2 ^ 32
    → NoNul session
    → length session < 64
    → (control select nak : KInstruction) × (retrycon_message retrycon_control
          (action ∷ le32 frame_index)
        ≡ some control)
      × (retrycon_message retrycon_select session ≡ some select)
      × (retrycon_message retrycon_nak [] ≡ some nak)
      × (process_general_instruction e c (record control { user = user; buffer_len = len })
          ≡ some (control_callback c action frame_index))
      × (process_general_instruction e c (record select { user = user; buffer_len = len })
          ≡ select_callback e c session)
      × (process_general_instruction e c (record nak { user = user; buffer_len = len })
          ≡ some (nak_callback c))
retrycon_round_trip e c action frame_index session user len a f s l =
    let (k, b, t, body) =
      retrycon_message_lem retrycon_control (action ∷ le32 frame_index) (omega arith) in
    let (k', b', t', body') = retrycon_message_lem retrycon_select session (omega arith) in
    let (k'', b'', t'', body'') = retrycon_message_lem retrycon_nak [] (omega arith) in
    (
      k,
      k',
      k'',
      b,
      b',
      b'',
      by_type e c (record k { user = user; buffer_len = len }) t
          ∙ received_fields e c (record k { user = user; buffer_len = len }) retrycon_control
              (action ∷ le32 frame_index) (omega arith) (omega arith) body
          ∙ control_received e c (record k { user = user; buffer_len = len }) action frame_index a
              f,
      by_type e c (record k' { user = user; buffer_len = len }) t'
          ∙ received_fields e c (record k' { user = user; buffer_len = len }) retrycon_select
              session (omega arith) (omega arith) body'
          ∙ select_received e c (record k' { user = user; buffer_len = len }) session s l,
      by_type e c (record k'' { user = user; buffer_len = len }) t''
          ∙ received_fields e c (record k'' { user = user; buffer_len = len }) retrycon_nak []
              (omega arith) (omega arith) body''
          ∙ nak_received e c _ _,
    )
