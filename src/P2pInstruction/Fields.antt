-- ===== src/P2pInstruction/Fields.antt =====
-- core/p2p_instruction.cpp: the typed fields that a message is filled with and read by.
use kaillera_client.Prelude.{
  ℕ, ◌+◌, ◌-◌, ◌^◌, ◌≤◌, ◌<◌, ◌≡◌, refl, ap, ap₂, ◌∙◌, sym, min, List, [], ◌∷◌, ◌++◌, arith, length,
  take, le16, le32, from_le16, from_le32, from_le16-le16, from_le32-le32, get_or, length-append,
  append_assoc, append-nil,
}
use kaillera_client.P2pInstruction.{
  P2pInstruction, store_int, store_short, store_char, load_int, load_short, load_char, remaining,
  write_to_message, read_from_message,
}
use kaillera_client.P2pInstruction.Codec.{
  IsValid, payload, store_bytes_bounded, load_bytes_lem, read_from_message-write_to_message,
}

-- A number that is stored by `store_int`, `store_short` or `store_char`, as its bit pattern.
pub data Field : Type 0 where
  int_field : ℕ → Field
  short_field : ℕ → Field
  char_field : ℕ → Field

abbrev pub Fits : Field → Type 0
Fits (int_field x) = x < 2 ^ 32
Fits (short_field x) = x < 2 ^ 16
Fits (char_field x) = x < 256

abbrev pub AllFit : List Field → Type 0
AllFit [] = Unit
AllFit (f ∷ fs) = Fits f × AllFit fs

abbrev pub encoding : Field → List ℕ
encoding (int_field x) = le32 x
encoding (short_field x) = le16 x
encoding (char_field x) = x ∷ []

abbrev pub encodings : List Field → List ℕ
encodings [] = []
encodings (f ∷ fs) = encoding f ++ encodings fs

abbrev pub store_field : P2pInstruction → Field → P2pInstruction
store_field k (int_field x) = store_int k x
store_field k (short_field x) = store_short k x
store_field k (char_field x) = store_char k x

abbrev pub store_fields : P2pInstruction → List Field → P2pInstruction
store_fields k [] = k
store_fields k (f ∷ fs) = store_fields (store_field k f) fs

-- The loads of the same types, each with the bytes of the number `junk` in its local variable.
abbrev pub load_field : ℕ → P2pInstruction → Field → Field × P2pInstruction
load_field junk k (int_field _) = let (x, k') = load_int k (le32 junk) in (int_field x, k')
load_field junk k (short_field _) = let (x, k') = load_short k (le16 junk) in (short_field x, k')
load_field junk k (char_field _) = let (x, k') = load_char k (junk ∷ []) in (char_field x, k')

abbrev pub load_fields : ℕ → P2pInstruction → List Field → List Field
load_fields junk k [] = []
load_fields junk k (f ∷ fs) = let (g, k') = load_field junk k f in g ∷ load_fields junk k' fs

store_field_lem :
    {k : P2pInstruction} (f : Field)
    → IsValid k
    → k.pos + length (encoding f) ≤ 255
    → (payload (store_field k f) ≡ payload k ++ encoding f)
      × ((store_field k f).pos ≡ k.pos + length (encoding f))
      × IsValid (store_field k f)
unfolding store_int store_short store_char
store_field_lem {k} (int_field x) v h =
    let (p, q, w) = store_bytes_bounded (le32 x) 4 v (omega arith) in
    let e : min 4 (255 - k.pos) ≡ 4 = omega arith in
    (p ∙ ap (λ (n : ℕ). payload k ++ take n (le32 x)) e, q ∙ ap (λ (n : ℕ). k.pos + n) e, w)
store_field_lem {k} (short_field x) v h =
    let (p, q, w) = store_bytes_bounded (le16 x) 2 v (omega arith) in
    let e : min 2 (255 - k.pos) ≡ 2 = omega arith in
    (p ∙ ap (λ (n : ℕ). payload k ++ take n (le16 x)) e, q ∙ ap (λ (n : ℕ). k.pos + n) e, w)
store_field_lem {k} (char_field x) v h =
    let (p, q, w) = store_bytes_bounded (x ∷ []) 1 v (omega arith) in
    let e : min 1 (255 - k.pos) ≡ 1 = omega arith in
    (p ∙ ap (λ (n : ℕ). payload k ++ take n (x ∷ [])) e, q ∙ ap (λ (n : ℕ). k.pos + n) e, w)

store_fields_lem :
    {k : P2pInstruction} (fs : List Field)
    → IsValid k
    → k.pos + length (encodings fs) ≤ 255
    → (payload (store_fields k fs) ≡ payload k ++ encodings fs) × IsValid (store_fields k fs)
store_fields_lem {k} [] v h = (sym (append-nil (payload k)), v)
store_fields_lem {k} (f ∷ fs) v h =
    let l = length-append (encoding f) (encodings fs) in
    let (p, q, w) = store_field_lem {k = k} f v (omega arith) in
    let (p', w') = store_fields_lem {k = store_field k f} fs w (omega arith) in
    (
      p'
          ∙ ap (λ (t : List ℕ). t ++ encodings fs) p
          ∙ append_assoc (payload k) (encoding f) (encodings fs),
      w',
    )

load_field_lem :
    {k : P2pInstruction} (junk : ℕ) (f : Field) (rest : List ℕ)
    → IsValid k
    → k.pos ≤ k.len
    → Fits f
    → remaining k ≡ encoding f ++ rest
    → let (g, k') = load_field junk k f in
      (g ≡ f) × (remaining k' ≡ rest) × (k'.pos ≤ k'.len) × IsValid k'
unfolding load_int load_short load_char
load_field_lem {k} junk (int_field x) rest v h r e =
    let (g, m, p, w) = load_bytes_lem (le32 junk) (le32 x) rest v h e refl in
    (ap (λ (t : List ℕ). int_field (from_le32 t)) g ∙ ap int_field (from_le32-le32 x r), m, p, w)
load_field_lem {k} junk (short_field x) rest v h r e =
    let (g, m, p, w) = load_bytes_lem (le16 junk) (le16 x) rest v h e refl in
    (
      ap (λ (t : List ℕ). short_field (from_le16 t)) g ∙ ap short_field (from_le16-le16 x r),
      m,
      p,
      w,
    )
load_field_lem {k} junk (char_field x) rest v h r e =
    let (g, m, p, w) = load_bytes_lem (junk ∷ []) (x ∷ []) rest v h e refl in
    (ap (λ (t : List ℕ). char_field (get_or t 0 0)) g, m, p, w)

load_fields_lem :
    {k : P2pInstruction} (junk : ℕ) (fs : List Field) (rest : List ℕ)
    → IsValid k
    → k.pos ≤ k.len
    → AllFit fs
    → remaining k ≡ encodings fs ++ rest
    → load_fields junk k fs ≡ fs
load_fields_lem junk [] rest v h r e = refl
load_fields_lem {k} junk (f ∷ fs) rest v h r e =
    let (g, m, p, w) =
      load_field_lem junk f (encodings fs ++ rest) v h r.0
        (e ∙ append_assoc (encoding f) (encodings fs) rest) in
    ap₂ ◌∷◌ g (load_fields_lem {k = (load_field junk k f).1} junk fs rest w p r.1 m)

-- Numbers of any mix of the three sizes, of 255 bytes at most in all, that are stored in a fresh
-- message come back in their order and exactly from the message that the other side reads,
-- whatever its object held before.
pub fields_round_trip :
    {k k' : P2pInstruction} (junk : ℕ) (fs : List Field)
    → IsValid k
    → IsValid k'
    → k.pos ≡ 0
    → AllFit fs
    → length (encodings fs) ≤ 255
    → load_fields junk (read_from_message k' (write_to_message (store_fields k fs))) fs ≡ fs
fields_round_trip {k} {k'} junk fs v w z r l =
    let (p, vs) = store_fields_lem {k = k} fs v (omega arith) in
    let (t, f, m, n, zero_pos, vr) =
      read_from_message-write_to_message {k = store_fields k fs} {k' = k'} vs w in
    load_fields_lem junk fs [] vr (omega arith) r
      (m ∙ p ∙ ap (λ (n : ℕ). take n k.body ++ encodings fs) z ∙ sym (append-nil (encodings fs)))
