-- ===== src/KrecReader/Open.antt =====
-- common/krec_reader.h, `open_from_memory`: what is opened is open, at its first record.
use kaillera_client.Prelude.{
  ℕ, ◌≡◌, ◌≢◌, ◌≤◌, ◌<◌, ◌⊎◌, refl, ap, ◌∙◌, List, [], Bool, true, false, arith, length, take, ltb,
  Bool-cases, inl, inr, ltb→le, ltb→lt, codes, bytes_eq, bytes_eq→eq,
}
use kaillera_client.KrecReader.{
  KrecReader, close, load_str, load_int, header_size, open_from_memory,
}
use kaillera_client.KrecReader.Progress.{IsOpen, load_str-Moved, load_int-Moved}

-- The case in which the content is opened.
pub open_from_memory-IsOpen :
    (r : KrecReader) (content : List ℕ)
    → (open_from_memory r content).0 ≡ true
    → IsOpen (open_from_memory r content).1
      × ((open_from_memory r content).1.buffer ≡ content)
      × ((open_from_memory r content).1.frames_consumed ≡ 0)
      × ((open_from_memory r content).1.ptr
          ≡ header_size (bytes_eq (take 4 content) (codes "KRC1")))
unfolding open_from_memory close
open_from_memory-IsOpen r content h = elim (Bool-cases (ltb (length content) 272)) [
  | inl short ↦ absurd (ground arith)
  | inr long ↦
      let krc1 = bytes_eq (take 4 content) (codes "KRC1") in
      elim (Bool-cases (ltb (length content) (header_size krc1))) [
        | inl short ↦ absurd (ground arith)
        | inr whole ↦
            let enough = ltb→le (length content) (header_size krc1) whole in
            let size = ltb→le (length content) 272 long in
            let at_app = record (close r) { is_krc1 = krc1; buffer = content; ptr = 4 } in
            let app = load_str at_app at_app.app_name in
            let a = load_str-Moved at_app at_app.app_name (omega arith) in
            let at_game = record app.2 { app_name = app.0; ptr = 132 } in
            let game = load_str at_game at_game.game_name in
            let g = load_str-Moved at_game at_game.game_name (omega (arith, ap length a.buffer)) in
            let at_numbers = record game.2 { game_name = game.0; ptr = 264 } in
            let gb = g.buffer ∙ a.buffer in
            let p = load_int-Moved at_numbers (omega (arith, ap length gb)) in
            let q =
              load_int-Moved (load_int at_numbers).1
                (omega (arith, p.inside, ap length p.buffer)) in
            let same_buffer = q.buffer ∙ (p.buffer ∙ gb) in
            let same_krc1 = q.krc1 ∙ (p.krc1 ∙ (g.krc1 ∙ a.krc1)) in
            rw (long, open_from_memory)
              (rw (whole, open_from_memory)
                (
                  record {
                    header = rw (same_krc1, same_buffer) enough;
                    inside = omega (arith, enough, ap length same_buffer);
                  },
                  same_buffer,
                  omega (arith, a.frames, g.frames, p.frames, q.frames),
                  refl,
                ))
      ]
]

-- The header of a recording: one that starts with KRC1 has 400 bytes, any other has 272.
abbrev pub HasHeader : List ℕ → ℕ → Type 0
HasHeader content size =
    ((take 4 content ≡ codes "KRC1") × (size ≡ 400))
    ⊎ ((take 4 content ≢ codes "KRC1") × (size ≡ 272))

-- Whether the reader is open on the whole content, behind a header of that size, with no frame
-- counted.
pub record OpenAt (content : List ℕ) (size : ℕ) (r : KrecReader) : Type 0 where
  pub is_open : IsOpen r
  pub buffer : r.buffer ≡ content
  pub ptr : r.ptr ≡ size
  pub frames : r.frames_consumed ≡ 0

krc1_size :
    (content : List ℕ) (size : ℕ)
    → HasHeader content size
    → header_size (bytes_eq (take 4 content) (codes "KRC1")) ≡ size
krc1_size content size (inl (e, n)) = rw (e, n) refl
krc1_size content size (inr (e, n)) = elim (Bool-cases (bytes_eq (take 4 content) (codes "KRC1"))) [
  | inl krc1 ↦ absurd (e (bytes_eq→eq (take 4 content) (codes "KRC1") krc1))
  | inr other ↦ rw (other, n) refl
]

header_size-cases : (b : Bool) → 272 ≤ header_size b
header_size-cases true = omega arith
header_size-cases false = omega arith

-- Whatever stood in the reader, and whatever the content, with a header of `size` bytes by its first
-- four: either it has that many bytes, and is opened at the first record; or it is shorter, and is
-- refused, and the reader holds nothing.
pub open_from_memory-HasHeader :
    (r : KrecReader) (content : List ℕ) (size : ℕ)
    → HasHeader content size
    → ((size ≤ length content)
        × ((open_from_memory r content).0 ≡ true)
        × OpenAt content size (open_from_memory r content).1)
      ⊎ ((length content < size)
          × ((open_from_memory r content).0 ≡ false)
          × ((open_from_memory r content).1.buffer ≡ []))
unfolding open_from_memory close
open_from_memory-HasHeader r content size k =
    let krc1 = bytes_eq (take 4 content) (codes "KRC1") in
    let is_size : header_size krc1 ≡ size = krc1_size content size k in
    elim (Bool-cases (ltb (length content) 272)) [
      | inl short ↦
          rw (short, open_from_memory)
            (inr (
              omega (arith, is_size, header_size-cases krc1, ltb→lt (length content) 272 short),
              refl,
              refl,
            ))
      | inr long ↦ elim (Bool-cases (ltb (length content) (header_size krc1))) [
        | inl short ↦
            let less = ltb→lt (length content) (header_size krc1) short in
            rw (long, open_from_memory) (rw short (inr (omega (arith, is_size, less), refl, refl)))
        | inr whole ↦
            let opened : (open_from_memory r content).0 ≡ true =
              rw (long, open_from_memory) (rw whole refl) in
            let (is_open, buffer, frames, ptr) = open_from_memory-IsOpen r content opened in
            inl (
              omega (arith, is_size, ltb→le (length content) (header_size krc1) whole),
              opened,
              record { is_open = is_open; buffer = buffer; ptr = ptr ∙ is_size; frames = frames },
            )
      ]
    ]
