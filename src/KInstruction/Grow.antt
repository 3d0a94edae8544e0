-- ===== src/KInstruction/Grow.antt =====
-- kcore/k_instruction.h, `ensure_sized` and `store_bytes`: the doubling loop ends, and the payload
-- always fits its allocation.
use native.Mathlib.Nat.{pow-suc}
use kaillera_client.Prelude.{
  ℕ, zero, suc, ◌+◌, ◌*◌, ◌%◌, ◌^◌, ◌≤◌, ◌<◌, ◌≡◌, refl, ap, ◌∙◌, List, ◌++◌, some, arith, length,
  ltb, length-append, Bool-cases, NoNul, inl, inr, ltb→lt, ltb→le, true,
}
use kaillera_client.KInstruction.{KInstruction, buffer_pos, grow, ensure_sized, store_bytes}

-- The payload fits the allocation, which is never empty, and the user name fits `user[32]`.
pub record IsValid (k : KInstruction) : Type 0 where
  pub allocated : 0 < k.buffer_len
  pub small : k.buffer_len < 2 ^ 32
  pub fits : length k.buffer ≤ k.buffer_len
  pub user_fits : length k.user ≤ 31
  pub user_plain : NoNul k.user

grow-more :
    (f len want : ℕ) → ltb len want ≡ true → grow (suc f) len want ≡ grow f (len * 2 % 2 ^ 32) want
unfolding grow
grow-more f len want more = rw (more, grow)

grow_lem :
    (f len want : ℕ)
    → 0 < len
    → len < 2 ^ 32
    → want ≤ 2 ^ 31
    → want ≤ len * 2 ^ f
    → (n : ℕ) × (grow (suc f) len want ≡ some n) × (want ≤ n) × (len ≤ n) × (n < 2 ^ 32)
unfolding grow
grow_lem zero len want h k w b = (len, ground arith, omega arith, omega arith, k)
grow_lem (suc f) len want h k w b = elim (Bool-cases (ltb len want)) [
  | inr done ↦ (len, rw (done, grow), ltb→le _ _ done, omega arith, k)
  | inl more ↦
      let lt = ltb→lt len want more in
      let e : len * 2 % 2 ^ 32 ≡ len * 2 = omega arith in
      let b' : want ≤ len * 2 * 2 ^ f = omega (arith, ap (λ (t : ℕ). len * t) (pow-suc 2 f)) in
      let (n, g, wn, ln, nl) = grow_lem f (len * 2) want (omega arith) (omega arith) w b' in
      (
        n,
        grow-more (suc f) len want more ∙ ap (λ m. grow (suc f) m want) e ∙ g,
        wn,
        omega arith,
        nl,
      )
]

-- Asked for at most 2 GB, the doubling loop ends, and gives an allocation that is large enough
-- and no smaller than before.
pub ensure_sized_lem :
    {k : KInstruction} (want : ℕ)
    → 0 < k.buffer_len
    → k.buffer_len < 2 ^ 32
    → want ≤ 2 ^ 31
    → (n : ℕ) × (ensure_sized k want ≡ some (record k { buffer_len = n }))
      × (want ≤ n)
      × (k.buffer_len ≤ n)
      × (n < 2 ^ 32)
unfolding ensure_sized
ensure_sized_lem {k} want h l w =
    let (n, g, wn, ln, nl) = grow_lem 32 k.buffer_len want h l w (omega arith) in
    (n, rw (g, ensure_sized), wn, ln, nl)

-- On a valid message whose payload stays below 2 GB, storing succeeds: it appends the bytes to
-- the payload, leaves the type and the user name alone, and keeps the message valid.
pub store_bytes_lem :
    {k : KInstruction} (bytes : List ℕ)
    → IsValid k
    → buffer_pos k + length bytes ≤ 2 ^ 31
    → (k' : KInstruction) × (store_bytes k bytes ≡ some k')
      × (k'.buffer ≡ k.buffer ++ bytes)
      × (k'.type ≡ k.type)
      × (k'.user ≡ k.user)
      × IsValid k'
unfolding store_bytes
store_bytes_lem {k} bytes v h =
    let want = buffer_pos k + length bytes in
    let e : want % 2 ^ 32 ≡ want = omega arith in
    let (n, g, wn, ln, nl) = ensure_sized_lem {k = k} want v.allocated v.small h in
    (
      record k { buffer = k.buffer ++ bytes; buffer_len = n },
      rw (e, g, store_bytes),
      refl,
      refl,
      refl,
      record {
        allocated = omega (arith, v.allocated);
        small = nl;
        fits = omega (arith, length-append k.buffer bytes);
        user_fits = v.user_fits;
        user_plain = v.user_plain;
      },
    )
