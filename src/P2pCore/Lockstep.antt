-- ===== src/P2pCore/Lockstep.antt =====
-- core/p2p_core.cpp: both sides of a peer-to-peer game.
use kaillera_client.Prelude.{
  ℕ, zero, suc, ◌-◌, ◌≤◌, ◌<◌, ◌^◌, subst, ◌≡◌, refl, ap, ap₂, ◌∙◌, sym, min, List, [], ◌∷◌, ◌++◌,
  Bool, true, false, Option, some, arith, length, take, replicate, map, append_assoc,
}
use kaillera_client.P2pMessage.{Address}
use kaillera_client.P2pCore.{P2pCore, Env, Poll}
use kaillera_client.P2pCore.Rounds.{
  Round, run, joined, expected, mine, theirs, inputs, peers, Sized, EnvOk, Brings, Playing,
}
use kaillera_client.P2pCore.Played.{delay, run_lem}

-- The same rounds, as the other side sees them.
abbrev pub swap : Round → Round
swap r = (r.1, r.0)

-- So many calls with no input, and the frames from then on.
abbrev pub delayed : ℕ → List (List ℕ) → List (Option (List ℕ))
delayed k frames =
    replicate (min k (length frames)) (some []) ++ map some (take (length frames - k) frames)

expected_closed :
    (host : Bool) (k : ℕ) (queued rounds : List Round)
    → expected host k queued rounds
      ≡ replicate (min k (length rounds)) (some [])
        ++ map (λ r. some (joined host r)) (take (length rounds - k) (queued ++ rounds))
expected_closed host k queued [] =
    let z : min k 0 ≡ 0 = omega arith in let y : 0 - k ≡ 0 = omega arith in rw (z, y) refl
expected_closed host (suc k) queued (r ∷ rounds) =
    let z : min (suc k) (suc (length rounds)) ≡ suc (min k (length rounds)) = omega arith in
    let y : suc (length rounds) - suc k ≡ length rounds - k = omega arith in
    rw (z, y)
      (ap (λ (t : List (Option (List ℕ))). some [] ∷ t)
        (expected_closed host k (queued ++ r ∷ []) rounds
          ∙ ap
              (λ (q : List Round).
                replicate (min k (length rounds)) (some [])
                ++ map (λ r. some (joined host r)) (take (length rounds - k) q))
              (append_assoc queued (r ∷ []) rounds)))
expected_closed host zero [] (r ∷ rounds) =
    let z : min 0 (suc (length rounds)) ≡ 0 = omega arith in
    let y : suc (length rounds) - 0 ≡ suc (length rounds) = omega arith in
    rw (z, y)
      (ap (λ (t : List (Option (List ℕ))). some (joined host r) ∷ t)
        (expected_closed host zero [] rounds ∙ plain (length rounds) rounds))
  where
    plain :
        (n : ℕ) (rounds : List Round)
        → replicate (min 0 n) (some []) ++ map (λ r. some (joined host r)) (take (n - 0) rounds)
          ≡ map (λ r. some (joined host r)) (take n rounds)
    plain n rounds =
        let z : min 0 n ≡ 0 = omega arith in let y : n - 0 ≡ n = omega arith in rw (z, y) refl
expected_closed host zero (q ∷ queued) (r ∷ rounds) =
    let z : min 0 (suc (length rounds)) ≡ 0 = omega arith in
    let y : suc (length rounds) - 0 ≡ suc (length rounds) = omega arith in
    let rest = expected_closed host zero (queued ++ r ∷ []) rounds in
    let z' : min 0 (length rounds) ≡ 0 = omega arith in
    let y' : length rounds - 0 ≡ length rounds = omega arith in
    rw (z, y)
      (ap (λ (t : List (Option (List ℕ))). some (joined host q) ∷ t)
        (rest
          ∙ ap₂
              (λ (m n : ℕ).
                replicate m (some [])
                ++ map (λ r. some (joined host r)) (take n ((queued ++ r ∷ []) ++ rounds)))
              z' y'
          ∙ ap (λ (l : List Round). map (λ r. some (joined host r)) (take (length rounds) l))
              (append_assoc queued (r ∷ []) rounds)))

mine-swap : (rounds : List Round) → mine (map swap rounds) ≡ theirs rounds
mine-swap [] = refl
mine-swap (r ∷ rounds) = ap (λ (t : List ℕ). r.1 ++ t) (mine-swap rounds)

Sized-swap : (d : ℕ) (rounds : List Round) → Sized d rounds → Sized d (map swap rounds)
Sized-swap d [] w = tt
Sized-swap d (r ∷ rounds) w = ((w.0.1, w.0.0), Sized-swap d rounds w.1)

length-map : (g : Round → Round) (rounds : List Round) → length (map g rounds) ≡ length rounds
length-map g [] = refl
length-map g (r ∷ rounds) = ap suc (length-map g rounds)

-- The input of the host, and then that of its peer.
abbrev pub both_inputs : Round → List ℕ
both_inputs r = r.0 ++ r.1

host_frames :
    (n : ℕ) (rounds : List Round)
    → map (λ r. some (joined true r)) (take n rounds) ≡ map some (take n (map both_inputs rounds))
host_frames zero rounds = refl
host_frames (suc n) [] = refl
host_frames (suc n) (r ∷ rounds) =
    ap (λ (t : List (Option (List ℕ))). some (both_inputs r) ∷ t) (host_frames n rounds)

peer_frames :
    (n : ℕ) (rounds : List Round)
    → map (λ r. some (joined false r)) (take n (map swap rounds))
      ≡ map some (take n (map both_inputs rounds))
peer_frames zero rounds = refl
peer_frames (suc n) [] = refl
peer_frames (suc n) (r ∷ rounds) =
    ap (λ (t : List (Option (List ℕ))). some (both_inputs r) ∷ t) (peer_frames n rounds)

length-both_inputs : (rounds : List Round) → length (map both_inputs rounds) ≡ length rounds
length-both_inputs [] = refl
length-both_inputs (r ∷ rounds) = ap suc (length-both_inputs rounds)

inputs-swap : (rounds : List Round) → inputs (map swap rounds) ≡ peers rounds
inputs-swap [] = refl
inputs-swap (r ∷ rounds) = ap (λ (l : List (List ℕ)). r.1 ∷ l) (inputs-swap rounds)

peers-swap : (rounds : List Round) → peers (map swap rounds) ≡ inputs rounds
peers-swap [] = refl
peers-swap (r ∷ rounds) = ap (λ (l : List (List ℕ)). r.0 ∷ l) (peers-swap rounds)

-- Two sides that start a game of frames of 1 to 32 bytes, and of 2 ^ 28 bytes at most in all, with
-- empty queues, with all earlier messages read, with local variables of their sizes, and with the
-- same delay, one as the host and one not. Each finds, whenever it looks at the socket, the
-- datagram with the other's next frame, in front of nothing or of the message before it (and
-- whatever follows that). Then both games get no input for the first calls, as many as the delay
-- says, and from then on the same frames, the input of the host and then that of its peer, in the
-- order of the frames.
pub lockstep :
    (e e' : Env) (d : ℕ) (rounds : List Round) (a b : P2pCore) (of_a of_b : Address) (la lb : ℕ)
    (polls polls' : List Poll)
    → EnvOk e
    → EnvOk e'
    → 0 < d
    → d ≤ 32
    → Playing d of_b la [] a
    → Playing d of_a lb [] b
    → a.host ≡ true
    → b.host ≡ false
    → delay a ≡ delay b
    → Sized d rounds
    → length (mine rounds) ≤ 2 ^ 28
    → length (theirs rounds) ≤ 2 ^ 28
    → Brings e' of_b la (peers rounds) polls
    → Brings e of_a lb (inputs rounds) polls'
    → (run e polls (inputs rounds) a ≡ some (delayed (delay a) (map both_inputs rounds)))
      × (run e' polls' (peers rounds) b ≡ some (delayed (delay a) (map both_inputs rounds)))
lockstep e e' d rounds a b of_a of_b la lb polls polls' v v' z s ja jb ha hb t w bm bt pa pb =
    let n = length-both_inputs rounds in
    (
      run_lem e e' d of_b la (delay a) [] rounds polls a v v' z s ja tt w refl (omega (arith, bm))
            pa
          ∙ ap (λ (h : Bool). some (expected h (delay a) [] rounds)) ha
          ∙ ap some (
              expected_closed true (delay a) [] rounds
              ∙ ap
                  (λ (t : List (Option (List ℕ))).
                    replicate (min (delay a) (length rounds)) (some []) ++ t)
                  (host_frames (length rounds - delay a) rounds)
              ∙ ap
                  (λ (m : ℕ).
                    replicate (min (delay a) m) (some [])
                    ++ map some (take (m - delay a) (map both_inputs rounds)))
                  (sym n)),
      ap (λ (l : List (List ℕ)). run e' polls' l b) (sym (inputs-swap rounds))
          ∙ run_lem e' e d of_a lb (delay a) [] (map swap rounds) polls' b v' v z s jb tt
              (Sized-swap d rounds w) t (omega (arith, ap length (mine-swap rounds), bt))
              (subst (λ (l : List (List ℕ)). Brings e of_a lb l polls') (sym (peers-swap rounds))
                pb)
          ∙ ap (λ (h : Bool). some (expected h (delay a) [] (map swap rounds))) hb
          ∙ ap some (
              expected_closed false (delay a) [] (map swap rounds)
              ∙ ap
                  (λ (m : ℕ).
                    replicate (min (delay a) m) (some [])
                    ++ map (λ r. some (joined false r)) (take (m - delay a) (map swap rounds)))
                  (length-map swap rounds)
              ∙ ap
                  (λ (t : List (Option (List ℕ))).
                    replicate (min (delay a) (length rounds)) (some []) ++ t)
                  (peer_frames (length rounds - delay a) rounds)
              ∙ ap
                  (λ (m : ℕ).
                    replicate (min (delay a) m) (some [])
                    ++ map some (take (m - delay a) (map both_inputs rounds)))
                  (sym n)),
    )
