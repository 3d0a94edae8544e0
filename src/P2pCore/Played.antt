-- ===== src/P2pCore/Played.antt =====
-- core/p2p_core.cpp, `p2p_modify_play_values`: the frames that a run of calls gives to the game.
use kaillera_client.Prelude.{
  ℕ, zero, suc, ◌+◌, ◌-◌, ◌%◌, ◌≤◌, ◌<◌, ◌^◌, ◌≡◌, refl, ap, ◌∙◌, sym, append_assoc, List, [], ◌∷◌,
  ◌++◌, Bool, Option, some, arith, length, replicate, length-append, le→leb, lt→leb, ◌>>=◌, subst,
}
use kaillera_client.P2pMessage.{Address}
use kaillera_client.P2pCore.{P2pCore, Env, Poll, play_sent, modify_play_values}
use kaillera_client.P2pCore.Rounds.{
  Round, Given, given, run, joined, expected, mine, inputs, peers, Sized, EnvOk, Carries, Brings,
  Playing, mine-append, queue_round,
}
use kaillera_client.P2pCore.Merged.{play_head}

-- The wait of the first frames, as a number of calls.
abbrev pub delay : P2pCore → ℕ
delay c = c.throughput - c.frameno

Sized-append :
    (d : ℕ) (q : List Round) (r : Round)
    → Sized d q
    → (length r.0 ≡ d) × (length r.1 ≡ d)
    → Sized d (q ++ r ∷ [])
Sized-append d [] r s l = (l, tt)
Sized-append d (p ∷ q) r s l = (s.0, Sized-append d q r s.1 l)

next_round :
    (e : Env) (x : List ℕ) (xs : List (List ℕ)) (polls polls' : List Poll) (c c' : P2pCore)
    (o : Option (List ℕ)) {os : List (Option (List ℕ))}
    → given (modify_play_values e polls (x ++ replicate c.datalen 0) c) ≡ some (o, (c', polls'))
    → run e polls' xs c' ≡ some os
    → run e polls (x ∷ xs) c ≡ some (o ∷ os)
next_round e x xs polls polls' c c' o h k =
    ap
      (λ (n : Given). n >>= (λ (n : Option (List ℕ) × (P2pCore × List Poll)).
        run e n.1.1 xs n.1.0 >>= (λ (os : List (Option (List ℕ))). some (n.0 ∷ os))))
      h
    ∙ ap
        (λ (m : Option (List (Option (List ℕ)))).
          m >>= (λ (os : List (Option (List ℕ))). some (o ∷ os)))
        k

-- A round after the first frames: the datagram of the oldest one comes, and that one is played.
play_round :
    (e e' : Env) (d : ℕ) (peer : Address) (last : ℕ) (queued : List Round) (r p : Round)
    (left : List Round) (poll : Poll) (polls : List Poll) (c : P2pCore)
    → EnvOk e
    → EnvOk e'
    → 0 < d
    → d ≤ 32
    → Playing d peer last queued c
    → length r.0 ≡ d
    → queued ++ r ∷ [] ≡ p ∷ left
    → (length p.0 ≡ d) × (length p.1 ≡ d)
    → zero ≡ delay c
    → length (mine queued) + d ≤ 2 ^ 28
    → Carries e' peer last p.1 poll
    → (c' : P2pCore) × (given (modify_play_values e (poll ∷ polls) (r.0 ++ replicate c.datalen 0) c)
        ≡ some (some (joined c.host p), (c', polls)))
      × Playing d peer ((last + 1) % 256) left c'
      × (c'.host ≡ c.host)
      × (c'.throughput ≡ c.throughput)
      × (c'.frameno ≡ c.frameno + 1)
play_round e e' d peer last queued r p left poll polls c v v' z s j l eq lp t bm b =
    let values = r.0 ++ replicate c.datalen 0 in
    let (c', e1, j', h, th, f) = queue_round e d peer last (poll ∷ polls) queued r c j l bm in
    let due = le→leb c.throughput c.frameno (omega (arith, t)) in
    let (c'', e2, j'', h', th', f') =
      play_head e e' d peer last p left poll polls values c' v v' z s
        (subst (λ (q : List Round). Playing d peer last q c') eq j') lp b in
    (
      c'',
      e1
          ∙ ap (λ (b : Bool). given (play_sent e (poll ∷ polls) values c' b)) due
          ∙ e2
          ∙ ap (λ (b : Bool). some (some (joined b p), (c'', polls))) h,
      j'',
      h' ∙ h,
      th' ∙ th,
      f' ∙ f,
    )

pub run_lem :
    (e e' : Env) (d : ℕ) (peer : Address) (last k : ℕ) (queued rounds : List Round)
    (polls : List Poll) (c : P2pCore)
    → EnvOk e
    → EnvOk e'
    → 0 < d
    → d ≤ 32
    → Playing d peer last queued c
    → Sized d queued
    → Sized d rounds
    → k ≡ delay c
    → length (mine queued) + length (mine rounds) ≤ 2 ^ 28
    → Brings e' peer last (peers (queued ++ rounds)) polls
    → run e polls (inputs rounds) c ≡ some (expected c.host k queued rounds)
unfolding play_sent
run_lem e e' d peer last k queued [] polls c v v' z s j q w t bm b = refl
run_lem e e' d peer last (suc k) queued (r ∷ rounds) polls c v v' z s j q w t bm b =
    let sm = length-append r.0 (mine rounds) in
    let (lm, lt) = w.0 in
    let values = r.0 ++ replicate c.datalen 0 in
    let (c', e1, j', h, th, f) =
      queue_round e d peer last polls queued r c j lm (omega (arith, sm, lm, bm)) in
    let early = lt→leb c.throughput c.frameno (omega (arith, t)) in
    let rest =
      run_lem e e' d peer last k (queued ++ r ∷ []) rounds polls c' v v' z s j'
        (Sized-append d queued r q w.0) w.1 (omega (arith, t, th, f))
        (omega (arith, sm, ap length (mine-append queued r), length-append (mine queued) r.0, bm))
        (subst (λ (l : List Round). Brings e' peer last (peers l) polls)
          (sym (append_assoc queued (r ∷ []) rounds)) b) in
    next_round e r.0 (inputs rounds) polls polls c c' (some [])
      (e1 ∙ ap (λ (b : Bool). given (play_sent e polls values c' b)) early)
      (rest ∙ ap (λ (b : Bool). some (expected b k (queued ++ r ∷ []) rounds)) h)
run_lem e e' d peer last zero [] (r ∷ rounds) [] c v v' z s j q w t bm b = absurd b
run_lem e e' d peer last zero (p ∷ queued) (r ∷ rounds) [] c v v' z s j q w t bm b = absurd b
run_lem e e' d peer last zero [] (r ∷ rounds) (poll ∷ polls) c v v' z s j q w t bm b =
    let (lm, lt) = w.0 in
    let sm = length-append r.0 (mine rounds) in
    let (c'', e1, j', h, th, f) =
      play_round e e' d peer last [] r r [] poll polls c v v' z s j lm refl w.0 t
        (omega (arith, sm, lm, bm)) b.0 in
    let rest =
      run_lem e e' d peer ((last + 1) % 256) zero [] rounds polls c'' v v' z s j' tt w.1
        (omega (arith, t, th, f)) (omega (arith, sm, bm)) b.1 in
    next_round e r.0 (inputs rounds) (poll ∷ polls) polls c c'' (some (joined c.host r)) e1
      (rest ∙ ap (λ (b : Bool). some (expected b zero [] rounds)) h)
run_lem e e' d peer last zero (p ∷ queued) (r ∷ rounds) (poll ∷ polls) c v v' z s j q w t bm b =
    let (lm, lt) = w.0 in
    let (pm, pt) = q.0 in
    let sm = length-append r.0 (mine rounds) in
    let um = length-append p.0 (mine queued) in
    let (c'', e1, j', h, th, f) =
      play_round e e' d peer last (p ∷ queued) r p (queued ++ r ∷ []) poll polls c v v' z s j lm
        refl q.0 t (omega (arith, sm, lm, bm)) b.0 in
    let rest =
      run_lem e e' d peer ((last + 1) % 256) zero (queued ++ r ∷ []) rounds polls c'' v v' z s j'
        (Sized-append d queued r q.1 w.0) w.1 (omega (arith, t, th, f))
        (omega
          (arith, sm, um, ap length (mine-append queued r), length-append (mine queued) r.0, bm))
        (subst (λ (l : List Round). Brings e' peer ((last + 1) % 256) (peers l) polls)
          (sym (append_assoc queued (r ∷ []) rounds)) b.1) in
    next_round e r.0 (inputs rounds) (poll ∷ polls) polls c c'' (some (joined c.host p)) e1
      (rest ∙ ap (λ (b : Bool). some (expected b zero (queued ++ r ∷ []) rounds)) h)
