-- ===== src/P2pCore/Merged.antt =====
-- core/p2p_core.cpp, the end of `p2p_modify_play_values`: chat that is due, and the merged frame.
use kaillera_client.Prelude.{
  ℕ, ◌+◌, ◌*◌, ◌%◌, ◌<◌, ◌≤◌, ◌≡◌, append-nil, refl, ap, ap₂, ◌∙◌, sym, List, [], ◌∷◌, ◌++◌, Bool,
  true, false, some, arith, length, take, drop, length-append, take-append, drop-append,
  take-append_add, le→leb, ltb, leb, if◌then◌else◌, Bool-cases, Option-cases, inl, inr, ◌&&◌, subst,
}
use kaillera_client.Containers.Oslist
use kaillera_client.FrameCache
use kaillera_client.FrameCache.{FrameCache}
use kaillera_client.FrameCache.Queue
use kaillera_client.FrameCache.Queue.{put_data_lem, get_data_lem}
use kaillera_client.P2pCore.{P2pCore, Env, Poll, overlay, show_chat, merge_frame, play_sent}
use kaillera_client.P2pCore.Rounds.{Round, given, joined, mine, EnvOk, Carries, Playing}
use kaillera_client.P2pCore.Await.{await_lem}
use kaillera_client.P2pMessage.{P2pMessage, Address}
use kaillera_client.P2pMessage.Heard.{Ready}

-- What showing a line of chat leaves alone.
abbrev Part : Type 0
Part = Bool × (ℕ × (ℕ × (ℕ × (ℕ × (FrameCache × (FrameCache × P2pMessage))))))

abbrev part : P2pCore → Part
part c = (
  c.host,
  (c.status, (c.throughput, (c.frameno, (c.datalen, (c.userdata, (c.peerdata, c.connection)))))),
)

show_chat-part : (c : P2pCore) → part (show_chat c) ≡ part c
unfolding show_chat
show_chat-part c =
    elim (Bool-cases (ltb c.crframeno c.frameno && ltb 0 (Oslist.size c.chat_cache))) [
      | inr quiet ↦ rw (show_chat, quiet) refl
      | inl due ↦ elim (Option-cases (Oslist.get c.chat_cache 0)) [
        | inl e ↦ rw (show_chat, due, e) refl
        | inr (line, e) ↦ rw (show_chat, due, e) refl
      ]
    ]

merge_lem :
    (values : List ℕ) (c : P2pCore) (polls : List Poll) (h : Round) (us ps : List ℕ)
    → c.userdata.buffer ≡ h.0 ++ us
    → c.peerdata.buffer ≡ h.1 ++ ps
    → length h.0 ≡ c.datalen
    → length h.1 ≡ c.datalen
    → (v : List ℕ) × (merge_frame values c polls ≡ record {
      length = some (c.datalen * 2);
      values = v;
      core = record c {
        userdata = record (c.userdata) { buffer = us };
        peerdata = record (c.peerdata) { buffer = ps };
      };
      polls = polls;
    })
      × (take (c.datalen * 2) v ≡ joined c.host h)
unfolding merge_frame
merge_lem values c polls h us ps eu ep lu lp =
    let gu : FrameCache.get_data c.userdata c.datalen ≡ (h.0, record (c.userdata) { buffer = us }) =
      taken c.userdata h.0 us c.datalen eu lu in
    let gp : FrameCache.get_data c.peerdata c.datalen ≡ (h.1, record (c.peerdata) { buffer = ps }) =
      taken c.peerdata h.1 ps c.datalen ep lp in
    let first = (if c.host then h.0 else h.1) in
    let second = (if c.host then h.1 else h.0) in
    let there : leb c.datalen (length c.peerdata.buffer) ≡ true =
      le→leb c.datalen (length c.peerdata.buffer)
        (omega (arith, ap length ep, length-append h.1 ps, lp)) in
    (overlay c.datalen second (overlay 0 first values), rw (gu, gp, there) refl, both c.host)
  where
    taken :
        (k : FrameCache) (x xs : List ℕ) (n : ℕ)
        → k.buffer ≡ x ++ xs
        → length x ≡ n
        → FrameCache.get_data k n ≡ (x, record k { buffer = xs })
    taken k x xs n e l =
        get_data_lem k n
        ∙ ap₂ (λ (a b : List ℕ). (a, record k { buffer = b }))
            (ap (take n) e ∙ ap (λ (m : ℕ). take m (x ++ xs)) (sym l) ∙ take-append x xs)
            (ap (drop n) e ∙ ap (λ (m : ℕ). drop m (x ++ xs)) (sym l) ∙ drop-append x xs)

    over :
        (n : ℕ) (a b : List ℕ)
        → length a ≡ n
        → length b ≡ n
        → take (n * 2) (overlay n b (overlay 0 a values)) ≡ a ++ b
    over n a b la lb =
        let rest = drop (0 + length a) values in
        let t : take n (a ++ rest) ≡ a =
          ap (λ (m : ℕ). take m (a ++ rest)) (sym la) ∙ take-append a rest in
        let double : n * 2 ≡ n + n = omega arith in
        let tail = drop (n + length b) (a ++ rest) in
        ap (λ (x : List ℕ). take (n * 2) (x ++ (b ++ tail))) t
        ∙ ap (λ (m : ℕ). take m (a ++ (b ++ tail))) double
        ∙ take-append_add n n a (b ++ tail) la
        ∙ ap (λ (x : List ℕ). a ++ x)
            (ap (λ (m : ℕ). take m (b ++ tail)) (sym lb) ∙ take-append b tail)

    both :
        (host : Bool)
        → take (c.datalen * 2) (
            overlay c.datalen
              (if host then h.1 else h.0)
              (overlay 0 (if host then h.0 else h.1) values))
          ≡ joined host h
    both true = over c.datalen h.0 h.1 lu lp
    both false = over c.datalen h.1 h.0 lp lu

shorter :
    {k : FrameCache} (x xs : List ℕ)
    → k.buffer ≡ x ++ xs
    → Queue.IsValid k
    → Queue.IsValid (record k { buffer = xs })
shorter x xs e v = record {
  inside = omega (arith, v.inside, ap length e, length-append x xs);
  null = λ f. omega (arith, v.null f, ap length e, length-append x xs);
}

-- The oldest round is played once the peer's input of it has come.
pub play_head :
    (e e' : Env) (d : ℕ) (peer : Address) (last : ℕ) (h : Round) (queued : List Round) (poll : Poll)
    (polls : List Poll) (values : List ℕ) (c : P2pCore)
    → EnvOk e
    → EnvOk e'
    → 0 < d
    → d ≤ 32
    → Playing d peer last (h ∷ queued) c
    → (length h.0 ≡ d) × (length h.1 ≡ d)
    → Carries e' peer last h.1 poll
    → (c' : P2pCore) × (given (play_sent e (poll ∷ polls) values c true)
        ≡ some (some (joined c.host h), (c', polls)))
      × Playing d peer ((last + 1) % 256) queued c'
      × (c'.host ≡ c.host)
      × (c'.throughput ≡ c.throughput)
      × (c'.frameno ≡ c.frameno)
unfolding play_sent
play_head e e' d peer last h queued poll polls values c v v' z l j (lu, lp) b =
    let (m, p, heard, held, valid, ready) =
      await_lem e e' poll polls e.now 0 last peer c h.1 v v' b j.ready j.status
        (omega (arith, j.datalen, z)) (omega (arith, j.datalen, l)) (lp ∙ sym j.datalen)
        j.peer_valid j.peer_empty in
    let c1 : P2pCore = record c { connection = m; peerdata = p } in
    let s = show_chat c1 in
    let q = show_chat-part c1 in
    let size : s.datalen ≡ d = ap (λ (t : Part). t.1.1.1.1.0) q ∙ j.datalen in
    let user : s.userdata.buffer ≡ h.0 ++ mine queued =
      ap (λ (t : Part). FrameCache.buffer t.1.1.1.1.1.0) q ∙ j.user in
    let theirs : s.peerdata.buffer ≡ h.1 ++ [] =
      ap (λ (t : Part). FrameCache.buffer t.1.1.1.1.1.1.0) q ∙ held ∙ sym (append-nil h.1) in
    let user_ok = subst (λ (t : Part). Queue.IsValid t.1.1.1.1.1.0) (sym q) j.user_valid in
    let peer_ok = subst (λ (t : Part). Queue.IsValid t.1.1.1.1.1.1.0) (sym q) valid in
    let (w, merged, out) =
      merge_lem values s polls h (mine queued) [] user theirs (lu ∙ sym size) (lp ∙ sym size) in
    let host : s.host ≡ c.host = ap (λ (t : Part). t.0) q in
    (
      record s {
        userdata = record (s.userdata) { buffer = mine queued };
        peerdata = record (s.peerdata) { buffer = [] };
      },
      rw (play_sent, heard, merged, out, host) refl,
      record {
        status = subst (λ (t : Part). 1 < t.1.0) (sym q) j.status;
        datalen = size;
        user = refl;
        user_valid = shorter h.0 (mine queued) user user_ok;
        peer_empty = refl;
        peer_valid = shorter h.1 [] theirs peer_ok;
        ready = subst (λ (t : Part). Ready peer ((last + 1) % 256) t.1.1.1.1.1.1.1) (sym q) ready;
      },
      host,
      ap (λ (t : Part). t.1.1.0) q,
      ap (λ (t : Part). t.1.1.1.0) q,
    )
