-- ===== src/KailleraCore/Handled.antt =====
-- kcore/kaillera_core.cpp, `kaillera_ProcessGeneralInstruction`: the messages that it sends, and the
-- whole `switch`.
use kaillera_client.Prelude.{
  ℕ, ◌≤◌, ◌≡◌, refl, ap, ◌∙◌, sym, List, Bool, true, false, Option, none, some, arith,
  if◌then◌else◌, inl, inr, ◌⊎◌, subst, ◌>>=◌, [],
}
use kaillera_client.KInstruction.{
  KInstruction, InstructionType, invdnone, userleav, userjoin, userlogn, longsucc, servping,
  userpong, partchat, gamechat, tmoutrst, gamemake, gamrleav, gamrjoin, gamrslst, gamestat,
  gamrkick, gameshut, gamebegn, gamedata, gamcdata, gamrdrop, gamrsrdy, lognstat, motdline,
  retrycon, store_int, store_short, store_char, store_bytes, ensure_sized, grow,
}
use kaillera_client.KMessage.{KMessage, send, send_message, send_instruction}
use kaillera_client.RetryConnect
use kaillera_client.RetryConnect.Select.{select_lem}
use kaillera_client.KrecReader
use kaillera_client.KailleraCore.{
  Core, call, transmit, logged_in, pong, send_pong, send_nak, retry_connect_send, retrycon_message,
  error, reset_live_frameno, retrycon_nak,
}
use kaillera_client.KailleraCore.General.{
  Env, after_select, select_callback, control_callback, nak_callback, on_retrycon, on_subtype,
  handle, type_of, process_general_instruction,
}
use kaillera_client.KailleraCore.Status.{
  Kept, SameInput, SameInput-refl, Kept-refl, call-Kept, if-Kept, on_userjoin-Kept,
  on_userleav-Kept, on_gamemake-Kept, on_gamestat-Kept, on_gameshut-Kept, on_gamebegn-Kept,
  on_gamrslst-Kept, on_gamrjoin-Kept, on_gamrleav-Kept, on_gamrdrop-Kept, on_lognstat-Kept,
  on_longsucc-Kept,
}

-- Sending leaves what has come in alone.
transmit-Kept :
    {c x : Core} (k : KInstruction) (o : Option KMessage)
    → (o ≡ x.connection) ⊎ (o ≡ none)
    → Kept c x
    → (y : Core) × (transmit x o (some k) ≡ some y) × Kept c y
unfolding transmit send_instruction send send_message
transmit-Kept {c} {x} k none h kept = (x, refl, kept)
transmit-Kept {c} {x} k (some m) (inr h) kept = absurd cc
transmit-Kept {c} {x} k (some m) (inl h) kept = (
  record x { connection = some (send_instruction m k) },
  refl,
  record {
    same = kept.same;
    connection = sent c.connection (subst (SameInput c.connection) (sym h) kept.connection);
    userstat = kept.userstat;
  },
)
  where
    sent : (o : Option KMessage) → SameInput o (some m) → SameInput o (some (send_instruction m k))
    sent none s = s
    sent (some m0) s = s

pong_built : (k : KInstruction) × (pong ≡ some k)
unfolding pong store_int store_bytes ensure_sized grow
pong_built = (_, refl)

nak_built : (k : KInstruction) × (retrycon_message retrycon_nak [] ≡ some k)
unfolding retrycon_message store_char store_short store_bytes ensure_sized grow
nak_built = (_, refl)

-- What is sent is built, so that the handler goes on.
abbrev pub Handled : Core → Option Core → Type 0
Handled c o = (c' : Core) × (o ≡ some c') × Kept c c'

logged_in-cases : (x : Core) → (logged_in x ≡ x.connection) ⊎ (logged_in x ≡ none)
unfolding logged_in
logged_in-cases x = ground arith

send_pong-Kept : {c x : Core} → Kept c x → Handled c (send_pong x)
unfolding send_pong
send_pong-Kept {c} {x} kept =
    let (k, e) = pong_built in
    let (y, t, kept') = transmit-Kept k x.connection (inl refl) kept in
    (y, ap (transmit x x.connection) e ∙ t, kept')

send_nak-Kept : {c x : Core} → Kept c x → Handled c (send_nak x)
unfolding send_nak retry_connect_send
send_nak-Kept {c} {x} kept =
    let (k, e) = nak_built in
    let (y, t, kept') = transmit-Kept k (logged_in x) (logged_in-cases x) kept in
    (y, ap (transmit x (logged_in x)) e ∙ t, kept')

retry-Kept : {c x : Core} (t : RetryConnect.Retry) → Kept c x → Kept c (record x { retry = t })
retry-Kept t k = record { same = k.same; connection = k.connection; userstat = k.userstat }

error-Kept : {c x : Core} → Kept c x → Kept c (call x error)
error-Kept k = record { same = k.same; connection = k.connection; userstat = k.userstat }

after_select-Kept :
    {c x : Core} (taken opened : Bool) → Kept c x → Handled c (after_select x taken opened)
unfolding after_select
after_select-Kept {x} true opened k = (x, refl, k)
after_select-Kept false true k = send_nak-Kept k
after_select-Kept false false k = send_nak-Kept (error-Kept k)

select_callback-Kept :
    (e : Env) (c : Core) (session : List ℕ)
    → c.userstat ≤ 3
    → Handled c (select_callback e c session)
unfolding select_callback
select_callback-Kept e c session h = go (e.download session)
  where
    go :
        (o : Option (Option (List ℕ)))
        → Handled c (elim o [
          | none ↦ send_nak (call c error)
          | some content ↦
              RetryConnect.select c.retry session content e.valid_game
              >>= (λ (taken : Bool × RetryConnect.Retry).
                  after_select
                    (record c { retry = taken.1 })
                    taken.0
                    (KrecReader.open_file c.retry.reader content).0)
        ])
    go none = send_nak-Kept (error-Kept (Kept-refl c h))
    go (some content) =
        let ((taken, t), s) = select_lem c.retry session content e.valid_game in
        let opened = (KrecReader.open_file c.retry.reader content).0 in
        let (c', a, k) = after_select-Kept taken opened (retry-Kept t (Kept-refl c h)) in
        (c', rw s a, k)

control_callback-Kept :
    (c : Core) (action frame_index : ℕ)
    → c.userstat ≤ 3
    → Kept c (control_callback c action frame_index)
unfolding control_callback reset_live_frameno
control_callback-Kept c action frame_index h =
    let t = RetryConnect.control c.retry action frame_index in
    if-Kept t.0 _ _ (record { same = refl; connection = SameInput-refl c.connection; userstat = h })
      (retry-Kept t.1 (Kept-refl c h))

if-Handled :
    {c : Core} (b : Bool) (x y : Option Core)
    → Handled c x
    → Handled c y
    → Handled c (if b then x else y)
if-Handled true x y p q = p
if-Handled false x y p q = q

on_retrycon-Kept :
    (e : Env) (c : Core) (k : KInstruction) → c.userstat ≤ 3 → Handled c (on_retrycon e c k)
unfolding on_retrycon on_subtype nak_callback
on_retrycon-Kept e c k h = if-Handled _ _ _ (select_callback-Kept e c _ h) (
    if-Handled _ _ _ (_, refl, control_callback-Kept c _ _ h)
      (if-Handled _ _ _ (_, refl, retry-Kept _ (error-Kept (Kept-refl c h)))
        (c, refl, Kept-refl c h)))

-- Whatever the server sends, the handler ends: it leaves who the user is, the connection setting
-- and the queued frames as they were, keeps what has come in on the connection, and `USERSTAT`
-- stays one of its four values.
pub process_general_instruction_lem :
    (e : Env) (c : Core) (k : KInstruction)
    → c.userstat ≤ 3
    → (c' : Core) × (process_general_instruction e c k ≡ some c') × Kept c c'
unfolding process_general_instruction handle
process_general_instruction_lem e c k h = go (type_of k.type)
  where
    kept : Kept c c
    kept = Kept-refl c h

    go : (t : Option InstructionType) → Handled c (handle e t c k)
    go none = (c, refl, kept)
    go (some userjoin) = (_, refl, on_userjoin-Kept e c k h)
    go (some userleav) = (_, refl, on_userleav-Kept e c k h)
    go (some gamemake) = (_, refl, on_gamemake-Kept e c k h)
    go (some gamestat) = (_, refl, on_gamestat-Kept e c k h)
    go (some gameshut) = (_, refl, on_gameshut-Kept e c k h)
    go (some gamebegn) = (_, refl, on_gamebegn-Kept e c k h)
    go (some gamrslst) = (_, refl, on_gamrslst-Kept e c k h)
    go (some gamrjoin) = (_, refl, on_gamrjoin-Kept e c k h)
    go (some gamrleav) = (_, refl, on_gamrleav-Kept e c k h)
    go (some gamrdrop) = (_, refl, on_gamrdrop-Kept e c k h)
    go (some retrycon) = on_retrycon-Kept e c k h
    go (some partchat) = (_, refl, call-Kept c _ kept)
    go (some gamechat) = (_, refl, call-Kept c _ kept)
    go (some motdline) = (_, refl, call-Kept c _ kept)
    go (some longsucc) = (_, refl, on_longsucc-Kept e c k h)
    go (some servping) = if-Handled e.spoofing _ _ (c, refl, kept) (send_pong-Kept kept)
    go (some lognstat) = (_, refl, on_lognstat-Kept e c k h)
    go (some invdnone) = (c, refl, kept)
    go (some userlogn) = (c, refl, kept)
    go (some userpong) = (c, refl, kept)
    go (some tmoutrst) = (c, refl, kept)
    go (some gamrkick) = (c, refl, kept)
    go (some gamedata) = (c, refl, kept)
    go (some gamcdata) = (c, refl, kept)
    go (some gamrsrdy) = (c, refl, kept)
