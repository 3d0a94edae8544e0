-- ===== src/KailleraCore/Status.antt =====
-- kcore/kaillera_core.cpp, `kaillera_ProcessGeneralInstruction`: what each case may change.
use kaillera_client.Prelude.{
  ℕ, zero, suc, ◌≤◌, ◌≡◌, refl, List, Bool, true, false, Option, none, some, arith, ◌==◌, ◌&&◌, ltb,
  if◌then◌else◌,
}
use kaillera_client.Containers.Oslist.{Oslist}
use kaillera_client.KInstruction.{KInstruction}
use kaillera_client.KMessage.{KMessage}
use kaillera_client.KailleraCore.{Core, Callback, call, user_game_joined, duplicate_username}
use kaillera_client.KailleraCore.General.{
  Env, Cursor, int, start, rounds, add_players, add_users, add_games, schedule_spoof, on_userjoin,
  on_userleav, on_gamemake, on_gamestat, on_gameshut, on_gamebegn, on_gamrslst, on_gamrjoin,
  on_gamrleav, on_gamrdrop, on_longsucc, on_lognstat,
}

-- Sending leaves what has come in alone.
abbrev pub SameInput : Option KMessage → Option KMessage → Type 0
SameInput none none = Unit
SameInput none (some m') = ⊥
SameInput (some m) none = ⊥
SameInput (some m) (some m') =
    (m'.in_cache ≡ m.in_cache)
    × (m'.has_data_waiting ≡ m.has_data_waiting)
    × (m'.last_cached_instruction ≡ m.last_cached_instruction)

pub SameInput-refl : (o : Option KMessage) → SameInput o o
SameInput-refl none = tt
SameInput-refl (some m) = (refl, refl, refl)

-- Who the user is, the connection setting, and the frames that are queued.
abbrev pub Part : Type 0
Part = List ℕ × (List ℕ × (ℕ × (ℕ × (ℕ × (Oslist (List ℕ) × Oslist (List ℕ))))))

abbrev pub part : Core → Part
part c = (
  c.app,
  (c.username, (c.conset, (c.datalen, (c.reqdatalen, (c.gv_queue, c.incoming_data_cache))))),
)

-- These are as before, what has come in on the connection is, too, and `USERSTAT` is one of its
-- four values.
pub record Kept (c c' : Core) : Type 0 where
  pub same : part c' ≡ part c
  pub connection : SameInput c.connection c'.connection
  pub userstat : c'.userstat ≤ 3

pub Kept-refl : (c : Core) → c.userstat ≤ 3 → Kept c c
Kept-refl c h = record { same = refl; connection = SameInput-refl c.connection; userstat = h }

pub if-Kept : {c : Core} (b : Bool) (x y : Core) → Kept c x → Kept c y → Kept c (if b then x else y)
if-Kept true x y p q = p
if-Kept false x y p q = q

pub call-Kept : {c : Core} (x : Core) (f : Callback) → Kept c x → Kept c (call x f)
call-Kept x f k = record { same = k.same; connection = k.connection; userstat = k.userstat }

add_players-Kept :
    (e : Env) (n : ℕ) (p : Cursor) {c x : Core} → Kept c x → Kept c (add_players e n p x)
unfolding add_players
add_players-Kept e zero p k = k
add_players-Kept e (suc n) p k = add_players-Kept e n _ (call-Kept _ _ k)

add_games-Kept : (e : Env) (n : ℕ) (p : Cursor) {c x : Core} → Kept c x → Kept c (add_games e n p x)
unfolding add_games
add_games-Kept e zero p k = k
add_games-Kept e (suc n) p k = add_games-Kept e n _ (call-Kept _ _ k)

add_users-Kept :
    (e : Env) (n : ℕ) (d : Option (List ℕ)) (p : Cursor) {c x : Core}
    → Kept c x
    → Kept c (add_users e n d p x).1.1
unfolding add_users
add_users-Kept e zero d p k = k
add_users-Kept e (suc n) d p k = add_users-Kept e n _ _ (call-Kept _ _ k)

schedule_spoof-Kept : (e : Env) {c x : Core} → Kept c x → Kept c (schedule_spoof e x)
unfolding schedule_spoof
schedule_spoof-Kept e {x} k =
    if-Kept (e.spoofing && ltb 0 e.spoof_ping) _ x
      (record { same = k.same; connection = k.connection; userstat = k.userstat }) k

pub on_userjoin-Kept :
    (e : Env) (c : Core) (k : KInstruction) → c.userstat ≤ 3 → Kept c (on_userjoin e c k)
unfolding on_userjoin
on_userjoin-Kept e c k h = call-Kept _ _ (
    if-Kept ((c.userstat == 1) && e.same_name k.user c.username) _ c
      (record { same = refl; connection = SameInput-refl c.connection; userstat = omega arith })
      (Kept-refl c h))

pub on_userleav-Kept :
    (e : Env) (c : Core) (k : KInstruction) → c.userstat ≤ 3 → Kept c (on_userleav e c k)
unfolding on_userleav
on_userleav-Kept e c k h = call-Kept _ _ (Kept-refl c h)

pub on_gamemake-Kept :
    (e : Env) (c : Core) (k : KInstruction) → c.userstat ≤ 3 → Kept c (on_gamemake e c k)
unfolding on_gamemake
on_gamemake-Kept e c k h =
    let same = SameInput-refl c.connection in
    if-Kept c.game_id_requested _ _
      (if-Kept _ _ _ (record { same = refl; connection = same; userstat = omega arith })
        (record { same = refl; connection = same; userstat = h }))
      (record { same = refl; connection = same; userstat = h })

pub on_gamestat-Kept :
    (e : Env) (c : Core) (k : KInstruction) → c.userstat ≤ 3 → Kept c (on_gamestat e c k)
unfolding on_gamestat
on_gamestat-Kept e c k h = call-Kept _ _ (Kept-refl c h)

pub on_gameshut-Kept :
    (e : Env) (c : Core) (k : KInstruction) → c.userstat ≤ 3 → Kept c (on_gameshut e c k)
unfolding on_gameshut
on_gameshut-Kept e c k h =
    let same = SameInput-refl c.connection in
    if-Kept _ _ _ (record { same = refl; connection = same; userstat = omega arith })
      (record { same = refl; connection = same; userstat = h })

pub on_gamebegn-Kept :
    (e : Env) (c : Core) (k : KInstruction) → c.userstat ≤ 3 → Kept c (on_gamebegn e c k)
unfolding on_gamebegn
on_gamebegn-Kept e c k h =
    if-Kept c.leave_game_requested _ _ (Kept-refl c h)
      (record { same = refl; connection = SameInput-refl c.connection; userstat = h })

pub on_gamrslst-Kept :
    (e : Env) (c : Core) (k : KInstruction) → c.userstat ≤ 3 → Kept c (on_gamrslst e c k)
unfolding on_gamrslst
on_gamrslst-Kept e c k h =
    let joined =
      if-Kept c.owner _ _ (Kept-refl c h) (call-Kept c user_game_joined (Kept-refl c h)) in
    schedule_spoof-Kept e (
      add_players-Kept e _ _
        (record { same = joined.same; connection = joined.connection; userstat = omega arith }))

pub on_gamrjoin-Kept :
    (e : Env) (c : Core) (k : KInstruction) → c.userstat ≤ 3 → Kept c (on_gamrjoin e c k)
unfolding on_gamrjoin
on_gamrjoin-Kept e c k h =
    let same = SameInput-refl c.connection in
    if-Kept c.user_id_requested _ _
      (if-Kept _ _ _ (record { same = refl; connection = same; userstat = omega arith })
        (record { same = refl; connection = same; userstat = h }))
      (record { same = refl; connection = same; userstat = h })

pub on_gamrleav-Kept :
    (e : Env) (c : Core) (k : KInstruction) → c.userstat ≤ 3 → Kept c (on_gamrleav e c k)
unfolding on_gamrleav
on_gamrleav-Kept e c k h =
    let same = SameInput-refl c.connection in
    if-Kept _ _ _ (record { same = refl; connection = same; userstat = omega arith })
      (record { same = refl; connection = same; userstat = h })

pub on_gamrdrop-Kept :
    (e : Env) (c : Core) (k : KInstruction) → c.userstat ≤ 3 → Kept c (on_gamrdrop e c k)
unfolding on_gamrdrop
on_gamrdrop-Kept e c k h =
    let same = SameInput-refl c.connection in
    if-Kept _ _ _ (record { same = refl; connection = same; userstat = omega arith })
      (record { same = refl; connection = same; userstat = h })

pub on_lognstat-Kept :
    (e : Env) (c : Core) (k : KInstruction) → c.userstat ≤ 3 → Kept c (on_lognstat e c k)
unfolding on_lognstat
on_lognstat-Kept e c k h = call-Kept _ _ (Kept-refl c h)

pub on_longsucc-Kept :
    (e : Env) (c : Core) (k : KInstruction) → c.userstat ≤ 3 → Kept c (on_longsucc e c k)
unfolding on_longsucc
on_longsucc-Kept e c k h =
    let (user_count, p) = int e (start k) in
    let (game_count, p) = int e p in
    let logged = record c { userstat = if c.userstat == 1 then 2 else c.userstat } in
    let u : (if c.userstat == 1 then 2 else c.userstat) ≤ 3 = ground (arith, h) in
    let users =
      add_users-Kept e (rounds user_count) none p {c = c} {x = logged}
        (record { same = refl; connection = SameInput-refl c.connection; userstat = u }) in
    go (add_users e (rounds user_count) none p logged) (rounds game_count) users
  where
    go :
        (r : Option (List ℕ) × (Cursor × Core)) (n : ℕ)
        → Kept c r.1.1
        → Kept c (elim r.0 [
          | some name ↦ call r.1.1 (duplicate_username name)
          | none ↦ schedule_spoof e (record (add_games e n r.1.0 r.1.1) { tmoutrsttime = e.now })
        ])
    go (some name, (p, x)) n k = call-Kept x _ k
    go (none, (p, x)) n k =
        let g = add_games-Kept e n p k in
        schedule_spoof-Kept e
          (record { same = g.same; connection = g.connection; userstat = g.userstat })
