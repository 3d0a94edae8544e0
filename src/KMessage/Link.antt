-- ===== src/KMessage/Link.antt =====
-- kcore/k_message.h, two objects and a network between them that loses, repeats, delays and
-- reorders the datagrams.
pub mod Sublists
use kaillera_client.Prelude.{
  ℕ, zero, suc, ◌+◌, ◌-◌, ◌≤◌, ◌<◌, ◌≡◌, refl, ap, ◌∙◌, sym, subst, List, [], ◌∷◌, ◌++◌, Bool, true,
  false, ◌&&◌, Option, none, some, inl, inr, ◌⊎◌, arith, length, get_elem?, Bool-cases, ◌==◌,
  length-append, take, take-append_le,
}
use mathlib.Core.Option.{some-injective}
use kaillera_client.KMessage.{
  KMessage, Address, Datagram, max_length, init, send, send_message, check_recv, has_data,
  skip_stale_holes,
}
use kaillera_client.KMessage.Invariant.{init-IsValid}
use kaillera_client.KMessage.Track.{Tracks, Tracks-snoc, Tracks-readable, skip_stale_holes-Tracks}
use kaillera_client.KMessage.Arrive.{IsBundle, serial_range}
use kaillera_client.KMessage.Take.{Known, Genuine, Taken, check_recv-Tracks}
use kaillera_client.KMessage.Sender.{Sends, AllBundles, send-Sends, send_message-Sends, init-Sends}
use kaillera_client.KMessage.Link.Sublists.{Sublist, done, snoc-Sublist, take-Sublist}

-- The two ends, the messages that went to `send` on the one and came out of `check_recv` on the
-- other, in these orders.
pub record Link : Type 0 where
  pub sender : KMessage
  pub receiver : KMessage
  pub msgs : List (List ℕ)
  pub delivered : List (List ℕ)

abbrev pub start : Address → Address → Link
start a b = record { sender = init b; receiver = init a; msgs = []; delivered = [] }

-- What the receiver's `recvfrom` may give: nothing, a datagram that the sender sent some time, or
-- any bytes from an address that is not its peer's.
pub data Arrives (l : Link) : Datagram → Type 0 where
  nothing : Arrives l none
  genuine :
      (src : Address) (i : ℕ) (bytes : List ℕ)
      → get_elem? l.sender.sent i ≡ some bytes
      → Arrives l (some (src, bytes))
  foreign :
      (src : Address) (bytes : List ℕ)
      → ((src.s_addr == l.receiver.addr.s_addr) && (src.sin_port == l.receiver.addr.sin_port))
        ≡ false
      → Arrives l (some (src, bytes))

abbrev pub handed : List (List ℕ) → Option (List ℕ) → List (List ℕ)
handed delivered none = delivered
handed delivered (some b) = delivered ++ b ∷ []

-- The calls of the two ends, and the socket that turns readable, in any order.
pub data Step (l : Link) : Link → Type 0 where
  sends :
      (b : List ℕ)
      → 0 < length b
      → length b ≤ max_length
      → Step l (record l { sender = send l.sender b; msgs = l.msgs ++ b ∷ [] })
  resends : (limit : ℕ) → Step l (record l { sender = send_message l.sender limit })
  readable : Step l (record l { receiver = record l.receiver { has_data_waiting = true } })
  polls : (now : ℕ) → Step l (record l { receiver = (has_data now l.receiver).1 })
  receives :
      (now : ℕ) (d : Datagram) (room : ℕ)
      → Arrives l d
      → Step l (record l {
        receiver = (check_recv now d l.receiver room false).1;
        delivered = handed l.delivered (check_recv now d l.receiver room false).0;
      })

pub data Reach (a b : Address) : Link → Type 0 where
  here : Reach a b (start a b)
  next : {l m : Link} → Reach a b l → Step l m → Reach a b m

-- The sender keeps and sends what it was given, the receiver's window keeps track of it, and what
-- was delivered stands, in order, before the window.
record Ordered (l : Link) : Type 0 where
  sends : Sends l.msgs l.sender
  front : ℕ
  tracks : Tracks l.msgs front l.receiver
  passed : front ≤ length l.msgs
  delivered : Sublist l.delivered (take front l.msgs)

Arrives-Known :
    (l : Link) (d : Datagram)
    → AllBundles l.msgs l.sender.sent
    → Arrives l d
    → Known l.msgs l.receiver d
Arrives-Known l none h a = tt
Arrives-Known l (some (src, bytes)) h (genuine _ i _ e) = inl (nth l.sender.sent i h e)
  where
    nth :
        (sent : List (List ℕ)) (i : ℕ)
        → AllBundles l.msgs sent
        → get_elem? sent i ≡ some bytes
        → IsBundle l.msgs bytes
    nth [] i h e = cc
    nth (d ∷ sent) zero h e = subst (IsBundle l.msgs) (some-injective d bytes e) h.0
    nth (d ∷ sent) (suc i) h e = nth sent i h.1 e
Arrives-Known l (some (src, bytes)) h (foreign _ _ e) = inr (ground arith)

handed-Ordered :
    {l : Link} (r : KMessage) (out : Option (List ℕ)) (o : Ordered l)
    → ((out ≡ none) × Tracks l.msgs o.front r)
      ⊎ ((b : List ℕ) × (out ≡ some b) × Taken l.msgs o.front b r)
    → Ordered (record l { receiver = r; delivered = handed l.delivered out })
handed-Ordered {l} r out o (inl (e, t)) = rw e (record {
  sends = o.sends;
  front = o.front;
  tracks = t;
  passed = o.passed;
  delivered = o.delivered;
})
handed-Ordered {l} r out o (inr (b, e, (j, after, own, inside, t))) = rw e (record {
  sends = o.sends;
  front = suc j;
  tracks = t;
  passed = omega arith;
  delivered = snoc-Sublist l.msgs o.front j l.delivered b o.delivered after own;
})

Step-Ordered : {l m : Link} → Step l m → length l.msgs ≤ serial_range → Ordered l → Ordered m
unfolding has_data
Step-Ordered {l} (sends b p k) r o = record {
  sends = send-Sends b o.sends p k;
  front = o.front;
  tracks = Tracks-snoc b o.tracks;
  passed = omega (arith, o.passed, length-append l.msgs (b ∷ []));
  delivered =
      subst (Sublist l.delivered) (sym (take-append_le o.front l.msgs (b ∷ []) o.passed))
        o.delivered;
}
Step-Ordered (resends limit) r o = record {
  sends = send_message-Sends limit o.sends;
  front = o.front;
  tracks = o.tracks;
  passed = o.passed;
  delivered = o.delivered;
}
Step-Ordered readable r o = record {
  sends = o.sends;
  front = o.front;
  tracks = Tracks-readable o.tracks;
  passed = o.passed;
  delivered = o.delivered;
}
Step-Ordered (polls now) r o = record {
  sends = o.sends;
  front = o.front;
  tracks = skip_stale_holes-Tracks now o.tracks;
  passed = o.passed;
  delivered = o.delivered;
}
Step-Ordered {l} (receives now d room a) r o =
    handed-Ordered (check_recv now d l.receiver room false).1
      (check_recv now d l.receiver room false).0 o
      (check_recv-Tracks now d room o.tracks r (Arrives-Known l d o.sends.bundles a))

-- No step takes a message back.
Step-length : {l m : Link} → Step l m → length l.msgs ≤ length m.msgs
Step-length {l} (sends b p k) = omega (arith, length-append l.msgs (b ∷ []))
Step-length (resends limit) = omega arith
Step-length readable = omega arith
Step-length (polls now) = omega arith
Step-length (receives now d room a) = omega arith

start-Ordered : (a b : Address) → Ordered (start a b)
start-Ordered a b = record {
  sends = init-Sends b;
  front = 0;
  tracks = record {
    valid = init-IsValid a;
    upto = 0;
    sent = omega arith;
    last = refl;
    behind = omega arith;
    slots = tt;
  };
  passed = omega arith;
  delivered = done;
}

Reach-Ordered : {a b : Address} {l : Link} → Reach a b l → length l.msgs ≤ serial_range → Ordered l
Reach-Ordered {a} {b} here r = start-Ordered a b
Reach-Ordered (next {l} p s) r =
    let earlier : length l.msgs ≤ serial_range = omega (arith, Step-length s) in
    Step-Ordered s earlier (Reach-Ordered p earlier)

-- Two new objects, of which one sends messages of 1 to 20000 bytes, no more than 32768 of them, and
-- the other receives over a network that may lose, repeat, delay and reorder the datagrams and mix
-- in those of others, with any clock and any buffers: the messages that are handed out are some of
-- those that were sent, each at most once for each time it was sent, and in the order of sending.
pub delivered-Sublist :
    {a b : Address} {l : Link}
    → Reach a b l
    → length l.msgs ≤ serial_range
    → Sublist l.delivered l.msgs
delivered-Sublist {l = l} p r = let o = Reach-Ordered p r in take-Sublist l.msgs o.front o.delivered
