-- ===== src/Tests/Peers.antt =====
-- The theorems on a peer-to-peer game, at concrete inputs.
use kaillera_client.Prelude.{
  ℕ, ◌≡◌, ◌≤◌, refl, List, [], ◌∷◌, Bool, true, false, Option, none, some, arith, codes, replicate,
  map, take, ◌++◌, inl, inr,
}
use kaillera_client.FrameCache
use kaillera_client.P2pInstruction
use kaillera_client.P2pMessage
use kaillera_client.P2pCore.{P2pCore, Env, Poll, data_type, await_peer}
use kaillera_client.P2pCore.Rounds
use kaillera_client.P2pCore.Rounds.{Round, Playing, EnvOk, Brings, inputs, peers}
use kaillera_client.P2pMessage.{P2pMessage, Address}
use kaillera_client.Containers.Oslist
use kaillera_client.P2pCore.Lockstep
use kaillera_client.P2pCore.Silence
use kaillera_client.P2pCore.Start.{Start, Settings, Look}
use kaillera_client.P2pCore.Start.Sync.{announce_delay, chosen_delay, follow_message, delay_message}
use kaillera_client.P2pCore.Start.Delay

abbrev env : Env
env = record {
  fresh = P2pInstruction.make (replicate 256 0) 0 0;
  body = replicate 256 9;
  bytes = replicate 32 9;
  int = replicate 4 9;
  now = 77;
}

abbrev side : Bool → P2pCore
side host = record {
  connection = P2pMessage.init (record { s_addr = 1; sin_port = 2 });
  host = host;
  status = 2;
  throughput = 1;
  frameno = 0;
  crframeno = 0;
  datalen = 2;
  userdata = FrameCache.init;
  peerdata = FrameCache.init;
  userready = true;
  peerready = true;
  username = codes "ana";
  peername = codes "rui";
  last_ping_sent_time = 0;
  last_ping_echo_time = 0;
  chat_cache = record { items = []; length = 0 };
  calls = [];
}

abbrev address : Address
address = record { s_addr = 1; sin_port = 2 }

side-Playing : (host : Bool) → Playing 2 address 255 [] (side host)
side-Playing host = record {
  status = omega arith;
  datalen = refl;
  user = refl;
  peer_empty = refl;
  user_valid = record { inside = omega arith; null = λ h. refl };
  peer_valid = record { inside = omega arith; null = λ h. refl };
  ready = record {
    addr = refl;
    cached = refl;
    byte = omega arith;
    taken = refl;
    slots = refl;
    unread = refl;
  };
}

env-EnvOk : EnvOk env
env-EnvOk = record {
  fresh = record {
    body = refl;
    pos = omega arith;
    len = omega arith;
    type = omega arith;
    flags = omega arith;
  };
  body = refl;
  bytes = refl;
}

-- Three frames of two bytes of each side.
abbrev rounds : List Round
rounds = (1 ∷ 2 ∷ [], 11 ∷ 12 ∷ []) ∷ (3 ∷ 4 ∷ [], 13 ∷ 14 ∷ []) ∷ (5 ∷ 6 ∷ [], 15 ∷ 16 ∷ []) ∷ []

-- With a delay of one frame.
abbrev frames : List (Option (List ℕ))
frames = some [] ∷ some (1 ∷ 2 ∷ 11 ∷ 12 ∷ []) ∷ some (3 ∷ 4 ∷ 13 ∷ 14 ∷ []) ∷ []

-- What the code of a side sends for its frames, as the other side's socket gives it.
abbrev looks : P2pMessage → List (List ℕ) → List Poll
looks m [] = []
looks m (f ∷ frames) =
    let next =
      P2pMessage.send_instruction m
        (P2pInstruction.store_bytes (P2pInstruction.make env.body data_type 0) f 2) in
    map
      (λ (d : Address × List ℕ). record {
        readable = true;
        datagram = some (address, d.1);
        now = 80;
      })
      (take 1 next.sent)
    ++ looks next frames

abbrev looks_of : List (List ℕ) → List Poll
looks_of frames = looks (P2pMessage.init address) frames

looks-Brings :
    (a b c d x y : ℕ)
    → let frames = (a ∷ b ∷ []) ∷ (c ∷ d ∷ []) ∷ (x ∷ y ∷ []) ∷ [] in
      Brings env address 255 frames (looks_of frames)
unfolding P2pMessage.send_instruction P2pMessage.send P2pMessage.send_message P2pMessage.bundle
    P2pMessage.pack P2pInstruction.store_bytes P2pInstruction.write_to_message Oslist.size
    Oslist.add
looks-Brings a b c d x y = (
  record {
    count = 1;
    older = [];
    readable = refl;
    sent = omega arith;
    few = omega arith;
    follows = inl refl;
    datagram = refl;
  },
  (
    record {
      count = 2;
      older = 0 ∷ 3 ∷ 7 ∷ a ∷ b ∷ [];
      readable = refl;
      sent = omega arith;
      few = omega arith;
      follows = inr (3 ∷ 7 ∷ a ∷ b ∷ [], refl);
      datagram = refl;
    },
    (
      record {
        count = 3;
        older = 1 ∷ 3 ∷ 7 ∷ c ∷ d ∷ 0 ∷ 3 ∷ 7 ∷ a ∷ b ∷ [];
        readable = refl;
        sent = omega arith;
        few = omega arith;
        follows = inr (3 ∷ 7 ∷ c ∷ d ∷ 0 ∷ 3 ∷ 7 ∷ a ∷ b ∷ [], refl);
        datagram = refl;
      },
      tt,
    ),
  ),
)

lockstep_example :
    (Rounds.run env (looks_of (peers rounds)) (inputs rounds) (side true) ≡ some frames)
    × (Rounds.run env (looks_of (inputs rounds)) (peers rounds) (side false) ≡ some frames)
lockstep_example =
    Lockstep.lockstep env env 2 rounds (side true) (side false) address address 255 255
      (looks_of (peers rounds)) (looks_of (inputs rounds)) env-EnvOk env-EnvOk (omega arith)
      (omega arith) (side-Playing true) (side-Playing false) refl refl refl
      ((refl, refl), ((refl, refl), ((refl, refl), tt))) (omega arith) (omega arith)
      (looks-Brings 11 12 13 14 15 16) (looks-Brings 1 2 3 4 5 6)

-- The 320th look at the clock, 21 ms after the one before.
abbrev silent : Poll
silent = record { readable = false; datagram = none; now = 121 }

abbrev waiting : P2pCore
waiting = side true

await_peer-Silent_example :
    (c : P2pCore) × (await_peer env (silent ∷ []) 100 319 waiting ≡ some (true, (c, [])))
    × (c.status ≡ 1)
    × (c.userready ≡ false)
    × (c.peerready ≡ false)
unfolding P2pMessage.has_data
await_peer-Silent_example =
    Silence.await_peer-Silent env silent [] 100 319 waiting refl refl (refl, (refl, tt)) refl

abbrev starting : Bool → Start
starting host = record {
  core = side host;
  ping = 80;
  pingc = 4;
  ping_time = 5;
  initial_time = 0;
  userloaded = true;
  peerloaded = true;
}

abbrev settings : Settings
settings = record { pad = 3; frame_delay_override = 0; thirty_fps = false }

abbrev glance : Look
glance = record { readable = true; datagram = none; tick = 9; later = 10 }

-- With 40 ms between the two, and two frames more by choice.
abbrev announced : Start
announced = announce_delay env settings 40 (starting true)

announced_delay : announced.core.throughput ≡ 5
unfolding announce_delay chosen_delay
announced_delay = refl

announce_delay-follow_message_example :
    (follow_message env glance (starting false) (
        P2pInstruction.read_from_message env.fresh
          (P2pInstruction.write_to_message (delay_message env announced)))
      ≡ some (
        true,
        record (starting false) {
          core = record (side false) { throughput = announced.core.throughput };
        },
      ))
    × (1 ≤ announced.core.throughput)
announce_delay-follow_message_example =
    Delay.announce_delay-follow_message env env settings 40 glance (starting true) (starting false)
      env.fresh refl refl env-EnvOk.fresh (omega arith) (omega arith)
