-- ===== src/Tests/Rooms.antt =====
-- The theorems on the Kaillera core, at concrete inputs.
use kaillera_client.Prelude.{
  ℕ, ◌+◌, ◌≡◌, refl, List, [], ◌∷◌, ◌++◌, true, false, none, some, arith, codes, le16, le32,
  bytes_eq, lower_all,
}
use kaillera_client.Containers.Oslist.{Oslist, contents}
use kaillera_client.Containers.Oslist.Laws
use kaillera_client.KInstruction.{KInstruction}
use kaillera_client.KMessage
use kaillera_client.KailleraCore
use kaillera_client.KailleraCore.{
  Core, playing, retrycon_message, retrycon_control, retrycon_select, retrycon_nak,
}
use kaillera_client.KailleraCore.General.{
  Env, process_general_instruction, control_callback, select_callback, nak_callback,
}
use kaillera_client.KailleraCore.Game.{queue_size, process_game_instruction}
use kaillera_client.KailleraCore.Play.{input_message}
use kaillera_client.KailleraCore.RetryMessages
use kaillera_client.KailleraCore.Bundles
use kaillera_client.KailleraCore.Bundles.{Bundle}
use kaillera_client.KailleraCore.Frames

abbrev env : Env
env = record {
  garbage = λ k i. 7;
  same_name = λ a b. bytes_eq (lower_all a) (lower_all b);
  now = 1000;
  spoofing = false;
  spoof_ping = 0;
  half_rate = false;
  download = λ s. none;
  valid_game = λ g. true;
}

abbrev core : Core
core =
    KailleraCore.initialize (codes "app") (codes "ana") 2
      (KMessage.init (record { s_addr = 1; sin_port = 2 }))

-- Our own name joins, in capitals.
abbrev joined : KInstruction
joined = record {
  type = 2;
  user = codes "ANA";
  buffer = 5 ∷ 0 ∷ 9 ∷ 0 ∷ 0 ∷ 0 ∷ 1 ∷ [];
  buffer_len = 16;
}

-- Two frames of three bytes.
abbrev frames : List (List ℕ)
frames = (1 ∷ 2 ∷ 3 ∷ []) ∷ (4 ∷ 5 ∷ 6 ∷ []) ∷ []

abbrev bytes : List ℕ
bytes = 1 ∷ 2 ∷ 3 ∷ 4 ∷ 5 ∷ 6 ∷ []

cache-IsValid : Laws.IsValid queue_size core.incoming_data_cache
unfolding KailleraCore.initialize
cache-IsValid = record { array = refl; bounded = omega arith }

abbrev bundle : KInstruction
bundle = record { type = 18; user = []; buffer = le16 6 ++ bytes; buffer_len = 16 }

-- The same client with the bundle in its cache.
abbrev cached : Core
cached = record core { incoming_data_cache = record { items = bytes ∷ []; length = 1 } }

abbrev again : KInstruction
again = record { type = 19; user = []; buffer = 0 ∷ []; buffer_len = 16 }

abbrev in_game : Core
in_game = record core { playerstat = playing; userstat = 3 }

in_game-Bundle : Bundle in_game 3 frames
unfolding KailleraCore.initialize
in_game-Bundle = record {
  one_size = (refl, (refl, tt));
  some_bytes = omega arith;
  counted = refl;
  settings = omega arith;
  queue = record { array = refl; bounded = omega arith };
  room = omega arith;
}

input_message-play_frames_example :
    (k : KInstruction) × (c d : Core) × (input_message 6 bytes ≡ some k)
    × (process_game_instruction env in_game k ≡ some c)
    × (Frames.play_frames 2 (0 ∷ 0 ∷ 0 ∷ []) c ≡ some (frames, d))
    × (contents d.gv_queue ≡ [])
    × (d.frameno ≡ in_game.frameno + 2)
unfolding KailleraCore.initialize
input_message-play_frames_example =
    Frames.input_message-play_frames env in_game 3 frames (0 ∷ 0 ∷ 0 ∷ []) in_game-Bundle
      cache-IsValid (omega arith) (omega arith) refl refl

retrycon_round_trip_example :
    (control select nak : KInstruction) × (retrycon_message retrycon_control (3 ∷ le32 900)
      ≡ some control)
    × (retrycon_message retrycon_select (codes "s1") ≡ some select)
    × (retrycon_message retrycon_nak [] ≡ some nak)
    × (process_general_instruction env core (record control { user = codes "rui"; buffer_len = 64 })
        ≡ some (control_callback core 3 900))
    × (process_general_instruction env core (record select { user = codes "rui"; buffer_len = 64 })
        ≡ select_callback env core (codes "s1"))
    × (process_general_instruction env core (record nak { user = codes "rui"; buffer_len = 64 })
        ≡ some (nak_callback core))
retrycon_round_trip_example =
    RetryMessages.retrycon_round_trip env core 3 900 (codes "s1") (codes "rui") 64 (omega arith)
      (omega arith) (omega arith, (omega arith, tt)) (omega arith)
