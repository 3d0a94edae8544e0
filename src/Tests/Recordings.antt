-- ===== src/Tests/Recordings.antt =====
-- The theorems on the recorder and on a recording that a room replays, at concrete inputs.
use kaillera_client.Prelude.{
  ℕ, ◌≡◌, refl, List, [], ◌∷◌, ◌++◌, true, none, some, arith, codes, replicate, NoNul, le16,
}
use kaillera_client.KrecReader
use kaillera_client.KrecReader.{KrecReader, next_record, input}
use kaillera_client.KrecReader.Loads.{ahead}
use kaillera_client.KrecReader.Progress.{IsOpen}
use kaillera_client.Recorder.{Recorder, close_recording, play_values}
use kaillera_client.Recorder.Content
use kaillera_client.Recorder.Content.{Event, encodings}
use kaillera_client.Recorder.Replay
use kaillera_client.Recorder.Failed
use kaillera_client.RetryConnect
use kaillera_client.RetryConnect.{Retry}
use kaillera_client.RetryConnect.Order
use kaillera_client.RetryConnect.Serve

abbrev header : List ℕ
header = codes "KRC1" ++ replicate 396 0

-- Two frames with a line of chat between them, and a player who leaves.
abbrev events : List Event
events =
    Event.frame (1 ∷ 2 ∷ [])
    ∷ Event.chat (codes "ana") (codes "go")
    ∷ Event.frame (3 ∷ [])
    ∷ Event.dropped (codes "ana") 2
    ∷ []

abbrev last : List Event
last = Event.chat (codes "rui") (codes "good game") ∷ []

ana : NoNul (codes "ana")
ana = (omega arith, (omega arith, (omega arith, tt)))

go : NoNul (codes "go")
go = (omega arith, (omega arith, tt))

read_events-record_events_example :
    (w : Recorder) × (file : List ℕ) × (r : KrecReader) × (Content.record_events
        (record { out = some header; buffer = [] })
        (events ++ last)
      ≡ some w)
    × ((close_recording w).0 ≡ some file)
    × (KrecReader.open_from_memory KrecReader.init file ≡ (true, r))
    × (Replay.read_events 256 4 r ≡ events)
unfolding encodings
read_events-record_events_example =
    Replay.read_events-record_events 256 header events last refl refl
      (omega arith, (omega arith, (omega arith, (omega arith, (omega arith, tt)))))
      (
        (omega arith, omega arith),
        (
          (ana, omega arith, go, omega arith),
          ((omega arith, omega arith), ((ana, omega arith, omega arith), tt)),
        ),
      )
      (omega arith)

record_events-encodings_example :
    (r : Recorder) × (Content.record_events (record { out = some header; buffer = [] }) events
      ≡ some r)
    × ((close_recording r).0 ≡ some (header ++ encodings events))
record_events-encodings_example =
    Content.record_events-encodings header events
      (omega arith, (omega arith, (omega arith, (omega arith, tt))))

-- A reader in front of the record of a failed frame, with ten bytes behind it.
abbrev reader : KrecReader
reader = record KrecReader.init {
  buffer = header ++ 0x12 ∷ (le16 65535 ++ replicate 10 7);
  ptr = 400;
}

play_values-next_record_example :
    (play_values (record { out = some header; buffer = [] }) (5 ∷ []) 65535
      ≡ some (record { out = some (header ++ 0x12 ∷ le16 65535); buffer = [] }))
    × ((next_record reader none).type ≡ input)
    × (ahead (next_record reader none).reader ≡ [])
play_values-next_record_example =
    Failed.play_values-next_record header (5 ∷ []) (replicate 10 7) reader refl (omega arith)
      (omega arith)

abbrev session : Retry
session = record RetryConnect.init { active = true; reader = reader }

modify_play_values-Returns_example :
    (n : ℕ) × (values : List ℕ) × (t : Retry) × (RetryConnect.modify_play_values session
        (replicate 256 0)
      ≡ some (n, values, t))
    × IsOpen t.reader
modify_play_values-Returns_example =
    Serve.modify_play_values-Returns session (replicate 256 0)
      (record { header = omega arith; inside = omega arith })

-- A session in front of the records of the match.
abbrev replayed : Retry
replayed = record RetryConnect.init {
  active = true;
  reader = record KrecReader.init {
    buffer = header ++ (encodings events ++ encodings last);
    ptr = 400;
  };
}

replayed-Before : Order.Before replayed events (encodings last)
unfolding encodings
replayed-Before = record {
  ok = (
    (omega arith, omega arith),
    (
      (ana, omega arith, go, omega arith),
      ((omega arith, omega arith), ((ana, omega arith, omega arith), tt)),
    ),
  );
  arrays = record { drop_nick = refl; chat_nick = refl; chat_msg = refl };
  ahead = refl;
}

replay-frames_of_example :
    (t : Retry) × (Order.replay 2 (replicate 256 0) replayed
      ≡ some ((1 ∷ 2 ∷ []) ∷ (3 ∷ []) ∷ [], t))
unfolding encodings
replay-frames_of_example =
    Order.replay-frames_of replayed (replicate 256 0) events (encodings last) replayed-Before
      (omega arith)
