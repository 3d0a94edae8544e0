-- ===== src/RetryConnect/Select.antt =====
-- kcore/kaillera_retryconnect.cpp, the common part of `kaillera_retryconnect_host_select` and
-- `kaillera_retryconnect_select_callback`.
use kaillera_client.Prelude.{
  [], ℕ, ◌≡◌, refl, List, Bool, true, false, Option, none, some, arith, length, ltb, Bool-cases,
  inl, inr, c_str, take,
}
use kaillera_client.KrecReader.{KrecReader, open_file, open_from_memory, close}
use kaillera_client.KrecReader.Progress.{IsOpen}
use kaillera_client.KrecReader.Open.{open_from_memory-IsOpen}
use kaillera_client.KrecReader.Scan.{count_total_frames_lem}
use kaillera_client.RetryConnect.{Retry, select}

-- A file that is opened is open.
pub open_file-IsOpen :
    (r : KrecReader) (content : Option (List ℕ))
    → (open_file r content).0 ≡ true
    → IsOpen (open_file r content).1
unfolding open_file
open_file-IsOpen r none h = cc
open_file-IsOpen r (some content) h = elim (Bool-cases (ltb (length content) 272)) [
  | inl short ↦ absurd (ground arith)
  | inr long ↦ elim (Bool-cases (open_from_memory (close r) content).0) [
    | inr bad ↦ absurd (ground arith)
    | inl good ↦
        let o = (open_from_memory-IsOpen (close r) content good).0 in
        rw (long, good) (record { header = o.header; inside = o.inside })
  ]
]

-- Whatever the file holds, the choice ends: it is taken or refused, and changes the session only.
pub select_lem :
    (t : Retry) (session : List ℕ) (content : Option (List ℕ)) (valid_game : List ℕ → Bool)
    → (r : Bool × Retry) × (select t session content valid_game ≡ some r)
unfolding select
select_lem t session content valid_game =
    let opened = open_file t.reader content in
    elim (Bool-cases opened.0) [
      | inr bad ↦ ((false, record t { reader = opened.1 }), rw (select, bad) refl)
      | inl good ↦ elim (Bool-cases (valid_game (c_str opened.1.game_name))) [
        | inr wrong ↦ ((false, record t { reader = close opened.1 }), rw (select, good, wrong) refl)
        | inl right ↦
            let (total, r', counted, p, f, b) =
              count_total_frames_lem (open_file-IsOpen t.reader content good) in
            (
              (
                true,
                record t {
                  active = true;
                  session_id = take 63 session;
                  reader = r';
                  total_frames = some total;
                  last_frame = [];
                  pending_action = 0;
                },
              ),
              rw (select, good, right, counted) refl,
            )
      ]
    ]
