-- ===== src/Tests/Stream.antt =====
-- A stream with one entry that was left pending by a crash, one that has no match, and new ones.
use matchmaking.Shared.{
  ℕ, ◌≡◌, refl, String, true, false, Option, none, some, [], ◌∷◌, eqb, arith, if◌then◌else◌,
}
use matchmaking.Tests.Codec.{codec, formed}
use matchmaking.Effects.{delivered, reply_lost}
use matchmaking.Redis.Groups.{memory_groups}
use matchmaking.Store.{
  Database, Store, row_of, confirmed_row, dissolved_row, mark_match_confirmed, mark_match_dissolved,
}
use matchmaking.Store.Marks.{Persists, mark-insert_match}
use matchmaking.Worker.Stream.{Consumer, claim_stale_stream_entries, stream_consumer_loop}
use matchmaking.Worker.Stream.Keeps.{Holds}
use matchmaking.Worker.Stream.Lossless.{
  arrive, start_group, claim, consume, read_and_crash, IsAccounted, act, run_acts, run_acts-row,
  run_acts-IsAccounted,
}
use matchmaking.Worker.Stream.Claims.{Ends, claim_stale_stream_entries-Ends}
use matchmaking.Worker.Stream.Reclaimed.{Reclaims, claim_stale_stream_entries-Reclaims}
use matchmaking.Worker.Stream.Consumed.{Consumes, stream_consumer_loop-Consumes}

abbrev pub no_rows : Database
no_rows = record { matches = λ id. none; player_ratings = λ p m. none; rating_history = [] }

abbrev pub fresh_store : Store
fresh_store = record { database = no_rows; fates = λ n. delivered; statements = 0 }

-- Entries 1 and 3 hold a match, entry 2 has no data field.
abbrev pub data_of : ℕ → Option String
data_of i = if eqb i 2 then none else some "mforming"

abbrev pub restarted : Consumer
restarted = record {
  group = record { stream = 1 ∷ 2 ∷ 3 ∷ []; created = true; unread = 3 ∷ []; pending = 1 ∷ 2 ∷ [] };
  store = fresh_store;
  net = λ n. delivered;
  is_cancelled = λ n. false;
  calls = 0;
}

-- The same, but Redis answers only the first round trip.
abbrev cut_off : Consumer
cut_off = record restarted { net = λ n. if eqb n 0 then delivered else reply_lost }

mark-insert_match_example :
    Persists
      (mark_match_confirmed formed.id 9000000000)
      (confirmed_row 9000000000)
      formed
      fresh_store
    × Persists
        (mark_match_dissolved formed.id 9000000000)
        (dissolved_row 9000000000)
        formed
        fresh_store
mark-insert_match_example = mark-insert_match formed 9000000000 fresh_store (λ n. refl) refl

run_acts-IsAccounted_example : Holds (IsAccounted memory_groups codec data_of 4) (
    run_acts memory_groups codec data_of
      (read_and_crash ∷ arrive 5 ∷ start_group ∷ claim 3 ∷ consume 2 ∷ [])
      (act memory_groups codec data_of
        (arrive 4)
        (run_acts memory_groups codec data_of (start_group ∷ []) restarted)))
unfolding run_acts
run_acts-IsAccounted_example =
    run_acts-IsAccounted memory_groups codec data_of (start_group ∷ [])
      (read_and_crash ∷ arrive 5 ∷ start_group ∷ claim 3 ∷ consume 2 ∷ []) 4 restarted refl
      (omega arith)

-- The match was confirmed before its entry is claimed again.
abbrev persisted : Consumer
persisted = record restarted {
  store = record fresh_store {
    database = record no_rows { matches = λ id. some (confirmed_row 9000000000 (row_of formed)) };
  };
}

run_acts-row_example :
    (run_acts memory_groups codec data_of
        (claim 3 ∷ consume 2 ∷ [])
        persisted).store.database.matches
      formed.id
    ≡ some (confirmed_row 9000000000 (row_of formed))
run_acts-row_example =
    run_acts-row memory_groups codec data_of (claim 3 ∷ consume 2 ∷ []) persisted formed.id
      (confirmed_row 9000000000 (row_of formed)) refl

claim_stale_stream_entries-Ends_example :
    Ends (claim_stale_stream_entries memory_groups codec data_of 3 cut_off).0
claim_stale_stream_entries-Ends_example =
    claim_stale_stream_entries-Ends memory_groups codec data_of cut_off (omega arith)

claim_stale_stream_entries-Reclaims_example :
    let (r, v) = claim_stale_stream_entries memory_groups codec data_of 3 restarted in
    Reclaims memory_groups codec data_of 0 restarted r v
claim_stale_stream_entries-Reclaims_example =
    claim_stale_stream_entries-Reclaims memory_groups codec data_of restarted (λ n. refl, λ n. refl)
      (omega arith)

stream_consumer_loop-Consumes_example :
    let (r, v) = stream_consumer_loop memory_groups codec data_of 1 restarted in
    Consumes memory_groups codec data_of restarted r v
stream_consumer_loop-Consumes_example =
    stream_consumer_loop-Consumes memory_groups codec data_of 1 restarted (λ n. refl, λ n. refl)
      (omega arith)

-- What is left after the claim, and that a claim which is cut off leaves the entry for the next one.
claimed_groups :
    let v = (claim_stale_stream_entries memory_groups codec data_of 3 restarted).1 in
    let u = (claim_stale_stream_entries memory_groups codec data_of 3 cut_off).1 in
    (v.group.pending ≡ 2 ∷ [])
    × (v.store.database.matches formed.id ≡ some (row_of formed))
    × (u.store.database.matches formed.id ≡ some (row_of formed))
unfolding claim_stale_stream_entries
claimed_groups = (refl, refl, refl)
