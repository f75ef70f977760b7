-- ===== src/Tests/Worker.antt =====
-- A worker of one shard with two players in its queue.
use matchmaking.Shared.{
  eq_iff, ℕ, ◌≤◌, ◌<◌, String, ◌≡◌, ◌≢◌, ◌⊎◌, refl, true, false, none, some, List, [], ◌∷◌, ◌++◌,
  arith, All, length, keep, ◌&&◌, not,
}
use matchmaking.Tests.Codec.{formed, codec, player, rival, shard}
use matchmaking.Tests.Queue.{start}
use matchmaking.Effects.{match_forming, World, reply_lost, delivered}
use matchmaking.Redis.{Keyspace, Scored, put, contains}
use matchmaking.Redis.Scores.{score_of}
use matchmaking.Redis.Memory.{memory, empty}
use matchmaking.Keys
use matchmaking.Keys.Disjoint.{queue-ne-processing}
use matchmaking.Worker.Scripts.{CommitKeys, CommitArgs, commit_match_script}
use matchmaking.Worker.Scripts.Recovery.{popped, drained, drained-popped}
use matchmaking.Worker.Scripts.Lock.{acquires, renews, releases, lock_steps, lock_steps-refused}
use matchmaking.Worker.Select.{BufferedEntry}
use matchmaking.Worker.Owner.{held, taken, attempt_lock, renew_lock, release_shard_lock}
use matchmaking.Worker.Owner.Tenure.{rival_of, attempt_lock-renew_lock}
use matchmaking.Worker.Pop.{
  parse_candidates, MatchMaker, Popped, returned, pop_once, commit_keys, commit_args,
  pop_batch_size, player_ids,
}
use matchmaking.Worker.Pop.Total.{Ends, pop_once-Ends}
use matchmaking.Worker.Pop.Discard.{IsQuiet, batch, drained-pop_once, pop_once_lost}
use matchmaking.Worker.Pop.Batch.{is_live}

abbrev pub buffered : BufferedEntry
buffered = record { entry = player; member = "7"; score = 5000 }

abbrev pub opponent : BufferedEntry
opponent = record { entry = rival; member = "8"; score = 6000 }

-- Both players are queued, and player 8 has cancelled.
abbrev queued_store : Keyspace
queued_store = record empty {
  sets = put empty.sets (Keys.cancelled shard) ("8" ∷ []);
  zsets =
      put empty.zsets (Keys.queue shard)
        (record { member = "7"; score = 5000 } ∷ record { member = "8"; score = 6000 } ∷ []);
}

abbrev pub quiet_world : World
quiet_world = record start { store = queued_store }

abbrev pub pair_maker : MatchMaker
pair_maker = record {
  match_size = 2;
  shard = shard;
  has_publisher = true;
  has_store = false;
  worker_id = "a";
}

queued-IsQuiet : IsQuiet pair_maker quiet_world
unfolding Keys.queue Keys.hash_tag score_of
queued-IsQuiet = record { unique = (refl, (refl, tt)); reliable = λ n. refl }

drained-popped_example :
    let q = Keys.queue shard in
    let p = Keys.processing shard in
    ((drained memory q p (popped memory q p 1 queued_store)).zsets p ≡ [])
    × ((m : String)
        → score_of m ((drained memory q p (popped memory q p 1 queued_store)).zsets q)
          ≡ score_of m (queued_store.zsets q))
drained-popped_example =
    drained-popped memory (Keys.queue shard) (Keys.processing shard) (queue-ne-processing shard) 1
      queued_store queued-IsQuiet.unique (unfold Keys.processing Keys.queue Keys.hash_tag in refl)

abbrev locked_store : Keyspace
locked_store = record empty { texts = put empty.texts "lock" (some "a") }

b-ne-a : ◌≢◌ {A = String} "b" "a"
b-ne-a e = ground (arith, eq_iff "b" "a")

c-ne-a : ◌≢◌ {A = String} "c" "a"
c-ne-a e = ground (arith, eq_iff "c" "a")

lock_steps-refused_example :
    lock_steps memory "lock" (acquires "b" ∷ renews "c" ∷ releases "b" ∷ []) locked_store
    ≡ (false, locked_store)
lock_steps-refused_example =
    lock_steps-refused memory "lock" "a" (acquires "b" ∷ renews "c" ∷ releases "b" ∷ [])
      locked_store refl (b-ne-a, (c-ne-a, (b-ne-a, tt)))

b-ne-owner : ◌≢◌ {A = String} "b" pair_maker.worker_id
b-ne-owner = b-ne-a

attempt_lock-renew_lock_example :
    let rival = rival_of pair_maker "b" in
    let (got, u) = attempt_lock memory pair_maker start in
    let (kept, v) = renew_lock memory pair_maker u in
    let x = (release_shard_lock memory pair_maker v).1 in
    (got ≡ held)
    × (kept ≡ held)
    × ((attempt_lock memory rival v).0 ≡ taken)
    × ((attempt_lock memory rival v).1.store ≡ v.store)
    × ((renew_lock memory rival v).0 ≡ taken)
    × ((renew_lock memory rival v).1.store ≡ v.store)
    × (x.store.texts (Keys.shard_lock shard) ≡ none)
attempt_lock-renew_lock_example =
    attempt_lock-renew_lock memory pair_maker "b" start (λ n. refl) refl b-ne-owner

pop_once-Ends_example : Ends (pop_once memory pair_maker codec [] quiet_world).0
pop_once-Ends_example = pop_once-Ends memory pair_maker codec [] quiet_world (omega arith)

-- One of the two is live, which is too few for a match.
one_left : length ([] ++ keep (is_live ("8" ∷ [])) (batch memory pair_maker codec quiet_world)) < 2
unfolding Keys.queue Keys.hash_tag parse_candidates contains
one_left = omega arith

drained-pop_once_example :
    let found = batch memory pair_maker codec quiet_world in
    let t =
      drained memory
        (Keys.queue shard)
        (Keys.processing shard)
        (pop_once memory pair_maker codec [] quiet_world).1.store in
    ((m : String)
      → score_of m (t.zsets (Keys.queue shard))
        ≡ score_of m (queued_store.zsets (Keys.queue shard)))
    × ((p : String)
        → contains p (player_ids found) ≡ true
        → contains p (t.sets (Keys.cancelled shard)) ≡ false)
unfolding Keys.cancelled Keys.processing Keys.queue Keys.hash_tag
drained-pop_once_example =
    drained-pop_once memory pair_maker codec [] quiet_world queued-IsQuiet refl one_left

-- The first reply is lost.
abbrev lossy_world : World
lossy_world = record quiet_world { net = λ n. reply_lost }

reply-ne-delivered : lossy_world.net lossy_world.calls ≢ delivered
reply-ne-delivered e = ground arith

pop_once_lost_example :
    ((pop_once memory pair_maker codec [] lossy_world).0 ≡ returned [])
    × (lossy_world.net lossy_world.calls ≡ reply_lost
        → (pop_once memory pair_maker codec [] lossy_world).1.store
          ≡ popped memory (Keys.queue shard) (Keys.processing shard) pop_batch_size queued_store)
pop_once_lost_example = pop_once_lost memory pair_maker codec [] lossy_world reply-ne-delivered

-- Nobody has cancelled: the two players are matched, and the match is announced.
abbrev pub open_world : World
open_world = record quiet_world { store = record queued_store { sets = empty.sets } }

pair_matched :
    ((pop_once memory pair_maker codec [] open_world).0 ≡ returned [])
    × ((pop_once memory pair_maker codec [] open_world).1.published
        ≡ match_forming formed.id ("7" ∷ "8" ∷ []) ∷ [])
    × ((pop_once memory pair_maker codec [] open_world).1.store.zsets (Keys.processing shard) ≡ [])
unfolding pop_once matchmaking.Worker.Scripts.pop_to_processing_script Keys.queue Keys.hash_tag
    matchmaking.Worker.Pop.form_matches matchmaking.Redis.contains_each
    matchmaking.Worker.Select.select_group matchmaking.Tests.Codec.same_match
    matchmaking.Worker.Pop.new_match matchmaking.Worker.Pop.match_id
    matchmaking.Shared.Decimal.decimal matchmaking.Tests.Codec.same_entry commit_match_script
    Keys.processing matchmaking.Redis.without_scored Keys.forming_matches
    matchmaking.Redis.with_scored
pair_matched = (refl, refl, refl)
