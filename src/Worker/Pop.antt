-- ===== src/Worker/Pop.antt =====
-- popOnce of internal/worker/worker.go and what it calls: a batch is popped, parsed and filtered, and
-- matches are committed while the buffer allows it.
pub mod Total
pub mod Batch
pub mod Discard
pub mod Formed
pub mod Occurs
pub mod Flight
pub mod Leaving
pub mod Holding
pub mod Custody
pub mod Repush
use matchmaking.Shared.{
  ℕ, zero, suc, ◌+◌, String, ◌⧺◌, Bool, true, false, not, Option, none, some, List, [], ◌∷◌, ◌++◌,
  map, leb, eqb, length, if◌then◌else◌,
}
use matchmaking.Shared.Decimal.{decimal}
use matchmaking.Model.{Time, Shard, Match, status_forming}
use matchmaking.Json.{Json}
use matchmaking.Redis.{Redis, Keyspace, Scored}
use matchmaking.Effects.{
  World, M, pure, call, command, pipeline, query, now, publish, match_forming, ◌>>=◌, ◌>>◌,
}
use matchmaking.Keys
use matchmaking.Queue.{unix_milli}
use matchmaking.Worker.Select.{BufferedEntry, select_group}
use matchmaking.Worker.Scripts.{
  CommitKeys, CommitArgs, pop_to_processing_script, commit_match_script,
}

abbrev pub pop_batch_size : ℕ
pop_batch_size = 24

abbrev pub match_ttl : ℕ
match_ttl = 600

abbrev pub stream_max_len : ℕ
stream_max_len = 1000

-- The configuration of a MatchMaker; its counter is in the `World`.
pub record MatchMaker : Type 0 where
  pub match_size : ℕ
  pub shard : Shard
  pub has_publisher : Bool
  pub has_store : Bool
  pub worker_id : String

-- What commitMatch returns: (true, nil), (false, nil) or an error.
pub data Commit : Type 0 where
  committed conflict failed : Commit

-- What popOnce returns: a buffer, or a buffer with an error. `panicked` stands for the panic of
-- selectGroup, and `out_of_fuel` for a loop that was cut short.
pub data Popped : Type 0 where
  returned : List BufferedEntry → Popped
  failed : List BufferedEntry → Popped
  panicked : Popped
  out_of_fuel : Popped

-- m.matchSeq.Add(1)
unfoldable pub next_seq : M ℕ
next_seq w = (suc w.match_seq, record w { match_seq = suc w.match_seq })

unfoldable pub match_id : Shard → Time → ℕ → String
match_id s at seq =
    "{"
    ⧺ s.region
    ⧺ "/"
    ⧺ s.mode
    ⧺ "}:"
    ⧺ s.rating_band
    ⧺ ":"
    ⧺ decimal (unix_milli at)
    ⧺ ":"
    ⧺ decimal seq

abbrev pub player_ids : List BufferedEntry → List String
player_ids = map (λ be. be.entry.player_id)

abbrev pub members : List BufferedEntry → List String
members = map (λ be. be.member)

-- The match that commitMatch builds.
unfoldable pub new_match : Shard → List BufferedEntry → Time → ℕ → Match
new_match shard group at seq = record {
  id = match_id shard at seq;
  shard = shard;
  player_ids = player_ids group;
  entries = map (λ be. be.entry) group;
  status = status_forming;
  formed_at = at;
}

abbrev pub commit_keys : Shard → String → CommitKeys
commit_keys shard id = record {
  cancelled = Keys.cancelled shard;
  match_key = Keys.match_key id;
  forming = Keys.forming_matches shard;
  status_key = Keys.match_status_key id;
  processing = Keys.processing shard;
  stream = Keys.match_stream shard;
  inqueue = Keys.in_queue shard;
}

abbrev pub commit_args : List BufferedEntry → String → String → Time → CommitArgs
commit_args group id payload at = record {
  player_ids = player_ids group;
  members = members group;
  payload = payload;
  ttl = match_ttl;
  score = unix_milli at;
  match_id = id;
  stream_max_len = stream_max_len;
}

module _ (R : Redis) (mm : MatchMaker) where
  -- popBatch. An error of the client comes with no values, which the first test takes for an empty
  -- queue, so popBatch returns no error.
  unfoldable pub pop_batch : M (List Scored)
  unfolding call
  pop_batch =
      call
        (pop_to_processing_script R (Keys.queue mm.shard) (Keys.processing mm.shard) pop_batch_size)
      >>= λ reply. elim reply [ none ↦ pure [] | some zs ↦ pure zs ]

  -- The pipeline's commands, in their order.
  unfoldable pub repush_commands :
      List BufferedEntry → (Keyspace → Keyspace) → List (Keyspace → Keyspace)
  repush_commands [] last = last ∷ []
  repush_commands (be ∷ rest) last =
      R.zadd (Keys.queue mm.shard) be.score be.member ∷ repush_commands rest last

  -- repushGroup; its error is only logged.
  unfoldable pub repush_group : List BufferedEntry → M (Option (Unit {0}))
  unfolding pipeline repush_commands
  repush_group group =
      pipeline (repush_commands group (R.zrem (Keys.processing mm.shard) (members group)))

  -- The candidates that are not cancelled, and the players of those that are.
  unfoldable pub split_cancelled : List BufferedEntry → List Bool → List BufferedEntry × List String
  split_cancelled (c ∷ cs) (flag ∷ flags) =
      let (kept, dropped) = split_cancelled cs flags in
      if flag then (kept, c.entry.player_id ∷ dropped) else (c ∷ kept, dropped)
  split_cancelled _ _ = ([], [])

  -- Failing to clear the discarded players is only logged.
  unfoldable pub uncancel : List String → M (Unit {0})
  unfolding command
  uncancel [] = pure tt
  uncancel (p ∷ ps) = command (R.srem (Keys.cancelled mm.shard) (p ∷ ps)) >> pure tt

  -- After an error of SMIsMember nobody counts as cancelled.
  unfoldable pub flags_of : List BufferedEntry → Option (List Bool) → List Bool
  flags_of cs none = map (λ c. false) cs
  flags_of cs (some flags) = flags

  module _ (J : Json) where
    -- A malformed member is logged and skipped.
    unfoldable pub parse_candidates : List Scored → List BufferedEntry
    parse_candidates [] = []
    parse_candidates (z ∷ zs) =
        let rest = parse_candidates zs in
        elim (J.decode_entry z.member) [
          | none ↦ rest
          | some e ↦ record { entry = e; member = z.member; score = z.score } ∷ rest
        ]

    unfoldable pub announce : Match → M (Unit {0})
    unfolding publish
    announce m = if mm.has_publisher then publish (match_forming m.id m.player_ids) else pure tt

    unfoldable pub after_commit : Match → Option ℕ → M Commit
    unfolding announce
    after_commit m none = pure Commit.failed
    after_commit m (some result) =
        if eqb result 0 then pure Commit.conflict else announce m >> pure Commit.committed

    -- The part of commitMatch behind the encoding of the match.
    unfoldable pub commit_encoded : List BufferedEntry → Match → Time → Option String → M Commit
    unfolding call after_commit
    commit_encoded group m at none = pure Commit.failed
    commit_encoded group m at (some payload) =
        call (commit_match_script R (commit_keys mm.shard m.id) (commit_args group m.id payload at))
        >>= after_commit m

    unfoldable pub commit_match : List BufferedEntry → M Commit
    unfolding next_seq now commit_encoded
    commit_match group = do
      seq ← next_seq
      at ← now
      let m = new_match mm.shard group at seq
      commit_encoded group m at (J.encode_match m)

    -- What follows a commit; `continue` is the rest of the loop.
    unfoldable pub after_group :
        (List BufferedEntry → M Popped)
        → List BufferedEntry
        → List BufferedEntry
        → Commit
        → M Popped
    after_group continue group remaining failed = pure (Popped.failed remaining)
    after_group continue group remaining conflict = repush_group group >> continue remaining
    after_group continue group remaining committed = continue remaining

    -- What follows selectGroup.
    unfoldable pub after_select :
        (List BufferedEntry → M Popped)
        → List BufferedEntry
        → Option (List BufferedEntry × List BufferedEntry × Bool)
        → M Popped
    unfolding commit_match after_group
    after_select continue buffer none = pure panicked
    after_select continue buffer (some (group, remaining, false)) = pure (returned buffer)
    after_select continue buffer (some (group, remaining, true)) =
        commit_match group >>= after_group continue group remaining

    -- for len(buffer) >= m.matchSize. Each round takes a group out of the buffer.
    unfoldable pub form_matches : ℕ → List BufferedEntry → M Popped
    unfolding now after_select
    form_matches zero buffer = pure out_of_fuel
    form_matches (suc fuel) buffer =
        let round : M Popped = now >>= λ t.
        after_select (form_matches fuel) buffer (select_group buffer mm.match_size t) in
        if leb mm.match_size (length buffer) then round else pure (returned buffer)

    -- The part of popOnce behind the test for candidates.
    unfoldable pub admit : List BufferedEntry → List BufferedEntry → M Popped
    unfolding query flags_of split_cancelled uncancel
    admit buffer candidates = do
      reply ← query (R.smismember (Keys.cancelled mm.shard) (player_ids candidates))
      let split = split_cancelled candidates (flags_of candidates reply)
      uncancel split.1
      let full = buffer ++ split.0
      form_matches (suc (length full)) full

    unfoldable pub with_candidates : List BufferedEntry → List BufferedEntry → M Popped
    unfolding admit
    with_candidates buffer [] = pure (returned buffer)
    with_candidates buffer (c ∷ cs) = admit buffer (c ∷ cs)

    -- popOnce. The delay on an empty queue is not modelled.
    unfoldable pub pop_once : List BufferedEntry → M Popped
    unfolding pop_batch parse_candidates with_candidates
    pop_once buffer = do zs ← pop_batch; with_candidates buffer (parse_candidates zs)
