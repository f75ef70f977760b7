-- ===== src/Worker/Scripts.antt =====
-- The Lua scripts of internal/worker/worker.go.
pub mod Lock
pub mod Recovery
pub mod Commit
use matchmaking.Shared.{
  ℕ, String, Bool, true, false, Option, none, some, List, [], ◌∷◌, eqb, length, str_eq,
  if◌then◌else◌,
}
use matchmaking.Model.{status_forming}
use matchmaking.Redis.{Redis, Keyspace, Scored, StreamEntry}

module _ (R : Redis) where
  -- redis.call("GET", KEYS[1]) == ARGV[1]
  unfoldable pub holds_text : String → String → Keyspace → Bool
  holds_text key value s = elim (R.get key s) [ none ↦ false | some v ↦ str_eq v value ]

  -- EXPIRE answers 1, since the key was there to be read.
  unfoldable pub lock_renew_script : String → String → ℕ → Keyspace → ℕ × Keyspace
  unfolding holds_text
  lock_renew_script key worker_id ttl s =
      if holds_text key worker_id s then (1, R.expire key ttl s) else (0, s)

  unfoldable pub lock_release_script : String → String → Keyspace → ℕ × Keyspace
  unfolding holds_text
  lock_release_script key worker_id s =
      if holds_text key worker_id s then (1, R.del key s) else (0, s)

  -- ZADD for each entry, with its score.
  unfoldable pub zadd_all : String → List Scored → Keyspace → Keyspace
  zadd_all key [] s = s
  zadd_all key (e ∷ es) s = zadd_all key es (R.zadd key e.score e.member s)

  unfoldable pub pop_to_processing_script : String → String → ℕ → Keyspace → List Scored × Keyspace
  unfolding zadd_all
  pop_to_processing_script queue processing n s =
      let (res, popped) = R.zpopmin queue n s in (res, zadd_all processing res popped)

  -- One ZADD with all entries is one for each of them.
  unfoldable pub drain_processing_script : String → String → Keyspace → ℕ × Keyspace
  unfolding zadd_all
  drain_processing_script processing queue s =
      let entries = R.zrange processing s in
      if eqb (length entries) 0
      then (0, s)
      else (length entries, R.del processing (zadd_all queue entries s))

  unfoldable pub any_cancelled : String → List String → Keyspace → Bool
  any_cancelled cancelled [] s = false
  any_cancelled cancelled (p ∷ ps) s =
      let rest = any_cancelled cancelled ps s in if R.sismember cancelled p s then true else rest

-- KEYS of commitMatchScript.
pub record CommitKeys : Type 0 where
  pub cancelled : String
  pub match_key : String
  pub forming : String
  pub status_key : String
  pub processing : String
  pub stream : String
  pub inqueue : String

-- ARGV of commitMatchScript.
pub record CommitArgs : Type 0 where
  pub player_ids : List String
  pub members : List String
  pub payload : String
  pub ttl : ℕ
  pub score : ℕ
  pub match_id : String
  pub stream_max_len : ℕ

module _ (R : Redis) where
  -- The writes of a commit, in their order.
  unfoldable pub write_match : CommitKeys → CommitArgs → Keyspace → Keyspace
  write_match k a s =
      R.xadd k.stream a.stream_max_len (record { match_id = a.match_id; payload = a.payload })
        (R.srem k.inqueue a.player_ids (
          R.zrem k.processing a.members (
            R.zadd k.forming a.score a.match_id (
              R.set_ex k.status_key status_forming a.ttl
                (R.set_ex k.match_key a.payload a.ttl s)))))

  unfoldable pub commit_match_script : CommitKeys → CommitArgs → Keyspace → ℕ × Keyspace
  unfolding any_cancelled write_match
  commit_match_script k a s =
      if any_cancelled R k.cancelled a.player_ids s then (0, s) else (1, write_match k a s)
