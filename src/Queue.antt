-- ===== src/Queue.antt =====
-- internal/queue/client.go: joining and leaving a queue, and reading a match.
pub mod Band
pub mod Join
use matchmaking.Shared.{
  ℕ, ◌/◌, ◌*◌, String, Bool, true, false, Option, none, some, [], ◌∷◌, eqb, if◌then◌else◌,
}
use matchmaking.Model.{Time, Shard, QueueEntry, Match}
use matchmaking.Json.{Json}
use matchmaking.Redis.{Redis, Keyspace}
use matchmaking.Effects.{M, pure, call, query, command, ◌>>=◌}
use matchmaking.Keys
use Band.{compute_rating_band}

abbrev pub cancelled_set_ttl : ℕ
cancelled_set_ttl = 86400

-- time.Time.UnixMilli
abbrev pub unix_milli : Time → ℕ
unix_milli t = t / 1000000

pub data JoinError : Type 0 where
  marshal_failed redis_failed player_cancelled : JoinError

-- What GetMatch returns: (nil, nil), a match or an error.
pub data Lookup : Type 0 where
  absent failed : Lookup
  present : Match → Lookup

-- The shard that a join goes to.
unfoldable pub queue_shard : Shard → QueueEntry → Shard
unfolding compute_rating_band
queue_shard shard entry = record {
  region = shard.region;
  mode = shard.mode;
  rating_band = compute_rating_band entry.rating;
}

module _ (R : Redis) where
  unfoldable pub join_script :
      String → String → String → ℕ → String → String → Keyspace → ℕ × Keyspace
  join_script queue cancelled inqueue score player_id member s =
      (1, R.zadd queue score member (R.sadd inqueue (player_id ∷ []) s).1)

  unfoldable pub cancel_script : String → String → String → ℕ → Keyspace → ℕ × Keyspace
  cancel_script cancelled inqueue player_id ttl s = (
    1,
    R.expire cancelled ttl
        (R.srem inqueue (player_id ∷ []) (R.sadd cancelled (player_id ∷ []) s).1),
  )

  module _ (J : Json) where
    -- Client.Join; `none` is the nil error.
    unfoldable pub join : Shard → QueueEntry → M (Option JoinError)
    unfolding call
    join shard entry = elim (J.encode_entry entry) [
      | none ↦ pure (some JoinError.marshal_failed)
      | some text ↦
          let s = queue_shard shard entry in
          call (
            join_script (Keys.queue s) (Keys.cancelled s) (Keys.in_queue s)
              (unix_milli entry.enqueued_at) entry.player_id text)
          >>= λ reply. elim reply [
            | none ↦ pure (some JoinError.redis_failed)
            | some result ↦ pure (if eqb result 0 then some JoinError.player_cancelled else none)
          ]
    ]

    unfoldable pub lookup_of : Option (Option String) → Lookup
    lookup_of none = Lookup.failed
    lookup_of (some none) = Lookup.absent
    lookup_of (some (some text)) = elim (J.decode_match text) [
      | none ↦ Lookup.failed
      | some match ↦ Lookup.present match
    ]

    -- Client.GetMatch
    unfoldable pub get_match : String → M Lookup
    unfolding query lookup_of
    get_match match_id = do reply ← query (R.get (Keys.match_key match_id)); pure (lookup_of reply)

  -- Client.Cancel; true stands for the nil error.
  unfoldable pub cancel : Shard → String → M Bool
  unfolding call
  cancel shard player_id =
      call (cancel_script (Keys.cancelled shard) (Keys.in_queue shard) player_id cancelled_set_ttl)
      >>= λ reply. elim reply [ none ↦ pure false | some _ ↦ pure true ]
