-- ===== src/Matchops/Handlers.antt =====
-- What Confirm and Dissolve share: the keys of a match, its record, and a step that does nothing.
use matchmaking.Shared.{suc, String, ◌≡◌, refl, sym, some}
use matchmaking.Model.{Shard, Match}
use matchmaking.Json.{Json}
use matchmaking.Redis.{Redis, Keyspace}
use matchmaking.Effects.{World, IsReliable, query-delivered}
use matchmaking.Keys
use matchmaking.Keys.Disjoint.{match_key-ne-status, queue-ne-forming, cancelled-ne-in_queue}
use matchmaking.Matchops.{read_match, match_of_reply}
use matchmaking.Matchops.Scripts.Leaving.{MatchKeys, AreApart}

-- The keys of a match in its shard.
abbrev pub keys_of : String → Shard → MatchKeys
keys_of match_id shard = record {
  status_key = Keys.match_status_key match_id;
  match_key = Keys.match_key match_id;
  forming = Keys.forming_matches shard;
  queue = Keys.queue shard;
  cancelled = Keys.cancelled shard;
  inqueue = Keys.in_queue shard;
}

pub keys_of-AreApart : (match_id : String) (shard : Shard) → AreApart (keys_of match_id shard)
keys_of-AreApart match_id shard = record {
  match-status = match_key-ne-status match_id;
  forming-queue = λ e. queue-ne-forming shard (sym e);
  cancelled-inqueue = cancelled-ne-in_queue shard;
}

-- A step that changed neither the store nor what was published nor the goroutines.
pub record IsIdle (w v : World) : Type 0 where
  pub same_store : v.store ≡ w.store
  pub same_published : v.published ≡ w.published
  pub same_tasks : v.tasks ≡ w.tasks

-- The match is on record under its key.
pub record IsOnRecord (J : Json) (match_id : String) (match : Match) (s : Keyspace) : Type 0 where
  pub text : String
  pub stored : s.texts (Keys.match_key match_id) ≡ some text
  pub decoded : J.decode_match text ≡ some match

module _ (R : Redis) (J : Json) (match_id : String) (match : Match) where
  pub read_match-delivered :
      (w : World)
      → IsReliable w
      → IsOnRecord J match_id match w.store
      → read_match R J match_id w ≡ (some match, record w { calls = suc w.calls })
  unfolding read_match match_of_reply
  read_match-delivered w ok r =
      rw
        (
          query-delivered (R.get (Keys.match_key match_id)) w (ok w.calls),
          R.get_lem,
          r.stored,
          r.decoded,
        )
        refl
