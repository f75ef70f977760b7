-- ===== src/Matchops/Scripts.antt =====
-- dissolveScript and confirmScript of internal/matchops/ops.go.
pub mod Once
pub mod Leaving
pub mod Requeued
pub mod Confirmed
use matchmaking.Shared.{
  ℕ, String, Bool, true, false, not, ◌&&◌, Option, none, some, List, [], ◌∷◌, str_eq, if◌then◌else◌,
}
use matchmaking.Model.{status_forming, status_confirmed, status_dissolved}
use matchmaking.Json.{Json}
use matchmaking.Redis.{Redis, Keyspace}

-- Three consecutive arguments of dissolveScript.
pub record Requeue : Type 0 where
  pub player_id : String
  pub score : ℕ
  pub member : String

-- if not status or status ~= "forming"
unfoldable pub is_forming : Option String → Bool
is_forming none = false
is_forming (some status) = str_eq status status_forming

module _ (R : Redis) where
  -- The while loop: everybody but the declined player and the cancelled ones.
  unfoldable pub requeue : String → String → String → List Requeue → Keyspace → Keyspace
  requeue queue cancelled declined [] s = s
  requeue queue cancelled declined (e ∷ es) s = requeue queue cancelled declined es (
      if not (str_eq e.player_id declined) && not (R.sismember cancelled e.player_id s)
      then R.zadd queue e.score e.member s
      else s)

  -- The players of a confirmed match are no longer queued.
  unfoldable pub unmark_all : String → List String → Keyspace → Keyspace
  unmark_all inqueue [] s = s
  unmark_all inqueue (p ∷ ps) s = R.srem inqueue (p ∷ ps) s

module _ (R : Redis) (J : Json) where
  -- The match record, if it is still there, gets the new status and a new lease of life.
  unfoldable pub restatus : String → String → ℕ → Keyspace → Keyspace
  restatus match_key status ttl s = elim (R.get match_key s) [
    | none ↦ s
    | some raw ↦ R.set_ex match_key (J.with_status status raw) ttl s
  ]

  -- The part that both scripts share: the status key, the forming set and the match record.
  unfoldable pub leave_forming :
      String → String → String → ℕ → String → String → Keyspace → Keyspace
  unfolding restatus
  leave_forming status_key match_key forming ttl match_id status s =
      restatus match_key status ttl
        (R.zrem forming (match_id ∷ []) (R.set_ex status_key status ttl s))

  unfoldable pub dissolve_script :
      String
      → String
      → String
      → String
      → String
      → String
      → ℕ
      → String
      → String
      → List Requeue
      → Keyspace
      → ℕ × Keyspace
  unfolding is_forming leave_forming requeue
  dissolve_script status_key match_key forming queue cancelled inqueue ttl match_id declined entries
        s =
      if is_forming (R.get status_key s)
      then (let left = leave_forming status_key match_key forming ttl match_id status_dissolved s in
          let queued = requeue R queue cancelled declined entries left in
          (1, if str_eq declined "" then queued else R.srem inqueue (declined ∷ []) queued))
      else (0, s)

  unfoldable pub confirm_script :
      String → String → String → String → ℕ → String → List String → Keyspace → ℕ × Keyspace
  unfolding is_forming leave_forming unmark_all
  confirm_script status_key match_key forming inqueue ttl match_id player_ids s =
      if is_forming (R.get status_key s)
      then (
        1,
        unmark_all R inqueue player_ids
            (leave_forming status_key match_key forming ttl match_id status_confirmed s),
      )
      else (0, s)
