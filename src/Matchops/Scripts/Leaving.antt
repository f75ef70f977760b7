-- ===== src/Matchops/Scripts/Leaving.antt =====
-- What a match leaves behind when it leaves the forming state, confirmed or dissolved.
use matchmaking.Shared.{
  inr, inl, Option-cases, ℕ, String, ◌≡◌, ◌≢◌, Option, none, some, [], ◌∷◌, arith, str_eq, eq_iff,
  if◌then◌else◌,
}
use matchmaking.Json.{Json}
use matchmaking.Redis.{Redis, Keyspace, contains}
use matchmaking.Redis.Scores.{score_of, score_of-without_scored}
use matchmaking.Matchops.Scripts.{restatus, leave_forming}
use matchmaking.Matchops.Scripts.Once.{leave_forming-status}

abbrev pub map_text : (String → String) → Option String → Option String
map_text f none = none
map_text f (some t) = some (f t)

module _ (R : Redis) (J : Json) (match_key status : String) (ttl : ℕ) where
  sets-restatus : (s : Keyspace) → (restatus R J match_key status ttl s).sets ≡ s.sets
  unfolding restatus
  sets-restatus s = elim (Option-cases (R.get match_key s)) [
    | inl e ↦ rw (e, restatus)
    | inr (raw, e) ↦ rw (e, restatus, R.set_ex_lem)
  ]

  zsets-restatus : (s : Keyspace) → (restatus R J match_key status ttl s).zsets ≡ s.zsets
  unfolding restatus
  zsets-restatus s = elim (Option-cases (R.get match_key s)) [
    | inl e ↦ rw (e, restatus)
    | inr (raw, e) ↦ rw (e, restatus, R.set_ex_lem)
  ]

  texts-restatus_self :
      (s : Keyspace)
      → (restatus R J match_key status ttl s).texts match_key
        ≡ map_text (J.with_status status) (s.texts match_key)
  unfolding restatus
  texts-restatus_self s = elim (Option-cases (s.texts match_key)) [
    | inl e ↦ rw (R.get_lem, e, restatus) e
    | inr (raw, e) ↦
        rw (R.get_lem, e, restatus, R.set_ex_lem) (ground (arith, eq_iff match_key match_key))
  ]

pub sets-leave_forming :
    (R : Redis) (J : Json) (status_key match_key forming match_id status : String) (ttl : ℕ)
    (s : Keyspace)
    → (leave_forming R J status_key match_key forming ttl match_id status s).sets ≡ s.sets
unfolding leave_forming
sets-leave_forming R J status_key match_key forming match_id status ttl s =
    rw (sets-restatus, R.zrem_lem, R.set_ex_lem)

-- The keys of one match in one shard.
pub record MatchKeys : Type 0 where
  pub status_key : String
  pub match_key : String
  pub forming : String
  pub queue : String
  pub cancelled : String
  pub inqueue : String

-- Keys of one type are different keys.
pub record AreApart (k : MatchKeys) : Type 0 where
  pub match-status : k.match_key ≢ k.status_key
  pub forming-queue : k.forming ≢ k.queue
  pub cancelled-inqueue : k.cancelled ≢ k.inqueue

module _ (R : Redis) (J : Json) (k : MatchKeys) (match_id : String) (ttl : ℕ)
    (apart : AreApart k) where
  open k use {status_key, match_key, forming}

  unfoldable pub left : String → Keyspace → Keyspace
  left status s = leave_forming R J status_key match_key forming ttl match_id status s

  pub sets-left : (status : String) (s : Keyspace) → (left status s).sets ≡ s.sets
  unfolding left
  sets-left status s = sets-leave_forming R J status_key match_key forming match_id status ttl s

  pub score_of-left_forming :
      (status m : String) (s : Keyspace)
      → score_of m ((left status s).zsets forming)
        ≡ (if str_eq m match_id then none else score_of m (s.zsets forming))
  unfolding left leave_forming
  score_of-left_forming status m s =
      rw (zsets-restatus, R.zrem_lem, R.set_ex_lem)
        (unfold contains in
          ground (
            arith,
            eq_iff forming forming,
            score_of-without_scored m (match_id ∷ []) (s.zsets forming),
          ))

  pub zsets-left_ne :
      (status j : String) (s : Keyspace) → forming ≢ j → (left status s).zsets j ≡ s.zsets j
  unfolding left leave_forming
  zsets-left_ne status j s d =
      rw (zsets-restatus, R.zrem_lem, R.set_ex_lem) (ground (arith, eq_iff forming j))

  pub texts-left_match :
      (status : String) (s : Keyspace)
      → (left status s).texts match_key ≡ map_text (J.with_status status) (s.texts match_key)
  unfolding left leave_forming
  texts-left_match status s =
      rw (texts-restatus_self, R.zrem_lem, R.set_ex_lem)
        (ground (arith, apart.match-status, eq_iff status_key match_key))

  pub left-status :
      (status : String) (s : Keyspace) → (left status s).texts status_key ≡ some status
  unfolding left
  left-status status s =
      leave_forming-status R J status_key match_key forming match_id ttl apart.match-status status s
