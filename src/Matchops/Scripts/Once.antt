-- ===== src/Matchops/Scripts/Once.antt =====
-- A match leaves the forming state once, in whatever order the scripts run.
use matchmaking.Shared.{
  ◌⊎◌, ℕ, ◌+◌, ◌≤◌, String, ◌≡◌, ◌≢◌, refl, true, false, some, List, [], ◌∷◌, arith, eq_iff,
  Option-cases, inl, inr,
}
use matchmaking.Model.{status_confirmed, status_dissolved}
use matchmaking.Json.{Json}
use matchmaking.Redis.{Redis, Keyspace}
use matchmaking.Redis.Frames.{texts-set_ex, texts-zrem, texts-zadd, texts-srem}
use matchmaking.Matchops.Scripts.{
  Requeue, is_forming, restatus, leave_forming, requeue, dissolve_script, unmark_all,
  confirm_script,
}

module _ (R : Redis) where
  pub texts-requeue :
      (queue cancelled declined : String) (es : List Requeue) (s : Keyspace)
      → (requeue R queue cancelled declined es s).texts ≡ s.texts
  unfolding requeue
  texts-requeue queue cancelled declined [] s = refl
  texts-requeue queue cancelled declined (e ∷ es) s = ground (
    arith,
    texts-requeue queue cancelled declined es s,
    texts-requeue queue cancelled declined es (R.zadd queue e.score e.member s),
    texts-zadd R queue e.score e.member s,
  )

  pub texts-unmark_all :
      (k : String) (xs : List String) (s : Keyspace) → (unmark_all R k xs s).texts ≡ s.texts
  unfolding unmark_all
  texts-unmark_all k [] s = refl
  texts-unmark_all k (x ∷ xs) s = texts-srem R k (x ∷ xs) s

-- One step of somebody who may move the match out of the forming state, or who does not put it there:
-- the expiry of keys and the scripts for other matches are steps of the last kind.
pub data Attempt (status_key : String) : Type 0 where
  confirms : String → List String → Attempt status_key
  dissolves : String → String → String → String → List Requeue → Attempt status_key
  elsewhere :
      (f : Keyspace → Keyspace)
      → ((s : Keyspace)
          → is_forming (s.texts status_key) ≡ false
          → is_forming ((f s).texts status_key) ≡ false)
      → Attempt status_key

module _ (R : Redis) (J : Json) (status_key match_key forming match_id : String) (ttl : ℕ) where
  -- What the step answers: 1 if it took the match out of the forming state.
  unfoldable pub attempt : Attempt status_key → Keyspace → ℕ × Keyspace
  attempt (confirms inqueue player_ids) s =
      confirm_script R J status_key match_key forming inqueue ttl match_id player_ids s
  attempt (dissolves queue cancelled inqueue declined entries) s =
      dissolve_script R J status_key match_key forming queue cancelled inqueue ttl match_id declined
        entries s
  attempt (elsewhere f _) s = (0, f s)

  -- How many steps of a sequence took the match out of the forming state.
  unfoldable pub successes : List (Attempt status_key) → Keyspace → ℕ
  successes [] s = 0
  successes (a ∷ more) s = let (n, t) = attempt a s in n + successes more t

  module _ (apart : match_key ≢ status_key) where
    texts-restatus :
        (status : String) (s : Keyspace)
        → (restatus R J match_key status ttl s).texts status_key ≡ s.texts status_key
    unfolding restatus
    texts-restatus status s = elim (Option-cases (R.get match_key s)) [
      | inl e ↦ rw (e, restatus)
      | inr (raw, e) ↦
          rw (e, restatus)
            (ground (
              arith,
              texts-set_ex R match_key (J.with_status status raw) ttl s status_key,
              eq_iff match_key status_key,
            ))
    ]

    pub leave_forming-status :
        (status : String) (s : Keyspace)
        → (leave_forming R J status_key match_key forming ttl match_id status s).texts status_key
          ≡ some status
    unfolding leave_forming
    leave_forming-status status s = ground (
      arith,
      texts-restatus status (R.zrem forming (match_id ∷ []) (R.set_ex status_key status ttl s)),
      texts-zrem R forming (match_id ∷ []) (R.set_ex status_key status ttl s),
      texts-set_ex R status_key status ttl s status_key,
      eq_iff status_key status_key,
    )

    -- After a script that succeeds the status is the final one.
    confirm_script-status :
        (inqueue : String) (player_ids : List String) (s : Keyspace)
        → is_forming (R.get status_key s) ≡ true
        → (attempt (confirms inqueue player_ids) s).1.texts status_key ≡ some status_confirmed
    unfolding attempt confirm_script
    confirm_script-status inqueue player_ids s h =
        let left = leave_forming R J status_key match_key forming ttl match_id status_confirmed s in
        rw (h, texts-unmark_all R inqueue player_ids left) (leave_forming-status status_confirmed s)

    dissolve_script-status :
        (queue cancelled inqueue declined : String) (entries : List Requeue) (s : Keyspace)
        → is_forming (R.get status_key s) ≡ true
        → (attempt (dissolves queue cancelled inqueue declined entries) s).1.texts status_key
          ≡ some status_dissolved
    unfolding attempt dissolve_script
    dissolve_script-status queue cancelled inqueue declined entries s h =
        let left = leave_forming R J status_key match_key forming ttl match_id status_dissolved s in
        ground (
          arith,
          texts-srem R inqueue (declined ∷ []) (requeue R queue cancelled declined entries left),
          texts-requeue R queue cancelled declined entries left,
          leave_forming-status status_dissolved s,
        )

    -- A step from outside the forming state succeeds in nothing and stays outside.
    attempt_idle :
        (a : Attempt status_key) (s : Keyspace)
        → is_forming (s.texts status_key) ≡ false
        → ((attempt a s).0 ≡ 0) × (is_forming ((attempt a s).1.texts status_key) ≡ false)
    unfolding attempt confirm_script dissolve_script
    attempt_idle (confirms inqueue player_ids) s h = ground (arith, R.get_lem status_key s)
    attempt_idle (dissolves queue cancelled inqueue declined entries) s h =
        ground (arith, R.get_lem status_key s)
    attempt_idle (elsewhere f keeps) s h = (refl, keeps s h)

    -- A step that succeeds leaves the forming state.
    attempt_step :
        (a : Attempt status_key) (s : Keyspace)
        → ((attempt a s).0 ≡ 0)
          ⊎ (((attempt a s).0 ≡ 1) × (is_forming ((attempt a s).1.texts status_key) ≡ false))
    unfolding attempt confirm_script dissolve_script is_forming
    attempt_step (confirms inqueue player_ids) s =
        ground (arith, confirm_script-status inqueue player_ids s)
    attempt_step (dissolves queue cancelled inqueue declined entries) s =
        ground (arith, dissolve_script-status queue cancelled inqueue declined entries s)
    attempt_step (elsewhere f keeps) s = inl refl

    successes_idle :
        (attempts : List (Attempt status_key)) (s : Keyspace)
        → is_forming (s.texts status_key) ≡ false
        → successes attempts s ≡ 0
    unfolding successes
    successes_idle [] s h = refl
    successes_idle (a ∷ more) s h =
        let (answer, idle) = attempt_idle a s h in
        omega (arith, answer, successes_idle more (attempt a s).1 idle)

    -- For a match whose record and status have different keys: however confirmations, dissolutions
    -- and steps of others, which do not make it forming again, are ordered, at most one of them
    -- takes the match out of the forming state: a match is never both confirmed and dissolved, and
    -- neither happens twice.
    pub successes-le-one :
        (attempts : List (Attempt status_key)) (s : Keyspace) → successes attempts s ≤ 1
    unfolding successes
    successes-le-one [] s = omega arith
    successes-le-one (a ∷ more) s = elim (attempt_step a s) [
      | inl none_yet ↦ omega (arith, none_yet, successes-le-one more (attempt a s).1)
      | inr (answer, idle) ↦ omega (arith, answer, successes_idle more (attempt a s).1 idle)
    ]
