-- ===== src/Worker/Pop/Leaving.antt =====
-- What takes a group out of processing, beside the rest of the buffer: the writes of a commit and
-- repushGroup of internal/worker/worker.go.
use matchmaking.Shared.{
  str_eq, ℕ, ◌≤◌, String, ◌≡◌, ap, ◌∙◌, sym, subst, Bool, false, Option, none, List, ◌++◌, arith,
  eq_iff, if◌then◌else◌, Bool-cases, inl, inr,
}
use matchmaking.Model.{Shard}
use matchmaking.Effects.{answered}
use matchmaking.Redis.{Redis, Keyspace, Scored, contains, with_scored}
use matchmaking.Redis.Scores.{
  score_of, IsUnique, score_of-with_scored, IsUnique-with_scored, score_of-without_scored,
}
use matchmaking.Redis.Frames.{zsets-zrem, zsets-zadd}
use matchmaking.Keys
use matchmaking.Keys.Disjoint.{queue-ne-processing, queue-ne-forming}
use matchmaking.Worker.Scripts.{CommitArgs, write_match}
use matchmaking.Worker.Scripts.Commit.{write_match-Commits}
use matchmaking.Worker.Pop.{commit_keys}
use matchmaking.Worker.Pop.Formed.{commit_keys-AreApart}
use matchmaking.Worker.Pop.Occurs.{occurs, listed, occurs-append, occurs-contains}
use matchmaking.Worker.Pop.Flight.{AreDistinct, InFlight}

-- A group and the rest of a buffer have no member in common.
pub are_disjoint :
    (group rest : List String)
    → AreDistinct (group ++ rest)
    → (m : String) → 1 ≤ occurs m rest
    → contains m group ≡ false
are_disjoint group rest distinct m h = elim (Bool-cases (contains m group)) [
  | inl c ↦
      absurd (omega (arith, distinct m, h, occurs-append m group rest, occurs-contains m group c))
  | inr c ↦ c
]

not_same :
    (j m : String) (rest : List String) → occurs m rest ≡ 0 → 1 ≤ occurs j rest → str_eq j m ≡ false
not_same j m rest outside h = elim (Bool-cases (str_eq j m)) [
  | inl e ↦
      let same : j ≡ m = ground (arith, e, eq_iff j m) in
      absurd (omega (arith, outside, h, ap (λ (x : String). occurs x rest) same))
  | inr e ↦ e
]

module _ (R : Redis) (shard : Shard) where
  -- A member of processing that is not taken out.
  abbrev kept : String → List String → Keyspace → Bool
  kept m group s = if contains m group then false else listed m (s.zsets (Keys.processing shard))

  -- A group leaves processing: the members of the rest of the buffer stay.
  leaves-InFlight :
      (group rest : List String) (s t : Keyspace)
      → ((m : String) → 1 ≤ occurs m rest → contains m group ≡ false)
      → t.zsets (Keys.queue shard) ≡ s.zsets (Keys.queue shard)
      → ((m : String) → listed m (t.zsets (Keys.processing shard)) ≡ kept m group s)
      → InFlight shard rest s
      → InFlight shard rest t
  leaves-InFlight group rest s t disjoint queued left f = record {
    unique = subst IsUnique (sym queued) f.unique;
    apart = λ m h. ap (listed m) queued ∙ f.apart m h;
    held = λ m h. left m ∙ rw (disjoint m h) (f.held m h);
  }

  answered-kept :
      (m : String) (group : List String) (o : Option ℕ)
      → answered (if contains m group then none else o)
        ≡ (if contains m group then false else answered o)
  answered-kept m group o = elim (Bool-cases (contains m group)) [ inl e ↦ rw e | inr e ↦ rw e ]

  queue-write_match :
      (id : String) (a : CommitArgs) (s : Keyspace)
      → (write_match R (commit_keys shard id) a s).zsets (Keys.queue shard)
        ≡ s.zsets (Keys.queue shard)
  unfolding write_match
  queue-write_match id a s =
      rw (R.xadd_lem, R.srem_lem, R.zrem_lem, R.zadd_lem, R.set_ex_lem, R.set_ex_lem)
        (ground (
          arith,
          eq_iff (Keys.processing shard) (Keys.queue shard),
          eq_iff (Keys.forming_matches shard) (Keys.queue shard),
          queue-ne-processing shard,
          queue-ne-forming shard,
        ))

  processing-write_match :
      (id : String) (a : CommitArgs) (s : Keyspace) (m : String)
      → listed m ((write_match R (commit_keys shard id) a s).zsets (Keys.processing shard))
        ≡ kept m a.members s
  processing-write_match id a s m =
      let c = write_match-Commits R (commit_keys shard id) a s (commit_keys-AreApart shard id) in
      ap (λ (o : Option ℕ). answered o) (c.taken m)
      ∙ answered-kept m a.members (score_of m (s.zsets (Keys.processing shard)))

  taken_from :
      (key : String) (group : List String) (s : Keyspace) (m : String)
      → listed m ((R.zrem key group s).zsets key)
        ≡ (if contains m group then false else listed m (s.zsets key))
  taken_from key group s m = ground (
    arith,
    zsets-zrem R key group s key,
    eq_iff key key,
    score_of-without_scored m group (s.zsets key),
    answered-kept m group (score_of m (s.zsets key)),
  )

  pub written-InFlight :
      (id : String) (a : CommitArgs) (rest : List String) (s : Keyspace)
      → ((m : String) → 1 ≤ occurs m rest → contains m a.members ≡ false)
      → InFlight shard rest s
      → InFlight shard rest (write_match R (commit_keys shard id) a s)
  written-InFlight id a rest s disjoint f =
      leaves-InFlight a.members rest s (write_match R (commit_keys shard id) a s) disjoint
        (queue-write_match id a s) (λ m. processing-write_match id a s m) f

  pub zrem-InFlight :
      (group rest : List String) (s : Keyspace)
      → ((m : String) → 1 ≤ occurs m rest → contains m group ≡ false)
      → InFlight shard rest s
      → InFlight shard rest (R.zrem (Keys.processing shard) group s)
  zrem-InFlight group rest s disjoint f =
      let queue = Keys.queue shard in
      let processing = Keys.processing shard in
      leaves-InFlight group rest s (R.zrem processing group s) disjoint
        (ground (
          arith,
          zsets-zrem R processing group s queue,
          eq_iff processing queue,
          queue-ne-processing shard,
        ))
        (λ m. taken_from processing group s m) f

  -- An entry that is not in the buffer goes into the queue.
  pub zadd-InFlight :
      (score : ℕ) (m : String) (rest : List String) (s : Keyspace)
      → occurs m rest ≡ 0
      → InFlight shard rest s
      → InFlight shard rest (R.zadd (Keys.queue shard) score m s)
  zadd-InFlight score m rest s outside f =
      let queue = Keys.queue shard in
      let processing = Keys.processing shard in
      let t = R.zadd queue score m s in
      let entry : Scored = record { member = m; score = score } in
      let changed = zsets-zadd R queue score m s in
      let same : t.zsets processing ≡ s.zsets processing =
        ground (arith, changed processing, eq_iff queue processing, queue-ne-processing shard) in
      let queued : t.zsets queue ≡ with_scored entry (s.zsets queue) =
        ground (arith, changed queue, eq_iff queue queue) in
      record {
        unique = subst IsUnique (sym queued) (IsUnique-with_scored entry (s.zsets queue) f.unique);
        apart = λ j h.
            ap (listed j) queued
            ∙ rw (score_of-with_scored j entry (s.zsets queue), not_same j m rest outside h)
                (f.apart j h);
        held = λ j h. ap (listed j) same ∙ f.held j h;
      }
