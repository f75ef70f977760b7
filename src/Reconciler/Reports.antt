-- ===== src/Reconciler/Reports.antt =====
-- What the reconciler of internal/reconciler/reconciler.go reports to others: the events that it
-- publishes and the goroutines that it starts.
use mathlib.Core.List.{append-nil, append_assoc}
use matchmaking.Shared.{
  ℕ, zero, suc, String, ◌≡◌, refl, sym, ap, ◌∙◌, false, Option, none, some, List, [], ◌∷◌, ◌++◌,
  eqb, inl, inr, Bool-cases, All,
}
use matchmaking.Model.{Shard, Match}
use matchmaking.Json.{Json}
use matchmaking.Redis.{Redis, Keyspace}
use matchmaking.Effects.{
  World, M, now, query, pure, Event, Delivery, delivered, request_lost, reply_lost, match_dissolved,
  ◌>>=◌, call, publish, call-cases,
}
use matchmaking.Keys
use matchmaking.Matchops.Scripts.{Requeue, dissolve_script}
use matchmaking.Matchops.{
  match_ttl, read_match, requeue_args, dissolve, dissolve_found, dissolve_with, after_dissolve,
  persist_dissolved,
}
use matchmaking.Reconciler.{
  dissolve_each, process_shard, process_shards, process_timed_out, run, overdue, deadline,
}

-- An event that says that a match was dissolved.
abbrev pub IsDissolution : Event → Type 0
IsDissolution e = (id : String) × (players : List String) × (e ≡ match_dissolved id players)

-- No goroutine is started, and only dissolutions are published.
pub record Reports (w v : World) : Type 0 where
  pub events : List Event
  pub dissolutions : All IsDissolution events
  pub same_tasks : v.tasks ≡ w.tasks
  pub published_after : v.published ≡ w.published ++ events

All-append :
    (xs ys : List Event)
    → All IsDissolution xs
    → All IsDissolution ys
    → All IsDissolution (xs ++ ys)
All-append [] ys a b = b
All-append (x ∷ xs) ys (a, more) b = (a, All-append xs ys more b)

silent : (w v : World) → v.tasks ≡ w.tasks → v.published ≡ w.published → Reports w v
silent w v t p = record {
  events = [];
  dissolutions = tt;
  same_tasks = t;
  published_after = p ∙ sym (append-nil w.published);
}

-- A step and what follows it.
then-Reports :
    {A B : Type 0} (m : M A) (f : A → M B) (w : World)
    → Reports w (m w).1
    → ((a : A) (v : World) → Reports v (f a v).1)
    → Reports w ((m >>= f) w).1
then-Reports m f w first next =
    let (a, v) = m w in
    let second = next a v in
    record {
      events = first.events ++ second.events;
      dissolutions = All-append first.events second.events first.dissolutions second.dissolutions;
      same_tasks = second.same_tasks ∙ first.same_tasks;
      published_after =
          second.published_after
          ∙ ap (λ (es : List Event). es ++ second.events) first.published_after
          ∙ append_assoc w.published first.events second.events;
    }

call-Reports : {A : Type 0} (f : Keyspace → A × Keyspace) (w : World) → Reports w (call f w).1
call-Reports f w = elim (call-cases f w) [
  | inl e ↦ rw e (silent _ _ refl refl)
  | inr (inl e) ↦ rw e (silent _ _ refl refl)
  | inr (inr e) ↦ rw e (silent _ _ refl refl)
]

publish-Reports :
    (id : String) (players : List String) (w : World)
    → Reports w (publish (match_dissolved id players) w).1
unfolding publish
publish-Reports id players w = of_fate (w.net w.calls) refl
  where
    of_fate :
        (d : Delivery) → w.net w.calls ≡ d → Reports w (publish (match_dissolved id players) w).1
    of_fate delivered e =
        rw (e, publish)
          (record {
            events = match_dissolved id players ∷ [];
            dissolutions = ((id, players, refl), tt);
            same_tasks = refl;
            published_after = refl;
          })
    of_fate request_lost e = rw (e, publish) (silent _ _ refl refl)
    of_fate reply_lost e =
        rw (e, publish)
          (record {
            events = match_dissolved id players ∷ [];
            dissolutions = ((id, players, refl), tt);
            same_tasks = refl;
            published_after = refl;
          })

module _ (R : Redis) (J : Json) where
  after_dissolve-Reports :
      (id : String) (m : Match) (reply : Option ℕ) (w : World)
      → Reports w (after_dissolve R J false id m reply w).1
  unfolding after_dissolve persist_dissolved
  after_dissolve-Reports id m none w = silent w w refl refl
  after_dissolve-Reports id m (some ok) w = elim (Bool-cases (eqb ok 0)) [
    | inl idle ↦ rw idle (silent w w refl refl)
    | inr done ↦ rw done (publish-Reports id m.player_ids w)
  ]

  dissolve_with-Reports :
      (id : String) (m : Match) (args : Option (List Requeue)) (w : World)
      → Reports w (dissolve_with R J false id "" m args w).1
  unfolding dissolve_with
  dissolve_with-Reports id m none w = silent w w refl refl
  dissolve_with-Reports id m (some entries) w =
      let script : Keyspace → ℕ × Keyspace =
        dissolve_script R J (Keys.match_status_key id) (Keys.match_key id)
          (Keys.forming_matches m.shard) (Keys.queue m.shard) (Keys.cancelled m.shard)
          (Keys.in_queue m.shard) match_ttl id "" entries in
      then-Reports (call script) (after_dissolve R J false id m) w (call-Reports script w)
        (λ reply v. after_dissolve-Reports id m reply v)

  dissolve_found-Reports :
      (id : String) (found : Option Match) (w : World)
      → Reports w (dissolve_found R J false id "" found w).1
  unfolding dissolve_found
  dissolve_found-Reports id none w = silent w w refl refl
  dissolve_found-Reports id (some m) w = dissolve_with-Reports id m (requeue_args R J m.entries) w

  dissolve-Reports : (id : String) (w : World) → Reports w (dissolve R J false id "" w).1
  unfolding dissolve read_match query
  dissolve-Reports id w =
      then-Reports (read_match R J id) (dissolve_found R J false id "") w
        (call-Reports (λ t. (R.get (Keys.match_key id) t, t)) w)
        (λ found v. dissolve_found-Reports id found v)

  dissolve_each-Reports : (ids : List String) (w : World) → Reports w (dissolve_each R J ids w).1
  unfolding dissolve_each
  dissolve_each-Reports [] w = silent w w refl refl
  dissolve_each-Reports (id ∷ ids) w =
      then-Reports (dissolve R J false id "") (λ _. dissolve_each R J ids) w (dissolve-Reports id w)
        (λ _ v. dissolve_each-Reports ids v)

  reply-Reports :
      (reply : Option (List String)) (w : World)
      → let rest : M (Unit {0}) = elim reply [
        | none ↦ pure tt
        | some ids ↦ dissolve_each R J ids
      ] in
        Reports w (rest w).1
  reply-Reports none w = silent w w refl refl
  reply-Reports (some ids) w = dissolve_each-Reports ids w

  process_shard-Reports :
      (high : Option ℕ) (shard : Shard) (w : World) → Reports w (process_shard R J high shard w).1
  unfolding process_shard query
  process_shard-Reports high shard w =
      then-Reports (query (overdue R J high shard))
        (λ reply. elim reply [ none ↦ pure tt | some ids ↦ dissolve_each R J ids ]) w
        (call-Reports (λ t. (overdue R J high shard t, t)) w) reply-Reports

  process_shards-Reports :
      (high : Option ℕ) (shards : List Shard) (w : World)
      → Reports w (process_shards R J high shards w).1
  unfolding process_shards
  process_shards-Reports high [] w = silent w w refl refl
  process_shards-Reports high (shard ∷ shards) w =
      then-Reports (process_shard R J high shard) (λ _. process_shards R J high shards) w
        (process_shard-Reports high shard w) (λ _ v. process_shards-Reports high shards v)

  -- However many ticks the reconciler runs, over whatever shards and whatever becomes of its round
  -- trips, the only events that it publishes are dissolutions of matches, and it starts no
  -- goroutine, so none that marks a match in PostgreSQL.
  pub run-Reports :
      (ticks : ℕ) (shards : List Shard) (w : World) → Reports w (run R J ticks shards w).1
  unfolding run process_timed_out now
  run-Reports zero shards w = silent w w refl refl
  run-Reports (suc ticks) shards w =
      then-Reports (process_timed_out R J shards) (λ _. run R J ticks shards) w
        (then-Reports now (λ at. process_shards R J (deadline at) shards) w
          (silent w (now w).1 refl refl) (λ at v. process_shards-Reports (deadline at) shards v))
        (λ _ v. run-Reports ticks shards v)
