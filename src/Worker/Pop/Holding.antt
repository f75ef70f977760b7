-- ===== src/Worker/Pop/Holding.antt =====
-- The steps of popOnce of internal/worker/worker.go beside the entries in flight, whatever becomes of
-- their round trips.
use matchmaking.Shared.{
  eq_iff, All, ◌≤◌, String, ◌≡◌, refl, ap, Bool, true, false, Option, none, some, List, [], ◌∷◌,
  ◌++◌, arith, inl, inr, Bool-cases,
}
use mathlib.Core.List.{append-nil}
use matchmaking.Model.{Shard, QueueEntry}
use matchmaking.Json.{Json}
use matchmaking.Redis.{Redis, Keyspace, Scored}
use matchmaking.Redis.Frames.{zsets-srem}
use matchmaking.Effects.{pipeline-keeps, World, M, pure, command, call, call-cases, call-keeps}
use matchmaking.Keys
use matchmaking.Keys.Disjoint.{queue-ne-processing}
use matchmaking.Worker.Select.{BufferedEntry}
use matchmaking.Worker.Scripts.{
  pop_to_processing_script, commit_match_script, CommitArgs, any_cancelled,
}
use matchmaking.Worker.Scripts.Recovery.{pop_to_processing_script_lem, popped}
use matchmaking.Worker.Pop.{
  MatchMaker, members, pop_batch_size, commit_keys, pop_batch, repush_group, repush_commands,
  split_cancelled, uncancel, parse_candidates,
}
use matchmaking.Worker.Pop.Occurs.{occurs, scored_members, occurs-append}
use matchmaking.Worker.Pop.Flight.{
  AreDistinct, InFlight, frame-InFlight, fewer-InFlight, popped-InFlight, popped-AreDistinct,
}
use matchmaking.Worker.Pop.Leaving.{are_disjoint, written-InFlight, zrem-InFlight, zadd-InFlight}

-- No member stands twice in the buffer, and the store has its members in flight.
abbrev pub Holds : Shard → List String → Keyspace → Type 0
Holds shard ms s = AreDistinct ms × InFlight shard ms s

pub fewer-Holds :
    (shard : Shard) {ms : List String} (fewer : List String) (s : Keyspace)
    → ((m : String) → occurs m fewer ≤ occurs m ms)
    → Holds shard ms s
    → Holds shard fewer s
fewer-Holds shard {ms} fewer s less (d, f) =
    (λ m. omega (arith, less m, d m), fewer-InFlight shard ms fewer s less f)

pub rest-Holds :
    (shard : Shard) (group rest : List String) (s : Keyspace)
    → Holds shard (group ++ rest) s
    → Holds shard rest s
rest-Holds shard group rest s =
    fewer-Holds shard rest s (λ m. omega (arith, occurs-append m group rest))

module _ (R : Redis) (mm : MatchMaker) where
  popped-Holds :
      (ms : List String) (s : Keyspace)
      → Holds mm.shard ms s
      → let (zs, t) =
          pop_to_processing_script R
            (Keys.queue mm.shard)
            (Keys.processing mm.shard)
            pop_batch_size
            s in
        Holds mm.shard (ms ++ scored_members zs) t
  popped-Holds ms s (d, f) =
      let (head, _, _, _) =
        pop_to_processing_script_lem R (Keys.queue mm.shard) (Keys.processing mm.shard)
          (queue-ne-processing mm.shard) pop_batch_size s f.unique in
      rw head (
        popped-AreDistinct R mm.shard pop_batch_size ms s f d,
        unfold popped in popped-InFlight R mm.shard pop_batch_size ms s f,
      )

  abbrev batch_of : Option (List Scored) → List Scored
  batch_of none = []
  batch_of (some zs) = zs

  pop_batch-eq :
      (w : World)
      → let (reply, v) =
          call
            (pop_to_processing_script R
              (Keys.queue mm.shard)
              (Keys.processing mm.shard)
              pop_batch_size)
            w in
        pop_batch R mm w ≡ (batch_of reply, v)
  unfolding pop_batch
  pop_batch-eq w = of_reply (
      call
        (pop_to_processing_script R (Keys.queue mm.shard) (Keys.processing mm.shard) pop_batch_size)
        w)
    where
      of_reply :
          (q : Option (List Scored) × World)
          → let next : M (List Scored) = elim q.0 [ none ↦ pure [] | some zs ↦ pure zs ] in
            next q.1 ≡ (batch_of q.0, q.1)
      of_reply (none, v) = refl
      of_reply (some zs, v) = refl

  pub pop_batch-Holds :
      (ms : List String) (w : World)
      → Holds mm.shard ms w.store
      → let (zs, v) = pop_batch R mm w in Holds mm.shard (ms ++ scored_members zs) v.store
  pop_batch-Holds ms w h =
      let script =
        pop_to_processing_script R (Keys.queue mm.shard) (Keys.processing mm.shard)
          pop_batch_size in
      elim (call-cases script w) [
        | inl e ↦ rw (pop_batch-eq w, e) (popped-Holds ms w.store h)
        | inr (inl e) ↦ rw (pop_batch-eq w, e, append-nil ms) h
        | inr (inr e) ↦
            rw (pop_batch-eq w, e, append-nil ms)
              (fewer-Holds mm.shard ms (script w.store).1
                (λ m. omega (arith, occurs-append m ms (scored_members (script w.store).0)))
                (popped-Holds ms w.store h))
      ]

  pub uncancel-Holds :
      (ms ps : List String) (w : World)
      → Holds mm.shard ms w.store
      → Holds mm.shard ms (uncancel R mm ps w).1.store
  unfolding uncancel command
  uncancel-Holds ms [] w h = h
  uncancel-Holds ms (p ∷ ps) w h =
      let t = R.srem (Keys.cancelled mm.shard) (p ∷ ps) w.store in
      let same = zsets-srem R (Keys.cancelled mm.shard) (p ∷ ps) w.store in
      call-keeps (Holds mm.shard ms) (λ s. (tt, R.srem (Keys.cancelled mm.shard) (p ∷ ps) s)) w h
        (
          h.0,
          frame-InFlight mm.shard ms w.store t
              (ap (λ (z : String → List Scored). z (Keys.queue mm.shard)) same)
              (ap (λ (z : String → List Scored). z (Keys.processing mm.shard)) same) h.1,
        )

  pub script-Holds :
      (id : String) (a : CommitArgs) (rest : List String) (s : Keyspace)
      → Holds mm.shard (a.members ++ rest) s
      → let (n, t) = commit_match_script R (commit_keys mm.shard id) a s in
        Holds mm.shard rest t × (some n ≡ some 0 → Holds mm.shard (a.members ++ rest) t)
  unfolding commit_match_script
  script-Holds id a rest s h =
      let later = rest-Holds mm.shard a.members rest s h in
      elim (Bool-cases (any_cancelled R (Keys.cancelled mm.shard) a.player_ids s)) [
        | inl hit ↦ rw hit (later, λ e. h)
        | inr clear ↦ rw clear (
          (
            later.0,
            written-InFlight R mm.shard id a rest s (are_disjoint a.members rest h.0) later.1,
          ),
          λ e. absurd (ground (arith, e)),
        )
      ]

  -- Every command of the pipeline keeps the rest of the buffer in flight.
  repush_commands-Holds :
      (group : List BufferedEntry) (rest : List String) (last : Keyspace → Keyspace)
      → ((m : String) → 1 ≤ occurs m (members group) → occurs m rest ≡ 0)
      → ((s : Keyspace) → Holds mm.shard rest s → Holds mm.shard rest (last s))
      → All
          (λ f. (s : Keyspace) → Holds mm.shard rest s → Holds mm.shard rest (f s))
          (repush_commands R mm group last)
  unfolding repush_commands
  repush_commands-Holds [] rest last outside keeps = (keeps, tt)
  repush_commands-Holds (be ∷ group) rest last outside keeps = (
    (λ s h. (
      h.0,
      zadd-InFlight R mm.shard be.score be.member rest s
          (outside be.member (ground (arith, eq_iff be.member be.member))) h.1,
    )),
    repush_commands-Holds group rest last (λ m h. outside m (ground (arith, h))) keeps,
  )

  -- Wherever the pipeline breaks off.
  pub repush_group-Holds :
      (group : List BufferedEntry) (rest : List String) (w : World)
      → Holds mm.shard (members group ++ rest) w.store
      → Holds mm.shard rest (repush_group R mm group w).1.store
  unfolding repush_group
  repush_group-Holds group rest w h =
      let disjoint = are_disjoint (members group) rest h.0 in
      let last = R.zrem (Keys.processing mm.shard) (members group) in
      pipeline-keeps (Holds mm.shard rest) (repush_commands R mm group last) w
        (repush_commands-Holds group rest last
          (λ m i. omega (arith, i, h.0 m, occurs-append m (members group) rest))
          (λ s k. (k.0, zrem-InFlight R mm.shard (members group) rest s disjoint k.1)))
        (rest-Holds mm.shard (members group) rest w.store h)

  pub split_cancelled-occurs :
      (m : String) (cs : List BufferedEntry) (flags : List Bool)
      → occurs m (members (split_cancelled R mm cs flags).0) ≤ occurs m (members cs)
  unfolding split_cancelled
  split_cancelled-occurs m [] flags = omega arith
  split_cancelled-occurs m (c ∷ cs) [] = omega arith
  split_cancelled-occurs m (c ∷ cs) (true ∷ flags) =
      ground (arith, split_cancelled-occurs m cs flags)
  split_cancelled-occurs m (c ∷ cs) (false ∷ flags) =
      ground (arith, split_cancelled-occurs m cs flags)

  module _ (J : Json) where
    pub parse_candidates-occurs :
        (m : String) (zs : List Scored)
        → occurs m (members (parse_candidates R mm J zs)) ≤ occurs m (scored_members zs)
    unfolding parse_candidates
    parse_candidates-occurs m [] = omega arith
    parse_candidates-occurs m (z ∷ zs) =
        parsed (J.decode_entry z.member) refl (parse_candidates-occurs m zs)
      where
        parsed :
            (o : Option QueueEntry)
            → J.decode_entry z.member ≡ o
            → occurs m (members (parse_candidates R mm J zs)) ≤ occurs m (scored_members zs)
            → occurs m (members (parse_candidates R mm J (z ∷ zs)))
              ≤ occurs m (scored_members (z ∷ zs))
        parsed none e h =
            let same : parse_candidates R mm J (z ∷ zs) ≡ parse_candidates R mm J zs =
              rw (parse_candidates, e) refl in
            rw same (ground (arith, h))
        parsed (some entry) e h =
            let same : parse_candidates R mm J (z ∷ zs)
                ≡ record { entry = entry; member = z.member; score = z.score }
                  ∷ parse_candidates R mm J zs =
              rw (parse_candidates, e) refl in
            rw same (ground (arith, h))
