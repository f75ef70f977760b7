-- ===== src/Worker/Start/Recovers.antt =====
-- A worker that starts after a crash: MatchMaker.Run of internal/worker/worker.go.
use matchmaking.Shared.{
  leb, not, ◌&&◌, ℕ, suc, String, ◌≡◌, refl, ap, ◌∙◌, sym, subst, Bool, true, Option, none, some,
  List, [], arith, eq_iff, length, Bool-cases, inl, inr,
}
use matchmaking.Json.{Json}
use matchmaking.Redis.{Redis, Keyspace, put}
use matchmaking.Redis.Groups.{Groups, Group}
use matchmaking.Redis.Scores.{score_of, or_else, IsUnique}
use matchmaking.Effects.{answered, World, Delivery, delivered, call-delivered}
use matchmaking.Keys
use matchmaking.Keys.Disjoint.{queue-ne-processing, processing-ne-shard_lock}
use matchmaking.Worker.Scripts.{drain_processing_script}
use matchmaking.Worker.Scripts.Lock.{lock_ttl}
use matchmaking.Worker.Scripts.Recovery.{drained, drain_processing_script_lem, texts-drained_ne}
use matchmaking.Worker.Pop.{MatchMaker}
use matchmaking.Worker.Owner.{Held, held, held_of_bool, attempt_lock, drain_processing}
use matchmaking.Worker.Stream.{
  Consumer, Claim, claimed, trip, trip_as, ensure_stream_group, claim_stale_stream_entries,
}
use matchmaking.Worker.Stream.Keeps.{IsRecorded}
use matchmaking.Redis.Groups.{contains_id}
use matchmaking.Worker.Stream.Ascending.{IsAscending}
use matchmaking.Worker.Stream.Recorded.{IsReliable, is_decodable}
use matchmaking.Worker.Stream.Reclaimed.{Reclaims, claim_stale_stream_entries-Reclaims}
use matchmaking.Worker.Start.{
  Process, Started, running, after_attempt, acquire_shard_lock, drain, after_drain, after_claiming,
  claim_stale, after_group, prepare_stream, after_lock, start,
}

put_self : {A : Type 0} (f : String → A) (k : String) (v : A) → put f k v k ≡ v
put_self f k v = ground (arith, eq_iff k k)

zero_least : (i : ℕ) → leb 0 i ≡ true
zero_least i = ground arith

module _ (R : Redis) (mm : MatchMaker) (G : Groups) (J : Json) (data_of : ℕ → Option String) where
  -- The world once the lock was free and has been taken.
  abbrev locked : World → World
  locked w = record w {
    store = record w.store {
      texts = put w.store.texts (Keys.shard_lock mm.shard) (some mm.worker_id);
      ttls = put w.store.ttls (Keys.shard_lock mm.shard) (some lock_ttl);
    };
    calls = suc w.calls;
  }

  set_nx_free :
      (s : Keyspace)
      → s.texts (Keys.shard_lock mm.shard) ≡ none
      → R.set_nx (Keys.shard_lock mm.shard) mm.worker_id lock_ttl s ≡ (
        true,
        record s {
          texts = put s.texts (Keys.shard_lock mm.shard) (some mm.worker_id);
          ttls = put s.ttls (Keys.shard_lock mm.shard) (some lock_ttl);
        },
      )
  set_nx_free s free = rw (R.set_nx_lem, free)

  acquire_shard_lock-free :
      (tries : ℕ) (w : World)
      → ((n : ℕ) → w.net n ≡ delivered)
      → w.store.texts (Keys.shard_lock mm.shard) ≡ none
      → acquire_shard_lock R mm (suc tries) w ≡ (held, locked w)
  unfolding acquire_shard_lock attempt_lock held_of_bool after_attempt
  acquire_shard_lock-free tries w ok free =
      ap
        (λ (q : Option Bool × World).
          after_attempt R mm (acquire_shard_lock R mm tries) (held_of_bool R mm q.0) q.1)
        (call-delivered (R.set_nx (Keys.shard_lock mm.shard) mm.worker_id lock_ttl) w (ok w.calls))
      ∙ ap
          (λ (q : Bool × Keyspace).
            after_attempt R mm (acquire_shard_lock R mm tries) (held_of_bool R mm (some q.0))
              (record w { store = q.1; calls = suc w.calls }))
          (set_nx_free w.store free)

  -- The consumer once the group is sure to be there.
  abbrev grouped : Consumer → Consumer
  grouped c = record c { group = (G.create c.group).1; calls = suc c.calls }

  ensure_stream_group-answered :
      (c : Consumer) → IsReliable c → ensure_stream_group G J data_of c ≡ (true, grouped c)
  unfolding ensure_stream_group trip
  ensure_stream_group-answered c ok =
      ap (λ (d : Delivery). let (reply, v) = trip_as d G.create c in (answered reply, v))
        (ok.0 c.calls)

  pending-create : (g : Group) → (G.create g).1.pending ≡ g.pending
  pending-create g = elim (Bool-cases g.created) [
    | inl e ↦ rw (G.create_lem g, e)
    | inr e ↦ rw (G.create_lem g, e)
  ]

  abbrev emptied : World → World
  emptied w = record w {
    store = drained R (Keys.queue mm.shard) (Keys.processing mm.shard) w.store;
    calls = suc w.calls;
  }

  drain-delivered :
      (p : Process)
      → ((n : ℕ) → p.world.net n ≡ delivered)
      → drain R mm G J data_of p ≡ (running, record p { world = emptied p.world })
  unfolding drain drain_processing after_drain drained
  drain-delivered p ok =
      ap
        (λ (q : Option ℕ × World).
          after_drain R mm G J data_of (answered q.0) (record p { world = q.1 }))
        (call-delivered (drain_processing_script R (Keys.processing mm.shard) (Keys.queue mm.shard))
          p.world (ok p.world.calls))

  abbrev claimed_by : Process → Process
  claimed_by p = record p {
    consumer =
        (claim_stale_stream_entries G J data_of (suc (length p.consumer.group.pending))
          p.consumer).1;
  }

  claim_stale-claimed :
      (p : Process)
      → (claim_stale_stream_entries G J data_of
          (suc (length p.consumer.group.pending))
          p.consumer).0
        ≡ claimed
      → claim_stale R mm G J data_of p ≡ drain R mm G J data_of (claimed_by p)
  unfolding claim_stale after_claiming
  claim_stale-claimed p e = ap (λ (r : Claim). after_claiming R mm G J data_of r (claimed_by p)) e

  claims :
      (p : Process)
      → IsReliable p.consumer
      → IsAscending p.consumer.group.pending
      → let c = grouped p.consumer in
        let (r, v) = claim_stale_stream_entries G J data_of (suc (length c.group.pending)) c in
        Reclaims G J data_of 0 c r v
  claims p ok asc =
      claim_stale_stream_entries-Reclaims G J data_of (grouped p.consumer) ok
        (subst IsAscending (sym (pending-create p.consumer.group)) asc)

  -- A process before and after a start. It runs its loops and owns the shard. Nothing is in
  -- processing: every entry that was there is in the queue with its score, and the other entries
  -- of the queue keep theirs. Every entry of the stream that was pending and holds a match is
  -- acknowledged and on record; the others are still pending.
  pub record Recovers (p : Process) (r : Started) (q : Process) : Type 0 where
    pub runs : r ≡ running
    pub owns : q.world.store.texts (Keys.shard_lock mm.shard) ≡ some mm.worker_id
    pub none_in_flight : q.world.store.zsets (Keys.processing mm.shard) ≡ []
    pub queued :
        (m : String)
        → score_of m (q.world.store.zsets (Keys.queue mm.shard))
          ≡ or_else
              (score_of m (p.world.store.zsets (Keys.processing mm.shard)))
              (score_of m (p.world.store.zsets (Keys.queue mm.shard)))
    pub left :
        (i : ℕ)
        → contains_id i q.consumer.group.pending
          ≡ (contains_id i p.consumer.group.pending && not (is_decodable G J data_of i))
    pub recorded :
        (i : ℕ)
        → contains_id i p.consumer.group.pending ≡ true
        → is_decodable G J data_of i ≡ true
        → IsRecorded G J data_of i q.consumer.store.database

  abbrev stream_ready : Process → Process
  stream_ready p = record p { world = locked p.world; consumer = grouped p.consumer }

  abbrev recovered : Process → Process
  recovered p = record (claimed_by (stream_ready p)) { world = emptied (locked p.world) }

  start-eq :
      (tries : ℕ) (p : Process)
      → mm.has_store ≡ true
      → ((n : ℕ) → p.world.net n ≡ delivered)
      → IsReliable p.consumer
      → p.world.store.texts (Keys.shard_lock mm.shard) ≡ none
      → IsAscending p.consumer.group.pending
      → start R mm G J data_of (suc tries) p ≡ (running, recovered p)
  unfolding start after_lock prepare_stream after_group
  start-eq tries p stored net ok free asc =
      let p1 : Process = record p { world = locked p.world } in
      ap (λ (q : Held × World). after_lock R mm G J data_of q.0 (record p { world = q.1 }))
        (acquire_shard_lock-free tries p.world net free)
      ∙ ap (λ (b : Bool). prepare_stream R mm G J data_of b p1) stored
      ∙ ap
          (λ (q : Bool × Consumer). after_group R mm G J data_of q.0 (record p1 { consumer = q.1 }))
          (ensure_stream_group-answered p.consumer ok)
      ∙ claim_stale-claimed (stream_ready p) (claims p ok asc).ended
      ∙ drain-delivered (claimed_by (stream_ready p)) net

  -- A worker with a store that finds its shard lock free, when every round trip is answered, every
  -- member stands once in processing and the pending entries of the stream are in order, starts: it
  -- owns the shard and runs its loops. Nothing is in processing then: every entry that was there is
  -- in the queue with its score, and the other entries of the queue keep theirs. Every pending
  -- entry of the stream that holds a match is acknowledged and its match has a row; the others are
  -- still pending.
  pub start-Recovers :
      (tries : ℕ) (p : Process)
      → mm.has_store ≡ true
      → ((n : ℕ) → p.world.net n ≡ delivered)
      → IsReliable p.consumer
      → p.world.store.texts (Keys.shard_lock mm.shard) ≡ none
      → IsUnique (p.world.store.zsets (Keys.processing mm.shard))
      → IsAscending p.consumer.group.pending
      → let (r, q) = start R mm G J data_of (suc tries) p in Recovers p r q
  start-Recovers tries p stored net ok free unique asc =
      let done = claims p ok asc in
      let same = pending-create p.consumer.group in
      let (empty, back) =
        drain_processing_script_lem R (Keys.queue mm.shard) (Keys.processing mm.shard)
          (queue-ne-processing mm.shard) (locked p.world).store unique in
      rw (start-eq tries p stored net ok free asc) (record {
        runs = refl;
        owns =
            texts-drained_ne R (Keys.queue mm.shard) (Keys.processing mm.shard)
              (queue-ne-processing mm.shard) (locked p.world).store (Keys.shard_lock mm.shard)
              (processing-ne-shard_lock mm.shard)
            ∙ put_self p.world.store.texts (Keys.shard_lock mm.shard) (some mm.worker_id);
        none_in_flight = empty;
        queued = back;
        left = λ i.
            done.left i
            ∙ ap (λ (l : List ℕ). contains_id i l && not (leb 0 i && is_decodable G J data_of i))
                same
            ∙ ap
                (λ b.
                  contains_id i p.consumer.group.pending && not (b && is_decodable G J data_of i))
                (zero_least i);
        recorded = λ i c d. done.recorded i (ap (contains_id i) same ∙ c) (zero_least i) d;
      })
