-- ===== src/Queue/Join.antt =====
-- What Join and Cancel do to the queue, the in-queue set and the cancelled set.
use matchmaking.Shared.{
  ℕ, suc, String, ◌≡◌, ◌≢◌, refl, true, false, ◌||◌, ◌&&◌, not, none, some, [], ◌∷◌, arith, str_eq,
  eq_iff, length, eqb, if◌then◌else◌,
}
use matchmaking.Model.{Shard, QueueEntry}
use matchmaking.Json.{Json}
use matchmaking.Redis.{Redis, Keyspace, contains}
use matchmaking.Redis.Sets.{
  with_member-ne-nil, expire-set, contains-with_members, contains-without_members,
}
use matchmaking.Redis.Scores.{score_of, score_of-with_scored}
use matchmaking.Effects.{World, Delivery}
use matchmaking.Keys
use matchmaking.Keys.Disjoint.{cancelled-ne-in_queue}
use matchmaking.Queue.{
  JoinError, join, cancel, join_script, cancel_script, queue_shard, unix_milli, cancelled_set_ttl,
}

-- A store before and after a join: the entry's text is in the queue with its score and the player
-- is marked as queued. Every other member keeps its score, and every other queue, every other
-- player's mark, and all texts and streams stay.
pub record Joins (queue inqueue text player_id : String) (score : ℕ) (s t : Keyspace) : Type 0 where
  pub queued :
      (m : String)
      → score_of m (t.zsets queue)
        ≡ (if str_eq m text then some score else score_of m (s.zsets queue))
  pub marked :
      (p : String)
      → contains p (t.sets inqueue) ≡ (str_eq p player_id || contains p (s.sets inqueue))
  pub other_zsets : (k : String) → k ≢ queue → t.zsets k ≡ s.zsets k
  pub other_sets : (k : String) → k ≢ inqueue → t.sets k ≡ s.sets k
  pub texts : t.texts ≡ s.texts
  pub streams : t.streams ≡ s.streams

module _ (R : Redis) where
  join_script-Joins :
      (queue cancelled inqueue text player_id : String) (score : ℕ) (s : Keyspace)
      → Joins queue inqueue text player_id score s
          (join_script R queue cancelled inqueue score player_id text s).1
  unfolding join_script contains
  join_script-Joins queue cancelled inqueue text player_id score s =
      rw (R.zadd_lem, R.sadd_lem)
        (record {
          queued = λ m. ground (
            arith,
            eq_iff queue queue,
            score_of-with_scored m (record { member = text; score = score }) (s.zsets queue),
          );
          marked = λ p. ground (
            arith,
            eq_iff inqueue inqueue,
            contains-with_members p (player_id ∷ []) (s.sets inqueue),
          );
          other_zsets = λ k h. ground (arith, eq_iff queue k);
          other_sets = λ k h. ground (arith, eq_iff inqueue k);
          texts = refl;
          streams = refl;
        })

module _ (R : Redis) (J : Json) where
  -- Join never reports a pending cancellation, whatever the store holds and whatever becomes of the
  -- round trip.
  pub join-ne-player_cancelled :
      (shard : Shard) (entry : QueueEntry) (w : World)
      → (join R J shard entry w).0 ≢ some JoinError.player_cancelled
  unfolding join join_script
  join-ne-player_cancelled shard entry w e = ground arith

  join-delivered :
      (shard : Shard) (entry : QueueEntry) (text : String) (w : World)
      → J.encode_entry entry ≡ some text
      → w.net w.calls ≡ Delivery.delivered
      → let s = queue_shard shard entry in
        join R J shard entry w ≡ (
          none,
          record w {
            store =
                (join_script R
                  (Keys.queue s)
                  (Keys.cancelled s)
                  (Keys.in_queue s)
                  (unix_milli entry.enqueued_at)
                  entry.player_id
                  text
                  w.store).1;
            calls = suc w.calls;
          },
        )
  unfolding join join_script
  join-delivered shard entry text w enc ok = ground arith

  -- A delivered Join of an entry that has a text reports no error, puts it into the queue of the
  -- player's band under the time of the request, marks the player as queued, and leaves the
  -- cancelled set of that shard as it is. The code does so in every store, also where the comments
  -- of the queue client and its test TestJoinRejectedAfterCancel want ErrPlayerCancelled and no
  -- entry: when the player has a pending cancellation, which then stays beside the new entry, or is
  -- queued already.
  pub join-Joins :
      (shard : Shard) (entry : QueueEntry) (text : String) (w : World)
      → J.encode_entry entry ≡ some text
      → w.net w.calls ≡ Delivery.delivered
      → let s = queue_shard shard entry in
        let (error, v) = join R J shard entry w in
        (error ≡ none)
        × Joins
            (Keys.queue s)
            (Keys.in_queue s)
            text
            entry.player_id
            (unix_milli entry.enqueued_at)
            w.store
            v.store
        × (v.store.sets (Keys.cancelled s) ≡ w.store.sets (Keys.cancelled s))
  join-Joins shard entry text w enc ok =
      let s = queue_shard shard entry in
      let joined =
        join_script-Joins R (Keys.queue s) (Keys.cancelled s) (Keys.in_queue s) text entry.player_id
          (unix_milli entry.enqueued_at) w.store in
      rw (join-delivered shard entry text w enc ok)
        (refl, joined, joined.other_sets (Keys.cancelled s) (cancelled-ne-in_queue s))

-- A store before and after a cancellation: the player is in the cancelled set, which lives for a
-- day from now, and is not marked as queued. Everybody else's marks, every other set, and all
-- queues, texts and streams stay; so the entry itself is still in its queue.
pub record Cancels (cancelled inqueue player_id : String) (s t : Keyspace) : Type 0 where
  pub recorded :
      (p : String)
      → contains p (t.sets cancelled) ≡ (str_eq p player_id || contains p (s.sets cancelled))
  pub unmarked :
      (p : String)
      → contains p (t.sets inqueue) ≡ (contains p (s.sets inqueue) && not (str_eq p player_id))
  pub expires : t.ttls cancelled ≡ some cancelled_set_ttl
  pub other_sets : (k : String) → k ≢ cancelled → k ≢ inqueue → t.sets k ≡ s.sets k
  pub zsets : t.zsets ≡ s.zsets
  pub texts : t.texts ≡ s.texts
  pub streams : t.streams ≡ s.streams

module _ (R : Redis) where
  -- The store of a cancellation before EXPIRE.
  abbrev unexpired : String → String → String → Keyspace → Keyspace
  unexpired cancelled inqueue player_id s =
      R.srem inqueue (player_id ∷ []) (R.sadd cancelled (player_id ∷ []) s).1

  recorded_nonempty :
      (cancelled inqueue player_id : String) (s : Keyspace)
      → cancelled ≢ inqueue
      → eqb 0 (length ((unexpired cancelled inqueue player_id s).sets cancelled)) ≡ false
  recorded_nonempty cancelled inqueue player_id s d =
      rw (R.srem_lem, R.sadd_lem)
        (ground (
          arith,
          with_member-ne-nil player_id (s.sets cancelled),
          eq_iff cancelled cancelled,
          eq_iff inqueue cancelled,
        ))

  cancel_script-Cancels :
      (cancelled inqueue player_id : String) (s : Keyspace)
      → cancelled ≢ inqueue
      → Cancels cancelled inqueue player_id s
          (cancel_script R cancelled inqueue player_id cancelled_set_ttl s).1
  unfolding cancel_script contains
  cancel_script-Cancels cancelled inqueue player_id s d =
      rw
        (
          expire-set R cancelled cancelled_set_ttl (unexpired cancelled inqueue player_id s)
              (recorded_nonempty cancelled inqueue player_id s d),
          R.srem_lem,
          R.sadd_lem,
        )
        (record {
          recorded = λ p. ground (
            arith,
            eq_iff cancelled cancelled,
            eq_iff inqueue cancelled,
            contains-with_members p (player_id ∷ []) (s.sets cancelled),
          );
          unmarked = λ p. ground (
            arith,
            eq_iff inqueue inqueue,
            eq_iff cancelled inqueue,
            contains-without_members p (player_id ∷ []) (s.sets inqueue),
          );
          expires = ground (arith, eq_iff cancelled cancelled);
          other_sets = λ k c q. ground (arith, eq_iff cancelled k, eq_iff inqueue k);
          zsets = refl;
          texts = refl;
          streams = refl;
        })

  cancel-delivered :
      (shard : Shard) (player_id : String) (w : World)
      → w.net w.calls ≡ Delivery.delivered
      → cancel R shard player_id w ≡ (
        true,
        record w {
          store =
              (cancel_script R
                (Keys.cancelled shard)
                (Keys.in_queue shard)
                player_id
                cancelled_set_ttl
                w.store).1;
          calls = suc w.calls;
        },
      )
  unfolding cancel
  cancel-delivered shard player_id w ok = ground arith

  -- A delivered Cancel reports no error and records the cancellation.
  pub cancel-Cancels :
      (shard : Shard) (player_id : String) (w : World)
      → w.net w.calls ≡ Delivery.delivered
      → ((cancel R shard player_id w).0 ≡ true)
        × Cancels
            (Keys.cancelled shard)
            (Keys.in_queue shard)
            player_id
            w.store
            (cancel R shard player_id w).1.store
  cancel-Cancels shard player_id w ok =
      rw (cancel-delivered shard player_id w ok)
        (refl, cancel_script-Cancels _ _ player_id w.store (cancelled-ne-in_queue shard))
