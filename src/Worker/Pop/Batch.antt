-- ===== src/Worker/Pop/Batch.antt =====
-- The steps of popOnce that handle one batch, when every round trip is delivered.
use matchmaking.Shared.{
  ℕ, suc, ◌<◌, String, ◌≡◌, refl, Bool, not, ◌&&◌, List, [], ◌∷◌, ◌++◌, arith, length, keep, take,
  eq_iff,
}
use matchmaking.Json.{Json}
use matchmaking.Redis.{Redis, Keyspace, contains, contains_each}
use matchmaking.Redis.Scores.{IsUnique}
use matchmaking.Redis.Sets.{contains-without_members}
use matchmaking.Redis.Frames.{zsets-srem, sets-srem}
use matchmaking.Effects.{World, call, command, delivered, IsReliable, query-delivered}
use matchmaking.Keys
use matchmaking.Keys.Disjoint.{queue-ne-processing}
use matchmaking.Worker.Select.{BufferedEntry}
use matchmaking.Worker.Scripts.Recovery.{popped, pop_to_processing_script_lem}
use matchmaking.Worker.Pop.{
  MatchMaker, returned, pop_batch_size, player_ids, pop_batch, split_cancelled, uncancel,
  form_matches, admit,
}

-- The entry's player is in a cancelled set.
abbrev pub is_cancelled : List String → BufferedEntry → Bool
is_cancelled ys be = contains be.entry.player_id ys

abbrev pub is_live : List String → BufferedEntry → Bool
is_live ys be = not (is_cancelled ys be)

module _ (R : Redis) (mm : MatchMaker) where
  -- The flags of the server split the candidates by the cancelled set.
  pub split_cancelled-eq :
      (cs : List BufferedEntry) (ys : List String)
      → split_cancelled R mm cs (contains_each (player_ids cs) ys)
        ≡ (keep (is_live ys) cs, player_ids (keep (is_cancelled ys) cs))
  unfolding split_cancelled contains_each
  split_cancelled-eq [] ys = refl
  split_cancelled-eq (c ∷ cs) ys = ground (arith, split_cancelled-eq cs ys)

  unfoldable pub popped_store : World → Keyspace
  popped_store w = popped R (Keys.queue mm.shard) (Keys.processing mm.shard) pop_batch_size w.store

  pub popped_store-sets :
      (w : World)
      → IsUnique (w.store.zsets (Keys.queue mm.shard))
      → (popped_store w).sets ≡ w.store.sets
  unfolding popped_store
  popped_store-sets w u =
      (pop_to_processing_script_lem R (Keys.queue mm.shard) (Keys.processing mm.shard)
        (queue-ne-processing mm.shard) pop_batch_size w.store u).3

  -- The length of a batch is that of the head of the queue.
  pub pop_batch-delivered :
      (w : World)
      → IsUnique (w.store.zsets (Keys.queue mm.shard))
      → w.net w.calls ≡ delivered
      → pop_batch R mm w ≡ (
        take pop_batch_size (w.store.zsets (Keys.queue mm.shard)),
        record w { store = popped_store w; calls = suc w.calls },
      )
  unfolding pop_batch popped_store popped
  pop_batch-delivered w u ok = ground (
    arith,
    (pop_to_processing_script_lem R (Keys.queue mm.shard) (Keys.processing mm.shard)
        (queue-ne-processing mm.shard) pop_batch_size w.store u).0,
  )

  -- Clearing the discarded players from the cancelled set.
  pub uncancel-sets :
      (ps : List String) (w : World)
      → IsReliable w
      → (p : String)
      → contains p ((uncancel R mm ps w).1.store.sets (Keys.cancelled mm.shard))
        ≡ (contains p (w.store.sets (Keys.cancelled mm.shard)) && not (contains p ps))
  unfolding uncancel command call contains
  uncancel-sets [] w ok p = ground arith
  uncancel-sets (q ∷ ps) w ok p =
      rw (ok w.calls, call)
        (ground (
          arith,
          sets-srem R (Keys.cancelled mm.shard) (q ∷ ps) w.store (Keys.cancelled mm.shard),
          eq_iff (Keys.cancelled mm.shard) (Keys.cancelled mm.shard),
          contains-without_members p (q ∷ ps) (w.store.sets (Keys.cancelled mm.shard)),
        ))

  pub uncancel-zsets :
      (ps : List String) (w : World)
      → IsReliable w
      → (uncancel R mm ps w).1.store.zsets ≡ w.store.zsets
  unfolding uncancel command call
  uncancel-zsets [] w ok = refl
  uncancel-zsets (q ∷ ps) w ok =
      ground (arith, ok w.calls, zsets-srem R (Keys.cancelled mm.shard) (q ∷ ps) w.store)

  pub form_matches-small :
      (J : Json) (fuel : ℕ) (buffer : List BufferedEntry) (w : World)
      → length buffer < mm.match_size
      → form_matches R mm J (suc fuel) buffer w ≡ (returned buffer, w)
  unfolding form_matches
  form_matches-small J fuel buffer w small = ground arith

  pub admit_small :
      (J : Json) (buffer cs : List BufferedEntry) (w : World)
      → IsReliable w
      → let ys = w.store.sets (Keys.cancelled mm.shard) in
        length (buffer ++ keep (is_live ys) cs) < mm.match_size
        → admit R mm J buffer cs w ≡ (
          returned (buffer ++ keep (is_live ys) cs),
          (uncancel R mm
              (player_ids (keep (is_cancelled ys) cs))
              (record w { calls = suc w.calls })).1,
        )
  unfolding admit
  admit_small J buffer cs w ok small =
      rw
        (
          query-delivered (R.smismember (Keys.cancelled mm.shard) (player_ids cs)) w (ok w.calls),
          R.smismember_lem,
          split_cancelled-eq,
        )
        (form_matches-small J _ _ _ small)

  pub split_sizes :
      (ys : List String) (cs : List BufferedEntry) (p : String)
      → (contains p ys && not (contains p (player_ids (keep (is_cancelled ys) cs))))
        ≡ (contains p ys && not (contains p (player_ids cs)))
  unfolding contains
  split_sizes ys [] p = refl
  split_sizes ys (c ∷ cs) p = ground (arith, split_sizes ys cs p, eq_iff p c.entry.player_id)
