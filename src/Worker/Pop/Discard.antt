-- ===== src/Worker/Pop/Discard.antt =====
-- What popOnce does with the entries of cancelled players, and with the errors of its batch.
use matchmaking.Shared.{
  subst, suc, ◌<◌, String, ◌≡◌, ◌≢◌, refl, ◌∙◌, true, false, not, ◌&&◌, List, [], ◌∷◌, ◌++◌, arith,
  length, keep, take,
}
use mathlib.Core.List.{append-nil}
use matchmaking.Json.{Json}
use matchmaking.Redis.{Redis, contains}
use matchmaking.Redis.Scores.{score_of, IsUnique}
use matchmaking.Effects.{World, delivered, reply_lost, IsReliable}
use matchmaking.Keys
use matchmaking.Keys.Disjoint.{processing-ne-cancelled, queue-ne-processing}
use matchmaking.Worker.Select.{BufferedEntry}
use matchmaking.Worker.Scripts.Recovery.{
  IsUnique-popped, drain_processing_script_lem, sets-drained_ne, popped, drained, drained-popped,
}
use matchmaking.Worker.Pop.{
  MatchMaker, returned, pop_batch_size, player_ids, pop_batch, parse_candidates, with_candidates,
  pop_once,
}
use matchmaking.Worker.Pop.Batch.{
  is_cancelled, is_live, popped_store, popped_store-sets, pop_batch-delivered, uncancel-sets,
  uncancel-zsets, admit_small, split_sizes,
}

-- The store of a worker between two calls of popOnce: every member of its queue stands once, and
-- every round trip arrives.
pub record IsQuiet (mm : MatchMaker) (w : World) : Type 0 where
  pub unique : IsUnique (w.store.zsets (Keys.queue mm.shard))
  pub reliable : IsReliable w

module _ (R : Redis) (mm : MatchMaker) (J : Json) where
  abbrev pub batch : World → List BufferedEntry
  batch w = parse_candidates R mm J (take pop_batch_size (w.store.zsets (Keys.queue mm.shard)))

  with_candidates_small :
      (buffer cs : List BufferedEntry) (w : World)
      → IsReliable w
      → let ys = w.store.sets (Keys.cancelled mm.shard) in
        let after = (with_candidates R mm J buffer cs w).1.store in
        length (buffer ++ keep (is_live ys) cs) < mm.match_size
        → ((with_candidates R mm J buffer cs w).0 ≡ returned (buffer ++ keep (is_live ys) cs))
          × (after.zsets ≡ w.store.zsets)
          × ((p : String)
              → contains p (after.sets (Keys.cancelled mm.shard))
                ≡ (contains p ys && not (contains p (player_ids cs))))
  unfolding with_candidates contains
  with_candidates_small buffer [] w ok small =
      (ground (arith, append-nil buffer), refl, λ p. ground arith)
  with_candidates_small buffer (c ∷ cs) w ok small =
      let ys = w.store.sets (Keys.cancelled mm.shard) in
      let dropped = player_ids (keep (is_cancelled ys) (c ∷ cs)) in
      let v : World = record w { calls = suc w.calls } in
      rw (admit_small R mm J buffer (c ∷ cs) w ok small) (
        refl,
        uncancel-zsets R mm dropped v ok,
        λ p. uncancel-sets R mm dropped v ok p ∙ split_sizes R mm ys (c ∷ cs) p,
      )

  -- When every member stands once in the queue and every round trip is delivered, a popOnce whose
  -- buffer stays too short for a match keeps the candidates that are not cancelled. The batch,
  -- cancelled or not, is in processing; and the players of its entries are no longer in the
  -- cancelled set.
  pub pop_once_small :
      (buffer : List BufferedEntry) (w : World)
      → IsQuiet mm w
      → let ys = w.store.sets (Keys.cancelled mm.shard) in
        let after = (pop_once R mm J buffer w).1.store in
        length (buffer ++ keep (is_live ys) (batch w)) < mm.match_size
        → ((pop_once R mm J buffer w).0 ≡ returned (buffer ++ keep (is_live ys) (batch w)))
          × (after.zsets
              ≡ (popped R
                  (Keys.queue mm.shard)
                  (Keys.processing mm.shard)
                  pop_batch_size
                  w.store).zsets)
          × ((p : String)
              → contains p (after.sets (Keys.cancelled mm.shard))
                ≡ (contains p ys && not (contains p (player_ids (batch w)))))
  unfolding pop_once
  pop_once_small buffer w quiet small =
      let v : World = record w { store = popped_store R mm w; calls = suc w.calls } in
      let same : (popped_store R mm w).sets ≡ w.store.sets =
        popped_store-sets R mm w quiet.unique in
      rw (pop_batch-delivered R mm w quiet.unique (quiet.reliable w.calls)) (
        subst
          (λ (sets : String → List String).
            length (buffer ++ keep (is_live (sets (Keys.cancelled mm.shard))) (batch w))
              < mm.match_size
            → ((with_candidates R mm J buffer (batch w) v).0
                ≡ returned (buffer ++ keep (is_live (sets (Keys.cancelled mm.shard))) (batch w)))
              × ((with_candidates R mm J buffer (batch w) v).1.store.zsets
                  ≡ (popped R (Keys.queue mm.shard) (Keys.processing mm.shard) pop_batch_size
                      w.store).zsets)
              × ((p : String)
                  → contains p (
                      (with_candidates R mm J buffer (batch w) v).1.store.sets
                        (Keys.cancelled mm.shard))
                    ≡ (contains p (sets (Keys.cancelled mm.shard))
                        && not (contains p (player_ids (batch w))))))
          same (unfold popped_store in with_candidates_small buffer (batch w) v quiet.reliable)
          small)

  -- When a worker discards the entries of cancelled players and is restarted, they are back: if
  -- every member stood once in the queue, every round trip is delivered and nothing was in
  -- processing before a popOnce whose buffer stays too short for a match, draining the processing
  -- set afterwards puts every entry of the queue back under its old score, and the players of the
  -- batch, the cancelled ones too, are no longer in the cancelled set.
  pub drained-pop_once :
      (buffer : List BufferedEntry) (w : World)
      → IsQuiet mm w
      → w.store.zsets (Keys.processing mm.shard) ≡ []
      → length (buffer ++ keep (is_live (w.store.sets (Keys.cancelled mm.shard))) (batch w))
        < mm.match_size
      → let t =
          drained R
            (Keys.queue mm.shard)
            (Keys.processing mm.shard)
            (pop_once R mm J buffer w).1.store in
        ((m : String)
          → score_of m (t.zsets (Keys.queue mm.shard))
            ≡ score_of m (w.store.zsets (Keys.queue mm.shard)))
        × ((p : String)
            → contains p (player_ids (batch w)) ≡ true
            → contains p (t.sets (Keys.cancelled mm.shard)) ≡ false)
  drained-pop_once buffer w quiet none_yet small =
      let queue = Keys.queue mm.shard in
      let processing = Keys.processing mm.shard in
      let apart = queue-ne-processing mm.shard in
      let after = (pop_once R mm J buffer w).1.store in
      let p24 = popped R queue processing pop_batch_size w.store in
      let (_, zs, cleared) = pop_once_small buffer w quiet small in
      let unique : IsUnique (after.zsets processing) =
        rw zs (IsUnique-popped R queue processing apart pop_batch_size w.store (rw none_yet tt)) in
      let (_, back) = drain_processing_script_lem R queue processing apart after unique in
      let (_, same) =
        drained-popped R queue processing apart pop_batch_size w.store quiet.unique none_yet in
      let (_, back24) =
        drain_processing_script_lem R queue processing apart p24
          (IsUnique-popped R queue processing apart pop_batch_size w.store (rw none_yet tt)) in
      (
        (λ m. ground (arith, back m, zs, back24 m, same m)),
        λ p i. ground (
          arith,
          sets-drained_ne R queue processing apart after (Keys.cancelled mm.shard)
              (processing-ne-cancelled mm.shard),
          cleared p,
        ),
      )

  -- popOnce takes the error of a batch that is not delivered for an empty queue: it reports none
  -- and keeps its buffer. If only the reply was lost, the batch is in processing all the same.
  pub pop_once_lost :
      (buffer : List BufferedEntry) (w : World)
      → w.net w.calls ≢ delivered
      → ((pop_once R mm J buffer w).0 ≡ returned buffer)
        × (w.net w.calls ≡ reply_lost
            → (pop_once R mm J buffer w).1.store
              ≡ popped R (Keys.queue mm.shard) (Keys.processing mm.shard) pop_batch_size w.store)
  unfolding pop_once parse_candidates with_candidates pop_batch popped
  pop_once_lost buffer w lost = (ground (arith, lost), λ r. ground arith)
