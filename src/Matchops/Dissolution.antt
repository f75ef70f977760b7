-- ===== src/Matchops/Dissolution.antt =====
-- Dissolve as a whole, when every round trip is delivered: the store, the event and the goroutines.
use mathlib.Core.List.{append-nil}
use matchmaking.Shared.{
  subst, ℕ, suc, String, ◌≡◌, ◌⊎◌, refl, sym, ap, ◌∙◌, subst, Bool, true, false, Option, some, List,
  [], ◌∷◌, ◌++◌, inl, inr,
}
use matchmaking.Model.{Time, Match}
use matchmaking.Json.{Json}
use matchmaking.Redis.{Redis, Keyspace}
use matchmaking.Effects.{
  World, Task, IsReliable, call-delivered, publish-delivered, match_dissolved, mark_match_dissolved,
}
use matchmaking.Keys
use matchmaking.Matchops.{
  match_ttl, dissolve, dissolve_found, dissolve_with, after_dissolve, requeue_args,
}
use matchmaking.Matchops.Scripts.{is_forming, Requeue, dissolve_script}
use matchmaking.Matchops.Scripts.Requeued.{Dissolves, dissolve_script-Dissolves}
use matchmaking.Matchops.Handlers.{
  keys_of, keys_of-AreApart, IsIdle, IsOnRecord, read_match-delivered,
}

-- The goroutines that Dissolve starts.
abbrev pub dissolve_tasks : Bool → String → Time → List Task
dissolve_tasks true match_id at = mark_match_dissolved match_id at ∷ []
dissolve_tasks false match_id at = []

module _ (R : Redis) (J : Json) (has_store : Bool) (match_id : String) (match : Match) where
  after_dissolve-one :
      (has_store : Bool) (w : World)
      → IsReliable w
      → let v = (after_dissolve R J has_store match_id match (some 1) w).1 in
        (v.store ≡ w.store)
        × (v.published ≡ w.published ++ match_dissolved match_id match.player_ids ∷ [])
        × (v.tasks ≡ w.tasks ++ dissolve_tasks has_store match_id (w.clock w.reads))
  unfolding after_dissolve
  after_dissolve-one true w ok =
      rw (publish-delivered (match_dissolved match_id match.player_ids) w (ok w.calls))
        (refl, refl, refl)
  after_dissolve-one false w ok =
      rw (publish-delivered (match_dissolved match_id match.player_ids) w (ok w.calls))
        (refl, refl, sym (append-nil w.tasks))

  dissolve-runs :
      (declined : String) (entries : List Requeue) (w : World)
      → IsReliable w
      → IsOnRecord J match_id match w.store
      → requeue_args R J match.entries ≡ some entries
      → let k = keys_of match_id match.shard in
        let (answer, t) =
          dissolve_script R J k.status_key k.match_key k.forming k.queue k.cancelled k.inqueue
            match_ttl match_id declined entries w.store in
        dissolve R J has_store match_id declined w
        ≡ after_dissolve R J has_store match_id match
            (some answer)
            (record w { store = t; calls = suc (suc w.calls) })
  unfolding dissolve dissolve_found dissolve_with
  dissolve-runs declined entries w ok r args =
      let k = keys_of match_id match.shard in
      let v : World = record w { calls = suc w.calls } in
      ap (λ (q : Option Match × World). dissolve_found R J has_store match_id declined q.0 q.1)
        (read_match-delivered R J match_id match w ok r)
      ∙ ap (λ q. dissolve_with R J has_store match_id declined match q v) args
      ∙ ap (λ (q : Option ℕ × World). after_dissolve R J has_store match_id match q.0 q.1)
          (call-delivered
            (dissolve_script R J k.status_key k.match_key k.forming k.queue k.cancelled k.inqueue
              match_ttl match_id declined entries)
            v (ok (suc w.calls)))

  -- When every round trip is delivered, the match is on record and its entries have texts, Dissolve
  -- of a forming match dissolves it in the store, publishes one event and, if there is a store,
  -- starts the goroutine that persists it; Dissolve of any other match does nothing.
  pub dissolve-Dissolves :
      (declined : String) (entries : List Requeue) (w : World)
      → IsReliable w
      → IsOnRecord J match_id match w.store
      → requeue_args R J match.entries ≡ some entries
      → let v = (dissolve R J has_store match_id declined w).1 in
        ((is_forming (w.store.texts (Keys.match_status_key match_id)) ≡ true)
          × Dissolves J (keys_of match_id match.shard) match_id declined entries w.store v.store
          × (v.published ≡ w.published ++ match_dissolved match_id match.player_ids ∷ [])
          × (v.tasks ≡ w.tasks ++ dissolve_tasks has_store match_id (w.clock w.reads)))
        ⊎ ((is_forming (w.store.texts (Keys.match_status_key match_id)) ≡ false) × IsIdle w v)
  dissolve-Dissolves declined entries w ok r args =
      let k = keys_of match_id match.shard in
      let v : World = record w { calls = suc w.calls } in
      let script : Keyspace → ℕ × Keyspace =
        dissolve_script R J k.status_key k.match_key k.forming k.queue k.cancelled k.inqueue
          match_ttl match_id declined entries in
      elim (dissolve_script-Dissolves R J k match_id match_ttl
        (keys_of-AreApart match_id match.shard) declined entries w.store) [
          | inl (forming, one, dissolved) ↦
              let u : World = record v { store = (script w.store).1; calls = suc v.calls } in
              let (store, event, started) = after_dissolve-one has_store u ok in
              rw (dissolve-runs declined entries w ok r args, one)
                (inl (
                  forming,
                  subst (Dissolves J k match_id declined entries w.store) (sym store) dissolved,
                  event,
                  started,
                ))
          | inr (idle, same) ↦
              rw (dissolve-runs declined entries w ok r args, same)
                (unfold after_dissolve in
                  inr
                    (idle, record { same_store = refl; same_published = refl; same_tasks = refl }))
        ]
