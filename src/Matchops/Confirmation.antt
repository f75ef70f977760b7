-- ===== src/Matchops/Confirmation.antt =====
-- Confirm as a whole, when every round trip is delivered: the store, the event and the goroutines.
use mathlib.Core.List.{append_assoc}
use matchmaking.Shared.{
  subst, ℕ, suc, String, ◌≡◌, ◌⊎◌, refl, sym, ap, ◌∙◌, subst, Bool, true, false, Option, some, List,
  [], ◌∷◌, ◌++◌, inl, inr,
}
use matchmaking.Model.{Time, Match}
use matchmaking.Json.{Json}
use matchmaking.Redis.{Redis, Keyspace}
use matchmaking.Effects.{
  World, Task, IsReliable, call-delivered, publish-delivered, match_confirmed, mark_match_confirmed,
  allocate_server,
}
use matchmaking.Keys
use matchmaking.Matchops.{match_ttl, confirm, confirm_found, after_confirm}
use matchmaking.Matchops.Scripts.{is_forming, confirm_script}
use matchmaking.Matchops.Scripts.Confirmed.{Confirms, confirm_script-Confirms}
use matchmaking.Matchops.Handlers.{
  keys_of, keys_of-AreApart, IsIdle, IsOnRecord, read_match-delivered,
}

-- The goroutines that Confirm starts.
abbrev pub confirm_tasks : Bool → String → Time → List String → List Task
confirm_tasks true match_id at player_ids =
    mark_match_confirmed match_id at ∷ allocate_server match_id player_ids ∷ []
confirm_tasks false match_id at player_ids = allocate_server match_id player_ids ∷ []

module _ (R : Redis) (J : Json) (has_store : Bool) (match_id : String) (match : Match) where
  after_confirm-one :
      (has_store : Bool) (w : World)
      → IsReliable w
      → let v = (after_confirm R J has_store match_id match (some 1) w).1 in
        (v.store ≡ w.store)
        × (v.published ≡ w.published ++ match_confirmed match_id match.player_ids ∷ [])
        × (v.tasks ≡ w.tasks ++ confirm_tasks has_store match_id (w.clock w.reads) match.player_ids)
  unfolding after_confirm
  after_confirm-one true w ok =
      rw (publish-delivered (match_confirmed match_id match.player_ids) w (ok w.calls))
        (refl, refl, append_assoc w.tasks _ _)
  after_confirm-one false w ok =
      rw (publish-delivered (match_confirmed match_id match.player_ids) w (ok w.calls))
        (refl, refl, refl)

  confirm-runs :
      (w : World)
      → IsReliable w
      → IsOnRecord J match_id match w.store
      → let k = keys_of match_id match.shard in
        let (answer, t) =
          confirm_script R J k.status_key k.match_key k.forming k.inqueue match_ttl match_id
            match.player_ids w.store in
        confirm R J has_store match_id w
        ≡ after_confirm R J has_store match_id match
            (some answer)
            (record w { store = t; calls = suc (suc w.calls) })
  unfolding confirm confirm_found
  confirm-runs w ok r =
      let k = keys_of match_id match.shard in
      ap (λ (q : Option Match × World). confirm_found R J has_store match_id q.0 q.1)
        (read_match-delivered R J match_id match w ok r)
      ∙ ap (λ (q : Option ℕ × World). after_confirm R J has_store match_id match q.0 q.1)
          (call-delivered
            (confirm_script R J k.status_key k.match_key k.forming k.inqueue match_ttl match_id
              match.player_ids)
            (record w { calls = suc w.calls }) (ok (suc w.calls)))

  -- When every round trip is delivered and the match is on record, Confirm of a forming match
  -- confirms it in the store, publishes one event and starts the goroutine that allocates a server
  -- and, if there is a store, the one that persists it; Confirm of any other match does nothing.
  pub confirm-Confirms :
      (w : World)
      → IsReliable w
      → IsOnRecord J match_id match w.store
      → let v = (confirm R J has_store match_id w).1 in
        ((is_forming (w.store.texts (Keys.match_status_key match_id)) ≡ true)
          × Confirms J (keys_of match_id match.shard) match_id match.player_ids w.store v.store
          × (v.published ≡ w.published ++ match_confirmed match_id match.player_ids ∷ [])
          × (v.tasks
              ≡ w.tasks ++ confirm_tasks has_store match_id (w.clock w.reads) match.player_ids))
        ⊎ ((is_forming (w.store.texts (Keys.match_status_key match_id)) ≡ false) × IsIdle w v)
  confirm-Confirms w ok r =
      let k = keys_of match_id match.shard in
      let v : World = record w { calls = suc w.calls } in
      let script : Keyspace → ℕ × Keyspace =
        confirm_script R J k.status_key k.match_key k.forming k.inqueue match_ttl match_id
          match.player_ids in
      elim (confirm_script-Confirms R J k match_id match_ttl (keys_of-AreApart match_id match.shard)
        match.player_ids w.store) [
          | inl (forming, one, confirmed) ↦
              let u : World = record v { store = (script w.store).1; calls = suc v.calls } in
              let (store, event, started) = after_confirm-one has_store u ok in
              rw (confirm-runs w ok r, one)
                (inl (
                  forming,
                  subst (Confirms J k match_id match.player_ids w.store) (sym store) confirmed,
                  event,
                  started,
                ))
          | inr (idle, same) ↦
              rw (confirm-runs w ok r, same)
                (unfold after_confirm in
                  inr
                    (idle, record { same_store = refl; same_published = refl; same_tasks = refl }))
        ]
