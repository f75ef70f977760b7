-- ===== src/Api/Handlers.antt =====
-- accept and decline as a whole, when every round trip is delivered.
use matchmaking.Shared.{
  suc, String, ◌≡◌, ◌≢◌, refl, ap, ◌∙◌, Bool, true, false, Option, some, List, [], ◌∷◌, ◌++◌, arith,
  inl, inr, length, eqb, str_eq, eq_iff,
}
use matchmaking.Shared.Int.{ℤ}
use matchmaking.Model.{Match}
use matchmaking.Json.{Json}
use matchmaking.Redis.{Redis, Keyspace, contains}
use matchmaking.Effects.{
  World, IsReliable, query-delivered, call-delivered, match_confirmed, match_dissolved,
}
use matchmaking.Keys
use matchmaking.Queue.{Lookup, get_match, lookup_of}
use matchmaking.Matchops.{requeue_args}
use matchmaking.Matchops.Scripts.{is_forming, Requeue}
use matchmaking.Matchops.Scripts.Confirmed.{Confirms}
use matchmaking.Matchops.Scripts.Requeued.{Dissolves}
use matchmaking.Matchops.Confirmation.{confirm-Confirms, confirm_tasks}
use matchmaking.Matchops.Dissolution.{dissolve-Dissolves, dissolve_tasks}
use matchmaking.Matchops.Handlers.{keys_of, IsOnRecord}
use matchmaking.Api.{
  no_content, accept, accept_found, after_accept, decline, after_decline, with_player, response_ttl,
}
use matchmaking.Api.Scripts.{decline_script}
use matchmaking.Api.Scripts.Answers.{
  accept_script_fresh, decline_script_first, run_accept, with_accepted, with_declined,
}

module _ (R : Redis) (J : Json) (has_store : Bool) (match_id : String) (match : Match) where
  get_match-delivered :
      (w : World)
      → IsReliable w
      → IsOnRecord J match_id match w.store
      → get_match R J match_id w ≡ (Lookup.present match, record w { calls = suc w.calls })
  unfolding get_match lookup_of
  get_match-delivered w ok r =
      rw
        (
          query-delivered (R.get (Keys.match_key match_id)) w (ok w.calls),
          R.get_lem,
          r.stored,
          r.decoded,
        )
        refl

  -- acceptScript on the keys of the match.
  abbrev pub accept_match : String → Keyspace → ℤ × Keyspace
  accept_match p s =
      run_accept R (Keys.match_accepted match_id) (Keys.match_declined match_id)
        (Keys.match_status_key match_id) response_ttl p s

  accept-runs :
      (p : String) (w : World)
      → IsReliable w
      → p ≢ ""
      → IsOnRecord J match_id match w.store
      → let (answer, t) = accept_match p w.store in
        accept R J has_store match_id (some p) w
        ≡ after_accept R J has_store match_id match
            (some answer)
            (record w { store = t; calls = suc (suc w.calls) })
  unfolding accept accept_found with_player
  accept-runs p w ok named r =
      let blank : str_eq p "" ≡ false = ground (arith, named, eq_iff p "") in
      rw blank (
        ap (λ (q : Lookup × World). accept_found R J has_store match_id p q.0 q.1)
          (get_match-delivered w ok r)
        ∙ ap (λ (q : Option ℤ × World). after_accept R J has_store match_id match q.0 q.1)
            (call-delivered (accept_match p) (record w { calls = suc w.calls }) (ok (suc w.calls))))

  -- The store after a player was added to the accepted set of the match.
  abbrev pub accepted_store : String → Keyspace → Keyspace
  accepted_store p s =
      with_accepted R (Keys.match_accepted match_id) (Keys.match_declined match_id)
        (Keys.match_status_key match_id) response_ttl p s

  -- When every round trip is delivered, a forming match is on record and a player with an id who
  -- has neither declined nor accepted it is the last one missing, the acceptance is answered 204
  -- and the match is confirmed, in the store in which the player has accepted: one event is
  -- published and the goroutines of Confirm are started.
  pub accept-Confirms :
      (p : String) (w : World)
      → IsReliable w
      → p ≢ ""
      → IsOnRecord J match_id match w.store
      → is_forming (w.store.texts (Keys.match_status_key match_id)) ≡ true
      → contains p (w.store.sets (Keys.match_declined match_id)) ≡ false
      → contains p (w.store.sets (Keys.match_accepted match_id)) ≡ false
      → suc (length (w.store.sets (Keys.match_accepted match_id))) ≡ length match.player_ids
      → let (response, v) = accept R J has_store match_id (some p) w in
        (response ≡ no_content)
        × Confirms J
            (keys_of match_id match.shard)
            match_id
            match.player_ids
            (accepted_store p w.store)
            v.store
        × (v.published ≡ w.published ++ match_confirmed match_id match.player_ids ∷ [])
        × (v.tasks ≡ w.tasks ++ confirm_tasks has_store match_id (w.clock w.reads) match.player_ids)
  unfolding after_accept
  accept-Confirms p w ok named r forming undeclined fresh last =
      let u : World = record w { store = accepted_store p w.store; calls = suc (suc w.calls) } in
      let answered =
        accept_script_fresh R (Keys.match_accepted match_id) (Keys.match_declined match_id)
          (Keys.match_status_key match_id) response_ttl p w.store forming undeclined fresh in
      let same : IsOnRecord J match_id match u.store = record {
        text = r.text;
        stored = r.stored;
        decoded = r.decoded;
      } in
      let complete : eqb (suc (length (w.store.sets (Keys.match_accepted match_id))))
            (length match.player_ids)
          ≡ true =
        ground (arith, last) in
      rw (accept-runs p w ok named r, answered, complete)
        (elim (confirm-Confirms R J has_store match_id match u ok same) [
          | inl (_, confirmed, event, started) ↦ (refl, confirmed, event, started)
          | inr (idle, _) ↦ absurd (ground arith)
        ])

  -- declineScript on the keys of the match.
  abbrev pub decline_match : String → Keyspace → ℤ × Keyspace
  decline_match p s =
      decline_script R (Keys.match_declined match_id) (Keys.match_status_key match_id) p
        response_ttl s

  -- The store after a player was added to the declined set of the match.
  abbrev pub declined_store : String → Keyspace → Keyspace
  declined_store p s =
      with_declined R (Keys.match_accepted match_id) (Keys.match_declined match_id)
        (Keys.match_status_key match_id) response_ttl p s

  decline-runs :
      (p : String) (w : World)
      → IsReliable w
      → p ≢ ""
      → let (answer, t) = decline_match p w.store in
        decline R J has_store match_id (some p) w
        ≡ after_decline R J has_store match_id p
            (some answer)
            (record w { store = t; calls = suc w.calls })
  unfolding decline with_player
  decline-runs p w ok named =
      let blank : str_eq p "" ≡ false = ground (arith, named, eq_iff p "") in
      rw blank (
        ap (λ (q : Option ℤ × World). after_decline R J has_store match_id p q.0 q.1)
          (call-delivered (decline_match p) w (ok w.calls)))

  -- When every round trip is delivered, a forming match is on record with entries that have texts
  -- and a player with an id has not declined it before, the decline is answered 204 and the match
  -- is dissolved with this player as the one who declined, in the store in which the player has
  -- declined: one event is published and the goroutine of Dissolve is started.
  pub decline-Dissolves :
      (p : String) (entries : List Requeue) (w : World)
      → IsReliable w
      → p ≢ ""
      → IsOnRecord J match_id match w.store
      → requeue_args R J match.entries ≡ some entries
      → is_forming (w.store.texts (Keys.match_status_key match_id)) ≡ true
      → contains p (w.store.sets (Keys.match_declined match_id)) ≡ false
      → let (response, v) = decline R J has_store match_id (some p) w in
        (response ≡ no_content)
        × Dissolves J
            (keys_of match_id match.shard)
            match_id
            p
            entries
            (declined_store p w.store)
            v.store
        × (v.published ≡ w.published ++ match_dissolved match_id match.player_ids ∷ [])
        × (v.tasks ≡ w.tasks ++ dissolve_tasks has_store match_id (w.clock w.reads))
  unfolding after_decline
  decline-Dissolves p entries w ok named r args forming first =
      let u : World = record w { store = declined_store p w.store; calls = suc w.calls } in
      let answered =
        decline_script_first R (Keys.match_accepted match_id) (Keys.match_declined match_id)
          (Keys.match_status_key match_id) response_ttl p w.store forming first in
      let same : IsOnRecord J match_id match u.store = record {
        text = r.text;
        stored = r.stored;
        decoded = r.decoded;
      } in
      rw (decline-runs p w ok named, answered)
        (elim (dissolve-Dissolves R J has_store match_id match p entries u ok same args) [
          | inl (_, dissolved, event, started) ↦ (refl, dissolved, event, started)
          | inr (idle, _) ↦ absurd (ground arith)
        ])
