-- ===== src/Hub/Replay.antt =====
-- A player who connects while the match is forming is told of it.
use matchmaking.Shared.{
  ℕ, suc, String, ◌≡◌, ◌≢◌, ◌⊎◌, refl, ap, ◌∙◌, true, false, Option, none, some, List, [], ◌∷◌,
  arith, str_eq, eq_iff, if◌then◌else◌, Bool-cases, inl, inr,
}
use matchmaking.Redis.{Redis, Keyspace, contains}
use matchmaking.Redis.Frames.{texts-set_ex}
use matchmaking.Effects.{
  Delivery, World, IsReliable, match_forming, query, ◌>>=◌, pure, query-delivered,
  command-delivered, applied, store-pipeline, net-pipeline,
}
use matchmaking.Keys
use matchmaking.Keys.Disjoint.{pending-ne-status}
use matchmaking.Matchops.Scripts.{is_forming}
use matchmaking.Hub.{
  found, FrameJson, set_pending, process_event, replay_pending, after_pending, after_decode,
  after_status, still_forming, pending_event_ttl,
}

module _ (R : Redis) (F : FrameJson) where
  -- Once written, a frame stays.
  set_pending-stays :
      (frame k : String) (ps : List String) (s : Keyspace)
      → s.texts k ≡ some frame
      → (applied (set_pending R F frame ps) s).texts k ≡ some frame
  unfolding set_pending
  set_pending-stays frame k [] s h = h
  set_pending-stays frame k (p ∷ ps) s h =
      set_pending-stays frame k ps (R.set_ex (Keys.pending_match_event p) frame pending_event_ttl s)
        (ground (arith, texts-set_ex R (Keys.pending_match_event p) frame pending_event_ttl s k))

  texts-set_pending :
      (frame p : String) (ps : List String) (s : Keyspace)
      → contains p ps ≡ true
      → (applied (set_pending R F frame ps) s).texts (Keys.pending_match_event p) ≡ some frame
  unfolding set_pending contains
  texts-set_pending frame p [] s h = absurd (ground arith)
  texts-set_pending frame p (q ∷ qs) s h =
      let key = Keys.pending_match_event q in
      let t = R.set_ex key frame pending_event_ttl s in
      elim (Bool-cases (str_eq p q)) [
        | inl same ↦ set_pending-stays frame (Keys.pending_match_event p) qs t (
            ground (
              arith,
              texts-set_ex R key frame pending_event_ttl s (Keys.pending_match_event p),
              eq_iff p q,
              eq_iff key (Keys.pending_match_event p),
            ))
        | inr other ↦ texts-set_pending frame p qs t (ground arith)
      ]

  status-set_pending :
      (frame id : String) (ps : List String) (s : Keyspace)
      → (applied (set_pending R F frame ps) s).texts (Keys.match_status_key id)
        ≡ s.texts (Keys.match_status_key id)
  unfolding set_pending
  status-set_pending frame id [] s = refl
  status-set_pending frame id (p ∷ ps) s =
      let key = Keys.pending_match_event p in
      ground (
        arith,
        status-set_pending frame id ps (R.set_ex key frame pending_event_ttl s),
        texts-set_ex R key frame pending_event_ttl s (Keys.match_status_key id),
        eq_iff key (Keys.match_status_key id),
        pending-ne-status p id,
      )

  process_forming :
      (id : String) (ps : List String) (w : World)
      → IsReliable w
      → let v = (process_event R F (some (match_forming id ps)) w).1 in
        (v.store ≡ applied (set_pending R F (F.encode (found id ps)) ps) w.store) × (v.net ≡ w.net)
  unfolding process_event
  process_forming id ps w ok =
      let commands = set_pending R F (F.encode (found id ps)) ps in
      (store-pipeline commands w ok, net-pipeline commands w ok)

  replay_pending-runs :
      (player_id frame match_id : String) (w : World)
      → IsReliable w
      → w.store.texts (Keys.pending_match_event player_id) ≡ some frame
      → F.match_id_of frame ≡ some match_id
      → match_id ≢ ""
      → replay_pending R F player_id w
        ≡ after_status R F player_id frame
            (is_forming (w.store.texts (Keys.match_status_key match_id)))
            (record w { calls = suc (suc w.calls) })
  unfolding replay_pending after_pending after_decode still_forming
  replay_pending-runs player_id frame match_id w ok here named real =
      let v : World = record w { calls = suc w.calls } in
      let pending = Keys.pending_match_event player_id in
      let status = Keys.match_status_key match_id in
      let blank : str_eq match_id "" ≡ false = ground (arith, real, eq_iff match_id "") in
      let ask : World → Option String × World = query (R.get status) >>= λ reply.
      after_status R F player_id frame (still_forming R F reply) in
      ap (λ (q : Option (Option String) × World). after_pending R F player_id q.0 q.1)
        (query-delivered (R.get pending) w (ok w.calls))
      ∙ ap (λ text. after_pending R F player_id (some text) v) (R.get_lem pending w.store ∙ here)
      ∙ ap (λ id. after_decode R F player_id frame id v) named
      ∙ ap (λ b. (if b then pure none else ask) v) blank
      ∙ ap
          (λ (q : Option (Option String) × World).
            after_status R F player_id frame (still_forming R F q.0) q.1)
          (query-delivered (R.get status) v (ok (suc w.calls)))
      ∙ ap
          (λ text.
            after_status R F player_id frame (is_forming text)
              (record w { calls = suc (suc w.calls) }))
          (R.get_lem status w.store)

  -- When every round trip is delivered, a pending frame that names a match is sent to the player
  -- who connects if the match is forming; if it is not, nothing is sent and the frame is deleted.
  pub replay_pending_lem :
      (player_id frame match_id : String) (w : World)
      → IsReliable w
      → w.store.texts (Keys.pending_match_event player_id) ≡ some frame
      → F.match_id_of frame ≡ some match_id
      → match_id ≢ ""
      → let (sent, v) = replay_pending R F player_id w in
        ((is_forming (w.store.texts (Keys.match_status_key match_id)) ≡ true)
          × (sent ≡ some frame)
          × (v.store ≡ w.store))
        ⊎ ((is_forming (w.store.texts (Keys.match_status_key match_id)) ≡ false)
            × (sent ≡ none)
            × (v.store ≡ R.del (Keys.pending_match_event player_id) w.store))
  replay_pending_lem player_id frame match_id w ok here named real =
      let v : World = record w { calls = suc (suc w.calls) } in
      let pending = Keys.pending_match_event player_id in
      elim (Bool-cases (is_forming (w.store.texts (Keys.match_status_key match_id)))) [
        | inl forming ↦
            rw (replay_pending-runs player_id frame match_id w ok here named real, forming)
              (unfold after_status in inl (refl, refl, refl))
        | inr over ↦
            rw (replay_pending-runs player_id frame match_id w ok here named real, over)
              (inr (
                refl,
                unfold after_status in refl,
                unfold after_status in
                    ap (λ (q : Option (Unit {0}) × World). q.1.store)
                      (command-delivered (R.del pending) v (ok v.calls)),
              ))
      ]

  -- When every round trip is delivered, a match has an id, which is read back from its frame, and
  -- is forming, every player with whom it is announced as forming is sent this frame on connecting
  -- afterwards.
  pub replay-process_event :
      (id player_id : String) (players : List String) (w : World)
      → IsReliable w
      → contains player_id players ≡ true
      → id ≢ ""
      → F.match_id_of (F.encode (found id players)) ≡ some id
      → is_forming (w.store.texts (Keys.match_status_key id)) ≡ true
      → let v = (process_event R F (some (match_forming id players)) w).1 in
        (replay_pending R F player_id v).0 ≡ some (F.encode (found id players))
  replay-process_event id player_id players w ok listed real round forming =
      let frame = F.encode (found id players) in
      let v = (process_event R F (some (match_forming id players)) w).1 in
      let (stored, same_net) = process_forming id players w ok in
      let still : IsReliable v = λ n. ap (λ (f : ℕ → Delivery). f n) same_net ∙ ok n in
      let here : v.store.texts (Keys.pending_match_event player_id) ≡ some frame =
        ap (λ (s : Keyspace). s.texts (Keys.pending_match_event player_id)) stored
        ∙ texts-set_pending frame player_id players w.store listed in
      let open_ : is_forming (v.store.texts (Keys.match_status_key id)) ≡ true =
        ap (λ (s : Keyspace). is_forming (s.texts (Keys.match_status_key id))) stored
        ∙ ap is_forming (status-set_pending frame id players w.store)
        ∙ forming in
      elim (replay_pending_lem player_id frame id v still here round real) [
        | inl (_, sent, _) ↦ sent
        | inr (over, _, _) ↦ absurd (ground arith)
      ]
