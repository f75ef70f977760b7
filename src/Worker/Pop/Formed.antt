-- ===== src/Worker/Pop/Formed.antt =====
-- commitMatch and repushGroup as a whole, when every round trip is delivered.
use matchmaking.Shared.{
  ℕ, suc, String, ◌≡◌, ◌⊎◌, refl, sym, ap, ◌∙◌, subst, Bool, true, false, Option, none, some, List,
  [], ◌∷◌, ◌++◌, arith, inl, inr, Bool-cases, eq_iff, if◌then◌else◌, map,
}
use mathlib.Core.List.{append-nil}
use matchmaking.Model.{Match, Shard}
use matchmaking.Json.{Json}
use matchmaking.Redis.{Redis, Keyspace, Scored, contains}
use matchmaking.Redis.Scores.{score_of, or_else, IsUnique, score_of-without_scored}
use matchmaking.Worker.Scripts.Recovery.{score_of-zadd_all, zsets-zadd_all_ne}
use matchmaking.Redis.Frames.{zsets-zrem}
use matchmaking.Effects.{
  World, Event, IsReliable, call-delivered, applied, store-pipeline, publish-delivered,
  match_forming,
}
use matchmaking.Keys
use matchmaking.Keys.Disjoint.{
  match_key-ne-status, forming-ne-processing, cancelled-ne-in_queue, queue-ne-processing,
}
use matchmaking.Worker.Select.{BufferedEntry}
use matchmaking.Worker.Scripts.{commit_match_script, zadd_all}
use matchmaking.Worker.Scripts.Commit.{AreApart, Commits, commit_match_script-Commits}
use matchmaking.Worker.Pop.{
  MatchMaker, Commit, new_match, commit_keys, commit_args, player_ids, members, commit_match,
  commit_encoded, after_commit, announce, next_seq, repush_group, repush_commands,
}

pub commit_keys-AreApart : (shard : Shard) (id : String) → AreApart (commit_keys shard id)
commit_keys-AreApart shard id = record {
  match-status = match_key-ne-status id;
  forming-processing = forming-ne-processing shard;
  cancelled-inqueue = cancelled-ne-in_queue shard;
}

-- What a commit publishes.
abbrev pub forming_events : Bool → Match → List Event
forming_events true m = match_forming m.id m.player_ids ∷ []
forming_events false m = []

module _ (R : Redis) (mm : MatchMaker) (J : Json) where
  announce-delivered :
      (m : Match) (w : World)
      → IsReliable w
      → let v = (announce R mm J m w).1 in
        (v.store ≡ w.store) × (v.published ≡ w.published ++ forming_events mm.has_publisher m)
  unfolding announce
  announce-delivered m w ok = elim (Bool-cases mm.has_publisher) [
    | inl has ↦
        rw (has, publish-delivered (match_forming m.id m.player_ids) w (ok w.calls)) (refl, refl)
    | inr not_there ↦ rw not_there (refl, sym (append-nil w.published))
  ]

  -- The match that commitMatch builds in a world.
  abbrev pub next_match : List BufferedEntry → World → Match
  next_match group w = new_match mm.shard group (w.clock w.reads) (suc w.match_seq)

  commit_match-runs :
      (group : List BufferedEntry) (payload : String) (w : World)
      → IsReliable w
      → J.encode_match (next_match group w) ≡ some payload
      → let m = next_match group w in
        let (answer, t) =
          commit_match_script R
            (commit_keys mm.shard m.id)
            (commit_args group m.id payload (w.clock w.reads))
            w.store in
        commit_match R mm J group w
        ≡ after_commit R mm J m (some answer) (record w {
          store = t;
          calls = suc w.calls;
          reads = suc w.reads;
          match_seq = suc w.match_seq;
        })
  unfolding commit_match commit_encoded next_seq
  commit_match-runs group payload w ok encoded =
      let m = next_match group w in
      let at = w.clock w.reads in
      let u : World = record w { reads = suc w.reads; match_seq = suc w.match_seq } in
      ap (λ text. commit_encoded R mm J group m at text u) encoded
      ∙ ap (λ (q : Option ℕ × World). after_commit R mm J m q.0 q.1)
          (call-delivered
            (commit_match_script R (commit_keys mm.shard m.id) (commit_args group m.id payload at))
            u (ok w.calls))

  -- When every round trip is delivered and the match has a text, commitMatch either commits the
  -- match, where nobody of the group is cancelled, and publishes it if there is a publisher; or it
  -- reports a conflict, where somebody is cancelled, and changes and publishes nothing.
  pub commit_match-Commits :
      (group : List BufferedEntry) (payload : String) (w : World)
      → IsReliable w
      → J.encode_match (next_match group w) ≡ some payload
      → let m = next_match group w in
        let k = commit_keys mm.shard m.id in
        let a = commit_args group m.id payload (w.clock w.reads) in
        let (result, v) = commit_match R mm J group w in
        ((result ≡ Commit.committed)
          × ((p : String)
              → contains p (player_ids group) ≡ true
              → contains p (w.store.sets k.cancelled) ≡ false)
          × Commits R k a w.store v.store
          × (v.published ≡ w.published ++ forming_events mm.has_publisher m))
        ⊎ ((result ≡ Commit.conflict)
            × ((p : String) × (contains p (player_ids group) ≡ true)
                × (contains p (w.store.sets k.cancelled) ≡ true))
            × (v.store ≡ w.store)
            × (v.published ≡ w.published))
  commit_match-Commits group payload w ok encoded =
      let m = next_match group w in
      let k = commit_keys mm.shard m.id in
      let a = commit_args group m.id payload (w.clock w.reads) in
      let t = (commit_match_script R k a w.store).1 in
      let u : World = record w {
        store = t;
        calls = suc w.calls;
        reads = suc w.reads;
        match_seq = suc w.match_seq;
      } in
      elim (commit_match_script-Commits R k a w.store (commit_keys-AreApart mm.shard m.id)) [
        | inl (one, clear, commits) ↦
            let (same, event) = announce-delivered m u ok in
            rw (commit_match-runs group payload w ok encoded, one)
              (unfold after_commit in
                inl (refl, clear, subst (Commits R k a w.store) (sym same) commits, event))
        | inr (zero_, hit) ↦
            rw (commit_match-runs group payload w ok encoded, zero_)
              (unfold after_commit in inr (refl, hit, refl, refl))
      ]

-- The entries of a group as members of a sorted set.
abbrev pub scored : List BufferedEntry → List Scored
scored = map (λ be. record { member = be.member; score = be.score })

module _ (R : Redis) (mm : MatchMaker) where
  repush_commands-eq :
      (group : List BufferedEntry) (last : Keyspace → Keyspace) (s : Keyspace)
      → applied (repush_commands R mm group last) s
        ≡ last (zadd_all R (Keys.queue mm.shard) (scored group) s)
  unfolding repush_commands zadd_all
  repush_commands-eq [] last s = refl
  repush_commands-eq (be ∷ rest) last s =
      repush_commands-eq rest last (R.zadd (Keys.queue mm.shard) be.score be.member s)

  -- When every round trip is delivered, re-pushing a group whose members are distinct puts its
  -- entries back into the queue with their scores and takes them out of processing; every other
  -- entry of both keeps its score.
  pub repush_group_lem :
      (group : List BufferedEntry) (w : World)
      → IsReliable w
      → IsUnique (scored group)
      → let t = (repush_group R mm group w).1.store in
        ((m : String)
          → score_of m (t.zsets (Keys.queue mm.shard))
            ≡ or_else
                (score_of m (scored group))
                (score_of m (w.store.zsets (Keys.queue mm.shard))))
        × ((m : String)
            → score_of m (t.zsets (Keys.processing mm.shard)) ≡ (
                if contains m (members group)
                then none
                else score_of m (w.store.zsets (Keys.processing mm.shard))))
  unfolding repush_group
  repush_group_lem group w ok unique =
      let queue = Keys.queue mm.shard in
      let processing = Keys.processing mm.shard in
      let t = zadd_all R queue (scored group) w.store in
      subst
        (λ (s : Keyspace).
          ((m : String)
            → score_of m (s.zsets queue)
              ≡ or_else (score_of m (scored group)) (score_of m (w.store.zsets queue)))
          × ((m : String)
              → score_of m (s.zsets processing) ≡ (
                  if contains m (members group)
                  then none
                  else score_of m (w.store.zsets processing))))
        (sym (
          store-pipeline (repush_commands R mm group (R.zrem processing (members group))) w ok
          ∙ repush_commands-eq group (R.zrem processing (members group)) w.store))
        (
          (λ m. ground (
            arith,
            zsets-zrem R processing (members group) t queue,
            eq_iff processing queue,
            queue-ne-processing mm.shard,
            score_of-zadd_all R queue m (scored group) w.store unique,
          )),
          λ m. ground (
            arith,
            zsets-zrem R processing (members group) t processing,
            eq_iff processing processing,
            score_of-without_scored m (members group) (t.zsets processing),
            zsets-zadd_all_ne R queue processing (scored group) w.store
                (queue-ne-processing mm.shard),
          ),
        )
