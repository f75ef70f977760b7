-- ===== src/Tests/Formed.antt =====
-- The commit of the two queued players.
use matchmaking.Shared.{
  ℕ, suc, String, ◌≡◌, ◌⊎◌, refl, true, false, none, some, List, [], ◌∷◌, ◌++◌, if◌then◌else◌,
  eq_iff,
}
use matchmaking.Tests.Codec.{codec, shard}
use matchmaking.Tests.Worker.{buffered, opponent, pair_maker, open_world}
use matchmaking.Redis.{contains}
use matchmaking.Redis.Memory.{memory}
use matchmaking.Worker.Select.{BufferedEntry}
use matchmaking.Worker.Scripts.Commit.{Commits}
use matchmaking.Worker.Pop.{
  Commit, commit_match, commit_keys, commit_args, player_ids, members, repush_group, new_match,
}
use matchmaking.Worker.Pop.Formed.{next_match, forming_events, commit_match-Commits}

abbrev pair : List BufferedEntry
pair = buffered ∷ opponent ∷ []

pair_encoded :
    codec.encode_match (next_match memory pair_maker codec pair open_world) ≡ some "mforming"
unfolding new_match matchmaking.Tests.Codec.same_match matchmaking.Worker.Pop.match_id
    matchmaking.Shared.Decimal.decimal matchmaking.Tests.Codec.same_entry
pair_encoded = refl

commit_match-Commits_example :
    let w = open_world in
    let m = next_match memory pair_maker codec pair w in
    let k = commit_keys shard m.id in
    let a = commit_args pair m.id "mforming" (w.clock w.reads) in
    let (result, v) = commit_match memory pair_maker codec pair w in
    ((result ≡ Commit.committed)
      × ((p : String)
          → contains p (player_ids pair) ≡ true
          → contains p (w.store.sets k.cancelled) ≡ false)
      × Commits memory k a w.store v.store
      × (v.published ≡ w.published ++ forming_events true m))
    ⊎ ((result ≡ Commit.conflict)
        × ((p : String) × (contains p (player_ids pair) ≡ true)
            × (contains p (w.store.sets k.cancelled) ≡ true))
        × (v.store ≡ w.store)
        × (v.published ≡ w.published))
commit_match-Commits_example =
    commit_match-Commits memory pair_maker codec pair "mforming" open_world (λ n. refl) pair_encoded
