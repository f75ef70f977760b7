-- ===== src/Tests/Api.antt =====
-- Player 7 has accepted the match; player 8 answers.
use matchmaking.Shared.{
  ◌≤◌, String, ◌≡◌, ◌≢◌, ◌⊎◌, refl, true, false, some, List, [], ◌∷◌, ◌++◌, arith, length, eq_iff,
  if◌then◌else◌, suc,
}
use matchmaking.Shared.Int.{pos, negsuc}
use matchmaking.Tests.Codec.{codec, formed, shard}
use matchmaking.Tests.Matchops.{recorded_world, formed-IsOnRecord, formed_args, entries}
use matchmaking.Effects.{World, match_confirmed, match_dissolved}
use matchmaking.Redis.{put, contains}
use matchmaking.Redis.Memory.{memory, empty}
use matchmaking.Keys
use matchmaking.Keys.Disjoint.{accepted-ne-declined}
use matchmaking.Matchops.Scripts.{is_forming}
use matchmaking.Matchops.Scripts.Confirmed.{Confirms}
use matchmaking.Matchops.Scripts.Requeued.{Dissolves}
use matchmaking.Matchops.Handlers.{keys_of, IsOnRecord}
use matchmaking.Matchops.Dissolution.{dissolve_tasks}
use matchmaking.Matchops.Confirmation.{confirm_tasks}
use matchmaking.Api.{no_content, accept, decline}
use matchmaking.Api.Scripts.{decline_script}
use matchmaking.Api.Scripts.Answers.{
  run_accept, with_accepted, with_declined, accept_script_lem, decline_script_lem,
}
use matchmaking.Api.Scripts.Votes.{Vote, accepts, declines, completions, completions-le-one}
use matchmaking.Api.Handlers.{accepted_store, declined_store, accept-Confirms, decline-Dissolves}

abbrev half_world : World
half_world = record recorded_world {
  store = record recorded_world.store {
    sets = put empty.sets (Keys.match_accepted formed.id) ("7" ∷ []);
  };
}

half-IsOnRecord : IsOnRecord codec formed.id formed half_world.store
half-IsOnRecord = record {
  text = formed-IsOnRecord.text;
  stored = formed-IsOnRecord.stored;
  decoded = formed-IsOnRecord.decoded;
}

named : ◌≢◌ {A = String} "8" ""
named e = ground (arith, eq_iff "8" "")

accept-Confirms_example :
    let w = half_world in
    let (response, v) = accept memory codec true formed.id (some "8") w in
    (response ≡ no_content)
    × Confirms codec
        (keys_of formed.id shard)
        formed.id
        formed.player_ids
        (accepted_store memory codec true formed.id formed "8" w.store)
        v.store
    × (v.published ≡ w.published ++ match_confirmed formed.id formed.player_ids ∷ [])
    × (v.tasks ≡ w.tasks ++ confirm_tasks true formed.id (w.clock w.reads) formed.player_ids)
unfolding is_forming Keys.match_key Keys.match_status_key Keys.match_declined Keys.match_accepted
    contains
accept-Confirms_example =
    accept-Confirms memory codec true formed.id formed "8" half_world (λ n. refl) named
      half-IsOnRecord refl refl refl refl

decline-Dissolves_example :
    let w = half_world in
    let (response, v) = decline memory codec true formed.id (some "8") w in
    (response ≡ no_content)
    × Dissolves codec
        (keys_of formed.id shard)
        formed.id
        "8"
        entries
        (declined_store memory codec true formed.id formed "8" w.store)
        v.store
    × (v.published ≡ w.published ++ match_dissolved formed.id formed.player_ids ∷ [])
    × (v.tasks ≡ w.tasks ++ dissolve_tasks true formed.id (w.clock w.reads))
unfolding is_forming Keys.match_key Keys.match_status_key Keys.match_declined Keys.match_accepted
    contains
decline-Dissolves_example =
    decline-Dissolves memory codec true formed.id formed "8" entries half_world (λ n. refl) named
      half-IsOnRecord formed_args refl refl

abbrev votes : List (Vote (Keys.match_accepted formed.id))
votes = accepts "8" ∷ accepts "7" ∷ declines "8" ∷ accepts "8" ∷ []

completions-le-one_example :
    completions memory
      (Keys.match_accepted formed.id)
      (Keys.match_declined formed.id)
      (Keys.match_status_key formed.id)
      600
      2
      votes
      half_world.store
    ≤ 1
completions-le-one_example =
    completions-le-one memory (Keys.match_accepted formed.id) (Keys.match_declined formed.id)
      (Keys.match_status_key formed.id) 600 2 (accepted-ne-declined formed.id) votes
      half_world.store

accept_script_lem_example :
    let s = half_world.store in
    let result = run_accept memory "accepted" "declined" "status" 600 "8" s in
    ((is_forming (s.texts "status") ≡ false) × (result ≡ (negsuc 0, s)))
    ⊎ ((is_forming (s.texts "status") ≡ true)
        × (contains "8" (s.sets "declined") ≡ true)
        × (result ≡ (negsuc 1, s)))
    ⊎ ((is_forming (s.texts "status") ≡ true)
        × (contains "8" (s.sets "declined") ≡ false)
        × (contains "8" (s.sets "accepted") ≡ true)
        × (result ≡ (negsuc 2, record s { sets = put s.sets "accepted" (s.sets "accepted") })))
    ⊎ ((is_forming (s.texts "status") ≡ true)
        × (contains "8" (s.sets "declined") ≡ false)
        × (contains "8" (s.sets "accepted") ≡ false)
        × (result ≡ (
          pos (suc (length (s.sets "accepted"))),
          with_accepted memory "accepted" "declined" "status" 600 "8" s,
        )))
accept_script_lem_example =
    accept_script_lem memory "accepted" "declined" "status" 600 "8" half_world.store

decline_script_lem_example :
    let s = half_world.store in
    let result = decline_script memory "declined" "status" "8" 600 s in
    ((is_forming (s.texts "status") ≡ false) × (result ≡ (negsuc 0, s)))
    ⊎ ((is_forming (s.texts "status") ≡ true)
        × (result ≡ (
          pos (if contains "8" (s.sets "declined") then 0 else 1),
          with_declined memory "accepted" "declined" "status" 600 "8" s,
        )))
decline_script_lem_example =
    decline_script_lem memory "accepted" "declined" "status" 600 "8" half_world.store
