-- ===== src/Tests/Matchops.antt =====
-- A forming match is confirmed, and two dissolutions come too late.
use matchmaking.Shared.{◌++◌, ◌≤◌, ◌≡◌, ◌⊎◌, refl, true, false, some, List, [], ◌∷◌}
use matchmaking.Tests.Codec.{formed, codec, player, rival, shard}
use matchmaking.Model.{status_forming}
use matchmaking.Redis.{Keyspace, put}
use matchmaking.Redis.Memory.{memory, empty}
use matchmaking.Keys
use matchmaking.Tests.Queue.{start}
use matchmaking.Effects.{World, match_confirmed, match_dissolved}
use matchmaking.Matchops.{confirm, dissolve, requeue_args}
use matchmaking.Matchops.Confirmation.{confirm-Confirms, confirm_tasks}
use matchmaking.Matchops.Dissolution.{dissolve-Dissolves, dissolve_tasks}
use matchmaking.Matchops.Handlers.{keys_of, IsIdle, IsOnRecord}
use matchmaking.Matchops.Scripts.Confirmed.{Confirms}
use matchmaking.Keys.Disjoint.{match_key-ne-status}
use matchmaking.Matchops.Scripts.{Requeue, is_forming}
use matchmaking.Matchops.Scripts.Once.{Attempt, confirms, dissolves, successes, successes-le-one}
use matchmaking.Matchops.Scripts.Requeued.{Dissolves}

-- The match "m" is forming, and player 8 has cancelled.
abbrev forming_store : Keyspace
forming_store = record empty {
  texts = put empty.texts (Keys.match_status_key "m") (some status_forming);
  sets = put empty.sets (Keys.cancelled shard) ("8" ∷ []);
}

abbrev pub entries : List Requeue
entries =
    record { player_id = "7"; score = 5000; member = "7" }
    ∷ record { player_id = "8"; score = 6000; member = "8" }
    ∷ []

abbrev late : Attempt (Keys.match_status_key "m")
late = dissolves (Keys.queue shard) (Keys.cancelled shard) (Keys.in_queue shard) "" entries

abbrev race : List (Attempt (Keys.match_status_key "m"))
race = late ∷ confirms (Keys.in_queue shard) ("7" ∷ "8" ∷ []) ∷ late ∷ []

successes-le-one_example :
    successes memory codec
      (Keys.match_status_key "m")
      (Keys.match_key "m")
      (Keys.forming_matches shard)
      "m"
      600
      race
      forming_store
    ≤ 1
successes-le-one_example =
    successes-le-one memory codec (Keys.match_status_key "m") (Keys.match_key "m")
      (Keys.forming_matches shard) "m" 600 (match_key-ne-status "m") race forming_store

-- The match `formed` is on record and forming.
abbrev pub recorded_world : World
recorded_world = record start {
  store = record empty {
    texts =
        put (put empty.texts (Keys.match_status_key formed.id) (some status_forming))
          (Keys.match_key formed.id) (some "mforming");
  };
}

pub formed-IsOnRecord : IsOnRecord codec formed.id formed recorded_world.store
unfolding Keys.match_key
formed-IsOnRecord = record { text = "mforming"; stored = refl; decoded = refl }

confirm-Confirms_example :
    let w = recorded_world in
    let v = (confirm memory codec true formed.id w).1 in
    ((is_forming (w.store.texts (Keys.match_status_key formed.id)) ≡ true)
      × Confirms codec (keys_of formed.id shard) formed.id formed.player_ids w.store v.store
      × (v.published ≡ w.published ++ match_confirmed formed.id formed.player_ids ∷ [])
      × (v.tasks ≡ w.tasks ++ confirm_tasks true formed.id (w.clock w.reads) formed.player_ids))
    ⊎ ((is_forming (w.store.texts (Keys.match_status_key formed.id)) ≡ false) × IsIdle w v)
confirm-Confirms_example =
    confirm-Confirms memory codec true formed.id formed recorded_world (λ n. refl) formed-IsOnRecord

pub formed_args : requeue_args memory codec formed.entries ≡ some entries
unfolding requeue_args matchmaking.Tests.Codec.same_entry
formed_args = refl

dissolve-Dissolves_example :
    let w = recorded_world in
    let v = (dissolve memory codec false formed.id "7" w).1 in
    ((is_forming (w.store.texts (Keys.match_status_key formed.id)) ≡ true)
      × Dissolves codec (keys_of formed.id shard) formed.id "7" entries w.store v.store
      × (v.published ≡ w.published ++ match_dissolved formed.id formed.player_ids ∷ [])
      × (v.tasks ≡ w.tasks ++ dissolve_tasks false formed.id (w.clock w.reads)))
    ⊎ ((is_forming (w.store.texts (Keys.match_status_key formed.id)) ≡ false) × IsIdle w v)
dissolve-Dissolves_example =
    dissolve-Dissolves memory codec false formed.id formed "7" entries recorded_world (λ n. refl)
      formed-IsOnRecord formed_args
