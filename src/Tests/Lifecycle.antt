-- ===== src/Tests/Lifecycle.antt =====
-- A match of two players that is confirmed and cannot be dissolved afterwards.
use matchmaking.Shared.{◌≡◌, refl, false, some, [], ◌∷◌}
use matchmaking.Shared.Int.{pos, negsuc}
use matchmaking.Redis.{Keyspace, put, contains}
use matchmaking.Redis.Memory.{memory, empty}
use matchmaking.Tests.Codec.{codec, shard}
use matchmaking.Keys
use matchmaking.Lifecycle.{
  Ballot, forming, accepts, declines, confirms, dissolves, answers, run_ops,
}
use matchmaking.Lifecycle.Represents.{Represents}
use matchmaking.Lifecycle.Refines.{run_ops-answers}

abbrev announced : Keyspace
announced = record empty { texts = put empty.texts (Keys.match_status_key "m") (some "forming") }

abbrev no_votes : Ballot
no_votes = record { phase = forming; accepted = λ p. false; count = 0; declined = λ p. false }

announced-Represents : Represents "m" announced no_votes
unfolding Keys.match_status_key contains
announced-Represents = record {
  phase_same = refl;
  accepted_same = λ p. refl;
  count_same = refl;
  declined_same = λ p. refl;
}

run_ops-answers_example :
    run_ops memory codec shard "m"
      (accepts "7"
        ∷ accepts "7"
        ∷ accepts "8"
        ∷ confirms ("7" ∷ "8" ∷ [])
        ∷ dissolves "" []
        ∷ declines "7"
        ∷ [])
      announced
    ≡ pos 1 ∷ negsuc 2 ∷ pos 2 ∷ pos 1 ∷ pos 0 ∷ negsuc 0 ∷ []
unfolding answers
run_ops-answers_example =
    run_ops-answers memory codec shard "m"
      (accepts "7"
        ∷ accepts "7"
        ∷ accepts "8"
        ∷ confirms ("7" ∷ "8" ∷ [])
        ∷ dissolves "" []
        ∷ declines "7"
        ∷ [])
      announced no_votes announced-Represents
