-- ===== src/Tests/Select.antt =====
-- A buffer of three players, of whom the first two fit together.
use mathlib.Core.List.{Perm}
use matchmaking.Shared.{ℕ, ◌+◌, String, ◌≡◌, refl, true, some, List, [], ◌∷◌, arith, length, All}
use matchmaking.Shared.Int.{pos}
use matchmaking.Worker.Select.{BufferedEntry, select_group, rating_window, rating_diff}
use matchmaking.Worker.Select.Reference.{select_group-eq-reference}
use matchmaking.Worker.Select.Window.{rating_window_exact, rating_diff_exact}
use matchmaking.Worker.Select.Group.{select_group-perm, select_group-IsNear, IsNear}

abbrev queued : String → ℕ → BufferedEntry
queued id rating = record {
  entry = record { player_id = id; rating = pos rating; enqueued_at = 5000000000 };
  member = id;
  score = 5000;
}

abbrev anchor : BufferedEntry
anchor = queued "1" 1200

abbrev near : BufferedEntry
near = queued "3" 1240

abbrev far : BufferedEntry
far = queued "2" 1900

abbrev later : ℕ
later = 7000000000

select_group-eq-reference_example :
    select_group (anchor ∷ far ∷ near ∷ []) 2 later ≡ some (anchor ∷ near ∷ [], far ∷ [], true)
unfolding select_group
select_group-eq-reference_example = select_group-eq-reference 1 anchor (far ∷ near ∷ []) later

two_found :
    select_group (anchor ∷ far ∷ near ∷ []) 2 later ≡ some (anchor ∷ near ∷ [], far ∷ [], true)
unfolding select_group
two_found = refl

select_group-perm_example :
    (length (anchor ∷ near ∷ []) ≡ 2)
    × (length (far ∷ []) + 2 ≡ length (anchor ∷ far ∷ near ∷ []))
    × Perm (anchor ∷ far ∷ near ∷ []) (anchor ∷ near ∷ far ∷ [])
select_group-perm_example =
    select_group-perm (anchor ∷ far ∷ near ∷ []) 2 later (omega arith) two_found

select_group-IsNear_example :
    (others : List BufferedEntry) × (anchor ∷ near ∷ [] ≡ anchor ∷ others)
    × All (IsNear 1200 300) others
select_group-IsNear_example =
    select_group-IsNear anchor (far ∷ near ∷ []) 2 later 1200 (omega arith) (refl, omega arith)
      two_found

rating_window_exact_example : rating_window later 5000000000 ≡ pos 60
rating_window_exact_example = rating_window_exact later 5000000000 (omega arith) (omega arith)

rating_diff_exact_example : rating_diff (pos 1200) (pos 1240) ≡ pos 40
rating_diff_exact_example = rating_diff_exact 1200 1240 (omega arith) (omega arith)
