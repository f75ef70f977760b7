-- ===== src/Worker/Select.antt =====
-- selectGroup of internal/worker/worker.go.
pub mod Reference
pub mod Window
pub mod Group
use matchmaking.Shared.{
  ℕ, String, Bool, true, false, Option, none, some, List, [], ◌∷◌, ◌++◌, ltb, length, replicate,
  if◌then◌else◌,
}
use matchmaking.Shared.Int.{ℤ, pos, sub_ℕ, leb_ℤ, ltb_ℤ, add32, sub32, neg32, scale32, quot, wrap32}
use matchmaking.Model.{Time, QueueEntry}

-- A popped player, the raw queue member and its score.
pub record BufferedEntry : Type 0 where
  pub entry : QueueEntry
  pub member : String
  pub score : ℕ

abbrev pub rating_diff_allowance : ℕ
rating_diff_allowance = 50

abbrev pub max_rating_diff : ℕ
max_rating_diff = 300

abbrev pub rating_expand_per_second : ℕ
rating_expand_per_second = 5

abbrev pub nanos_per_second : ℕ
nanos_per_second = 1000000000

-- int32(now.Sub(enqueued).Seconds())
unfoldable pub wait_seconds : Time → Time → ℤ
unfolding quot wrap32
wait_seconds now enqueued = wrap32 (quot (sub_ℕ now enqueued) nanos_per_second)

-- if window > maxRatingDiff { window = maxRatingDiff }
unfoldable pub cap_window : ℤ → ℤ
cap_window window = if ltb_ℤ (pos max_rating_diff) window then pos max_rating_diff else window

unfoldable pub rating_window : Time → Time → ℤ
unfolding wait_seconds add32 scale32 cap_window
rating_window now enqueued = cap_window (
    add32 (pos rating_diff_allowance)
      (scale32 rating_expand_per_second (wait_seconds now enqueued)))

-- The absolute difference of two ratings, in int32 arithmetic.
unfoldable pub rating_diff : ℤ → ℤ → ℤ
unfolding sub32 neg32
rating_diff a b = let diff = sub32 a b in if ltb_ℤ diff (pos 0) then neg32 diff else diff

unfoldable pub in_window : ℤ → QueueEntry → BufferedEntry → Bool
in_window window anchor be = leb_ℤ (rating_diff be.entry.rating anchor.rating) window

-- The filling loop: the group, and a flag for each entry that it passed or left.
unfoldable pub fill_group :
    (BufferedEntry → Bool)
    → ℕ
    → List BufferedEntry
    → List BufferedEntry
    → List BufferedEntry × List Bool
fill_group fits n group [] = (group, [])
fill_group fits n group (be ∷ rest) =
    if ltb (length group) n
    then (let hit = fits be in
        let (filled, chosen) = fill_group fits n (if hit then group ++ be ∷ [] else group) rest in
        (filled, hit ∷ chosen))
    else (group, replicate (length (be ∷ rest)) false)

-- The entries whose flag is not set.
unfoldable pub unchosen : List BufferedEntry → List Bool → List BufferedEntry
unchosen [] flags = []
unchosen (be ∷ rest) [] = be ∷ rest
unchosen (be ∷ rest) (flag ∷ flags) =
    let left = unchosen rest flags in if flag then left else be ∷ left

-- The group, the remaining buffer, and whether a group was found. `none` is the panic of
-- `buffer[0]` on an empty buffer.
unfoldable pub select_group :
    List BufferedEntry → ℕ → Time → Option (List BufferedEntry × List BufferedEntry × Bool)
unfolding in_window rating_diff rating_window fill_group unchosen
select_group [] n now = if ltb 0 n then some ([], [], false) else none
select_group (anchor ∷ rest) n now =
    let buffer = anchor ∷ rest in
    if ltb (length buffer) n
    then some ([], buffer, false)
    else (let window = rating_window now anchor.entry.enqueued_at in
        let (group, chosen) = fill_group (in_window window anchor.entry) n (anchor ∷ []) rest in
        if ltb (length group) n
        then some ([], buffer, false)
        else some (group, unchosen buffer (true ∷ chosen), true))
