-- ===== src/Queue/Band.antt =====
-- The rating bands of internal/queue/client.go, computeRatingBand.
use mathlib.Core.List.{Mem, mem-cons_self, mem-cons_of_mem}
use matchmaking.Shared.{
  ℕ, zero, suc, ◌+◌, ◌-◌, ◌*◌, ◌/◌, ◌≤◌, ◌<◌, ◌≡◌, arith, ltb, if◌then◌else◌, String, ◌⧺◌, List, [],
  ◌∷◌,
}
use matchmaking.Shared.Int.{ℤ, pos, negsuc}
use matchmaking.Shared.Decimal.{decimal}

abbrev pub skill_band_width : ℕ
skill_band_width = 300

abbrev pub skill_band_min : ℕ
skill_band_min = 1000

abbrev pub skill_band_max : ℕ
skill_band_max = 2400

-- The rating after the two clamps. A negative rating is below the least one.
clamp_rating : ℤ → ℕ
clamp_rating (negsuc _) = skill_band_min
clamp_rating (pos r) =
    let low = if ltb r skill_band_min then skill_band_min else r in
    if ltb skill_band_max low then skill_band_max else low

unfoldable pub band_bounds : ℤ → ℕ × ℕ
unfolding clamp_rating
band_bounds rating =
    let r = clamp_rating rating in
    let lower = skill_band_min + ((r - skill_band_min) / skill_band_width) * skill_band_width in
    let upper = lower + skill_band_width in
    (lower, if ltb skill_band_max upper then skill_band_max else upper)

unfoldable pub compute_rating_band : ℤ → String
unfolding decimal
compute_rating_band rating =
    let (lower, upper) = band_bounds rating in decimal lower ⧺ "-" ⧺ decimal upper

-- The band that starts `q` widths above the least rating, cut off at the highest.
abbrev pub nth_bounds : ℕ → ℕ × ℕ
nth_bounds q =
    let lower = 1000 + q * 300 in
    let upper = lower + 300 in (lower, if ltb 2400 upper then 2400 else upper)

-- Which of the five bands [1000, 1300), [1300, 1600), ... and [2200, 2400) a rating belongs to: its
-- own, the lowest for a lower rating and the highest for a higher one.
pub record IsBandOf (rating : ℤ) (band : ℕ × ℕ) : Type 0 where
  pub index : ℕ
  pub one_of_five : index < 5
  pub bounds : band ≡ nth_bounds index
  pub within : (r : ℕ) → rating ≡ pos r → 1000 ≤ r → r < 2400 → (band.0 ≤ r) × (r < band.1)
  pub lowest : (r : ℕ) → rating ≡ pos r → r < 1000 → index ≡ 0
  pub negative : (r : ℕ) → rating ≡ negsuc r → index ≡ 0
  pub highest : (r : ℕ) → rating ≡ pos r → 2400 ≤ r → index ≡ 4

-- Every band that a player can be put into.
abbrev pub rating_bands : List String
rating_bands = "1000-1300" ∷ "1300-1600" ∷ "1600-1900" ∷ "1900-2200" ∷ "2200-2400" ∷ []

nth_bounds-mem :
    (q : ℕ) → q ≤ 4 → Mem (decimal (nth_bounds q).0 ⧺ "-" ⧺ decimal (nth_bounds q).1) rating_bands
unfolding decimal
nth_bounds-mem zero h = mem-cons_self
nth_bounds-mem (suc zero) h = mem-cons_of_mem _ mem-cons_self
nth_bounds-mem (suc (suc zero)) h = mem-cons_of_mem _ (mem-cons_of_mem _ mem-cons_self)
nth_bounds-mem (suc (suc (suc zero))) h =
    mem-cons_of_mem _ (mem-cons_of_mem _ (mem-cons_of_mem _ mem-cons_self))
nth_bounds-mem (suc (suc (suc (suc zero)))) h =
    mem-cons_of_mem _ (mem-cons_of_mem _ (mem-cons_of_mem _ (mem-cons_of_mem _ mem-cons_self)))
nth_bounds-mem (suc (suc (suc (suc (suc q))))) h = absurd (omega arith)

band_index-le : (rating : ℤ) → (clamp_rating rating - 1000) / 300 ≤ 4
unfolding clamp_rating
band_index-le rating = ground arith

-- The key of a player's band is one of five texts, whatever the rating.
pub compute_rating_band-mem : (rating : ℤ) → Mem (compute_rating_band rating) rating_bands
unfolding compute_rating_band band_bounds
compute_rating_band-mem rating = nth_bounds-mem _ (band_index-le rating)
