-- ===== src/Api/Scripts/Votes.antt =====
-- Who completes a match: the acceptance that is told the size of the match.
use matchmaking.Shared.{
  ℕ, ◌+◌, ◌≤◌, ◌<◌, String, ◌≡◌, ◌≢◌, refl, Bool, true, false, List, [], ◌∷◌, arith, length, eqb,
  eq_iff, Bool-cases, inl, inr, if◌then◌else◌,
}
use matchmaking.Shared.Int.{ℤ, pos, negsuc}
use matchmaking.Redis.{Redis, Keyspace}
use matchmaking.Api.Scripts.{accept_script, decline_script}
use matchmaking.Api.Scripts.Answers.{accept_script_lem, decline_script_lem}

-- One step of somebody: an acceptance, a decline, or a step that keeps the size of the accepted
-- set or lets it grow.
pub data Vote (accepted : String) : Type 0 where
  accepts : String → Vote accepted
  declines : String → Vote accepted
  elsewhere :
      (f : Keyspace → Keyspace)
      → ((s : Keyspace) → length (s.sets accepted) ≤ length ((f s).sets accepted))
      → Vote accepted

-- The answer is this count.
abbrev pub is_count : ℕ → ℤ → Bool
is_count n (pos count) = eqb count n
is_count n (negsuc _) = false

module _ (R : Redis) (accepted declined status_key : String) (ttl n : ℕ) where
  -- Whether the step was told that n players have accepted, and the store after it.
  unfoldable pub vote : Vote accepted → Keyspace → Bool × Keyspace
  vote (accepts p) s =
      let (answer, t) = accept_script R accepted declined status_key p ttl s in
      (is_count n answer, t)
  vote (declines p) s = (false, (decline_script R declined status_key p ttl s).1)
  vote (elsewhere f _) s = (false, f s)

  -- How many steps of a sequence were told that n players have accepted.
  unfoldable pub completions : List (Vote accepted) → Keyspace → ℕ
  completions [] s = 0
  completions (v ∷ more) s = let (hit, t) = vote v s in (if hit then 1 else 0) + completions more t

  size : Keyspace → ℕ
  size s = length (s.sets accepted)

  module _ (apart : accepted ≢ declined) where
    -- The size of the accepted set never shrinks, and a step that was told n made it n.
    vote-size :
        (v : Vote accepted) (s : Keyspace)
        → (size s ≤ size (vote v s).1)
          × ((vote v s).0 ≡ true → (size s < n) × (size (vote v s).1 ≡ n))
    unfolding vote size
    vote-size (accepts p) s = elim (accept_script_lem R accepted declined status_key ttl p s) [
      | inl (_, e) ↦ rw e (omega arith, λ h. ground arith)
      | inr (inl (_, _, e)) ↦ rw e (omega arith, λ h. ground arith)
      | inr (inr (inl (_, _, _, e))) ↦
          rw e (ground (arith, eq_iff accepted accepted), λ h. ground arith)
      | inr (inr (inr (_, _, _, e))) ↦
          rw e (
            ground (arith, eq_iff accepted accepted),
            λ h. ground (arith, eq_iff accepted accepted),
          )
    ]
    vote-size (declines p) s = elim (decline_script_lem R accepted declined status_key ttl p s) [
      | inl (_, e) ↦ (rw e (omega arith), λ h. ground arith)
      | inr (_, e) ↦ (rw e (ground (arith, apart, eq_iff declined accepted)), λ h. ground arith)
    ]
    vote-size (elsewhere f grows) s = (grows s, λ h. ground arith)

    completions_none :
        (votes : List (Vote accepted)) (s : Keyspace) → n ≤ size s → completions votes s ≡ 0
    unfolding completions
    completions_none [] s h = refl
    completions_none (v ∷ more) s h =
        let (grows, hits) = vote-size v s in
        let rest = completions_none more (vote v s).1 in
        elim (Bool-cases (vote v s).0) [
          | inl hit ↦ absurd (omega (arith, hits hit))
          | inr miss ↦ rw miss (omega (arith, rest (omega (arith, grows))))
        ]

    -- When the accepted and the declined set have different keys: however acceptances and declines
    -- of any players, and steps of others that do not shrink the accepted set, are ordered, at most
    -- one acceptance is told that n players have accepted.
    pub completions-le-one : (votes : List (Vote accepted)) (s : Keyspace) → completions votes s ≤ 1
    unfolding completions
    completions-le-one [] s = omega arith
    completions-le-one (v ∷ more) s =
        let (grows, hits) = vote-size v s in
        elim (Bool-cases (vote v s).0) [
          | inl hit ↦
              rw hit (omega (arith, completions_none more (vote v s).1 (omega (arith, hits hit))))
          | inr miss ↦ rw miss (omega (arith, completions-le-one more (vote v s).1))
        ]
