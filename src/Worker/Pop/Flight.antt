-- ===== src/Worker/Pop/Flight.antt =====
-- The entries in flight of internal/worker/worker.go: the members that a worker holds in its buffer,
-- and the batch that it pops.
use matchmaking.Shared.{
  ◌⊎◌, ℕ, zero, suc, ◌+◌, ◌≤◌, String, ◌≡◌, refl, ap, ◌∙◌, sym, subst, Bool, true, false, ◌||◌,
  Option, List, ◌++◌, arith, take, drop, inl, inr,
}
use matchmaking.Model.{Shard}
use matchmaking.Effects.{answered}
use matchmaking.Redis.{Redis, Keyspace}
use matchmaking.Redis.Scores.{IsUnique, IsUnique-take, score_of-take-drop}
use matchmaking.Keys
use matchmaking.Keys.Disjoint.{queue-ne-processing}
use matchmaking.Worker.Scripts.Recovery.{popped, pop_to_processing_script_lem}
use matchmaking.Worker.Pop.Occurs.{
  occurs, listed, scored_members, occurs-append, listed-occurs, occurs_unique, listed-or_else,
  IsUnique-drop, unique_halves,
}

-- No member stands twice.
abbrev pub AreDistinct : List String → Type 0
AreDistinct ms = (m : String) → occurs m ms ≤ 1

-- Every member of the buffer is in processing and none of them is queued, and no member stands twice
-- in the queue.
pub record InFlight (shard : Shard) (buffer : List String) (s : Keyspace) : Type 0 where
  pub unique : IsUnique (s.zsets (Keys.queue shard))
  pub apart : (m : String) → 1 ≤ occurs m buffer → listed m (s.zsets (Keys.queue shard)) ≡ false
  pub held : (m : String) → 1 ≤ occurs m buffer → listed m (s.zsets (Keys.processing shard)) ≡ true

in_no_tail : (b : Bool) {a c : Bool} → a ≡ (b || c) → a ≡ false → c ≡ false
in_no_tail b {a} {c} e h = ground arith

in_no_head : (c : Bool) {a b : Bool} → a ≡ (b || c) → a ≡ false → b ≡ false
in_no_head c {a} {b} e h = ground arith

not_both : (a : Bool) {b : Bool} → (a ≡ true → b ≡ false) → b ≡ true → a ≡ false
not_both true f e = absurd (ground (arith, f refl))
not_both false f e = refl

none_or : (k : ℕ) → (k ≡ 0) ⊎ (1 ≤ k)
none_or zero = inl refl
none_or (suc k) = inr (omega arith)

in_tail : (b : Bool) {a c : Bool} → a ≡ (b || c) → c ≡ true → a ≡ true
in_tail b {a} {c} e h = ground arith

in_head : (c : Bool) {a b : Bool} → a ≡ (b || c) → b ≡ true → a ≡ true
in_head c {a} {b} e h = ground arith

either : (a b : ℕ) → 1 ≤ a + b → (1 ≤ a) ⊎ (1 ≤ b)
either zero b h = inr (omega arith)
either (suc a) b h = inl (omega arith)

none_of : (k : ℕ) → (1 ≤ k → ⊥) → k ≡ 0
none_of zero h = refl
none_of (suc k) h = absurd (h (omega arith))

module _ (shard : Shard) where
  -- Two keyspaces with the same queue and the same entries in processing.
  pub frame-InFlight :
      (buffer : List String) (s t : Keyspace)
      → t.zsets (Keys.queue shard) ≡ s.zsets (Keys.queue shard)
      → t.zsets (Keys.processing shard) ≡ s.zsets (Keys.processing shard)
      → InFlight shard buffer s
      → InFlight shard buffer t
  frame-InFlight buffer s t q p f = record {
    unique = subst IsUnique (sym q) f.unique;
    apart = λ m h. ap (listed m) q ∙ f.apart m h;
    held = λ m h. ap (listed m) p ∙ f.held m h;
  }

  pub fewer-InFlight :
      (buffer fewer : List String) (s : Keyspace)
      → ((m : String) → occurs m fewer ≤ occurs m buffer)
      → InFlight shard buffer s
      → InFlight shard fewer s
  fewer-InFlight buffer fewer s less f = record {
    unique = f.unique;
    apart = λ m h. f.apart m (omega (arith, less m));
    held = λ m h. f.held m (omega (arith, less m));
  }

module _ (R : Redis) (shard : Shard) where
  -- The head of the queue, that a batch takes.
  abbrev pub head_of : ℕ → Keyspace → List String
  head_of n s = scored_members (take n (s.zsets (Keys.queue shard)))

  abbrev pub popped_by : ℕ → Keyspace → Keyspace
  popped_by n s = popped R (Keys.queue shard) (Keys.processing shard) n s

  listed-head :
      (m : String) (n : ℕ) (s : Keyspace)
      → listed m (s.zsets (Keys.queue shard)) ≡ (
          listed m (take n (s.zsets (Keys.queue shard)))
          || listed m (drop n (s.zsets (Keys.queue shard))))
  listed-head m n s =
      sym (ap (λ (o : Option ℕ). answered o) (score_of-take-drop m n (s.zsets (Keys.queue shard))))
      ∙ listed-or_else _ _

  pub popped-InFlight :
      (n : ℕ) (buffer : List String) (s : Keyspace)
      → InFlight shard buffer s
      → InFlight shard (buffer ++ head_of n s) (popped_by n s)
  popped-InFlight n buffer s f =
      let (_, left, moved, _) =
        pop_to_processing_script_lem R (Keys.queue shard) (Keys.processing shard)
          (queue-ne-processing shard) n s f.unique in
      let zs = s.zsets (Keys.queue shard) in
      let in_processing : (m : String)
          → listed m ((popped_by n s).zsets (Keys.processing shard))
            ≡ (listed m (take n zs) || listed m (s.zsets (Keys.processing shard))) =
        λ m. ap (λ (o : Option ℕ). answered o) (moved m) ∙ listed-or_else _ _ in
      record {
        unique = subst IsUnique (sym left) (IsUnique-drop n zs f.unique);
        apart = λ m h.
            elim (either (occurs m buffer) (occurs m (head_of n s))
              (omega (arith, h, occurs-append m buffer (head_of n s)))) [
                | inl old ↦ ap (listed m) left ∙ in_no_tail _ (listed-head m n s) (f.apart m old)
                | inr new ↦
                    ap (listed m) left
                    ∙ not_both _ (unique_halves m n zs f.unique) (listed-occurs m (take n zs) new)
              ];
        held = λ m h.
            elim (either (occurs m buffer) (occurs m (head_of n s))
              (omega (arith, h, occurs-append m buffer (head_of n s)))) [
                | inl old ↦ in_tail _ (in_processing m) (f.held m old)
                | inr new ↦ in_head _ (in_processing m) (listed-occurs m (take n zs) new)
              ];
      }

  -- What a batch brings is not in the buffer yet.
  pub popped-AreDistinct :
      (n : ℕ) (buffer : List String) (s : Keyspace)
      → InFlight shard buffer s
      → AreDistinct buffer
      → AreDistinct (buffer ++ head_of n s)
  popped-AreDistinct n buffer s f distinct m =
      let zs = s.zsets (Keys.queue shard) in
      elim (none_or (occurs m buffer)) [
        | inl gone ↦ omega (
          arith,
          occurs-append m buffer (head_of n s),
          gone,
          occurs_unique m (take n zs) (IsUnique-take n zs f.unique),
        )
        | inr here ↦
            let unheaded : listed m (take n zs) ≡ false =
              in_no_head _ (listed-head m n s) (f.apart m here) in
            let absent =
              none_of (occurs m (head_of n s))
                (λ new. ground (arith, unheaded, listed-occurs m (take n zs) new)) in
            omega (arith, occurs-append m buffer (head_of n s), distinct m, absent)
      ]
