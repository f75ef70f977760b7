-- ===== src/Redis.antt =====
-- The Redis server and its client, which the service uses and does not implement: the keyspace
-- that the commands work on, and the commands as a parameter with their documented effects.
pub mod Memory
pub mod Sets
pub mod Scores
pub mod Frames
pub mod Groups
use Prim.Native.Nat.{Ordering}
use Prim.Native.String.{compare}
use matchmaking.Shared.{
  ℕ, ◌-◌, ◌≤◌, String, ◌≡◌, Bool, true, false, not, ◌&&◌, Option, none, some, List, [], ◌∷◌, ◌++◌,
  ltb, leb, eqb, str_eq, length, take, drop, keep, if◌then◌else◌,
}

-- A member of a sorted set. The service's scores are whole milliseconds.
pub record Scored : Type 0 where
  pub member : String
  pub score : ℕ

-- An entry of a match stream.
pub record StreamEntry : Type 0 where
  pub match_id : String
  pub payload : String

-- The keys of each type and the time to live in seconds that a key was last given.
pub record Keyspace : Type 0 where
  pub texts : String → Option String
  pub sets : String → List String
  pub zsets : String → List Scored
  pub streams : String → List StreamEntry
  pub ttls : String → Option ℕ

-- A table with one key written.
abbrev pub put {ℓ} : {A : Type ℓ} → (String → A) → String → A → String → A
put f k v j = if str_eq k j then v else f j

unfoldable pub contains : String → List String → Bool
contains x [] = false
contains x (y ∷ ys) = let rest = contains x ys in if str_eq x y then true else rest

-- Sets: the members added, those removed, and how many were new.
unfoldable pub with_members : List String → List String → List String
unfolding contains
with_members [] ys = ys
with_members (x ∷ xs) ys = with_members xs (if contains x ys then ys else x ∷ ys)

unfoldable pub without_members : List String → List String → List String
unfolding contains
without_members xs ys = keep (λ y. not (contains y xs)) ys

unfoldable pub contains_each : List String → List String → List Bool
unfolding contains
contains_each [] ys = []
contains_each (x ∷ xs) ys = contains x ys ∷ contains_each xs ys

-- Sorted sets: by score, then by the bytes of the member.
unfoldable pub scored_before : Scored → Scored → Bool
scored_before a b =
    if ltb a.score b.score
    then true
    else if ltb b.score a.score
    then false
    else elim (compare a.member b.member) [ Ordering.lt ↦ true | _ ↦ false ]

unfoldable pub insert_scored : Scored → List Scored → List Scored
unfolding scored_before
insert_scored a [] = a ∷ []
insert_scored a (b ∷ bs) =
    let rest = insert_scored a bs in if scored_before a b then a ∷ b ∷ bs else b ∷ rest

unfoldable pub without_scored : List String → List Scored → List Scored
unfolding contains
without_scored xs bs = keep (λ b. not (contains b.member xs)) bs

unfoldable pub with_scored : Scored → List Scored → List Scored
unfolding insert_scored without_scored
with_scored a bs = insert_scored a (without_scored (a.member ∷ []) bs)

unfoldable pub in_score_range : ℕ → ℕ → Scored → Bool
in_score_range low high b = leb low b.score && leb b.score high

-- A key that loses its last member is deleted, and its time to live with it.
abbrev pub ttl_unless_empty {ℓ} : {A : Type ℓ} → List A → Option ℕ → Option ℕ
ttl_unless_empty [] t = none
ttl_unless_empty (x ∷ xs) t = t

-- EXPIRE has an effect on a key that exists.
unfoldable pub key_exists : String → Keyspace → Bool
key_exists k s = elim (s.texts k) [
  | some _ ↦ true
  | none ↦
      not (eqb 0 (length (s.sets k)) && eqb 0 (length (s.zsets k)) && eqb 0 (length (s.streams k)))
]

-- The commands, each with its documented effect. Keys of different types are different texts, so
-- a command on one type leaves the tables of the others alone.
pub record Redis : Type 0 where
  pub get : String → Keyspace → Option String
  pub set_ex : String → String → ℕ → Keyspace → Keyspace
  pub set_nx : String → String → ℕ → Keyspace → Bool × Keyspace
  pub del : String → Keyspace → Keyspace
  pub expire : String → ℕ → Keyspace → Keyspace
  pub sadd : String → List String → Keyspace → ℕ × Keyspace
  pub srem : String → List String → Keyspace → Keyspace
  pub sismember : String → String → Keyspace → Bool
  pub smismember : String → List String → Keyspace → List Bool
  pub scard : String → Keyspace → ℕ
  pub zadd : String → ℕ → String → Keyspace → Keyspace
  pub zrem : String → List String → Keyspace → Keyspace
  pub zpopmin : String → ℕ → Keyspace → List Scored × Keyspace
  pub zrange : String → Keyspace → List Scored
  pub zrange_by_score : String → ℕ → ℕ → Keyspace → List Scored
  -- What MAXLEN ~ keeps of a stream: which entries go is up to the server.
  pub trim : ℕ → List StreamEntry → List StreamEntry
  pub xadd : String → ℕ → StreamEntry → Keyspace → Keyspace
  pub get_lem : (k : String) (s : Keyspace) → get k s ≡ s.texts k
  pub set_ex_lem :
      (k v : String) (t : ℕ) (s : Keyspace)
      → set_ex k v t s ≡ record s { texts = put s.texts k (some v); ttls = put s.ttls k (some t) }
  pub set_nx_lem :
      (k v : String) (t : ℕ) (s : Keyspace)
      → set_nx k v t s ≡ (elim (s.texts k) [
        | some _ ↦ (false, s)
        | none ↦ (true, record s { texts = put s.texts k (some v); ttls = put s.ttls k (some t) })
      ])
  pub del_lem :
      (k : String) (s : Keyspace)
      → del k s ≡ record {
        texts = put s.texts k none;
        sets = put s.sets k [];
        zsets = put s.zsets k [];
        streams = put s.streams k [];
        ttls = put s.ttls k none;
      }
  pub expire_lem :
      (k : String) (t : ℕ) (s : Keyspace)
      → expire k t s ≡ (if key_exists k s then record s { ttls = put s.ttls k (some t) } else s)
  pub sadd_lem :
      (k : String) (xs : List String) (s : Keyspace)
      → sadd k xs s ≡ (
        length (with_members xs (s.sets k)) - length (s.sets k),
        record s { sets = put s.sets k (with_members xs (s.sets k)) },
      )
  pub srem_lem :
      (k : String) (xs : List String) (s : Keyspace)
      → srem k xs s ≡ record s {
        sets = put s.sets k (without_members xs (s.sets k));
        ttls = put s.ttls k (ttl_unless_empty (without_members xs (s.sets k)) (s.ttls k));
      }
  pub sismember_lem : (k x : String) (s : Keyspace) → sismember k x s ≡ contains x (s.sets k)
  pub smismember_lem :
      (k : String) (xs : List String) (s : Keyspace)
      → smismember k xs s ≡ contains_each xs (s.sets k)
  pub scard_lem : (k : String) (s : Keyspace) → scard k s ≡ length (s.sets k)
  pub zadd_lem :
      (k : String) (score : ℕ) (m : String) (s : Keyspace)
      → zadd k score m s ≡ record s {
        zsets = put s.zsets k (with_scored (record { member = m; score = score }) (s.zsets k));
      }
  pub zrem_lem :
      (k : String) (xs : List String) (s : Keyspace)
      → zrem k xs s ≡ record s {
        zsets = put s.zsets k (without_scored xs (s.zsets k));
        ttls = put s.ttls k (ttl_unless_empty (without_scored xs (s.zsets k)) (s.ttls k));
      }
  pub zpopmin_lem :
      (k : String) (n : ℕ) (s : Keyspace)
      → zpopmin k n s ≡ (
        take n (s.zsets k),
        record s {
          zsets = put s.zsets k (drop n (s.zsets k));
          ttls = put s.ttls k (ttl_unless_empty (drop n (s.zsets k)) (s.ttls k));
        },
      )
  pub zrange_lem : (k : String) (s : Keyspace) → zrange k s ≡ s.zsets k
  pub zrange_by_score_lem :
      (k : String) (low high : ℕ) (s : Keyspace)
      → zrange_by_score k low high s ≡ keep (in_score_range low high) (s.zsets k)
  pub trim_lem : (n : ℕ) (es : List StreamEntry) → length es ≤ n → trim n es ≡ es
  pub xadd_lem :
      (k : String) (n : ℕ) (e : StreamEntry) (s : Keyspace)
      → xadd k n e s ≡ record s { streams = put s.streams k (trim n (s.streams k ++ e ∷ [])) }
