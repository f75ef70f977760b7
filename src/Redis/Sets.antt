-- ===== src/Redis/Sets.antt =====
-- Laws of the documented set operations.
use matchmaking.Shared.{
  ℕ, true, some, false, length, eqb, String, ◌≡◌, refl, not, ◌&&◌, ◌||◌, List, [], ◌∷◌, arith,
  eq_iff, keep,
}
use matchmaking.Redis.{Redis, put, Keyspace, key_exists, contains, with_members, without_members}

-- The set holds the added members and those that it had.
pub contains-with_members :
    (z : String) (xs ys : List String)
    → contains z (with_members xs ys) ≡ (contains z xs || contains z ys)
unfolding contains with_members
contains-with_members z [] ys = refl
contains-with_members z (x ∷ xs) ys =
    ground (arith, contains-with_members z xs ys, contains-with_members z xs (x ∷ ys), eq_iff z x)

contains-keep-not :
    (z : String) (xs ys : List String)
    → contains z (keep (λ y. not (contains y xs)) ys) ≡ (contains z ys && not (contains z xs))
unfolding contains
contains-keep-not z xs [] = refl
contains-keep-not z xs (y ∷ ys) = ground (arith, contains-keep-not z xs ys, eq_iff z y)

-- The set keeps what is not removed.
pub contains-without_members :
    (z : String) (xs ys : List String)
    → contains z (without_members xs ys) ≡ (contains z ys && not (contains z xs))
unfolding without_members
contains-without_members z xs ys = contains-keep-not z xs ys

-- A key of a set that is not empty exists.
pub key_exists-set :
    (k : String) (s : Keyspace) → eqb 0 (length (s.sets k)) ≡ false → key_exists k s ≡ true
unfolding key_exists
key_exists-set k s h = ground arith

-- A set that was given a member is not empty.
pub with_member-ne-nil :
    (x : String) (ys : List String) → eqb 0 (length (with_members (x ∷ []) ys)) ≡ false
unfolding with_members contains
with_member-ne-nil x [] = refl
with_member-ne-nil x (y ∷ ys) = ground arith

-- EXPIRE on a set that is not empty.
pub expire-set :
    (R : Redis) (k : String) (t : ℕ) (s : Keyspace)
    → eqb 0 (length (s.sets k)) ≡ false
    → R.expire k t s ≡ record s { ttls = put s.ttls k (some t) }
expire-set R k t s h = rw (R.expire_lem, key_exists-set k s h)
