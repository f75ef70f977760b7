-- ===== src/Redis/Frames.antt =====
-- What a command leaves alone, and what it writes, table by table.
use matchmaking.Shared.{
  inr, eq_iff, inl, arith, Bool-cases, none, ℕ, String, ◌≡◌, some, List, if◌then◌else◌, str_eq,
}
use matchmaking.Redis.{
  key_exists, Redis, Keyspace, StreamEntry, with_scored, without_scored, without_members,
}

module _ (R : Redis) where
  pub texts-zadd :
      (k : String) (score : ℕ) (m : String) (s : Keyspace) → (R.zadd k score m s).texts ≡ s.texts
  texts-zadd k score m s = rw R.zadd_lem

  pub sets-zadd :
      (k : String) (score : ℕ) (m : String) (s : Keyspace) → (R.zadd k score m s).sets ≡ s.sets
  sets-zadd k score m s = rw R.zadd_lem

  pub streams-zadd :
      (k : String) (score : ℕ) (m : String) (s : Keyspace)
      → (R.zadd k score m s).streams ≡ s.streams
  streams-zadd k score m s = rw R.zadd_lem

  pub texts-zrem : (k : String) (xs : List String) (s : Keyspace) → (R.zrem k xs s).texts ≡ s.texts
  texts-zrem k xs s = rw R.zrem_lem

  pub sets-zrem : (k : String) (xs : List String) (s : Keyspace) → (R.zrem k xs s).sets ≡ s.sets
  sets-zrem k xs s = rw R.zrem_lem

  pub streams-zrem :
      (k : String) (xs : List String) (s : Keyspace) → (R.zrem k xs s).streams ≡ s.streams
  streams-zrem k xs s = rw R.zrem_lem

  pub texts-srem : (k : String) (xs : List String) (s : Keyspace) → (R.srem k xs s).texts ≡ s.texts
  texts-srem k xs s = rw R.srem_lem

  pub zsets-srem : (k : String) (xs : List String) (s : Keyspace) → (R.srem k xs s).zsets ≡ s.zsets
  zsets-srem k xs s = rw R.srem_lem

  pub streams-srem :
      (k : String) (xs : List String) (s : Keyspace) → (R.srem k xs s).streams ≡ s.streams
  streams-srem k xs s = rw R.srem_lem

  pub sets-set_ex : (k v : String) (t : ℕ) (s : Keyspace) → (R.set_ex k v t s).sets ≡ s.sets
  sets-set_ex k v t s = rw R.set_ex_lem

  pub zsets-set_ex : (k v : String) (t : ℕ) (s : Keyspace) → (R.set_ex k v t s).zsets ≡ s.zsets
  zsets-set_ex k v t s = rw R.set_ex_lem

  pub streams-set_ex :
      (k v : String) (t : ℕ) (s : Keyspace) → (R.set_ex k v t s).streams ≡ s.streams
  streams-set_ex k v t s = rw R.set_ex_lem

  pub texts-xadd :
      (k : String) (n : ℕ) (e : StreamEntry) (s : Keyspace) → (R.xadd k n e s).texts ≡ s.texts
  texts-xadd k n e s = rw R.xadd_lem

  pub sets-xadd :
      (k : String) (n : ℕ) (e : StreamEntry) (s : Keyspace) → (R.xadd k n e s).sets ≡ s.sets
  sets-xadd k n e s = rw R.xadd_lem

  pub zsets-xadd :
      (k : String) (n : ℕ) (e : StreamEntry) (s : Keyspace) → (R.xadd k n e s).zsets ≡ s.zsets
  zsets-xadd k n e s = rw R.xadd_lem

  pub texts-set_ex :
      (k v : String) (t : ℕ) (s : Keyspace) (j : String)
      → (R.set_ex k v t s).texts j ≡ (if str_eq k j then some v else s.texts j)
  texts-set_ex k v t s j = rw R.set_ex_lem

  pub zsets-zadd :
      (k : String) (score : ℕ) (m : String) (s : Keyspace) (j : String)
      → (R.zadd k score m s).zsets j ≡ (
          if str_eq k j
          then with_scored (record { member = m; score = score }) (s.zsets k)
          else s.zsets j)
  zsets-zadd k score m s j = rw R.zadd_lem

  pub zsets-zrem :
      (k : String) (xs : List String) (s : Keyspace) (j : String)
      → (R.zrem k xs s).zsets j ≡ (if str_eq k j then without_scored xs (s.zsets k) else s.zsets j)
  zsets-zrem k xs s j = rw R.zrem_lem

  pub sets-srem :
      (k : String) (xs : List String) (s : Keyspace) (j : String)
      → (R.srem k xs s).sets j ≡ (if str_eq k j then without_members xs (s.sets k) else s.sets j)
  sets-srem k xs s j = rw R.srem_lem

  pub texts-expire : (k : String) (t : ℕ) (s : Keyspace) → (R.expire k t s).texts ≡ s.texts
  texts-expire k t s = elim (Bool-cases (key_exists k s)) [
    | inl e ↦ rw (R.expire_lem, e)
    | inr e ↦ rw (R.expire_lem, e)
  ]

  pub sets-expire : (k : String) (t : ℕ) (s : Keyspace) → (R.expire k t s).sets ≡ s.sets
  sets-expire k t s = elim (Bool-cases (key_exists k s)) [
    | inl e ↦ rw (R.expire_lem, e)
    | inr e ↦ rw (R.expire_lem, e)
  ]

  pub texts-del_self : (k : String) (s : Keyspace) → (R.del k s).texts k ≡ none
  texts-del_self k s = rw R.del_lem (ground (arith, eq_iff k k))
