-- ===== src/Worker/Stream/Keeps.antt =====
-- What every step of the stream consumer keeps, whatever becomes of its round trips:
-- internal/worker/worker.go.
use matchmaking.Shared.{
  eq_iff, Option-cases, arith, ℕ, zero, suc, String, ◌≡◌, refl, Bool, true, false, Option, none,
  some, List, [], ◌∷◌, inl, inr, eqb,
}
use matchmaking.Model.{Match}
use matchmaking.Json.{Json}
use matchmaking.Effects.{Delivery, delivered, request_lost, reply_lost}
use matchmaking.Redis.Groups.{Group, Groups}
use matchmaking.Store.{Database, MatchRow, exec, exec_as, insert_match, insert_row, row_of}
use matchmaking.Worker.Stream.{
  Consumer, C, Claim, Read, entries, nothing, cancelled, broken, Consumption, trip, trip_as, insert,
  after_insert, with_match, match_of, process_stream_entry, process_each, resume, after_claim,
  claim_from, claim_stale_stream_entries, ensure_stream_group, read_group, after_read,
  stream_consumer_loop, claim_count, read_count,
}

-- A property of the group and the database.
abbrev pub Holds : (Group → Database → Type 0) → Consumer → Type 0
Holds I c = I c.group c.store.database

-- A computation that keeps it.
abbrev pub Keeps : {A : Type 0} → (Group → Database → Type 0) → C A → Type 0
Keeps I m = (c : Consumer) → Holds I c → Holds I (m c).1

module _ (G : Groups) (J : Json) (data_of : ℕ → Option String) where
  -- The match of an entry has a row.
  abbrev pub IsRecorded : ℕ → Database → Type 0
  IsRecorded i db =
      (m : Match) × (match_of J (data_of i) ≡ some m)
      × (row : MatchRow) × (db.matches m.id ≡ some row)

  -- A property that processing keeps; an entry is acknowledged only when its match has a row.
  pub record IsProcessStable (I : Group → Database → Type 0) : Type 0 where
    pub after_insert_row : (m : Match) (g : Group) (db : Database) → I g db → I g (insert_row m db)
    pub after_ack :
        (i : ℕ) (g : Group) (db : Database) → IsRecorded i db → I g db → I (G.ack i g) db

  -- A property that each command of the consumer keeps.
  pub record IsStable (I : Group → Database → Type 0) : Type 0 where
    pub after_create : (g : Group) (db : Database) → I g db → I (G.create g).1 db
    pub after_autoclaim :
        (start n : ℕ) (g : Group) (db : Database) → I g db → I (G.autoclaim start n g).1 db
    pub after_read_new : (n : ℕ) (g : Group) (db : Database) → I g db → I (G.read_new n g).1 db
    pub processing : IsProcessStable I

module _ (I : Group → Database → Type 0) where
  trip_as-Holds :
      {A : Type 0} (d : Delivery) (f : Group → A × Group) (c : Consumer)
      → ((g : Group) → I g c.store.database → I (f g).1 c.store.database)
      → Holds I c
      → Holds I (trip_as d f c).1
  trip_as-Holds delivered f c h i = h c.group i
  trip_as-Holds request_lost f c h i = i
  trip_as-Holds reply_lost f c h i = h c.group i

  pub trip-Holds :
      {A : Type 0} (f : Group → A × Group) (c : Consumer)
      → ((g : Group) → I g c.store.database → I (f g).1 c.store.database)
      → Holds I c
      → Holds I (trip f c).1
  unfolding trip
  trip-Holds f c h i = trip_as-Holds (c.net c.calls) f c h i

-- An insertion that is answered has put the match on record.
pub insert_row-IsRow :
    (m : Match) (db : Database) → (row : MatchRow) × ((insert_row m db).matches m.id ≡ some row)
unfolding insert_row
insert_row-IsRow m db = elim (Option-cases (db.matches m.id)) [
  | inl e ↦ (row_of m, ground (arith, eq_iff m.id m.id))
  | inr (row, e) ↦ (row, ground (arith, eq_iff m.id m.id))
]

module _ (G : Groups) (J : Json) (data_of : ℕ → Option String) (I : Group → Database → Type 0)
    (stable : IsProcessStable G J data_of I) where
  ack-Keeps :
      (i : ℕ) (ok : Bool) (c : Consumer)
      → (ok ≡ true → IsRecorded G J data_of i c.store.database)
      → Holds I c
      → Holds I (after_insert G J data_of i ok c).1
  unfolding after_insert
  ack-Keeps i false c recorded h = h
  ack-Keeps i true c recorded h =
      trip-Holds I (λ g. (tt, G.ack i g)) c
        (λ g. stable.after_ack i g c.store.database (recorded refl)) h

  inserted-Keeps :
      (d : Delivery) (i : ℕ) (m : Match) (c : Consumer)
      → match_of J (data_of i) ≡ some m
      → Holds I c
      → let (ok, st) = exec_as d (insert_row m) c.store in
        Holds I (after_insert G J data_of i ok (record c { store = st })).1
  inserted-Keeps delivered i m c e h =
      ack-Keeps i true (record c { store = (exec_as delivered (insert_row m) c.store).1 })
        (λ t. let (row, at) = insert_row-IsRow m c.store.database in (m, e, row, at))
        (stable.after_insert_row m c.group c.store.database h)
  inserted-Keeps request_lost i m c e h =
      ack-Keeps i false (record c { store = (exec_as request_lost (insert_row m) c.store).1 })
        (λ t. absurd (ground arith)) h
  inserted-Keeps reply_lost i m c e h =
      ack-Keeps i false (record c { store = (exec_as reply_lost (insert_row m) c.store).1 })
        (λ t. absurd (ground arith)) (stable.after_insert_row m c.group c.store.database h)

  with_match-Keeps :
      (i : ℕ) (o : Option Match) → match_of J (data_of i) ≡ o → Keeps I (with_match G J data_of i o)
  unfolding with_match insert insert_match exec
  with_match-Keeps i none e c h = h
  with_match-Keeps i (some m) e c h = inserted-Keeps (c.store.fates c.store.statements) i m c e h

  pub process_each-Keeps : (is : List ℕ) → Keeps I (process_each G J data_of is)
  unfolding process_each process_stream_entry
  process_each-Keeps [] c h = h
  process_each-Keeps (i ∷ is) c h =
      process_each-Keeps is _ (with_match-Keeps i (match_of J (data_of i)) refl c h)

module _ (G : Groups) (J : Json) (data_of : ℕ → Option String) (I : Group → Database → Type 0)
    (stable : IsStable G J data_of I) where
  after_claim-Keeps :
      (continue : ℕ → C Claim) (reply : Option (List ℕ × ℕ))
      → ((next : ℕ) → Keeps I (continue next))
      → Keeps I (after_claim G J data_of continue reply)
  unfolding after_claim
  after_claim-Keeps continue none hc c h = h
  after_claim-Keeps continue (some (msgs, next)) hc c h =
      resume-Keeps (eqb next 0) _ (process_each-Keeps G J data_of I stable.processing msgs c h)
    where
      resume-Keeps : (b : Bool) → Keeps I (resume G J data_of continue next b)
      resume-Keeps true c h = h
      resume-Keeps false c h = hc next c h

  pub claim_from-Keeps : (fuel start : ℕ) → Keeps I (claim_from G J data_of fuel start)
  unfolding claim_from
  claim_from-Keeps zero start c h = h
  claim_from-Keeps (suc fuel) start c h =
      after_claim-Keeps (claim_from G J data_of fuel) (trip (G.autoclaim start claim_count) c).0
        (claim_from-Keeps fuel) _
        (trip-Holds I (G.autoclaim start claim_count) c
          (λ g. stable.after_autoclaim start claim_count g c.store.database) h)

  pub claim_stale_stream_entries-Keeps :
      (fuel : ℕ) → Keeps I (claim_stale_stream_entries G J data_of fuel)
  unfolding claim_stale_stream_entries
  claim_stale_stream_entries-Keeps fuel = claim_from-Keeps fuel 0

  pub ensure_stream_group-Keeps : Keeps I (ensure_stream_group G J data_of)
  unfolding ensure_stream_group
  ensure_stream_group-Keeps c h =
      trip-Holds I G.create c (λ g. stable.after_create g c.store.database) h

  pub read_group-Keeps : Keeps I (read_group G J data_of)
  unfolding read_group
  read_group-Keeps c h =
      trip-Holds I (G.read_new read_count) c
        (λ g. stable.after_read_new read_count g c.store.database) h

  after_read-Keeps :
      (continue : C Consumption) (r : Read)
      → Keeps I continue
      → Keeps I (after_read G J data_of continue r)
  unfolding after_read
  after_read-Keeps continue (entries is) hc c h =
      hc _ (process_each-Keeps G J data_of I stable.processing is c h)
  after_read-Keeps continue nothing hc c h = hc c h
  after_read-Keeps continue cancelled hc c h = h
  after_read-Keeps continue broken hc c h = h

  pub stream_consumer_loop-Keeps : (rounds : ℕ) → Keeps I (stream_consumer_loop G J data_of rounds)
  unfolding stream_consumer_loop
  stream_consumer_loop-Keeps zero c h = h
  stream_consumer_loop-Keeps (suc rounds) c h =
      after_read-Keeps (stream_consumer_loop G J data_of rounds) (read_group G J data_of c).0
        (stream_consumer_loop-Keeps rounds) _ (read_group-Keeps c h)
