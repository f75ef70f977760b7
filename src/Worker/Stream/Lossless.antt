-- ===== src/Worker/Stream/Lossless.antt =====
-- Consumers of a match stream that start, claim, read and crash in some order:
-- internal/worker/worker.go.
use matchmaking.Shared.{
  subst, ap, ◌∙◌, ◌<◌, ℕ, suc, ◌≡◌, refl, ◌⊎◌, inl, inr, true, false, Option, some, String, List,
  [], ◌∷◌, ◌++◌, arith, eqb, eq_iff, take, Bool-cases,
}
use matchmaking.Model.{Match}
use matchmaking.Json.{Json}
use matchmaking.Redis.Groups.{Group, Groups, without_id, contains_id}
use matchmaking.Worker.Pop.{stream_max_len}
use matchmaking.Worker.Stream.Trimmed.{
  Survives, contains_id-append, contains_id-take-drop, contains_id-without_ids, evicted_by,
  added-Survives, arrival-Survives, frame-Survives,
}
use matchmaking.Store.{Database, MatchRow, insert_row}
use matchmaking.Worker.Stream.{
  Consumer, ensure_stream_group, claim_stale_stream_entries, stream_consumer_loop, read_group,
  process_each,
}
use matchmaking.Worker.Stream.Keeps.{
  Holds, IsRecorded, IsStable, ensure_stream_group-Keeps, claim_stale_stream_entries-Keeps,
  stream_consumer_loop-Keeps, read_group-Keeps, process_each-Keeps,
}

-- What happens to a stream: an entry is added; a consumer makes sure of the group, claims, or runs
-- the loop; or it crashes after it has read, or after it has processed these entries of a batch.
pub data Act : Type 0 where
  arrive : ℕ → Act
  start_group : Act
  claim : ℕ → Act
  consume : ℕ → Act
  read_and_crash : Act
  process_and_crash : List ℕ → Act

-- How many entries arrive.
abbrev pub and_arrival : Act → ℕ → ℕ
and_arrival (arrive i) n = suc n
and_arrival start_group n = n
and_arrival (claim fuel) n = n
and_arrival (consume rounds) n = n
and_arrival read_and_crash n = n
and_arrival (process_and_crash is) n = n

abbrev pub arrivals : List Act → ℕ
arrivals [] = 0
arrivals (a ∷ later) = and_arrival a (arrivals later)

-- An entry that is still to be read, delivered and not acknowledged, or in the table.
abbrev pub IsAccounted :
    (G : Groups) (J : Json) (data_of : ℕ → Option String) → ℕ → Group → Database → Type 0
IsAccounted G J data_of i g db =
    (contains_id i g.unread ≡ true)
    ⊎ ((contains_id i g.pending ≡ true) ⊎ IsRecorded G J data_of i db)

contains_id-without_id :
    (i j : ℕ) (xs : List ℕ) → eqb j i ≡ false → contains_id i (without_id j xs) ≡ contains_id i xs
contains_id-without_id i j [] h = refl
contains_id-without_id i j (x ∷ xs) h = ground (arith, contains_id-without_id i j xs h)

-- A row that is there stays as it is when a match is inserted.
pub insert_row-row :
    (m : Match) (db : Database) {id : String} {row : MatchRow}
    → db.matches id ≡ some row
    → (insert_row m db).matches id ≡ some row
unfolding insert_row
insert_row-row m db {id} {row} e = ground (arith, eq_iff m.id id)

module _ (G : Groups) (J : Json) (data_of : ℕ → Option String) where
  unfoldable pub act : Act → Consumer → Consumer
  unfolding ensure_stream_group claim_stale_stream_entries stream_consumer_loop read_group
      process_each
  act (arrive i) c = record c { group = G.add stream_max_len i c.group }
  act start_group c = (ensure_stream_group G J data_of c).1
  act (claim fuel) c = (claim_stale_stream_entries G J data_of fuel c).1
  act (consume rounds) c = (stream_consumer_loop G J data_of rounds c).1
  act read_and_crash c = (read_group G J data_of c).1
  act (process_and_crash is) c = (process_each G J data_of is c).1

  unfoldable pub run_acts : List Act → Consumer → Consumer
  unfolding act
  run_acts [] c = c
  run_acts (a ∷ later) c = run_acts later (act a c)

  -- `I n` is a property that stands so many more arrivals.
  module _ (I : ℕ → Group → Database → Type 0) (stable : (n : ℕ) → IsStable G J data_of (I n))
      (arrives : (n i : ℕ) (g : Group) (db : Database)
        → I (suc n) g db
        → I n (G.add stream_max_len i g) db) where
    act-Holds :
        (n : ℕ) (a : Act) (c : Consumer) → Holds (I (and_arrival a n)) c → Holds (I n) (act a c)
    unfolding act
    act-Holds n (arrive i) c h = arrives n i c.group c.store.database h
    act-Holds n start_group c h = ensure_stream_group-Keeps G J data_of (I n) (stable n) c h
    act-Holds n (claim fuel) c h =
        claim_stale_stream_entries-Keeps G J data_of (I n) (stable n) fuel c h
    act-Holds n (consume rounds) c h =
        stream_consumer_loop-Keeps G J data_of (I n) (stable n) rounds c h
    act-Holds n read_and_crash c h = read_group-Keeps G J data_of (I n) (stable n) c h
    act-Holds n (process_and_crash is) c h =
        process_each-Keeps G J data_of (I n) (stable n).processing is c h

    run_acts-Holds :
        (acts : List Act) (c : Consumer)
        → Holds (I (arrivals acts)) c
        → Holds (I 0) (run_acts acts c)
    unfolding run_acts
    run_acts-Holds [] c h = h
    run_acts-Holds (a ∷ later) c h =
        run_acts-Holds later (act a c) (act-Holds (arrivals later) a c h)

  row-IsStable :
      (id : String) (row : MatchRow) → IsStable G J data_of (λ g db. db.matches id ≡ some row)
  row-IsStable id row = record {
    after_create = λ g db h. h;
    after_autoclaim = λ start n g db h. h;
    after_read_new = λ n g db h. h;
    processing = record {
      after_insert_row = λ m g db h. insert_row-row m db h;
      after_ack = λ i g db r h. h;
    };
  }

  -- A row that is in the table of matches stays exactly as it is, its status and times included,
  -- however often the entries of the stream are delivered and claimed again, in whatever order and
  -- whatever becomes of the round trips.
  pub run_acts-row :
      (acts : List Act) (c : Consumer) (id : String) (row : MatchRow)
      → c.store.database.matches id ≡ some row
      → (run_acts acts c).store.database.matches id ≡ some row
  run_acts-row acts c id row h =
      run_acts-Holds (λ n g db. db.matches id ≡ some row) (λ n. row-IsStable id row)
        (λ n i g db e. e) acts c h

  read_new-IsAccounted :
      (i n : ℕ) (g : Group) (db : Database)
      → IsAccounted G J data_of i g db
      → IsAccounted G J data_of i (G.read_new n g).1 db
  read_new-IsAccounted i n g db (inl e) =
      rw (G.read_new_lem n g) (elim (Bool-cases (contains_id i (take n g.unread))) [
        | inl read ↦ inr (inl (ground (arith, contains_id-append i g.pending (take n g.unread))))
        | inr left ↦ inl (ground (arith, contains_id-take-drop i n g.unread))
      ])
  read_new-IsAccounted i n g db (inr (inl e)) =
      rw (G.read_new_lem n g)
        (inr (inl (ground (arith, contains_id-append i g.pending (take n g.unread)))))
  read_new-IsAccounted i n g db (inr (inr r)) = inr (inr r)

  ack_other-IsAccounted :
      (i j : ℕ) (g : Group) (db : Database)
      → eqb j i ≡ false
      → IsAccounted G J data_of i g db
      → IsAccounted G J data_of i (record g { pending = without_id j g.pending }) db
  ack_other-IsAccounted i j g db other (inl e) = inl e
  ack_other-IsAccounted i j g db other (inr (inl e)) =
      inr (inl (rw (contains_id-without_id i j g.pending other) e))
  ack_other-IsAccounted i j g db other (inr (inr r)) = inr (inr r)

  ack-IsAccounted :
      (i j : ℕ) (g : Group) (db : Database)
      → IsRecorded G J data_of j db
      → IsAccounted G J data_of i g db
      → IsAccounted G J data_of i (G.ack j g) db
  ack-IsAccounted i j g db r h = rw (G.ack_lem j g) (elim (Bool-cases (eqb j i)) [
    | inl same ↦ inr (inr (subst (λ (k : ℕ). IsRecorded G J data_of k db) (ground (arith, same)) r))
    | inr other ↦ ack_other-IsAccounted i j g db other h
  ])

  insert_row-IsAccounted :
      (m : Match) (i : ℕ) (g : Group) (db : Database)
      → IsAccounted G J data_of i g db
      → IsAccounted G J data_of i g (insert_row m db)
  insert_row-IsAccounted m i g db (inl e) = inl e
  insert_row-IsAccounted m i g db (inr (inl e)) = inr (inl e)
  insert_row-IsAccounted m i g db (inr (inr (n, e, row, at))) =
      inr (inr (n, e, row, insert_row-row m db at))

  create-IsAccounted :
      (i : ℕ) (g : Group) (db : Database)
      → IsAccounted G J data_of i g db
      → IsAccounted G J data_of i (G.create g).1 db
  create-IsAccounted i g db h =
      rw (G.create_lem g) (elim (Bool-cases g.created) [ inl e ↦ rw e h | inr e ↦ rw e h ])

  arrive-IsAccounted :
      (i j : ℕ) (g : Group) (db : Database)
      → contains_id i (evicted_by G j g) ≡ false
      → IsAccounted G J data_of i (record g { unread = g.unread ++ j ∷ [] }) db
      → IsAccounted G J data_of i (G.add stream_max_len j g) db
  arrive-IsAccounted i j g db stays (inl e) =
      rw (G.add_lem stream_max_len j g)
        (inl (contains_id-without_ids i (evicted_by G j g) (g.unread ++ j ∷ []) stays ∙ e))
  arrive-IsAccounted i j g db stays (inr (inl e)) =
      rw (G.add_lem stream_max_len j g)
        (inr (inl (contains_id-without_ids i (evicted_by G j g) g.pending stays ∙ e)))
  arrive-IsAccounted i j g db stays (inr (inr r)) = inr (inr r)

  behind-IsAccounted :
      (i j : ℕ) (g : Group) (db : Database)
      → IsAccounted G J data_of i g db
      → IsAccounted G J data_of i (record g { unread = g.unread ++ j ∷ [] }) db
  behind-IsAccounted i j g db (inl e) = inl (ground (arith, contains_id-append i g.unread (j ∷ [])))
  behind-IsAccounted i j g db (inr h) = inr h

  -- Accounted for, and in the stream for so many more arrivals.
  abbrev Stays : ℕ → ℕ → Group → Database → Type 0
  Stays i n g db = IsAccounted G J data_of i g db × Survives n i g

  arrive-Stays :
      (i n j : ℕ) (g : Group) (db : Database)
      → Stays i (suc n) g db
      → Stays i n (G.add stream_max_len j g) db
  arrive-Stays i n j g db (h, s) =
      let (stays, survives) = arrival-Survives G i j n g s in
      (arrive-IsAccounted i j g db stays (behind-IsAccounted i j g db h), survives)

  stream-create : (g : Group) → (G.create g).1.stream ≡ g.stream
  stream-create g =
      rw (G.create_lem g) (elim (Bool-cases g.created) [ inl e ↦ rw e refl | inr e ↦ rw e refl ])

  Stays-IsStable : (i n : ℕ) → IsStable G J data_of (Stays i n)
  Stays-IsStable i n = record {
    after_create =
        λ g db (h, s). (create-IsAccounted i g db h, frame-Survives G n i g _ (stream-create g) s);
    after_autoclaim = λ start k g db h. rw (G.autoclaim_lem start k g) h;
    after_read_new = λ k g db (h, s). (
      read_new-IsAccounted i k g db h,
      frame-Survives G n i g _ (ap (λ (q : List ℕ × Group). q.1.stream) (G.read_new_lem k g)) s,
    );
    processing = record {
      after_insert_row = λ m g db (h, s). (insert_row-IsAccounted m i g db h, s);
      after_ack = λ j g db r (h, s). (
        ack-IsAccounted i j g db r h,
        frame-Survives G n i g _ (ap (λ (q : Group). q.stream) (G.ack_lem j g)) s,
      );
    };
  }

  -- However consumers of a match stream make sure of the group, claim, read, process and crash, and
  -- whatever becomes of their round trips with Redis and PostgreSQL, an entry that is added under a
  -- new id is accounted for as long as fewer entries arrive after it than the MAXLEN of the stream,
  -- which is 1000: it is still to be read, or delivered and not acknowledged, or its match has a
  -- row in the table. Every arrival may evict what is older than the last 1000 entries.
  pub run_acts-IsAccounted :
      (before after : List Act) (i : ℕ) (c : Consumer)
      → contains_id i (run_acts before c).group.stream ≡ false
      → arrivals after < stream_max_len
      → Holds (IsAccounted G J data_of i) (run_acts after (act (arrive i) (run_acts before c)))
  unfolding act
  run_acts-IsAccounted before after i c fresh few =
      let v = run_acts before c in
      let (stays, survives) = added-Survives G i (arrivals after) v.group fresh few in
      let queued = inl (ground (arith, contains_id-append i v.group.unread (i ∷ []))) in
      (run_acts-Holds (Stays i) (Stays-IsStable i) (arrive-Stays i) after (act (arrive i) v)
        (arrive-IsAccounted i i v.group v.store.database stays queued, survives)).0
