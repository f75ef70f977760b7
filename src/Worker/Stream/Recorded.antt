-- ===== src/Worker/Stream/Recorded.antt =====
-- What processStreamEntry and claimStaleStreamEntries of internal/worker/worker.go do when every
-- round trip is answered.
use matchmaking.Shared.{
  ℕ, suc, ◌≡◌, refl, ap, ◌∙◌, sym, subst, Bool, true, not, ◌&&◌, Option, none, some, String, List,
  [], ◌∷◌, arith, eqb, Bool-cases, inl, inr,
}
use matchmaking.Model.{Match}
use matchmaking.Json.{Json}
use matchmaking.Effects.{answered, Delivery, delivered}
use matchmaking.Redis.Groups.{Groups}
use matchmaking.Store.{Store, insert_row, insert_match}
use matchmaking.Store.Marks.{IsAnswered, exec-delivered}
use matchmaking.Worker.Stream.{
  Consumer, trip, trip_as, process_each, match_of, after_insert, with_match, process_stream_entry,
  insert,
}
use matchmaking.Worker.Stream.Keeps.{
  IsRecorded, IsStable, IsProcessStable, process_each-Keeps, insert_row-IsRow,
}
use matchmaking.Redis.Groups.{contains_id}
use matchmaking.Worker.Stream.Lossless.{insert_row-row}
use matchmaking.Worker.Stream.Ascending.{contains_id-without}

-- Every round trip with Redis and with PostgreSQL is answered.
abbrev pub IsReliable : Consumer → Type 0
IsReliable c = ((n : ℕ) → c.net n ≡ delivered) × IsAnswered c.store

module _ (G : Groups) (J : Json) (data_of : ℕ → Option String) where
  abbrev pub is_decodable : ℕ → Bool
  is_decodable i = answered (match_of J (data_of i))

  abbrev handled : ℕ → Option Match → Consumer → Consumer
  handled i none c = c
  handled i (some m) c = record c {
    group = G.ack i c.group;
    calls = suc c.calls;
    store = record c.store {
      database = insert_row m c.store.database;
      statements = suc c.store.statements;
    };
  }

  after_insert-handled :
      (i : ℕ) (c : Consumer)
      → ((n : ℕ) → c.net n ≡ delivered)
      → (after_insert G J data_of i true c).1
        ≡ record c { group = G.ack i c.group; calls = suc c.calls }
  unfolding after_insert trip
  after_insert-handled i c net =
      ap (λ (d : Delivery). (trip_as d (λ g. (tt, G.ack i g)) c).1) (net c.calls)

  with_match-handled :
      (i : ℕ) (o : Option Match) (c : Consumer)
      → IsReliable c
      → (with_match G J data_of i o c).1 ≡ handled i o c
  unfolding with_match insert insert_match
  with_match-handled i none c ok = refl
  with_match-handled i (some m) c (net, answers) =
      ap (λ (r : Bool × Store). (after_insert G J data_of i r.0 (record c { store = r.1 })).1)
        (exec-delivered (insert_row m) c.store answers)
      ∙ after_insert-handled i
          (record c {
            store = record c.store {
              database = insert_row m c.store.database;
              statements = suc c.store.statements;
            };
          })
          net

  IsRecorded-IsProcessStable :
      (i : ℕ) → IsProcessStable G J data_of (λ g db. IsRecorded G J data_of i db)
  IsRecorded-IsProcessStable i = record {
    after_insert_row = λ m g db r. let (n, e, row, at) = r in (n, e, row, insert_row-row m db at);
    after_ack = λ j g db r h. h;
  }

  pub IsRecorded-IsStable : (i : ℕ) → IsStable G J data_of (λ g db. IsRecorded G J data_of i db)
  IsRecorded-IsStable i = record {
    after_create = λ g db h. h;
    after_autoclaim = λ start n g db h. h;
    after_read_new = λ n g db h. h;
    processing = IsRecorded-IsProcessStable i;
  }

  -- What processing these entries does: the pending ones among them that decode are acknowledged and
  -- on record, and the others stay as they were.
  pub record Handled (is : List ℕ) (c v : Consumer) : Type 0 where
    pub reliable : IsReliable v
    pub unread_same : v.group.unread ≡ c.group.unread
    pub left :
        (i : ℕ)
        → contains_id i v.group.pending
          ≡ (contains_id i c.group.pending && not (contains_id i is && is_decodable i))
    pub recorded :
        (i : ℕ)
        → contains_id i is ≡ true
        → is_decodable i ≡ true
        → IsRecorded G J data_of i v.store.database

  decodable_same :
      (i j : ℕ) (o : Option Match)
      → match_of J (data_of i) ≡ o
      → eqb j i ≡ true
      → is_decodable j ≡ answered o
  decodable_same i j o e h =
      subst (λ (k : ℕ). is_decodable k ≡ answered o) (ground (arith, h)) (ap answered e)

  left_by :
      (i j : ℕ) (o : Option Match) (is : List ℕ)
      → match_of J (data_of i) ≡ o
      → (contains_id j is && not (eqb j i && answered o))
        ≡ (contains_id j is && not (contains_id j (i ∷ []) && is_decodable j))
  left_by i j o is e = elim (Bool-cases (eqb j i)) [
    | inl same ↦ ground (arith, decodable_same i j o e same)
    | inr other ↦ ground arith
  ]

  handled-Handled :
      (i : ℕ) (o : Option Match) (c : Consumer)
      → match_of J (data_of i) ≡ o
      → IsReliable c
      → Handled (i ∷ []) c (handled i o c)
  handled-Handled i none c e ok = record {
    reliable = ok;
    unread_same = refl;
    left = λ j. ground (arith, left_by i j none c.group.pending e);
    recorded = λ j h d. absurd (ground (arith, decodable_same i j none e));
  }
  handled-Handled i (some m) c e ok = rw (G.ack_lem i c.group) (record {
    reliable = ok;
    unread_same = refl;
    left = λ j.
        contains_id-without i j c.group.pending
        ∙ ground (arith, left_by i j (some m) c.group.pending e);
    recorded = λ j h d.
        subst (λ (k : ℕ). IsRecorded G J data_of k (insert_row m c.store.database)) (ground arith)
          (let (row, at) = insert_row-IsRow m c.store.database in (m, e, row, at));
  })

  process_stream_entry-Handled :
      (i : ℕ) (c : Consumer)
      → IsReliable c
      → Handled (i ∷ []) c (process_stream_entry G J data_of i c).1
  unfolding process_stream_entry
  process_stream_entry-Handled i c ok =
      subst (Handled (i ∷ []) c) (sym (with_match-handled i (match_of J (data_of i)) c ok))
        (handled-Handled i (match_of J (data_of i)) c refl ok)

  pub process_each-Handled :
      (is : List ℕ) (c : Consumer) → IsReliable c → Handled is c (process_each G J data_of is c).1
  unfolding process_each
  process_each-Handled [] c ok = record {
    reliable = ok;
    unread_same = refl;
    left = λ j. ground arith;
    recorded = λ j h d. absurd (ground arith);
  }
  process_each-Handled (i ∷ is) c ok =
      let v = (process_stream_entry G J data_of i c).1 in
      let first = process_stream_entry-Handled i c ok in
      let rest = process_each-Handled is v first.reliable in
      record {
        reliable = rest.reliable;
        unread_same = rest.unread_same ∙ first.unread_same;
        left = λ j. ground (arith, rest.left j, first.left j);
        recorded = λ j h d. elim (Bool-cases (contains_id j is)) [
          | inl later ↦ rest.recorded j later d
          | inr here ↦
              process_each-Keeps G J data_of (λ g db. IsRecorded G J data_of j db)
                (IsRecorded-IsProcessStable j) is v (first.recorded j (ground arith) d)
        ];
      }
