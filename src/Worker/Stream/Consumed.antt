-- ===== src/Worker/Stream/Consumed.antt =====
-- streamConsumerLoop of internal/worker/worker.go when every round trip is answered.
use matchmaking.Shared.{
  ℕ, zero, suc, ◌+◌, ◌≤◌, ◌≡◌, refl, ap, ◌∙◌, sym, subst, Bool, true, false, ◌||◌, Option, some,
  String, List, [], ◌∷◌, ◌++◌, arith, length, take, drop, Bool-cases, inl, inr,
}
use matchmaking.Json.{Json}
use matchmaking.Effects.{Delivery}
use matchmaking.Redis.Groups.{Group, Groups}
use matchmaking.Worker.Stream.{
  Consumer, Consumption, running, Read, read_count, read_of, read_group, after_read,
  stream_consumer_loop, trip, trip_as, process_each,
}
use matchmaking.Worker.Stream.Keeps.{IsRecorded, stream_consumer_loop-Keeps}
use matchmaking.Redis.Groups.{contains_id}
use matchmaking.Worker.Stream.Trimmed.{contains_id-take-drop}
use matchmaking.Worker.Stream.Recorded.{
  IsReliable, is_decodable, IsRecorded-IsStable, process_each-Handled,
}

length-drop : (n : ℕ) (is : List ℕ) → length (drop n is) + n ≤ length is + n
length-drop zero is = omega arith
length-drop (suc n) [] = omega arith
length-drop (suc n) (i ∷ is) = omega (arith, length-drop n is)

empty : (is : List ℕ) → length is ≤ 0 → is ≡ []
empty [] h = refl
empty (i ∷ is) h = absurd (omega arith)

in_rest : {a b c : Bool} → a ≡ (b || c) → b ≡ false → a ≡ true → c ≡ true
in_rest h n e = ground arith

module _ (G : Groups) (J : Json) (data_of : ℕ → Option String) where
  -- After so many rounds the loop is still running, every entry has been read, and the matches of
  -- those that decode are on record.
  pub record Consumes (c : Consumer) (r : Consumption) (v : Consumer) : Type 0 where
    pub goes_on : r ≡ running
    pub all_read : v.group.unread ≡ []
    pub recorded :
        (i : ℕ)
        → contains_id i c.group.unread ≡ true
        → is_decodable G J data_of i ≡ true
        → IsRecorded G J data_of i v.store.database

  -- The consumer after a read that was answered.
  abbrev read_by : Consumer → Consumer
  read_by c = record c {
    group = record c.group {
      unread = drop read_count c.group.unread;
      pending = c.group.pending ++ take read_count c.group.unread;
    };
    calls = suc c.calls;
  }

  read_group-answered :
      (c : Consumer)
      → IsReliable c
      → read_group G J data_of c ≡ (
        read_of G J data_of (c.is_cancelled c.calls) (some (take read_count c.group.unread)),
        read_by c,
      )
  unfolding read_group trip
  read_group-answered c ok =
      ap
        (λ (d : Delivery).
          let (reply, v) = trip_as d (G.read_new read_count) c in
          (read_of G J data_of (c.is_cancelled c.calls) reply, v))
        (ok.0 c.calls)
      ∙ ap
          (λ (r : List ℕ × Group). (
            read_of G J data_of (c.is_cancelled c.calls) (some r.0),
            record c { group = r.1; calls = suc c.calls },
          ))
          (G.read_new_lem read_count c.group)

  module _ (rounds : ℕ)
      (continues : (v : Consumer)
        → IsReliable v
        → length v.group.unread ≤ rounds
        → let (r, u) = stream_consumer_loop G J data_of rounds v in Consumes v r u) where
    after_read-Consumes :
        (b : Bool) (unread : List ℕ) (c : Consumer)
        → IsReliable c
        → c.group.unread ≡ unread
        → length unread ≤ suc rounds
        → let (r, v) =
            after_read G J data_of
              (stream_consumer_loop G J data_of rounds)
              (read_of G J data_of b (some (take read_count unread)))
              (read_by c) in
          Consumes c r v
    unfolding after_read read_of
    after_read-Consumes b [] c ok e enough =
        let next = continues (read_by c) ok (rw (ap (drop {A = ℕ} read_count) e) (omega arith)) in
        record {
          goes_on = next.goes_on;
          all_read = next.all_read;
          recorded = λ j u d. absurd (ground (arith, sym u ∙ ap (contains_id j) e));
        }
    after_read-Consumes b (i ∷ is) c ok e enough =
        let batch = take read_count (i ∷ is) in
        let done = process_each-Handled G J data_of batch (read_by c) ok in
        let v = (process_each G J data_of batch (read_by c)).1 in
        let unread : v.group.unread ≡ drop 9 is =
          done.unread_same ∙ ap (drop {A = ℕ} read_count) e in
        let next =
          continues v done.reliable (omega (arith, ap (length {A = ℕ}) unread, length-drop 9 is)) in
        record {
          goes_on = next.goes_on;
          all_read = next.all_read;
          recorded = λ j u d. elim (Bool-cases (contains_id j batch)) [
            | inl now ↦
                stream_consumer_loop-Keeps G J data_of (λ g db. IsRecorded G J data_of j db)
                  (IsRecorded-IsStable G J data_of j) rounds v (done.recorded j now d)
            | inr later ↦
                next.recorded j
                  (ap (contains_id j) unread
                    ∙ in_rest (contains_id-take-drop j read_count (i ∷ is)) later
                        (sym (ap (contains_id j) e) ∙ u))
                  d
          ];
        }

  -- When every round trip is answered, the stream consumer is still running after as many rounds as
  -- there are unread entries, has read them all, and the match of each one that holds a match has a
  -- row.
  pub stream_consumer_loop-Consumes :
      (rounds : ℕ) (c : Consumer)
      → IsReliable c
      → length c.group.unread ≤ rounds
      → let (r, v) = stream_consumer_loop G J data_of rounds c in Consumes c r v
  unfolding stream_consumer_loop
  stream_consumer_loop-Consumes zero c ok enough = record {
    goes_on = refl;
    all_read = empty c.group.unread enough;
    recorded =
        λ j u d. absurd (ground (arith, sym u ∙ ap (contains_id j) (empty c.group.unread enough)));
  }
  stream_consumer_loop-Consumes (suc rounds) c ok enough =
      subst
        (λ (r : Read × Consumer).
          let (q, v) = after_read G J data_of (stream_consumer_loop G J data_of rounds) r.0 r.1 in
          Consumes c q v)
        (sym (read_group-answered c ok))
        (after_read-Consumes rounds (stream_consumer_loop-Consumes rounds) (c.is_cancelled c.calls)
          c.group.unread c ok refl enough)
