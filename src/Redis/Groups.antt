-- ===== src/Redis/Groups.antt =====
-- A stream with its consumer group as a server keeps them: a parameter with the documented effects
-- of XADD, XGROUP CREATE, XAUTOCLAIM, XREADGROUP and XACK. An entry is its id; ids grow and are not 0-0.
use matchmaking.Shared.{
  ℕ, ◌-◌, ◌≤◌, arith, length, ◌||◌, ◌≡◌, refl, Bool, true, false, not, List, [], ◌∷◌, ◌++◌, leb,
  eqb, take, drop, keep, if◌then◌else◌,
}

abbrev pub contains_id : ℕ → List ℕ → Bool
contains_id i [] = false
contains_id i (j ∷ js) = eqb i j || contains_id i js

abbrev pub without_ids : List ℕ → List ℕ → List ℕ
without_ids gone = keep (λ j. not (contains_id j gone))

-- The entries that the stream holds, whether the group exists, the entries that it has not
-- delivered, and those that it has delivered and that are not acknowledged, by their ids. Without a
-- group no entry is pending.
pub record Group : Type 0 where
  pub stream : List ℕ
  pub created : Bool
  pub unread : List ℕ
  pub pending : List ℕ

-- The pending entries from an id on.
abbrev pub from : ℕ → List ℕ → List ℕ
from start = keep (leb start)

-- Where a claim goes on: the first id that it has not reached, or 0-0 at the end.
abbrev pub cursor : List ℕ → ℕ
cursor [] = 0
cursor (i ∷ is) = i

abbrev pub without_id : ℕ → List ℕ → List ℕ
without_id i = keep (λ j. not (eqb i j))

pub record Groups : Type 0 where
  -- How many of the oldest entries MAXLEN ~ evicts: the last ones stay, as many as it names.
  pub evicted : ℕ → List ℕ → ℕ
  -- XADD with MAXLEN ~. An evicted entry is not delivered any more, and is pending no longer: a
  -- claim finds it deleted.
  pub add : ℕ → ℕ → Group → Group
  -- XGROUP CREATE … 0 MKSTREAM; false is the answer BUSYGROUP.
  pub create : Group → Bool × Group
  -- XAUTOCLAIM with MINIDLE 0, from an id, of at most so many entries. The owners are not kept.
  pub autoclaim : ℕ → ℕ → Group → (List ℕ × ℕ) × Group
  -- XREADGROUP … >, of at most so many entries.
  pub read_new : ℕ → Group → List ℕ × Group
  pub ack : ℕ → Group → Group
  pub evicted_lem : (max : ℕ) (es : List ℕ) → evicted max es ≤ length es - max
  pub add_lem :
      (max i : ℕ) (g : Group)
      → let es = g.stream ++ i ∷ [] in
        let gone = take (evicted max es) es in
        add max i g ≡ record g {
          stream = drop (evicted max es) es;
          unread = without_ids gone (g.unread ++ i ∷ []);
          pending = without_ids gone g.pending;
        }
  pub create_lem :
      (g : Group)
      → create g ≡ (if g.created then (false, g) else (true, record g { created = true }))
  pub autoclaim_lem :
      (start count : ℕ) (g : Group)
      → autoclaim start count g
        ≡ ((take count (from start g.pending), cursor (drop count (from start g.pending))), g)
  pub read_new_lem :
      (count : ℕ) (g : Group)
      → read_new count g ≡ (
        take count g.unread,
        record g { unread = drop count g.unread; pending = g.pending ++ take count g.unread },
      )
  pub ack_lem : (i : ℕ) (g : Group) → ack i g ≡ record g { pending = without_id i g.pending }

-- A server that has these effects.
abbrev pub memory_groups : Groups
memory_groups = record {
  evicted = λ max es. length es - max;
  add = λ max i g.
      let es = g.stream ++ i ∷ [] in
      let gone = take (length es - max) es in
      record g {
        stream = drop (length es - max) es;
        unread = without_ids gone (g.unread ++ i ∷ []);
        pending = without_ids gone g.pending;
      };
  evicted_lem = λ max es. omega arith;
  add_lem = λ max i g. refl;
  create = λ g. if g.created then (false, g) else (true, record g { created = true });
  autoclaim = λ start count g.
      ((take count (from start g.pending), cursor (drop count (from start g.pending))), g);
  read_new = λ count g. (
    take count g.unread,
    record g { unread = drop count g.unread; pending = g.pending ++ take count g.unread },
  );
  ack = λ i g. record g { pending = without_id i g.pending };
  create_lem = λ g. refl;
  autoclaim_lem = λ start count g. refl;
  read_new_lem = λ count g. refl;
  ack_lem = λ i g. refl;
}
