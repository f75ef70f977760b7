-- ===== src/Store/Marks.antt =====
-- The row of a match after it has been inserted and marked, in either order: match.go.
use matchmaking.Shared.{ℕ, suc, Bool, true, ◌≡◌, none, some, arith, eq_iff, ap, ◌∙◌}
use matchmaking.Effects.{Delivery, delivered}
use matchmaking.Model.{Time, Match}
use matchmaking.Store.{
  Database, Store, MatchRow, exec, exec_as, row_of, insert_row, update_row, confirmed_row,
  dissolved_row, insert_match, mark_match_confirmed, mark_match_dissolved,
}

-- Every statement of the pool is carried out and answered.
abbrev pub IsAnswered : Store → Type 0
IsAnswered st = (n : ℕ) → st.fates n ≡ delivered

pub exec-delivered :
    (f : Database → Database) (st : Store)
    → IsAnswered st
    → exec f st ≡ (true, record st { database = f st.database; statements = suc st.statements })
unfolding exec
exec-delivered f st ok = ap (λ (d : Delivery). exec_as d f st) (ok st.statements)

-- Two statements, one after the other.
exec-exec :
    (f g : Database → Database) (st : Store)
    → IsAnswered st
    → (exec g (exec f st).1).1.database ≡ g (f st.database)
exec-exec f g st ok =
    ap (λ (r : Bool × Store). (exec g r.1).1.database) (exec-delivered f st ok)
    ∙ ap (λ (r : Bool × Store). r.1.database)
        (exec-delivered g (record st { database = f st.database; statements = suc st.statements })
          ok)

-- A mark after the insertion is in the row; a mark before it finds no row and is lost.
module _ (m : Match) (f : MatchRow → MatchRow) (db : Database) where
  update_row-insert_row :
      db.matches m.id ≡ none
      → (update_row m.id f (insert_row m db)).matches m.id ≡ some (f (row_of m))
  unfolding update_row insert_row
  update_row-insert_row h = ground (arith, eq_iff m.id m.id)

  insert_row-update_row :
      db.matches m.id ≡ none → (insert_row m (update_row m.id f db)).matches m.id ≡ some (row_of m)
  unfolding update_row insert_row
  insert_row-update_row h = ground (arith, eq_iff m.id m.id)

-- The row of a match that was inserted and marked, and of one that was marked and then inserted.
pub record Persists (mark : Store → Bool × Store) (f : MatchRow → MatchRow) (m : Match) (st : Store)
    : Type 0 where
  pub late : (mark (insert_match m st).1).1.database.matches m.id ≡ some (f (row_of m))
  pub early : (insert_match m (mark st).1).1.database.matches m.id ≡ some (row_of m)

update-Persists :
    (f : MatchRow → MatchRow) (m : Match) (st : Store)
    → IsAnswered st
    → st.database.matches m.id ≡ none
    → Persists (exec (update_row m.id f)) f m st
unfolding insert_match
update-Persists f m st ok absent = record {
  late =
      ap (λ (db : Database). db.matches m.id) (exec-exec (insert_row m) (update_row m.id f) st ok)
      ∙ update_row-insert_row m f st.database absent;
  early =
      ap (λ (db : Database). db.matches m.id) (exec-exec (update_row m.id f) (insert_row m) st ok)
      ∙ insert_row-update_row m f st.database absent;
}

-- For a match that has no row, when the statements are carried out and answered: a mark as
-- confirmed or dissolved after the insertion is in the row, with its time; a mark before the
-- insertion is lost, and the row is then as it was inserted.
pub mark-insert_match :
    (m : Match) (at : Time) (st : Store)
    → IsAnswered st
    → st.database.matches m.id ≡ none
    → Persists (mark_match_confirmed m.id at) (confirmed_row at) m st
      × Persists (mark_match_dissolved m.id at) (dissolved_row at) m st
unfolding mark_match_confirmed mark_match_dissolved
mark-insert_match m at st ok absent = (
  update-Persists (confirmed_row at) m st ok absent,
  update-Persists (dissolved_row at) m st ok absent,
)
