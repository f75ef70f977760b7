-- ===== src/Store.antt =====
-- internal/store: the statements that the service sends to PostgreSQL, on the tables that they name.
pub mod Marks
use matchmaking.Shared.{ℕ, suc, String, Bool, true, false, Option, none, some, List, [], ◌∷◌, ◌++◌}
use matchmaking.Shared.Int.{ℤ}
use matchmaking.Model.{Time, Match, status_confirmed, status_dissolved}
use matchmaking.Redis.{put}
use matchmaking.Effects.{Delivery, delivered, request_lost, reply_lost}

-- A row of matches. A column that no statement has written is `none`.
pub record MatchRow : Type 0 where
  pub id : String
  pub region : String
  pub mode : String
  pub rating_band : String
  pub status : String
  pub player_ids : List String
  pub formed_at : Time
  pub confirmed_at : Option Time
  pub dissolved_at : Option Time
  pub server_addr : Option String

-- A row of rating_history. A float64 stands as its bits, since the code computes nothing with it.
pub record RatingChange : Type 0 where
  pub player_id : String
  pub match_id : String
  pub mu_before : ℕ
  pub sigma_before : ℕ
  pub mu_after : ℕ
  pub sigma_after : ℕ

-- The tables, each by its primary key. A row of player_ratings has the player, the mode and the
-- rating, two of them an int32.
pub record Database : Type 0 where
  pub matches : String → Option MatchRow
  pub player_ratings : ℤ → String → Option ℤ
  pub rating_history : List RatingChange

-- A connection pool: the database and what becomes of each statement.
pub record Store : Type 0 where
  pub database : Database
  pub fates : ℕ → Delivery
  pub statements : ℕ

-- pool.Exec with a statement that changes the database; true stands for the nil error.
abbrev pub exec_as : Delivery → (Database → Database) → Store → Bool × Store
exec_as delivered f st =
    (true, record st { database = f st.database; statements = suc st.statements })
exec_as request_lost f st = (false, record st { statements = suc st.statements })
exec_as reply_lost f st =
    (false, record st { database = f st.database; statements = suc st.statements })

unfoldable pub exec : (Database → Database) → Store → Bool × Store
exec f st = exec_as (st.fates st.statements) f st

-- The columns that InsertMatch writes.
abbrev pub row_of : Match → MatchRow
row_of m = record {
  id = m.id;
  region = m.shard.region;
  mode = m.shard.mode;
  rating_band = m.shard.rating_band;
  status = m.status;
  player_ids = m.player_ids;
  formed_at = m.formed_at;
  confirmed_at = none;
  dissolved_at = none;
  server_addr = none;
}

-- What a row is after an insertion of this one ON CONFLICT DO NOTHING.
abbrev pub or_row : Option MatchRow → MatchRow → Option MatchRow
or_row none row = some row
or_row (some old) row = some old

-- INSERT INTO matches … ON CONFLICT (id) DO NOTHING
unfoldable pub insert_row : Match → Database → Database
insert_row m db = record db { matches = put db.matches m.id (or_row (db.matches m.id) (row_of m)) }

abbrev pub map_row : (MatchRow → MatchRow) → Option MatchRow → Option MatchRow
map_row f none = none
map_row f (some row) = some (f row)

-- UPDATE matches SET … WHERE id = $1
unfoldable pub update_row : String → (MatchRow → MatchRow) → Database → Database
update_row id f db = record db { matches = put db.matches id (map_row f (db.matches id)) }

abbrev pub confirmed_row : Time → MatchRow → MatchRow
confirmed_row at row = record row { status = status_confirmed; confirmed_at = some at }

abbrev pub dissolved_row : Time → MatchRow → MatchRow
dissolved_row at row = record row { status = status_dissolved; dissolved_at = some at }

-- Store.InsertMatch
unfoldable pub insert_match : Match → Store → Bool × Store
unfolding exec insert_row
insert_match m = exec (insert_row m)

-- Store.MarkMatchConfirmed
unfoldable pub mark_match_confirmed : String → Time → Store → Bool × Store
unfolding exec update_row
mark_match_confirmed id at = exec (update_row id (confirmed_row at))

-- Store.MarkMatchDissolved
unfoldable pub mark_match_dissolved : String → Time → Store → Bool × Store
unfolding exec update_row
mark_match_dissolved id at = exec (update_row id (dissolved_row at))

-- Store.SetMatchServerAddr
unfoldable pub set_match_server_addr : String → String → Store → Bool × Store
unfolding exec update_row
set_match_server_addr id addr = exec (update_row id (λ row. record row { server_addr = some addr }))

-- Store.InsertRatingHistory
unfoldable pub insert_rating_history : RatingChange → Store → Bool × Store
unfolding exec
insert_rating_history change =
    exec (λ db. record db { rating_history = db.rating_history ++ change ∷ [] })

-- What GetRating returns: a rating, no row (and no error), or an error.
pub data Rating : Type 0 where
  found : ℤ → Rating
  missing failed : Rating

abbrev pub scanned : Option ℤ → Rating
scanned none = missing
scanned (some rating) = found rating

abbrev pub get_rating_as : Delivery → ℤ → String → Store → Rating × Store
get_rating_as delivered player_id mode st = (
  scanned (st.database.player_ratings player_id mode),
  record st { statements = suc st.statements },
)
get_rating_as _ player_id mode st = (failed, record st { statements = suc st.statements })

-- Store.GetRating
unfoldable pub get_rating : ℤ → String → Store → Rating × Store
get_rating player_id mode st = get_rating_as (st.fates st.statements) player_id mode st
