-- ===== src/Postgres.antt =====
-- The pgx connection pool that `metadata` and `user` call: an interface, with the world it changes.
use go_image_service.Base.{ℕ, String, List, Option, Err, M}

pub data Column : Type 0 where
  text : String → Column
  timestamp : ℕ → Column

-- The rows that `rows.Next` delivers, and what `rows.Err` says after the last.
pub record Cursor : Type 0 where
  pub rows : List (List Column)
  pub failure : Option Err

-- A statement and its arguments. `query_row` answers the columns of the first row; its error, which
-- `Scan` reports, is `no_rows` where there is none.
pub record Postgres (W : Type 0) : Type 0 where
  pub exec : String → List String → M W (Unit {0})
  pub query_row : String → List String → M W (List Column)
  pub query : String → List String → M W Cursor
