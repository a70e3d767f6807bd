-- ===== src/Db.antt =====
-- db.py: the database layer over a connection pool.
--
-- The pool, the driver and the server are a parameter: what taking a connection, giving it back and
-- executing a statement answer, and how they change the world.
pub mod Postgres
pub mod ReadOnly
pub mod Outcome
pub mod Batch
pub mod Status
mod Toy
mod Tests
use mcp_postgres.Prelude.{
  ℕ, ◌+◌, suc, zero, ◌≡◌, Bool, true, false, not, ◌&&◌, ◌||◌, Option, none, some, String, List, [],
  ◌∷◌, ◌++◌, map, length, is_nil, ◌==◌, if◌then◌else◌, max,
}
use mcp_postgres.PyText.{Text, lit, lower_code, text_eq}
use mcp_postgres.Effect.{
  Answer, returned, raised, Call, chain, finish, ◌>>=◌, ◌>>◌, ret, raise, attempt, finally,
}

-- A statement: text, and with `psycopg.sql` the parts that the driver quotes.
pub data Piece : Type 0 where
  verbatim : String → Piece
  identifier : String → Piece
  number_literal : ℕ → Piece
  text_literal : String → Piece

abbrev pub Statement : Type 0
Statement = List Piece

abbrev pub plain_text : String → Statement
plain_text s = verbatim s ∷ []

-- a bind parameter: a value, or the decimal text of a number
pub data Param (A : Type 0) : Type 0 where
  value : A → Param A
  decimal : ℕ → Param A

-- What the cursor holds after a statement: no description where the statement gives no rows.
-- `rowcount` is `none` where the driver has -1.
pub record Reply (A : Type 0) : Type 0 where
  pub rowcount : Option ℕ
  pub status : String
  pub description : Option (List String)
  pub rows : List (List A)

-- the pool with the driver and the server behind it
pub record Server (W A : Type 0) : Type 0 where
  -- `pool.connection()`, entered and left; the flag says that an exception leaves it
  pub checkout : Call W (Unit {0})
  pub putback : Bool → W → W
  pub exec : Statement → List (Param A) → Call W (Reply A)

-- `cur.fetchmany(n)`, whose size is at least 1
abbrev pub take {ℓ} : {A : Type ℓ} → ℕ → List A → List A
take zero xs = []
take (suc n) [] = []
take (suc n) (x ∷ xs) = x ∷ take n xs

abbrev pub drop {ℓ} : {A : Type ℓ} → ℕ → List A → List A
drop zero xs = xs
drop (suc n) [] = []
drop (suc n) (x ∷ xs) = drop n xs

pub record Page (A : Type 0) : Type 0 where
  pub columns : List String
  pub rows : List (List A)
  pub truncated : Bool

-- `fetchmany(max_rows)`, and whether a further row can be fetched
abbrev pub page_of : {A : Type 0} → ℕ → List String → List (List A) → Page A
page_of max_rows columns all =
    let rows = take (max 1 max_rows) all in
    record {
      columns = columns;
      rows = rows;
      truncated = length rows == max_rows && not (is_nil (drop (max 1 max_rows) all));
    }

unfoldable pub page : {A : Type 0} → ℕ → Reply A → Page A
page max_rows r = elim r.description [
  | none ↦ record { columns = []; rows = []; truncated = false }
  | some columns ↦ page_of max_rows columns r.rows
]

-- what `execute` returns
pub record Executed (A : Type 0) : Type 0 where
  pub rowcount : Option ℕ
  pub status : String
  pub columns : Option (List String)
  pub rows : List (List A)

pub data Format : Type 0 where
  text_format json_format : Format

-- `(fmt or "text").lower()`, if it is one of the two
unfoldable pub format_of : Text → Option Format
unfolding text_eq lower_code lit
format_of fmt =
    let low = map lower_code fmt in
    if is_nil fmt || text_eq low (lit "text")
    then some text_format
    else if text_eq low (lit "json")
    then some json_format
    else none

-- the plan as the driver parsed it, or the lines of its text
pub data Plan (A : Type 0) : Type 0 where
  json_plan : Option A → Plan A
  text_plan : List A → Plan A

abbrev pub explain_prefix : Bool → Format → String
explain_prefix true json_format = "EXPLAIN (ANALYZE true, FORMAT JSON) "
explain_prefix true text_format = "EXPLAIN (ANALYZE true, FORMAT TEXT) "
explain_prefix false json_format = "EXPLAIN (FORMAT JSON) "
explain_prefix false text_format = "EXPLAIN (FORMAT TEXT) "

-- `r[0] for r in rows`; `none` is the IndexError of an empty row
unfoldable pub first_cells : {A : Type 0} → List (List A) → Option (List A)
first_cells [] = some []
first_cells ([] ∷ rows) = none
first_cells ((a ∷ r) ∷ rows) = elim (first_cells rows) [ none ↦ none | some as' ↦ some (a ∷ as') ]

abbrev pub json_of : {W A : Type 0} → List (List A) → Call W (Plan A)
json_of [] = ret (json_plan none)
json_of ([] ∷ rows) = raise "tuple index out of range"
json_of ((a ∷ r) ∷ rows) = ret (json_plan (some a))

abbrev pub lines_of : {W A : Type 0} → Option (List A) → Call W (Plan A)
lines_of none = raise "tuple index out of range"
lines_of (some cells) = ret (text_plan cells)

unfoldable pub plan_of : {W A : Type 0} → Format → List (List A) → Call W (Plan A)
unfolding first_cells
plan_of json_format rows = json_of rows
plan_of text_format rows = lines_of (first_cells rows)

-- one statement of `execute_batch` in its result
pub data StatementResult : Type 0 where
  done : Option ℕ → String → StatementResult
  failed : String → StatementResult

-- the local variables of `execute_batch` while it runs
pub record Progress : Type 0 where
  pub results : List StatementResult
  pub first_failed : Option (ℕ × String)
  pub aborted : Bool

pub record BatchResult : Type 0 where
  pub committed : Bool
  pub statement_count : ℕ
  pub results : List StatementResult
  pub first_failed : Option (ℕ × String)

abbrev pub or_first : {A : Type 0} → Option A → A → Option A
or_first none a = some a
or_first (some b) a = some b

abbrev pub started : Progress
started = record { results = []; first_failed = none; aborted = false }

abbrev pub closed : ℕ → Progress → BatchResult
closed count p = record {
  committed = not p.aborted;
  statement_count = count;
  results = p.results;
  first_failed = p.first_failed;
}

abbrev pub begin_stmt : Statement
begin_stmt = plain_text "BEGIN"

abbrev pub begin_read_only : Statement
begin_read_only = plain_text "BEGIN READ ONLY"

abbrev pub commit_stmt : Statement
commit_stmt = plain_text "COMMIT"

abbrev pub rollback_stmt : Statement
rollback_stmt = plain_text "ROLLBACK"

abbrev pub savepoint_stmt : Statement
savepoint_stmt = plain_text "SAVEPOINT mcp_batch"

abbrev pub rollback_to_stmt : Statement
rollback_to_stmt = plain_text "ROLLBACK TO SAVEPOINT mcp_batch"

abbrev pub release_stmt : Statement
release_stmt = plain_text "RELEASE SAVEPOINT mcp_batch"

abbrev pub timeout_stmt : Statement
timeout_stmt = plain_text "SELECT set_config('statement_timeout', %s, true)"

module _ {W A : Type 0} (server : Server W A) where
  -- `with self.pool.connection() as conn, conn.cursor() as cur:`
  abbrev pub leave : {B : Type 0} → Answer B × W → Answer B × W
  leave (returned b, w) = (returned b, server.putback false w)
  leave (raised e, w) = (raised e, server.putback true w)

  abbrev pub with_connection : {B : Type 0} → Call W B → Call W B
  with_connection body w = chain (λ _ w'. leave (body w')) (server.checkout w)

  abbrev pub fetchall : Reply A → Call W (List (List A))
  fetchall r = elim r.description [
    | none ↦ raise "the last operation didn't produce records"
    | some columns ↦ ret r.rows
  ]

  abbrev pub rows_of : Reply A → List String × List (List A)
  rows_of r = elim r.description [ none ↦ ([], []) | some columns ↦ (columns, r.rows) ]

  unfoldable pub select : Statement → List (Param A) → Call W (List String × List (List A))
  select stmt params = with_connection (do r ← server.exec stmt params; ret (rows_of r))

  abbrev pub first_row : List String × List (List A) → Option (List String × List A)
  first_row (columns, []) = none
  first_row (columns, row ∷ rows) = some (columns, row)

  -- the columns with the first row, of which the source makes a dictionary
  unfoldable pub query_one : Statement → List (Param A) → Call W (Option (List String × List A))
  query_one stmt params = do r ← select stmt params; ret (first_row r)

  abbrev pub scalar_of : List (List A) → Call W (Option A)
  scalar_of [] = ret none
  scalar_of ([] ∷ rows) = raise "tuple index out of range"
  scalar_of ((a ∷ row) ∷ rows) = ret (some a)

  unfoldable pub query_scalar : Statement → List (Param A) → Call W (Option A)
  query_scalar stmt params = do (columns, rows) ← select stmt params; scalar_of rows

  abbrev pub set_timeout : Option ℕ → Call W (Unit {0})
  set_timeout none = ret tt
  set_timeout (some ms) = do server.exec timeout_stmt (decimal ms ∷ []); ret tt

  -- `BEGIN READ ONLY`, the body, and `ROLLBACK` whatever happens
  abbrev pub read_only : {B : Type 0} → Call W B → Call W B
  read_only body = do server.exec begin_read_only []; finally body (server.exec rollback_stmt [])

  unfoldable pub run_read_query :
      Statement → List (Param A) → (max_rows : ℕ) → Option ℕ → Call W (Page A)
  run_read_query stmt params max_rows timeout_ms =
      with_connection
        (read_only (do set_timeout timeout_ms; r ← server.exec stmt params; ret (page max_rows r)))

  abbrev pub explain_as : Option Format → String → Bool → Option ℕ → Call W (Format × Plan A)
  explain_as none sql analyze timeout_ms = raise "format must be 'text' or 'json'"
  explain_as (some fmt) sql analyze timeout_ms = do
    rows ← with_connection (
        read_only (do
          set_timeout timeout_ms
          r ← server.exec (verbatim (explain_prefix analyze fmt) ∷ verbatim sql ∷ []) []
          fetchall r))
    plan ← plan_of fmt rows
    ret (fmt, plan)

  unfoldable pub explain : String → Bool → Text → Option ℕ → Call W (Format × Plan A)
  explain sql analyze fmt timeout_ms = explain_as (format_of fmt) sql analyze timeout_ms

  abbrev pub executed : Reply A → Executed A
  executed r = record {
    rowcount = r.rowcount;
    status = r.status;
    columns = r.description;
    rows = (rows_of r).1;
  }

  unfoldable pub execute : Statement → List (Param A) → Call W (Executed A)
  execute stmt params = with_connection (do r ← server.exec stmt params; ret (executed r))

  -- What follows the statement with index `i`, by its outcome; `rest` is the loop's next round.
  -- The cursor's row count and status are those of the statement executed last, the release.
  abbrev pub settle :
      Bool → ℕ → Progress → (Progress → Call W Progress) → Answer (Reply A) → Call W Progress
  settle stop i p rest (raised e) =
      let p' = record p {
        results = p.results ++ failed e ∷ [];
        first_failed = or_first p.first_failed (i, e);
      } in
      do
        server.exec rollback_to_stmt []
        if stop then ret (record p' { aborted = true }) else rest p'
  settle stop i p rest (returned _) = do
    r ← server.exec release_stmt []
    rest (record p { results = p.results ++ done r.rowcount r.status ∷ [] })

  unfoldable pub batch_loop : Bool → ℕ → List String → Progress → Call W Progress
  batch_loop stop i [] p = ret p
  batch_loop stop i (s ∷ ss) p = do
    server.exec savepoint_stmt []
    r ← attempt (server.exec (plain_text s) [])
    settle stop i p (batch_loop stop (i + 1) ss) r

  abbrev pub close_batch : ℕ → Progress → Call W BatchResult
  close_batch count p = do
    server.exec (if p.aborted then rollback_stmt else commit_stmt) []
    ret (closed count p)

  unfoldable pub execute_batch : List String → Bool → Call W BatchResult
  execute_batch statements stop_on_error = with_connection (do
    server.exec begin_stmt []
    p ← batch_loop stop_on_error 0 statements started
    close_batch (length statements) p)
