-- ===== src/Tools/Query.antt =====
-- tools/query.py and tools/admin.py: the handlers that read, execute and administrate.
pub mod Guarded
use mcp_postgres.Prelude.{
  ℕ, zero, suc, ◌≡◌, Bool, true, false, Option, none, some, String, str_eq, List, [], ◌∷◌, ◌++◌,
  map, length, if◌then◌else◌, is_nil, max, min,
}
use mcp_postgres.PyText.{Text}
use mcp_postgres.Effect.{Answer, returned, raised}
use mcp_postgres.Capabilities.{DbTier, db_readonly, db_readwrite, db_admin, Session}
use mcp_postgres.Capabilities.Advertised.{needs_tier, needs_power}
use mcp_postgres.Capabilities.Guard.{Notice}
use mcp_postgres.Db
use mcp_postgres.Db.{
  Statement, Piece, verbatim, identifier, number_literal, text_literal, plain_text, Page, Executed,
  Format, Plan, BatchResult,
}
use mcp_postgres.Tools.Base.{
  ℤ, pos, negsuc, clamp, Service, Problem, no_statements, Report, failed, done, Stamped, Tool,
  attach, guard_or_error, try_call, reported, on_world,
}
use mcp_postgres.Tools.Rows.{Value, Dict, rows_as_dicts}

-- `None if timeout_ms in (0, None) else max(1, min(int(timeout_ms), _MAX_TIMEOUT_MS))`
unfoldable pub timeout_of : Option ℤ → Option ℕ
unfolding clamp
timeout_of none = none
timeout_of (some (pos zero)) = none
timeout_of (some (pos (suc n))) = some (clamp 600000 (pos (suc n)))
timeout_of (some (negsuc n)) = some (clamp 600000 (negsuc n))

pub record RowsResult : Type 0 where
  pub columns : List String
  pub row_count : ℕ
  pub truncated : Bool
  pub rows : List Dict

abbrev pub rows_result : Page Value → RowsResult
rows_result p = record {
  columns = p.columns;
  row_count = length p.rows;
  truncated = p.truncated;
  rows = rows_as_dicts p.columns p.rows;
}

-- A call of one of the tools with its arguments.
pub data Request : Type 0 where
  run_read_query : (sql : String) → (max_rows : ℤ) → (timeout_ms : Option ℤ) → Request
  explain_query :
      (sql : String) → (analyze : Bool) → (format : Text) → (timeout_ms : Option ℤ) → Request
  sample_table : (table schema : String) → (limit : ℤ) → Request
  execute_sql : (sql : String) → Request
  execute_batch : (statements : List String) → (stop_on_error : Bool) → Request
  create_database : (name : String) → (owner : Option String) → Request
  create_role :
      (name : String)
      → (login : Bool) → (password : Option String) → (createdb createrole : Bool) → Request
  grant : (privileges on_object to_role : String) → Request
  revoke : (privileges on_object from_role : String) → Request
  admin_sql : (sql_text : String) → Request

-- what the tools report when they are done
pub data Result : Type 0 where
  rows : RowsResult → Result
  planned : Bool → Format × Plan Value → Result
  sampled : (table schema : String) → RowsResult → Result
  executed : Executed Value → Result
  batch : BatchResult → Result
  created_database : String → Option String → Result
  created_role : String → Result
  granted : (privileges on_object to_role : String) → Result
  revoked : (privileges on_object from_role : String) → Result

-- `if x:` for a text that may be missing
abbrev pub given : Option String → Option String
given none = none
given (some s) = if str_eq s "" then none else some s

abbrev pub owner_pieces : Option String → Statement
owner_pieces none = []
owner_pieces (some owner) = verbatim " OWNER " ∷ identifier owner ∷ []

abbrev pub password_pieces : Option String → Statement
password_pieces none = []
password_pieces (some password) = verbatim " PASSWORD " ∷ text_literal password ∷ []

abbrev pub sample_stmt : String → String → ℕ → Statement
sample_stmt schema table n =
    verbatim "SELECT * FROM "
    ∷ identifier schema
    ∷ verbatim "."
    ∷ identifier table
    ∷ verbatim " LIMIT "
    ∷ number_literal n
    ∷ []

abbrev pub create_database_stmt : String → Option String → Statement
create_database_stmt name owner =
    verbatim "CREATE DATABASE " ∷ identifier name ∷ owner_pieces (given owner)

abbrev pub option_piece : Bool → String → Statement
option_piece b s = if b then verbatim s ∷ [] else []

abbrev pub create_role_stmt : String → Bool → Option String → Bool → Bool → Statement
create_role_stmt name login password createdb createrole =
    verbatim "CREATE ROLE "
    ∷ identifier name
    ∷ verbatim " WITH "
    ∷ verbatim (if login then "LOGIN" else "NOLOGIN")
    ∷ (option_piece createdb " CREATEDB"
        ++ (option_piece createrole " CREATEROLE" ++ password_pieces (given password)))

abbrev pub grant_stmt : String → String → String → Statement
grant_stmt privileges on_object to_role =
    verbatim "GRANT "
    ∷ verbatim privileges
    ∷ verbatim " ON "
    ∷ verbatim on_object
    ∷ verbatim " TO "
    ∷ verbatim to_role
    ∷ []

abbrev pub revoke_stmt : String → String → String → Statement
revoke_stmt privileges on_object from_role =
    verbatim "REVOKE "
    ∷ verbatim privileges
    ∷ verbatim " ON "
    ∷ verbatim on_object
    ∷ verbatim " FROM "
    ∷ verbatim from_role
    ∷ []

module _ {W : Type 0} (service : Service W Value) where
  abbrev db : Db.Server W Value
  db = service.server

  abbrev pub run_read_query_tool : String → ℤ → Option ℤ → Tool W Result
  run_read_query_tool sql max_rows timeout_ms = guard_or_error service (needs_tier db_readonly) (
      try_call service
        (Db.run_read_query db (plain_text sql) [] (clamp 10000 max_rows) (timeout_of timeout_ms))
        (λ p. rows (rows_result p)))

  abbrev pub explain_query_tool : String → Bool → Text → Option ℤ → Tool W Result
  explain_query_tool sql analyze format timeout_ms =
      guard_or_error service (needs_tier db_readonly) (
        try_call service (Db.explain db sql analyze format (timeout_of timeout_ms))
          (planned analyze))

  abbrev pub sample_table_tool : String → String → ℤ → Tool W Result
  sample_table_tool table schema limit =
      let n = clamp 1000 limit in
      guard_or_error service (needs_tier db_readonly) (
        try_call service (Db.run_read_query db (sample_stmt schema table n) [] n (some 30000))
          (λ p. sampled table schema (rows_result p)))

  abbrev pub execute_sql_tool : String → Tool W Result
  execute_sql_tool sql =
      guard_or_error service (needs_tier db_readwrite)
        (try_call service (Db.execute db (plain_text sql) []) executed)

  abbrev pub run_batch : List String → Bool → List Notice → Tool W Result
  run_batch [] stop notices s = (returned (attach service (failed no_statements) notices), s)
  run_batch (x ∷ xs) stop notices s =
      try_call service (Db.execute_batch db (x ∷ xs) stop) batch notices s

  abbrev pub execute_batch_tool : List String → Bool → Tool W Result
  execute_batch_tool statements stop_on_error =
      guard_or_error service (needs_tier db_readwrite) (run_batch statements stop_on_error)

  abbrev pub create_database_tool : String → Option String → Tool W Result
  create_database_tool name owner = guard_or_error service (needs_power "createdb") (
      try_call service (Db.execute db (create_database_stmt name owner) [])
        (λ _. created_database name owner))

  abbrev pub create_role_tool : String → Bool → Option String → Bool → Bool → Tool W Result
  create_role_tool name login password createdb createrole =
      guard_or_error service (needs_power "createrole") (
        try_call service
          (Db.execute db (create_role_stmt name login password createdb createrole) [])
          (λ _. created_role name))

  abbrev pub grant_tool : String → String → String → Tool W Result
  grant_tool privileges on_object to_role = guard_or_error service (needs_tier db_admin) (
      try_call service (Db.execute db (grant_stmt privileges on_object to_role) [])
        (λ _. granted privileges on_object to_role))

  abbrev pub revoke_tool : String → String → String → Tool W Result
  revoke_tool privileges on_object from_role = guard_or_error service (needs_tier db_admin) (
      try_call service (Db.execute db (revoke_stmt privileges on_object from_role) [])
        (λ _. revoked privileges on_object from_role))

  abbrev pub admin_sql_tool : String → Tool W Result
  admin_sql_tool sql_text =
      guard_or_error service (needs_tier db_admin)
        (try_call service (Db.execute db (plain_text sql_text) []) executed)

  unfoldable pub serve : Request → Tool W Result
  serve (run_read_query sql max_rows timeout_ms) = run_read_query_tool sql max_rows timeout_ms
  serve (explain_query sql analyze format timeout_ms) =
      explain_query_tool sql analyze format timeout_ms
  serve (sample_table table schema limit) = sample_table_tool table schema limit
  serve (execute_sql sql) = execute_sql_tool sql
  serve (execute_batch statements stop_on_error) = execute_batch_tool statements stop_on_error
  serve (create_database name owner) = create_database_tool name owner
  serve (create_role name login password createdb createrole) =
      create_role_tool name login password createdb createrole
  serve (grant privileges on_object to_role) = grant_tool privileges on_object to_role
  serve (revoke privileges on_object from_role) = revoke_tool privileges on_object from_role
  serve (admin_sql sql_text) = admin_sql_tool sql_text
