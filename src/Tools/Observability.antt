-- ===== src/Tools/Observability.antt =====
-- tools/observability.py: the handlers that show what the cluster does, and the two that signal a
-- backend.
pub mod Guarded
pub mod Prefix
use Prim.Native.Char.{code}
use mcp_postgres.Prelude.{
  ℕ, zero, suc, Bool, true, false, not, ◌&&◌, Option, none, some, String, str_eq, List, [], ◌∷◌,
  ◌++◌, length, if◌then◌else◌, min, max, ◌==◌,
}
use mcp_postgres.Effect.{Answer, returned, raised, Call, ◌>>=◌, ret}
use mcp_postgres.Capabilities.{db_readonly, db_admin, Session}
use mcp_postgres.Capabilities.Advertised.{needs_tier, needs_power}
use mcp_postgres.Capabilities.Guard.{Notice}
use mcp_postgres.Db
use mcp_postgres.Db.{Statement, Piece, verbatim, plain_text, Param, decimal}
use mcp_postgres.Tools.Base.{
  ℤ, pos, negsuc, clamp, Service, Problem, own_backend, other, Report, failed, done, Stamped, Tool,
  attach, guard_or_error, on_world,
}
use mcp_postgres.Tools.Rows.{
  Value, Values, Fields, null, bool, int, float, text, opaque, sequence, tuple, dict, nil, cons,
  end, field, Dict, get, rows_as_dicts,
}
use mcp_postgres.Tools.ConfigFiles.{zip_dict}
use mcp_postgres.Tools.Query.{given}

-- `value.replace(c, "\\" + c)`, for a character given by its code
unfoldable pub escape : ℕ → String → String
escape n String.[] = String.[]
escape n (String.◌∷◌ c s) =
    let rest = escape n s in
    if code c == n then String.◌∷◌ "\\" (String.◌∷◌ c rest) else String.◌∷◌ c rest

unfoldable pub with_percent : String → String
with_percent String.[] = "%"
with_percent (String.◌∷◌ c s) = String.◌∷◌ c (with_percent s)

unfoldable pub like_prefix : String → String
like_prefix value = with_percent (escape b'_' (escape b'%' (escape 92 value)))

-- `"WHERE " + " AND ".join(clauses)`, or nothing
abbrev pub and_clauses : List String → Statement
and_clauses [] = []
and_clauses (c ∷ cs) = verbatim " AND " ∷ verbatim c ∷ and_clauses cs

abbrev pub where_clauses : List String → Statement
where_clauses [] = []
where_clauses (c ∷ cs) = verbatim "WHERE " ∷ verbatim c ∷ and_clauses cs

abbrev pub clause_if : Bool → String → List String
clause_if b c = if b then c ∷ [] else []

abbrev pub activity_stmt : Bool → Bool → Statement
activity_stmt include_idle all_databases =
    verbatim "SELECT pid, usename AS user, datname AS database, application_name, "
    ∷ verbatim "       client_addr, backend_type, state, wait_event_type, wait_event, "
    ∷ verbatim "       backend_start, xact_start, query_start, state_change, "
    ∷ verbatim "       EXTRACT(EPOCH FROM (now() - query_start))::float8 AS query_runtime_s, "
    ∷ verbatim "       query "
    ∷ verbatim "FROM pg_stat_activity "
    ∷ (where_clauses (
          clause_if (not all_databases) "datname = current_database()"
          ++ clause_if (not include_idle) "state IS DISTINCT FROM 'idle'")
        ++ (verbatim " " ∷ verbatim "ORDER BY query_start NULLS LAST LIMIT %s" ∷ []))

abbrev pub locks_stmt : Statement
locks_stmt =
    verbatim "SELECT blocked.pid AS blocked_pid, blocked.usename AS blocked_user, "
    ∷ verbatim "       blocked.datname AS database, blocked.wait_event_type, blocked.wait_event, "
    ∷ verbatim "       blocked.query AS blocked_query, "
    ∷ verbatim "       pg_blocking_pids(blocked.pid) AS blocking_pids, "
    ∷ verbatim "       blockers.blocking_queries "
    ∷ verbatim "FROM pg_stat_activity blocked "
    ∷ verbatim "CROSS JOIN LATERAL ("
    ∷ verbatim "    SELECT array_agg(b.query) AS blocking_queries "
    ∷ verbatim "    FROM pg_stat_activity b "
    ∷ verbatim "    WHERE b.pid = ANY(pg_blocking_pids(blocked.pid))"
    ∷ verbatim ") blockers "
    ∷ verbatim "WHERE cardinality(pg_blocking_pids(blocked.pid)) > 0 "
    ∷ verbatim "ORDER BY blocked.pid"
    ∷ []

abbrev pub stats_stmt : Statement
stats_stmt =
    verbatim "SELECT d.datname AS database, "
    ∷ verbatim "       pg_database_size(d.oid) AS size_bytes, "
    ∷ verbatim "       pg_size_pretty(pg_database_size(d.oid)) AS size, "
    ∷ verbatim "       s.numbackends, s.xact_commit, s.xact_rollback, "
    ∷ verbatim "       s.blks_read, s.blks_hit, "
    ∷ verbatim "       CASE WHEN s.blks_read + s.blks_hit > 0 "
    ∷ verbatim "            THEN (s.blks_hit::float8 / (s.blks_read + s.blks_hit)) "
    ∷ verbatim "            ELSE NULL END AS cache_hit_ratio, "
    ∷ verbatim
        "       s.tup_returned, s.tup_fetched, s.tup_inserted, s.tup_updated, s.tup_deleted, "
    ∷ verbatim "       s.deadlocks, s.temp_files, s.temp_bytes "
    ∷ verbatim "FROM pg_stat_database s JOIN pg_database d ON d.oid = s.datid "
    ∷ verbatim "WHERE d.datname = current_database()"
    ∷ []

abbrev pub tables_stmt : Statement
tables_stmt =
    verbatim "SELECT n.nspname AS schema, c.relname AS table, "
    ∷ verbatim "       pg_total_relation_size(c.oid) AS total_bytes, "
    ∷ verbatim "       pg_size_pretty(pg_total_relation_size(c.oid)) AS size, "
    ∷ verbatim "       c.reltuples::bigint AS approx_row_count "
    ∷ verbatim "FROM pg_class c JOIN pg_namespace n ON n.oid = c.relnamespace "
    ∷ verbatim "WHERE c.relkind IN ('r', 'p', 'm') "
    ∷ verbatim "  AND n.nspname NOT IN ('pg_catalog', 'information_schema') "
    ∷ verbatim "  AND n.nspname NOT LIKE 'pg_toast%%' "
    ∷ verbatim "ORDER BY pg_total_relation_size(c.oid) DESC LIMIT %s"
    ∷ []

abbrev pub name_clause : Option String → List String
name_clause none = []
name_clause (some n) = "(name = %s OR name LIKE %s)" ∷ []

abbrev pub name_params : Option String → List (Param Value)
name_params none = []
name_params (some n) = Db.value (text n) ∷ Db.value (text (like_prefix n)) ∷ []

abbrev pub category_clause : Option String → List String
category_clause none = []
category_clause (some c) = "category ILIKE %s" ∷ []

abbrev pub category_params : Option String → List (Param Value)
category_params none = []
category_params (some c) = Db.value (text c) ∷ []

abbrev pub settings_stmt : Option String → Option String → Statement
settings_stmt name category =
    verbatim "SELECT name, setting, unit, category, context, vartype, source, "
    ∷ verbatim "       boot_val, reset_val, pending_restart, short_desc "
    ∷ verbatim "FROM pg_settings "
    ∷ (where_clauses (name_clause name ++ category_clause category)
        ++ (verbatim " ORDER BY category, name" ∷ []))

abbrev pub signal_stmt : String → Statement
signal_stmt func =
    verbatim "SELECT %s = pg_backend_pid() AS is_self, "
    ∷ verbatim "       CASE WHEN %s = pg_backend_pid() THEN NULL "
    ∷ verbatim "           ELSE "
    ∷ verbatim func
    ∷ verbatim "(%s) END AS signalled"
    ∷ []

-- `bool(v)`; the two columns that the source asks this of are Boolean or null.
unfoldable pub truthy : Value → Bool
truthy null = false
truthy (bool b) = b
truthy (int (pos zero)) = false
truthy (int (pos (suc n))) = true
truthy (int (negsuc n)) = true
truthy (float x) = not (str_eq x "0.0") && not (str_eq x "-0.0")
truthy (text s) = not (str_eq s "")
truthy (opaque s) = true
truthy (sequence nil) = false
truthy (sequence (cons v vs)) = true
truthy (tuple nil) = false
truthy (tuple (cons v vs)) = true
truthy (dict end) = false
truthy (dict (field k v fs)) = true

pub data Observation : Type 0 where
  server_activity : (include_idle all_databases : Bool) → (limit : ℤ) → Observation
  list_locks : Observation
  database_stats : (top_tables : ℤ) → Observation
  get_settings : (name category : Option String) → Observation
  cancel_query : (pid : ℤ) → Observation
  terminate_backend : (pid : ℤ) → Observation

-- A failure of `signal_backend` is kept without its pid, which is the caller's.
pub data Observed : Type 0 where
  listed : (count : ℕ) → List Dict → Observed
  stats : Option Dict → List Dict → Observed
  signalled : (pid : ℤ) → Bool → Observed

abbrev pub listing : List String × List (List Value) → Observed
listing (cols, rows) = listed (length rows) (rows_as_dicts cols rows)

abbrev pub first_of : List Dict → Option Dict
first_of [] = none
first_of (d ∷ ds) = some d

module _ {W : Type 0} (service : Service W Value) where
  abbrev pub stamp : {B R : Type 0} → (B → R) → List Notice → Answer B → Answer (Stamped R)
  stamp f notices (returned b) = returned (attach service (done (f b)) notices)
  stamp f notices (raised e) = raised e

  -- `x = m` outside of any `try`, and `f(x)` as the result
  abbrev pub plain_call : {B R : Type 0} → Call W B → (B → R) → List Notice → Tool W R
  plain_call m f notices s = let (a, s') = on_world m s in (stamp f notices a, s')

  abbrev pub two_queries : ℕ → Call W Observed
  two_queries n = do
    (scols, srows) ← Db.select service.server stats_stmt []
    (tcols, trows) ← Db.select service.server tables_stmt (decimal n ∷ [])
    ret (stats (first_of (rows_as_dicts scols srows)) (rows_as_dicts tcols trows))

  -- `row["is_self"]` and `row["signalled"]` raise a KeyError where the column is missing.
  abbrev pub signalled_of : ℤ → List Notice → Option Value → Answer (Stamped Observed)
  signalled_of pid notices none = raised "signalled"
  signalled_of pid notices (some v) =
      returned (attach service (done (signalled pid (truthy v))) notices)

  abbrev pub judged : ℤ → List Notice → Option Value → Option Value → Answer (Stamped Observed)
  judged pid notices none v = raised "is_self"
  judged pid notices (some is_self) v =
      if truthy is_self
      then returned (attach service (failed own_backend) notices)
      else signalled_of pid notices v

  abbrev pub by_dict : ℤ → List Notice → Dict → Answer (Stamped Observed)
  by_dict pid notices [] = returned (attach service (done (signalled pid false)) notices)
  by_dict pid notices (x ∷ d) = judged pid notices (get "is_self" (x ∷ d)) (get "signalled" (x ∷ d))

  abbrev pub by_row :
      ℤ → List Notice → Answer (Option (List String × List Value)) → Answer (Stamped Observed)
  by_row pid notices (raised e) = returned (attach service (failed (other e)) notices)
  by_row pid notices (returned none) = by_dict pid notices []
  by_row pid notices (returned (some (cols, row))) = by_dict pid notices (zip_dict cols row [])

  abbrev pub signal_backend : ℤ → String → List Notice → Tool W Observed
  signal_backend pid func notices s =
      let p = Db.value (int pid) in
      let (a, s') = on_world (Db.query_one service.server (signal_stmt func) (p ∷ p ∷ p ∷ [])) s in
      (by_row pid notices a, s')

  unfoldable pub observe : Observation → Tool W Observed
  unfolding clamp
  observe (server_activity include_idle all_databases limit) =
      guard_or_error service (needs_tier db_readonly) (
        plain_call
          (Db.select service.server (activity_stmt include_idle all_databases)
            (decimal (clamp 1000 limit) ∷ []))
          listing)
  observe list_locks =
      guard_or_error service (needs_tier db_readonly)
        (plain_call (Db.select service.server locks_stmt []) listing)
  observe (database_stats top_tables) =
      guard_or_error service (needs_tier db_readonly)
        (plain_call (two_queries (clamp 100 top_tables)) (λ x. x))
  observe (get_settings name category) = guard_or_error service (needs_tier db_readonly) (
      plain_call
        (Db.select service.server (settings_stmt (given name) (given category))
          (name_params (given name) ++ category_params (given category)))
        listing)
  observe (cancel_query pid) =
      guard_or_error service (needs_tier db_admin) (signal_backend pid "pg_cancel_backend")
  observe (terminate_backend pid) =
      guard_or_error service (needs_tier db_admin) (signal_backend pid "pg_terminate_backend")
