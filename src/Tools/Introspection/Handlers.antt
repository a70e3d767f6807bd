-- ===== src/Tools/Introspection/Handlers.antt =====
-- tools/introspection.py: the handlers. A result is kept by its fields; `oid` stands for the value
-- that the first query gives for a relation.
use mcp_postgres.Prelude.{
  true, false, Bool, Option, none, some, String, str_eq, List, [], ◌∷◌, if◌then◌else◌,
}
use mcp_postgres.Effect.{Answer, returned, raised, Call, ◌>>=◌, ret, raise}
use mcp_postgres.Capabilities.{OsTier, DbTier, db_readonly, Session, os_tier, db_info}
use mcp_postgres.Capabilities.Advertised.{needs_tier}
use mcp_postgres.Capabilities.Guard.{Notice, Verdict, allowed, refused, broken, Requirement, guard}
use mcp_postgres.Db
use mcp_postgres.Db.{Statement, Param}
use mcp_postgres.Tools.Base.{Stamped, Service, done, Tool, attach, guard_or_error, on_world}
use mcp_postgres.Tools.Rows.{Value, null, text, Dict, get, put, rows_as_dicts}
use mcp_postgres.Tools.ConfigFiles.{zip_dict}
use mcp_postgres.Tools.Observability.{plain_call}
use mcp_postgres.Tools.Introspection.Queries.{
  health_stmt, databases_stmt, schemas_stmt, tables_of_stmt, relation_stmt, columns_of_stmt,
  comments_stmt, primary_key_of_stmt, indexes_stmt, outbound_stmt, inbound_stmt, constraints_stmt,
}
use mcp_postgres.Tools.Introspection.Collect.{list_of, and_then, all_rows, answer_as}

-- `_FK_ACTIONS.get(a, a)`, and `_RELKIND.get(k, k)`
abbrev pub name_by : List (String × String) → String → String
name_by [] k = k
name_by ((j, v) ∷ names) k = if str_eq j k then v else name_by names k

abbrev pub named : List (String × String) → Value → Value
named names (text s) = text (name_by names s)
named names v = v

abbrev pub fk_actions : List (String × String)
fk_actions =
    ("a", "NO ACTION")
    ∷ ("r", "RESTRICT")
    ∷ ("c", "CASCADE")
    ∷ ("n", "SET NULL")
    ∷ ("d", "SET DEFAULT")
    ∷ []

abbrev pub relkinds : List (String × String)
relkinds =
    ("r", "table")
    ∷ ("p", "partitioned table")
    ∷ ("v", "view")
    ∷ ("m", "materialized view")
    ∷ ("f", "foreign table")
    ∷ []

pub record Outbound : Type 0 where
  pub name : Value
  pub columns : Value
  pub foreign_schema : Value
  pub foreign_table : Value
  pub foreign_columns : Value
  pub on_update : Value
  pub on_delete : Value
  pub definition : Value

pub record Inbound : Type 0 where
  pub schema : Value
  pub table : Value
  pub name : Value
  pub definition : Value

unfoldable pub outbound_row : List Value → Answer Outbound
unfolding list_of
outbound_row
      (name ∷ columns ∷ fschema ∷ ftable ∷ fcolumns ∷ on_update ∷ on_delete ∷ definition ∷ []) =
    and_then (list_of columns) (λ cs. and_then (list_of fcolumns) (λ fs. returned (record {
      name = name;
      columns = cs;
      foreign_schema = fschema;
      foreign_table = ftable;
      foreign_columns = fs;
      on_update = named fk_actions on_update;
      on_delete = named fk_actions on_delete;
      definition = definition;
    })))
outbound_row row = raised "unpack"

unfoldable pub inbound_row : List Value → Answer Inbound
inbound_row (schema ∷ table ∷ name ∷ definition ∷ []) =
    returned (record { schema = schema; table = table; name = name; definition = definition })
inbound_row row = raised "unpack"

-- `r[0]`
abbrev pub first_cell : List Value → Answer Value
first_cell [] = raised "tuple index out of range"
first_cell (v ∷ row) = returned v

-- a constraint: its type, its name and its definition
unfoldable pub constraint_row : List Value → Answer (Value × (Value × Value))
constraint_row (contype ∷ name ∷ definition ∷ []) = returned (contype, (name, definition))
constraint_row row = raised "unpack"

abbrev pub is_text : String → Value → Bool
is_text k (text s) = str_eq s k
is_text k v = false

unfoldable pub of_type : String → List (Value × (Value × Value)) → List (Value × Value)
of_type k [] = []
of_type k ((contype, c) ∷ rows) =
    let rest = of_type k rows in if is_text k contype then c ∷ rest else rest

-- a column's name and its comment, as a dictionary by the name, which is text
unfoldable pub comment_rows : List (List Value) → Dict → Answer Dict
unfolding put
comment_rows [] d = returned d
comment_rows ((text name ∷ comment ∷ []) ∷ rows) d = comment_rows rows (put name comment d)
comment_rows (row ∷ rows) d = raised "unpack"

abbrev pub comment_of : Dict → Value → Value
comment_of comments (text name) = elim (get name comments) [ none ↦ null | some c ↦ c ]
comment_of comments v = null

-- `col["comment"] = comments.get(col["column_name"])`
unfoldable pub with_comments : Dict → List Dict → Answer (List Dict)
unfolding get put
with_comments comments [] = returned []
with_comments comments (col ∷ cols) = and_then (with_comments comments cols) (λ rest.
    elim (get "column_name" col) [
      | none ↦ raised "column_name"
      | some name ↦ returned (put "comment" (comment_of comments name) col ∷ rest)
    ])

pub data Inquiry : Type 0 where
  list_databases list_schemas : Inquiry
  list_tables : (schema : String) → Inquiry
  describe_table : (table schema : String) → Inquiry

pub record Description : Type 0 where
  pub kind : Value
  pub table_comment : Value
  pub approx_row_count : Value
  pub total_bytes : Value
  pub size : Value
  pub columns : List Dict
  pub primary_key : List Value
  pub indexes : List Dict
  pub foreign_keys : List Outbound
  pub referenced_by : List Inbound
  pub unique_constraints : List (Value × Value)
  pub check_constraints : List (Value × Value)

-- The names that a caller gave are left out. `missing` is a table that is not found or not visible.
pub data Found : Type 0 where
  databases tables : List Dict → Found
  schemas : List Value → Found
  description : Description → Found
  missing : Found

pub record Health : Type 0 where
  pub ok : Bool
  pub server_version : Option Value
  pub error : Option String
  pub os_tier : OsTier
  pub db_tier : Option DbTier

-- `d[k]`
abbrev pub at_key : {W : Type 0} → String → Dict → Call W Value
at_key k d = elim (get k d) [ none ↦ raise k | some v ↦ ret v ]

abbrev pub no_requirement : Requirement
no_requirement = record { os_min = none; db_min = none; db_needs = [] }

abbrev pub reached : {A B : Type 0} → (A → Option B) → Answer A → Option B
reached f (returned a) = f a
reached f (raised e) = none

abbrev pub error_in : {A : Type 0} → Answer A → Option String
error_in (returned a) = none
error_in (raised e) = some e

abbrev pub is_returned : {A : Type 0} → Answer A → Bool
is_returned (returned a) = true
is_returned (raised e) = false

module _ {W : Type 0} (service : Service W Value) where
  unfoldable pub foreign_keys_of : Value → Call W (List Outbound)
  unfolding outbound_row
  foreign_keys_of oid = do
    (cols, rows) ← Db.select service.server outbound_stmt (Db.value oid ∷ [])
    answer_as (all_rows outbound_row rows)

  unfoldable pub referenced_by_of : Value → Call W (List Inbound)
  unfolding inbound_row
  referenced_by_of oid = do
    (cols, rows) ← Db.select service.server inbound_stmt (Db.value oid ∷ [])
    answer_as (all_rows inbound_row rows)

  abbrev pub by_name : String → String → List (Param Value)
  by_name schema table = Db.value (text schema) ∷ Db.value (text table) ∷ []

  -- What is asked of a relation once its oid is known.
  unfoldable pub describe_relation : String → String → Dict → Call W Found
  unfolding get comment_rows with_comments foreign_keys_of referenced_by_of constraint_row of_type
  describe_relation schema table meta = do
    oid ← at_key "oid" meta
    (col_cols, col_rows) ← Db.select service.server columns_of_stmt (by_name schema table)
    (c1, named_rows) ← Db.select service.server comments_stmt (Db.value oid ∷ [])
    comments ← answer_as (comment_rows named_rows [])
    columns ← answer_as (with_comments comments (rows_as_dicts col_cols col_rows))
    (c2, pk_rows) ← Db.select service.server primary_key_of_stmt (by_name schema table)
    (idx_cols, idx_rows) ← Db.select service.server indexes_stmt (Db.value oid ∷ [])
    fkeys ← foreign_keys_of oid
    references ← referenced_by_of oid
    (c3, con_rows) ← Db.select service.server constraints_stmt (Db.value oid ∷ [])
    constraints ← answer_as (all_rows constraint_row con_rows)
    relkind ← at_key "relkind" meta
    table_comment ← at_key "table_comment" meta
    approx ← at_key "approx_row_count" meta
    total_bytes ← at_key "total_bytes" meta
    size ← at_key "size_pretty" meta
    primary_key ← answer_as (all_rows first_cell pk_rows)
    ret (
        description (record {
          kind = named relkinds relkind;
          table_comment = table_comment;
          approx_row_count = approx;
          total_bytes = total_bytes;
          size = size;
          columns = columns;
          primary_key = primary_key;
          indexes = rows_as_dicts idx_cols idx_rows;
          foreign_keys = fkeys;
          referenced_by = references;
          unique_constraints = of_type "u" constraints;
          check_constraints = of_type "c" constraints;
        }))

  -- `if not meta`, of a dictionary or of none
  abbrev pub by_meta : String → String → Dict → Call W Found
  by_meta schema table [] = ret missing
  by_meta schema table (x ∷ meta) = describe_relation schema table (x ∷ meta)

  abbrev pub meta_of : Option (List String × List Value) → Dict
  meta_of none = []
  meta_of (some (cols, row)) = zip_dict cols row []

  abbrev pub describe : String → String → Call W Found
  describe table schema = do
    row ← Db.query_one service.server relation_stmt (by_name schema table)
    by_meta schema table (meta_of row)

  abbrev pub names_of : List String × List (List Value) → Call W Found
  names_of (cols, rows) = do names ← answer_as (all_rows first_cell rows); ret (schemas names)

  unfoldable pub inquire : Inquiry → Tool W Found
  unfolding describe_relation
  inquire list_databases = guard_or_error service (needs_tier db_readonly) (
      plain_call service (Db.select service.server databases_stmt [])
        (λ (cols, rows). databases (rows_as_dicts cols rows)))
  inquire list_schemas =
      guard_or_error service (needs_tier db_readonly)
        (plain_call service (do r ← Db.select service.server schemas_stmt []; names_of r) (λ x. x))
  inquire (list_tables schema) = guard_or_error service (needs_tier db_readonly) (
      plain_call service (Db.select service.server tables_of_stmt (Db.value (text schema) ∷ []))
        (λ (cols, rows). tables (rows_as_dicts cols rows)))
  inquire (describe_table table schema) =
      guard_or_error service (needs_tier db_readonly)
        (plain_call service (describe table schema) (λ x. x))

  abbrev pub db_tier_if : Bool → Session W → Option DbTier × Session W
  db_tier_if false s = (none, s)
  db_tier_if true s = let (info, s') = db_info service.host false s in (some info.tier, s')

  abbrev pub health_of :
      List Notice
      → Answer (Option Value)
      → Answer OsTier × Session W
      → Answer (Stamped Health) × Session W
  health_of notices a (raised e, s) = (raised e, s)
  health_of notices a (returned os_t, s) =
      let (db_t, s') = db_tier_if (is_returned a) s in
      (
        returned (
            attach service
              (done (record {
                ok = is_returned a;
                server_version = reached (λ v. v) a;
                error = error_in a;
                os_tier = os_t;
                db_tier = db_t;
              }))
              notices),
        s',
      )

  abbrev pub health_after : List Notice → Tool W Health
  health_after notices s =
      let (a, s') = on_world (Db.query_scalar service.server health_stmt []) s in
      health_of notices a (os_tier service.host false s')

  -- A CapabilityError of the guard gives its notices; another exception goes through.
  abbrev pub health_by : Verdict × Session W → Answer (Stamped Health) × Session W
  health_by (allowed notices, s) = health_after notices s
  health_by (refused r notices, s) = health_after notices s
  health_by (broken e, s) = (raised e, s)

  unfoldable pub health_check : Tool W Health
  health_check s = health_by (guard service.host no_requirement s)
