-- ===== src/Tools/Introspection/Collect.antt =====
-- tools/introspection.py: `collect_db_schema`, the shape of a database from six catalogue queries.
--
-- Schemas and tables are named by text, as the catalogue's columns are typed; a row of another shape
-- raises, as unpacking one of another length does. The names that key a dictionary are texts.
pub mod Shape
pub mod Reading
pub mod Described
use mcp_postgres.Prelude.{
  ℕ, suc, ◌+◌, Bool, true, false, ◌&&◌, Option, none, some, String, str_eq, List, [], ◌∷◌, ◌++◌,
  leb, if◌then◌else◌,
}
use mcp_postgres.Effect.{Answer, returned, raised, Call, ◌>>=◌, ret}
use mcp_postgres.Db
use mcp_postgres.Db.{Server, take}
use mcp_postgres.Tools.Rows.{
  Value, Values, null, bool, int, float, text, opaque, sequence, tuple, dict, nil, cons, Fields,
  end, field,
}
use mcp_postgres.Tools.Introspection.Queries.{
  database_stmt, relations_stmt, columns_stmt, primary_keys_stmt, foreign_keys_stmt, enums_stmt,
}

-- a pair of names, the key of a relation
abbrev pub Key : Type 0
Key = String × String

abbrev pub key_eq : Key → Key → Bool
key_eq a b = str_eq a.0 b.0 && str_eq a.1 b.1

module _ {K A : Type 0} (same : K → K → Bool) where
  -- `by[key].append(item)` of a `defaultdict(list)`
  unfoldable pub append_to : K → A → List (K × List A) → List (K × List A)
  append_to k a [] = (k, a ∷ []) ∷ []
  append_to k a ((j, as') ∷ d) =
      let rest = append_to k a d in if same j k then (j, as' ++ a ∷ []) ∷ d else (j, as') ∷ rest

  unfoldable pub group_rows : List (K × A) → List (K × List A) → List (K × List A)
  group_rows [] d = d
  group_rows ((k, a) ∷ rows) d = group_rows rows (append_to k a d)

  -- `by.get(key, [])`
  unfoldable pub items_of : K → List (K × List A) → List A
  items_of k [] = []
  items_of k ((j, as') ∷ d) = if same j k then as' else items_of k d

pub record Column : Type 0 where
  pub name : Value
  pub type_name : Value
  pub nullable : Bool
  pub default : Value

pub record ForeignKey : Type 0 where
  pub columns : Value
  pub foreign_schema : Value
  pub foreign_table : Value
  pub foreign_columns : Value

pub record Table : Type 0 where
  pub name : String
  pub kind : Value
  pub columns : List Column
  pub primary_key : List Value
  pub foreign_keys : List ForeignKey

pub record Enum : Type 0 where
  pub name : Value
  pub labels : Value

-- one schema of the result, by its name
pub record Contents : Type 0 where
  pub tables : List Table
  pub enums : List Enum

abbrev pub Schemas : Type 0
Schemas = List (String × Contents)

pub record DbSchema : Type 0 where
  pub database : Option Value
  pub schemas : Schemas
  pub table_count : ℕ
  pub truncated : Bool

-- the rows of the queries, unpacked
pub record Catalogue : Type 0 where
  pub relations : List (Key × Value)
  pub columns : List (Key × Column)
  pub primary_keys : List (Key × Value)
  pub foreign_keys : List (Key × ForeignKey)
  pub enums : List (String × Enum)

abbrev pub empty_schema : Contents
empty_schema = record { tables = []; enums = [] }

-- `f` on `schemas.setdefault(name, …)`
unfoldable pub at_schema : String → (Contents → Contents) → Schemas → Schemas
at_schema s f [] = (s, f empty_schema) ∷ []
at_schema s f ((j, c) ∷ d) =
    let rest = at_schema s f d in if str_eq j s then (j, f c) ∷ d else (j, c) ∷ rest

abbrev pub add_table : Table → Contents → Contents
add_table t c = record c { tables = c.tables ++ t ∷ [] }

abbrev pub set_enums : List Enum → Contents → Contents
set_enums es c = record c { enums = es }

-- `cols_by`, `pk_by`, `fk_by`
pub record Grouped : Type 0 where
  pub cols_by : List (Key × List Column)
  pub pk_by : List (Key × List Value)
  pub fk_by : List (Key × List ForeignKey)

abbrev pub grouped : Catalogue → Grouped
grouped c = record {
  cols_by = group_rows key_eq c.columns [];
  pk_by = group_rows key_eq c.primary_keys [];
  fk_by = group_rows key_eq c.foreign_keys [];
}

abbrev pub table_at : Grouped → Key × Value → Table
table_at g (key, kind) = record {
  name = key.1;
  kind = kind;
  columns = items_of key_eq key g.cols_by;
  primary_key = items_of key_eq key g.pk_by;
  foreign_keys = items_of key_eq key g.fk_by;
}

-- The loop over the relations, which ends at the cap: the schemas, the total, and `truncated`.
unfoldable pub add_tables : Grouped → ℕ → List (Key × Value) → Schemas → ℕ → Schemas × (ℕ × Bool)
unfolding items_of at_schema
add_tables g max_tables [] d total = (d, (total, false))
add_tables g max_tables (r ∷ rs) d total =
    let rest =
      add_tables g max_tables rs (at_schema r.0.0 (add_table (table_at g r)) d) (total + 1) in
    if leb max_tables total then (d, (total, true)) else rest

unfoldable pub add_enums : List (String × List Enum) → Schemas → Schemas
unfolding at_schema
add_enums [] d = d
add_enums ((s, es) ∷ rest) d = add_enums rest (at_schema s (set_enums es) d)

unfoldable pub assemble : Option Value → ℕ → Catalogue → DbSchema
unfolding group_rows append_to add_tables add_enums
assemble database max_tables c =
    let (d, (total, truncated)) = add_tables (grouped c) max_tables c.relations [] 0 in
    record {
      database = database;
      schemas = add_enums (group_rows str_eq c.enums []) d;
      table_count = total;
      truncated = truncated;
    }

-- `list(v)`; what is not iterable raises, an `opaque` value among it.
abbrev pub chars_of : String → Values
chars_of String.[] = nil
chars_of (String.◌∷◌ c s) = cons (text (String.◌∷◌ c String.[])) (chars_of s)

abbrev pub keys_of : Fields → Values
keys_of end = nil
keys_of (field k v fs) = cons (text k) (keys_of fs)

unfoldable pub list_of : Value → Answer Value
list_of (sequence vs) = returned (sequence vs)
list_of (tuple vs) = returned (sequence vs)
list_of (text s) = returned (sequence (chars_of s))
list_of (dict fs) = returned (sequence (keys_of fs))
list_of v = raised "object is not iterable"

abbrev pub and_then : {A B : Type 0} → Answer A → (A → Answer B) → Answer B
and_then (returned a) f = f a
and_then (raised e) f = raised e

abbrev pub is_yes : Value → Bool
is_yes (text s) = str_eq s "YES"
is_yes v = false

-- What the loops make of a row of each query.
unfoldable pub relation_row : List Value → Answer (Key × Value)
relation_row (text s ∷ text t ∷ kind ∷ []) = returned ((s, t), kind)
relation_row r = raised "unpack"

unfoldable pub column_row : List Value → Answer (Key × Column)
column_row (text s ∷ text t ∷ name ∷ dtype ∷ is_nullable ∷ default ∷ []) = returned (
  (s, t),
  record { name = name; type_name = dtype; nullable = is_yes is_nullable; default = default },
)
column_row r = raised "unpack"

unfoldable pub primary_key_row : List Value → Answer (Key × Value)
primary_key_row (text s ∷ text t ∷ col ∷ []) = returned ((s, t), col)
primary_key_row r = raised "unpack"

unfoldable pub foreign_key_row : List Value → Answer (Key × ForeignKey)
foreign_key_row (text s ∷ text t ∷ columns ∷ fschema ∷ ftable ∷ fcolumns ∷ []) =
    and_then (list_of columns) (λ cs. and_then (list_of fcolumns) (λ fs. returned (
      (s, t),
      record {
        columns = cs;
        foreign_schema = fschema;
        foreign_table = ftable;
        foreign_columns = fs;
      },
    )))
foreign_key_row r = raised "unpack"

unfoldable pub enum_row : List Value → Answer (String × Enum)
enum_row (text s ∷ name ∷ labels ∷ []) =
    and_then (list_of labels) (λ ls. returned (s, record { name = name; labels = ls }))
enum_row r = raised "unpack"

unfoldable pub all_rows :
    {A : Type 0} → (List Value → Answer A) → List (List Value) → Answer (List A)
all_rows f [] = returned []
all_rows f (r ∷ rs) = and_then (f r) (λ a. and_then (all_rows f rs) (λ as'. returned (a ∷ as')))

-- the rows of the five queries
pub record Results : Type 0 where
  pub rel_rows : List (List Value)
  pub col_rows : List (List Value)
  pub pk_rows : List (List Value)
  pub fk_rows : List (List Value)
  pub enum_rows : List (List Value)

-- The loop over the relations unpacks the row that is one too many, and none behind it.
unfoldable pub catalogue_of : ℕ → Results → Answer Catalogue
catalogue_of max_tables r = and_then (all_rows column_row r.col_rows) (λ columns.
    and_then (all_rows primary_key_row r.pk_rows) (λ primary_keys.
      and_then (all_rows foreign_key_row r.fk_rows) (λ foreign_keys.
        and_then (all_rows enum_row r.enum_rows) (λ enums.
          and_then (all_rows relation_row (take (suc max_tables) r.rel_rows)) (λ relations.
            returned (record {
              relations = relations;
              columns = columns;
              primary_keys = primary_keys;
              foreign_keys = foreign_keys;
              enums = enums;
            }))))))

abbrev pub answer_as : {W A : Type 0} → Answer A → Call W A
answer_as a w = (a, w)

module _ {W : Type 0} (server : Server W Value) where
  abbrev pub ask_catalogue : Call W Results
  ask_catalogue = do
    (c1, rel_rows) ← Db.select server relations_stmt []
    (c2, col_rows) ← Db.select server columns_stmt []
    (c3, pk_rows) ← Db.select server primary_keys_stmt []
    (c4, fk_rows) ← Db.select server foreign_keys_stmt []
    (c5, enum_rows) ← Db.select server enums_stmt []
    ret (record {
      rel_rows = rel_rows;
      col_rows = col_rows;
      pk_rows = pk_rows;
      fk_rows = fk_rows;
      enum_rows = enum_rows;
    })

  unfoldable pub collect_db_schema : ℕ → Call W DbSchema
  collect_db_schema max_tables = do
    database ← Db.query_scalar server database_stmt []
    results ← ask_catalogue
    c ← answer_as (catalogue_of max_tables results)
    ret (assemble database max_tables c)
