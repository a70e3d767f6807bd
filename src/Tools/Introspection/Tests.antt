-- ===== src/Tools/Introspection/Tests.antt =====
-- Runs and instances of the theorems on the introspection tools, on a server whose world counts the
-- queries.
use mcp_postgres.Prelude.{ℕ, zero, suc, ◌+◌, ◌≡◌, refl, true, none, some, List, [], ◌∷◌, length}
use mcp_postgres.Effect.{Answer, returned, raised}
use mcp_postgres.Db
use mcp_postgres.Db.{Server, Reply}
use mcp_postgres.Tools.Rows.{Value, text, null, sequence, nil, cons}
use mcp_postgres.Tools.Introspection.Collect.{
  Catalogue, Results, assemble, collect_db_schema, catalogue_of, all_rows, relation_row, column_row,
  primary_key_row, foreign_key_row, enum_row, list_of, append_to, group_rows, items_of, at_schema,
  add_tables, add_enums,
}
use mcp_postgres.Tools.Introspection.Collect.Reading.{IsRead}
use mcp_postgres.Tools.Introspection.Collect.Described.{Described, collect_db_schema-Described}

abbrev Rows : Type 0
Rows = List (List Value)

abbrev relations : Rows
relations =
    (text "public" ∷ text "t" ∷ text "table" ∷ [])
    ∷ (text "public" ∷ text "u" ∷ text "view" ∷ [])
    ∷ []

abbrev columns : Rows
columns =
    (text "public" ∷ text "t" ∷ text "id" ∷ text "integer" ∷ text "NO" ∷ null ∷ [])
    ∷ (text "public" ∷ text "u" ∷ text "id" ∷ text "integer" ∷ text "YES" ∷ null ∷ [])
    ∷ []

abbrev keys : Rows
keys = (text "public" ∷ text "t" ∷ text "id" ∷ []) ∷ []

abbrev kinds : Rows
kinds = (text "kinds" ∷ text "mood" ∷ sequence (cons (text "ok") nil) ∷ []) ∷ []

abbrev replies : List Rows
replies = ((text "app" ∷ []) ∷ []) ∷ relations ∷ columns ∷ keys ∷ [] ∷ kinds ∷ []

abbrev nth : List Rows → ℕ → Rows
nth [] n = []
nth (r ∷ rs) zero = r
nth (r ∷ rs) (suc n) = nth rs n

abbrev counting : Server ℕ Value
counting = record {
  checkout = λ w. (returned tt, w);
  putback = λ failed w. w;
  exec = λ stmt params w. (
    returned (record {
      rowcount = none;
      status = "SELECT";
      description = some [];
      rows = nth replies w;
    }),
    w + 1,
  );
}

abbrev results : Results
results = record {
  rel_rows = relations;
  col_rows = columns;
  pk_rows = keys;
  fk_rows = [];
  enum_rows = kinds;
}

abbrev read : Answer Catalogue → Catalogue
read (returned c) = c
read (raised e) = record {
  relations = [];
  columns = [];
  primary_keys = [];
  foreign_keys = [];
  enums = [];
}

-- What the runs below compute with.
evaluate : Unit {0}
unfolding Db.select Db.query_scalar collect_db_schema catalogue_of all_rows relation_row column_row
    primary_key_row foreign_key_row enum_row list_of append_to group_rows items_of at_schema
    add_tables add_enums assemble
evaluate = tt

collect_db_schema-Described_example :
    let d = assemble (some (text "app")) 1 (read (catalogue_of 1 results)) in
    (collect_db_schema counting 1 0 ≡ (returned d, 6))
    × IsRead 1 results (read (catalogue_of 1 results))
    × Described 1 2 (read (catalogue_of 1 results)) d
unfolding evaluate
collect_db_schema-Described_example =
    collect_db_schema-Described counting 1 (some (text "app")) results
      (read (catalogue_of 1 results)) 0 1 6 refl refl refl

assemble_run :
    let d = assemble (some (text "app")) 1 (read (catalogue_of 1 results)) in
    (d.table_count ≡ 1) × (d.truncated ≡ true) × (length d.schemas ≡ 2)
unfolding evaluate
assemble_run = (refl, refl, refl)
