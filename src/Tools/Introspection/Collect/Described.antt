-- ===== src/Tools/Introspection/Collect/Described.antt =====
-- tools/introspection.py: `collect_db_schema` from the rows that its queries give.
use mcp_postgres.Prelude.{
  ℕ, zero, suc, ◌+◌, ◌≡◌, refl, ap, ◌∙◌, true, Option, String, str_eq, eq_iff, List, [], ◌∷◌, map,
  length, keep, ltb, min, arith,
}
use mcp_postgres.Effect.{returned}
use mcp_postgres.Db
use mcp_postgres.Db.{Server, take}
use mcp_postgres.Tools.Rows.{Value}
use mcp_postgres.Tools.Introspection.Queries.{database_stmt}
use mcp_postgres.Tools.Introspection.Collect.{
  group_rows, items_of, Contents, DbSchema, Catalogue, grouped, table_at, add_tables, add_enums,
  assemble, Enum, Key, Results, Table, catalogue_of, ask_catalogue, collect_db_schema,
}
use mcp_postgres.Tools.Introspection.Collect.Reading.{
  RelationOf, IsRead, catalogue_of-IsRead, length-Reads,
}
use mcp_postgres.Tools.Introspection.Collect.Shape.{
  with_key, items_of-group_rows, contents_of, contents_of-place, add_tables_lem, is_dict,
  is_dict-group_rows, contents_of-add_enums, items_of-no_key, is_dict-place, is_dict-add_enums,
  table_at-grouped, map_same, place, described_table, described_schema,
}

-- what the result is, for a number of relations in the database
pub record Described (max_tables rows : ℕ) (c : Catalogue) (r : DbSchema) : Type 0 where
  counted : r.table_count ≡ min max_tables rows
  cut : r.truncated ≡ ltb max_tables rows
  listed_once : is_dict str_eq r.schemas ≡ true
  shown : (s : String) → contents_of s r.schemas ≡ described_schema max_tables c s

enums_shown :
    (s : String) (c : Catalogue) (d : List (String × Contents))
    → (contents_of s d).enums ≡ []
    → contents_of s (add_enums (group_rows str_eq c.enums []) d)
      ≡ record (contents_of s d) { enums = with_key str_eq s c.enums }
unfolding is_dict items_of
enums_shown s c d h = ground (
  arith,
  contents_of-add_enums s (group_rows str_eq c.enums []) d (is_dict-group_rows c.enums [] refl),
  items_of-no_key s (group_rows str_eq c.enums []),
  items_of-group_rows str_eq eq_iff s c.enums [],
)

assemble_lem :
    (database : Option Value) (max_tables : ℕ) (c : Catalogue)
    → Described max_tables (length c.relations) c (assemble database max_tables c)
unfolding assemble is_dict
assemble_lem database max_tables c = record {
  counted = ap (λ p. p.1.0) added ∙ omega arith;
  cut = ap (λ p. p.1.1) added;
  listed_once =
      ap (λ p. is_dict str_eq (add_enums enums p.0)) added
      ∙ is_dict-add_enums enums _ (is_dict-place (grouped c) (take max_tables c.relations) [] refl);
  shown = λ s.
      ap (λ p. contents_of s (add_enums enums p.0)) added
      ∙ enums_shown s c (place (grouped c) kept []) (ap (λ x. x.enums) (placed s))
      ∙ ap (λ (x : Contents). record x { enums = with_key str_eq s c.enums }) (placed s)
      ∙ ap {A = List Table} {B = Contents}
          (λ ts. record { tables = ts; enums = with_key str_eq s c.enums })
          (map_same (table_at (grouped c)) (described_table c) (table_at-grouped c)
            (keep (λ r. str_eq r.0.0 s) (take max_tables c.relations)));
}
  where
    enums : List (String × List Enum)
    enums = group_rows str_eq c.enums []

    kept : List (Key × Value)
    kept = take max_tables c.relations

    added : add_tables (grouped c) max_tables c.relations [] 0 ≡ (
      place (grouped c) kept [],
      (0 + min max_tables (length c.relations), ltb max_tables (length c.relations)),
    )
    added = add_tables_lem (grouped c) max_tables max_tables c.relations [] 0 (omega arith)

    placed :
        (s : String)
        → contents_of s (place (grouped c) kept []) ≡ record {
          tables = map (table_at (grouped c)) (keep (λ r. str_eq r.0.0 s) kept);
          enums = [];
        }
    placed s = contents_of-place (grouped c) s kept []

length-take : {A : Type 0} (k : ℕ) (xs : List A) → length (take k xs) ≡ min k (length xs)
length-take zero xs = omega arith
length-take (suc k) [] = omega arith
length-take (suc k) (x ∷ xs) = omega (arith, length-take k xs)

-- The three phases of a collection that succeeds. The result counts the relations of the database
-- up to the cap and says whether there are more. It lists each schema once, with the first
-- relations up to the cap that are in it, in the order of the query; each of these has exactly the
-- columns, key columns and foreign keys whose rows bear its schema and name, and the schema has
-- exactly its enum types. What it is made of is what the rows of the queries say, one item for each
-- row: its schema and name first, a column as nullable if the row says YES, lists as `list` makes
-- them.
pub collect_db_schema-Described :
    {W : Type 0} (server : Server W Value) (max_tables : ℕ) (database : Option Value) (r : Results)
    (c : Catalogue) (w w1 w2 : W)
    → Db.query_scalar server database_stmt [] w ≡ (returned database, w1)
    → ask_catalogue server w1 ≡ (returned r, w2)
    → catalogue_of max_tables r ≡ returned c
    → let d = assemble database max_tables c in
      (collect_db_schema server max_tables w ≡ (returned d, w2))
      × IsRead max_tables r c
      × Described max_tables (length r.rel_rows) c d
unfolding collect_db_schema
collect_db_schema-Described server m database r c w w1 w2 h1 h2 h3 =
    let d = assemble_lem database m c in
    let read = catalogue_of-IsRead m r c h3 in
    let rows =
      length-Reads RelationOf _ c.relations read.relations_read ∙ length-take (suc m) r.rel_rows in
    (
      cc (h1, h2, h3),
      read,
      record {
        counted = d.counted ∙ omega (arith, rows);
        cut = d.cut ∙ ground (arith, rows);
        listed_once = d.listed_once;
        shown = d.shown;
      },
    )
