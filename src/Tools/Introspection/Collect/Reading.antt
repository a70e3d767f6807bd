-- ===== src/Tools/Introspection/Collect/Reading.antt =====
-- tools/introspection.py: what the loops of `collect_db_schema` read from the rows of the queries.
use mcp_postgres.Prelude.{
  ℕ, suc, ◌≡◌, refl, ap, subst, true, String, eq_iff, List, [], ◌∷◌, length, arith,
}
use mcp_postgres.Effect.{Answer, returned, raised}
use mcp_postgres.Db.{take}
use mcp_postgres.Tools.Rows.{Value, text}
use mcp_postgres.Tools.Introspection.Collect.{
  Key, Column, ForeignKey, Enum, Results, Catalogue, and_then, all_rows, list_of, relation_row,
  column_row, primary_key_row, foreign_key_row, enum_row, catalogue_of, is_yes,
}

pub and_then-returned :
    {A B : Type 0} (a : Answer A) (f : A → Answer B) (b : B)
    → and_then a f ≡ returned b
    → (x : A) × (a ≡ returned x) × (f x ≡ returned b)
and_then-returned (returned a) f b h = (a, refl, h)
and_then-returned (raised e) f b h = ground arith

-- The items of a list stand for the rows of another, each for the row in its place.
abbrev pub Reads : {A : Type 0} → (List Value → A → Type 0) → List (List Value) → List A → Type 0
Reads P [] [] = Unit {0}
Reads P [] (x ∷ xs) = ⊥
Reads P (r ∷ rs) [] = ⊥
Reads P (r ∷ rs) (x ∷ xs) = P r x × Reads P rs xs

answer_or : {A : Type 0} → A → Answer A → A
answer_or x (returned y) = y
answer_or x (raised e) = x

returned-returned : {A : Type 0} (x y : A) → returned x ≡ returned y → x ≡ y
unfolding answer_or
returned-returned x y h = ap (answer_or x) h

module _ {A : Type 0} (f : List Value → Answer A) (P : List Value → A → Type 0)
    (said : (r : List Value) (x : A) → f r ≡ returned x → P r x) where
  all_rows-Reads :
      (rs : List (List Value)) (xs : List A) → all_rows f rs ≡ returned xs → Reads P rs xs
  unfolding all_rows
  all_rows-Reads [] xs h = subst (Reads P []) (returned-returned [] xs h) tt
  all_rows-Reads (r ∷ rs) xs h =
      let (y, e, h1) = and_then-returned (f r) _ xs h in
      let (ys, e', h2) = and_then-returned (all_rows f rs) _ xs h1 in
      subst (Reads P (r ∷ rs)) (returned-returned (y ∷ ys) xs h2)
        (said r y e, all_rows-Reads rs ys e')

-- What a row of each query says.
abbrev pub RelationOf : List Value → Key × Value → Type 0
RelationOf r ((s, t), kind) = r ≡ text s ∷ text t ∷ kind ∷ []

abbrev pub ColumnOf : List Value → Key × Column → Type 0
ColumnOf r ((s, t), c) =
    (v : Value) × (r ≡ text s ∷ text t ∷ c.name ∷ c.type_name ∷ v ∷ c.default ∷ [])
    × (c.nullable ≡ true → v ≡ text "YES")
    × (v ≡ text "YES" → c.nullable ≡ true)

abbrev pub ForeignKeyOf : List Value → Key × ForeignKey → Type 0
ForeignKeyOf r ((s, t), k) =
    (columns : Value) × (others : Value) × (r
      ≡ text s ∷ text t ∷ columns ∷ k.foreign_schema ∷ k.foreign_table ∷ others ∷ [])
    × (list_of columns ≡ returned k.columns)
    × (list_of others ≡ returned k.foreign_columns)

abbrev pub EnumOf : List Value → String × Enum → Type 0
EnumOf r (s, e) =
    (labels : Value) × (r ≡ text s ∷ e.name ∷ labels ∷ []) × (list_of labels ≡ returned e.labels)

relation_row_lem : (r : List Value) (x : Key × Value) → relation_row r ≡ returned x → RelationOf r x
unfolding relation_row
relation_row_lem (text s ∷ text t ∷ kind ∷ []) x h =
    subst (RelationOf _) (returned-returned ((s, t), kind) x h) refl
relation_row_lem r x h = ground arith

primary_key_row_lem :
    (r : List Value) (x : Key × Value) → primary_key_row r ≡ returned x → RelationOf r x
unfolding primary_key_row
primary_key_row_lem (text s ∷ text t ∷ col ∷ []) x h =
    subst (RelationOf _) (returned-returned ((s, t), col) x h) refl
primary_key_row_lem r x h = ground arith

is_yes_sound : (v : Value) → is_yes v ≡ true → v ≡ text "YES"
is_yes_sound (text s) h = ap text ((eq_iff s "YES").0 h)
is_yes_sound v h = ground arith

is_yes_complete : (v : Value) → v ≡ text "YES" → is_yes v ≡ true
is_yes_complete v h = rw h refl

column_row_lem : (r : List Value) (x : Key × Column) → column_row r ≡ returned x → ColumnOf r x
unfolding column_row
column_row_lem (text s ∷ text t ∷ name ∷ dtype ∷ v ∷ default ∷ []) x h =
    subst (ColumnOf _) (returned-returned _ x h) (v, refl, is_yes_sound v, is_yes_complete v)
column_row_lem r x h = ground arith

foreign_key_row_lem :
    (r : List Value) (x : Key × ForeignKey) → foreign_key_row r ≡ returned x → ForeignKeyOf r x
unfolding foreign_key_row
foreign_key_row_lem (text s ∷ text t ∷ columns ∷ schema ∷ table ∷ others ∷ []) x h =
    let (cs, e, h1) = and_then-returned (list_of columns) _ x h in
    let (fs, e', h2) = and_then-returned (list_of others) _ x h1 in
    subst (ForeignKeyOf _) (returned-returned _ x h2) (columns, others, refl, e, e')
foreign_key_row_lem r x h = ground arith

enum_row_lem : (r : List Value) (x : String × Enum) → enum_row r ≡ returned x → EnumOf r x
unfolding enum_row
enum_row_lem (text s ∷ name ∷ labels ∷ []) x h =
    let (ls, e, h1) = and_then-returned (list_of labels) _ x h in
    subst (EnumOf _) (returned-returned _ x h1) (labels, refl, e)
enum_row_lem r x h = ground arith

-- The catalogue is what the rows of the five queries say, each item what its row says.
pub record IsRead (m : ℕ) (r : Results) (c : Catalogue) : Type 0 where
  pub relations_read : Reads RelationOf (take (suc m) r.rel_rows) c.relations
  pub columns_read : Reads ColumnOf r.col_rows c.columns
  pub keys_read : Reads RelationOf r.pk_rows c.primary_keys
  pub edges_read : Reads ForeignKeyOf r.fk_rows c.foreign_keys
  pub enums_read : Reads EnumOf r.enum_rows c.enums

pub catalogue_of-IsRead :
    (m : ℕ) (r : Results) (c : Catalogue) → catalogue_of m r ≡ returned c → IsRead m r c
unfolding catalogue_of
catalogue_of-IsRead m r c h =
    let (columns, e1, h1) = and_then-returned (all_rows column_row r.col_rows) _ c h in
    let (keys, e2, h2) = and_then-returned (all_rows primary_key_row r.pk_rows) _ c h1 in
    let (edges, e3, h3) = and_then-returned (all_rows foreign_key_row r.fk_rows) _ c h2 in
    let (enums, e4, h4) = and_then-returned (all_rows enum_row r.enum_rows) _ c h3 in
    let (relations, e5, h5) =
      and_then-returned (all_rows relation_row (take (suc m) r.rel_rows)) _ c h4 in
    subst (IsRead m r) (returned-returned _ c h5) (record {
      relations_read = all_rows-Reads relation_row RelationOf relation_row_lem _ relations e5;
      columns_read = all_rows-Reads column_row ColumnOf column_row_lem _ columns e1;
      keys_read = all_rows-Reads primary_key_row RelationOf primary_key_row_lem _ keys e2;
      edges_read = all_rows-Reads foreign_key_row ForeignKeyOf foreign_key_row_lem _ edges e3;
      enums_read = all_rows-Reads enum_row EnumOf enum_row_lem _ enums e4;
    })

pub length-Reads :
    {A : Type 0} (P : List Value → A → Type 0) (rs : List (List Value)) (xs : List A)
    → Reads P rs xs
    → length xs ≡ length rs
length-Reads P [] [] h = refl
length-Reads P [] (x ∷ xs) h = absurd h
length-Reads P (r ∷ rs) [] h = absurd h
length-Reads P (r ∷ rs) (x ∷ xs) h = ap suc (length-Reads P rs xs h.1)
