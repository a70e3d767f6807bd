-- ===== src/Tools/Introspection/Collect/Shape.antt =====
-- tools/introspection.py: what `collect_db_schema` reports, against the rows of its queries.
use mcp_postgres.Prelude.{
  ℕ, ◌+◌, suc, zero, ◌≡◌, refl, sym, ap, ap₂, ◌∙◌, Bool, true, false, not, ◌&&◌, ◌||◌, String,
  str_eq, eq_iff, List, [], ◌∷◌, ◌++◌, map, length, keep, ltb, min, append_assoc, append-nil, arith,
  if◌then◌else◌, ◌↔◌,
}
use mcp_postgres.Db.{take}
use mcp_postgres.Tools.Rows.{Value}
use mcp_postgres.Tools.Introspection.Collect.{
  Key, key_eq, append_to, group_rows, items_of, Table, Enum, Contents, Schemas, Catalogue,
  empty_schema, at_schema, add_table, set_enums, Grouped, grouped, table_at, add_tables, add_enums,
}

-- the items of the rows with a key, in their order
abbrev pub with_key : {K A : Type 0} → (K → K → Bool) → K → List (K × A) → List A
with_key same k rows = map (λ r. r.1) (keep (λ r. same r.0 k) rows)

key_eq_iff : (a b : Key) → (key_eq a b ≡ true) ↔ (a ≡ b)
key_eq_iff (a, b) (c, d) = ground (arith, eq_iff a c, eq_iff b d)

module _ {K A : Type 0} (same : K → K → Bool)
    (same_iff : (a b : K) → (same a b ≡ true) ↔ (a ≡ b)) where
  items_of-append_to :
      (k j : K) (a : A) (d : List (K × List A))
      → items_of same j (append_to same k a d)
        ≡ (if same k j then items_of same j d ++ a ∷ [] else items_of same j d)
  unfolding items_of append_to
  items_of-append_to k j a [] = ground arith
  items_of-append_to k j a ((i, as') ∷ d) =
      ground (arith, items_of-append_to k j a d, same_iff i k, same_iff i j, same_iff k j)

  pub items_of-group_rows :
      (j : K) (rows : List (K × A)) (d : List (K × List A))
      → items_of same j (group_rows same rows d) ≡ items_of same j d ++ with_key same j rows
  unfolding group_rows
  items_of-group_rows j [] d = sym (append-nil (items_of same j d))
  items_of-group_rows j ((k, a) ∷ rows) d =
      items_of-group_rows j rows (append_to same k a d)
      ∙ ap (λ (l : List A). l ++ with_key same j rows) (items_of-append_to k j a d)
      ∙ by_key (same k j)
    where
      by_key :
          (b : Bool)
          → (if b then items_of same j d ++ a ∷ [] else items_of same j d) ++ with_key same j rows
            ≡ items_of same j d
              ++ map
                  (λ r. r.1)
                  (if b then (k, a) ∷ keep (λ r. same r.0 j) rows else keep (λ r. same r.0 j) rows)
      by_key true = append_assoc (items_of same j d) (a ∷ []) (with_key same j rows)
      by_key false = refl

abbrev pub contents_of : String → Schemas → Contents
contents_of s [] = empty_schema
contents_of s ((j, c) ∷ d) = if str_eq j s then c else contents_of s d

contents_of-at_schema :
    (s j : String) (f : Contents → Contents) (d : Schemas)
    → contents_of j (at_schema s f d)
      ≡ (if str_eq s j then f (contents_of j d) else contents_of j d)
unfolding at_schema
contents_of-at_schema s j f [] = refl
contents_of-at_schema s j f ((i, c) ∷ d) =
    ground (arith, contents_of-at_schema s j f d, eq_iff i s, eq_iff i j, eq_iff s j)

-- the relations placed under their schemas, without a cap
abbrev pub place : Grouped → List (Key × Value) → Schemas → Schemas
place g [] d = d
place g (r ∷ rs) d = place g rs (at_schema r.0.0 (add_table (table_at g r)) d)

pub add_tables_lem :
    (g : Grouped) (k m : ℕ) (rs : List (Key × Value)) (d : Schemas) (t : ℕ)
    → k + t ≡ m
    → add_tables g m rs d t ≡ (place g (take k rs) d, (t + min k (length rs), ltb k (length rs)))
unfolding add_tables
add_tables_lem g zero m [] d t h = ground arith
add_tables_lem g (suc k) m [] d t h = ground arith
add_tables_lem g zero m (r ∷ rs) d t h = ground arith
add_tables_lem g (suc k) m (r ∷ rs) d t h = ground (
  arith,
  add_tables_lem g k m rs (at_schema r.0.0 (add_table (table_at g r)) d) (t + 1) (omega arith),
)

pub contents_of-place :
    (g : Grouped) (s : String) (rs : List (Key × Value)) (d : Schemas)
    → contents_of s (place g rs d) ≡ record (contents_of s d) {
      tables = (contents_of s d).tables ++ map (table_at g) (keep (λ r. str_eq r.0.0 s) rs);
    }
contents_of-place g s [] d =
    ap (λ ts. record (contents_of s d) { tables = ts }) (sym (append-nil (contents_of s d).tables))
contents_of-place g s (r ∷ rs) d = ground (
  arith,
  contents_of-place g s rs (at_schema r.0.0 (add_table (table_at g r)) d),
  contents_of-at_schema r.0.0 s (add_table (table_at g r)) d,
  append_assoc (contents_of s d).tables (table_at g r ∷ [])
      (map (table_at g) (keep (λ q. str_eq q.0.0 s) rs)),
)

unfoldable pub has_key : {K A : Type 0} → (K → K → Bool) → K → List (K × A) → Bool
has_key same k [] = false
has_key same k ((j, a) ∷ d) = same j k || has_key same k d

-- whether each key has one entry
unfoldable pub is_dict : {K A : Type 0} → (K → K → Bool) → List (K × A) → Bool
is_dict same [] = true
is_dict same ((k, a) ∷ d) = not (has_key same k d) && is_dict same d

has_key-append_to :
    {A : Type 0} (j k : String) (a : A) (d : List (String × List A))
    → has_key str_eq j (append_to str_eq k a d) ≡ (str_eq k j || has_key str_eq j d)
unfolding has_key append_to
has_key-append_to j k a [] = ground arith
has_key-append_to j k a ((i, as') ∷ d) =
    ground (arith, has_key-append_to j k a d, eq_iff i k, eq_iff i j, eq_iff k j)

is_dict-append_to :
    {A : Type 0} (k : String) (a : A) (d : List (String × List A))
    → is_dict str_eq d ≡ true
    → is_dict str_eq (append_to str_eq k a d) ≡ true
unfolding has_key append_to is_dict
is_dict-append_to k a [] h = ground arith
is_dict-append_to k a ((i, as') ∷ d) h =
    ground (arith, is_dict-append_to k a d, has_key-append_to i k a d, eq_iff i k, eq_iff k i)

pub is_dict-group_rows :
    {A : Type 0} (rows : List (String × A)) (d : List (String × List A))
    → is_dict str_eq d ≡ true
    → is_dict str_eq (group_rows str_eq rows d) ≡ true
unfolding group_rows
is_dict-group_rows [] d h = h
is_dict-group_rows ((k, a) ∷ rows) d h =
    is_dict-group_rows rows (append_to str_eq k a d) (is_dict-append_to k a d h)

pub contents_of-add_enums :
    (s : String) (es : List (String × List Enum)) (d : Schemas)
    → is_dict str_eq es ≡ true
    → contents_of s (add_enums es d) ≡ (
        if has_key str_eq s es
        then record (contents_of s d) { enums = items_of str_eq s es }
        else contents_of s d)
unfolding add_enums is_dict has_key items_of
contents_of-add_enums s [] d h = refl
contents_of-add_enums s ((j, x) ∷ es) d h = ground (
  arith,
  contents_of-add_enums s es (at_schema j (set_enums x) d),
  contents_of-at_schema j s (set_enums x) d,
  eq_iff j s,
)

pub items_of-no_key :
    {A : Type 0} (s : String) (es : List (String × List A))
    → has_key str_eq s es ≡ false
    → items_of str_eq s es ≡ []
unfolding items_of has_key
items_of-no_key s [] h = refl
items_of-no_key s ((j, x) ∷ es) h = ground (arith, items_of-no_key s es)

has_key-at_schema :
    (j s : String) (f : Contents → Contents) (d : Schemas)
    → has_key str_eq j (at_schema s f d) ≡ (str_eq s j || has_key str_eq j d)
unfolding has_key at_schema
has_key-at_schema j s f [] = ground arith
has_key-at_schema j s f ((i, c) ∷ d) =
    ground (arith, has_key-at_schema j s f d, eq_iff i s, eq_iff i j, eq_iff s j)

is_dict-at_schema :
    (s : String) (f : Contents → Contents) (d : Schemas)
    → is_dict str_eq d ≡ true
    → is_dict str_eq (at_schema s f d) ≡ true
unfolding has_key at_schema is_dict
is_dict-at_schema s f [] h = ground arith
is_dict-at_schema s f ((i, c) ∷ d) h =
    ground (arith, is_dict-at_schema s f d, has_key-at_schema i s f d, eq_iff i s, eq_iff s i)

pub is_dict-place :
    (g : Grouped) (rs : List (Key × Value)) (d : Schemas)
    → is_dict str_eq d ≡ true
    → is_dict str_eq (place g rs d) ≡ true
is_dict-place g [] d h = h
is_dict-place g (r ∷ rs) d h =
    is_dict-place g rs _ (is_dict-at_schema r.0.0 (add_table (table_at g r)) d h)

pub is_dict-add_enums :
    (es : List (String × List Enum)) (d : Schemas)
    → is_dict str_eq d ≡ true
    → is_dict str_eq (add_enums es d) ≡ true
unfolding add_enums
is_dict-add_enums [] d h = h
is_dict-add_enums ((s, x) ∷ es) d h = is_dict-add_enums es _ (is_dict-at_schema s (set_enums x) d h)

-- a relation's table, from the rows of its own schema and name
abbrev pub described_table : Catalogue → Key × Value → Table
described_table c (key, kind) = record {
  name = key.1;
  kind = kind;
  columns = with_key key_eq key c.columns;
  primary_key = with_key key_eq key c.primary_keys;
  foreign_keys = with_key key_eq key c.foreign_keys;
}

pub table_at-grouped :
    (c : Catalogue) (r : Key × Value) → table_at (grouped c) r ≡ described_table c r
unfolding items_of
table_at-grouped c (key, kind) = cc (
  items_of-group_rows key_eq key_eq_iff key c.columns [],
  items_of-group_rows key_eq key_eq_iff key c.primary_keys [],
  items_of-group_rows key_eq key_eq_iff key c.foreign_keys [],
)

pub map_same :
    {A B : Type 0} (f g : A → B) → ((a : A) → f a ≡ g a) → (xs : List A) → map f xs ≡ map g xs
map_same f g h [] = refl
map_same f g h (x ∷ xs) = ap₂ (λ y ys. y ∷ ys) (h x) (map_same f g h xs)

abbrev pub described_schema : ℕ → Catalogue → String → Contents
described_schema max_tables c s = record {
  tables = map (described_table c) (keep (λ r. str_eq r.0.0 s) (take max_tables c.relations));
  enums = with_key str_eq s c.enums;
}
