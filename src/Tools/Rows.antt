-- ===== src/Tools/Rows.antt =====
-- tools/base.py: `cell` and `rows_as_dicts`, which make the rows of a result fit for JSON.
use mcp_postgres.Prelude.{
  ◌≡◌, refl, ap, ap₂, ◌∙◌, Bool, true, false, ◌&&◌, Option, none, some, String, str_eq, eq_iff,
  List, [], ◌∷◌, map, arith, if◌then◌else◌,
}
use mcp_postgres.Tools.Base.{ℤ}

-- The values that a cell can have; `opaque` stands for all the others, by what `str` gives.
mutual
  pub data Value : Type 0 where
    null : Value
    bool : Bool → Value
    int : ℤ → Value
    float : String → Value
    text : String → Value
    opaque : String → Value
    sequence : Values → Value
    tuple : Values → Value
    dict : Fields → Value

  pub data Values : Type 0 where
    nil : Values
    cons : Value → Values → Values

  pub data Fields : Type 0 where
    end : Fields
    field : String → Value → Fields → Fields

unfoldable mutual
  pub cell : Value → Value
  cell null = null
  cell (bool b) = bool b
  cell (int n) = int n
  cell (float x) = float x
  cell (text s) = text s
  cell (opaque s) = text s
  cell (sequence vs) = sequence (cells vs)
  cell (tuple vs) = sequence (cells vs)
  cell (dict fs) = dict (cell_fields fs)

  pub cells : Values → Values
  cells nil = nil
  cells (cons v vs) = cons (cell v) (cells vs)

  pub cell_fields : Fields → Fields
  cell_fields end = end
  cell_fields (field k v fs) = field k (cell v) (cell_fields fs)

-- What JSON can show: no tuple and no other object at any depth.
unfoldable mutual
  pub is_json : Value → Bool
  is_json null = true
  is_json (bool b) = true
  is_json (int n) = true
  is_json (float x) = true
  is_json (text s) = true
  is_json (opaque s) = false
  is_json (sequence vs) = all_json vs
  is_json (tuple vs) = false
  is_json (dict fs) = fields_json fs

  pub all_json : Values → Bool
  all_json nil = true
  all_json (cons v vs) = is_json v && all_json vs

  pub fields_json : Fields → Bool
  fields_json end = true
  fields_json (field k v fs) = is_json v && fields_json fs

mutual
  unfolding cell cells cell_fields is_json all_json fields_json

  json_cell : (v : Value) → is_json (cell v) ≡ true
  json_cell null = refl
  json_cell (bool b) = refl
  json_cell (int n) = refl
  json_cell (float x) = refl
  json_cell (text s) = refl
  json_cell (opaque s) = refl
  json_cell (sequence vs) = json_cells vs
  json_cell (tuple vs) = json_cells vs
  json_cell (dict fs) = json_fields fs

  json_cells : (vs : Values) → all_json (cells vs) ≡ true
  json_cells nil = refl
  json_cells (cons v vs) = ground (arith, json_cell v, json_cells vs)

  json_fields : (fs : Fields) → fields_json (cell_fields fs) ≡ true
  json_fields end = refl
  json_fields (field k v fs) = ground (arith, json_cell v, json_fields fs)

mutual
  unfolding cell cells cell_fields is_json all_json fields_json

  fixed_cell : (v : Value) → is_json v ≡ true → cell v ≡ v
  fixed_cell null h = refl
  fixed_cell (bool b) h = refl
  fixed_cell (int n) h = refl
  fixed_cell (float x) h = refl
  fixed_cell (text s) h = refl
  fixed_cell (opaque s) h = ground arith
  fixed_cell (sequence vs) h = ap sequence (fixed_cells vs h)
  fixed_cell (tuple vs) h = ground arith
  fixed_cell (dict fs) h = ap dict (fixed_fields fs h)

  fixed_cells : (vs : Values) → all_json vs ≡ true → cells vs ≡ vs
  fixed_cells nil h = refl
  fixed_cells (cons v vs) h = ap₂ cons (fixed_cell v (ground arith)) (fixed_cells vs (ground arith))

  fixed_fields : (fs : Fields) → fields_json fs ≡ true → cell_fields fs ≡ fs
  fixed_fields end h = refl
  fixed_fields (field k v fs) h =
      ap₂ (field k) (fixed_cell v (ground arith)) (fixed_fields fs (ground arith))

-- A dictionary, in the order of insertion: a key that comes again takes the new value.
abbrev pub Dict : Type 0
Dict = List (String × Value)

unfoldable pub put : String → Value → Dict → Dict
put k v [] = (k, v) ∷ []
put k v ((j, u) ∷ d) = let rest = put k v d in if str_eq j k then (j, v) ∷ d else (j, u) ∷ rest

unfoldable pub get : String → Dict → Option Value
get k [] = none
get k ((j, v) ∷ d) = if str_eq j k then some v else get k d

-- `{c: cell(v) for c, v in zip(cols, r)}`, from a dictionary so far
unfoldable pub row_as_dict : List String → List Value → Dict → Dict
row_as_dict [] vs d = d
row_as_dict (c ∷ cs) [] d = d
row_as_dict (c ∷ cs) (v ∷ vs) d = row_as_dict cs vs (put c (cell v) d)

unfoldable pub rows_as_dicts : List String → List (List Value) → List Dict
unfolding row_as_dict put
rows_as_dicts cols rows = map (λ r. row_as_dict cols r []) rows

abbrev pub or_else : Option Value → Option Value → Option Value
or_else none b = b
or_else (some a) b = some a

-- The value of the last column with a name.
unfoldable pub last_value : String → List String → List Value → Option Value
last_value k [] vs = none
last_value k (c ∷ cs) [] = none
last_value k (c ∷ cs) (v ∷ vs) = or_else (last_value k cs vs) (if str_eq c k then some v else none)

abbrev pub cell_of : Option Value → Option Value
cell_of none = none
cell_of (some v) = some (cell v)

get-put :
    (k j : String) (v : Value) (d : Dict)
    → get j (put k v d) ≡ (if str_eq k j then some v else get j d)
unfolding get put
get-put k j v [] = refl
get-put k j v ((i, u) ∷ d) = ground (arith, eq_iff k j, eq_iff i k, eq_iff i j, get-put k j v d)

-- The dictionary that a row is put into has under each name the cell of the last column of that
-- name, or what it had before if there is none: of two columns that share a name, as in a join, the
-- first one's value is not in the result.
pub row_as_dict_lem :
    (k : String) (cols : List String) (row : List Value) (d : Dict)
    → get k (row_as_dict cols row d) ≡ or_else (cell_of (last_value k cols row)) (get k d)
unfolding row_as_dict last_value get
row_as_dict_lem k [] row d = refl
row_as_dict_lem k (c ∷ cs) [] d = refl
row_as_dict_lem k (c ∷ cs) (v ∷ vs) d =
    row_as_dict_lem k cs vs (put c (cell v) d)
    ∙ ap (or_else (cell_of (last_value k cs vs))) (get-put c k (cell v) d)
    ∙ split (last_value k cs vs) (str_eq c k)
  where
    split :
        (l : Option Value) (b : Bool)
        → or_else (cell_of l) (if b then some (cell v) else get k d)
          ≡ or_else (cell_of (or_else l (if b then some v else none))) (get k d)
    split none true = refl
    split none false = refl
    split (some x) b = refl

-- What `cell` makes of a value can be shown as JSON, and a value that can be is left as it is.
pub cell_json : (v : Value) → (is_json (cell v) ≡ true) × (is_json v ≡ true → cell v ≡ v)
cell_json v = (json_cell v, fixed_cell v)
