-- ===== src/Migrate/Entries.antt =====
-- configmigrate.py: the missing keys as entries of the schema, and the lines that offer them.
use mcp_postgres.Prelude.{
  ℕ, ◌≡◌, refl, ap, ap₂, sym, ◌∙◌, Bool, true, false, Option, none, some, List, [], ◌∷◌, ◌++◌, map,
  All, All-append, keep, keep-append, if◌then◌else◌,
}
use mcp_postgres.PyText.{Text, lit, is_break}
use mcp_postgres.PyText.Lines.{IsLine, IsBreakFree, is_line_sound}
use mcp_postgres.Config.{Default, Schema, Document, is_missing, missing_keys, missing_of}
use mcp_postgres.Migrate.{toml_literal, versioned, offer}
use mcp_postgres.Migrate.Grouped.{GroupOf, EntryOf}

abbrev pub VersionIsLine : Option Text → Type 0
VersionIsLine none = Unit
VersionIsLine (some v) = IsLine v

versioned-IsLine :
    (version : Option Text) (without with_it : Text)
    → VersionIsLine version
    → IsLine without
    → IsLine with_it
    → IsLine (versioned version without with_it)
versioned-IsLine none without with_it v a b = a
versioned-IsLine (some []) without with_it v a b = a
versioned-IsLine (some (c ∷ cs)) without with_it v a b = All-append IsBreakFree with_it (c ∷ cs) b v

pub offer-IsLine :
    (version : Option Text) (key : Text) (default : Default)
    → VersionIsLine version
    → IsLine key
    → IsLine (toml_literal default)
    → IsLine (offer version (key, default))
unfolding lit is_break
offer-IsLine version key default v k l =
    let note = versioned version (lit "new setting") (lit "new in ") in
    let noted =
      All-append IsBreakFree note (lit "; uncomment to override")
        (versioned-IsLine version (lit "new setting") (lit "new in ") v
          (is_line_sound (lit "new setting") refl) (is_line_sound (lit "new in ") refl))
        (is_line_sound (lit "; uncomment to override") refl) in
    let valued =
      All-append IsBreakFree (toml_literal default)
        (lit "   # " ++ (note ++ lit "; uncomment to override")) l
        (All-append IsBreakFree (lit "   # ") (note ++ lit "; uncomment to override")
          (is_line_sound (lit "   # ") refl) noted) in
    All-append IsBreakFree (lit "# ") _ (is_line_sound (lit "# ") refl) (
      All-append IsBreakFree key _ k
        (All-append IsBreakFree (lit " = ") _ (is_line_sound (lit " = ") refl) valued))

-- the keys of a schema, each with its section
abbrev pub entries : Schema → List (Text × (Text × Default))
entries [] = []
entries ((section, keys) ∷ known) = map (λ f. (section, f)) keys ++ entries known

module _ (P : Text → Type 0) (Q : Text × Default → Type 0) where
  keys-EntryOf :
      (section : Text) (keys : List (Text × Default))
      → P section
      → All Q keys
      → All (EntryOf P Q) (map (λ f. (section, f)) keys)
  keys-EntryOf section [] p q = tt
  keys-EntryOf section (f ∷ keys) p q = ((p, q.0), keys-EntryOf section keys p q.1)

  pub entries-EntryOf :
      (known : Schema) → All (GroupOf P Q) known → All (EntryOf P Q) (entries known)
  entries-EntryOf [] h = tt
  entries-EntryOf ((section, keys) ∷ known) h =
      All-append (EntryOf P Q) (map (λ f. (section, f)) keys) (entries known)
        (keys-EntryOf section keys h.0.0 h.0.1) (entries-EntryOf known h.1)

module _ {V : Type 0} (d : Document V) (commented : List (Text × List Text))
    (loads : Text → Option (Document V)) (beyond_ascii : ℕ → Bool) where
  -- what the report lists: the keys that are neither set nor mentioned
  abbrev pub lacks : Text × (Text × Default) → Bool
  lacks e = is_missing loads beyond_ascii d commented e.0 e.1.0

  missing_keys-entries :
      (section : Text) (keys : List (Text × Default))
      → missing_keys loads beyond_ascii d commented section keys
        ≡ keep lacks (map (λ f. (section, f)) keys)
  missing_keys-entries section [] = refl
  missing_keys-entries section (f ∷ keys) =
      by_test (is_missing loads beyond_ascii d commented section f.0)
        (missing_keys-entries section keys)
    where
      by_test :
          (b : Bool)
          → missing_keys loads beyond_ascii d commented section keys
            ≡ keep lacks (map (λ g. (section, g)) keys)
          → map
              (λ g. (section, g))
              (if b
                then f ∷ keep (λ g. is_missing loads beyond_ascii d commented section g.0) keys
                else keep (λ g. is_missing loads beyond_ascii d commented section g.0) keys)
            ≡ (if b
                then (section, f) ∷ keep lacks (map (λ g. (section, g)) keys)
                else keep lacks (map (λ g. (section, g)) keys))
      by_test true e = ap (λ (r : List (Text × (Text × Default))). (section, f) ∷ r) e
      by_test false e = e

  pub missing_of-entries :
      (known : Schema)
      → missing_of loads beyond_ascii d commented known ≡ keep lacks (entries known)
  unfolding missing_of
  missing_of-entries [] = refl
  missing_of-entries ((section, keys) ∷ known) =
      ap₂ (λ (a b : List (Text × (Text × Default))). a ++ b) (missing_keys-entries section keys)
        (missing_of-entries known)
      ∙ sym (keep-append lacks (map (λ f. (section, f)) keys) (entries known))
