-- ===== src/Migrate/Whole.antt =====
-- configmigrate.py with the report of config.py: the whole migration.
use mcp_postgres.Prelude.{
  ℕ, ◌≡◌, refl, sym, ◌∙◌, subst, Bool, true, false, ◌||◌, Option, none, some, List, [], ◌∷◌, ◌++◌,
  All, All-map, All-keep, keep, if◌then◌else◌,
}
use mcp_postgres.PyText.{Text}
use mcp_postgres.PyText.Lines.{split_lines}
use mcp_postgres.Config.{
  Default, Schema, Document, ConfigReport, file_known_keys, reason_of, has_key, look_up,
  commented_keys, classify_keys, classify_table, classify, missing_of, diff_parsed, diff_config,
  empty_report, is_secret,
}
use mcp_postgres.Migrate.{migrate}
use mcp_postgres.Migrate.Grouped.{EntryOf}
use mcp_postgres.Migrate.Insertion.{active}
use mcp_postgres.Migrate.Neutral.{IsTitle, IsKnown, apply_migration-active}
use mcp_postgres.Migrate.Entries.{
  VersionIsLine, offer-IsLine, entries, entries-EntryOf, lacks, missing_of-entries,
}
use mcp_postgres.Migrate.Schema.{IsPlain, file_known_keys-Plain}

module _ {V : Type 0} (loads : Text → Option (Document V)) (beyond_ascii : ℕ → Bool) where
  abbrev SameLists : ConfigReport → ConfigReport → Type 0
  SameLists r r' = (r'.missing ≡ r.missing) × (r'.deprecated_present ≡ r.deprecated_present)

  classify_keys-SameLists :
      (section : Text) (keys : List (Text × Default)) (vs : List (Text × V)) (r : ConfigReport)
      → SameLists r (classify_keys loads beyond_ascii section keys vs r)
  unfolding classify_keys reason_of
  classify_keys-SameLists section keys [] r = (refl, refl)
  classify_keys-SameLists section keys ((key, v) ∷ vs) r =
      by_test (has_key key keys || is_secret section key)
        (classify_keys-SameLists section keys vs r)
        (classify_keys-SameLists section keys vs
          (record r { unknown_keys = r.unknown_keys ++ (section, key) ∷ [] }))
    where
      by_test :
          (b : Bool)
          → SameLists r (classify_keys loads beyond_ascii section keys vs r)
          → SameLists r (
              classify_keys loads beyond_ascii section keys vs
                (record r { unknown_keys = r.unknown_keys ++ (section, key) ∷ [] }))
          → SameLists r (
              classify_keys loads beyond_ascii section keys vs (
                if b then r else record r { unknown_keys = r.unknown_keys ++ (section, key) ∷ [] }))
      by_test true h k = h
      by_test false h k = k

  classify_table-SameLists :
      (section : Text) (o : Option (List (Text × Default))) (vs : List (Text × V))
      (r : ConfigReport)
      → SameLists r (classify_table loads beyond_ascii section o vs r)
  classify_table-SameLists section none vs r = (refl, refl)
  classify_table-SameLists section (some keys) vs r = classify_keys-SameLists section keys vs r

  classify-SameLists :
      (known : Schema) (d : Document V) (r : ConfigReport)
      → SameLists r (classify loads beyond_ascii known d r)
  unfolding classify
  classify-SameLists known [] r = (refl, refl)
  classify-SameLists known ((section, none) ∷ d) r = classify-SameLists known d r
  classify-SameLists known ((section, some vs) ∷ d) r =
      let next = classify_table loads beyond_ascii section (look_up section known) vs r in
      let here = classify_table-SameLists section (look_up section known) vs r in
      let later = classify-SameLists known d next in (later.0 ∙ here.0, later.1 ∙ here.1)

  -- The two lists of a report on which the migration depends.
  unfoldable pub missing_in : Option (Document V) → Text → List (Text × (Text × Default))
  missing_in none old = []
  missing_in (some d) old =
      keep (lacks d (commented_keys beyond_ascii old) loads beyond_ascii) (entries file_known_keys)

  pub diff_config_lem :
      (o : Option (Document V)) (old : Text)
      → ((diff_parsed loads beyond_ascii o old).missing ≡ missing_in o old)
        × ((diff_parsed loads beyond_ascii o old).deprecated_present ≡ [])
  unfolding missing_in
  diff_config_lem none old = (refl, refl)
  diff_config_lem (some d) old =
      let commented = commented_keys beyond_ascii old in
      let (m, p) = classify-SameLists file_known_keys d (record empty_report {
        missing = missing_of loads beyond_ascii d commented file_known_keys;
      }) in
      (m ∙ missing_of-entries d commented loads beyond_ascii file_known_keys, p)

  pub known_entries : All (EntryOf IsTitle (IsPlain beyond_ascii)) (entries file_known_keys)
  known_entries =
      entries-EntryOf IsTitle (IsPlain beyond_ascii) file_known_keys
        (file_known_keys-Plain beyond_ascii)

  pub missing_in-Entries :
      (o : Option (Document V)) (old : Text)
      → All (EntryOf IsTitle (IsPlain beyond_ascii)) (missing_in o old)
  unfolding missing_in
  missing_in-Entries none old = tt
  missing_in-Entries (some d) old =
      All-keep (EntryOf IsTitle (IsPlain beyond_ascii)) _ (entries file_known_keys) known_entries

  pub missing_in-Known :
      (o : Option (Document V)) (old : Text) (version : Option Text)
      → VersionIsLine version
      → All (IsKnown version) (missing_in o old)
  missing_in-Known o old version v =
      All-map (missing_in o old) (λ e k. (k.0, offer-IsLine version e.1.0 e.1.1 v k.1.1 k.1.2))
        (missing_in-Entries o old)

  -- A migration keeps every line that is neither blank nor a comment nor a header as the migration
  -- recognises one, which is alone on its line: these lines are the same ones, in the same order and
  -- each under the same recognised header. Of a header with a comment behind it, and of a line
  -- inside a string of several lines, it says no more. The version is one line.
  pub migrate-active :
      (old : Text) (version : Option Text)
      → VersionIsLine version
      → active none (split_lines (migrate loads beyond_ascii old version).0)
        ≡ active none (split_lines old)
  unfolding migrate diff_config
  migrate-active old version v =
      let (m, p) = diff_config_lem (loads old) old in
      apply_migration-active (diff_parsed loads beyond_ascii (loads old) old) old version p
        (subst (All (IsKnown version)) (sym m) (missing_in-Known (loads old) old version v))
