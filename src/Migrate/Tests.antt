-- ===== src/Migrate/Tests.antt =====
-- Runs and instances of the theorems on the migration. In the report of the first run one key is
-- missing from a section that is
-- there, and one from a section that is not.
use mcp_postgres.Prelude.{
  true, List, false, Option, sym, ap, ◌∙◌, ◌==◌, if◌then◌else◌, ◌≡◌, refl, none, some, [], ◌∷◌,
}
use mcp_postgres.PyText.{Text, lit, is_space, is_break, text_eq}
use mcp_postgres.PyText.Lines.{split_lines, join, is_line_sound, unlines}
use mcp_postgres.PyText.Strip.{lstrip, strip}
use mcp_postgres.Config.{
  Document, look_up, has_key, table_of, number, word, group, section_of, ConfigReport,
}
use mcp_postgres.Migrate.{
  escape, toml_literal, span_body, trim_blanks, insert_at_header, ends_visibly, insert_into_section,
  add_to_group, by_section, add_missing, comment_deprecated, apply_migration, migrate,
}
use mcp_postgres.Migrate.Insertion.{active}
use mcp_postgres.Migrate.Again.{migrate_again}
use mcp_postgres.Migrate.Toml.{IsToml, has_triple, plain_breaks}
use mcp_postgres.Migrate.Whole.{migrate-active}

abbrev report : ConfigReport
report = record {
  missing =
      (lit "server", (lit "port", number (lit "8080")))
      ∷ (lit "oauth", (lit "public_url", word []))
      ∷ [];
  deprecated_present = [];
  unknown_keys = [];
  unknown_sections = [];
}

-- What the runs below compute with.
evaluate : Unit {0}
unfolding lit is_space is_break text_eq split_lines join lstrip strip escape toml_literal group
    section_of span_body trim_blanks insert_at_header ends_visibly insert_into_section add_to_group
    by_section add_missing comment_deprecated apply_migration unlines
evaluate = tt

before : Text
unfolding evaluate
before = unlines (lit "[server]" ∷ lit "bind = 1" ∷ [])

migrated_run :
    (apply_migration report before (some (lit "2"))).0
    ≡ unlines (
        lit "[server]"
        ∷ lit "bind = 1"
        ∷ lit "# port = 8080   # new in 2; uncomment to override"
        ∷ lit ""
        ∷ lit "[oauth]"
        ∷ lit "# public_url = \"\"   # new in 2; uncomment to override"
        ∷ [])
unfolding evaluate before
migrated_run = refl

-- A parser of plain assignments, which reads the lines in effect.
abbrev until_equals : Text → Text
until_equals [] = []
until_equals (c ∷ cs) = if c == b'=' then [] else c ∷ until_equals cs

abbrev set_key : Text → Text → Document (Unit {0}) → Document (Unit {0})
set_key section key [] = (section, some ((key, tt) ∷ [])) ∷ []
set_key section key ((s, table) ∷ d) =
    let rest = set_key section key d in
    if text_eq s section
    then (s, some ((key, tt) ∷ table_of (some table))) ∷ d
    else (s, table) ∷ rest

abbrev set_line : Option Text × Text → Document (Unit {0}) → Document (Unit {0})
set_line (none, line) d = d
set_line (some section, line) d = set_key section (strip (until_equals line)) d

abbrev document_of : List (Option Text × Text) → Document (Unit {0})
document_of [] = []
document_of (l ∷ ls) = set_line l (document_of ls)

abbrev loads : Text → Option (Document (Unit {0}))
loads old = some (document_of (active none (split_lines old)))

abbrev or_empty : Option (Document (Unit {0})) → Document (Unit {0})
or_empty none = []
or_empty (some d) = d

loads-IsToml : IsToml loads
loads-IsToml = record {
  same_keys = λ old new d d' plain breaks breaks' same counted parsed parsed' section key.
      let seen = λ (o : Option (Document (Unit {0}))).
        has_key key (table_of (look_up section (or_empty o))) in
      sym (ap seen parsed') ∙ ap (λ a. seen (some (document_of a))) same ∙ ap seen parsed;
}

-- The second key of the server is missing, but it is mentioned.
settings : Text
unfolding evaluate
settings = unlines (lit "[server]" ∷ lit "bind = \"::1\"" ∷ lit "# port = 1" ∷ [])

settings_plain : has_triple settings ≡ false
unfolding settings evaluate has_triple
settings_plain = refl

settings_breaks : plain_breaks settings ≡ true
unfolding settings evaluate
settings_breaks = refl

migrate_again_example :
    let (new, changes) = migrate loads (λ c. false) settings (some (lit "2")) in
    migrate loads (λ c. false) new (some (lit "2")) ≡ (new, [])
unfolding evaluate
migrate_again_example =
    migrate_again loads (λ c. false) (some (lit "2")) settings loads-IsToml settings_plain
      settings_breaks (is_line_sound (lit "2") refl)

migrate-active_example :
    active none (split_lines (migrate loads (λ c. false) settings (some (lit "2"))).0)
    ≡ active none (split_lines settings)
unfolding evaluate
migrate-active_example =
    migrate-active loads (λ c. false) settings (some (lit "2")) (is_line_sound (lit "2") refl)
