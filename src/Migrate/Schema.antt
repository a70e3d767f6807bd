-- ===== src/Migrate/Schema.antt =====
-- config.py: what the schema gives the migration: sections and keys that can be written and read
-- back, and a report that names keys of the schema only.
use mcp_postgres.Prelude.{
  ℕ, ◌≡◌, refl, ap, Bool, true, false, not, ◌&&◌, Option, none, some, List, [], ◌∷◌, All, all_of,
  arith,
}
use mcp_postgres.PyText.{Text, lit, is_space, is_break, text_eq, text_eq_sound}
use mcp_postgres.PyText.Lines.{IsLine, is_line, is_line_sound}
use mcp_postgres.PyText.Strip.{lstrip, strip}
use mcp_postgres.Config.{
  Default, Schema, section_models, is_secret, file_known_keys, group, section_of, is_word,
  starts_key, continues_key,
}
use mcp_postgres.Migrate.{header_of, escape, toml_literal}
use mcp_postgres.Migrate.Grouped.{GroupOf}
use mcp_postgres.Migrate.Mentions.{is_text}
use mcp_postgres.Migrate.Neutral.{IsTitle}
use mcp_postgres.Migrate.Offered.{IsKey}

-- What is written for a key, and the key itself, stand on one line.
abbrev pub IsPlain : (ℕ → Bool) → Text × Default → Type 0
IsPlain beyond_ascii (key, default) =
    IsKey beyond_ascii key × IsLine key × IsLine (toml_literal default)

module _ (beyond_ascii : ℕ → Bool) where
  abbrev key_ok : Text → Bool
  key_ok [] = false
  key_ok (c ∷ cs) = not (is_space c) && (starts_key c && all_of (continues_key beyond_ascii) cs)

  abbrev plain_ok : Text × Default → Bool
  plain_ok (key, default) = key_ok key && (is_line key && is_line (toml_literal default))

  abbrev title_ok : Text → Bool
  title_ok section = is_text (section_of (header_of section)) section && is_line (header_of section)

  abbrev schema_ok : Schema → Bool
  schema_ok = all_of (λ m. title_ok m.0 && all_of plain_ok m.1)

  continues_sound :
      (cs : Text)
      → all_of (continues_key beyond_ascii) cs ≡ true
      → All (λ d. continues_key beyond_ascii d ≡ true) cs
  continues_sound [] h = tt
  continues_sound (c ∷ cs) h = (ground arith, continues_sound cs (ground arith))

  IsKey-sound : (k : Text) → key_ok k ≡ true → IsKey beyond_ascii k
  IsKey-sound [] h = cc (h)
  IsKey-sound (c ∷ cs) h = (ground arith, ground arith, continues_sound cs (ground arith))

  is_text_sound : (o : Option Text) (t : Text) → is_text o t ≡ true → o ≡ some t
  is_text_sound none t h = cc (h)
  is_text_sound (some s) t h = ap some (text_eq_sound s t h)

  IsTitle-sound : (s : Text) → title_ok s ≡ true → IsTitle s
  IsTitle-sound s h = (
    is_text_sound (section_of (header_of s)) s (ground arith),
    is_line_sound (header_of s) (ground arith),
  )

  plain_sound :
      (items : List (Text × Default))
      → all_of plain_ok items ≡ true
      → All (IsPlain beyond_ascii) items
  plain_sound [] h = tt
  plain_sound ((k, d) ∷ items) h = (
    (
      IsKey-sound k (ground arith),
      is_line_sound k (ground arith),
      is_line_sound (toml_literal d) (ground arith),
    ),
    plain_sound items (ground arith),
  )

  schema_sound :
      (known : Schema) → schema_ok known ≡ true → All (GroupOf IsTitle (IsPlain beyond_ascii)) known
  schema_sound [] h = tt
  schema_sound ((s, items) ∷ known) h = (
    (IsTitle-sound s (ground arith), plain_sound items (ground arith)),
    schema_sound known (ground arith),
  )

  pub file_known_keys-Plain : All (GroupOf IsTitle (IsPlain beyond_ascii)) file_known_keys
  unfolding file_known_keys section_models is_secret lit section_of group lstrip strip is_space
      is_break text_eq toml_literal escape is_word starts_key
  file_known_keys-Plain = schema_sound file_known_keys refl
