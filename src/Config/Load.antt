-- ===== src/Config/Load.antt =====
-- config.py: `check_config` and `load_config`, over the files of the configuration directory.
--
-- What the operating system answers is an argument: the text of a file, or none where it is absent
-- or may not be read; other exceptions are left out. The values of a parsed file are of any type,
-- and the level of the log is kept as it is given.
use mcp_postgres.Prelude.{ℕ, Bool, Option, none, some, List, [], ◌∷◌, is_nil, if◌then◌else◌}
use mcp_postgres.PyText.{Text, lit, text_eq}
use mcp_postgres.PyText.Strip.{strip}
use mcp_postgres.Config.{
  Default, section_models, ConfigReport, empty_report, diff_config, Document, look_up, table_of,
}

-- a value of the configuration: the default of its field, what the file gives, or what a secret is
pub data Value (V : Type 0) : Type 0 where
  default : Default → Value V
  given : V → Value V
  secret : Text → Value V

-- `cls(**_only_known(cls, data))`: each field with what the file gives for it
abbrev pub value_for : {V : Type 0} → Option V → Default → Value V
value_for none d = default d
value_for (some v) d = given v

unfoldable pub fields_from :
    {V : Type 0} → List (Text × Default) → List (Text × V) → List (Text × Value V)
unfolding look_up
fields_from [] vs = []
fields_from ((f, d) ∷ fs) vs = (f, value_for (look_up f vs) d) ∷ fields_from fs vs

abbrev pub known_fields : Text → List (Text × Default)
known_fields section = table_of (some (look_up section section_models))

-- `_read_secret(path) or os.environ.get(name, "")`
unfoldable pub secret_or_env : Option Text → Option Text → Text
unfolding strip
secret_or_env none none = []
secret_or_env none (some e) = e
secret_or_env (some content) env =
    let stripped = strip content in
    if is_nil stripped then elim env [ none ↦ [] | some e ↦ e ] else stripped

pub record Files : Type 0 where
  pub config : Option Text
  pub secret : Option Text
  pub token : Option Text

pub record Environ : Type 0 where
  pub db_password : Option Text
  pub token : Option Text

pub record Config (V : Type 0) : Type 0 where
  pub server : List (Text × Value V)
  pub database : List (Text × Value V)
  pub oauth : List (Text × Value V)
  pub logging : List (Text × Value V)
  pub token : Text

-- `database.password = password`
unfoldable pub set_field :
    {V : Type 0} → Text → Value V → List (Text × Value V) → List (Text × Value V)
unfolding text_eq
set_field k v [] = []
set_field k v ((j, u) ∷ fs) =
    let rest = set_field k v fs in if text_eq j k then (j, v) ∷ fs else (j, u) ∷ rest

abbrev pub with_password : {V : Type 0} → Text → List (Text × Value V) → List (Text × Value V)
with_password password fs =
    if is_nil password then fs else set_field (lit "password") (secret password) fs

module _ {V : Type 0} (loads : Text → Option (Document V)) (beyond_ascii : ℕ → Bool) where
  -- an absent or unreadable file gives the empty report
  unfoldable pub check_config : Files → ConfigReport
  check_config files = elim files.config [
    | none ↦ empty_report
    | some content ↦ diff_config loads beyond_ascii content
  ]

  -- `data.get(section, {})`, which has to be a table
  abbrev pub section_data : Option (Option (List (Text × V))) → Option (List (Text × V))
  section_data none = some []
  section_data (some o) = o

  abbrev pub section_fields : Text → Document V → Option (List (Text × Value V))
  section_fields section d = elim (section_data (look_up section d)) [
    | none ↦ none
    | some vs ↦ some (fields_from (known_fields section) vs)
  ]

  abbrev pub assemble :
      Files
      → Environ
      → Option (List (Text × Value V))
      → Option (List (Text × Value V))
      → Option (List (Text × Value V))
      → Option (List (Text × Value V))
      → Option (Config V)
  assemble files env none database logging oauth = none
  assemble files env (some server) none logging oauth = none
  assemble files env (some server) (some database) none oauth = none
  assemble files env (some server) (some database) (some logging) none = none
  assemble files env (some server) (some database) (some logging) (some oauth) = some (record {
    server = server;
    database = with_password (secret_or_env files.secret env.db_password) database;
    oauth = oauth;
    logging = logging;
    token = secret_or_env files.token env.token;
  })

  abbrev pub config_from : Files → Environ → Document V → Option (Config V)
  config_from files env d =
      assemble files env (section_fields (lit "server") d) (section_fields (lit "database") d)
        (section_fields (lit "logging") d) (section_fields (lit "oauth") d)

  -- the parsed file, no table where it is absent
  abbrev pub parsed_file : Option Text → Option (Document V)
  parsed_file none = some []
  parsed_file (some content) = loads content

  -- `none` where the source raises: the file does not parse, or a section is no table.
  unfoldable pub load_config : Files → Environ → Option (Config V)
  unfolding fields_from secret_or_env set_field lit look_up section_models text_eq
  load_config files env = elim (parsed_file files.config) [
    | none ↦ none
    | some d ↦ config_from files env d
  ]
