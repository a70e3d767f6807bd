-- ===== src/Config.antt =====
-- config.py: the schema of config.toml, and how a file differs from it.
--
-- The TOML parser is a parameter: `loads` gives the tables of a text, or nothing where it raises
-- TOMLDecodeError. A character beyond ASCII belongs to a word as a parameter says.
pub mod Load
use mcp_postgres.Prelude.{
  ℕ, Bool, true, false, not, ◌&&◌, ◌||◌, Option, none, some, List, [], ◌∷◌, ◌++◌, map, is_nil, leb,
  ◌==◌, if◌then◌else◌, any_of, keep,
}
use mcp_postgres.PyText.{Text, lit, text_eq, is_space}
use mcp_postgres.PyText.Lines.{split_lines}
use mcp_postgres.PyText.Strip.{lstrip, strip}

-- The default of a setting; of a number, the text that `str` gives.
pub data Default : Type 0 where
  boolean : Bool → Default
  number : Text → Default
  word : Text → Default

-- a section of the file with its keys and their defaults
abbrev pub Schema : Type 0
Schema = List (Text × List (Text × Default))

-- `SECTION_MODELS`: the fields of the four dataclasses
unfoldable pub section_models : Schema
unfolding lit
section_models =
    (
      lit "server",
      (lit "bind", word (lit "127.0.0.1"))
          ∷ (lit "port", number (lit "41780"))
          ∷ (lit "path", word (lit "/mcp"))
          ∷ [],
    )
    ∷ (
      lit "database",
      (lit "host", word (lit "127.0.0.1"))
          ∷ (lit "port", number (lit "5432"))
          ∷ (lit "user", word (lit "mcp"))
          ∷ (lit "dbname", word (lit "postgres"))
          ∷ (lit "password", word [])
          ∷ [],
    )
    ∷ (lit "logging", (lit "level", word (lit "INFO")) ∷ [])
    ∷ (
      lit "oauth",
      (lit "enabled", boolean false)
          ∷ (lit "public_url", word [])
          ∷ (lit "access_token_ttl", number (lit "3600"))
          ∷ (lit "refresh_token_ttl", number (lit "2592000"))
          ∷ (lit "state_dir", word (lit "/var/lib/mcp-postgres"))
          ∷ [],
    )
    ∷ []

-- `(section, key) in SECRET_KEYS`
unfoldable pub is_secret : Text → Text → Bool
unfolding text_eq lit
is_secret section key = text_eq section (lit "database") && text_eq key (lit "password")

-- `DEPRECATED_KEYS`, each with its reason
abbrev pub deprecated_keys : List (Text × (Text × Text))
deprecated_keys = []

unfoldable pub reason_of : List (Text × (Text × Text)) → Text → Text → Option Text
unfolding text_eq
reason_of [] section key = none
reason_of ((s, (k, reason)) ∷ ds) section key =
    let rest = reason_of ds section key in
    if text_eq s section && text_eq k key then some reason else rest

abbrev pub public_keys : Text → List (Text × Default) → List (Text × Default)
public_keys section = keep (λ f. not (is_secret section f.0))

unfoldable pub file_known_keys : Schema
unfolding section_models is_secret
file_known_keys = map (λ m. (m.0, public_keys m.0 m.1)) section_models

pub record ConfigReport : Type 0 where
  pub missing : List (Text × (Text × Default))
  pub deprecated_present : List (Text × (Text × Text))
  pub unknown_keys : List (Text × Text)
  pub unknown_sections : List Text

abbrev pub empty_report : ConfigReport
empty_report = record {
  missing = [];
  deprecated_present = [];
  unknown_keys = [];
  unknown_sections = [];
}

-- what stands before the first closing bracket, and behind it
abbrev grouped : ℕ → Option (Text × Text) → Option (Text × Text)
grouped c none = none
grouped c (some (name, rest)) = some (c ∷ name, rest)

unfoldable pub group : Text → Option (Text × Text)
group [] = none
group (c ∷ cs) = let rest = group cs in if c == b']' then some ([], cs) else grouped c rest

abbrev named : Option (Text × Text) → Option Text
named none = none
named (some (name, rest)) =
    if not (is_nil name) && is_nil (strip rest) then some (strip name) else none

abbrev opened : Text → Option Text
opened [] = none
opened (c ∷ cs) = if c == b'[' then named (group cs) else none

-- The name of the section that a line opens: `_SECTION_RE` with its group stripped. The runs of the
-- pattern end at characters that they do not match, so that the matcher never goes back.
unfoldable pub section_of : Text → Option Text
unfolding group lstrip strip
section_of line = opened (lstrip line)

abbrev pub section_after : Option Text → Option Text → Option Text
section_after cur none = cur
section_after cur (some name) = some name

-- `\w` of a pattern
unfoldable pub is_word : (ℕ → Bool) → ℕ → Bool
is_word beyond_ascii c =
    (leb b'a' c && leb c b'z')
    || (leb b'A' c && leb c b'Z')
    || (leb b'0' c && leb c b'9')
    || c == b'_'
    || (leb 128 c && beyond_ascii c)

unfoldable pub starts_key : ℕ → Bool
starts_key c = (leb b'a' c && leb c b'z') || (leb b'A' c && leb c b'Z') || c == b'_'

module _ (beyond_ascii : ℕ → Bool) where
  abbrev pub continues_key : ℕ → Bool
  continues_key c = is_word beyond_ascii c || c == b'-'

  -- `[\w-]*`, and the text behind it
  abbrev pub run_on : ℕ → Text × Text → Text × Text
  run_on c (name, rest) = (c ∷ name, rest)

  unfoldable pub key_run : Text → Text × Text
  unfolding is_word
  key_run [] = ([], [])
  key_run (c ∷ cs) =
      let more = key_run cs in if continues_key c then run_on c more else ([], c ∷ cs)

  abbrev pub before_equals : ℕ → Text → Text → Option Text
  before_equals c name [] = none
  before_equals c name (e ∷ rest) = if e == b'=' then some (c ∷ name) else none

  abbrev pub key_at : Text → Option Text
  key_at [] = none
  key_at (c ∷ cs) =
      let (name, rest) = key_run cs in
      if starts_key c then before_equals c name (lstrip rest) else none

  abbrev pub after_mark : Text → Option Text
  after_mark [] = none
  after_mark (c ∷ cs) = if c == b'#' then key_at (lstrip cs) else none

  -- The key that a line mentions as a comment: the group of `_COMMENTED_KEY_RE`, whose runs end at
  -- characters that they do not match, so that the matcher never goes back.
  unfoldable pub commented_key : Text → Option Text
  unfolding key_run starts_key lstrip
  commented_key line = after_mark (lstrip line)

  -- `result.setdefault(section, set()).add(key)`; a set is the list of what was added.
  unfoldable pub add_mention : Text → Text → List (Text × List Text) → List (Text × List Text)
  unfolding text_eq
  add_mention section key [] = (section, key ∷ []) ∷ []
  add_mention section key ((s, ks) ∷ d) =
      let rest = add_mention section key d in
      if text_eq s section then (s, key ∷ ks) ∷ d else (s, ks) ∷ rest

  abbrev pub noted : Option Text → Option Text → List (Text × List Text) → List (Text × List Text)
  noted none key d = d
  noted (some section) none d = d
  noted (some section) (some key) d = add_mention section key d

  abbrev pub noted_unless_header :
      Option Text → Option Text → Text → List (Text × List Text) → List (Text × List Text)
  noted_unless_header (some name) cur line d = d
  noted_unless_header none cur line d = noted cur (commented_key line) d

  unfoldable pub scan_mentions :
      Option Text → List Text → List (Text × List Text) → List (Text × List Text)
  unfolding add_mention commented_key section_of
  scan_mentions cur [] d = d
  scan_mentions cur (line ∷ lines) d =
      let found = section_of line in
      scan_mentions (section_after cur found) lines (noted_unless_header found cur line d)

  unfoldable pub commented_keys : Text → List (Text × List Text)
  unfolding scan_mentions split_lines
  commented_keys old = scan_mentions none (split_lines old) []

-- a parsed file: the tables with their keys, and `none` for a top-level value that is no table
abbrev pub Document : Type 0 → Type 0
Document V = List (Text × Option (List (Text × V)))

unfoldable pub look_up {ℓ} : {A : Type ℓ} → Text → List (Text × A) → Option A
unfolding text_eq
look_up k [] = none
look_up k ((j, a) ∷ d) = let rest = look_up k d in if text_eq j k then some a else rest

-- `active if isinstance(active, dict) else {}`
abbrev pub table_of {ℓ} : {A : Type ℓ} → Option (Option (List A)) → List A
table_of none = []
table_of (some none) = []
table_of (some (some t)) = t

abbrev pub has_key {ℓ} : {A : Type ℓ} → Text → List (Text × A) → Bool
has_key k t = any_of (λ e. text_eq e.0 k) t

abbrev pub set_of : Option (List Text) → List Text
set_of none = []
set_of (some ks) = ks

abbrev pub in_set : Text → List Text → Bool
in_set k ks = any_of (λ j. text_eq j k) ks

module _ {V : Type 0} (loads : Text → Option (Document V)) (beyond_ascii : ℕ → Bool) where
  -- `key in data.get(section)`
  abbrev pub is_set : Document V → Text → Text → Bool
  is_set d section key = has_key key (table_of (look_up section d))

  abbrev pub is_mentioned : List (Text × List Text) → Text → Text → Bool
  is_mentioned commented section key = in_set key (set_of (look_up section commented))

  abbrev pub is_missing : Document V → List (Text × List Text) → Text → Text → Bool
  is_missing d commented section key =
      not (is_set d section key) && not (is_mentioned commented section key)

  abbrev pub missing_keys :
      Document V
      → List (Text × List Text)
      → Text
      → List (Text × Default)
      → List (Text × (Text × Default))
  missing_keys d commented section keys =
      map (λ f. (section, f)) (keep (λ f. is_missing d commented section f.0) keys)

  unfoldable pub missing_of :
      Document V → List (Text × List Text) → Schema → List (Text × (Text × Default))
  unfolding look_up text_eq
  missing_of d commented [] = []
  missing_of d commented ((section, keys) ∷ known) =
      missing_keys d commented section keys ++ missing_of d commented known

  -- one active key of a known section
  abbrev pub classified : Option Text → Bool → Text → Text → ConfigReport → ConfigReport
  classified (some reason) fine section key r = record r {
    deprecated_present = r.deprecated_present ++ (section, (key, reason)) ∷ [];
  }
  classified none fine section key r =
      if fine then r else record r { unknown_keys = r.unknown_keys ++ (section, key) ∷ [] }

  unfoldable pub classify_keys :
      Text → List (Text × Default) → List (Text × V) → ConfigReport → ConfigReport
  unfolding reason_of is_secret
  classify_keys section keys [] r = r
  classify_keys section keys ((key, v) ∷ vs) r = classify_keys section keys vs (
      classified (reason_of deprecated_keys section key) (has_key key keys || is_secret section key)
        section key r)

  abbrev pub classify_table :
      Text → Option (List (Text × Default)) → List (Text × V) → ConfigReport → ConfigReport
  classify_table section none vs r = record r {
    unknown_sections = r.unknown_sections ++ section ∷ [];
  }
  classify_table section (some keys) vs r = classify_keys section keys vs r

  abbrev pub classify_entry : Schema → Text × Option (List (Text × V)) → ConfigReport → ConfigReport
  classify_entry known (section, none) r = r
  classify_entry known (section, some vs) r = classify_table section (look_up section known) vs r

  unfoldable pub classify : Schema → Document V → ConfigReport → ConfigReport
  unfolding classify_keys look_up
  classify known [] r = r
  classify known (entry ∷ d) r = classify known d (classify_entry known entry r)

  abbrev pub diff_parsed : Option (Document V) → Text → ConfigReport
  diff_parsed none old = empty_report
  diff_parsed (some d) old = classify file_known_keys d (record empty_report {
    missing = missing_of d (commented_keys beyond_ascii old) file_known_keys;
  })

  unfoldable pub diff_config : Text → ConfigReport
  unfolding classify missing_of file_known_keys commented_keys
  diff_config old = diff_parsed (loads old) old

-- `ConfigReport.any`
unfoldable pub any_drift : ConfigReport → Bool
any_drift r =
    not (is_nil r.missing)
    || not (is_nil r.deprecated_present)
    || not (is_nil r.unknown_keys)
    || not (is_nil r.unknown_sections)

pub data Advice : Type 0 where
  not_set : (section key : Text) → Default → Advice
  deprecated : (section key reason : Text) → Advice
  unknown_key : (section key : Text) → Advice
  unknown_section : (section : Text) → Advice

-- `ConfigReport.messages`, each line by what it is about
unfoldable pub messages : ConfigReport → List Advice
messages r =
    map (λ m. not_set m.0 m.1.0 m.1.1) r.missing
    ++ (map (λ d. deprecated d.0 d.1.0 d.1.1) r.deprecated_present
        ++ (map (λ u. unknown_key u.0 u.1) r.unknown_keys
            ++ map unknown_section r.unknown_sections))
