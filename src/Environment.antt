-- ===== src/Environment.antt =====
-- environment.py: the host and the cluster that the service is bound to.
--
-- The platform is a parameter: what `platform` says of the host. A part of the report that fails is
-- an `Answer` that raised, which stands for the source's `{"error": …}`.
pub mod Settled
mod Tests
use mcp_postgres.Prelude.{
  ℕ, ◌/◌, Bool, true, false, not, Option, none, some, String, str_eq, List, [], ◌∷◌, map, keep,
  is_nil, ◌==◌, if◌then◌else◌,
}
use mcp_postgres.PyText.{Text, lit}
use mcp_postgres.PyText.Strip.{strip}
use mcp_postgres.Effect.{Answer, returned, raised, Call, ◌>>=◌, ret, raise, attempt}
use mcp_postgres.Db
use mcp_postgres.Db.{Statement, verbatim, Server}
use mcp_postgres.Tools.Base.{ℤ, pos, negsuc}
use mcp_postgres.Tools.Rows.{
  Value, Values, Fields, null, bool, int, float, text, opaque, sequence, tuple, dict, nil, cons,
  end, field, Dict, get,
}
use mcp_postgres.Tools.ConfigFiles.{zip_dict}
use mcp_postgres.Tools.Observability.{truthy}

-- `platform.freedesktop_os_release()`: its dictionary, an OSError, or another exception
pub data OsRelease : Type 0 where
  release : List (String × String) → OsRelease
  os_error : OsRelease
  broken : String → OsRelease

pub record Platform (W : Type 0) : Type 0 where
  pub system : W → String × W
  pub release : W → String × W
  pub machine : W → String × W
  pub freedesktop_os_release : W → OsRelease × W

pub record OsInfo : Type 0 where
  pub family : Option String
  pub name : Option String
  pub version : Option String
  pub pretty_name : Option String
  pub kernel : Option String
  pub arch : Option String

pub record VersionInfo : Type 0 where
  pub version_string : Value
  pub server_version : Value
  pub version_num : Value
  pub major : Option ℤ

pub record Extensions : Type 0 where
  pub activated : List (Value × Value)
  pub available : List (Value × Value)
  pub preloaded_libraries : List Text

pub record Postgres : Type 0 where
  pub version : VersionInfo
  pub extensions : Answer Extensions

pub record Environment : Type 0 where
  pub os : Answer OsInfo
  pub postgresql : Answer Postgres

-- The world, and the two caches of the module.
pub record Process (W : Type 0) : Type 0 where
  pub os_cache : Option OsInfo
  pub version_cache : Option VersionInfo
  pub world : W

-- `s or None`
abbrev pub or_none : String → Option String
or_none s = if str_eq s "" then none else some s

-- `a or b`
abbrev pub or_other : Option String → Option String → Option String
or_other none b = b
or_other (some a) b = if str_eq a "" then b else some a

unfoldable pub look : String → List (String × String) → Option String
look k [] = none
look k ((j, v) ∷ d) = if str_eq j k then some v else look k d

unfoldable pub with_release : OsInfo → List (String × String) → OsInfo
unfolding look
with_release info rel = record info {
  family = or_other (look "ID" rel) info.family;
  name = look "NAME" rel;
  version = or_other (look "VERSION_ID" rel) (look "VERSION" rel);
  pretty_name = look "PRETTY_NAME" rel;
}

abbrev pub version_stmt : Statement
version_stmt =
    verbatim "SELECT version() AS version_string, "
    ∷ verbatim "current_setting('server_version') AS server_version, "
    ∷ verbatim "current_setting('server_version_num')::int AS version_num"
    ∷ []

abbrev pub extensions_stmt : Statement
extensions_stmt =
    verbatim "SELECT name, default_version, installed_version "
    ∷ verbatim "FROM pg_available_extensions ORDER BY name"
    ∷ []

abbrev pub preload_stmt : Statement
preload_stmt = verbatim "SELECT current_setting('shared_preload_libraries')" ∷ []

-- `row.get(k)`
abbrev pub or_null : Option Value → Value
or_null none = null
or_null (some v) = v

-- `num // 10000 if isinstance(num, int) else None`; a Boolean is an `int`.
abbrev pub major_of : Value → Option ℤ
major_of (int (pos n)) = some (pos (n / 10000))
major_of (int (negsuc n)) = some (negsuc (n / 10000))
major_of (bool b) = some (pos 0)
major_of v = none

abbrev pub row_dict : Option (List String × List Value) → Dict
row_dict none = []
row_dict (some (cols, row)) = zip_dict cols row []

unfoldable pub version_of : Dict → VersionInfo
unfolding get
version_of row = record {
  version_string = or_null (get "version_string" row);
  server_version = or_null (get "server_version" row);
  version_num = or_null (get "version_num" row);
  major = major_of (or_null (get "version_num" row));
}

abbrev pub add_row : List Value → Extensions → Answer Extensions
add_row (name ∷ default_version ∷ null ∷ []) x =
    returned (record x { available = (name, default_version) ∷ x.available })
add_row (name ∷ default_version ∷ installed_version ∷ []) x =
    returned (record x { activated = (name, installed_version) ∷ x.activated })
add_row row x = raised "unpack"

abbrev pub then_row : List Value → Answer Extensions → Answer Extensions
then_row row (raised e) = raised e
then_row row (returned x) = add_row row x

-- The two lists in the order of the rows; any row of another length raises.
unfoldable pub sort_rows : List (List Value) → Answer Extensions
sort_rows [] = returned (record { activated = []; available = []; preloaded_libraries = [] })
sort_rows (row ∷ rows) = then_row row (sort_rows rows)

abbrev pub onto_first : ℕ → List Text → List Text
onto_first c [] = (c ∷ []) ∷ []
onto_first c (t ∷ ts) = (c ∷ t) ∷ ts

-- `s.split(c)`
unfoldable pub split_on : ℕ → Text → List Text
split_on c [] = [] ∷ []
split_on c (d ∷ s) = let rest = split_on c s in if d == c then [] ∷ rest else onto_first d rest

unfoldable pub libraries : Text → List Text
unfolding strip split_on
libraries raw = keep (λ t. not (is_nil t)) (map strip (split_on b',' raw))

-- `(v or "").split(",")`, which only a text has
abbrev pub split_value : {W : Type 0} → Value → Call W (List Text)
split_value (text s) = ret (libraries (lit s))
split_value v = raise "no attribute 'split'"

abbrev pub preloaded : {W : Type 0} → Option Value → Call W (List Text)
preloaded none = ret []
preloaded (some v) = if truthy v then split_value v else ret []

abbrev pub answer_as : {W A : Type 0} → Answer A → Call W A
answer_as a w = (a, w)

module _ {W : Type 0} (server : Server W Value) where
  unfoldable pub extensions : Call W Extensions
  unfolding sort_rows
  extensions = do
    (cols, rows) ← Db.select server extensions_stmt []
    x ← answer_as (sort_rows rows)
    raw ← Db.query_scalar server preload_stmt []
    libs ← preloaded raw
    ret (record x { preloaded_libraries = libs })

  abbrev pub keep_version :
      Process W → Answer (Option (List String × List Value)) × W → Answer VersionInfo × Process W
  keep_version p (raised e, w) = (raised e, record p { world = w })
  keep_version p (returned row, w) =
      let info = version_of (row_dict row) in
      (returned info, record p { version_cache = some info; world = w })

  abbrev pub version_by : Option VersionInfo → Process W → Answer VersionInfo × Process W
  version_by (some info) p = (returned info, p)
  version_by none p = keep_version p (Db.query_one server version_stmt [] p.world)

  unfoldable pub server_version : Call (Process W) VersionInfo
  server_version p = version_by p.version_cache p

  abbrev pub with_extensions : Answer VersionInfo × Process W → Answer Postgres × Process W
  with_extensions (raised e, p) = (raised e, p)
  with_extensions (returned v, p) =
      let (x, w) = extensions p.world in
      (returned (record { version = v; extensions = x }), record p { world = w })

  unfoldable pub postgres : Call (Process W) Postgres
  unfolding server_version
  postgres p = with_extensions (server_version p)

module _ {W : Type 0} (platform : Platform W) where
  abbrev pub keep_os : OsInfo → OsRelease → Process W → Answer OsInfo × Process W
  keep_os info (release rel) p =
      let info' = with_release info rel in (returned info', record p { os_cache = some info' })
  keep_os info os_error p = (returned info, record p { os_cache = some info })
  keep_os info (broken e) p = (raised e, p)

  abbrev pub fallback : String → String → String → OsInfo
  fallback system kernel machine = record {
    family = or_none system;
    name = none;
    version = none;
    pretty_name = none;
    kernel = or_none kernel;
    arch = or_none machine;
  }

  abbrev pub os_by : Option OsInfo → Process W → Answer OsInfo × Process W
  os_by (some info) p = (returned info, p)
  os_by none p =
      let (system, w1) = platform.system p.world in
      let (kernel, w2) = platform.release w1 in
      let (machine, w3) = platform.machine w2 in
      let (rel, w4) = platform.freedesktop_os_release w3 in
      keep_os (fallback system kernel machine) rel (record p { world = w4 })

  unfoldable pub host_os : Call (Process W) OsInfo
  host_os p = os_by p.os_cache p

  unfoldable pub probe : Server W Value → Process W → Environment × Process W
  unfolding host_os postgres
  probe server p =
      let (os, p1) = host_os p in
      let (pg, p2) = postgres server p1 in (record { os = os; postgresql = pg }, p2)

  -- reports one after another, each for the database that is current then
  abbrev pub probes : List (Server W Value) → Process W → List Environment
  probes [] p = []
  probes (server ∷ servers) p = let (r, p') = probe server p in r ∷ probes servers p'
