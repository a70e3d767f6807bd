-- ===== src/Tools/Tests.antt =====
-- Runs and instances of the theorems on the tools, on a host with one configuration file, whose
-- text is the world.
use mcp_postgres.Prelude.{
  arith, String, ◌||◌, ◌==◌, if◌then◌else◌, ℕ, ◌≡◌, refl, Bool, true, false, ◌&&◌, Option, none,
  some, [], ◌∷◌, leb,
}
use mcp_postgres.PyText.{Text, lit, is_space, is_break, text_eq}
use mcp_postgres.PyText.Lines.{IsLine, is_line_sound}
use mcp_postgres.Effect.{returned, raised}
use mcp_postgres.Confedit.{set_conf_value, format_value, after_last_slash}
use mcp_postgres.Confedit.Match.{IsName}
use mcp_postgres.Capabilities.{Host, Session, os_tier, db_info, probe_db}
use mcp_postgres.Capabilities.Advertised.{needs_config, handlers}
use mcp_postgres.Capabilities.Guard.{guard, detect_changes}
use mcp_postgres.Db
use mcp_postgres.Db.{Server}
use mcp_postgres.Priv.{basename, is_allowed_name}
use mcp_postgres.Priv.Client
use mcp_postgres.Priv.Client.{Subprocess, Spawned, finished, value}
use mcp_postgres.Tools.Base.{Service}
use mcp_postgres.Tools.Rows.{
  Value, text, cell, get, put, row_as_dict, or_else, cell_of, last_value, row_as_dict_lem,
}
use mcp_postgres.Tools.Query.{execute_batch, serve}
use mcp_postgres.Tools.Query.Guarded.{After, advertised_as, serve-After}
use Prim.Native.Char.{Char, code}
use mcp_postgres.Tools.Observability.{escape, with_percent, like_prefix}
use mcp_postgres.Tools.Observability.Prefix.{is_special, then_rest, IsLike, begins, like_prefix_lem}
use mcp_postgres.Tools.ConfigFiles.{setting_query, update_postgresql_setting, path_of}
use mcp_postgres.Tools.ConfigFiles.Setting.{Reports, update_postgresql_setting_again}

abbrev host : Host Text
host = record {
  monotonic = λ w. (0, w);
  check = λ w. (returned true, w);
  role_row = λ w. (raised "closed", w);
  can_create = λ w. (raised "closed", w);
  current_setting = λ name w. (raised "closed", w);
}

abbrev located : Host Text
located = record host {
  role_row = λ w. (returned none, w);
  can_create = λ w. (returned false, w);
  current_setting = λ name w. (returned (some "/pg/postgresql.conf"), w);
}

abbrev server : Server Text Value
server = record {
  checkout = λ w. (raised "closed", w);
  putback = λ failed w. w;
  exec = λ stmt params w. (raised "closed", w);
}

-- a helper that reads and writes the one file
abbrev on_input : Option Text → Text → Spawned × Text
on_input none w = (finished (record { returncode = 0; stdout = w; stderr = [] }), w)
on_input (some content) w =
    (finished (record { returncode = 0; stdout = []; stderr = [] }), content)

abbrev service : Service Text Value
service = record {
  host = located;
  server = server;
  run = λ args input w. on_input input w;
  helper = lit "/privhelper";
  exit_text = λ n. lit "exit";
  dbname = "postgres";
}

abbrev ascii_digit : ℕ → Bool
ascii_digit c = leb b'0' c && leb c b'9'

abbrev session : Text → Session Text
session w = record {
  manager = record {
    cache_ttl = 5;
    os_cache = none;
    db_cache = none;
    last_os = none;
    last_db = none;
  };
  world = w;
}

-- What the runs below compute with.
evaluate : Unit {0}
unfolding guard detect_changes os_tier db_info probe_db path_of Client.read Client.run_helper
    basename is_allowed_name text_eq lit after_last_slash serve row_as_dict put get
evaluate = tt

abbrev edited : Text
edited = (set_conf_value ascii_digit [] (lit "port") (lit "5433")).content

port-IsName : IsName (lit "port")
unfolding lit is_space is_break
port-IsName = (refl, refl, ((refl, refl), ((refl, refl), ((refl, refl), ((refl, refl), tt)))))

port-IsLine : IsLine (lit "5433")
unfolding lit is_break
port-IsLine = is_line_sound (lit "5433") refl

update_postgresql_setting_again_example :
    let s1 = (guard located needs_config (session edited)).1 in
    let (info, s2) = db_info located false s1 in
    let (a, s') =
      update_postgresql_setting service ascii_digit "port" "5433" (lit "auto") (session edited) in
    (s'.manager ≡ s2.manager)
    × (s'.world ≡ (Db.query_one server setting_query (Db.value (text "port") ∷ []) edited).1)
    × Reports
        (λ r.
          (r.changed ≡ false)
          × (r.reloaded ≡ false)
          × (r.old_value ≡ some (format_value ascii_digit (lit "5433"))))
        a
unfolding evaluate
update_postgresql_setting_again_example =
    update_postgresql_setting_again service ascii_digit "port" "5433" (lit "auto") []
      (lit "/pg/postgresql.conf") (session edited) (guard located needs_config (session edited)).1
      (db_info located false (guard located needs_config (session edited)).1).1 []
      (db_info located false (guard located needs_config (session edited)).1).0 edited port-IsName
      port-IsLine refl refl refl refl

-- the same with a database that answers, but knows no setting
abbrev answering : Service Text Value
answering = record service {
  server = record {
    checkout = λ w. (returned tt, w);
    putback = λ failed w. w;
    exec = λ stmt params w. (
      returned (record {
        rowcount = none;
        status = "SELECT";
        description = some ("context" ∷ []);
        rows = [];
      }),
      w,
    );
  };
}

serve-After_example :
    let r = execute_batch ("drop table t" ∷ []) true in
    let (v, s') = guard located (advertised_as "execute_batch" handlers) (session []) in
    After service v s' (serve service r (session []))
serve-After_example = serve-After service (execute_batch ("drop table t" ∷ []) true) (session [])

row_as_dict_lem_example :
    get "id" (row_as_dict ("id" ∷ "id" ∷ []) (text "a" ∷ text "b" ∷ []) [])
    ≡ or_else
        (cell_of (last_value "id" ("id" ∷ "id" ∷ []) (text "a" ∷ text "b" ∷ [])))
        (get "id" [])
row_as_dict_lem_example = row_as_dict_lem "id" ("id" ∷ "id" ∷ []) (text "a" ∷ text "b" ∷ []) []

join_run : row_as_dict ("id" ∷ "id" ∷ []) (text "a" ∷ text "b" ∷ []) [] ≡ ("id", text "b") ∷ []
unfolding evaluate cell
join_run = refl

-- LIKE as PostgreSQL documents it, but for the error of a backslash at the end
abbrev is_empty : String → Bool
is_empty String.[] = true
is_empty (String.◌∷◌ d t) = false

abbrev any_char : (String → Bool) → String → Bool
any_char rest String.[] = false
any_char rest (String.◌∷◌ d t) = rest t

unfoldable after_percent : (String → Bool) → String → Bool
after_percent rest String.[] = rest ""
after_percent rest (String.◌∷◌ d t) = rest (String.◌∷◌ d t) || after_percent rest t

abbrev one_char : Char → (String → Bool) → String → Bool
one_char c rest t = if code c == b'_' then any_char rest t else then_rest c rest t

unfoldable like : String → String → Bool
unfolding after_percent
like String.[] t = is_empty t
like (String.◌∷◌ c String.[]) t = if code c == b'%' then true else one_char c is_empty t
like (String.◌∷◌ c (String.◌∷◌ d p)) t =
    let whole = like (String.◌∷◌ d p) in
    let rest = like p in
    if code c == 92
    then then_rest d rest t
    else if code c == b'%'
    then after_percent whole t
    else one_char c whole t

like-plain :
    (c : Char) (p t : String)
    → is_special (code c) ≡ false
    → like (String.◌∷◌ c p) t ≡ then_rest c (like p) t
unfolding like
like-plain c String.[] t h = ground arith
like-plain c (String.◌∷◌ d p) t h = ground arith

like-IsLike : IsLike like
unfolding like
like-IsLike = record { escaped = λ c p t. refl; plain = like-plain; percent = λ t. refl }

like_prefix_lem_example : like (like_prefix "log_") "logging" ≡ begins "log_" "logging"
like_prefix_lem_example = like_prefix_lem like like-IsLike "log_" "logging"

pattern_run : like_prefix "a_b%" ≡ "a\\_b\\%%"
unfolding like_prefix escape with_percent
pattern_run = refl
