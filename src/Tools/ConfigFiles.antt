-- ===== src/Tools/ConfigFiles.antt =====
-- tools/config_files.py: the handlers that read and edit postgresql.conf and pg_hba.conf through the
-- helper; the children Hba and Reload have the handlers of pg_hba.conf rules and of a reload.
pub mod Setting
pub mod Hba
pub mod Reload
pub mod SettingReport
use mcp_postgres.Prelude.{
  ℕ, Bool, true, false, not, ◌&&◌, ◌||◌, Option, none, some, String, str_eq, List, [], ◌∷◌, ◌++◌,
  map, any_of, ltb, leb, ◌==◌, if◌then◌else◌,
}
use mcp_postgres.PyText.{Text, lit, lower_code, text_eq}
use mcp_postgres.Effect.{Answer, returned, raised}
use mcp_postgres.Confedit.{
  Action, SetConfResult, set_conf_value, append_hba_rule, is_shadowed_source,
}
use mcp_postgres.Capabilities.{DbInfo, Session, db_info, os_tier, db_level, os_level}
use mcp_postgres.Capabilities.Advertised.{needs_config}
use mcp_postgres.Capabilities.Guard.{Notice, Verdict, allowed, refused, Requirement, guard}
use mcp_postgres.Db
use mcp_postgres.Db.{Param, plain_text}
use mcp_postgres.Priv.Client
use mcp_postgres.Priv.Client.{Outcome, value, priv_error, crashed}
use mcp_postgres.Tools.Base.{
  Service, Problem, no_path, helper_error, other, Report, not_allowed, failed, done, Stamped, Tool,
  attach, guard_or_error, on_world,
}
use mcp_postgres.Tools.Rows.{Value, null, text, Dict, get, put}

-- `str(reload).lower() in ("auto", "true", "1", "yes")`
unfoldable pub wants_reload : Text → Bool
unfolding text_eq lower_code lit
wants_reload reload =
    any_of (text_eq (map lower_code reload)) (lit "auto" ∷ lit "true" ∷ lit "1" ∷ lit "yes" ∷ [])

-- the path that the probe found, unless it is missing or empty
unfoldable pub path_of : Option String → Option Text
unfolding lit
path_of none = none
path_of (some p) = if str_eq p "" then none else some (lit p)

-- `dict(zip(cols, row))`
unfoldable pub zip_dict : List String → List Value → Dict → Dict
unfolding put
zip_dict [] row d = d
zip_dict (c ∷ cs) [] d = d
zip_dict (c ∷ cs) (v ∷ vs) d = zip_dict cs vs (put c v d)

abbrev pub is_postmaster : Value → Bool
is_postmaster (text s) = str_eq s "postmaster"
is_postmaster _ = false

-- the column `sourcefile`, which is text or null
abbrev pub source_of : Option Value → Option Text
source_of (some (text s)) = some (lit s)
source_of _ = none

pub data Note : Type 0 where
  duplicates_note shadowed_note restart_note : Note

pub record SettingResult : Type 0 where
  pub path : Text
  pub setting : String
  pub changed : Bool
  pub action : Action
  pub active_occurrences : ℕ
  pub old_value : Option Text
  pub new_value : String
  pub setting_context : Value
  pub restart_required : Bool
  pub reloaded : Bool
  pub reload_error : Option Problem
  pub duplicates_disabled : ℕ
  pub effective_source_file : Option Text
  pub notes : List Note

pub record FileResult : Type 0 where
  pub path : Text
  pub content : Text

abbrev pub note_if : Bool → Note → List Note
note_if b n = if b then n ∷ [] else []

abbrev pub shadowing : Text → Option Text → Option Text
shadowing path source = if is_shadowed_source path source then source else none

abbrev pub setting_result :
    Text
    → String
    → String
    → SetConfResult
    → Value
    → Option Text
    → Bool × Option Problem
    → SettingResult
setting_result path name new_value edit context source (reloaded, error) =
    let restart = is_postmaster context in
    record {
      path = path;
      setting = name;
      changed = edit.changed;
      action = edit.action;
      active_occurrences = edit.active_occurrences;
      old_value = edit.old_value;
      new_value = new_value;
      setting_context = context;
      restart_required = restart;
      reloaded = reloaded;
      reload_error = error;
      duplicates_disabled = edit.shadowed_disabled;
      effective_source_file = shadowing path source;
      notes =
          note_if (not (edit.shadowed_disabled == 0)) duplicates_note
          ++ (note_if (is_shadowed_source path source) shadowed_note
              ++ note_if (restart && edit.changed) restart_note);
    }

abbrev pub setting_query : Db.Statement
setting_query = plain_text "SELECT context, sourcefile FROM pg_settings WHERE name = %s"

module _ {W : Type 0} (service : Service W Value) where
  abbrev pub read_file : Text → Session W → Outcome Text × Session W
  read_file path = on_world (Client.read service.run service.helper service.exit_text path)

  abbrev pub write_file : Text → Text → Session W → Outcome (Unit {0}) × Session W
  write_file path content =
      on_world (Client.write service.run service.helper service.exit_text path content)

  -- the fallback to SQL, after the helper has failed
  abbrev pub sql_reloaded : Answer (Option Value) × Session W → (Bool × Option Problem) × Session W
  sql_reloaded (returned v, s) = ((true, none), s)
  sql_reloaded (raised e, s) = ((false, some (other e)), s)

  abbrev pub reload_by_sql : Problem → Session W → (Bool × Option Problem) × Session W
  reload_by_sql problem s =
      let (info, s') = db_info service.host false s in
      if leb 2 (db_level info.tier)
      then sql_reloaded
          (on_world (Db.query_scalar service.server (plain_text "SELECT pg_reload_conf()") []) s')
      else ((false, some problem), s')

  abbrev pub reload_after : Outcome (Unit {0}) × Session W → (Bool × Option Problem) × Session W
  reload_after (value u, s) = ((true, none), s)
  reload_after (priv_error e, s) = reload_by_sql (helper_error e) s
  reload_after (crashed e, s) = reload_by_sql (other e) s

  unfoldable pub reload_postgres : Session W → (Bool × Option Problem) × Session W
  reload_postgres s =
      reload_after (on_world (Client.reload service.run service.helper service.exit_text) s)

  abbrev pub reload_if : Bool → Session W → (Bool × Option Problem) × Session W
  reload_if b s = if b then reload_postgres s else ((false, none), s)

  abbrev pub fail : {B : Type 0} → List Notice → Problem → Tool W B
  fail notices problem s = (returned (attach service (failed problem) notices), s)

  -- both tools that read a file, by which path they ask for
  abbrev shown :
      List Notice → Text → Outcome Text × Session W → Answer (Stamped FileResult) × Session W
  shown notices path (value content, s) =
      (returned (attach service (done (record { path = path; content = content })) notices), s)
  shown notices path (priv_error e, s) = fail notices (helper_error e) s
  shown notices path (crashed e, s) = fail notices (other e) s

  abbrev read_at : List Notice → Option Text → Tool W FileResult
  read_at notices none s = fail notices no_path s
  read_at notices (some path) s = shown notices path (read_file path s)

  pub read_conf : (DbInfo → Option String) → Tool W FileResult
  read_conf key = guard_or_error service needs_config (λ notices s.
      let (info, s') = db_info service.host false s in read_at notices (path_of (key info)) s')

  pub read_postgresql_conf : Tool W FileResult
  read_postgresql_conf = read_conf (λ info. info.config_file)

  pub read_pg_hba_conf : Tool W FileResult
  read_pg_hba_conf = read_conf (λ info. info.hba_file)

module _ {W : Type 0} (service : Service W Value) (is_digit : ℕ → Bool) where
  module _ (name new_value : String) (reload : Text) (notices : List Notice) (path : Text) where
    abbrev pub conclude : SetConfResult → Value → Option Text → Tool W SettingResult
    conclude edit context source s =
        let (r, s') =
          reload_if service (edit.changed && (wants_reload reload && not (is_postmaster context)))
            s in
        (
          returned (
              attach service (done (setting_result path name new_value edit context source r))
                notices),
          s',
        )

    -- `row["context"]` raises a KeyError where the column is missing
    abbrev pub with_context : SetConfResult → Option Value → Option Value → Tool W SettingResult
    with_context edit none source s = (raised "context", s)
    with_context edit (some context) source s = conclude edit context (source_of source) s

    -- An empty dictionary counts as no row.
    abbrev pub with_dict : SetConfResult → Dict → Tool W SettingResult
    with_dict edit [] s = conclude edit null none s
    with_dict edit (x ∷ d) s =
        with_context edit (get "context" (x ∷ d)) (get "sourcefile" (x ∷ d)) s

    abbrev pub with_row :
        SetConfResult
        → Answer (Option (List String × List Value)) × Session W
        → Answer (Stamped SettingResult) × Session W
    with_row edit (raised e, s) = (raised e, s)
    with_row edit (returned none, s) = conclude edit null none s
    with_row edit (returned (some (cols, row)), s) = with_dict edit (zip_dict cols row []) s

    -- The query stands outside the `try`: its exception goes through.
    abbrev pub look_up : SetConfResult → Tool W SettingResult
    look_up edit s =
        with_row edit
          (on_world (Db.query_one service.server setting_query (Db.value (text name) ∷ [])) s)

    abbrev pub wrote :
        SetConfResult → Outcome (Unit {0}) × Session W → Answer (Stamped SettingResult) × Session W
    wrote edit (value u, s) = look_up edit s
    wrote edit (priv_error e, s) = fail service notices (helper_error e) s
    wrote edit (crashed e, s) = fail service notices (other e) s

    abbrev pub write_if : Bool → Text → Session W → Outcome (Unit {0}) × Session W
    write_if b content s = if b then write_file service path content s else (value tt, s)

    abbrev pub edit_read : Outcome Text × Session W → Answer (Stamped SettingResult) × Session W
    edit_read (value content, s) =
        let edit = set_conf_value is_digit content (lit name) (lit new_value) in
        wrote edit (write_if edit.changed edit.content s)
    edit_read (priv_error e, s) = fail service notices (helper_error e) s
    edit_read (crashed e, s) = fail service notices (other e) s

  abbrev pub set_at : String → String → Text → List Notice → Option Text → Tool W SettingResult
  set_at name new_value reload notices none s = fail service notices no_path s
  set_at name new_value reload notices (some path) s =
      edit_read name new_value reload notices path (read_file service path s)

  unfoldable pub update_postgresql_setting : String → String → Text → Tool W SettingResult
  update_postgresql_setting name new_value reload =
      guard_or_error service needs_config (λ notices s.
        let (info, s') = db_info service.host false s in
        set_at name new_value reload notices (path_of info.config_file) s')
