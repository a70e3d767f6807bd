-- ===== src/Tools/ConfigFiles/Hba.antt =====
-- tools/config_files.py: `update_pg_hba_rule`.
use mcp_postgres.Prelude.{Bool, false, ◌&&◌, Option, none, some, String, List, if◌then◌else◌}
use mcp_postgres.PyText.{Text, lit}
use mcp_postgres.Effect.{Answer, returned}
use mcp_postgres.Confedit.{append_hba_rule}
use mcp_postgres.Capabilities.{Session, db_info}
use mcp_postgres.Capabilities.Advertised.{needs_config}
use mcp_postgres.Capabilities.Guard.{Notice}
use mcp_postgres.Priv.Client.{Outcome, value, priv_error, crashed}
use mcp_postgres.Tools.Base.{
  Service, Problem, no_path, helper_error, other, done, Stamped, Tool, attach, guard_or_error,
}
use mcp_postgres.Tools.Rows.{Value}
use mcp_postgres.Tools.ConfigFiles.{wants_reload, path_of, read_file, write_file, fail, reload_if}

pub record HbaResult : Type 0 where
  pub path : Text
  pub rule : String
  pub changed : Bool
  pub reloaded : Bool
  pub reload_error : Option Problem

module _ {W : Type 0} (service : Service W Value) where
  module _ (rule : String) (reload : Text) (notices : List Notice) (path : Text) where
    abbrev hba_done : Bool → Tool W HbaResult
    hba_done changed s =
        let ((reloaded, error), s') = reload_if service (changed && wants_reload reload) s in
        (
          returned (
              attach service
                (done (record {
                  path = path;
                  rule = rule;
                  changed = changed;
                  reloaded = reloaded;
                  reload_error = error;
                }))
                notices),
          s',
        )

    abbrev hba_wrote :
        Bool → Outcome (Unit {0}) × Session W → Answer (Stamped HbaResult) × Session W
    hba_wrote changed (value u, s) = hba_done changed s
    hba_wrote changed (priv_error e, s) = fail service notices (helper_error e) s
    hba_wrote changed (crashed e, s) = fail service notices (other e) s

    abbrev hba_read : Outcome Text × Session W → Answer (Stamped HbaResult) × Session W
    hba_read (value content, s) =
        let (new_content, changed) = append_hba_rule content (lit rule) in
        hba_wrote changed (if changed then write_file service path new_content s else (value tt, s))
    hba_read (priv_error e, s) = fail service notices (helper_error e) s
    hba_read (crashed e, s) = fail service notices (other e) s

  abbrev hba_at : String → Text → List Notice → Option Text → Tool W HbaResult
  hba_at rule reload notices none s = fail service notices no_path s
  hba_at rule reload notices (some path) s =
      hba_read rule reload notices path (read_file service path s)

  pub update_pg_hba_rule : String → Text → Tool W HbaResult
  update_pg_hba_rule rule reload = guard_or_error service needs_config (λ notices s.
      let (info, s') = db_info service.host false s in
      hba_at rule reload notices (path_of info.hba_file) s')
