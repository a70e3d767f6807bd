-- ===== src/Tools/ConfigFiles/Setting.antt =====
-- tools/config_files.py: what `update_postgresql_setting` does and reports.
use mcp_postgres.Prelude.{
  ℕ, ◌≡◌, refl, ap, ◌∙◌, Bool, true, false, Option, none, some, String, List, [], ◌∷◌,
}
use mcp_postgres.PyText.{Text, lit}
use mcp_postgres.PyText.Lines.{IsLine}
use mcp_postgres.Effect.{Answer, returned, raised}
use mcp_postgres.Confedit.{SetConfResult, set_conf_value, format_value}
use mcp_postgres.Confedit.Match.{IsName}
use mcp_postgres.Confedit.Setting.{set_conf_value_again}
use mcp_postgres.Capabilities.{DbInfo, Session, db_info}
use mcp_postgres.Capabilities.Advertised.{needs_config}
use mcp_postgres.Capabilities.Guard.{Notice, allowed, guard}
use mcp_postgres.Db
use mcp_postgres.Priv.Client
use mcp_postgres.Priv.Client.{Outcome, value, priv_error, crashed}
use mcp_postgres.Tools.Base.{Service, Report, not_allowed, failed, done, Stamped, on_world}
use mcp_postgres.Tools.Rows.{Value, Dict, null, text, get}
use mcp_postgres.Tools.ConfigFiles.{
  SettingResult, setting_query, path_of, zip_dict, source_of, conclude, with_context, with_dict,
  with_row, wrote, write_if, update_postgresql_setting,
}

-- A finished report meets `P`.
abbrev pub Meets : (SettingResult → Type 0) → Report SettingResult → Type 0
Meets P (done r) = P r
Meets P (not_allowed x) = Unit {0}
Meets P (failed x) = Unit {0}

abbrev pub Reports : (SettingResult → Type 0) → Answer (Stamped SettingResult) → Type 0
Reports P (returned t) = Meets P t.report
Reports P (raised e) = Unit {0}

module _ {W : Type 0} (service : Service W Value) (is_digit : ℕ → Bool) (name new_value : String)
    (reload : Text) (notices : List Notice) (path : Text) where
  -- An edit that changed nothing reloads nothing.
  abbrev Unchanged : SetConfResult → SettingResult → Type 0
  Unchanged edit r = (r.changed ≡ false) × (r.reloaded ≡ false) × (r.old_value ≡ edit.old_value)

  conclude-Unchanged :
      (edit : SetConfResult) (context : Value) (source : Option Text) (s : Session W)
      → edit.changed ≡ false
      → let (a, s') =
          conclude service is_digit name new_value reload notices path edit context source s in
        (s' ≡ s) × Reports (Unchanged edit) a
  conclude-Unchanged edit context source s e = rw e (refl, (refl, refl, refl))

  with_row-Unchanged :
      (edit : SetConfResult) (a : Answer (Option (List String × List Value)) × Session W)
      → edit.changed ≡ false
      → let (b, s') = with_row service is_digit name new_value reload notices path edit a in
        (s' ≡ a.1) × Reports (Unchanged edit) b
  with_row-Unchanged edit (raised x, s) e = (refl, tt)
  with_row-Unchanged edit (returned none, s) e = conclude-Unchanged edit null none s e
  with_row-Unchanged edit (returned (some (cols, row)), s) e = by_dict (zip_dict cols row [])
    where
      by_column :
          (c g : Option Value)
          → let (b, s') =
              with_context service is_digit name new_value reload notices path edit c g s in
            (s' ≡ s) × Reports (Unchanged edit) b
      by_column none g = (refl, tt)
      by_column (some c) g = conclude-Unchanged edit c (source_of g) s e

      by_dict :
          (d : Dict)
          → let (b, s') = with_dict service is_digit name new_value reload notices path edit d s in
            (s' ≡ s) × Reports (Unchanged edit) b
      by_dict [] = conclude-Unchanged edit null none s e
      by_dict (x ∷ d) = by_column (get "context" (x ∷ d)) (get "sourcefile" (x ∷ d))

  unchanged :
      (edit : SetConfResult) (b : Bool) (s : Session W)
      → edit.changed ≡ false
      → b ≡ false
      → let (a, s') =
          wrote service is_digit name new_value reload notices path edit
            (write_if service is_digit name new_value reload notices path b edit.content s) in
        (s'
          ≡ (on_world (Db.query_one service.server setting_query (Db.value (text name) ∷ [])) s).1)
        × Reports (Unchanged edit) a
  unchanged edit false s e h =
      with_row-Unchanged edit
        (on_world (Db.query_one service.server setting_query (Db.value (text name) ∷ [])) s) e
  unchanged edit true s e h = cc (h)

  report_old :
      (edit : SetConfResult) (old : Option Text) (a : Answer (Stamped SettingResult))
      → edit.old_value ≡ old
      → Reports (Unchanged edit) a
      → Reports (λ r. (r.changed ≡ false) × (r.reloaded ≡ false) × (r.old_value ≡ old)) a
  report_old edit old (raised x) e h = tt
  report_old edit old (returned t) e h = by_report t.report h
    where
      by_report :
          (r : Report SettingResult)
          → Meets (Unchanged edit) r
          → Meets (λ x. (x.changed ≡ false) × (x.reloaded ≡ false) × (x.old_value ≡ old)) r
      by_report (not_allowed x) k = tt
      by_report (failed x) k = tt
      by_report (done x) k = (k.0, k.1, k.2 ∙ e)

module _ {W : Type 0} (service : Service W Value) (is_digit : ℕ → Bool) (name new_value : String)
    (reload : Text) where
  -- The same change once more, when the helper gives the text that the first edit wrote: the file is
  -- not written and nothing is reloaded. After the path is known, the tool only reads the file and
  -- queries the setting. If it finishes, its report says that nothing changed and that nothing was
  -- reloaded, and gives the value as it is written for the old one.
  pub update_postgresql_setting_again :
      (content path : Text) (s s1 s2 : Session W) (notices : List Notice) (info : DbInfo) (w : W)
      → IsName (lit name)
      → IsLine (lit new_value)
      → guard service.host needs_config s ≡ (allowed notices, s1)
      → db_info service.host false s1 ≡ (info, s2)
      → path_of info.config_file ≡ some path
      → Client.read service.run service.helper service.exit_text path s2.world
        ≡ (value (set_conf_value is_digit content (lit name) (lit new_value)).content, w)
      → let (a, s') = update_postgresql_setting service is_digit name new_value reload s in
        (s'.manager ≡ s2.manager)
        × (s'.world ≡ (Db.query_one service.server setting_query (Db.value (text name) ∷ []) w).1)
        × Reports
            (λ r.
              (r.changed ≡ false)
              × (r.reloaded ≡ false)
              × (r.old_value ≡ some (format_value is_digit (lit new_value))))
            a
  unfolding update_postgresql_setting
  update_postgresql_setting_again content path s s1 s2 notices info w n v g d p r =
      let first = set_conf_value is_digit content (lit name) (lit new_value) in
      let (same, changed, old, action) =
        set_conf_value_again is_digit content (lit name) (lit new_value) n v in
      let edit = set_conf_value is_digit first.content (lit name) (lit new_value) in
      let (at_query, report) =
        unchanged service is_digit name new_value reload notices path edit edit.changed
          (record s2 { world = w }) changed changed in
      rw (g, d, p, r)
        (
          ap (λ (t : Session W). t.manager) at_query,
          ap (λ (t : Session W). t.world) at_query,
          report_old service is_digit name new_value reload notices path edit
              (some (format_value is_digit (lit new_value))) _ old report,
        )
