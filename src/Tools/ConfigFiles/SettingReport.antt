-- ===== src/Tools/ConfigFiles/SettingReport.antt =====
-- tools/config_files.py: what a finished report of `update_postgresql_setting` stands for.
use mcp_postgres.Prelude.{ℕ, ◌≡◌, ◌⊎◌, Bool, true, false, Option, some, String, []}
use mcp_postgres.PyText.{Text, lit}
use mcp_postgres.Effect.{returned}
use mcp_postgres.Confedit.{SetConfResult, set_conf_value, is_shadowed_source}
use mcp_postgres.Db
use mcp_postgres.Db.{plain_text}
use mcp_postgres.Priv.Client
use mcp_postgres.Priv.Client.{Outcome, value}
use mcp_postgres.Tools.Base.{Service}
use mcp_postgres.Tools.Rows.{Value}
use mcp_postgres.Tools.ConfigFiles.{SettingResult, is_postmaster, wants_reload}

module _ {W : Type 0} (service : Service W Value) (is_digit : ℕ → Bool) (name new_value : String)
    (reload : Text) where
  abbrev reads : Text → W → Outcome Text × W
  reads = Client.read service.run service.helper service.exit_text

  abbrev writes : Text → Text → W → Outcome (Unit {0}) × W
  writes = Client.write service.run service.helper service.exit_text

  abbrev edit_of : Text → SetConfResult
  edit_of content = set_conf_value is_digit content (lit name) (lit new_value)

  -- A reload that went through: the helper's, or else the one by SQL.
  abbrev pub Reloaded : Type 0
  Reloaded =
      ((w : W) × ((Client.reload service.run service.helper service.exit_text w).0 ≡ value tt))
      ⊎ ((v : Option Value) × (w : W) × ((Db.query_scalar service.server
              (plain_text "SELECT pg_reload_conf()") [] w).0
            ≡ returned v))

  -- What the report says is so: it is about the edit of a text that the helper gave, a change was
  -- written, and a reload was called for.
  pub record Sound (r : SettingResult) : Type 0 where
    pub content : Text
    pub before : W
    pub was_read : (reads r.path before).0 ≡ value content
    pub changed : r.changed ≡ (edit_of content).changed
    pub action : r.action ≡ (edit_of content).action
    pub old_value : r.old_value ≡ (edit_of content).old_value
    pub disabled : r.duplicates_disabled ≡ (edit_of content).shadowed_disabled
    pub was_written :
        r.changed ≡ true → (w : W) × ((writes r.path (edit_of content).content w).0 ≡ value tt)
    pub reload_wanted :
        r.reloaded ≡ true
        → (r.changed ≡ true) × (wants_reload reload ≡ true) × (r.restart_required ≡ false)
    pub was_reloaded : r.reloaded ≡ true → Reloaded
    pub restart : r.restart_required ≡ is_postmaster r.setting_context
    pub overridden :
        (f : Text) → r.effective_source_file ≡ some f → is_shadowed_source r.path (some f) ≡ true
