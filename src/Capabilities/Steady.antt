-- ===== src/Capabilities/Steady.antt =====
-- What the calls of a host leave as it is, a probe of the database leaves as it is.
use mcp_postgres.Prelude.{
  ℕ, ◌+◌, ◌≡◌, refl, ◌∙◌, Bool, true, false, not, ◌&&◌, Option, none, some, String, ltb,
  if◌then◌else◌,
}
use mcp_postgres.Effect.{Answer, returned, raised}
use mcp_postgres.Capabilities.{
  Host, Session, DbInfo, RoleRow, Attributes, hba_step, config_step, write_step, role_step,
  probe_db, refresh_db, db_lookup, db_info, attributes_of, begun, graded,
}

-- The view is the same after each call.
pub record IsSteady {ℓ} {W : Type 0} {M : Type ℓ} (host : Host W) (view : W → M) : Type ℓ where
  pub monotonic : (w : W) → view (host.monotonic w).1 ≡ view w
  pub role_row : (w : W) → view (host.role_row w).1 ≡ view w
  pub can_create : (w : W) → view (host.can_create w).1 ≡ view w
  pub current_setting : (name : String) (w : W) → view (host.current_setting name w).1 ≡ view w

module _ {ℓ} {W : Type 0} {M : Type ℓ} (host : Host W) (view : W → M)
    (steady : IsSteady host view) where
  hba_step-view :
      (info : DbInfo) (p : Answer (Option String) × W) → view (hba_step host info p).1 ≡ view p.1
  hba_step-view info (returned f, w) = refl
  hba_step-view info (raised e, w) = refl

  config_step-view :
      (info : DbInfo) (p : Answer (Option String) × W) → view (config_step host info p).1 ≡ view p.1
  config_step-view info (returned f, w) =
      hba_step-view (record info { config_file = f }) (host.current_setting "hba_file" w)
      ∙ steady.current_setting "hba_file" w
  config_step-view info (raised e, w) = refl

  write_step-view :
      (attrs : Attributes) (info : DbInfo) (p : Answer Bool × W)
      → view (write_step host attrs info p).1 ≡ view p.1
  write_step-view attrs info (returned can_write, w) =
      config_step-view (graded attrs can_write info) (host.current_setting "config_file" w)
      ∙ steady.current_setting "config_file" w
  write_step-view attrs info (raised e, w) = refl

  role_step-view : (p : Answer (Option RoleRow) × W) → view (role_step host p).1 ≡ view p.1
  role_step-view (returned row, w) =
      write_step-view (attributes_of row) (begun row) (host.can_create w) ∙ steady.can_create w
  role_step-view (raised e, w) = refl

  probe_db-view : (w : W) → view (probe_db host w).1 ≡ view w
  unfolding probe_db
  probe_db-view w = role_step-view (host.role_row w) ∙ steady.role_row w

  db_lookup-view :
      (force : Bool) (now : ℕ) (c : Option (DbInfo × ℕ)) (s : Session W)
      → view (db_lookup host force now c s).1.world ≡ view s.world
  db_lookup-view force now none s = probe_db-view s.world
  db_lookup-view force now (some (info, since)) s =
      by_age (not force && ltb now (since + s.manager.cache_ttl))
    where
      by_age :
          (b : Bool) → view (if b then (info, s) else refresh_db host now s).1.world ≡ view s.world
      by_age true = refl
      by_age false = probe_db-view s.world

  pub db_info-view :
      (force : Bool) (s : Session W) → view (db_info host force s).1.world ≡ view s.world
  unfolding db_info
  db_info-view force s =
      let (now, w) = host.monotonic s.world in
      db_lookup-view force now s.manager.db_cache (record s { world = w })
      ∙ steady.monotonic s.world
