-- ===== src/Capabilities/Fresh.antt =====
-- How old the answer of `db_info` can be, and what a failed probe leaves of it.
use mcp_postgres.Prelude.{
  ℕ, ◌+◌, ◌<◌, ◌≡◌, refl, sym, ap, ◌∙◌, ◌⊎◌, inl, inr, Bool, true, false, not, ◌&&◌, ◌||◌, Option,
  none, some, String, ltb, Bool-cases, arith,
}
use mcp_postgres.Effect.{Answer, returned, raised}
use mcp_postgres.Capabilities.{
  db_readonly, db_readwrite, db_admin, DbInfo, RoleRow, Host, Session, db_info, db_lookup, probe_db,
  role_step, write_step, config_step, hba_step, no_capabilities, Attributes, attributes_of, tier_of,
  graded, begun, DbCapabilities,
}

-- Where an answer comes from: a probe of this call, or a cached one that is younger than the time
-- to live, in which case nothing is asked of the host but the time.
abbrev pub Origin :
    {W : Type 0} → Host W → Bool → ℕ → ℕ → DbInfo → W → Session W → Session W → Type 0
Origin host force now since info w s s' =
    ((since ≡ now) × (probe_db host w ≡ (info, s'.world)))
    ⊎ ((force ≡ false)
        × (s.manager.db_cache ≡ some (info, since))
        × (now < since + s.manager.cache_ttl)
        × (s'.world ≡ w))

module _ {W : Type 0} (host : Host W) where
  lookup-Origin :
      (force : Bool) (now : ℕ) (c : Option (DbInfo × ℕ)) (s : Session W)
      → s.manager.db_cache ≡ c
      → let (info, s') = db_lookup host force now c s in
        (since : ℕ) × (s'.manager.db_cache ≡ some (info, since))
        × Origin host force now since info s.world s s'
  lookup-Origin force now none s h = (now, refl, inl (refl, refl))
  lookup-Origin force now (some (info, since)) s h =
      elim (Bool-cases (not force && ltb now (since + s.manager.cache_ttl))) [
        | inl e ↦ rw e (since, h, inr (ground arith, h, ground arith, refl))
        | inr e ↦ rw e (now, refl, inl (refl, refl))
      ]

  -- What `db_info` answers is what it caches, and it is either probed by this call or was probed
  -- less than the time to live ago. A forced call always probes.
  pub db_info-Origin :
      (force : Bool) (s : Session W)
      → let (now, w) = host.monotonic s.world in
        let (info, s') = db_info host force s in
        (since : ℕ) × (s'.manager.db_cache ≡ some (info, since))
        × Origin host force now since info w s s'
  unfolding db_info
  db_info-Origin force s =
      let (now, w) = host.monotonic s.world in
      lookup-Origin force now s.manager.db_cache (record s { world = w }) refl

-- The catalogue was read, and the role has the attribute.
abbrev pub Shows : {W : Type 0} → (RoleRow → Bool) → Answer (Option RoleRow) × W → Type 0
Shows p answer = (row : RoleRow) × (answer.0 ≡ returned (some row)) × (p row ≡ true)

module _ {W : Type 0} (host : Host W) where
  hba_step-powers :
      (info : DbInfo) (a : Answer (Option String) × W)
      → let (info', w) = hba_step host info a in
        (info'.tier ≡ info.tier) × (info'.capabilities ≡ info.capabilities)
  hba_step-powers info (returned f, w) = (refl, refl)
  hba_step-powers info (raised e, w) = (refl, refl)

  config_step-powers :
      (info : DbInfo) (a : Answer (Option String) × W)
      → let (info', w) = config_step host info a in
        (info'.tier ≡ info.tier) × (info'.capabilities ≡ info.capabilities)
  config_step-powers info (returned f, w) =
      hba_step-powers (record info { config_file = f }) (host.current_setting "hba_file" w)
  config_step-powers info (raised e, w) = (refl, refl)

  -- The two queries that a power rests on.
  write_step-powers :
      (attrs : Attributes) (info : DbInfo) (a : Answer Bool × W)
      → info.tier ≡ db_readonly
      → info.capabilities ≡ no_capabilities
      → let (info', w) = write_step host attrs info a in
        (info'.tier ≡ db_admin → attrs.superuser ≡ true)
        × (info'.tier ≡ db_readwrite → a.0 ≡ returned true)
        × (info'.capabilities.createdb ≡ true → (attrs.superuser || attrs.createdb) ≡ true)
        × (info'.capabilities.createrole ≡ true → (attrs.superuser || attrs.createrole) ≡ true)
  write_step-powers attrs info (raised e, w) t c =
      (λ h. cc (t, h), λ h. cc (t, h), λ h. ground arith, λ h. ground arith)
  write_step-powers attrs info (returned b, w) t c =
      let (same, caps) =
        config_step-powers (graded attrs b info) (host.current_setting "config_file" w) in
      (
        λ h. tier_admin attrs b (sym same ∙ h),
        λ h. ap returned (tier_write attrs b (sym same ∙ h)),
        λ h. ap (λ (k : DbCapabilities). k.createdb) (sym caps) ∙ h,
        λ h. ap (λ (k : DbCapabilities). k.createrole) (sym caps) ∙ h,
      )
    where
      tier_admin : (k : Attributes) (b : Bool) → tier_of k b ≡ db_admin → k.superuser ≡ true
      tier_admin k b h = ground arith

      tier_write : (k : Attributes) (b : Bool) → tier_of k b ≡ db_readwrite → b ≡ true
      tier_write k b h = ground arith

  role_powers :
      (a : Answer (Option RoleRow) × W)
      → let (info, w) = role_step host a in
        (info.tier ≡ db_admin → Shows (λ r. r.rolsuper) a)
        × (info.tier ≡ db_readwrite → (host.can_create a.1).0 ≡ returned true)
        × (info.capabilities.createdb ≡ true → Shows (λ r. r.rolsuper || r.rolcreatedb) a)
        × (info.capabilities.createrole ≡ true → Shows (λ r. r.rolsuper || r.rolcreaterole) a)
  role_powers (raised e, w) = (λ h. cc (h), λ h. cc (h), λ h. cc (h), λ h. cc (h))
  role_powers (returned none, w) =
      let (admin, write, createdb, createrole) =
        write_step-powers (attributes_of none) (begun none) (host.can_create w) refl refl in
      (λ h. cc (admin h), write, λ h. cc (createdb h), λ h. cc (createrole h))
  role_powers (returned (some row), w) =
      let (admin, write, createdb, createrole) =
        write_step-powers (attributes_of (some row)) (begun (some row)) (host.can_create w) refl
          refl in
      (
        λ h. (row, refl, admin h),
        write,
        λ h. (row, refl, createdb h),
        λ h. (row, refl, createrole h),
      )

  -- A probe never reports a power that the database did not show it, also where a query fails: the
  -- admin tier and the capabilities rest on the attributes of the role's row, and the tier that
  -- may write on the privilege query, which follows it.
  pub probe_db_powers :
      (w : W)
      → let (info, w') = probe_db host w in
        (info.tier ≡ db_admin → Shows (λ r. r.rolsuper) (host.role_row w))
        × (info.tier ≡ db_readwrite → (host.can_create (host.role_row w).1).0 ≡ returned true)
        × (info.capabilities.createdb ≡ true
            → Shows (λ r. r.rolsuper || r.rolcreatedb) (host.role_row w))
        × (info.capabilities.createrole ≡ true
            → Shows (λ r. r.rolsuper || r.rolcreaterole) (host.role_row w))
  unfolding probe_db
  probe_db_powers w = role_powers (host.role_row w)
