-- ===== src/Capabilities/Probe.antt =====
-- What one reading of a tier leaves behind: the answer is the one that the cache holds now.
use mcp_postgres.Prelude.{
  ℕ, ◌+◌, ◌≡◌, refl, Bool, not, ◌&&◌, Option, none, some, ltb, inl, inr, Bool-cases,
}
use mcp_postgres.Effect.{Answer, returned, raised}
use mcp_postgres.Capabilities.{
  OsTier, Session, DbInfo, Host, CapabilityManager, os_tier, os_lookup, os_checked, db_info,
  db_lookup,
}

-- The tier `t` is cached by `m'`, which is `m` otherwise.
pub record OsRead (t : OsTier) (m m' : CapabilityManager) : Type 0 where
  pub since : ℕ
  pub cached : m'.os_cache ≡ some (t, since)
  pub db_cache : m'.db_cache ≡ m.db_cache
  pub last_os : m'.last_os ≡ m.last_os
  pub last_db : m'.last_db ≡ m.last_db

pub record DbRead (info : DbInfo) (m m' : CapabilityManager) : Type 0 where
  pub since : ℕ
  pub cached : m'.db_cache ≡ some (info, since)
  pub os_cache : m'.os_cache ≡ m.os_cache
  pub last_os : m'.last_os ≡ m.last_os
  pub last_db : m'.last_db ≡ m.last_db

-- A reading that raises leaves the manager as it was.
abbrev pub Reading : Answer OsTier → CapabilityManager → CapabilityManager → Type 0
Reading (returned t) m m' = OsRead t m m'
Reading (raised e) m m' = m' ≡ m

module _ {W : Type 0} (host : Host W) where
  probe_os-Reading :
      (now : ℕ) (s : Session W) (p : Answer Bool × W)
      → let (a, s') = os_checked host now s p in Reading a s.manager s'.manager
  probe_os-Reading now s (raised e, w) = refl
  probe_os-Reading now s (returned ok, w) = record {
    since = now;
    cached = refl;
    db_cache = refl;
    last_os = refl;
    last_db = refl;
  }

  os_lookup-Reading :
      (force : Bool) (now : ℕ) (c : Option (OsTier × ℕ)) (s : Session W)
      → s.manager.os_cache ≡ c
      → let (a, s') = os_lookup host force now c s in Reading a s.manager s'.manager
  os_lookup-Reading force now none s h = probe_os-Reading now s (host.check s.world)
  os_lookup-Reading force now (some (t, since)) s h =
      elim (Bool-cases (not force && ltb now (since + s.manager.cache_ttl))) [
        | inl e ↦
            rw e (record {
              since = since;
              cached = h;
              db_cache = refl;
              last_os = refl;
              last_db = refl;
            })
        | inr e ↦ rw e (probe_os-Reading now s (host.check s.world))
      ]

  pub os_tier-Reading :
      (force : Bool) (s : Session W)
      → let (a, s') = os_tier host force s in Reading a s.manager s'.manager
  unfolding os_tier
  os_tier-Reading force s =
      let (now, w) = host.monotonic s.world in
      os_lookup-Reading force now s.manager.os_cache (record s { world = w }) refl

  db_lookup-DbRead :
      (force : Bool) (now : ℕ) (c : Option (DbInfo × ℕ)) (s : Session W)
      → s.manager.db_cache ≡ c
      → let (info, s') = db_lookup host force now c s in DbRead info s.manager s'.manager
  db_lookup-DbRead force now none s h = record {
    since = now;
    cached = refl;
    os_cache = refl;
    last_os = refl;
    last_db = refl;
  }
  db_lookup-DbRead force now (some (info, since)) s h =
      elim (Bool-cases (not force && ltb now (since + s.manager.cache_ttl))) [
        | inl e ↦
            rw e (record {
              since = since;
              cached = h;
              os_cache = refl;
              last_os = refl;
              last_db = refl;
            })
        | inr e ↦
            rw e (record {
              since = now;
              cached = refl;
              os_cache = refl;
              last_os = refl;
              last_db = refl;
            })
      ]

  pub db_info-DbRead :
      (force : Bool) (s : Session W)
      → let (info, s') = db_info host force s in DbRead info s.manager s'.manager
  unfolding db_info
  db_info-DbRead force s =
      let (now, w) = host.monotonic s.world in
      db_lookup-DbRead force now s.manager.db_cache (record s { world = w }) refl
