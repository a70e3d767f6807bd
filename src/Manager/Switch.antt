-- ===== src/Manager/Switch.antt =====
-- manager.py: what `use` does to the table of targets and to the current one.
use mcp_postgres.Prelude.{ℕ, ◌≡◌, Bool, true, false, Option, none, some, String, str_eq}
use mcp_postgres.Effect.{Answer, returned, raised}
use mcp_postgres.Manager.{Target, Targets, Pools, Running, find, current_target}

module _ {W P : Type 0} (pools : Pools W P) (cache_ttl : ℕ) (dbname : String) where
  -- How a table stands to the table before: only the entry of the name can differ.
  abbrev pub SameOthers : Targets P → Targets P → Type 0
  SameOthers ts ts' = (n : String) → str_eq dbname n ≡ false → find n ts' ≡ find n ts

  -- A pool that this call opened is what was closed last.
  abbrev pub Closed : Answer P × W → Running W P → Type 0
  Closed (raised e, w) r' = r'.world ≡ w
  Closed (returned p, w) r' = (w' : W) × (r'.world ≡ pools.close_pool p w')

  -- After a failure an entry keeps its pool, and an entry that was made is gone with its pool.
  abbrev pub Undone : Running W P → Option (Target P) → Running W P → Type 0
  Undone r (some t) r' =
      (t' : Target P) × (find dbname r'.manager.targets ≡ some t')
      × (t'.dbname ≡ t.dbname)
      × (t'.db ≡ t.db)
  Undone r none r' =
      (find dbname r'.manager.targets ≡ none) × Closed (pools.open_pool dbname r.world) r'

  -- Where the target of a switch comes from, by whether it is new.
  abbrev From : Running W P → Target P → Bool → Type 0
  From r t true =
      (find dbname r.manager.targets ≡ none)
      × ((w : W) × (pools.open_pool dbname r.world ≡ (returned t.db, w)))
  From r t false =
      (t0 : Target P) × (find dbname r.manager.targets ≡ some t0)
      × (t.dbname ≡ t0.dbname)
      × (t.db ≡ t0.db)

  -- What has become of the manager, by the outcome.
  abbrev pub Switched : Running W P → Answer (Target P) × Running W P → Type 0
  Switched r (returned t, r') =
      SameOthers r.manager.targets r'.manager.targets
      × (r'.manager.current ≡ dbname)
      × (current_target pools cache_ttl r' ≡ (returned t, r'))
  Switched r (raised e, r') =
      SameOthers r.manager.targets r'.manager.targets
      × (r'.manager.current ≡ r.manager.current)
      × Undone r (find dbname r.manager.targets) r'
