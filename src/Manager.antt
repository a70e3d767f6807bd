-- ===== src/Manager.antt =====
-- manager.py: the connection pools by database name, and the current target.
--
-- The pool library is a parameter: opening and closing a pool, and the host that the capability
-- probe of a pool sees.
pub mod Switch
pub mod Table
pub mod Pooled
mod Tests
use mcp_postgres.Prelude.{
  ℕ, ◌*◌, Bool, true, false, not, Option, none, some, String, str_eq, List, [], ◌∷◌, map,
  if◌then◌else◌,
}
use mcp_postgres.Effect.{Answer, returned, raised, Call}
use mcp_postgres.Capabilities.{CapabilityManager, DbInfo, Host, Session, db_info}

pub record Target (P : Type 0) : Type 0 where
  pub dbname : String
  pub db : P
  pub caps : CapabilityManager

abbrev pub Targets : Type 0 → Type 0
Targets P = List (String × Target P)

pub record DatabaseManager (P : Type 0) : Type 0 where
  pub targets : Targets P
  pub default : String
  pub current : String

pub record Pools (W P : Type 0) : Type 0 where
  -- `Database(cfg)` and its `open`, which can raise
  pub open_pool : String → Call W P
  pub close_pool : P → W → W
  pub host : P → Host W

-- The manager, and the world that the pools act on.
pub record Running (W P : Type 0) : Type 0 where
  pub manager : DatabaseManager P
  pub world : W

unfoldable pub find {ℓ} : {P : Type ℓ} → String → List (String × P) → Option P
find k [] = none
find k ((j, t) ∷ ts) = if str_eq j k then some t else find k ts

unfoldable pub put {ℓ} : {P : Type ℓ} → String → P → List (String × P) → List (String × P)
put k t [] = (k, t) ∷ []
put k t ((j, u) ∷ ts) = let rest = put k t ts in if str_eq j k then (j, t) ∷ ts else (j, u) ∷ rest

unfoldable pub remove {ℓ} : {P : Type ℓ} → String → List (String × P) → List (String × P)
remove k [] = []
remove k ((j, u) ∷ ts) = let rest = remove k ts in if str_eq j k then rest else (j, u) ∷ rest

abbrev pub is_none {ℓ} : {A : Type ℓ} → Option A → Bool
is_none none = true
is_none (some a) = false

-- `dbname or self.current`
abbrev pub or_current : Option String → String → String
or_current none current = current
or_current (some n) current = if str_eq n "" then current else n

-- `info.get("error")`, where an empty text counts as none
abbrev pub error_of : Option String → Option String
error_of none = none
error_of (some e) = if str_eq e "" then none else some e

abbrev pub new_manager : {P : Type 0} → String → DatabaseManager P
new_manager dbname = record { targets = []; default = dbname; current = dbname }

module _ {W P : Type 0} (pools : Pools W P) (cache_ttl : ℕ) where
  -- a CapabilityManager as it is constructed
  abbrev pub new_caps : CapabilityManager
  new_caps = record {
    cache_ttl = cache_ttl;
    os_cache = none;
    db_cache = none;
    last_os = none;
    last_db = none;
  }

  abbrev pub made : String → Answer P → Answer (Target P)
  made dbname (returned db) = returned (record { dbname = dbname; db = db; caps = new_caps })
  made dbname (raised e) = raised e

  abbrev pub make : String → Call W (Target P)
  make dbname w = let (a, w') = pools.open_pool dbname w in (made dbname a, w')

  abbrev pub cached : String → Running W P → Answer (Target P) × W → Answer (Target P) × Running W P
  cached dbname r (raised e, w) = (raised e, record r { world = w })
  cached dbname r (returned t, w) = (
    returned t,
    record { manager = record r.manager { targets = put dbname t r.manager.targets }; world = w },
  )

  abbrev pub get_or_make :
      String → Option (Target P) → Running W P → Answer (Target P) × Running W P
  get_or_make dbname (some t) r = (returned t, r)
  get_or_make dbname none r = cached dbname r (make dbname r.world)

  unfoldable pub get : Option String → Running W P → Answer (Target P) × Running W P
  unfolding find put
  get dbname r =
      let name = or_current dbname r.manager.current in
      get_or_make name (find name r.manager.targets) r

  unfoldable pub current_target : Running W P → Answer (Target P) × Running W P
  current_target r = get (some r.manager.current) r

  -- A pool that this call has made is closed and forgotten again.
  abbrev pub discard : Bool → String → Target P → Running W P → Running W P
  discard newly_created dbname t r =
      if newly_created
      then record {
        manager = record r.manager { targets = remove dbname r.manager.targets };
        world = pools.close_pool t.db r.world;
      }
      else r

  abbrev pub judge :
      String → Bool → Target P → Option String → Running W P → Answer (Target P) × Running W P
  judge dbname newly_created t (some e) r = (raised e, discard newly_created dbname t r)
  judge dbname newly_created t none r =
      (returned t, record r { manager = record r.manager { current = dbname } })

  -- The forced probe changes the capability manager of the target, which the table holds under
  -- the name that `get` has looked up.
  abbrev pub probed : String → Bool → Target P → Running W P → Answer (Target P) × Running W P
  probed dbname newly_created t r =
      let key = or_current (some dbname) r.manager.current in
      let (info, s) =
        db_info (pools.host t.db) true (record { manager = t.caps; world = r.world }) in
      let t' = record t { caps = s.manager } in
      judge dbname newly_created t' (error_of info.error) (record {
        manager = record r.manager { targets = put key t' r.manager.targets };
        world = s.world;
      })

  abbrev pub checked :
      String → Bool → Answer (Target P) × Running W P → Answer (Target P) × Running W P
  checked dbname newly_created (raised e, r) = (raised e, r)
  checked dbname newly_created (returned t, r) = probed dbname newly_created t r

  unfoldable pub switch : String → Running W P → Answer (Target P) × Running W P
  unfolding find put remove
  switch dbname r = checked dbname (is_none (find dbname r.manager.targets)) (get (some dbname) r)

  abbrev pub close_all : Targets P → W → W
  close_all [] w = w
  close_all ((k, t) ∷ ts) w = close_all ts (pools.close_pool t.db w)

  pub close : Running W P → Running W P
  close r = record {
    manager = record r.manager { targets = [] };
    world = close_all r.manager.targets r.world;
  }
