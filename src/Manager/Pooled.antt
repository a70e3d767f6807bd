-- ===== src/Manager/Pooled.antt =====
-- manager.py: the pools that are open, as a multiset, over any calls of the manager.
use mathlib.Mathlib.Data.Multiset.Defs.{Multiset}
use mathlib.Mathlib.Data.Multiset.ZeroCons.{zero as no_pools, cons}
use mcp_postgres.Prelude.{
  ℕ, ◌≡◌, refl, sym, ap, ◌∙◌, inl, inr, Bool, true, false, Option, none, some, String, str_eq, List,
  [], ◌∷◌, All,
}
use mcp_postgres.Effect.{Answer, returned, raised, Answer-cases}
use mcp_postgres.Capabilities.{db_info}
use mcp_postgres.Capabilities.Steady.{IsSteady, db_info-view}
use mcp_postgres.Manager.Table.{pools_of, put_new, put_same, remove-put, put-put}
use mcp_postgres.Manager.{
  Target, Targets, Pools, Running, find, put, remove, is_none, or_current, error_of, made, make,
  cached, get_or_make, get, judge, probed, checked, switch, close_all, close, new_caps,
}

-- What the pool library does to the pools that are open, as a view of the world: opening adds one
-- or raises, closing takes it away, and a query neither opens nor closes any.
pub record IsPools {W P : Type 0} (pools : Pools W P) (opened : W → Multiset P) : Type 0 where
  pub opens :
      (name : String) (w w' : W) (p : P)
      → pools.open_pool name w ≡ (returned p, w')
      → opened w' ≡ cons p (opened w)
  pub fails :
      (name e : String) (w w' : W) → pools.open_pool name w ≡ (raised e, w') → opened w' ≡ opened w
  pub closes :
      (p : P) (w : W) (rest : Multiset P)
      → opened w ≡ cons p rest
      → opened (pools.close_pool p w) ≡ rest
  pub steady : (p : P) → IsSteady (pools.host p) opened

-- The open pools are those of the table, each once for each of its entries.
abbrev pub IsPooled : {W P : Type 0} → (W → Multiset P) → Running W P → Type 0
IsPooled opened r = opened r.world ≡ pools_of r.manager.targets

module _ {W P : Type 0} (pools : Pools W P) (cache_ttl : ℕ) (opened : W → Multiset P)
    (library : IsPools pools opened) where
  cached-IsPooled :
      (name : String) (r : Running W P)
      → find name r.manager.targets ≡ none
      → IsPooled opened r
      → IsPooled opened (cached pools cache_ttl name r (make pools cache_ttl name r.world)).1
  cached-IsPooled name r absent h = elim (Answer-cases (pools.open_pool name r.world)) [
    | inl (p, w, e) ↦ rw (e) (
        library.opens name r.world w p e
        ∙ ap (cons p) h
        ∙ sym (put_new name (new_target name p) r.manager.targets absent))
    | inr (x, w, e) ↦ rw (e) (library.fails name x r.world w e ∙ h)
  ]
    where
      new_target : String → P → Target P
      new_target n p = record { dbname = n; db = p; caps = new_caps pools cache_ttl }

  get-IsPooled :
      (name : Option String) (r : Running W P)
      → IsPooled opened r
      → IsPooled opened (get pools cache_ttl name r).1
  unfolding get
  get-IsPooled name r h =
      let key = or_current name r.manager.current in by_entry (find key r.manager.targets) refl
    where
      by_entry :
          (o : Option (Target P))
          → find (or_current name r.manager.current) r.manager.targets ≡ o
          → IsPooled opened (get_or_make pools cache_ttl (or_current name r.manager.current) o r).1
      by_entry (some t) e = h
      by_entry none e = cached-IsPooled (or_current name r.manager.current) r e h

  -- The forced probe opens and closes nothing.
  probe_opened :
      (t : Target P) (w : W)
      → opened (db_info (pools.host t.db) true (record { manager = t.caps; world = w })).1.world
        ≡ opened w
  probe_opened t w =
      db_info-view (pools.host t.db) opened (library.steady t.db) true
        (record { manager = t.caps; world = w })

  judge-known :
      (dbname : String) (t : Target P) (err : Option String) (r : Running W P)
      → IsPooled opened r
      → IsPooled opened (judge pools cache_ttl dbname false t err r).1
  judge-known dbname t none r h = h
  judge-known dbname t (some e) r h = h

  judge-new :
      (dbname : String) (t : Target P) (err : Option String) (ts : Targets P) (r : Running W P)
      → find dbname ts ≡ none
      → r.manager.targets ≡ put dbname t ts
      → opened r.world ≡ cons t.db (pools_of ts)
      → IsPooled opened (judge pools cache_ttl dbname true t err r).1
  judge-new dbname t none ts r absent e h =
      h ∙ sym (put_new dbname t ts absent) ∙ ap pools_of (sym e)
  judge-new dbname t (some x) ts r absent e h =
      library.closes t.db r.world (pools_of ts) h
      ∙ ap pools_of (sym (ap (remove dbname) e ∙ remove-put dbname t ts absent))

  switch-IsPooled :
      (dbname : String) (r : Running W P)
      → str_eq dbname "" ≡ false
      → IsPooled opened r
      → IsPooled opened (switch pools cache_ttl dbname r).1
  unfolding switch get
  switch-IsPooled dbname r named h = rw (named) (by_entry (find dbname r.manager.targets) refl)
    where
      after_probe :
          (newly : Bool) (t : Target P) (r' : Running W P)
          → let (info, s) =
              db_info (pools.host t.db) true (record { manager = t.caps; world = r'.world }) in
            let t' = record t { caps = s.manager } in
            IsPooled opened
              (judge pools cache_ttl dbname newly t' (error_of info.error) (record {
                manager = record r'.manager { targets = put dbname t' r'.manager.targets };
                world = s.world;
              })).1
            → IsPooled opened (probed pools cache_ttl dbname newly t r').1
      after_probe newly t r' k = rw (named) k

      by_make :
          (a : Answer P × W)
          → pools.open_pool dbname r.world ≡ a
          → find dbname r.manager.targets ≡ none
          → IsPooled opened
              (checked pools cache_ttl dbname true
                (cached pools cache_ttl dbname r (made pools cache_ttl dbname a.0, a.1))).1
      by_make (raised x, w) e absent = library.fails dbname x r.world w e ∙ h
      by_make (returned p, w) e absent =
          let t : Target P = record { dbname = dbname; db = p; caps = new_caps pools cache_ttl } in
          let r' : Running W P = record {
            manager = record r.manager { targets = put dbname t r.manager.targets };
            world = w;
          } in
          let (info, s) = db_info (pools.host p) true (record { manager = t.caps; world = w }) in
          let t' : Target P = record t { caps = s.manager } in
          after_probe true t r' (
            judge-new dbname t' (error_of info.error) r.manager.targets
              (record {
                manager = record r'.manager { targets = put dbname t' r'.manager.targets };
                world = s.world;
              })
              absent (put-put dbname t' t r.manager.targets)
              (probe_opened t w ∙ library.opens dbname r.world w p e ∙ ap (cons p) h))

      by_entry :
          (o : Option (Target P))
          → find dbname r.manager.targets ≡ o
          → IsPooled opened
              (checked pools cache_ttl dbname
                (is_none o)
                (get_or_make pools cache_ttl dbname o r)).1
      by_entry (some t) e =
          let (info, s) =
            db_info (pools.host t.db) true (record { manager = t.caps; world = r.world }) in
          let t' : Target P = record t { caps = s.manager } in
          after_probe false t r (
            judge-known dbname t' (error_of info.error) _
              (probe_opened t r.world ∙ h ∙ sym (put_same dbname t' t r.manager.targets e refl)))
      by_entry none e = by_make (pools.open_pool dbname r.world) refl e

  close_all-opened :
      (ts : Targets P) (w : W)
      → opened w ≡ pools_of ts
      → opened (close_all pools cache_ttl ts w) ≡ no_pools
  close_all-opened [] w h = h
  close_all-opened ((k, t) ∷ ts) w h =
      close_all-opened ts (pools.close_pool t.db w) (library.closes t.db w (pools_of ts) h)

-- the calls of a manager
pub data Operation : Type 0 where
  gets : Option String → Operation
  switches : String → Operation
  closes : Operation

-- A switch names its database.
abbrev pub IsNamed : Operation → Type 0
IsNamed (gets name) = Unit
IsNamed (switches dbname) = str_eq dbname "" ≡ false
IsNamed closes = Unit

module _ {W P : Type 0} (pools : Pools W P) (cache_ttl : ℕ) where
  abbrev pub step : Operation → Running W P → Running W P
  step (gets name) r = (get pools cache_ttl name r).1
  step (switches dbname) r = (switch pools cache_ttl dbname r).1
  step closes r = close pools cache_ttl r

  unfoldable pub run : List Operation → Running W P → Running W P
  run [] r = r
  run (o ∷ os) r = run os (step o r)

  -- After any calls, failures included, the open pools are those of the table, each exactly once for
  -- its entry: none is lost open, and no entry has a closed one. It holds if it held before, each
  -- switch names its database, and the pool library opens and closes what it is asked to.
  pub run-IsPooled :
      (opened : W → Multiset P) (os : List Operation) (r : Running W P)
      → IsPools pools opened
      → All IsNamed os
      → IsPooled opened r
      → IsPooled opened (run os r)
  unfolding run close
  run-IsPooled opened [] r library named h = h
  run-IsPooled opened (gets name ∷ os) r library named h =
      run-IsPooled opened os _ library named.1
        (get-IsPooled pools cache_ttl opened library name r h)
  run-IsPooled opened (switches dbname ∷ os) r library named h =
      run-IsPooled opened os _ library named.1
        (switch-IsPooled pools cache_ttl opened library dbname r named.0 h)
  run-IsPooled opened (closes ∷ os) r library named h =
      run-IsPooled opened os _ library named.1
        (close_all-opened pools cache_ttl opened library r.manager.targets r.world h)
