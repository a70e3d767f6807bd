-- ===== src/Capabilities/Enforced.antt =====
-- capabilities.py: the report of the tools on offer against the guard of the calls that follow it.
use mcp_postgres.Prelude.{
  ap, subst, ℕ, ◌+◌, ◌≤◌, ◌≡◌, refl, sym, ap₂, ◌∙◌, Bool, true, false, ◌&&◌, ◌||◌, Option, none,
  some, String, List, [], ◌∷◌, arith, all_of, All, any_of,
}
use mcp_postgres.Effect.{Answer, returned, raised}
use mcp_postgres.Capabilities.{
  OsTier, DbInfo, Host, Session, os_tier, db_info, os_lookup, os_checked, db_lookup, probe_os,
  refresh_db, enabled_tools_for,
}
use mcp_postgres.Capabilities.Guard.{guard}
use mcp_postgres.Capabilities.Advertised.{
  Access, always, guarded, either, permits, handlers, listed, agrees, is_listed_as, is_named,
  enabled_tools_for-guards,
}
use mcp_postgres.Capabilities.Report.{CapabilityReport, Live, report, with_os}
use mcp_postgres.Environment.{Platform, probe}
use mcp_postgres.Db.{Server}
use mcp_postgres.Tools.Rows.{Value}
use mcp_postgres.Capabilities.Guard.Cached.{IsEarly, IsFresh, is_allowed, tick, guard-fresh}

All-all_of :
    {A : Type 0} (p : A → Bool) (xs : List A) → all_of p xs ≡ true → All (λ x. p x ≡ true) xs
All-all_of p [] h = tt
All-all_of p (x ∷ xs) h = (ground (arith, h), All-all_of p xs (ground (arith, h)))

and_left : (a b : Bool) → (a && b) ≡ true → a ≡ true
and_left true b h = refl
and_left false b h = h

agrees-same : (a b : Bool) → agrees a b ≡ true → a ≡ b
agrees-same true b h = sym h
agrees-same false b h = ground (arith, h)

module _ {W : Type 0} (host : Host W) (limit : ℕ) (Early : W → Type 0)
    (clock : IsEarly host limit Early) where
  forced_os :
      (s : Session W)
      → os_tier host true s
        ≡ probe_os host (host.monotonic s.world).0 (tick host limit Early clock s)
  unfolding os_tier
  forced_os s = by_cache s.manager.os_cache
    where
      by_cache :
          (c : Option (OsTier × ℕ))
          → os_lookup host true (host.monotonic s.world).0 c (tick host limit Early clock s)
            ≡ probe_os host (host.monotonic s.world).0 (tick host limit Early clock s)
      by_cache none = refl
      by_cache (some (t, since)) = refl

  forced_db :
      (s : Session W)
      → db_info host true s
        ≡ refresh_db host (host.monotonic s.world).0 (tick host limit Early clock s)
  unfolding db_info
  forced_db s = by_cache s.manager.db_cache
    where
      by_cache :
          (c : Option (DbInfo × ℕ))
          → db_lookup host true (host.monotonic s.world).0 c (tick host limit Early clock s)
            ≡ refresh_db host (host.monotonic s.world).0 (tick host limit Early clock s)
      by_cache none = refl
      by_cache (some (info, since)) = refl

  os_checked-cached :
      (now : ℕ) (s : Session W) (p : Answer Bool × W) (t : OsTier) (s1 : Session W)
      → os_checked host now s p ≡ (returned t, s1)
      → (s1.manager.os_cache ≡ some (t, now)) × (s1.manager.cache_ttl ≡ s.manager.cache_ttl)
  os_checked-cached now s (raised e, w) t s1 h = ground (arith, h)
  os_checked-cached now s (returned ok, w) t s1 h = (cc (h), cc (h))

  forced-IsFresh :
      (s s1 : Session W) (t : OsTier) (w : W)
      → os_tier host true s ≡ (returned t, s1)
      → limit ≤ (host.monotonic s.world).0 + s.manager.cache_ttl
      → limit ≤ (host.monotonic s1.world).0 + s.manager.cache_ttl
      → Early w
      → let (info, s2) = db_info host true s1 in
        IsFresh Early limit t info (record s2 { world = w })
  forced-IsFresh s s1 t w o h1 h2 e =
      let now = (host.monotonic s.world).0 in
      let (cached, ttl) =
        os_checked-cached now (tick host limit Early clock s) _ t s1 (sym (forced_os s) ∙ o) in
      rw (forced_db s1) (record {
        os_since = now;
        db_since = (host.monotonic s1.world).0;
        os_cached = cached;
        db_cached = refl;
        os_limit = omega (arith, h1, ttl);
        db_limit = omega (arith, h2, ttl);
        early = e;
      })

  -- whether a call of a handler gets past its guard
  abbrev pub passes : Access → Session W → Bool
  passes always s = true
  passes (guarded req) s = is_allowed (guard host req s).0
  passes (either a b) s = is_allowed (guard host a s).0 || is_allowed (guard host b s).0

  passes-permits :
      (t : OsTier) (info : DbInfo) (a : Access) (s : Session W)
      → IsFresh Early limit t info s
      → passes a s ≡ permits a t info.tier info.capabilities
  passes-permits t info always s f = refl
  passes-permits t info (guarded req) s f = guard-fresh host limit Early clock t info req s f
  passes-permits t info (either a b) s f =
      ap₂ (λ x y. x || y) (guard-fresh host limit Early clock t info a s f)
        (guard-fresh host limit Early clock t info b s f)

  listed_pass :
      (t : OsTier) (info : DbInfo) (s : Session W)
      → IsFresh Early limit t info s
      → (tools : List String) (hs : List (String × Access))
      → All (λ h. is_listed_as t info.tier info.capabilities tools h ≡ true) hs
      → All (λ h. passes h.1 s ≡ listed h.0 tools) hs
  listed_pass t info s f tools [] a = tt
  listed_pass t info s f tools ((name, access) ∷ hs) (h, a) = (
    passes-permits t info access s f
        ∙ agrees-same (permits access t info.tier info.capabilities) (listed name tools) h,
    listed_pass t info s f tools hs a,
  )

  -- The report is enforced: where it comes, and as long as the clock is before the limit, which is
  -- within the time to live of both readings, a call of a handler gets past its guard exactly if the
  -- report lists its tool, whatever has become of the privileges since; so every tool that the
  -- report lists can be called, and no other that has a handler.
  pub report-Enforced :
      (platform : Platform W) (server : Server W Value) (database : String) (l l' : Live W)
      (r : CapabilityReport)
      → let s : Session W = record { manager = l.caps; world = l.process.world } in
        let s1 = (os_tier host true s).1 in
        report host platform server database l ≡ (returned r, l')
        → limit ≤ (host.monotonic l.process.world).0 + l.caps.cache_ttl
        → limit ≤ (host.monotonic s1.world).0 + l.caps.cache_ttl
        → Early l'.process.world
        → All
            (λ h.
              passes h.1 (record { manager = l'.caps; world = l'.process.world })
              ≡ listed h.0 r.enabled_tools)
            handlers
  unfolding report
  report-Enforced platform server database l l' r h h1 h2 e =
      by_reading (os_tier host true s) refl h h1 h2 e
    where
      s : Session W
      s = record { manager = l.caps; world = l.process.world }

      All-listed : Answer CapabilityReport × Live W → Type 0
      All-listed (raised e, l') = Unit
      All-listed (returned r, l') =
          All
            (λ h.
              passes h.1 (record { manager = l'.caps; world = l'.process.world })
              ≡ listed h.0 r.enabled_tools)
            handlers

      by_reading :
          (p : Answer OsTier × Session W)
          → os_tier host true s ≡ p
          → with_os host platform server database l p ≡ (returned r, l')
          → limit ≤ (host.monotonic l.process.world).0 + l.caps.cache_ttl
          → limit ≤ (host.monotonic p.1.world).0 + l.caps.cache_ttl
          → Early l'.process.world
          → All-listed (returned r, l')
      by_reading (raised e, s1) o h h1 h2 k = ground (arith, h)
      by_reading (returned t, s1) o h h1 h2 e =
          let (info, s2) = db_info host true s1 in
          let p = (probe platform server (record l.process { world = s2.world })).1 in
          let same = ap (λ q. q.1) h in
          let f =
            forced-IsFresh s s1 t p.world o h1 h2
              (subst Early (sym (ap (λ (x : Live W). x.process.world) same)) e) in
          let tools = enabled_tools_for t info.tier info.capabilities in
          subst All-listed h (
            listed_pass t info _ f tools handlers (
              All-all_of (is_listed_as t info.tier info.capabilities tools) handlers (
                and_left (all_of (is_listed_as t info.tier info.capabilities tools) handlers)
                  (all_of (λ n. any_of (is_named n) handlers) tools)
                  (enabled_tools_for-guards t info.tier info.capabilities))))
