-- ===== src/Capabilities/Guard/Cached.antt =====
-- capabilities.py: the guard while both tiers are cached and young.
use mcp_postgres.Prelude.{
  ℕ, ◌+◌, ◌≤◌, ◌<◌, ◌≡◌, refl, sym, ap, subst, ◌∙◌, Bool, true, false, not, ◌&&◌, Option, none,
  some, String, List, [], ◌∷◌, arith, keep, all_of, is_none, is_nil,
}
use mcp_postgres.Effect.{returned}
use mcp_postgres.Capabilities.{
  OsTier, DbTier, DbInfo, Host, Session, os_tier, db_info, holds, os_lookup, db_lookup,
}
use mcp_postgres.Capabilities.Guard.{
  Notice, Refusal, Verdict, allowed, refused, broken, os_below, with_os, checked, after_os,
  Requirement, guard, detect_changes, check_os, check_db, check_needs, lacking, verdict, and_then,
}
use mcp_postgres.Capabilities.Advertised.{meets, os_meets, db_meets}

-- From a world in which `Early` holds, every reading of the clock is before the limit.
pub record IsEarly {W : Type 0} (host : Host W) (limit : ℕ) (Early : W → Type 0) : Type 0 where
  pub reads : (w : W) → Early w → (host.monotonic w).0 < limit
  pub keeps : (w : W) → Early w → Early (host.monotonic w).1

-- Both readings are cached, and good until the limit.
pub record IsFresh {W : Type 0} (Early : W → Type 0) (limit : ℕ) (t : OsTier) (info : DbInfo)
    (s : Session W) : Type 0 where
  pub os_since : ℕ
  pub db_since : ℕ
  pub os_cached : s.manager.os_cache ≡ some (t, os_since)
  pub db_cached : s.manager.db_cache ≡ some (info, db_since)
  pub os_limit : limit ≤ os_since + s.manager.cache_ttl
  pub db_limit : limit ≤ db_since + s.manager.cache_ttl
  pub early : Early s.world

is_nil-keep :
    {A : Type 0} (p : A → Bool) (xs : List A) → is_nil (keep (λ x. not (p x)) xs) ≡ all_of p xs
is_nil-keep p [] = refl
is_nil-keep p (x ∷ xs) = ground (arith, is_nil-keep p xs)

abbrev pub is_allowed : Verdict → Bool
is_allowed (allowed ns) = true
is_allowed (refused r ns) = false
is_allowed (broken e) = false

is_allowed-verdict :
    (ns : List Notice) (o : Option Refusal) → is_allowed (verdict ns (returned o)) ≡ is_none o
is_allowed-verdict ns none = refl
is_allowed-verdict ns (some r) = refl

module _ {W : Type 0} (host : Host W) (limit : ℕ) (Early : W → Type 0)
    (clock : IsEarly host limit Early) where
  -- a session whose clock was read
  abbrev pub tick : Session W → Session W
  tick s = record s { world = (host.monotonic s.world).1 }

  os_lookup-young :
      (t : OsTier) (now since : ℕ) (s : Session W)
      → now < since + s.manager.cache_ttl
      → os_lookup host false now (some (t, since)) s ≡ (returned t, s)
  os_lookup-young t now since s h = ground arith

  db_lookup-young :
      (info : DbInfo) (now since : ℕ) (s : Session W)
      → now < since + s.manager.cache_ttl
      → db_lookup host false now (some (info, since)) s ≡ (info, s)
  db_lookup-young info now since s h = ground arith

  module _ (t : OsTier) (info : DbInfo) where
    tick-IsFresh :
        (s : Session W) → IsFresh Early limit t info s → IsFresh Early limit t info (tick s)
    tick-IsFresh s f = record {
      os_since = f.os_since;
      db_since = f.db_since;
      os_cached = f.os_cached;
      db_cached = f.db_cached;
      os_limit = f.os_limit;
      db_limit = f.db_limit;
      early = clock.keeps s.world f.early;
    }

    -- What was reported last plays no part.
    marked-IsFresh :
        (o : Option OsTier) (d : Option DbTier) (s : Session W)
        → IsFresh Early limit t info s
        → IsFresh Early limit t info
            (record s { manager = record s.manager { last_os = o; last_db = d } })
    marked-IsFresh o d s f = record {
      os_since = f.os_since;
      db_since = f.db_since;
      os_cached = f.os_cached;
      db_cached = f.db_cached;
      os_limit = f.os_limit;
      db_limit = f.db_limit;
      early = f.early;
    }

    os_tier-fresh :
        (s : Session W) → IsFresh Early limit t info s → os_tier host false s ≡ (returned t, tick s)
    unfolding os_tier
    os_tier-fresh s f =
        let now = (host.monotonic s.world).0 in
        ap (λ c. os_lookup host false now c (tick s)) f.os_cached
        ∙ os_lookup-young t now f.os_since (tick s)
            (omega (arith, clock.reads s.world f.early, f.os_limit))

    db_info-fresh :
        (s : Session W) → IsFresh Early limit t info s → db_info host false s ≡ (info, tick s)
    unfolding db_info
    db_info-fresh s f =
        let now = (host.monotonic s.world).0 in
        ap (λ c. db_lookup host false now c (tick s)) f.db_cached
        ∙ db_lookup-young info now f.db_since (tick s)
            (omega (arith, clock.reads s.world f.early, f.db_limit))

    -- A check of what the readings meet, which leaves them fresh.
    abbrev Checked : Bool → Option Refusal × Session W → Type 0
    Checked b p = (is_none p.0 ≡ b) × IsFresh Early limit t info p.1

    check_os-Checked :
        (m : Option OsTier) (s : Session W)
        → IsFresh Early limit t info s
        → (r : Option Refusal) × (s' : Session W) × (check_os host m s ≡ (returned r, s'))
          × Checked (os_meets m t) (r, s')
    check_os-Checked none s f = (none, s, refl, (refl, f))
    check_os-Checked (some os_min) s f =
        (_, tick s, ap (os_below host os_min) (os_tier-fresh s f), (ground arith, tick-IsFresh s f))

    check_db-Checked :
        (m : Option DbTier) (s : Session W)
        → IsFresh Early limit t info s
        → Checked (db_meets m info.tier) (check_db host m s)
    check_db-Checked none s f = (refl, f)
    check_db-Checked (some db_min) s f = rw (db_info-fresh s f) (ground arith, tick-IsFresh s f)

    lacking-Checked :
        (cs : List String) (s : Session W)
        → IsFresh Early limit t info s
        → Checked (is_nil cs) (lacking host cs s)
    lacking-Checked [] s f = (refl, f)
    lacking-Checked (c ∷ cs) s f = rw (db_info-fresh s f) (refl, tick-IsFresh s f)

    check_needs-Checked :
        (cs : List String) (s : Session W)
        → IsFresh Early limit t info s
        → Checked (all_of (holds info.capabilities) cs) (check_needs host cs s)
    check_needs-Checked [] s f = (refl, f)
    check_needs-Checked (c ∷ cs) s f =
        let missing = keep (λ n. not (holds info.capabilities n)) (c ∷ cs) in
        let l = lacking-Checked missing (tick s) (tick-IsFresh s f) in
        subst after_reading (sym (db_info-fresh s f))
          (l.0 ∙ is_nil-keep (holds info.capabilities) (c ∷ cs), l.1)
      where
        after_reading : DbInfo × Session W → Type 0
        after_reading (i, s') =
            Checked (all_of (holds info.capabilities) (c ∷ cs))
              (lacking host (keep (λ n. not (holds i.capabilities n)) (c ∷ cs)) s')

    and_then-Checked :
        (b c : Bool) (p : Option Refusal × Session W)
        (next : Session W → Option Refusal × Session W)
        → Checked b p
        → ((s : Session W) → IsFresh Early limit t info s → Checked c (next s))
        → Checked (b && c) (and_then host p next)
    and_then-Checked b c (none, s) next h k = subst (λ x. Checked (x && c) (next s)) h.0 (k s h.1)
    and_then-Checked b c (some r, s) next h k = (ground arith, h.1)

    detect_changes-IsFresh :
        (s : Session W)
        → IsFresh Early limit t info s
        → (ns : List Notice) × (s' : Session W) × (detect_changes host s ≡ (returned ns, s'))
          × IsFresh Early limit t info s'
    unfolding detect_changes
    detect_changes-IsFresh s f =
        let s1 = record s {
          manager = record s.manager { last_os = some t };
          world = (host.monotonic s.world).1;
        } in
        let f1 = marked-IsFresh (some t) s.manager.last_db (tick s) (tick-IsFresh s f) in
        (
          _,
          _,
          ap (with_os host) (os_tier-fresh s f),
          rw (db_info-fresh s1 f1)
              (marked-IsFresh (some t) (some info.tier) (tick s1) (tick-IsFresh s1 f1)),
        )

    pub guard-fresh :
        (req : Requirement) (s : Session W)
        → IsFresh Early limit t info s
        → is_allowed (guard host req s).0 ≡ meets req t info.tier info.capabilities
    unfolding guard
    guard-fresh req s f =
        let (ns, s1, e1, f1) = detect_changes-IsFresh s f in
        let (r, s2, e2, c2) = check_os-Checked req.os_min s1 f1 in
        let c =
          and_then-Checked (os_meets req.os_min t) _ (r, s2) _ c2
            (λ s3 f3.
              and_then-Checked _ _ (check_db host req.db_min s3) _
                (check_db-Checked req.db_min s3 f3) (check_needs-Checked req.db_needs)) in
        ap (λ p. is_allowed (checked host req p).0) e1
        ∙ ap (λ p. is_allowed (verdict ns (after_os host req p).0)) e2
        ∙ is_allowed-verdict ns _
        ∙ c.0
