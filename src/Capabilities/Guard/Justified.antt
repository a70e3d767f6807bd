-- ===== src/Capabilities/Guard/Justified.antt =====
-- The verdict of the guard, held against the readings that the manager has cached at the end.
use mcp_postgres.Effect.{Answer, returned, raised}
use mcp_postgres.Prelude.{
  ℕ, ◌≤◌, ◌<◌, ◌≡◌, ◌≢◌, refl, Bool, true, false, Option, none, some, String, List, [], ◌∷◌, not,
  ltb, keep, all_of, inl, inr, Bool-cases, ltb→lt, ltb→le, arith, sym, subst,
}
use mcp_postgres.Capabilities.{
  OsTier, DbTier, os_level, db_level, holds, DbInfo, Host, Session, os_tier, db_info,
}
use mcp_postgres.Capabilities.Probe.{Reading, DbRead, os_tier-Reading, db_info-DbRead}
use mcp_postgres.Capabilities.Guard.{
  Notice, Refusal, needs_os, needs_db, needs_capabilities, Verdict, allowed, refused, broken,
  os_below, check_os, after_os, checked, Requirement, detect_changes, guard, check_db, check_needs,
  lacking, verdict, and_then, role_name,
}

-- A cached reading of the tier reaches the minimum.
abbrev pub OsMeets : Option OsTier → Option (OsTier × ℕ) → Type 0
OsMeets none cache = Unit {0}
OsMeets (some os_min) cache =
    (t : OsTier) × (since : ℕ) × (cache ≡ some (t, since)) × (os_level os_min ≤ os_level t)

abbrev pub DbMeets : Option DbTier → Option (DbInfo × ℕ) → Type 0
DbMeets none cache = Unit {0}
DbMeets (some db_min) cache =
    (info : DbInfo) × (since : ℕ) × (cache ≡ some (info, since))
    × (db_level db_min ≤ db_level info.tier)

abbrev pub NeedsMet : List String → Option (DbInfo × ℕ) → Type 0
NeedsMet [] cache = Unit {0}
NeedsMet (c ∷ cs) cache =
    (info : DbInfo) × (since : ℕ) × (cache ≡ some (info, since))
    × (all_of (holds info.capabilities) (c ∷ cs) ≡ true)

-- No refusal: the caches meet what was required. A refusal: what it says is so.
-- A refusal for capabilities ends with two readings, which of a young cache are the same one: it
-- names what the first does not hold, and the role of the second.
abbrev pub Justified :
    {W : Type 0}
    → Host W
    → Option OsTier
    → Option DbTier
    → List String
    → Option Refusal
    → Session W
    → Type 0
Justified host os_min db_min needs none s =
    OsMeets os_min s.manager.os_cache
    × NeedsMet needs s.manager.db_cache
    × (needs ≡ [] → DbMeets db_min s.manager.db_cache)
Justified host os_min db_min needs (some (needs_os t cur)) s =
    (os_min ≡ some t)
    × (os_level cur < os_level t)
    × ((since : ℕ) × (s.manager.os_cache ≡ some (cur, since)))
Justified host os_min db_min needs (some (needs_db t cur)) s =
    (db_min ≡ some t)
    × (db_level cur < db_level t)
    × ((info : DbInfo) × (since : ℕ) × (s.manager.db_cache ≡ some (info, since))
        × (info.tier ≡ cur))
Justified {W} host os_min db_min needs (some (needs_capabilities missing role)) s =
    (missing ≢ [])
    × ((s0 : Session W) × let (info, s1) = db_info host false s0 in
          let (again, s2) = db_info host false s1 in
          (s ≡ s2)
          × (keep (λ c. not (holds info.capabilities c)) needs ≡ missing)
          × (role_name again.role ≡ role))

-- of a verdict; another exception than a refusal says nothing of the tiers
abbrev pub IsJustified : {W : Type 0} → Host W → Requirement → Verdict → Session W → Type 0
IsJustified host req (allowed ns) s = Justified host req.os_min req.db_min req.db_needs none s
IsJustified host req (refused r ns) s = Justified host req.os_min req.db_min req.db_needs (some r) s
IsJustified host req (broken e) s = Unit {0}

keep-none {ℓ} :
    {A : Type ℓ} (p : A → Bool) (xs : List A) → keep (λ x. not (p x)) xs ≡ [] → all_of p xs ≡ true
keep-none p [] h = refl
keep-none p (x ∷ xs) h = ground (arith, keep-none p xs)

module _ {W : Type 0} (host : Host W) (os_min : Option OsTier) where
  lacking-Justified :
      (db_min : Option DbTier) (c : String) (cs missing : List String) (since : ℕ) (s0 : Session W)
      → let (info, s) = db_info host false s0 in
        OsMeets os_min s.manager.os_cache
        → s.manager.db_cache ≡ some (info, since)
        → keep (λ n. not (holds info.capabilities n)) (c ∷ cs) ≡ missing
        → let (r, s') = lacking host missing s in Justified host os_min db_min (c ∷ cs) r s'
  lacking-Justified db_min c cs [] since s0 o d h =
      let (info, s) = db_info host false s0 in
      (o, (info, since, d, keep-none (holds info.capabilities) (c ∷ cs) h), λ e. cc (e))
  lacking-Justified db_min c cs (x ∷ xs) since s0 o d h = (λ e. cc (e), (s0, (refl, h, refl)))

  check_needs-Justified :
      (db_min : Option DbTier) (needs : List String) (s : Session W)
      → OsMeets os_min s.manager.os_cache
      → DbMeets db_min s.manager.db_cache
      → let (r, s') = check_needs host needs s in Justified host os_min db_min needs r s'
  check_needs-Justified db_min [] s o d = (o, tt, λ e. d)
  check_needs-Justified db_min (c ∷ cs) s o d =
      let (info, s') = db_info host false s in
      let got : DbRead info s.manager s'.manager = db_info-DbRead host false s in
      lacking-Justified db_min c cs (keep (λ n. not (holds info.capabilities n)) (c ∷ cs)) got.since
        s (subst (OsMeets os_min) (sym got.os_cache) o) got.cached refl

  check_db-Justified :
      (db_min : Option DbTier) (needs : List String) (s : Session W)
      → OsMeets os_min s.manager.os_cache
      → let (r, s') = and_then host (check_db host db_min s) (check_needs host needs) in
        Justified host os_min db_min needs r s'
  check_db-Justified none needs s o = check_needs-Justified none needs s o tt
  check_db-Justified (some t) needs s o =
      let (info, s') = db_info host false s in
      let got : DbRead info s.manager s'.manager = db_info-DbRead host false s in
      elim (Bool-cases (ltb (db_level info.tier) (db_level t))) [
        | inl e ↦
            rw e (
              refl,
              ltb→lt (db_level info.tier) (db_level t) e,
              (info, got.since, got.cached, refl),
            )
        | inr e ↦ rw e (
            check_needs-Justified (some t) needs s' (subst (OsMeets os_min) (sym got.os_cache) o)
              (info, got.since, got.cached, ltb→le (db_level info.tier) (db_level t) e))
      ]

module _ {W : Type 0} (host : Host W) where
  abbrev OsJustified : Requirement → List Notice → Answer (Option Refusal) × Session W → Type 0
  OsJustified req ns p = let (a, s') = after_os host req p in IsJustified host req (verdict ns a) s'

  by_refusal :
      (req : Requirement) (ns : List Notice) (r : Option Refusal) (s' : Session W)
      → Justified host req.os_min req.db_min req.db_needs r s'
      → IsJustified host req (verdict ns (returned r)) s'
  by_refusal req ns none s' h = h
  by_refusal req ns (some r) s' h = h

  check_os-Justified :
      (os_min : Option OsTier) (db_min : Option DbTier) (needs : List String) (ns : List Notice)
      (s : Session W)
      → OsJustified
          (record { os_min = os_min; db_min = db_min; db_needs = needs })
          ns
          (check_os host os_min s)
  check_os-Justified none db_min needs ns s =
      by_refusal (record { os_min = none; db_min = db_min; db_needs = needs }) ns _ _
        (check_db-Justified host none db_min needs s tt)
  check_os-Justified (some t) db_min needs ns s =
      let (a, s') = os_tier host false s in below a s' (os_tier-Reading host false s)
    where
      req : Requirement
      req = record { os_min = some t; db_min = db_min; db_needs = needs }

      below :
          (a : Answer OsTier) (s' : Session W)
          → Reading a s.manager s'.manager
          → OsJustified req ns (os_below host t (a, s'))
      below (raised e) s' got = tt
      below (returned cur) s' got = elim (Bool-cases (ltb (os_level cur) (os_level t))) [
        | inl e ↦ rw e (refl, ltb→lt (os_level cur) (os_level t) e, (got.since, got.cached))
        | inr e ↦ rw e (
            by_refusal req ns _ _ (
              check_db-Justified host (some t) db_min needs s'
                (cur, got.since, got.cached, ltb→le (os_level cur) (os_level t) e)))
      ]

  checked-Justified :
      (req : Requirement) (p : Answer (List Notice) × Session W)
      → let (v, s') = checked host req p in IsJustified host req v s'
  checked-Justified req (raised e, s) = tt
  checked-Justified req (returned ns, s) =
      check_os-Justified req.os_min req.db_min req.db_needs ns s

  -- A verdict is justified by what is cached when it is given. Where it allows the action, the OS
  -- tier reaches the minimum and every capability is held, and so does the DB tier where no
  -- capabilities are asked for. Where it refuses for a tier, that tier was required and the cached
  -- one, which it names, falls short; where it refuses for capabilities, it names those of the
  -- required ones, at least one, that the reading of the guard does not hold, and the role of the
  -- reading that follows, which is the cached one.
  pub guard-Justified :
      (req : Requirement) (s : Session W)
      → let (v, s') = guard host req s in IsJustified host req v s'
  unfolding guard
  guard-Justified req s = checked-Justified req (detect_changes host s)
