-- ===== src/Capabilities/Guard/Notices.antt =====
-- The notices of the guard are the changes of the tiers, in order and without a gap.
use mcp_postgres.Effect.{Answer, returned, raised}
use mcp_postgres.Prelude.{
  subst, sym, ◌≡◌, refl, false, ltb, inl, inr, Bool-cases, String, keep, ◌∙◌, ap, Option, none,
  some, List, [], ◌∷◌, ◌++◌, append_assoc, not, ◌&&◌, ◌==◌, if◌then◌else◌,
}
use mcp_postgres.Capabilities.{
  OsTier, os_none, os_config, DbTier, db_readonly, db_readwrite, db_admin, os_level, db_level, Host,
  CapabilityManager, Session, holds, os_tier, db_info,
}
use mcp_postgres.Capabilities.Probe.{Reading, DbRead, os_tier-Reading, db_info-DbRead}
use mcp_postgres.Capabilities.Guard.{
  Notice, os_changed, db_changed, os_notice, db_notice, Verdict, allowed, refused, broken, os_below,
  with_os, check_os, after_os, checked, Requirement, detect_changes, guard, check_db, check_needs,
  lacking, checks, verdict, and_then, Refusal,
}

-- The tiers after the changes, if each starts from the tier that was reached and leaves it.
abbrev pub replay : List Notice → OsTier → DbTier → Option (OsTier × DbTier)
replay [] os db = some (os, db)
replay (os_changed a b ∷ ns) os db =
    let rest = replay ns b db in
    if os_level a == os_level os && not (os_level a == os_level b) then rest else none
replay (db_changed a b ∷ ns) os db =
    let rest = replay ns os b in
    if db_level a == db_level db && not (db_level a == db_level b) then rest else none

abbrev pub notices_of : Verdict → List Notice
notices_of (allowed notices) = notices
notices_of (refused r notices) = notices
notices_of (broken e) = []

replay-os_notice :
    (a t : OsTier) (b : DbTier) (ns : List Notice)
    → replay (os_notice (some a) t ++ ns) a b ≡ replay ns t b
replay-os_notice os_none os_none b ns = refl
replay-os_notice os_none os_config b ns = refl
replay-os_notice os_config os_none b ns = refl
replay-os_notice os_config os_config b ns = refl

replay-db_notice :
    (a : OsTier) (b t : DbTier) (ns : List Notice)
    → replay (db_notice (some b) t ++ ns) a b ≡ replay ns a t
replay-db_notice a db_readonly db_readonly ns = refl
replay-db_notice a db_readonly db_readwrite ns = refl
replay-db_notice a db_readonly db_admin ns = refl
replay-db_notice a db_readwrite db_readonly ns = refl
replay-db_notice a db_readwrite db_readwrite ns = refl
replay-db_notice a db_readwrite db_admin ns = refl
replay-db_notice a db_admin db_readonly ns = refl
replay-db_notice a db_admin db_readwrite ns = refl
replay-db_notice a db_admin db_admin ns = refl

replayed :
    {last_os : Option OsTier} {last_db : Option DbTier} {os : OsTier} {db : DbTier}
    → last_os ≡ some os
    → last_db ≡ some db
    → (os' : OsTier) (db' : DbTier) (ns : List Notice)
    → replay ((os_notice last_os os' ++ db_notice last_db db') ++ ns) os db ≡ replay ns os' db'
replayed {os} {db} p q os' db' ns =
    rw (p, q)
      (ap (λ l. replay l os db)
          (append_assoc (os_notice (some os) os') (db_notice (some db) db') ns)
        ∙ replay-os_notice os os' db (db_notice (some db) db' ++ ns)
        ∙ replay-db_notice os' db db' ns)

-- The manager has last seen these tiers.
pub record Seen (os : OsTier) (db : DbTier) (m : CapabilityManager) : Type 0 where
  pub last_os : m.last_os ≡ some os
  pub last_db : m.last_db ≡ some db

module _ {W : Type 0} (host : Host W) (os : OsTier) (db : DbTier) where
  Reading-Seen :
      (a : Answer OsTier) (m m' : CapabilityManager) → Reading a m m' → Seen os db m → Seen os db m'
  Reading-Seen (returned t) m m' got h = record {
    last_os = got.last_os ∙ h.last_os;
    last_db = got.last_db ∙ h.last_db;
  }
  Reading-Seen (raised e) m m' got h = subst (Seen os db) (sym got) h

  db_info-Seen :
      (s : Session W)
      → Seen os db s.manager
      → let (info, s') = db_info host false s in Seen os db s'.manager
  db_info-Seen s h =
      let (info, s') = db_info host false s in
      let got : DbRead info s.manager s'.manager = db_info-DbRead host false s in
      record { last_os = got.last_os ∙ h.last_os; last_db = got.last_db ∙ h.last_db }

  lacking-Seen :
      (missing : List String) (s : Session W)
      → Seen os db s.manager
      → let (r, s') = lacking host missing s in Seen os db s'.manager
  lacking-Seen [] s h = h
  lacking-Seen (c ∷ cs) s h = db_info-Seen s h

  check_needs-Seen :
      (needs : List String) (s : Session W)
      → Seen os db s.manager
      → let (r, s') = check_needs host needs s in Seen os db s'.manager
  check_needs-Seen [] s h = h
  check_needs-Seen (c ∷ cs) s h =
      let (info, s') = db_info host false s in
      lacking-Seen (keep (λ n. not (holds info.capabilities n)) (c ∷ cs)) s' (db_info-Seen s h)

  check_db-Seen :
      (db_min : Option DbTier) (needs : List String) (s : Session W)
      → Seen os db s.manager
      → let (r, s') = and_then host (check_db host db_min s) (check_needs host needs) in
        Seen os db s'.manager
  check_db-Seen none needs s h = check_needs-Seen needs s h
  check_db-Seen (some t) needs s h =
      let (info, s') = db_info host false s in
      elim (Bool-cases (ltb (db_level info.tier) (db_level t))) [
        | inl e ↦ rw e (db_info-Seen s h)
        | inr e ↦ rw e (check_needs-Seen needs s' (db_info-Seen s h))
      ]

  check_os-Seen :
      (os_min : Option OsTier) (s : Session W)
      → Seen os db s.manager
      → Seen os db (check_os host os_min s).1.manager
  check_os-Seen none s h = h
  check_os-Seen (some t) s h =
      let (a, s') = os_tier host false s in
      below a s' (Reading-Seen a s.manager s'.manager (os_tier-Reading host false s) h)
    where
      below :
          (a : Answer OsTier) (s' : Session W)
          → Seen os db s'.manager
          → Seen os db (os_below host t (a, s')).1.manager
      below (raised e) s' k = k
      below (returned cur) s' k = k

  after_os-Seen :
      (req : Requirement) (p : Answer (Option Refusal) × Session W)
      → Seen os db p.1.manager
      → Seen os db (after_os host req p).1.manager
  after_os-Seen req (raised e, s) h = h
  after_os-Seen req (returned none, s) h = check_db-Seen req.db_min req.db_needs s h
  after_os-Seen req (returned (some r), s) h = h

module _ {W : Type 0} (host : Host W) where
  -- What was seen, and the notices that lead there; nothing is claimed where an exception came.
  abbrev Reached : OsTier → DbTier → List Notice → Session W → Type 0
  Reached os db ns s' =
      (os' : OsTier) × (db' : DbTier) × Seen os' db' s'.manager
      × ((more : List Notice) → replay (ns ++ more) os db ≡ replay more os' db')

  abbrev Detected : OsTier → DbTier → Answer (List Notice) × Session W → Type 0
  Detected os db (raised e, s') = Unit
  Detected os db (returned ns, s') = Reached os db ns s'

  with_os-Detected :
      (os : OsTier) (db : DbTier) (a : Answer OsTier) (s s1 : Session W)
      → Seen os db s.manager
      → Reading a s.manager s1.manager
      → Detected os db (with_os host (a, s1))
  with_os-Detected os db (raised e) s s1 h got = tt
  with_os-Detected os db (returned os_t) s s1 h got =
      let noted = record s1 { manager = record s1.manager { last_os = some os_t } } in
      let (info, s2) = db_info host false noted in
      let got2 : DbRead info noted.manager s2.manager = db_info-DbRead host false noted in
      (
        os_t,
        info.tier,
        record { last_os = got2.last_os; last_db = refl },
        replayed (got.last_os ∙ h.last_os) (got2.last_db ∙ got.last_db ∙ h.last_db) os_t info.tier,
      )

  -- The verdict of a guard, and the notices that it gives.
  abbrev Noticed : OsTier → DbTier → Verdict × Session W → Type 0
  Noticed os db (broken e, s') = Unit
  Noticed os db (allowed ns, s') = Reached os db ns s'
  Noticed os db (refused r ns, s') = Reached os db ns s'

  by_verdict :
      (os : OsTier) (db : DbTier) (ns : List Notice) (a : Answer (Option Refusal)) (s' : Session W)
      → Reached os db ns s'
      → Noticed os db (verdict ns a, s')
  by_verdict os db ns (raised e) s' h = tt
  by_verdict os db ns (returned none) s' h = h
  by_verdict os db ns (returned (some r)) s' h = h

  checked-Noticed :
      (req : Requirement) (os : OsTier) (db : DbTier) (p : Answer (List Notice) × Session W)
      → Detected os db p
      → Noticed os db (checked host req p)
  checked-Noticed req os db (raised e, s) h = tt
  checked-Noticed req os db (returned ns, s) (os', db', seen, e) =
      by_verdict os db ns (checks host req s).0 (checks host req s).1 (
        os',
        db',
        after_os-Seen host os' db' req (check_os host req.os_min s)
            (check_os-Seen host os' db' req.os_min s seen),
        e,
      )

  guard-Noticed :
      (req : Requirement) (os : OsTier) (db : DbTier) (s : Session W)
      → Seen os db s.manager
      → Noticed os db (guard host req s)
  unfolding guard detect_changes
  guard-Noticed req os db s h =
      let (a, s1) = os_tier host false s in
      checked-Noticed req os db (with_os host (a, s1))
        (with_os-Detected os db a s s1 h (os_tier-Reading host false s))

  abbrev pub add_notices :
      List Notice → Answer (List Notice) × Session W → Answer (List Notice) × Session W
  add_notices ns (raised e, s) = (raised e, s)
  add_notices ns (returned more, s) = (returned (ns ++ more), s)

  abbrev pub guards_after :
      (Session W → Answer (List Notice) × Session W)
      → Verdict × Session W
      → Answer (List Notice) × Session W
  guards_after next (allowed ns, s) = add_notices ns (next s)
  guards_after next (refused r ns, s) = add_notices ns (next s)
  guards_after next (broken e, s) = (raised e, s)

  -- a sequence of guarded actions, and all the notices that they are given, up to an exception
  unfoldable pub guards : List Requirement → Session W → Answer (List Notice) × Session W
  guards [] s = (returned [], s)
  guards (req ∷ reqs) s = guards_after (guards reqs) (guard host req s)

  abbrev Told : OsTier → DbTier → Answer (List Notice) × Session W → Type 0
  Told os db (raised e, s') = Unit
  Told os db (returned ns, s') =
      (os' : OsTier) × (db' : DbTier) × Seen os' db' s'.manager
      × (replay ns os db ≡ some (os', db'))

  add_notices-Told :
      (os : OsTier) (db : DbTier) (first : List Notice) (s1 : Session W)
      (p : Answer (List Notice) × Session W)
      → Reached os db first s1
      → ((os1 : OsTier) (db1 : DbTier) → Seen os1 db1 s1.manager → Told os1 db1 p)
      → Told os db (add_notices first p)
  add_notices-Told os db first s1 (raised x, s2) r next = tt
  add_notices-Told os db first s1 (returned more, s2) (os1, db1, seen, e) next =
      let (os', db', seen', e') = next os1 db1 seen in (os', db', seen', e more ∙ e')

  guards_after-Told :
      (os : OsTier) (db : DbTier) (next : Session W → Answer (List Notice) × Session W)
      (p : Verdict × Session W)
      → ((os1 : OsTier) (db1 : DbTier) (s1 : Session W)
          → Seen os1 db1 s1.manager
          → Told os1 db1 (next s1))
      → Noticed os db p
      → Told os db (guards_after next p)
  guards_after-Told os db next (allowed first, s1) ih r =
      add_notices-Told os db first s1 (next s1) r (λ os1 db1. ih os1 db1 s1)
  guards_after-Told os db next (refused x first, s1) ih r =
      add_notices-Told os db first s1 (next s1) r (λ os1 db1. ih os1 db1 s1)
  guards_after-Told os db next (broken x, s1) ih r = tt

  guards-Told :
      (reqs : List Requirement) (os : OsTier) (db : DbTier) (s : Session W)
      → Seen os db s.manager
      → Told os db (guards reqs s)
  unfolding guards
  guards-Told [] os db s h = (os, db, h, refl)
  guards-Told (req ∷ reqs) os db s h =
      guards_after-Told os db (guards reqs) (guard host req s) (guards-Told reqs)
        (guard-Noticed req os db s h)

  -- Whoever applies the notices of a sequence of guarded actions, allowed or refused, to the tiers
  -- that the manager had last seen knows the tiers that it has seen in the end: each notice leaves
  -- the tier that was reached before it, and none repeats that tier. No guard of the sequence ends
  -- in another exception than a refusal, which would take its notices with it.
  pub guard_notices :
      (reqs : List Requirement) (os : OsTier) (db : DbTier) (s s' : Session W) (ns : List Notice)
      → Seen os db s.manager
      → guards reqs s ≡ (returned ns, s')
      → (os' : OsTier) × (db' : DbTier) × Seen os' db' s'.manager
        × (replay ns os db ≡ some (os', db'))
  guard_notices reqs os db s s' ns h e = subst (Told os db) e (guards-Told reqs os db s h)
