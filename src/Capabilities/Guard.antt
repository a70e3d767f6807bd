-- ===== src/Capabilities/Guard.antt =====
-- capabilities.py: change notices and the guard.
pub mod Justified
pub mod Notices
pub mod Cached
use mcp_postgres.Prelude.{
  false, Option, none, some, String, str_eq, List, [], ◌∷◌, ◌++◌, not, ltb, ◌==◌, if◌then◌else◌,
  keep,
}
use mcp_postgres.Effect.{Answer, returned, raised}
use mcp_postgres.Capabilities.{
  OsTier, DbTier, os_level, db_level, holds, Host, Session, os_tier, db_info,
}

pub data Notice : Type 0 where
  os_changed : OsTier → OsTier → Notice
  db_changed : DbTier → DbTier → Notice

-- what a CapabilityError says: the minimum and the tier at hand, or the capabilities that are
-- missing and the role that lacks them
pub data Refusal : Type 0 where
  needs_os : OsTier → OsTier → Refusal
  needs_db : DbTier → DbTier → Refusal
  needs_capabilities : List String → String → Refusal

pub data Verdict : Type 0 where
  allowed : List Notice → Verdict
  refused : Refusal → List Notice → Verdict
  -- another exception than a CapabilityError, which takes the notices with it
  broken : String → Verdict

-- the arguments of `guard`
pub record Requirement : Type 0 where
  pub os_min : Option OsTier
  pub db_min : Option DbTier
  pub db_needs : List String

abbrev pub os_notice : Option OsTier → OsTier → List Notice
os_notice none t = []
os_notice (some last) t = if os_level t == os_level last then [] else os_changed last t ∷ []

abbrev pub db_notice : Option DbTier → DbTier → List Notice
db_notice none t = []
db_notice (some last) t = if db_level t == db_level last then [] else db_changed last t ∷ []

-- `role or "mcp"`
abbrev pub role_name : Option String → String
role_name none = "mcp"
role_name (some role) = if str_eq role "" then "mcp" else role

abbrev pub verdict : List Notice → Answer (Option Refusal) → Verdict
verdict notices (returned none) = allowed notices
verdict notices (returned (some r)) = refused r notices
verdict notices (raised e) = broken e

module _ {W : Type 0} (host : Host W) where
  abbrev pub with_os : Answer OsTier × Session W → Answer (List Notice) × Session W
  with_os (raised e, s1) = (raised e, s1)
  with_os (returned os_t, s1) =
      let (info, s2) =
        db_info host false (record s1 { manager = record s1.manager { last_os = some os_t } }) in
      (
        returned (os_notice s1.manager.last_os os_t ++ db_notice s2.manager.last_db info.tier),
        record s2 { manager = record s2.manager { last_db = some info.tier } },
      )

  unfoldable pub detect_changes : Session W → Answer (List Notice) × Session W
  detect_changes s = with_os (os_tier host false s)

  abbrev pub os_below : OsTier → Answer OsTier × Session W → Answer (Option Refusal) × Session W
  os_below os_min (raised e, s) = (raised e, s)
  os_below os_min (returned cur, s) = (
    returned (if ltb (os_level cur) (os_level os_min) then some (needs_os os_min cur) else none),
    s,
  )

  abbrev pub check_os : Option OsTier → Session W → Answer (Option Refusal) × Session W
  check_os none s = (returned none, s)
  check_os (some os_min) s = os_below os_min (os_tier host false s)

  abbrev pub check_db : Option DbTier → Session W → Option Refusal × Session W
  check_db none s = (none, s)
  check_db (some db_min) s =
      let (info, s') = db_info host false s in
      (
        if ltb (db_level info.tier) (db_level db_min)
            then some (needs_db db_min info.tier)
            else none,
        s',
      )

  abbrev pub lacking : List String → Session W → Option Refusal × Session W
  lacking [] s = (none, s)
  lacking (c ∷ cs) s =
      let (info, s') = db_info host false s in
      (some (needs_capabilities (c ∷ cs) (role_name info.role)), s')

  abbrev pub check_needs : List String → Session W → Option Refusal × Session W
  check_needs [] s = (none, s)
  check_needs (c ∷ cs) s =
      let (info, s') = db_info host false s in
      lacking (keep (λ n. not (holds info.capabilities n)) (c ∷ cs)) s'

  -- The next check runs unless this one has refused.
  abbrev pub and_then :
      Option Refusal × Session W
      → (Session W → Option Refusal × Session W)
      → Option Refusal × Session W
  and_then (none, s) next = next s
  and_then (some r, s) next = (some r, s)

  abbrev pub after_os :
      Requirement → Answer (Option Refusal) × Session W → Answer (Option Refusal) × Session W
  after_os req (raised e, s) = (raised e, s)
  after_os req (returned r, s) =
      let (r', s') =
        and_then (r, s) (λ s1. and_then (check_db req.db_min s1) (check_needs req.db_needs)) in
      (returned r', s')

  abbrev pub checks : Requirement → Session W → Answer (Option Refusal) × Session W
  checks req s = after_os req (check_os req.os_min s)

  abbrev pub checked : Requirement → Answer (List Notice) × Session W → Verdict × Session W
  checked req (raised e, s) = (broken e, s)
  checked req (returned notices, s1) = let (r, s2) = checks req s1 in (verdict notices r, s2)

  unfoldable pub guard : Requirement → Session W → Verdict × Session W
  guard req s = checked req (detect_changes s)
