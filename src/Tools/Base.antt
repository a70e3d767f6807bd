-- ===== src/Tools/Base.antt =====
-- tools/base.py: the guard of a handler and the stamp on its result; what a handler works with.
use mcp_postgres.Prelude.{ℕ, String, List, max, min}
use mcp_postgres.PyText.{Text}
use mcp_postgres.Effect.{Answer, returned, raised, Call}
use mcp_postgres.Capabilities.{Host, Session}
use mcp_postgres.Capabilities.Guard.{
  Notice, Refusal, Verdict, allowed, refused, broken, Requirement, guard,
}
use mcp_postgres.Db.{Server}
use mcp_postgres.Priv.Client.{Subprocess}

-- an integer of the caller; `negsuc n` is -(n + 1)
pub data ℤ : Type 0 where
  pos : ℕ → ℤ
  negsuc : ℕ → ℤ

-- `max(1, min(n, most))`, for a positive `most`
unfoldable pub clamp : ℕ → ℤ → ℕ
clamp most (pos n) = max 1 (min n most)
clamp most (negsuc n) = 1

-- the context of the handlers, for one target database
pub record Service (W A : Type 0) : Type 0 where
  pub host : Host W
  pub server : Server W A
  pub run : Subprocess W
  pub helper : Text
  pub exit_text : ℕ → Text
  pub dbname : String

-- why a result is not ok, other than a refusal
pub data Problem : Type 0 where
  no_path no_statements own_backend : Problem
  helper_error : Text → Problem
  other : String → Problem

pub data Report (B : Type 0) : Type 0 where
  not_allowed : Refusal → Report B
  failed : Problem → Report B
  done : B → Report B

-- A result with `capability_changed` and `database`.
pub record Stamped (B : Type 0) : Type 0 where
  pub report : Report B
  pub capability_changed : List Notice
  pub database : String

-- A handler: it returns a stamped result, or an exception goes through.
abbrev pub Tool : Type 0 → Type 0 → Type 0
Tool W B = Call (Session W) (Stamped B)

-- A call on the world, from a session.
abbrev pub on_world : {W B : Type 0} → (W → B × W) → Session W → B × Session W
on_world m s = let (b, w) = m s.world in (b, record s { world = w })

module _ {W A : Type 0} (service : Service W A) where
  abbrev pub attach : {B : Type 0} → Report B → List Notice → Stamped B
  attach report notices = record {
    report = report;
    capability_changed = notices;
    database = service.dbname;
  }

  -- The handler goes on with the notices if it is allowed to; a refusal is its result if not.
  abbrev pub on_verdict : {B : Type 0} → Verdict → (List Notice → Tool W B) → Tool W B
  on_verdict (allowed notices) body s = body notices s
  on_verdict (refused r notices) body s = (returned (attach (not_allowed r) notices), s)
  on_verdict (broken e) body s = (raised e, s)

  abbrev pub guard_or_error : {B : Type 0} → Requirement → (List Notice → Tool W B) → Tool W B
  guard_or_error req body s = let (v, s') = guard service.host req s in on_verdict v body s'

  abbrev pub reported : {B R : Type 0} → (B → R) → Answer B → Report R
  reported f (returned b) = done (f b)
  reported f (raised e) = failed (other e)

  -- `try: x = m` with its exception as the result, and `f(x)` as the result otherwise
  abbrev pub try_call : {B R : Type 0} → Call W B → (B → R) → List Notice → Tool W R
  try_call m f notices s =
      let (a, s') = on_world m s in (returned (attach (reported f a) notices), s')
