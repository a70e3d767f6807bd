-- ===== src/Tools/Query/Guarded.antt =====
-- What holds of every tool of tools/query.py and tools/admin.py: the guard comes first, with the
-- requirement by which the tool is advertised, and no exception goes through.
use mcp_postgres.Prelude.{◌≡◌, refl, Bool, String, str_eq, List, [], ◌∷◌, if◌then◌else◌}
use mcp_postgres.Effect.{raised, Answer, returned, Call}
use mcp_postgres.Capabilities.{db_admin, Session}
use mcp_postgres.Capabilities.Advertised.{Access, always, guarded, either, handlers, needs_tier}
use mcp_postgres.Capabilities.Guard.{Notice, Verdict, allowed, refused, broken, Requirement, guard}
use mcp_postgres.Tools.Base.{
  Service, not_allowed, Stamped, Tool, attach, guard_or_error, try_call, on_verdict,
}
use mcp_postgres.Tools.Rows.{Value}
use mcp_postgres.Tools.Query.{
  Request, run_read_query, explain_query, sample_table, execute_sql, execute_batch, create_database,
  create_role, grant, revoke, admin_sql, serve, run_batch,
}

abbrev pub name_of : Request → String
name_of (run_read_query sql max_rows timeout_ms) = "run_read_query"
name_of (explain_query sql analyze format timeout_ms) = "explain_query"
name_of (sample_table table schema limit) = "sample_table"
name_of (execute_sql sql) = "execute_sql"
name_of (execute_batch statements stop_on_error) = "execute_batch"
name_of (create_database name owner) = "create_database"
name_of (create_role name login password createdb createrole) = "create_role"
name_of (grant privileges on_object to_role) = "grant"
name_of (revoke privileges on_object from_role) = "revoke"
name_of (admin_sql sql_text) = "admin_sql"

abbrev requirement_of : Access → Requirement
requirement_of always = needs_tier db_admin
requirement_of (guarded req) = req
requirement_of (either a b) = needs_tier db_admin

-- the requirement by which a tool is advertised
abbrev pub advertised_as : String → List (String × Access) → Requirement
advertised_as name [] = needs_tier db_admin
advertised_as name ((n, access) ∷ rest) =
    if str_eq n name then requirement_of access else advertised_as name rest

module _ {W : Type 0} (service : Service W Value) where
  -- A result after the guard's verdict: it carries the notices and the database. A refusal is the
  -- result, as is an exception of the guard, and then the guard is all that has happened.
  abbrev pub After : {B : Type 0} → Verdict → Session W → Answer (Stamped B) × Session W → Type 0
  After {B} (allowed ns) s a =
      (t : Stamped B) × (a.0 ≡ returned t)
      × (t.capability_changed ≡ ns)
      × (t.database ≡ service.dbname)
  After (refused r ns) s a = a ≡ (returned (attach service (not_allowed r) ns), s)
  After (broken e) s a = a ≡ (raised e, s)

  guard_or_error-After :
      {B : Type 0} (req : Requirement) (body : List Notice → Tool W B) (s : Session W)
      → ((ns : List Notice) (s' : Session W) → After (allowed ns) s' (body ns s'))
      → let (v, s') = guard service.host req s in After v s' (guard_or_error service req body s)
  guard_or_error-After req body s inside = let (v, s') = guard service.host req s in go v s'
    where
      go : (v : Verdict) (s' : Session W) → After v s' (on_verdict service v body s')
      go (allowed ns) s' = inside ns s'
      go (refused r ns) s' = refl
      go (broken e) s' = refl

  try_call-After :
      {B R : Type 0} (m : Call W B) (f : B → R) (ns : List Notice) (s : Session W)
      → After (allowed ns) s (try_call service m f ns s)
  try_call-After m f ns s = (_, refl, refl, refl)

  guarded_try-After :
      {B R : Type 0} (req : Requirement) (m : Call W B) (f : B → R) (s : Session W)
      → let (v, s') = guard service.host req s in
        After v s' (guard_or_error service req (try_call service m f) s)
  guarded_try-After req m f s = guard_or_error-After req _ s (try_call-After m f)

  batch-After :
      (statements : List String) (stop : Bool) (ns : List Notice) (s : Session W)
      → After (allowed ns) s (run_batch service statements stop ns s)
  batch-After [] stop ns s = (_, refl, refl, refl)
  batch-After (x ∷ xs) stop ns s = (_, refl, refl, refl)

  -- Each of the tools first asks the guard for what it is advertised for. Its result carries the
  -- guard's notices and the name of the database, and no exception goes through but one of the guard
  -- itself; where the guard refuses or raises, that is the result and nothing but the guard has acted.
  pub serve-After :
      (r : Request) (s : Session W)
      → let (v, s') = guard service.host (advertised_as (name_of r) handlers) s in
        After v s' (serve service r s)
  unfolding serve
  serve-After (run_read_query sql max_rows timeout_ms) s = guarded_try-After _ _ _ s
  serve-After (explain_query sql analyze format timeout_ms) s = guarded_try-After _ _ _ s
  serve-After (sample_table table schema limit) s = guarded_try-After _ _ _ s
  serve-After (execute_sql sql) s = guarded_try-After _ _ _ s
  serve-After (execute_batch statements stop_on_error) s =
      guard_or_error-After _ _ s (batch-After statements stop_on_error)
  serve-After (create_database name owner) s = guarded_try-After _ _ _ s
  serve-After (create_role name login password createdb createrole) s = guarded_try-After _ _ _ s
  serve-After (grant privileges on_object to_role) s = guarded_try-After _ _ _ s
  serve-After (revoke privileges on_object from_role) s = guarded_try-After _ _ _ s
  serve-After (admin_sql sql_text) s = guarded_try-After _ _ _ s
