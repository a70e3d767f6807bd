-- ===== src/Tools/Observability/Guarded.antt =====
-- tools/observability.py: every handler behind its guard.
use mcp_postgres.Prelude.{◌≡◌, refl, String, List}
use mcp_postgres.Effect.{Answer, returned, raised, Call}
use mcp_postgres.Capabilities.{Session}
use mcp_postgres.Capabilities.Guard.{
  Notice, Refusal, Verdict, allowed, refused, broken, Requirement, guard,
}
use mcp_postgres.Capabilities.Guard.Notices.{notices_of}
use mcp_postgres.Tools.Base.{
  Service, not_allowed, Stamped, Tool, attach, guard_or_error, on_verdict, on_world,
}
use mcp_postgres.Tools.Rows.{Value}
use mcp_postgres.Db
use mcp_postgres.Tools.Observability.{
  Observation, server_activity, list_locks, database_stats, get_settings, cancel_query,
  terminate_backend, stamp, plain_call,
}

abbrev pub observation_name : Observation → String
observation_name (server_activity include_idle all_databases limit) = "server_activity"
observation_name list_locks = "list_locks"
observation_name (database_stats top_tables) = "database_stats"
observation_name (get_settings name category) = "get_settings"
observation_name (cancel_query pid) = "cancel_query"
observation_name (terminate_backend pid) = "terminate_backend"

module _ {W : Type 0} (service : Service W Value) where
  -- A result with the given notices and the name of the database, or an exception.
  abbrev pub Labelled : {B : Type 0} → List Notice → Answer (Stamped B) → Type 0
  Labelled notices (returned t) = (t.capability_changed ≡ notices) × (t.database ≡ service.dbname)
  Labelled notices (raised e) = Unit

  -- A refusal is the result, and nothing has happened since the verdict; any result is labelled.
  abbrev pub Behind : {B : Type 0} → Verdict → Session W → Answer (Stamped B) × Session W → Type 0
  Behind v s a =
      Labelled (notices_of v) a.0
      × ((r : Refusal) (ns : List Notice)
          → v ≡ refused r ns
          → a ≡ (returned (attach service (not_allowed r) ns), s))

  pub guard_or_error-Behind :
      {B : Type 0} (req : Requirement) (body : List Notice → Tool W B) (s : Session W)
      → ((ns : List Notice) (s' : Session W) → Labelled ns (body ns s').0)
      → let (v, s') = guard service.host req s in Behind v s' (guard_or_error service req body s)
  guard_or_error-Behind req body s inside = let (v, s') = guard service.host req s in go v s'
    where
      go : (v : Verdict) (s' : Session W) → Behind v s' (on_verdict service v body s')
      go (allowed ns) s' = (inside ns s', λ r' ns' e. cc (e))
      go (refused r ns) s' = ((refl, refl), λ r' ns' e. cc)
      go (broken e) s' = (tt, λ r' ns' k. cc (k))

  pub plain_call-Labelled :
      {B R : Type 0} (m : Call W B) (f : B → R) (ns : List Notice) (s : Session W)
      → Labelled ns (plain_call service m f ns s).0
  plain_call-Labelled m f ns s = by_answer (on_world m s).0
    where
      by_answer : (a : Answer _) → Labelled ns (stamp service f ns a)
      by_answer (returned b) = (refl, refl)
      by_answer (raised e) = tt
