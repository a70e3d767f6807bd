-- ===== src/Db/Tests.antt =====
-- Runs and instances of the theorems on the database layer, on the small server.
use mcp_postgres.Prelude.{
  ℕ, ◌≡◌, refl, ◌⊎◌, true, false, none, some, List, [], ◌∷◌, String, All, arith, ap,
}
use mcp_postgres.PyText.{lit}
use mcp_postgres.Effect.{returned, raised}
use mcp_postgres.Db.{
  release_stmt, plain_text, Reply, page, execute_batch, batch_loop, run_read_query, explain,
  format_of, BatchResult, done, failed,
}
use mcp_postgres.Db.Postgres.{Tx, idle, open_tx, aborted_tx}
use mcp_postgres.Db.ReadOnly.{run_read_query-idle, explain-idle}
use mcp_postgres.Db.Batch.{Batched, applied, execute_batch-refines, execute_batch_atomic}
use mcp_postgres.Db.Outcome.{outcome, all_applied}
use mcp_postgres.Db.Status.{Reports, execute_batch_status}
use mcp_postgres.Db.Toy.{server, toy-IsPostgres}

-- What the runs below compute with.
evaluate : Unit {0}
unfolding execute_batch batch_loop run_read_query explain format_of page
evaluate = tt

abbrev mixed : List String
mixed = "add" ∷ "drop" ∷ "add" ∷ []

best_effort_run : (execute_batch server mixed false (idle 4)) ≡ (
  returned (record {
    committed = true;
    statement_count = 3;
    results = done none "RELEASE" ∷ failed "failed" ∷ done none "RELEASE" ∷ [];
    first_failed = some (1, "failed");
  }),
  idle 6,
)
unfolding evaluate
best_effort_run = refl

stopped_run : (execute_batch server mixed true (idle 4)).1 ≡ idle 4
unfolding evaluate
stopped_run = refl

execute_batch-refines_example :
    let (a, w') = execute_batch server mixed false (idle 4) in
    Batched toy-IsPostgres 4 mixed
      (idle 4)
      (outcome (applied toy-IsPostgres) false 0 mixed 4 none)
      a
      w'
execute_batch-refines_example =
    execute_batch-refines toy-IsPostgres mixed false (idle 4) 4 (refl, (refl, (refl, tt))) refl

execute_batch_atomic_example :
    let (a, w') = execute_batch server mixed true (idle 4) in
    ((b : BatchResult) × (d' : ℕ) × (a ≡ returned b)
      × (b.committed ≡ true)
      × (all_applied (applied toy-IsPostgres) mixed 4 ≡ some d')
      × (w' ≡ idle d'))
    ⊎ ((b : BatchResult) × (a ≡ returned b)
        × (b.committed ≡ false)
        × (all_applied (applied toy-IsPostgres) mixed 4 ≡ none)
        × (w' ≡ idle 4))
    ⊎ ((e : String) × (a ≡ raised e) × (w' ≡ idle 4))
execute_batch_atomic_example =
    execute_batch_atomic toy-IsPostgres mixed (idle 4) 4 (refl, (refl, (refl, tt))) refl

run_read_query-idle_example :
    (run_read_query server (plain_text "add") [] 10 (some 30000) (idle 4)).1 ≡ idle 4
run_read_query-idle_example =
    run_read_query-idle toy-IsPostgres (plain_text "add") [] 10 (some 30000) (idle 4) 4 refl refl

explain-idle_example : (explain server "add" true (lit "JSON") none (idle 4)).1 ≡ idle 4
explain-idle_example =
    explain-idle toy-IsPostgres "add" true (lit "JSON") none (idle 4) 4 (λ f. refl) refl

abbrev three_rows : Reply ℕ
three_rows = record {
  rowcount = some 3;
  status = "SELECT 3";
  description = some ("n" ∷ []);
  rows = (1 ∷ []) ∷ (2 ∷ []) ∷ (3 ∷ []) ∷ [];
}

abbrev mixed_report : BatchResult
mixed_report = record {
  committed = true;
  statement_count = 3;
  results = done none "RELEASE" ∷ failed "failed" ∷ done none "RELEASE" ∷ [];
  first_failed = some (1, "failed");
}

releases_alike :
    (w w' : Tx ℕ) (r : Reply ℕ)
    → server.exec release_stmt [] w ≡ (returned r, w')
    → (r.rowcount ≡ none) × (r.status ≡ "RELEASE")
releases_alike (idle d) w' r h = ground arith
releases_alike (open_tx d [] n) w' r h = ground arith
releases_alike (open_tx d (s ∷ ss) n) w' r h = ground arith
releases_alike (aborted_tx d ss) w' r h = ground arith

execute_batch_status_example : All (Reports none "RELEASE") mixed_report.results
execute_batch_status_example =
    execute_batch_status server none "RELEASE" releases_alike mixed false (idle 4) mixed_report
      (ap (λ p. p.0) best_effort_run)
