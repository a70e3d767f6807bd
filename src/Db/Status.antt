-- ===== src/Db/Status.antt =====
-- db.py: what `execute_batch` reports of the statements that succeed. It reads the cursor after the
-- savepoint was released, so it reports the release.
use mcp_postgres.Prelude.{
  ℕ, ◌+◌, ◌≡◌, inl, inr, Bool, Bool-cases, Option, List, [], ◌∷◌, ◌++◌, String, All, All-append,
  length, if◌then◌else◌,
}
use mcp_postgres.Effect.{Answer, returned, raised, Call, chain, Answer-cases}
use mcp_postgres.Db.{
  plain_text, Reply, Server, StatementResult, done, failed, Progress, BatchResult, settle,
  batch_loop, execute_batch, started, close_batch, or_first, leave, release_stmt, savepoint_stmt,
  begin_stmt, rollback_to_stmt, commit_stmt, rollback_stmt,
}

-- A statement's result carries this row count and this status.
abbrev pub Reports : Option ℕ → String → StatementResult → Type 0
Reports rowcount status (done n s) = (n ≡ rowcount) × (s ≡ status)
Reports rowcount status (failed e) = Unit {0}

-- the reply to every release
abbrev pub ReleasesWith : {W A : Type 0} → Server W A → Option ℕ → String → Type 0
ReleasesWith {W} {A} server rowcount status =
    (w w' : W) (r : Reply A)
    → server.exec release_stmt [] w ≡ (returned r, w')
    → (r.rowcount ≡ rowcount) × (r.status ≡ status)

module _ {W A : Type 0} (server : Server W A) (rowcount : Option ℕ) (status : String)
    (release : ReleasesWith server rowcount status) where
  abbrev Reported : Answer Progress → Type 0
  Reported (returned p) = All (Reports rowcount status) p.results
  Reported (raised e) = Unit {0}

  abbrev ReportedBatch : Answer BatchResult → Type 0
  ReportedBatch (returned b) = All (Reports rowcount status) b.results
  ReportedBatch (raised e) = Unit {0}

  abbrev Continues : (Progress → Call W Progress) → Type 0
  Continues rest =
      (p : Progress) (w : W) → All (Reports rowcount status) p.results → Reported (rest p w).0

  settle-Reported :
      (stop : Bool) (i : ℕ) (p : Progress) (rest : Progress → Call W Progress)
      (a : Answer (Reply A)) (w : W)
      → Continues rest
      → All (Reports rowcount status) p.results
      → Reported (settle server stop i p rest a w).0
  settle-Reported stop i p rest (raised e) w go h =
      elim (Answer-cases (server.exec rollback_to_stmt [] w)) [
        | inr (x, w', q) ↦ rw q tt
        | inl (r, w', q) ↦ rw q (elim (Bool-cases stop) [
          | inl t ↦ rw t more
          | inr f ↦ rw f (
              go
                (record p {
                  results = p.results ++ failed e ∷ [];
                  first_failed = or_first p.first_failed (i, e);
                })
                w' more)
        ])
      ]
    where
      more : All (Reports rowcount status) (p.results ++ failed e ∷ [])
      more = All-append (Reports rowcount status) p.results (failed e ∷ []) h (tt, tt)
  settle-Reported stop i p rest (returned _) w go h =
      elim (Answer-cases (server.exec release_stmt [] w)) [
        | inr (x, w', q) ↦ rw q tt
        | inl (r, w', q) ↦ rw q (
            go (record p { results = p.results ++ done r.rowcount r.status ∷ [] }) w'
              (All-append (Reports rowcount status) p.results (done r.rowcount r.status ∷ []) h
                (release w w' r q, tt)))
      ]

  loop-Reported : (stop : Bool) (i : ℕ) (ss : List String) → Continues (batch_loop server stop i ss)
  unfolding batch_loop
  loop-Reported stop i [] p w h = h
  loop-Reported stop i (s ∷ ss) p w h = elim (Answer-cases (server.exec savepoint_stmt [] w)) [
    | inr (x, w1, q) ↦ rw q tt
    | inl (r, w1, q) ↦ rw q (
        settle-Reported stop i p (batch_loop server stop (i + 1) ss)
          (server.exec (plain_text s) [] w1).0 (server.exec (plain_text s) [] w1).1
          (loop-Reported stop (i + 1) ss) h)
  ]

  close-Reported :
      (n : ℕ) (a : Answer Progress × W)
      → Reported a.0
      → ReportedBatch (leave server (chain (close_batch server n) a)).0
  close-Reported n (raised e, w) h = tt
  close-Reported n (returned p, w) h =
      elim (Answer-cases (server.exec (if p.aborted then rollback_stmt else commit_stmt) [] w)) [
        | inl (r, w', q) ↦ rw q h
        | inr (x, w', q) ↦ rw q tt
      ]

  batch-Reported :
      (ss : List String) (stop : Bool) (w : W) → ReportedBatch (execute_batch server ss stop w).0
  unfolding execute_batch
  batch-Reported ss stop w = elim (Answer-cases (server.checkout w)) [
    | inr (x, w1, q) ↦ rw q tt
    | inl (u, w1, q) ↦ rw q (elim (Answer-cases (server.exec begin_stmt [] w1)) [
      | inr (x, w2, q2) ↦ rw q2 tt
      | inl (r, w2, q2) ↦ rw q2 (
          close-Reported (length ss) (batch_loop server stop 0 ss started w2)
            (loop-Reported stop 0 ss started w2 tt))
    ])
  ]

  -- Where the reply to a release is always the same, every statement that succeeded is reported with
  -- the row count and the status of the release, whatever the statement itself did.
  pub execute_batch_status :
      (ss : List String) (stop_on_error : Bool) (w : W) (b : BatchResult)
      → (execute_batch server ss stop_on_error w).0 ≡ returned b
      → All (Reports rowcount status) b.results
  execute_batch_status ss stop w b h = rw h at (batch-Reported ss stop w)
