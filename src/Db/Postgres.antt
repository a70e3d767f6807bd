-- ===== src/Db/Postgres.antt =====
-- What db.py relies on of PostgreSQL and its driver, as hypotheses: how transactions and savepoints
-- behave. `D` is the data; a statement that is no transaction control has an effect on it, or fails.
use mcp_postgres.Prelude.{
  ◌≡◌, sym, ap, ◌∙◌, ◌⊎◌, inl, inr, Bool, true, false, Option, none, some, Option-cases, List, [],
  ◌∷◌, String,
}
use mcp_postgres.Effect.{Answer, returned, raised, Call, Answer-cases}
use mcp_postgres.Db.{
  Statement, Param, Reply, Server, begin_stmt, begin_read_only, commit_stmt, rollback_stmt,
  savepoint_stmt, rollback_to_stmt, release_stmt, timeout_stmt, with_connection, read_only, leave,
}

-- A connection: in no transaction; in one, over the committed data, with the data at each
-- savepoint, the latest first, and as the transaction sees it; or in one that an error has aborted.
pub data Tx (D : Type 0) : Type 0 where
  idle : D → Tx D
  open_tx : D → List D → D → Tx D
  aborted_tx : D → List D → Tx D

module _ {W A D : Type 0} (server : Server W A) (state : W → Tx D) where
  abbrev pub Gives : Statement → List (Param A) → W → Tx D → Type 0
  Gives stmt params w t =
      (r : Reply A) × (w' : W) × (server.exec stmt params w ≡ (returned r, w')) × (state w' ≡ t)

  abbrev pub Fails : Statement → List (Param A) → W → Tx D → Type 0
  Fails stmt params w t =
      (e : String) × (w' : W) × (server.exec stmt params w ≡ (raised e, w')) × (state w' ≡ t)

-- The documented behaviour. A commit can fail, which rolls back; the other control statements do
-- not fail in the states where the code issues them.
pub record IsPostgres {W A D : Type 0} (server : Server W A) (state : W → Tx D)
    (effect : Statement → List (Param A) → D → Option D) (IsPlain : Statement → Type 0)
    : Type 0 where
  pub checkout : (w : W) (d : D) → state w ≡ idle d → state (server.checkout w).1 ≡ idle d
  pub begins :
      (w : W) (d : D) → state w ≡ idle d → Gives server state begin_stmt [] w (open_tx d [] d)
  pub begins_read_only :
      (w : W) (d : D) → state w ≡ idle d → Gives server state begin_read_only [] w (open_tx d [] d)
  pub saves :
      (w : W) (d : D) (ss : List D) (n : D)
      → state w ≡ open_tx d ss n
      → Gives server state savepoint_stmt [] w (open_tx d (n ∷ ss) n)
  pub releases :
      (w : W) (d : D) (ss : List D) (s n : D)
      → state w ≡ open_tx d (s ∷ ss) n
      → Gives server state release_stmt [] w (open_tx d ss n)
  pub rolls_back_to :
      (w : W) (d : D) (ss : List D) (s : D)
      → state w ≡ aborted_tx d (s ∷ ss)
      → Gives server state rollback_to_stmt [] w (open_tx d (s ∷ ss) s)
  pub commits :
      (w : W) (d : D) (ss : List D) (n : D)
      → state w ≡ open_tx d ss n
      → Gives server state commit_stmt [] w (idle n) ⊎ Fails server state commit_stmt [] w (idle d)
  pub rolls_back :
      (w : W) (d : D) (ss : List D) (n : D)
      → state w ≡ open_tx d ss n
      → Gives server state rollback_stmt [] w (idle d)
  pub rolls_back_aborted :
      (w : W) (d : D) (ss : List D)
      → state w ≡ aborted_tx d ss
      → Gives server state rollback_stmt [] w (idle d)
  pub succeeds :
      (stmt : Statement) (params : List (Param A)) (w : W) (d : D) (ss : List D) (n n' : D)
      → IsPlain stmt
      → state w ≡ open_tx d ss n
      → effect stmt params n ≡ some n'
      → Gives server state stmt params w (open_tx d ss n')
  pub fails :
      (stmt : Statement) (params : List (Param A)) (w : W) (d : D) (ss : List D) (n : D)
      → IsPlain stmt
      → state w ≡ open_tx d ss n
      → effect stmt params n ≡ none
      → Fails server state stmt params w (aborted_tx d ss)
  pub putback_idle :
      (left : Bool) (w : W) (d : D) → state w ≡ idle d → state (server.putback left w) ≡ idle d
  pub timeout_IsPlain : IsPlain timeout_stmt

-- In a transaction over the committed data `d`, aborted or not.
abbrev pub InTx : {D : Type 0} → D → Tx D → Type 0
InTx {D} d t =
    ((ss : List D) × (n : D) × (t ≡ open_tx d ss n)) ⊎ ((ss : List D) × (t ≡ aborted_tx d ss))

module _ {W A D : Type 0} {server : Server W A} {state : W → Tx D}
    {effect : Statement → List (Param A) → D → Option D} {IsPlain : Statement → Type 0}
    (pg : IsPostgres server state effect IsPlain) where
  -- A plain statement in an open transaction succeeds, or fails and aborts it.
  pub exec-cases :
      (stmt : Statement) (params : List (Param A)) (w : W) (d : D) (ss : List D) (n : D)
      → IsPlain stmt
      → state w ≡ open_tx d ss n
      → ((n' : D) × Gives server state stmt params w (open_tx d ss n'))
        ⊎ Fails server state stmt params w (aborted_tx d ss)
  exec-cases stmt params w d ss n plain h = elim (Option-cases (effect stmt params n)) [
    | inl e ↦ inr (pg.fails stmt params w d ss n plain h e)
    | inr (n', e) ↦ inl (n', pg.succeeds stmt params w d ss n n' plain h e)
  ]

  rollback-InTx :
      (w : W) (d : D) → InTx d (state w) → Gives server state rollback_stmt [] w (idle d)
  rollback-InTx w d (inl (ss, n, h)) = pg.rolls_back w d ss n h
  rollback-InTx w d (inr (ss, h)) = pg.rolls_back_aborted w d ss h

  -- What runs in a read-only transaction leaves the data as it was.
  pub read_only-idle :
      {B : Type 0} (body : Call W B) (w : W) (d : D)
      → state w ≡ idle d
      → ((w1 : W) → state w1 ≡ open_tx d [] d → InTx d (state (body w1).1))
      → state (read_only server body w).1 ≡ idle d
  read_only-idle body w d h inside =
      let (r, w1, e, opened) = pg.begins_read_only w d h in
      let (r2, w2, e2, closed) = rollback-InTx (body w1).1 d (inside w1 opened) in rw (e, e2) closed

  pub with_connection-idle :
      {B : Type 0} (body : Call W B) (w : W) (d : D)
      → state w ≡ idle d
      → ((w1 : W) → state w1 ≡ idle d → state (body w1).1 ≡ idle d)
      → state (with_connection server body w).1 ≡ idle d
  with_connection-idle {B} body w d h inside = elim (Answer-cases (server.checkout w)) [
    | inr (e, w1, q) ↦ rw q (ready w1 (ap (λ p. p.1) q))
    | inl (u, w1, q) ↦ rw q (left (body w1) (inside w1 (ready w1 (ap (λ p. p.1) q))))
  ]
    where
      ready : (w1 : W) → (server.checkout w).1 ≡ w1 → state w1 ≡ idle d
      ready w1 q = sym (ap state q) ∙ pg.checkout w d h

      left : (a : Answer B × W) → state a.1 ≡ idle d → state (leave server a).1 ≡ idle d
      left (returned b, w') s = pg.putback_idle false w' d s
      left (raised e, w') s = pg.putback_idle true w' d s
