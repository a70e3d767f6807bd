-- ===== src/Db/Toy.antt =====
-- A small server that meets the hypotheses on PostgreSQL: the data are one number, the statement
-- "add" adds one, and every other plain statement fails.
use mcp_postgres.Prelude.{
  ℕ, ◌+◌, ◌≡◌, refl, inl, Option, none, some, List, [], ◌∷◌, String, str_eq, if◌then◌else◌, ◌||◌,
}
use mcp_postgres.Effect.{Answer, returned, raised}
use mcp_postgres.Db.{Statement, verbatim, Param, Reply, Server}
use mcp_postgres.Db.Postgres.{Tx, idle, open_tx, aborted_tx, IsPostgres}

pub data Kind : Type 0 where
  begins saves releases rolls_back_to commits rolls_back plain : Kind

abbrev kind_of_text : String → Kind
kind_of_text s =
    if str_eq s "BEGIN" || str_eq s "BEGIN READ ONLY"
    then begins
    else if str_eq s "SAVEPOINT mcp_batch"
    then saves
    else if str_eq s "RELEASE SAVEPOINT mcp_batch"
    then releases
    else if str_eq s "ROLLBACK TO SAVEPOINT mcp_batch"
    then rolls_back_to
    else if str_eq s "COMMIT"
    then commits
    else if str_eq s "ROLLBACK"
    then rolls_back
    else plain

abbrev pub kind_of : Statement → Kind
kind_of (verbatim s ∷ []) = kind_of_text s
kind_of _ = plain

abbrev pub effect : Statement → List (Param ℕ) → ℕ → Option ℕ
effect (verbatim s ∷ []) params n = if str_eq s "add" then some (n + 1) else none
effect _ params n = none

abbrev pub reply : String → Reply ℕ
reply status = record { rowcount = none; status = status; description = none; rows = [] }

abbrev plain_step : ℕ → List ℕ → Option ℕ → ℕ → Answer (Reply ℕ) × Tx ℕ
plain_step d ss none n = (raised "failed", aborted_tx d ss)
plain_step d ss (some n') n = (returned (reply "ADD"), open_tx d ss n')

abbrev act : Kind → Statement → List (Param ℕ) → Tx ℕ → Answer (Reply ℕ) × Tx ℕ
act begins stmt params (idle d) = (returned (reply "BEGIN"), open_tx d [] d)
act saves stmt params (open_tx d ss n) = (returned (reply "SAVEPOINT"), open_tx d (n ∷ ss) n)
act releases stmt params (open_tx d (s ∷ ss) n) = (returned (reply "RELEASE"), open_tx d ss n)
act rolls_back_to stmt params (aborted_tx d (s ∷ ss)) =
    (returned (reply "ROLLBACK"), open_tx d (s ∷ ss) s)
act commits stmt params (open_tx d ss n) = (returned (reply "COMMIT"), idle n)
act rolls_back stmt params (open_tx d ss n) = (returned (reply "ROLLBACK"), idle d)
act rolls_back stmt params (aborted_tx d ss) = (returned (reply "ROLLBACK"), idle d)
act plain stmt params (open_tx d ss n) = plain_step d ss (effect stmt params n) n
act _ stmt params t = (raised "not now", t)

abbrev pub server : Server (Tx ℕ) ℕ
server = record {
  checkout = λ t. (returned tt, t);
  putback = λ failed t. t;
  exec = λ stmt params t. act (kind_of stmt) stmt params t;
}

abbrev pub same : Tx ℕ → Tx ℕ
same t = t

abbrev pub IsPlain : Statement → Type 0
IsPlain stmt = kind_of stmt ≡ plain

pub toy-IsPostgres : IsPostgres server same effect IsPlain
toy-IsPostgres = record {
  checkout = λ w d h. h;
  begins = λ w d h. rw h (reply "BEGIN", open_tx d [] d, refl, refl);
  begins_read_only = λ w d h. rw h (reply "BEGIN", open_tx d [] d, refl, refl);
  saves = λ w d ss n h. rw h (reply "SAVEPOINT", open_tx d (n ∷ ss) n, refl, refl);
  releases = λ w d ss s n h. rw h (reply "RELEASE", open_tx d ss n, refl, refl);
  rolls_back_to = λ w d ss s h. rw h (reply "ROLLBACK", open_tx d (s ∷ ss) s, refl, refl);
  commits = λ w d ss n h. rw h (inl (reply "COMMIT", idle n, refl, refl));
  rolls_back = λ w d ss n h. rw h (reply "ROLLBACK", idle d, refl, refl);
  rolls_back_aborted = λ w d ss h. rw h (reply "ROLLBACK", idle d, refl, refl);
  succeeds = λ stmt params w d ss n n' p h e.
      rw (p, h) (reply "ADD", open_tx d ss n', rw (e, plain_step) refl, refl);
  fails = λ stmt params w d ss n p h e.
      rw (p, h) ("failed", aborted_tx d ss, rw (e, plain_step) refl, refl);
  putback_idle = λ failed w d h. h;
  timeout_IsPlain = refl;
}
