-- ===== src/Db/ReadOnly.antt =====
-- db.py: the read path. `run_read_query` and `explain` leave the data alone, and a page is a bounded
-- beginning of what the statement gave.
use mcp_postgres.Prelude.{
  ℕ, zero, suc, ◌≤◌, ◌<◌, ◌≡◌, refl, ap, ◌∙◌, ◌↔◌, inl, inr, Bool, true, ◌&&◌, not, Option, none,
  some, Option-cases, List, [], ◌∷◌, ◌++◌, String, arith, length, is_nil, ◌==◌, max,
}
use mcp_postgres.PyText.{Text}
use mcp_postgres.Effect.{Answer, returned, raised, Call, chain, ◌>>=◌, ◌>>◌, ret}
use mcp_postgres.Db.{
  Statement, Param, decimal, Reply, Server, page, take, drop, Format, Plan, verbatim, format_of,
  plan_of, json_format, text_format, lines_of, first_cells, timeout_stmt, set_timeout,
  with_connection, read_only, fetchall, run_read_query, explain, explain_prefix,
}
use mcp_postgres.Db.Postgres.{
  Tx, idle, open_tx, IsPostgres, InTx, exec-cases, read_only-idle, with_connection-idle,
}

take-drop {ℓ} : {A : Type ℓ} (n : ℕ) (xs : List A) → take n xs ++ drop n xs ≡ xs
take-drop zero xs = refl
take-drop (suc n) [] = refl
take-drop (suc n) (x ∷ xs) = ap (λ l. x ∷ l) (take-drop n xs)

length-take-le {ℓ} : {A : Type ℓ} (n : ℕ) (xs : List A) → length (take n xs) ≤ n
length-take-le zero xs = omega arith
length-take-le (suc n) [] = omega arith
length-take-le (suc n) (x ∷ xs) = omega (arith, length-take-le n xs)

-- A full page with something behind it is a list that is longer than the page.
full_page {ℓ} :
    {A : Type ℓ} (n : ℕ) (xs : List A)
    → ((length (take n xs) == n && not (is_nil (drop n xs))) ≡ true) ↔ (n < length xs)
full_page zero [] = (λ h. ground arith, λ h. ground arith)
full_page zero (x ∷ xs) = (λ h. omega arith, λ h. refl)
full_page (suc n) [] = (λ h. ground arith, λ h. ground arith)
full_page (suc n) (x ∷ xs) = ground (arith, full_page n xs)

-- A page of at least one row: the first rows of the result, at most as many as were asked for, and
-- it is marked as truncated exactly if the result has more.
pub page_lem :
    {A : Type 0} (max_rows : ℕ) (r : Reply A) (columns : List String)
    → 1 ≤ max_rows
    → r.description ≡ some columns
    → let p = page max_rows r in
      ((rest : List (List A)) × (p.rows ++ rest ≡ r.rows))
      × (length p.rows ≤ max_rows)
      × ((p.truncated ≡ true) ↔ (max_rows < length r.rows))
      × (p.columns ≡ columns)
unfolding page
page_lem max_rows r columns h e =
    let m : max 1 max_rows ≡ max_rows = omega arith in
    rw (e, page)
      (rw m (
        (drop max_rows r.rows, take-drop max_rows r.rows),
        length-take-le max_rows r.rows,
        full_page max_rows r.rows,
        refl,
      ))

-- What follows a statement looks at its reply only.
abbrev Pure : {W A B : Type 0} → (Reply A → Call W B) → Type 0
Pure {W} {A} k = (r : Reply A) (w : W) → (k r w).1 ≡ w

fetchall-Pure : {W A : Type 0} (server : Server W A) → Pure (fetchall server)
fetchall-Pure server r w = elim (Option-cases r.description) [
  | inl e ↦ rw e refl
  | inr (columns, e) ↦ rw e refl
]

plan_of-same :
    {W A : Type 0} (fmt : Format) (rows : List (List A)) (w : W) → (plan_of fmt rows w).1 ≡ w
unfolding plan_of
plan_of-same json_format [] w = refl
plan_of-same json_format ([] ∷ rows) w = refl
plan_of-same json_format ((a ∷ r) ∷ rows) w = refl
plan_of-same text_format rows w = elim (Option-cases (first_cells rows)) [
  | inl e ↦ rw (e, lines_of) refl
  | inr (cells, e) ↦ rw (e, lines_of) refl
]

module _ {W A D : Type 0} {server : Server W A} {state : W → Tx D}
    {effect : Statement → List (Param A) → D → Option D} {IsPlain : Statement → Type 0}
    (pg : IsPostgres server state effect IsPlain) where
  exec-InTx :
      {B : Type 0} (stmt : Statement) (params : List (Param A)) (k : Reply A → Call W B) (w : W)
      (d : D) (ss : List D) (n : D)
      → Pure k
      → IsPlain stmt
      → state w ≡ open_tx d ss n
      → InTx d (state ((server.exec stmt params >>= k) w).1)
  exec-InTx stmt params k w d ss n pure plain h =
      elim (exec-cases pg stmt params w d ss n plain h) [
        | inl (n', (r, w', e, s)) ↦ rw e (rw (pure r w') (inl (ss, n', s)))
        | inr (x, w', e, s) ↦ rw e (inr (ss, s))
      ]

  timed-InTx :
      {B : Type 0} (timeout : Option ℕ) (stmt : Statement) (params : List (Param A))
      (k : Reply A → Call W B) (w : W) (d : D)
      → Pure k
      → IsPlain stmt
      → state w ≡ open_tx d [] d
      → InTx d (state ((set_timeout server timeout >> (server.exec stmt params >>= k)) w).1)
  timed-InTx none stmt params k w d pure plain h = exec-InTx stmt params k w d [] d pure plain h
  timed-InTx (some ms) stmt params k w d pure plain h =
      elim (exec-cases pg timeout_stmt (decimal ms ∷ []) w d [] d pg.timeout_IsPlain h) [
        | inl (n', (r, w', e, s)) ↦ rw e (exec-InTx stmt params k w' d [] n' pure plain s)
        | inr (x, w', e, s) ↦ rw e (inr ([], s))
      ]

  -- A read query that is no transaction control leaves the committed data as it was and the
  -- connection in no transaction: whether it writes, fails, times out, or finds no connection.
  pub run_read_query-idle :
      (stmt : Statement) (params : List (Param A)) (max_rows : ℕ) (timeout : Option ℕ) (w : W)
      (d : D)
      → IsPlain stmt
      → state w ≡ idle d
      → state (run_read_query server stmt params max_rows timeout w).1 ≡ idle d
  unfolding run_read_query
  run_read_query-idle stmt params max_rows timeout w d plain h =
      with_connection-idle pg _ w d h (λ w1 h1. read_only-idle pg _ w1 d h1 (λ w2 h2.
        timed-InTx timeout stmt params (λ r. ret (page max_rows r)) w2 d (λ r w'. refl) plain h2))

  -- So does `explain`, with ANALYZE too and for every format, the unknown ones included.
  pub explain-idle :
      (sql : String) (analyze : Bool) (fmt : Text) (timeout : Option ℕ) (w : W) (d : D)
      → ((f : Format) → IsPlain (verbatim (explain_prefix analyze f) ∷ verbatim sql ∷ []))
      → state w ≡ idle d
      → state (explain server sql analyze fmt timeout w).1 ≡ idle d
  unfolding explain
  explain-idle sql analyze fmt timeout w d plain h = elim (Option-cases (format_of fmt)) [
    | inl e ↦ rw e h
    | inr (f, e) ↦ rw e (planned f (with_connection server (timed f) w) (idle_after f))
  ]
    where
      timed : Format → Call W (List (List A))
      timed f = read_only server (
          set_timeout server timeout
          >> (server.exec (verbatim (explain_prefix analyze f) ∷ verbatim sql ∷ []) []
              >>= fetchall server))

      idle_after : (f : Format) → state (with_connection server (timed f) w).1 ≡ idle d
      idle_after f = with_connection-idle pg _ w d h (λ w1 h1. read_only-idle pg _ w1 d h1 (λ w2 h2.
          timed-InTx timeout _ [] (fetchall server) w2 d (fetchall-Pure server) (plain f) h2))

      parsed :
          (f : Format) (a : Answer (Plan A) × W)
          → state a.1 ≡ idle d
          → state (chain {B = Format × Plan A} (λ p. ret (f, p)) a).1 ≡ idle d
      parsed f (returned p, w') s = s
      parsed f (raised x, w') s = s

      planned :
          (f : Format) (a : Answer (List (List A)) × W)
          → state a.1 ≡ idle d
          → state (chain {B = Format × Plan A} (λ rows. plan_of f rows >>= (λ p. ret (f, p))) a).1
            ≡ idle d
      planned f (returned rows, w') s =
          parsed f (plan_of f rows w') (ap state (plan_of-same f rows w') ∙ s)
      planned f (raised x, w') s = s
