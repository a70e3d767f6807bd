-- ===== src/Db/Batch.antt =====
-- db.py: `execute_batch` against a description of its two modes, over the hypotheses on PostgreSQL.
use mcp_postgres.Prelude.{
  ℕ, ◌+◌, ◌≡◌, refl, sym, ap, ◌∙◌, ◌⊎◌, inl, inr, subst, Bool, true, false, not, Bool-cases, Option,
  none, some, Option-cases, List, [], ◌∷◌, ◌++◌, map, append_assoc, String, length, if◌then◌else◌,
  All,
}
use mathlib.Core.List.{map-append, append-nil}
use mcp_postgres.Effect.{Answer, returned, raised, Answer-cases}
use mcp_postgres.Db.{
  Statement, Param, plain_text, Server, StatementResult, done, failed, Progress, BatchResult,
  or_first, batch_loop, execute_batch, started, close_batch, leave, commit_stmt,
}
use mcp_postgres.Db.Postgres.{Tx, idle, open_tx, IsPostgres}
use mcp_postgres.Db.Outcome.{
  Outcome, flag, outcome, all_applied, outcome_done, outcome_given_up, outcome_skipped,
  outcome_stop,
}

abbrev is_done : StatementResult → Bool
is_done (done rowcount status) = true
is_done (failed e) = false

abbrev pub flags_of : List StatementResult → List Bool
flags_of rs = map is_done rs

abbrev pub failed_index : Option (ℕ × String) → Option ℕ
failed_index none = none
failed_index (some (i, e)) = some i

failed_index-or_first :
    (f : Option (ℕ × String)) (i : ℕ) (e : String)
    → failed_index (or_first f (i, e)) ≡ or_first (failed_index f) i
failed_index-or_first none i e = refl
failed_index-or_first (some (j, x)) i e = refl

flags-snoc :
    (rs : List StatementResult) (r : StatementResult) (bs : List Bool)
    → flags_of (rs ++ r ∷ []) ++ bs ≡ flags_of rs ++ is_done r ∷ bs
flags-snoc rs r bs = simp (map-append, append_assoc)

module _ {W A D : Type 0} {server : Server W A} {state : W → Tx D}
    {effect : Statement → List (Param A) → D → Option D} {IsPlain : Statement → Type 0}
    (pg : IsPostgres server state effect IsPlain) where
  abbrev pub applied : String → D → Option D
  applied s = effect (plain_text s) []

  -- The loop has ended in an open transaction, with the outcome `o` from here on.
  record Looped (d : D) (stop : Bool) (i : ℕ) (ss : List String) (p : Progress) (w : W)
      (o : Outcome D) : Type 0 where
    end : Progress
    world : W
    saves : List D
    runs : batch_loop server stop i ss p w ≡ (returned end, world)
    opened : state world ≡ open_tx d saves o.result
    aborted : end.aborted ≡ o.aborted
    flags : flags_of end.results ≡ flags_of p.results ++ o.flags
    first : failed_index end.first_failed ≡ o.first

  -- The end of the loop from the next round on is the end from this round on.
  later :
      (d : D) (stop : Bool) (i : ℕ) (s : String) (ss : List String) (p p' : Progress) (w w' : W)
      (b : Bool) (o : Outcome D)
      → batch_loop server stop i (s ∷ ss) p w ≡ batch_loop server stop (i + 1) ss p' w'
      → ((bs : List Bool) → flags_of p'.results ++ bs ≡ flags_of p.results ++ b ∷ bs)
      → Looped d stop (i + 1) ss p' w' o
      → Looped d stop i (s ∷ ss) p w (flag b o)
  later d stop i s ss p p' w w' b o same more next = record {
    end = next.end;
    world = next.world;
    saves = next.saves;
    runs = same ∙ next.runs;
    opened = next.opened;
    aborted = next.aborted;
    flags = next.flags ∙ more o.flags;
    first = next.first;
  }

  noted : ℕ → String → Progress → Progress
  noted i x p = record p {
    results = p.results ++ failed x ∷ [];
    first_failed = or_first p.first_failed (i, x);
  }

  given_up :
      (d : D) (i : ℕ) (s : String) (ss : List String) (p : Progress) (w w' : W) (x : String)
      (saves : List D) (n : D)
      → batch_loop server true i (s ∷ ss) p w
        ≡ (returned (record (noted i x p) { aborted = true }), w')
      → state w' ≡ open_tx d saves n
      → Looped d true i (s ∷ ss) p w (record {
        result = n;
        flags = false ∷ [];
        first = or_first (failed_index p.first_failed) i;
        aborted = true;
      })
  unfolding noted
  given_up d i s ss p w w' x saves n runs opened = record {
    end = record (noted i x p) { aborted = true };
    world = w';
    saves = saves;
    runs = runs;
    opened = opened;
    aborted = refl;
    flags = map-append is_done p.results (failed x ∷ []);
    first = failed_index-or_first p.first_failed i x;
  }

  loop-Looped :
      (d : D) (stop : Bool) (i : ℕ) (ss : List String) (p : Progress) (w : W) (saves : List D)
      (n : D)
      → All (λ s. IsPlain (plain_text s)) ss
      → p.aborted ≡ false
      → state w ≡ open_tx d saves n
      → Looped d stop i ss p w (outcome applied stop i ss n (failed_index p.first_failed))
  unfolding batch_loop outcome noted
  loop-Looped d stop i [] p w saves n plain a h = record {
    end = p;
    world = w;
    saves = saves;
    runs = refl;
    opened = h;
    aborted = a;
    flags = sym (append-nil (flags_of p.results));
    first = refl;
  }
  loop-Looped d stop i (s ∷ ss) p w saves n plain a h =
      let (r1, w1, e1, s1) = pg.saves w d saves n h in
      elim (Option-cases (effect (plain_text s) [] n)) [
        | inr (n', e) ↦
            let (r2, w2, e2, s2) =
              pg.succeeds (plain_text s) [] w1 d (n ∷ saves) n n' plain.0 s1 e in
            let (r3, w3, e3, s3) = pg.releases w2 d saves n n' s2 in
            let x = done r3.rowcount r3.status in
            let p' = record p { results = p.results ++ x ∷ [] } in
            subst (Looped d stop i (s ∷ ss) p w)
              (sym (outcome_done applied stop i s ss n n' (failed_index p.first_failed) e))
              (later d stop i s ss p p' w w3 true _ (rw (e1, e2, e3) refl) (flags-snoc p.results x)
                (loop-Looped d stop (i + 1) ss p' w3 saves n' plain.1 a s3))
        | inl e ↦
            let (x, w2, e2, s2) = pg.fails (plain_text s) [] w1 d (n ∷ saves) n plain.0 s1 e in
            let (r3, w3, e3, s3) = pg.rolls_back_to w2 d saves n s2 in
            elim (Bool-cases stop) [
              | inl t ↦ rw t (
                  subst (Looped d true i (s ∷ ss) p w)
                    (sym (outcome_given_up applied i s ss n (failed_index p.first_failed) e))
                    (given_up d i s ss p w w3 x (n ∷ saves) n (rw (e1, e2, e3) refl) s3))
              | inr f ↦ rw f (
                  subst (Looped d false i (s ∷ ss) p w)
                    (sym (outcome_skipped applied i s ss n (failed_index p.first_failed) e))
                    (later d false i s ss p (noted i x p) w w3 false _ (rw (e1, e2, e3) refl)
                      (flags-snoc p.results (failed x))
                      (subst
                        (λ k.
                          Looped d false (i + 1) ss (noted i x p) w3
                            (outcome applied false (i + 1) ss n k))
                        (failed_index-or_first p.first_failed i x)
                        (loop-Looped d false (i + 1) ss (noted i x p) w3 (n ∷ saves) n plain.1 a
                          s3))))
            ]
      ]

  -- What `execute_batch` from `w` gives, and the state that it leaves: an exception only from the
  -- pool or a failed commit, with the data as it was; or a report that agrees with the outcome.
  abbrev pub Batched : D → List String → W → Outcome D → Answer BatchResult → Tx D → Type 0
  Batched d ss w o (raised e) t =
      (t ≡ idle d)
      × (((server.checkout w).0 ≡ raised e)
          ⊎ ((w1 : W) × ((server.exec commit_stmt [] w1).0 ≡ raised e)))
  Batched d ss w o (returned b) t =
      (b.committed ≡ not o.aborted)
      × (b.statement_count ≡ length ss)
      × (flags_of b.results ≡ o.flags)
      × (failed_index b.first_failed ≡ o.first)
      × (t ≡ idle (if o.aborted then d else o.result))

  abbrev Ended : D → List String → W → Outcome D → Answer BatchResult × W → Type 0
  Ended d ss w o a = Batched d ss w o a.0 (state a.1)

  leave-Ended :
      (d : D) (ss : List String) (w : W) (o : Outcome D) (a : Answer BatchResult × W)
      → ((t : D) → state a.1 ≡ idle t → state (leave server a).1 ≡ idle t)
      → Ended d ss w o a
      → Ended d ss w o (leave server a)
  leave-Ended d ss w o (returned b, w') kept h = (h.0, h.1, h.2, h.3, kept _ h.4)
  leave-Ended d ss w o (raised e, w') kept h = (kept d h.0, h.1)

  leave_idle :
      (a : Answer BatchResult × W) (t : D) → state a.1 ≡ idle t → state (leave server a).1 ≡ idle t
  leave_idle (returned b, w') t h = pg.putback_idle false w' t h
  leave_idle (raised e, w') t h = pg.putback_idle true w' t h

  close-Ended :
      (d : D) (ss : List String) (w : W) (o : Outcome D) (q : Progress) (w1 : W) (saves : List D)
      → state w1 ≡ open_tx d saves o.result
      → q.aborted ≡ o.aborted
      → flags_of q.results ≡ o.flags
      → failed_index q.first_failed ≡ o.first
      → Ended d ss w o (close_batch server (length ss) q w1)
  close-Ended d ss w o q w1 saves h a fl fi = elim (Bool-cases o.aborted) [
    | inl yes_aborted ↦
        let (r, w2, e, s) = pg.rolls_back w1 d saves o.result h in
        rw (a ∙ yes_aborted, e) (ap not (sym yes_aborted), refl, fl, fi, rw yes_aborted s)
    | inr not_aborted ↦ elim (pg.commits w1 d saves o.result h) [
      | inl (r, w2, e, s) ↦
          rw (a ∙ not_aborted, e) (ap not (sym not_aborted), refl, fl, fi, rw not_aborted s)
      | inr (x, w2, e, s) ↦ rw (a ∙ not_aborted, e) (s, inr (w1, ap (λ p. p.0) e))
    ]
  ]

  -- A batch of statements, none of them transaction control, that starts in no transaction. It
  -- returns a report unless the pool gives no connection or the commit fails, which leave the data
  -- as it was. The report says whether the batch was committed, how each statement went and which
  -- failed first, as the outcome has it. The data are then the outcome's, or as they were where an
  -- error ended the batch, and the connection is in no transaction.
  pub execute_batch-refines :
      (ss : List String) (stop_on_error : Bool) (w : W) (d : D)
      → All (λ s. IsPlain (plain_text s)) ss
      → state w ≡ idle d
      → let (a, w') = execute_batch server ss stop_on_error w in
        Batched d ss w (outcome applied stop_on_error 0 ss d none) a (state w')
  unfolding execute_batch
  execute_batch-refines ss stop w d plain h = elim (Answer-cases (server.checkout w)) [
    | inr (e, w1, q) ↦ rw q (ready w1 (ap (λ p. p.1) q), inl (ap (λ p. p.0) q))
    | inl (u, w1, q) ↦
        let (r, w2, e2, s2) = pg.begins w1 d (ready w1 (ap (λ p. p.1) q)) in
        let run = loop-Looped d stop 0 ss started w2 [] d plain refl s2 in
        rw (q, e2, run.runs)
          (leave-Ended d ss w (outcome applied stop 0 ss d none)
            (close_batch server (length ss) run.end run.world) (leave_idle _)
            (close-Ended d ss w (outcome applied stop 0 ss d none) run.end run.world run.saves
              run.opened run.aborted run.flags run.first))
  ]
    where
      ready : (w1 : W) → (server.checkout w).1 ≡ w1 → state w1 ≡ idle d
      ready w1 q = sym (ap state q) ∙ pg.checkout w d h

  -- All or nothing: a batch that stops on errors, of statements that are no transaction control. If
  -- it reports a commit, every statement had succeeded, and the data are those after all of them;
  -- if it reports none, some statement failed, and the data are as they were; and so they are
  -- where it raises.
  pub execute_batch_atomic :
      (ss : List String) (w : W) (d : D)
      → All (λ s. IsPlain (plain_text s)) ss
      → state w ≡ idle d
      → let (a, w') = execute_batch server ss true w in
        ((b : BatchResult) × (d' : D) × (a ≡ returned b)
          × (b.committed ≡ true)
          × (all_applied applied ss d ≡ some d')
          × (state w' ≡ idle d'))
        ⊎ ((b : BatchResult) × (a ≡ returned b)
            × (b.committed ≡ false)
            × (all_applied applied ss d ≡ none)
            × (state w' ≡ idle d))
        ⊎ ((e : String) × (a ≡ raised e) × (state w' ≡ idle d))
  execute_batch_atomic ss w d plain h =
      let (a, w') = execute_batch server ss true w in
      by_answer a (state w') (execute_batch-refines ss true w d plain h)
    where
      o : Outcome D
      o = outcome applied true 0 ss d none

      by_outcome :
          (b : BatchResult) (t : Tx D)
          → Batched d ss w o (returned b) t
          → ((o.aborted ≡ false) × (all_applied applied ss d ≡ some o.result))
            ⊎ ((o.aborted ≡ true) × (all_applied applied ss d ≡ none))
          → ((b' : BatchResult) × (d' : D) × (returned b ≡ returned b')
              × (b'.committed ≡ true)
              × (all_applied applied ss d ≡ some d')
              × (t ≡ idle d'))
            ⊎ ((b' : BatchResult) × (returned b ≡ returned b')
                × (b'.committed ≡ false)
                × (all_applied applied ss d ≡ none)
                × (t ≡ idle d))
            ⊎ ((e : String) × (returned b ≡ raised e) × (t ≡ idle d))
      by_outcome b t k (inl (f, all)) = inl (
        b,
        o.result,
        refl,
        k.0 ∙ ap not f,
        all,
        k.4 ∙ ap (λ c. idle (if c then d else o.result)) f,
      )
      by_outcome b t k (inr (f, nothing)) = inr (
          inl
            (b, refl, k.0 ∙ ap not f, nothing, k.4 ∙ ap (λ c. idle (if c then d else o.result)) f))

      by_answer :
          (a : Answer BatchResult) (t : Tx D)
          → Batched d ss w o a t
          → ((b : BatchResult) × (d' : D) × (a ≡ returned b)
              × (b.committed ≡ true)
              × (all_applied applied ss d ≡ some d')
              × (t ≡ idle d'))
            ⊎ ((b : BatchResult) × (a ≡ returned b)
                × (b.committed ≡ false)
                × (all_applied applied ss d ≡ none)
                × (t ≡ idle d))
            ⊎ ((e : String) × (a ≡ raised e) × (t ≡ idle d))
      by_answer (returned b) t k = by_outcome b t k (outcome_stop applied 0 ss d none)
      by_answer (raised e) t k = inr (inr (e, refl, k.0))
