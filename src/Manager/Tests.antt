-- ===== src/Manager/Tests.antt =====
-- Runs and an instance of the theorem on the manager, over pools that are known by their number of
-- openings: the world is the list of the pools that are open.
use mathlib.Core.List
use mathlib.Mathlib.Data.Multiset.Defs.{Multiset, of_list}
use mathlib.Mathlib.Data.Multiset.ZeroCons.{cons}
use mathlib.Mathlib.Data.Multiset.AddSub.{erase, coe-erase, erase-cons-head}
use native.Mathlib.Decide.{ℕ_discrete}
use mcp_postgres.Capabilities.Steady.{IsSteady}
use mcp_postgres.Manager.Pooled.{IsPools, IsPooled, run, gets, switches, closes, run-IsPooled}
use mcp_postgres.Prelude.{
  sym, ap, ◌∙◌, String, ℕ, ◌≡◌, refl, true, not, none, List, [], ◌∷◌, length, keep, ◌==◌,
}
use mcp_postgres.Effect.{Answer, returned, raised}
use mcp_postgres.Capabilities.{Host, db_info, probe_db}
use mcp_postgres.Manager.{
  Pools, Running, new_manager, find, put, remove, get, current_target, switch, close,
}

-- No query of a probe is answered.
abbrev unreachable : Host (List ℕ)
unreachable = record {
  monotonic = λ w. (0, w);
  check = λ w. (returned true, w);
  role_row = λ w. (raised "connection refused", w);
  can_create = λ w. (raised "connection refused", w);
  current_setting = λ name w. (raised "connection refused", w);
}

abbrev pools : Pools (List ℕ) ℕ
pools = record {
  open_pool = λ name w. (returned (length w), length w ∷ w);
  close_pool = λ p w. keep (λ q. not (p == q)) w;
  host = λ p. unreachable;
}

abbrev begun : Running (List ℕ) ℕ
begun = (get pools 5 none (record { manager = new_manager "postgres"; world = [] })).1

-- What the runs below compute with.
evaluate : Unit {0}
unfolding find put remove get current_target switch db_info probe_db
evaluate = tt

opened_run : begun.world ≡ 0 ∷ []
unfolding evaluate
opened_run = refl

-- A failure takes back the pool that it opened.
failed_run : (switch pools 5 "sales" begun).1.world ≡ 0 ∷ []
unfolding evaluate
failed_run = refl

-- An empty name stands for the current database in `get`, but not in `use`: the pool of the
-- current database is closed, and its entry stays.
empty_name_run :
    let r = (switch pools 5 "" begun).1 in
    (r.world ≡ []) × (length r.manager.targets ≡ 1) × (r.manager.current ≡ "postgres")
unfolding evaluate
empty_name_run = (refl, refl, refl)

closed_run : (close pools 5 begun).world ≡ []
unfolding evaluate close
closed_run = refl

-- The pools with a library that closes one pool at a time.
abbrev exact : Pools (List ℕ) ℕ
exact = record {
  open_pool = λ name w. (returned (length w), length w ∷ w);
  close_pool = λ p w. List.erase ℕ_discrete w p;
  host = λ p. unreachable;
}

exact-closes :
    (p : ℕ) (w : List ℕ) (rest : Multiset ℕ)
    → of_list w ≡ cons p rest
    → of_list (List.erase ℕ_discrete w p) ≡ rest
exact-closes p w rest e =
    sym (coe-erase ℕ_discrete w p)
    ∙ ap (λ m. erase ℕ_discrete m p) e
    ∙ erase-cons-head ℕ_discrete p rest

unreachable-IsSteady : IsSteady unreachable (λ w. of_list w)
unreachable-IsSteady = record {
  monotonic = λ w. refl;
  role_row = λ w. refl;
  can_create = λ w. refl;
  current_setting = λ name w. refl;
}

exact-opens :
    (name : String) (w w' : List ℕ) (p : ℕ)
    → exact.open_pool name w ≡ (returned p, w')
    → of_list w' ≡ cons p (of_list w)
exact-opens name w w' p e =
    sym (ap (λ (a : Answer ℕ × List ℕ). of_list a.1) e)
    ∙ ap (λ n. cons n (of_list w)) (opened_id (ap (λ (a : Answer ℕ × List ℕ). a.0) e))
  where
    opened_id : returned (length w) ≡ returned p → length w ≡ p
    opened_id h = cc

exact-IsPools : IsPools exact (λ w. of_list w)
exact-IsPools = record {
  opens = exact-opens;
  fails = λ name x w w' e. cc (e);
  closes = exact-closes;
  steady = λ p. unreachable-IsSteady;
}

run-IsPooled_example :
    IsPooled
      (λ w. of_list w)
      (run exact 5
        (gets none ∷ switches "sales" ∷ closes ∷ [])
        (record { manager = new_manager "postgres"; world = [] }))
run-IsPooled_example =
    run-IsPooled exact 5 (λ w. of_list w) (gets none ∷ switches "sales" ∷ closes ∷ [])
      (record { manager = new_manager "postgres"; world = [] }) exact-IsPools (tt, (refl, (tt, tt)))
      refl
