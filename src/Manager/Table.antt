-- ===== src/Manager/Table.antt =====
-- manager.py: the pools of a table of targets, as a multiset.
use mathlib.Mathlib.Data.Multiset.Defs.{Multiset}
use mathlib.Mathlib.Data.Multiset.ZeroCons.{zero as no_pools, cons, cons-swap}
use mcp_postgres.Prelude.{
  ◌≡◌, refl, ap, ◌∙◌, inl, inr, none, some, Bool-cases, String, str_eq, eq_iff, [], ◌∷◌, arith,
}
use mcp_postgres.Manager.{Target, Targets, find, put, remove}

-- the pools of a table
abbrev pub pools_of : {P : Type 0} → Targets P → Multiset P
pools_of [] = no_pools
pools_of ((k, t) ∷ ts) = cons t.db (pools_of ts)

module _ {P : Type 0} where
  pub put_new :
      (k : String) (t : Target P) (ts : Targets P)
      → find k ts ≡ none
      → pools_of (put k t ts) ≡ cons t.db (pools_of ts)
  unfolding find put
  put_new k t [] e = refl
  put_new k t ((j, u) ∷ ts) e = elim (Bool-cases (str_eq j k)) [
    | inl h ↦ cc (rw h at e)
    | inr h ↦
        rw (h) (ap (cons u.db) (put_new k t ts (rw h at e)) ∙ cons-swap u.db t.db (pools_of ts))
  ]

  pub put_same :
      (k : String) (t u : Target P) (ts : Targets P)
      → find k ts ≡ some u
      → t.db ≡ u.db
      → pools_of (put k t ts) ≡ pools_of ts
  unfolding find put
  put_same k t u [] e same = cc (e)
  put_same k t u ((j, v) ∷ ts) e same = elim (Bool-cases (str_eq j k)) [
    | inl h ↦ rw (h) (ap (λ p. cons p (pools_of ts)) (same ∙ kept (rw h at e)))
    | inr h ↦ rw (h) (ap (cons v.db) (put_same k t u ts (rw h at e) same))
  ]
    where
      kept : some v ≡ some u → u.db ≡ v.db
      kept d = cc

  pub remove-absent : (k : String) (ts : Targets P) → find k ts ≡ none → remove k ts ≡ ts
  unfolding find remove
  remove-absent k [] e = refl
  remove-absent k ((j, u) ∷ ts) e = ground (arith, remove-absent k ts)

  pub remove-put :
      (k : String) (t : Target P) (ts : Targets P) → find k ts ≡ none → remove k (put k t ts) ≡ ts
  unfolding find put remove
  remove-put k t [] e = ground (arith, eq_iff k k)
  remove-put k t ((j, u) ∷ ts) e = ground (arith, remove-put k t ts)

  pub find-put_same : (k : String) (t : Target P) (ts : Targets P) → find k (put k t ts) ≡ some t
  unfolding find put
  find-put_same k t [] = ground (arith, eq_iff k k)
  find-put_same k t ((j, u) ∷ ts) = ground (arith, find-put_same k t ts)

  pub put-put : (k : String) (t u : Target P) (ts : Targets P) → put k t (put k u ts) ≡ put k t ts
  unfolding put
  put-put k t u [] = ground (arith, eq_iff k k)
  put-put k t u ((j, v) ∷ ts) = ground (arith, put-put k t u ts)
