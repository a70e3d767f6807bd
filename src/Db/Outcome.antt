-- ===== src/Db/Outcome.antt =====
-- What a batch of statements comes to, with no connection and no transaction: the description that
-- `execute_batch` of db.py is held against.
use mcp_postgres.Prelude.{
  ℕ, ◌+◌, ◌≡◌, refl, ◌⊎◌, inl, inr, Bool, true, false, Option, none, some, Option-cases, List, [],
  ◌∷◌, String,
}
use mcp_postgres.Db.{or_first}

-- What a batch comes to: the data that its transaction ends with, which statements succeeded, the
-- index of the first that did not, and whether the batch was given up.
pub record Outcome (D : Type 0) : Type 0 where
  pub result : D
  pub flags : List Bool
  pub first : Option ℕ
  pub aborted : Bool

abbrev pub flag : {D : Type 0} → Bool → Outcome D → Outcome D
flag b o = record o { flags = b ∷ o.flags }

module _ {D : Type 0} (run : String → D → Option D) where
  -- One statement after the other on the data: a failing one changes nothing, and ends the batch if
  -- it is to stop on errors.
  unfoldable pub outcome : Bool → ℕ → List String → D → Option ℕ → Outcome D
  outcome stop i [] n first = record { result = n; flags = []; first = first; aborted = false }
  outcome stop i (s ∷ ss) n first = elim (run s n) [
    | some n' ↦ flag true (outcome stop (i + 1) ss n' first)
    | none ↦ elim stop [
      | true ↦ record { result = n; flags = false ∷ []; first = or_first first i; aborted = true }
      | false ↦ flag false (outcome stop (i + 1) ss n (or_first first i))
    ]
  ]

  -- every statement after the other, if all succeed
  abbrev pub all_applied : List String → D → Option D
  all_applied [] n = some n
  all_applied (s ∷ ss) n = elim (run s n) [ none ↦ none | some n' ↦ all_applied ss n' ]

  -- the three ways of one round
  pub outcome_done :
      (stop : Bool) (i : ℕ) (s : String) (ss : List String) (n n' : D) (first : Option ℕ)
      → run s n ≡ some n'
      → outcome stop i (s ∷ ss) n first ≡ flag true (outcome stop (i + 1) ss n' first)
  unfolding outcome
  outcome_done stop i s ss n n' first e = rw (e, outcome) refl

  pub outcome_given_up :
      (i : ℕ) (s : String) (ss : List String) (n : D) (first : Option ℕ)
      → run s n ≡ none
      → outcome true i (s ∷ ss) n first
        ≡ record { result = n; flags = false ∷ []; first = or_first first i; aborted = true }
  unfolding outcome
  outcome_given_up i s ss n first e = rw (e, outcome) refl

  pub outcome_skipped :
      (i : ℕ) (s : String) (ss : List String) (n : D) (first : Option ℕ)
      → run s n ≡ none
      → outcome false i (s ∷ ss) n first
        ≡ flag false (outcome false (i + 1) ss n (or_first first i))
  unfolding outcome
  outcome_skipped i s ss n first e = rw (e, outcome) refl

  pub all_applied-none :
      (s : String) (ss : List String) (n : D) → run s n ≡ none → all_applied (s ∷ ss) n ≡ none
  all_applied-none s ss n e = rw (e, all_applied) refl

  pub all_applied-some :
      (s : String) (ss : List String) (n n' : D)
      → run s n ≡ some n'
      → all_applied (s ∷ ss) n ≡ all_applied ss n'
  all_applied-some s ss n n' e = rw (e, all_applied) refl

  pub outcome_stop :
      (i : ℕ) (ss : List String) (n : D) (first : Option ℕ)
      → let o = outcome true i ss n first in
        ((o.aborted ≡ false) × (all_applied ss n ≡ some o.result))
        ⊎ ((o.aborted ≡ true) × (all_applied ss n ≡ none))
  unfolding outcome
  outcome_stop i [] n first = inl (refl, refl)
  outcome_stop i (s ∷ ss) n first = elim (Option-cases (run s n)) [
    | inl e ↦ rw (outcome_given_up i s ss n first e, all_applied-none s ss n e) (inr (refl, refl))
    | inr (n', e) ↦
        rw (outcome_done true i s ss n n' first e, all_applied-some s ss n n' e)
          (outcome_stop (i + 1) ss n' first)
  ]
