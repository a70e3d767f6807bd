-- ===== src/PyText/Regex.antt =====
-- Pieces of Python's backtracking matcher: each takes the text and what has to match behind it,
-- and tries its alternatives in the matcher's order.
use mcp_postgres.Prelude.{
  ℕ, ◌≡◌, refl, ◌≢◌, Bool, false, Option, none, some, [], ◌∷◌, ◌++◌, ◌==◌, if◌then◌else◌, ==_refl,
  inl, inr, Bool-cases,
}
use mcp_postgres.PyText.Chars.{Text, fold_code}

module _ {ℓ} {R : Type ℓ} where
  abbrev pub or_else : Option R → Option R → Option R
  or_else none b = b
  or_else (some a) b = some a

  -- `[p]*`, greedy
  unfoldable pub many : (ℕ → Bool) → (Text → Option R) → Text → Option R
  many p k [] = k []
  many p k (c ∷ cs) =
      let longer = many p k cs in if p c then or_else longer (k (c ∷ cs)) else k (c ∷ cs)

  -- `[p]+`, greedy
  unfoldable pub some_of : (ℕ → Bool) → (Text → Option R) → Text → Option R
  unfolding many
  some_of p k [] = none
  some_of p k (c ∷ cs) = if p c then many p k cs else none

  unfoldable pub one : ℕ → (Text → Option R) → Text → Option R
  one d k [] = none
  one d k (c ∷ cs) = if c == d then k cs else none

  -- `re.escape(name)` under `re.IGNORECASE`
  unfoldable pub literal : Text → (Text → Option R) → Text → Option R
  literal [] k s = k s
  literal (n ∷ ns) k [] = none
  literal (n ∷ ns) k (c ∷ cs) =
      let rest = literal ns k cs in if fold_code c == fold_code n then rest else none

  pub many-none :
      (p : ℕ → Bool) (k : Text → Option R) (c : ℕ) (cs : Text)
      → p c ≡ false
      → many p k (c ∷ cs) ≡ k (c ∷ cs)
  unfolding many
  many-none p k c cs h = rw h

  pub literal-append :
      (n : Text) (k : Text → Option R) (rest : Text) → literal n k (n ++ rest) ≡ k rest
  unfolding literal
  literal-append [] k rest = refl
  literal-append (c ∷ n) k rest = rw (==_refl (fold_code c)) (literal-append n k rest)

-- What no continuation yields, the matcher does not yield.
module _ {ℓ} {R : Type ℓ} (r : R) where
  abbrev pub Avoids : (Text → Option R) → Type ℓ
  Avoids k = (s : Text) → k s ≢ some r

  pub or_else-ne : (a b : Option R) → a ≢ some r → b ≢ some r → or_else a b ≢ some r
  or_else-ne none b ha hb = hb
  or_else-ne (some x) b ha hb = ha

  pub many-Avoids : (p : ℕ → Bool) (k : Text → Option R) → Avoids k → Avoids (many p k)
  unfolding many
  many-Avoids p k h [] = h []
  many-Avoids p k h (c ∷ cs) = elim (Bool-cases (p c)) [
    | inl e ↦ rw e (or_else-ne (many p k cs) (k (c ∷ cs)) (many-Avoids p k h cs) (h (c ∷ cs)))
    | inr e ↦ rw e (h (c ∷ cs))
  ]

  pub some_of-Avoids : (p : ℕ → Bool) (k : Text → Option R) → Avoids k → Avoids (some_of p k)
  unfolding some_of
  some_of-Avoids p k h [] = λ e. cc
  some_of-Avoids p k h (c ∷ cs) = elim (Bool-cases (p c)) [
    | inl e ↦ rw e (many-Avoids p k h cs)
    | inr e ↦ rw e (λ x. cc)
  ]

  pub literal-Avoids : (n : Text) (k : Text → Option R) → Avoids k → Avoids (literal n k)
  unfolding literal
  literal-Avoids [] k h s = h s
  literal-Avoids (c ∷ n) k h [] = λ e. cc
  literal-Avoids (c ∷ n) k h (d ∷ s) = elim (Bool-cases (fold_code d == fold_code c)) [
    | inl e ↦ rw e (literal-Avoids n k h s)
    | inr e ↦ rw e (λ x. cc)
  ]
