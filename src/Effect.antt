-- ===== src/Effect.antt =====
-- Calls that read and change a world and can raise: Python's exceptions as values.
use mcp_postgres.Prelude.{◌≡◌, refl, ◌⊎◌, inl, inr, String, List, [], ◌∷◌}

-- What a call gives: a value, or the text of an exception.
pub data Answer {ℓ} (A : Type ℓ) : Type ℓ where
  returned : A → Answer A
  raised : String → Answer A

-- A call on the world `W`.
abbrev pub Call : Type 0 → Type 0 → Type 0
Call W A = W → Answer A × W

abbrev pub chain : {W A B : Type 0} → (A → Call W B) → Answer A × W → Answer B × W
chain f (returned a, w) = f a w
chain f (raised e, w) = (raised e, w)

infixl 5 ◌>>=◌ ◌>>◌
abbrev pub ◌>>=◌ : {W A B : Type 0} → Call W A → (A → Call W B) → Call W B
◌>>=◌ m f w = chain f (m w)

abbrev pub ◌>>◌ : {W A B : Type 0} → Call W A → Call W B → Call W B
◌>>◌ m k w = chain (λ _. k) (m w)

abbrev pub ret : {W A : Type 0} → A → Call W A
ret a w = (returned a, w)

abbrev pub raise : {W A : Type 0} → String → Call W A
raise e w = (raised e, w)

-- `try: m` with the exception at hand as a value
abbrev pub attempt : {W A : Type 0} → Call W A → Call W (Answer A)
attempt m w = let (a, w') = m w in (returned a, w')

abbrev pub finish : {W A B : Type 0} → Answer A → Answer B × W → Answer A × W
finish a (returned b, w) = (a, w)
finish a (raised e, w) = (raised e, w)

-- `try: m finally: f`: an exception of `f` replaces what `m` gave.
abbrev pub finally : {W A B : Type 0} → Call W A → Call W B → Call W A
finally m f w = let (a, w') = m w in finish a (f w')

abbrev pub value_of : {A : Type 0} → Answer A → List A
value_of (returned a) = a ∷ []
value_of (raised e) = []

-- To split on the outcome of a call and keep the equation.
pub Answer-cases :
    {W A : Type 0} (p : Answer A × W)
    → ((a : A) × (w : W) × (p ≡ (returned a, w))) ⊎ ((e : String) × (w : W) × (p ≡ (raised e, w)))
Answer-cases (returned a, w) = inl (a, w, refl)
Answer-cases (raised e, w) = inr (e, w, refl)
