-- ===== src/Tools/Observability/Prefix.antt =====
-- tools/observability.py: what the pattern of `_like_prefix` matches.
use Prim.Native.Char.{Char, code}
use mcp_postgres.Prelude.{
  ℕ, ◌≡◌, refl, ap, ◌∙◌, inl, inr, Bool, true, false, ◌&&◌, ◌||◌, Bool-cases, String, arith, ◌==◌,
  if◌then◌else◌,
}
use mcp_postgres.Tools.Observability.{escape, with_percent, like_prefix}

abbrev pub is_special : ℕ → Bool
is_special c = c == 92 || (c == b'%' || c == b'_')

-- a text whose first character is the given one, with a rest that passes
abbrev pub then_rest : Char → (String → Bool) → String → Bool
then_rest c rest String.[] = false
then_rest c rest (String.◌∷◌ d t) = code c == code d && rest t

-- What PostgreSQL documents of `t LIKE p`: a character behind a backslash and any other character
-- but the two wildcards stand for themselves, and a percent sign at the end matches all.
pub record IsLike (like : String → String → Bool) : Type 0 where
  pub escaped :
      (c : Char) (p t : String) → like (String.◌∷◌ "\\" (String.◌∷◌ c p)) t ≡ then_rest c (like p) t
  pub plain :
      (c : Char) (p t : String)
      → is_special (code c) ≡ false
      → like (String.◌∷◌ c p) t ≡ then_rest c (like p) t
  pub percent : (t : String) → like "%" t ≡ true

-- whether the first text begins the second
unfoldable pub begins : String → String → Bool
begins String.[] t = true
begins (String.◌∷◌ c v) t = then_rest c (begins v) t

like_prefix-cons :
    (c : Char) (v : String)
    → like_prefix (String.◌∷◌ c v) ≡ (
        if is_special (code c)
        then String.◌∷◌ "\\" (String.◌∷◌ c (like_prefix v))
        else String.◌∷◌ c (like_prefix v))
unfolding like_prefix escape with_percent
like_prefix-cons c v = ground arith

module _ (like : String → String → Bool) (documented : IsLike like) where
  step :
      (c : Char) (p t : String)
      → like (if is_special (code c) then String.◌∷◌ "\\" (String.◌∷◌ c p) else String.◌∷◌ c p) t
        ≡ then_rest c (like p) t
  step c p t = elim (Bool-cases (is_special (code c))) [
    | inl e ↦ rw (e) (documented.escaped c p t)
    | inr e ↦ rw (e) (documented.plain c p t e)
  ]

  -- For any text of a caller, wildcards and backslashes included: what the pattern matches are the
  -- texts that begin with it, and no others.
  pub like_prefix_lem : (v t : String) → like (like_prefix v) t ≡ begins v t
  unfolding like_prefix escape with_percent begins
  like_prefix_lem String.[] t = documented.percent t
  like_prefix_lem (String.◌∷◌ c v) t =
      ap (λ p. like p t) (like_prefix-cons c v)
      ∙ step c (like_prefix v) t
      ∙ rest (λ u. like_prefix_lem v u) t
    where
      rest :
          ((u : String) → like (like_prefix v) u ≡ begins v u)
          → (u : String) → then_rest c (like (like_prefix v)) u ≡ begins (String.◌∷◌ c v) u
      rest ih String.[] = refl
      rest ih (String.◌∷◌ d u) = ap (λ b. code c == code d && b) (ih u)
