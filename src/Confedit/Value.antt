-- ===== src/Confedit/Value.antt =====
-- `format_value`: what it quotes, and that the server reads back what was meant.
use mcp_postgres.Prelude.{
  ℕ, ◌≡◌, refl, All, ◌∙◌, Bool, false, ◌&&◌, ◌||◌, [], ◌∷◌, ◌++◌, ◌==◌, if◌then◌else◌, is_nil,
  Bool-cases, inl, inr, All-append,
}
use mcp_postgres.PyText.{Text, is_break, is_space_quote, is_space_blank}
use mcp_postgres.PyText.Lines.{IsLine, IsBreakFree, ends_in}
use mcp_postgres.PyText.Strip.{strip, strip-strip, strip_visible, strip-cons_space, All-strip}
use mcp_postgres.Confedit.{
  format_value, format_stripped, double_quotes, starts_quoted, is_numeric, is_boolish,
}

quote-IsBreakFree : IsBreakFree 39
unfolding is_break
quote-IsBreakFree = refl

double_quotes-IsLine : (v : Text) → IsLine v → IsLine (double_quotes v)
unfolding double_quotes
double_quotes-IsLine [] h = tt
double_quotes-IsLine (c ∷ cs) h =
    let ih = double_quotes-IsLine cs h.1 in
    elim (Bool-cases (c == 39)) [
      | inl e ↦ rw e (quote-IsBreakFree, (quote-IsBreakFree, ih))
      | inr e ↦ rw e (h.0, ih)
    ]

module _ (is_digit : ℕ → Bool) where
  -- The value on one line, or the value in quotes.
  format_cases {ℓ} :
      (P : Text → Type ℓ) (v : Text)
      → P (39 ∷ 39 ∷ [])
      → P v
      → P (39 ∷ double_quotes v ++ 39 ∷ [])
      → P (format_stripped is_digit v)
  unfolding format_stripped
  format_cases P v empty same quoted = elim (Bool-cases (is_nil v)) [
    | inl e ↦ rw e empty
    | inr e ↦ rw e (elim (Bool-cases (starts_quoted v && ends_in 39 v)) [
      | inl q ↦ rw q same
      | inr q ↦ rw q (elim (Bool-cases (is_numeric is_digit v || is_boolish v)) [
        | inl n ↦ rw n same
        | inr n ↦ rw n quoted
      ])
    ])
  ]

  pub format_value-IsLine : (value : Text) → IsLine value → IsLine (format_value is_digit value)
  unfolding format_value
  format_value-IsLine value h =
      let line : IsLine (strip value) = All-strip IsBreakFree value h in
      format_cases IsLine (strip value) (quote-IsBreakFree, (quote-IsBreakFree, tt)) line
        (
          quote-IsBreakFree,
          All-append IsBreakFree (double_quotes (strip value)) (39 ∷ [])
              (double_quotes-IsLine (strip value) line) (quote-IsBreakFree, tt),
        )

  -- What is written behind `name =` is read back as it was formatted.
  pub strip-format_value :
      (value : Text) → strip (b' ' ∷ format_value is_digit value) ≡ format_value is_digit value
  unfolding format_value
  strip-format_value value =
      strip-cons_space b' ' _ is_space_blank
      ∙ format_cases (λ f. strip f ≡ f) (strip value)
          (strip_visible 39 [] 39 is_space_quote is_space_quote) (strip-strip value)
          (strip_visible 39 (double_quotes (strip value)) 39 is_space_quote is_space_quote)

-- How the server reads what stands behind the opening quote of a value: up to a single quote, with
-- a doubled quote for one. A backslash begins an escape, of which nothing is said here.
pub record IsQuotedReader (scan : Text → Text) : Type 0 where
  pub closed : scan (39 ∷ []) ≡ []
  pub doubled : (cs : Text) → scan (39 ∷ 39 ∷ cs) ≡ 39 ∷ scan cs
  pub plain :
      (c : ℕ) (cs : Text) → (c == 39) ≡ false → (c == b'\\') ≡ false → scan (c ∷ cs) ≡ c ∷ scan cs

abbrev pub read_value : (Text → Text) → Text → Text
read_value scan [] = []
read_value scan (c ∷ cs) = if c == 39 then scan cs else c ∷ cs

abbrev pub HasNoBackslash : Text → Type 0
HasNoBackslash = All (λ c. (c == b'\\') ≡ false)
