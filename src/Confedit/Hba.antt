-- ===== src/Confedit/Hba.antt =====
-- `append_hba_rule`: the rule is there afterwards, once, behind what was there.
use mcp_postgres.Prelude.{
  ◌≡◌, refl, ap, ◌∙◌, Bool, true, false, ◌||◌, [], ◌∷◌, ◌++◌, Bool-cases, inl, inr, any_of,
  any_of-append,
}
use mcp_postgres.PyText.{Text, text_eq, text_eq_refl}
use mcp_postgres.PyText.Lines.{
  split_lines, newline, unlines, IsLine, IsBreakFree, split_lines-unlines, ends_in, ends_in-append,
  split_lines-append,
}
use mcp_postgres.PyText.Strip.{strip, strip-strip, All-strip}
use mcp_postgres.Confedit.{append_hba_rule, norm}

-- Some line of the text is the rule, up to blanks around both.
unfoldable pub has_rule : Text → Text → Bool
has_rule content rule = any_of (λ line. text_eq (strip line) (strip rule)) (split_lines content)

ends_in-norm : (content : Text) → ends_in 10 (norm content) ≡ true
unfolding norm ends_in
ends_in-norm content = elim (Bool-cases (ends_in 10 content)) [
  | inl e ↦ rw e e
  | inr e ↦ rw e (ends_in-append content 10 [] refl)
]

split_lines-rule : (r : Text) → IsLine r → split_lines (r ++ newline) ≡ r ∷ []
split_lines-rule r h = unfold unlines in split_lines-unlines (r ∷ []) (h, tt)

or_true : (b : Bool) → (b || true) ≡ true
or_true true = refl
or_true false = refl

norm_fixed : (content : Text) → ends_in 10 content ≡ true → norm content ≡ content
unfolding norm
norm_fixed content e = rw e

module _ (content rule : Text) (h : IsLine rule) where
  lines_after_append :
      split_lines (norm content ++ (strip rule ++ newline))
      ≡ split_lines (norm content) ++ strip rule ∷ []
  lines_after_append =
      split_lines-append (norm content) (strip rule ++ newline) (ends_in-norm content)
      ∙ ap (◌++◌ (split_lines (norm content)))
          (split_lines-rule (strip rule) (All-strip IsBreakFree rule h))

  found_after_append :
      any_of
        (λ line. text_eq (strip line) (strip rule))
        (split_lines (norm content) ++ strip rule ∷ [])
      ≡ true
  found_after_append =
      any_of-append _ (split_lines (norm content)) (strip rule ∷ [])
      ∙ ap
          (λ (b : Bool).
            any_of (λ line. text_eq (strip line) (strip rule)) (split_lines (norm content))
            || (b || false))
          (ap (λ (t : Text). text_eq t (strip rule)) (strip-strip rule) ∙ text_eq_refl (strip rule))
      ∙ or_true _

  found_at :
      any_of
        (λ line. text_eq (strip line) (strip rule))
        (split_lines (norm content ++ (strip rule ++ newline)))
      ≡ true
  found_at =
      ap (any_of (λ line. text_eq (strip line) (strip rule))) lines_after_append
      ∙ found_after_append

  -- A rule on one line is among the lines afterwards, and appending it again changes nothing.
  pub append_hba_rule_again :
      let (content', added) = append_hba_rule content rule in
      (has_rule content' rule ≡ true) × (append_hba_rule content' rule ≡ (content', false))
  unfolding append_hba_rule has_rule
  append_hba_rule_again = elim (Bool-cases (has_rule content rule)) [
    | inl e ↦ rw (e, has_rule) (e, rw e)
    | inr e ↦ rw (e, has_rule) (found_at, rw found_at)
  ]

  -- Behind a text that ends in a line feed, a new rule is one more line.
  pub append_hba_rule_lines :
      ends_in 10 content ≡ true
      → has_rule content rule ≡ false
      → let (content', added) = append_hba_rule content rule in
        (split_lines content' ≡ split_lines content ++ strip rule ∷ []) × (added ≡ true)
  unfolding append_hba_rule has_rule
  append_hba_rule_lines e absent =
      rw absent (
        lines_after_append ∙ ap (λ t. split_lines t ++ strip rule ∷ []) (norm_fixed content e),
        refl,
      )
