-- ===== src/Confedit/Setting.antt =====
-- What `set_conf_value` leaves behind: one live line of the setting, with the value; every other
-- line as it was; and a report of what was there.
use mcp_postgres.Prelude.{
  ℕ, zero, suc, ◌≡◌, refl, sym, ap, ap₂, ◌∙◌, ◌≢◌, subst, Bool, true, false, not, Option, none,
  some, List, [], ◌-◌, ◌∷◌, ◌++◌, ◌==◌, arith, length, get_elem?, set, is_nil, keep, any_of, All,
  All-append, if◌then◌else◌, ==_iff, inl, inr, ◌⊎◌,
}
use mathlib.Core.Option
use mcp_postgres.PyText.{Text, lit, is_break, text_eq, text_eq_refl}
use mcp_postgres.PyText.Lines.{
  split_lines, join, newline, IsLine, IsBreakFree, split_lines-IsLine, ends_in, ends_in-append,
}
use mcp_postgres.PyText.Strip.{strip}
use mcp_postgres.Confedit.{
  Action, replaced, deduplicated, uncommented, appended, SetConfResult, set_conf_value,
  update_lines, format_value, match_setting, active_mark, commented_mark, is_active, is_commented,
  positions, init, setting_line, value_of, after_equals, norm,
}
use mcp_postgres.Confedit.Match.{IsName, is_active-setting}
use mcp_postgres.Confedit.Edit.{
  get_elem?-rewrite_active, last_of, line_at_last, line_at_last-positions, length-positions,
  is_nil-positions,
}
use mcp_postgres.Confedit.Passes.{
  edited, edited_cases, edited-not_nil, edited-IsLine, keep-edited, edited_fixed, split-joined,
  name-IsLine, content-update_lines,
}
use mcp_postgres.Confedit.Value.{format_value-IsLine, strip-format_value}

module _ (is_digit : ℕ → Bool) (content name value : Text) (n : IsName name)
    (v : IsLine value) where
  abbrev written : Text
  written = (set_conf_value is_digit content name value).content

  setting-IsLine : IsLine (setting_line is_digit name value)
  unfolding lit is_break
  setting-IsLine =
      All-append IsBreakFree name _ (name-IsLine name n)
        (refl, (refl, (refl, format_value-IsLine is_digit value v)))

  lines-written :
      split_lines written ≡ edited name (setting_line is_digit name value) (split_lines content)
  unfolding set_conf_value
  lines-written =
      let nl = setting_line is_digit name value in
      let ls = split_lines content in
      ap split_lines (content-update_lines content nl ls _ _)
      ∙ split-joined (edited name nl ls) (edited-not_nil name nl ls)
          (edited-IsLine name nl ls setting-IsLine (split_lines-IsLine content))

  -- After the edit the setting has one live line, which is the new one. The name is visible text
  -- without a comment mark in front, and name and value stand on one line.
  pub set_conf_value-one_active :
      keep (is_active name) (split_lines written) ≡ setting_line is_digit name value ∷ []
  set_conf_value-one_active =
      ap (keep (is_active name)) lines-written
      ∙ keep-edited name _ (split_lines content) n (is_active-setting name _ n)

-- What is reported as the action, from the number of active lines and whether one is commented.
abbrev pub expected_action : ℕ → Bool → Action
expected_action zero true = uncommented
expected_action zero false = appended
expected_action (suc zero) c = replaced
expected_action (suc (suc k)) c = deduplicated

abbrev Reports : SetConfResult → List ℕ → Bool → Option Text → Type 0
Reports r js c line =
    (r.active_occurrences ≡ length js)
    × (r.shadowed_disabled ≡ length js - 1)
    × (r.old_value ≡ value_of line)
    × (r.action ≡ expected_action (length js) c)

length-init : (a : ℕ) (r : List ℕ) → length (init a r) ≡ length r
length-init a [] = refl
length-init a (b ∷ r) = ap suc (length-init b r)

report-update_lines :
    (content nl : Text) (ls : List Text) (js cs : List ℕ)
    → Reports (update_lines content nl ls js cs) js (not (is_nil cs)) (line_at_last js ls)
unfolding update_lines
report-update_lines content nl ls (a ∷ []) cs = (refl, refl, refl, refl)
report-update_lines content nl ls (a ∷ b ∷ js) cs =
    (refl, omega (arith, length-init b js), refl, refl)
report-update_lines content nl ls [] (c ∷ cs) = (refl, refl, refl, refl)
report-update_lines content nl ls [] [] = (refl, refl, refl, refl)

not-not : (b : Bool) → not (not b) ≡ b
not-not true = refl
not-not false = refl

-- The value that a line holds: the text behind its first equals sign, without the blanks around it.
abbrev HasNoEquals : Text → Type 0
HasNoEquals = All (λ d. (d == b'=') ≡ false)

abbrev IsSplitAt : Text → Text → Text → Type 0
IsSplitAt line before v = HasNoEquals before × (line ≡ before ++ b'=' ∷ v)

abbrev pub IsValueOf : Option Text → Option Text → Type 0
IsValueOf none old = old ≡ none
IsValueOf (some line) old =
    (HasNoEquals line × (old ≡ none))
    ⊎ (before : Text) × (v : Text) × IsSplitAt line before v × (old ≡ some (strip v))

later_split :
    (c : ℕ) (cs : Text) (old : Option Text)
    → (c == b'=') ≡ false
    → IsValueOf (some cs) old
    → IsValueOf (some (c ∷ cs)) old
later_split c cs old e (inl (h, o)) = inl ((e, h), o)
later_split c cs old e (inr (before, v, s, o)) =
    inr (c ∷ before, v, ((e, s.0), ap (λ (x : Text). c ∷ x) s.1), o)

at_equals :
    (c : ℕ) (cs : Text) (b : Bool)
    → (c == b'=') ≡ b
    → IsValueOf (some cs) (value_of (some cs))
    → IsValueOf (some (c ∷ cs)) (Option.map strip (if b then some cs else after_equals cs))
at_equals c cs true e ih = inr ([], cs, (tt, ap (λ (d : ℕ). d ∷ cs) ((==_iff c b'=').0 e)), refl)
at_equals c cs false e ih = later_split c cs (value_of (some cs)) e ih

value_of-IsValueOf : (line : Text) → IsValueOf (some line) (value_of (some line))
unfolding after_equals
value_of-IsValueOf [] = inl (tt, refl)
value_of-IsValueOf (c ∷ cs) = at_equals c cs (c == b'=') refl (value_of-IsValueOf cs)

holds_value : (o : Option Text) → IsValueOf o (value_of o)
holds_value none = refl
holds_value (some line) = value_of-IsValueOf line

module _ (is_digit : ℕ → Bool) (content name value : Text) where
  abbrev active_lines : List Text
  active_lines = keep (is_active name) (split_lines content)

  report_lem :
      let r = set_conf_value is_digit content name value in
      (r.active_occurrences ≡ length active_lines)
      × (r.shadowed_disabled ≡ length active_lines - 1)
      × (r.old_value ≡ value_of (last_of active_lines))
      × (r.action
          ≡ expected_action
              (length active_lines)
              (any_of (is_commented name) (split_lines content)))
  unfolding set_conf_value
  report_lem =
      let ls = split_lines content in
      let js = positions (is_active name) 0 ls in
      let cs = positions (is_commented name) 0 ls in
      let r = report-update_lines content (setting_line is_digit name value) ls js cs in
      let count = length-positions (is_active name) 0 ls in
      (
        r.0 ∙ count,
        r.1 ∙ ap (λ (k : ℕ). k - 1) count,
        r.2 ∙ ap value_of (line_at_last-positions (is_active name) ls),
        r.3
            ∙ ap₂ expected_action count
                (ap not (is_nil-positions (is_commented name) 0 ls) ∙ not-not _),
      )

  -- The report: how many lines were active, how many of them are commented out now, which pass made
  -- the edit, and as the old value the text behind the first equals sign of the last active line,
  -- without the blanks around it and with any comment behind the value. There is none without an
  -- active line.
  pub set_conf_value_report :
      let r = set_conf_value is_digit content name value in
      (r.active_occurrences ≡ length active_lines)
      × (r.shadowed_disabled ≡ length active_lines - 1)
      × IsValueOf (last_of active_lines) r.old_value
      × (r.action
          ≡ expected_action
              (length active_lines)
              (any_of (is_commented name) (split_lines content)))
  set_conf_value_report =
      let r = report_lem in
      (
        r.0,
        r.1,
        subst (IsValueOf (last_of active_lines)) (sym r.2) (holds_value (last_of active_lines)),
        r.3,
      )

after_equals-append :
    (name f : Text)
    → All (λ d. (is_break d ≡ false) × ((d == b'=') ≡ false)) name
    → after_equals (name ++ (lit " = " ++ f)) ≡ some (b' ' ∷ f)
unfolding after_equals lit
after_equals-append [] f n = refl
after_equals-append (c ∷ cs) f n = rw n.0.1 (after_equals-append cs f n.1)

after_equals-setting :
    (name f : Text)
    → IsName name
    → value_of (some (name ++ (lit " = " ++ f))) ≡ some (strip (b' ' ∷ f))
after_equals-setting [] f n = absurd n
after_equals-setting (c ∷ cs) f n = ap (Option.map strip) (after_equals-append (c ∷ cs) f n.2)

norm-newline : (t : Text) → norm (t ++ newline) ≡ t ++ newline
unfolding norm ends_in
norm-newline t = rw (ends_in-append t 10 [] refl)

changed-update_lines :
    (content nl : Text) (ls : List Text) (js cs : List ℕ)
    → let r = update_lines content nl ls js cs in r.changed ≡ not (text_eq r.content (norm content))
unfolding update_lines
changed-update_lines content nl ls (a ∷ js) cs = refl
changed-update_lines content nl ls [] (c ∷ cs) = refl
changed-update_lines content nl ls [] [] = refl

get_elem?-set_other :
    (ls : List Text) (i j : ℕ) (l m nl : Text)
    → get_elem? ls i ≡ some l
    → get_elem? ls j ≡ some m
    → l ≢ m
    → get_elem? (set ls j nl) i ≡ some l
get_elem?-set_other [] i j l m nl h k d = cc
get_elem?-set_other (x ∷ ls) zero zero l m nl h k d = absurd (d (ground arith))
get_elem?-set_other (x ∷ ls) zero (suc j) l m nl h k d = h
get_elem?-set_other (x ∷ ls) (suc i) zero l m nl h k d = h
get_elem?-set_other (x ∷ ls) (suc i) (suc j) l m nl h k d = get_elem?-set_other ls i j l m nl h k d

get_elem?-append_left :
    (ls ks : List Text) (i : ℕ) (l : Text)
    → get_elem? ls i ≡ some l
    → get_elem? (ls ++ ks) i ≡ some l
get_elem?-append_left [] ks i l h = cc
get_elem?-append_left (x ∷ ls) ks zero l h = h
get_elem?-append_left (x ∷ ls) ks (suc i) l h = get_elem?-append_left ls ks i l h

module _ (is_digit : ℕ → Bool) (content name value : Text) (n : IsName name)
    (v : IsLine value) where
  -- The same edit once more finds the value, and changes nothing.
  pub set_conf_value_again :
      let first = set_conf_value is_digit content name value in
      let again = set_conf_value is_digit first.content name value in
      (again.content ≡ first.content)
      × (again.changed ≡ false)
      × (again.old_value ≡ some (format_value is_digit value))
      × (again.action ≡ replaced)
  unfolding set_conf_value
  set_conf_value_again =
      let w = written is_digit content name value n v in
      let nl = setting_line is_digit name value in
      let one = set_conf_value-one_active is_digit content name value n v in
      let whole = content-update_lines content nl (split_lines content) _ _ in
      let same : (set_conf_value is_digit w name value).content ≡ w =
        content-update_lines w nl (split_lines w) _ _
        ∙ ap (λ ls. join newline ls ++ newline)
            (edited_fixed name nl (split_lines w) one
              ∙ lines-written is_digit content name value n v)
        ∙ sym whole in
      let report = report_lem is_digit w name value in
      (
        same,
        changed-update_lines w nl (split_lines w) _ _
            ∙ ap not
                (ap₂ text_eq same (ap norm whole ∙ norm-newline _ ∙ sym whole) ∙ text_eq_refl w),
        report.2
            ∙ ap (λ ls. value_of (last_of ls)) one
            ∙ after_equals-setting name (format_value is_digit value) n
            ∙ ap (λ f. some f) (strip-format_value is_digit value),
        report.3
            ∙ ap
                (λ (ls : List Text).
                  expected_action (length ls) (any_of (is_commented name) (split_lines w)))
                one,
      )

  -- A line that the setting's pattern does not match stays where it is.
  pub set_conf_value_other_lines :
      (i : ℕ) (l : Text)
      → get_elem? (split_lines content) i ≡ some l
      → match_setting name l ≡ none
      → get_elem? (split_lines (set_conf_value is_digit content name value).content) i ≡ some l
  set_conf_value_other_lines i l at m =
      let nl = setting_line is_digit name value in
      let ls = split_lines content in
      subst (λ e. get_elem? e i ≡ some l) (sym (lines-written is_digit content name value n v))
        (edited_cases name nl ls (λ e. get_elem? e i ≡ some l)
          (λ live. get_elem?-rewrite_active (is_active name) nl ls i l at (ap active_mark m))
          (λ no j k there marked.
            get_elem?-set_other ls i j l k nl at there
              (λ same. cc (marked, ap commented_mark (ap (match_setting name) (sym same) ∙ m))))
          (λ no. get_elem?-append_left ls (nl ∷ []) i l at))
