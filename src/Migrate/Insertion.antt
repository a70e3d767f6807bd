-- ===== src/Migrate/Insertion.antt =====
-- configmigrate.py: the lines that are in effect, before and after an insertion of comments.
use mcp_postgres.Prelude.{
  ◌≡◌, refl, sym, ap, ◌∙◌, inl, inr, Bool, true, false, Bool-cases, Option, none, some, List, [],
  ◌∷◌, ◌++◌, is_nil, ◌==◌, All, append_assoc, append-nil, if◌then◌else◌,
}
use mcp_postgres.PyText.{Text}
use mcp_postgres.PyText.Strip.{lstrip, strip}
use mcp_postgres.Config.{section_of, section_after}
use mcp_postgres.Migrate.{
  is_section, behind, spanned, span_body, trimmed, trim_blanks, insert_behind, insert_at_header,
  ends_visibly, header_of, or_append, insert_into_section,
}

abbrev starts_quietly : Text → Bool
starts_quietly [] = true
starts_quietly (c ∷ cs) = c == b'#'

-- a blank line or a comment
abbrev pub is_quiet : Text → Bool
is_quiet l = starts_quietly (lstrip l)

abbrev pub live :
    Option Text → Option Text → Text → List (Option Text × Text) → List (Option Text × Text)
live (some name) cur l rest = rest
live none cur l rest = if is_quiet l then rest else (cur, l) ∷ rest

-- The lines that are neither headers nor blank nor comments, each with its section.
unfoldable pub active : Option Text → List Text → List (Option Text × Text)
unfolding lstrip
active cur [] = []
active cur (l ∷ ls) =
    let found = section_of l in live found cur l (active (section_after cur found) ls)

abbrev pub IsComment : Text → Type 0
IsComment l = (section_of l ≡ none) × (is_quiet l ≡ true)

abbrev pub IsSectionName : Text → Type 0
IsSectionName s = section_of (header_of s) ≡ some s

module _ (new_lines : List Text) (comments : All IsComment new_lines) where
  active-comments :
      (cur : Option Text) (ls ys : List Text)
      → All IsComment ls
      → active cur (ls ++ ys) ≡ active cur ys
  unfolding active
  active-comments cur [] ys h = refl
  active-comments cur (l ∷ ls) ys ((e, q), h) = rw (e, q) (active-comments cur ls ys h)

  active-within :
      (cur : Option Text) (xs ys : List Text)
      → active cur (xs ++ (new_lines ++ ys)) ≡ active cur (xs ++ ys)
  unfolding active
  active-within cur [] ys = active-comments cur new_lines ys comments
  active-within cur (x ∷ xs) ys =
      ap (live (section_of x) cur x) (active-within (section_after cur (section_of x)) xs ys)

  active-append :
      (cur : Option Text) (xs tail : List Text)
      → ((c : Option Text) → active c tail ≡ [])
      → active cur (xs ++ tail) ≡ active cur xs
  unfolding active
  active-append cur [] tail h = h cur
  active-append cur (x ∷ xs) tail h =
      ap (live (section_of x) cur x) (active-append (section_after cur (section_of x)) xs tail h)

  active-new_lines : (cur : Option Text) → active cur new_lines ≡ []
  unfolding active
  active-new_lines cur =
      sym (ap (active cur) (append-nil new_lines)) ∙ active-comments cur new_lines [] comments

  active-tail :
      (section : Text) (b : Bool) (c : Option Text)
      → IsSectionName section
      → active c ((if b then [] ∷ [] else []) ++ header_of section ∷ new_lines) ≡ []
  unfolding active section_of lstrip
  active-tail section true c s = rw (s) (active-new_lines (some section))
  active-tail section false c s = rw (s) (active-new_lines (some section))

pub span_body-append : (ls : List Text) → (span_body ls).0 ++ (span_body ls).1 ≡ ls
unfolding span_body
span_body-append [] = refl
span_body-append (l ∷ ls) = by_header (section_of l) (span_body-append ls)
  where
    by_header :
        (o : Option Text)
        → (span_body ls).0 ++ (span_body ls).1 ≡ ls
        → (spanned o l ls (span_body ls)).0 ++ (spanned o l ls (span_body ls)).1 ≡ l ∷ ls
    by_header none h = ap (λ (t : List Text). l ∷ t) h
    by_header (some name) h = refl

pub trim_blanks-append : (ls : List Text) → (trim_blanks ls).0 ++ (trim_blanks ls).1 ≡ ls
unfolding trim_blanks
trim_blanks-append [] = refl
trim_blanks-append (l ∷ ls) = by_kept (trim_blanks ls) (trim_blanks-append ls)
  where
    by_kept :
        (p : List Text × List Text) → p.0 ++ p.1 ≡ ls → (trimmed l p).0 ++ (trimmed l p).1 ≡ l ∷ ls
    by_kept ([], blanks) h = elim (Bool-cases (is_nil (strip l))) [
      | inl e ↦ rw (e) (ap (λ (t : List Text). l ∷ t) h)
      | inr e ↦ rw (e) (ap (λ (t : List Text). l ∷ t) h)
    ]
    by_kept (k ∷ kept, blanks) h = ap (λ (t : List Text). l ∷ t) h

-- An insertion keeps a property of lists if it holds of any with comments put in.
module _ (new_lines : List Text) (comments : All IsComment new_lines) where
  active-behind :
      (cur : Option Text) (ls : List Text) → active cur (insert_behind new_lines ls) ≡ active cur ls
  active-behind cur ls =
      let (body, rest) = span_body ls in
      let (kept, blanks) = trim_blanks body in
      active-within new_lines comments cur kept (blanks ++ rest)
      ∙ ap (active cur) (
          sym (append_assoc kept blanks rest)
          ∙ ap (λ (t : List Text). t ++ rest) (trim_blanks-append body)
          ∙ span_body-append ls)

  -- The same lines are in effect in a list that is there.
  abbrev SameActive : Option Text → List Text → Option (List Text) → Type 0
  SameActive cur ls none = Unit
  SameActive cur ls (some ls') = active cur ls' ≡ active cur ls

  behind-SameActive :
      (cur : Option Text) (l : Text) (ls : List Text) (o : Option (List Text))
      → SameActive (section_after cur (section_of l)) ls o
      → SameActive cur (l ∷ ls) (behind l o)
  unfolding active
  behind-SameActive cur l ls none h = tt
  behind-SameActive cur l ls (some ls') h = ap (live (section_of l) cur l) h

  insert_at_header-SameActive :
      (section : Text) (cur : Option Text) (ls : List Text)
      → SameActive cur ls (insert_at_header section new_lines ls)
  unfolding insert_at_header active
  insert_at_header-SameActive section cur [] = tt
  insert_at_header-SameActive section cur (l ∷ ls) =
      let next = section_after cur (section_of l) in
      by_header (is_section section (section_of l)) (
        behind-SameActive cur l ls (insert_at_header section new_lines ls)
          (insert_at_header-SameActive section next ls))
    where
      by_header :
          (b : Bool)
          → SameActive cur (l ∷ ls) (behind l (insert_at_header section new_lines ls))
          → SameActive cur (l ∷ ls) (
              if b
              then some (l ∷ insert_behind new_lines ls)
              else behind l (insert_at_header section new_lines ls))
      by_header true h =
          ap (live (section_of l) cur l) (active-behind (section_after cur (section_of l)) ls)
      by_header false h = h

  pub insert_into_section-active :
      (section : Text) (ls : List Text)
      → IsSectionName section
      → active none (insert_into_section ls section new_lines) ≡ active none ls
  unfolding insert_into_section
  insert_into_section-active section ls s =
      by_insertion (insert_at_header section new_lines ls)
        (insert_at_header-SameActive section none ls)
    where
      by_insertion :
          (o : Option (List Text))
          → SameActive none ls o
          → active none (or_append section new_lines ls o) ≡ active none ls
      by_insertion none h =
          active-append new_lines comments none ls _
            (λ c. active-tail new_lines comments section (ends_visibly ls) c s)
      by_insertion (some ls') h = h
