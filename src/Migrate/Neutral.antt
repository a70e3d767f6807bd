-- ===== src/Migrate/Neutral.antt =====
-- configmigrate.py: the lines that a migration keeps.
use mcp_postgres.Prelude.{
  ◌≡◌, refl, sym, ap, ◌∙◌, subst, Bool, true, false, ◌&&◌, Option, none, some, List, [], ◌∷◌, ◌++◌,
  map, is_nil, All, All-append, All-append_left, All-append_right, if◌then◌else◌,
}
use mcp_postgres.PyText.{Text, lit, is_space}
use mcp_postgres.PyText.Lines.{
  IsLine, split_lines, split_lines-IsLine, split_lines-unlines, join, newline, join-unlines,
}
use mcp_postgres.PyText.Strip.{lstrip}
use mcp_postgres.Config.{Default, section_of, ConfigReport}
use mcp_postgres.Migrate.{
  is_section, behind, span_body, trim_blanks, insert_behind, insert_at_header, ends_visibly,
  header_of, or_append, insert_into_section, Change, added, toml_literal, Groups, by_section, offer,
  add_missing, written, comment_deprecated, apply_migration,
}
use mcp_postgres.Migrate.Grouped.{GroupOf, by_section-GroupOf}
use mcp_postgres.Migrate.Insertion.{
  active, IsComment, IsSectionName, insert_into_section-active, span_body-append,
  trim_blanks-append,
}

abbrev pub IsTitle : Text → Type 0
IsTitle section = IsSectionName section × IsLine (header_of section)

-- What a report has to say of a missing key: its section can be named in a header, and both what is
-- written for it and the header are single lines.
abbrev pub IsKnown : Option Text → Text × (Text × Default) → Type 0
IsKnown version (section, item) = IsTitle section × IsLine (offer version item)

module _ (new_lines : List Text) (lines : All IsLine new_lines) where
  insert_behind-IsLine : (ls : List Text) → All IsLine ls → All IsLine (insert_behind new_lines ls)
  insert_behind-IsLine ls h =
      let (body, rest) = span_body ls in
      let (kept, blanks) = trim_blanks body in
      let parts = subst (All IsLine) (sym (span_body-append ls)) h in
      let halves =
        subst (All IsLine) (sym (trim_blanks-append body))
          (All-append_left IsLine body rest parts) in
      All-append IsLine kept (new_lines ++ (blanks ++ rest))
        (All-append_left IsLine kept blanks halves)
        (All-append IsLine new_lines (blanks ++ rest) lines (
          All-append IsLine blanks rest (All-append_right IsLine kept blanks halves)
            (All-append_right IsLine body rest parts)))

  abbrev AreLines : Option (List Text) → Type 0
  AreLines none = Unit
  AreLines (some ls) = All IsLine ls

  insert_at_header-AreLines :
      (section : Text) (ls : List Text)
      → All IsLine ls
      → AreLines (insert_at_header section new_lines ls)
  unfolding insert_at_header
  insert_at_header-AreLines section [] h = tt
  insert_at_header-AreLines section (l ∷ ls) h =
      by_header (is_section section (section_of l))
        (later (insert_at_header section new_lines ls) (insert_at_header-AreLines section ls h.1))
    where
      later : (o : Option (List Text)) → AreLines o → AreLines (behind l o)
      later none k = tt
      later (some ls') k = (h.0, k)

      by_header :
          (b : Bool)
          → AreLines (behind l (insert_at_header section new_lines ls))
          → AreLines (
              if b
              then some (l ∷ insert_behind new_lines ls)
              else behind l (insert_at_header section new_lines ls))
      by_header true k = (h.0, insert_behind-IsLine ls h.1)
      by_header false k = k

  insert_into_section-IsLine :
      (section : Text) (ls : List Text)
      → IsLine (header_of section)
      → All IsLine ls
      → All IsLine (insert_into_section ls section new_lines)
  unfolding insert_into_section
  insert_into_section-IsLine section ls s h =
      by_insertion (insert_at_header section new_lines ls) (insert_at_header-AreLines section ls h)
    where
      tail : (b : Bool) → All IsLine ((if b then [] ∷ [] else []) ++ header_of section ∷ new_lines)
      tail true = (tt, (s, lines))
      tail false = (s, lines)

      by_insertion :
          (o : Option (List Text)) → AreLines o → All IsLine (or_append section new_lines ls o)
      by_insertion none k = All-append IsLine ls _ h (tail (ends_visibly ls))
      by_insertion (some ls') k = k

pub offers-IsComment :
    (version : Option Text) (items : List (Text × Default))
    → All IsComment (map (offer version) items)
unfolding lit section_of lstrip is_space
offers-IsComment version [] = tt
offers-IsComment version (item ∷ items) = ((refl, refl), offers-IsComment version items)

offers-IsLine :
    (version : Option Text) (items : List (Text × Default))
    → All (λ item. IsLine (offer version item)) items
    → All IsLine (map (offer version) items)
offers-IsLine version [] h = tt
offers-IsLine version (item ∷ items) h = (h.0, offers-IsLine version items h.1)

pub add_missing-active :
    (version : Option Text) (gs : Groups) (lines : List Text) (changes : List Change)
    → All (GroupOf IsTitle (λ i. IsLine (offer version i))) gs
    → All IsLine lines
    → let ls = (add_missing version gs (lines, changes)).0 in
      (active none ls ≡ active none lines) × All IsLine ls
unfolding add_missing
add_missing-active version [] lines changes g h = (refl, h)
add_missing-active version ((section, items) ∷ gs) lines changes g h =
    let new_lines = map (offer version) items in
    let next = insert_into_section lines section new_lines in
    let (same, all) =
      add_missing-active version gs next
        (changes ++ map (λ i. added section i.0 (toml_literal i.1)) items) g.1
        (insert_into_section-IsLine new_lines (offers-IsLine version items g.0.1) section lines
          g.0.0.1 h) in
    (
      same
          ∙ insert_into_section-active new_lines (offers-IsComment version items) section lines
              g.0.0.0,
      all,
    )

active-newline : active none (split_lines (join newline [] ++ newline)) ≡ active none []
unfolding join split_lines active section_of lstrip
active-newline = refl

pub split_lines-join :
    (l : Text) (ls : List Text)
    → All IsLine (l ∷ ls)
    → split_lines (join newline (l ∷ ls) ++ newline) ≡ l ∷ ls
split_lines-join l ls h = ap split_lines (join-unlines l ls) ∙ split_lines-unlines (l ∷ ls) h

written-active :
    (old : Text) (lines : List Text) (changes : List Change)
    → active none lines ≡ active none (split_lines old)
    → All IsLine lines
    → active none (split_lines (written old (lines, changes)).0) ≡ active none (split_lines old)
written-active old lines [] e h = refl
written-active old [] (c ∷ cs) e h = active-newline ∙ e
written-active old (l ∷ ls) (c ∷ cs) e h = ap (active none) (split_lines-join l ls h) ∙ e

-- A migration with nothing to deprecate keeps the lines that are neither recognised headers nor
-- blank nor comments: the same ones, in the same order and each under the same header. Of each
-- missing key, the section can stand in a header and what is written for the key is one line.
pub apply_migration-active :
    (report : ConfigReport) (old : Text) (version : Option Text)
    → report.deprecated_present ≡ []
    → All (IsKnown version) report.missing
    → active none (split_lines (apply_migration report old version).0)
      ≡ active none (split_lines old)
unfolding apply_migration comment_deprecated
apply_migration-active report old version d k = rw (d) (by_missing (is_nil report.missing && true))
  where
    by_missing :
        (b : Bool)
        → active none (
            split_lines
              (if b
                then (old, [])
                else written old
                    (add_missing version (by_section report.missing []) (split_lines old, []))).0)
          ≡ active none (split_lines old)
    by_missing true = refl
    by_missing false =
        let groups = by_section report.missing [] in
        let (same, all) =
          add_missing-active version groups (split_lines old) []
            (by_section-GroupOf IsTitle (λ i. IsLine (offer version i)) report.missing [] k tt)
            (split_lines-IsLine old) in
        written-active old (add_missing version groups (split_lines old, [])).0
          (add_missing version groups (split_lines old, [])).1 same all
