-- ===== src/Migrate.antt =====
-- configmigrate.py: the edit that brings a config.toml to the current schema.
--
pub mod Insertion
pub mod Mentions
pub mod Offered
pub mod Grouped
pub mod Neutral
pub mod Schema
pub mod Entries
pub mod Whole
pub mod Toml
pub mod Again
mod Tests
use mcp_postgres.Prelude.{
  ℕ, Bool, true, false, not, ◌&&◌, Option, none, some, List, [], ◌∷◌, ◌++◌, map, is_nil, ◌==◌,
  if◌then◌else◌,
}
use mcp_postgres.Config.{
  Default, boolean, number, word, section_of, section_after, ConfigReport, diff_config, Document,
}
use mcp_postgres.PyText.{Text, lit, text_eq, is_space}
use mcp_postgres.PyText.Lines.{split_lines, join, newline}
use mcp_postgres.PyText.Regex.{many, one}
use mcp_postgres.PyText.Strip.{lstrip, strip}

-- `str.replace` of one character by a backslash and the same
unfoldable pub escape : ℕ → Text → Text
escape d [] = []
escape d (c ∷ cs) = let rest = escape d cs in if c == d then 92 ∷ c ∷ rest else c ∷ rest

unfoldable pub toml_literal : Default → Text
unfolding escape lit
toml_literal (boolean b) = if b then lit "true" else lit "false"
toml_literal (number n) = n
toml_literal (word s) = b'"' ∷ escape b'"' (escape 92 s) ++ b'"' ∷ []

-- the text of a pattern as it stands, without regard to what follows
unfoldable pub exact : Text → (Text → Option (Unit {0})) → Text → Option (Unit {0})
exact [] k s = k s
exact (n ∷ ns) k [] = none
exact (n ∷ ns) k (c ∷ cs) = let rest = exact ns k cs in if c == n then rest else none

-- `^\s*key\s*=`
unfoldable pub is_active_key : Text → Text → Option (Unit {0})
unfolding many one exact is_space
is_active_key key = many is_space (exact key (many is_space (one b'=' (λ _. some tt))))

abbrev pub is_section : Text → Option Text → Bool
is_section section none = false
is_section section (some name) = text_eq name section

-- The first active line of the key in its section becomes a comment; `none` if there is no such
-- line.
abbrev pub behind : Text → Option (List Text) → Option (List Text)
behind l none = none
behind l (some ls) = some (l ∷ ls)

abbrev pub marked : Text → Text → Text
marked note line = lit "# " ++ (line ++ (lit "   # " ++ note))

abbrev pub at_key :
    Bool → Option (Unit {0}) → Text → Text → List Text → Option (List Text) → Option (List Text)
at_key inside none note l ls rest = behind l rest
at_key inside (some u) note l ls rest = if inside then some (marked note l ∷ ls) else behind l rest

abbrev pub at_line :
    Option Text
    → Bool
    → Option (Unit {0})
    → Text
    → Text
    → List Text
    → Option (List Text)
    → Option (List Text)
at_line (some name) inside key note l ls rest = behind l rest
at_line none inside key note l ls rest = at_key inside key note l ls rest

unfoldable pub comment_key : Option Text → Text → Text → Text → List Text → Option (List Text)
comment_key cur section key note [] = none
comment_key cur section key note (l ∷ ls) =
    let found = section_of l in
    let rest = comment_key (section_after cur found) section key note ls in
    at_line found (is_section section cur) (is_active_key key l) note l ls rest

-- the lines up to the next header, and from it on
abbrev spanned : Option Text → Text → List Text → List Text × List Text → List Text × List Text
spanned none l ls (body, rest) = (l ∷ body, rest)
spanned (some name) l ls (body, rest) = ([], l ∷ ls)

unfoldable pub span_body : List Text → List Text × List Text
span_body [] = ([], [])
span_body (l ∷ ls) = spanned (section_of l) l ls (span_body ls)

-- the lines less the blank ones at the end, and those
abbrev trimmed : Text → List Text × List Text → List Text × List Text
trimmed l ([], blanks) = if is_nil (strip l) then ([], l ∷ blanks) else (l ∷ [], blanks)
trimmed l (k ∷ kept, blanks) = (l ∷ k ∷ kept, blanks)

unfoldable pub trim_blanks : List Text → List Text × List Text
unfolding strip
trim_blanks [] = ([], [])
trim_blanks (l ∷ ls) = trimmed l (trim_blanks ls)

-- `new_lines` behind what is kept of the body of a section
abbrev pub insert_behind : List Text → List Text → List Text
insert_behind new_lines ls =
    let (body, rest) = span_body ls in
    let (kept, blanks) = trim_blanks body in kept ++ (new_lines ++ (blanks ++ rest))

-- The insertion behind the first header of the section; `none` without one.
unfoldable pub insert_at_header : Text → List Text → List Text → Option (List Text)
unfolding span_body trim_blanks
insert_at_header section new_lines [] = none
insert_at_header section new_lines (l ∷ ls) =
    let rest = insert_at_header section new_lines ls in
    if is_section section (section_of l)
    then some (l ∷ insert_behind new_lines ls)
    else behind l rest

-- whether there is a last line that is not blank
unfoldable pub ends_visibly : List Text → Bool
unfolding strip
ends_visibly [] = false
ends_visibly (l ∷ []) = not (is_nil (strip l))
ends_visibly (l ∷ m ∷ ls) = ends_visibly (m ∷ ls)

abbrev pub header_of : Text → Text
header_of section = b'[' ∷ section ++ b']' ∷ []

abbrev pub or_append : Text → List Text → List Text → Option (List Text) → List Text
or_append section new_lines lines (some ls) = ls
or_append section new_lines lines none =
    lines ++ ((if ends_visibly lines then [] ∷ [] else []) ++ header_of section ∷ new_lines)

unfoldable pub insert_into_section : List Text → Text → List Text → List Text
insert_into_section lines section new_lines =
    or_append section new_lines lines (insert_at_header section new_lines lines)

pub data Change : Type 0 where
  commented_out : (section key reason : Text) → Change
  added : (section key literal : Text) → Change

-- `if version`, a text that may be missing or empty
abbrev pub versioned : Option Text → Text → Text → Text
versioned none without with_it = without
versioned (some []) without with_it = without
versioned (some (c ∷ v)) without with_it = with_it ++ c ∷ v

abbrev pub deprecation : Option Text → Text → Text
deprecation version reason =
    versioned version (lit "deprecated") (lit "deprecated in ") ++ (lit ": " ++ reason)

abbrev pub commented :
    Text × (Text × Text) → Option (List Text) → List Text × List Change → List Text × List Change
commented (section, (key, reason)) none (lines, changes) = (lines, changes)
commented (section, (key, reason)) (some ls) (lines, changes) =
    (ls, changes ++ commented_out section key reason ∷ [])

unfoldable pub comment_deprecated :
    Option Text → List (Text × (Text × Text)) → List Text × List Change → List Text × List Change
comment_deprecated version [] p = p
comment_deprecated version ((section, (key, reason)) ∷ ds) (lines, changes) =
    comment_deprecated version ds (
      commented (section, (key, reason))
        (comment_key none section key (deprecation version reason) lines) (lines, changes))

-- `setdefault(section, []).append((key, default))`
abbrev pub Groups : Type 0
Groups = List (Text × List (Text × Default))

unfoldable pub add_to_group : Text → Text × Default → Groups → Groups
unfolding text_eq
add_to_group section item [] = (section, item ∷ []) ∷ []
add_to_group section item ((s, items) ∷ gs) =
    let rest = add_to_group section item gs in
    if text_eq s section then (s, items ++ item ∷ []) ∷ gs else (s, items) ∷ rest

unfoldable pub by_section : List (Text × (Text × Default)) → Groups → Groups
by_section [] gs = gs
by_section ((section, item) ∷ ms) gs = by_section ms (add_to_group section item gs)

abbrev pub offer : Option Text → Text × Default → Text
offer version (key, default) =
    lit "# "
    ++ (key
        ++ (lit " = "
            ++ (toml_literal default
                ++ (lit "   # "
                    ++ (versioned version (lit "new setting") (lit "new in ")
                        ++ lit "; uncomment to override")))))

unfoldable pub add_missing :
    Option Text → Groups → List Text × List Change → List Text × List Change
unfolding lit
add_missing version [] p = p
add_missing version ((section, items) ∷ gs) (lines, changes) = add_missing version gs (
  insert_into_section lines section (map (offer version) items),
  changes ++ map (λ i. added section i.0 (toml_literal i.1)) items,
)

abbrev pub written : Text → List Text × List Change → Text × List Change
written old (lines, []) = (old, [])
written old (lines, c ∷ cs) = (join newline lines ++ newline, c ∷ cs)

unfoldable pub apply_migration : ConfigReport → Text → Option Text → Text × List Change
apply_migration report old version =
    if is_nil report.missing && is_nil report.deprecated_present
    then (old, [])
    else written old (
        add_missing version (by_section report.missing [])
          (comment_deprecated version report.deprecated_present (split_lines old, [])))

-- `apply_migration` of the source, with the report that it asks for
unfoldable pub migrate :
    {V : Type 0}
    → (Text → Option (Document V))
    → (ℕ → Bool)
    → Text
    → Option Text
    → Text × List Change
unfolding diff_config apply_migration
migrate loads beyond_ascii old version =
    apply_migration (diff_config loads beyond_ascii old) old version
