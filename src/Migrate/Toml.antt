-- ===== src/Migrate/Toml.antt =====
-- configmigrate.py with tomllib: which lines of a config.toml can set keys, and that a migration
-- keeps them.
use mcp_postgres.Prelude.{
  ℕ, ◌≡◌, refl, sym, ap, ◌∙◌, Bool, true, false, not, ◌&&◌, ◌||◌, Option, none, some, List, [], ◌∷◌,
  ◌++◌, map, ◌==◌, All, All-map, All-keep, keep, keep-append, keep_none, all_of, any_of,
  append_assoc, append-nil, arith, if◌then◌else◌,
}
use mcp_postgres.PyText.{Text, is_break, is_space, lit, text_eq}
use mcp_postgres.PyText.Lines.{IsLine, split_lines, join, newline, unlines, join-unlines}
use mcp_postgres.PyText.Strip.{lstrip, strip}
use mcp_postgres.Config.{
  Default, Document, Schema, file_known_keys, section_models, is_secret, section_of, group, has_key,
  look_up, table_of,
}
use mcp_postgres.Migrate.{
  is_section, behind, span_body, trim_blanks, insert_behind, insert_at_header, ends_visibly,
  header_of, or_append, insert_into_section, Change, added, toml_literal, Groups, offer,
  add_missing,
}
use mcp_postgres.Migrate.Grouped.{GroupOf, EntryOf}
use mcp_postgres.Migrate.Insertion.{
  active, is_quiet, IsComment, span_body-append, trim_blanks-append,
}
use mcp_postgres.Migrate.Neutral.{offers-IsComment, split_lines-join}
use mcp_postgres.Migrate.Entries.{entries, entries-EntryOf}
use mcp_postgres.Migrate.Whole.{missing_in}

-- Three equal quotes in a row, which open or close a string of several lines.
abbrev triple : ℕ → ℕ → Text → Bool
triple c d [] = false
triple c d (e ∷ rest) = (c == 34 || c == 39) && (c == d && d == e)

abbrev triple_from : ℕ → Text → Bool
triple_from c [] = false
triple_from c (d ∷ rest) = triple c d rest

unfoldable pub has_triple : Text → Bool
has_triple [] = false
has_triple (c ∷ cs) = triple_from c cs || has_triple cs

-- TOML ends a line at a newline, with or without a carriage return, `splitlines` at others too.
abbrev plain_break : ℕ → Bool
plain_break c = not (is_break c) || (c == 10 || c == 13)

abbrev pub plain_breaks : Text → Bool
plain_breaks = all_of plain_break

abbrev opens_known : Option Text → Bool
opens_known none = false
opens_known (some name) = any_of (λ m. text_eq m.0 name) file_known_keys

-- A line that is neither blank nor a comment nor the header of a section of the schema.
unfoldable pub counts : Text → Bool
unfolding lstrip
counts l = not (is_quiet l) && not (opens_known (section_of l))

-- What TOML documents of comments, blank lines and the headers of tables: they set no key. Two texts
-- that parse set the same keys if they have the same lines but for blank ones, comments and headers
-- of the schema's sections, none of which has a dot in it, and if each line in effect stands under
-- the same header. The first has no string of several lines, and both have plain line breaks.
pub record IsToml {V : Type 0} (loads : Text → Option (Document V)) : Type 0 where
  pub same_keys :
      (old new : Text) (d d' : Document V)
      → has_triple old ≡ false
      → plain_breaks old ≡ true
      → plain_breaks new ≡ true
      → active none (split_lines new) ≡ active none (split_lines old)
      → keep counts (split_lines new) ≡ keep counts (split_lines old)
      → loads old ≡ some d
      → loads new ≡ some d'
      → (section key : Text)
      → has_key key (table_of (look_up section d')) ≡ has_key key (table_of (look_up section d))

module _ (p : Text → Bool) (new_lines : List Text) (unseen : keep p new_lines ≡ []) where
  keep-insert_behind : (ls : List Text) → keep p (insert_behind new_lines ls) ≡ keep p ls
  keep-insert_behind ls =
      let (body, rest) = span_body ls in
      let (kept, blanks) = trim_blanks body in
      keep-append p kept (new_lines ++ (blanks ++ rest))
      ∙ ap (λ t. keep p kept ++ t)
          (keep-append p new_lines (blanks ++ rest)
            ∙ ap (λ t. t ++ keep p (blanks ++ rest)) unseen
            ∙ keep-append p blanks rest)
      ∙ sym (append_assoc (keep p kept) (keep p blanks) (keep p rest))
      ∙ ap (λ t. t ++ keep p rest)
          (sym (keep-append p kept blanks) ∙ ap (keep p) (trim_blanks-append body))
      ∙ sym (keep-append p body rest)
      ∙ ap (keep p) (span_body-append ls)

  abbrev Same : List Text → Option (List Text) → Type 0
  Same ls none = Unit
  Same ls (some ls') = keep p ls' ≡ keep p ls

  insert_at_header-Same :
      (section : Text) (ls : List Text) → Same ls (insert_at_header section new_lines ls)
  unfolding insert_at_header
  insert_at_header-Same section [] = tt
  insert_at_header-Same section (l ∷ ls) =
      by_header (is_section section (section_of l))
        (later (insert_at_header section new_lines ls) (insert_at_header-Same section ls))
    where
      put : List Text → List Text
      put t = if p l then l ∷ t else t

      later : (o : Option (List Text)) → Same ls o → Same (l ∷ ls) (behind l o)
      later none k = tt
      later (some ls') k = ap put k

      by_header :
          (b : Bool)
          → Same (l ∷ ls) (behind l (insert_at_header section new_lines ls))
          → Same (l ∷ ls) (
              if b
              then some (l ∷ insert_behind new_lines ls)
              else behind l (insert_at_header section new_lines ls))
      by_header true k = ap put (keep-insert_behind ls)
      by_header false k = k

  keep-insert_into_section :
      (section : Text) (ls : List Text)
      → p [] ≡ false
      → p (header_of section) ≡ false
      → keep p (insert_into_section ls section new_lines) ≡ keep p ls
  unfolding insert_into_section
  keep-insert_into_section section ls e h =
      by_insertion (insert_at_header section new_lines ls) (insert_at_header-Same section ls)
    where
      tail : (b : Bool) → keep p ((if b then [] ∷ [] else []) ++ header_of section ∷ new_lines) ≡ []
      tail true = rw (e, h) unseen
      tail false = rw h unseen

      by_insertion :
          (o : Option (List Text))
          → Same ls o
          → keep p (or_append section new_lines ls o) ≡ keep p ls
      by_insertion none k =
          keep-append p ls _
          ∙ ap (λ t. keep p ls ++ t) (tail (ends_visibly ls))
          ∙ append-nil (keep p ls)
      by_insertion (some ls') k = k

abbrev pub AddsNothing : Text → Type 0
AddsNothing section = counts (header_of section) ≡ false

blank-counts : counts [] ≡ false
unfolding counts lstrip
blank-counts = refl

keep-comments : (ls : List Text) → All IsComment ls → keep counts ls ≡ []
unfolding counts
keep-comments ls h = keep_none counts ls (All-map ls (λ l c. rw (c.1) refl) h)

pub add_missing-counts :
    (version : Option Text) (gs : Groups) (lines : List Text) (changes : List Change)
    → All (GroupOf AddsNothing (λ i. Unit {0})) gs
    → keep counts (add_missing version gs (lines, changes)).0 ≡ keep counts lines
unfolding add_missing
add_missing-counts version [] lines changes g = refl
add_missing-counts version ((section, items) ∷ gs) lines changes g =
    let new_lines = map (offer version) items in
    add_missing-counts version gs (insert_into_section lines section new_lines)
      (changes ++ map (λ i. added section i.0 (toml_literal i.1)) items) g.1
    ∙ keep-insert_into_section counts new_lines
        (keep-comments new_lines (offers-IsComment version items)) section lines blank-counts g.0.0

abbrev all_known : Schema → Bool
all_known = all_of (λ m. not (counts (header_of m.0)))

units : (items : List (Text × Default)) → All (λ i. Unit {0}) items
units [] = tt
units (i ∷ items) = (tt, units items)

known_sound :
    (known : Schema) → all_known known ≡ true → All (GroupOf AddsNothing (λ i. Unit {0})) known
known_sound [] h = tt
known_sound ((s, items) ∷ known) h = ((ground arith, units items), known_sound known (ground arith))

schema-AddsNothing : All (GroupOf AddsNothing (λ i. Unit {0})) file_known_keys
unfolding counts file_known_keys section_models is_secret lit section_of group lstrip strip is_space
    text_eq
schema-AddsNothing = known_sound file_known_keys refl

pub missing_in-AddsNothing :
    {V : Type 0} (loads : Text → Option (Document V)) (beyond_ascii : ℕ → Bool)
    (o : Option (Document V)) (old : Text)
    → All (EntryOf AddsNothing (λ i. Unit {0})) (missing_in loads beyond_ascii o old)
unfolding missing_in
missing_in-AddsNothing loads beyond_ascii none old = tt
missing_in-AddsNothing loads beyond_ascii (some d) old =
    All-keep (EntryOf AddsNothing (λ i. Unit {0})) _ (entries file_known_keys)
      (entries-EntryOf AddsNothing (λ i. Unit {0}) file_known_keys schema-AddsNothing)

-- What is written counts as the lines that it is written from.
counts-newline : keep counts (split_lines (join newline [] ++ newline)) ≡ []
unfolding join split_lines counts lstrip
counts-newline = refl

pub counts-written :
    (lines : List Text)
    → All IsLine lines
    → keep counts (split_lines (join newline lines ++ newline)) ≡ keep counts lines
counts-written [] h = counts-newline
counts-written (l ∷ ls) h = ap (keep counts) (split_lines-join l ls h)

line-plain : (l rest : Text) → IsLine l → plain_breaks rest ≡ true → plain_breaks (l ++ rest) ≡ true
line-plain [] rest h k = k
line-plain (c ∷ cs) rest h k = rw h.0 (line-plain cs rest h.1 k)

unlines-plain : (lines : List Text) → All IsLine lines → plain_breaks (unlines lines) ≡ true
unfolding unlines is_break
unlines-plain [] h = refl
unlines-plain (l ∷ ls) h = line-plain l (10 ∷ unlines ls) h.0 (unlines-plain ls h.1)

pub written-plain_breaks :
    (lines : List Text) → All IsLine lines → plain_breaks (join newline lines ++ newline) ≡ true
unfolding join is_break
written-plain_breaks [] h = refl
written-plain_breaks (l ∷ ls) h = ap plain_breaks (join-unlines l ls) ∙ unlines-plain (l ∷ ls) h
