-- ===== src/Migrate/Offered.antt =====
-- configmigrate.py: a key that the migration offers is mentioned from then on.
use mcp_postgres.Prelude.{
  ℕ, ◌≡◌, refl, sym, ap, ◌∙◌, subst, Bool, true, false, ◌&&◌, ◌||◌, Option, none, some, List, [],
  ◌∷◌, ◌++◌, map, All, All-append_left, append_assoc, append-nil, arith, any_of, if◌then◌else◌,
}
use mcp_postgres.PyText.{Text, lit, is_space, text_eq, text_eq_sound}
use mcp_postgres.PyText.Strip.{lstrip}
use mcp_postgres.Config.{
  Default, section_of, section_after, is_word, starts_key, continues_key, key_run, commented_key,
}
use mcp_postgres.Migrate.{
  is_section, behind, span_body, trim_blanks, insert_behind, insert_at_header, ends_visibly,
  header_of, or_append, insert_into_section, offer,
}
use mcp_postgres.Migrate.Insertion.{IsSectionName, span_body-append, trim_blanks-append}
use mcp_postgres.Migrate.Mentions.{
  mentions, quoted, NoHeader, mentions-lines, mentions-append, span_body-NoHeader,
}

module _ (beyond_ascii : ℕ → Bool) (s k : Text) where
  module _ (new_lines : List Text) (plain : All NoHeader new_lines) where
    mentions-within :
        (c : Text) (xs ys : List Text)
        → All NoHeader xs
        → mentions beyond_ascii s k (some c) (xs ++ (new_lines ++ ys)) ≡ (
            (text_eq c s && quoted beyond_ascii k new_lines)
            || mentions beyond_ascii s k (some c) (xs ++ ys))
    mentions-within c xs ys h = ground (
      arith,
      mentions-lines beyond_ascii s k c xs (new_lines ++ ys) h,
      mentions-lines beyond_ascii s k c xs ys h,
      mentions-lines beyond_ascii s k c new_lines ys plain,
    )

    mentions-behind :
        (c : Text) (ls : List Text)
        → mentions beyond_ascii s k (some c) (insert_behind new_lines ls) ≡ (
            (text_eq c s && quoted beyond_ascii k new_lines)
            || mentions beyond_ascii s k (some c) ls)
    mentions-behind c ls =
        let (body, rest) = span_body ls in
        let (kept, blanks) = trim_blanks body in
        let plain_body =
          subst (All NoHeader) (sym (trim_blanks-append body)) (span_body-NoHeader ls) in
        let whole =
          sym (append_assoc kept blanks rest)
          ∙ ap (λ (t : List Text). t ++ rest) (trim_blanks-append body)
          ∙ span_body-append ls in
        mentions-within c kept (blanks ++ rest) (All-append_left NoHeader kept blanks plain_body)
        ∙ ap
            (λ (t : List Text).
              (text_eq c s && quoted beyond_ascii k new_lines)
              || mentions beyond_ascii s k (some c) t)
            whole

    -- Such an insertion, if there is one, mentions what was mentioned and what is new.
    abbrev Extends : Option Text → Text → List Text → Option (List Text) → Type 0
    Extends cur section ls none = Unit
    Extends cur section ls (some ls') = mentions beyond_ascii s k cur ls' ≡ (
        (text_eq section s && quoted beyond_ascii k new_lines) || mentions beyond_ascii s k cur ls)

    behind-Extends :
        (cur : Option Text) (section l : Text) (ls : List Text) (o : Option (List Text))
        → Extends (section_after cur (section_of l)) section ls o
        → Extends cur section (l ∷ ls) (behind l o)
    unfolding mentions
    behind-Extends cur section l ls none h = tt
    behind-Extends cur section l ls (some ls') h = ground (arith, h)

    at_header-Extends :
        (cur : Option Text) (section l : Text) (ls : List Text) (found : Option Text)
        → section_of l ≡ found
        → is_section section found ≡ true
        → Extends cur section (l ∷ ls) (some (l ∷ insert_behind new_lines ls))
    unfolding mentions
    at_header-Extends cur section l ls none e h = cc (h)
    at_header-Extends cur section l ls (some name) e h = rw (e) (
        subst
          (λ (t : Text). mentions beyond_ascii s k (some name) (insert_behind new_lines ls) ≡ (
            (text_eq t s && quoted beyond_ascii k new_lines)
            || mentions beyond_ascii s k (some name) ls))
          (text_eq_sound name section h) (mentions-behind name ls))

    insert_at_header-Extends :
        (section : Text) (cur : Option Text) (ls : List Text)
        → Extends cur section ls (insert_at_header section new_lines ls)
    unfolding insert_at_header
    insert_at_header-Extends section cur [] = tt
    insert_at_header-Extends section cur (l ∷ ls) =
        by_header (is_section section (section_of l)) refl (
          behind-Extends cur section l ls (insert_at_header section new_lines ls)
            (insert_at_header-Extends section (section_after cur (section_of l)) ls))
      where
        by_header :
            (b : Bool)
            → is_section section (section_of l) ≡ b
            → Extends cur section (l ∷ ls) (behind l (insert_at_header section new_lines ls))
            → Extends cur section (l ∷ ls) (
                if b
                then some (l ∷ insert_behind new_lines ls)
                else behind l (insert_at_header section new_lines ls))
        by_header true e h = at_header-Extends cur section l ls (section_of l) refl e
        by_header false e h = h

    mentions-new_lines :
        (c : Text)
        → mentions beyond_ascii s k (some c) new_lines
          ≡ (text_eq c s && quoted beyond_ascii k new_lines)
    unfolding mentions
    mentions-new_lines c = ground (
      arith,
      ap (mentions beyond_ascii s k (some c)) (append-nil new_lines),
      mentions-lines beyond_ascii s k c new_lines [] plain,
    )

    mentions-tail :
        (section : Text) (b : Bool) (c : Option Text)
        → IsSectionName section
        → mentions beyond_ascii s k c ((if b then [] ∷ [] else []) ++ header_of section ∷ new_lines)
          ≡ (text_eq section s && quoted beyond_ascii k new_lines)
    unfolding mentions section_of commented_key
    mentions-tail section true none n = rw (n) (mentions-new_lines section)
    mentions-tail section true (some c) n = rw (n) (ground (arith, mentions-new_lines section))
    mentions-tail section false c n = rw (n) (mentions-new_lines section)

    pub mentions-insert_into_section :
        (section : Text) (ls : List Text)
        → IsSectionName section
        → mentions beyond_ascii s k none (insert_into_section ls section new_lines) ≡ (
            (text_eq section s && quoted beyond_ascii k new_lines)
            || mentions beyond_ascii s k none ls)
    unfolding insert_into_section
    mentions-insert_into_section section ls n =
        by_insertion (insert_at_header section new_lines ls)
          (insert_at_header-Extends section none ls)
      where
        by_insertion :
            (o : Option (List Text))
            → Extends none section ls o
            → mentions beyond_ascii s k none (or_append section new_lines ls o) ≡ (
                (text_eq section s && quoted beyond_ascii k new_lines)
                || mentions beyond_ascii s k none ls)
        by_insertion none h =
            mentions-append beyond_ascii s k none ls _ _
              (λ c. mentions-tail section (ends_visibly ls) c n)
        by_insertion (some ls') h = h

-- A key that the pattern of a commented key reads as a whole.
abbrev pub IsKey : (ℕ → Bool) → Text → Type 0
IsKey beyond_ascii [] = ⊥
IsKey beyond_ascii (c ∷ cs) =
    (is_space c ≡ false) × (starts_key c ≡ true) × All (λ d. continues_key beyond_ascii d ≡ true) cs

module _ (beyond_ascii : ℕ → Bool) where
  key_run-append :
      (cs rest : Text)
      → All (λ d. continues_key beyond_ascii d ≡ true) cs
      → key_run beyond_ascii (cs ++ b' ' ∷ rest) ≡ (cs, b' ' ∷ rest)
  unfolding key_run is_word
  key_run-append [] rest h = refl
  key_run-append (c ∷ cs) rest (e, h) = rw (e, key_run-append cs rest h) refl

  commented_key-offer :
      (version : Option Text) (key : Text) (default : Default)
      → IsKey beyond_ascii key
      → commented_key beyond_ascii (offer version (key, default)) ≡ some key
  unfolding commented_key lit lstrip is_space
  commented_key-offer version [] default h = absurd h
  commented_key-offer version (c ∷ cs) default (v, st, h) = rw (v, st, key_run-append cs _ h) refl

  pub quoted-offers :
      (k : Text) (version : Option Text) (items : List (Text × Default))
      → All (λ item. IsKey beyond_ascii item.0) items
      → quoted beyond_ascii k (map (offer version) items) ≡ any_of (λ item. text_eq item.0 k) items
  quoted-offers k version [] h = refl
  quoted-offers k version ((key, default) ∷ items) (h, hs) =
      rw (commented_key-offer version key default h)
        (ap (λ (b : Bool). text_eq key k || b) (quoted-offers k version items hs))
