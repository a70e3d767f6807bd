-- ===== src/Migrate/Mentions.antt =====
-- configmigrate.py: which keys a text mentions as comments, before and after an insertion.
use mcp_postgres.Prelude.{
  ℕ, ◌≡◌, refl, Bool, false, ◌&&◌, ◌||◌, Option, none, some, List, [], ◌∷◌, ◌++◌, All, arith,
  any_of,
}
use mcp_postgres.PyText.{Text, text_eq, text_eq_iff}
use mcp_postgres.Config.{
  section_of, section_after, commented_key, add_mention, noted, noted_unless_header, scan_mentions,
  look_up, in_set, set_of,
}
use mcp_postgres.Migrate.{spanned, span_body}

abbrev pub is_text : Option Text → Text → Bool
is_text none t = false
is_text (some s) t = text_eq s t

abbrev pub NoHeader : Text → Type 0
NoHeader l = section_of l ≡ none

-- whether one of the lines mentions the key
abbrev pub quoted : (ℕ → Bool) → Text → List Text → Bool
quoted beyond_ascii k = any_of (λ l. is_text (commented_key beyond_ascii l) k)

module _ (beyond_ascii : ℕ → Bool) (s k : Text) where
  -- whether a line mentions the key in the section, by what the line is and where it stands
  abbrev pub mention : Option Text → Option Text → Option Text → Bool
  mention (some name) cur key = false
  mention none cur key = is_text cur s && is_text key k

  -- Whether a comment below a header of the section mentions the key.
  unfoldable pub mentions : Option Text → List Text → Bool
  mentions cur [] = false
  mentions cur (l ∷ ls) =
      mention (section_of l) cur (commented_key beyond_ascii l)
      || mentions (section_after cur (section_of l)) ls

  abbrev held : List (Text × List Text) → Bool
  held d = in_set k (set_of (look_up s d))

  add_mention_lem :
      (section key : Text) (d : List (Text × List Text))
      → held (add_mention beyond_ascii section key d)
        ≡ ((text_eq section s && text_eq key k) || held d)
  unfolding add_mention look_up
  add_mention_lem section key [] = ground arith
  add_mention_lem section key ((i, ks) ∷ d) = ground (
    arith,
    add_mention_lem section key d,
    text_eq_iff i section,
    text_eq_iff i s,
    text_eq_iff section s,
  )

  noted_lem :
      (found cur : Option Text) (line : Text) (d : List (Text × List Text))
      → held (noted_unless_header beyond_ascii found cur line d)
        ≡ (mention found cur (commented_key beyond_ascii line) || held d)
  noted_lem (some name) cur line d = refl
  noted_lem none none line d = refl
  noted_lem none (some section) line d = by_key (commented_key beyond_ascii line)
    where
      by_key :
          (key : Option Text)
          → held (noted beyond_ascii (some section) key d)
            ≡ ((text_eq section s && is_text key k) || held d)
      by_key none = ground arith
      by_key (some key) = add_mention_lem section key d

  -- The dictionary of `commented_keys` holds what the lines mention.
  pub scan_mentions_lem :
      (cur : Option Text) (ls : List Text) (d : List (Text × List Text))
      → in_set k (set_of (look_up s (scan_mentions beyond_ascii cur ls d)))
        ≡ (mentions cur ls || held d)
  unfolding scan_mentions mentions
  scan_mentions_lem cur [] d = refl
  scan_mentions_lem cur (l ∷ ls) d = ground (
    arith,
    scan_mentions_lem (section_after cur (section_of l)) ls
        (noted_unless_header beyond_ascii (section_of l) cur l d),
    noted_lem (section_of l) cur l d,
  )

  pub mentions-lines :
      (c : Text) (ls ys : List Text)
      → All NoHeader ls
      → mentions (some c) (ls ++ ys)
        ≡ ((text_eq c s && quoted beyond_ascii k ls) || mentions (some c) ys)
  unfolding mentions
  mentions-lines c [] ys h = ground arith
  mentions-lines c (l ∷ ls) ys (e, h) = rw (e) (ground (arith, mentions-lines c ls ys h))

  pub mentions-append :
      (cur : Option Text) (xs tail : List Text) (b : Bool)
      → ((c : Option Text) → mentions c tail ≡ b)
      → mentions cur (xs ++ tail) ≡ (b || mentions cur xs)
  unfolding mentions
  mentions-append cur [] tail b h = ground (arith, h cur)
  mentions-append cur (x ∷ xs) tail b h =
      ground (arith, mentions-append (section_after cur (section_of x)) xs tail b h)

pub span_body-NoHeader : (ls : List Text) → All (λ l. section_of l ≡ none) (span_body ls).0
unfolding span_body
span_body-NoHeader [] = tt
span_body-NoHeader (l ∷ ls) = by_header (section_of l) refl (span_body-NoHeader ls)
  where
    by_header :
        (o : Option Text)
        → section_of l ≡ o
        → All (λ l'. section_of l' ≡ none) (span_body ls).0
        → All (λ l'. section_of l' ≡ none) (spanned o l ls (span_body ls)).0
    by_header none e h = (e, h)
    by_header (some name) e h = tt
