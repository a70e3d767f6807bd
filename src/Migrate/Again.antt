-- ===== src/Migrate/Again.antt =====
-- configmigrate.py: a second migration of the same file finds nothing to do.
use mcp_postgres.Prelude.{
  ℕ, ◌≡◌, refl, ap, sym, ◌∙◌, subst, Bool, true, false, ◌&&◌, ◌||◌, Option, none, some, List, [],
  ◌∷◌, ◌++◌, map, is_nil, All, All-map, keep_none, keep, arith, if◌then◌else◌,
}
use mcp_postgres.PyText.{Text, text_eq_refl}
use mcp_postgres.PyText.Lines.{IsLine, split_lines, split_lines-IsLine, join, newline}
use mcp_postgres.PyText.Strip.{lstrip}
use mcp_postgres.Config.{
  commented_key, Default, Document, file_known_keys, section_of, look_up, in_set, set_of,
  commented_keys, diff_config,
}
use mcp_postgres.Migrate.{
  toml_literal, offer, insert_into_section, added, Groups, by_section, add_missing, written, Change,
  comment_deprecated, apply_migration, migrate,
}
use mcp_postgres.Migrate.Grouped.{
  GroupOf, by_section-GroupOf, in_groups, in_missing, in_groups-by_section,
}
use mcp_postgres.Migrate.Insertion.{active}
use mcp_postgres.Migrate.Mentions.{mentions, scan_mentions_lem}
use mcp_postgres.Migrate.Neutral.{IsTitle, offers-IsComment, add_missing-active, split_lines-join}
use mcp_postgres.Migrate.Offered.{mentions-insert_into_section, quoted-offers}
use mcp_postgres.Migrate.Entries.{VersionIsLine, entries, lacks}
use mcp_postgres.Migrate.Whole.{
  missing_in, diff_config_lem, missing_in-Entries, missing_in-Known, migrate-active,
}
use mcp_postgres.Migrate.Schema.{IsPlain}
use mcp_postgres.Migrate.Toml.{
  IsToml, has_triple, plain_breaks, counts, AddsNothing, add_missing-counts, missing_in-AddsNothing,
  counts-written, written-plain_breaks,
}

module _ (beyond_ascii : ℕ → Bool) (s k : Text) where
  add_missing-mentions :
      (version : Option Text) (gs : Groups) (lines : List Text) (changes : List Change)
      → All (GroupOf IsTitle (IsPlain beyond_ascii)) gs
      → mentions beyond_ascii s k none (add_missing version gs (lines, changes)).0
        ≡ (in_groups s k gs || mentions beyond_ascii s k none lines)
  unfolding add_missing
  add_missing-mentions version [] lines changes g = refl
  add_missing-mentions version ((section, items) ∷ gs) lines changes g =
      let new_lines = map (offer version) items in
      let comments = offers-IsComment version items in
      ground (
        arith,
        add_missing-mentions version gs (insert_into_section lines section new_lines)
            (changes ++ map (λ i. added section i.0 (toml_literal i.1)) items) g.1,
        mentions-insert_into_section beyond_ascii s k new_lines
            (All-map new_lines (λ l c. c.0) comments) section lines g.0.0.0,
        quoted-offers beyond_ascii k version items (All-map items (λ i p. p.0) g.0.1),
      )

-- What the filter keeps is found again.
kept-found :
    (p : Text × (Text × Default) → Bool) (xs whole : List (Text × (Text × Default)))
    → ((e : Text × (Text × Default))
        → in_missing e.0 e.1.0 (keep p xs) ≡ true
        → in_missing e.0 e.1.0 whole ≡ true)
    → All (λ e. p e ≡ true → in_missing e.0 e.1.0 whole ≡ true) xs
kept-found p [] whole h = tt
kept-found p (x ∷ xs) whole h = (
  λ e. h x (rw (e, text_eq_refl x.0, text_eq_refl x.1.0) refl),
  kept-found p xs whole (λ e m. h e (later e (p x) m)),
)
  where
    later :
        (e : Text × (Text × Default)) (b : Bool)
        → in_missing e.0 e.1.0 (keep p xs) ≡ true
        → in_missing e.0 e.1.0 (if b then x ∷ keep p xs else keep p xs) ≡ true
    later e true m = ground (arith, m)
    later e false m = m

module _ {V : Type 0} (loads : Text → Option (Document V)) (beyond_ascii : ℕ → Bool)
    (version : Option Text) where
  abbrev migrated : Text → Text × List Change
  migrated old = migrate loads beyond_ascii old version

  mentioned_lem :
      (s k old : Text)
      → in_set k (set_of (look_up s (commented_keys beyond_ascii old)))
        ≡ mentions beyond_ascii s k none (split_lines old)
  unfolding commented_keys look_up
  mentioned_lem s k old =
      ground (arith, scan_mentions_lem beyond_ascii s k none (split_lines old) [])

  -- With nothing missing, nothing is done.
  migrate_nothing :
      (old : Text) → missing_in loads beyond_ascii (loads old) old ≡ [] → migrated old ≡ (old, [])
  unfolding migrate diff_config apply_migration
  migrate_nothing old h =
      let (m, p) = diff_config_lem loads beyond_ascii (loads old) old in rw (m ∙ h, p) refl

  module _ (old new : Text) (d : Document V) (toml : IsToml loads) (plain : has_triple old ≡ false)
      (breaks : plain_breaks old ≡ true × plain_breaks new ≡ true)
      (counted : keep counts (split_lines new) ≡ keep counts (split_lines old))
      (parsed : loads old ≡ some d)
      (same : active none (split_lines new) ≡ active none (split_lines old))
      (mentioned : (s k : Text)
        → mentions beyond_ascii s k none (split_lines new) ≡ (
            in_missing s k (missing_in loads beyond_ascii (some d) old)
            || mentions beyond_ascii s k none (split_lines old))) where
    abbrev lacks_now : Document V → Text × (Text × Default) → Bool
    lacks_now d' = lacks d' (commented_keys beyond_ascii new) loads beyond_ascii

    abbrev lacked : Text × (Text × Default) → Bool
    lacked = lacks d (commented_keys beyond_ascii old) loads beyond_ascii

    provided :
        (d' : Document V) (e : Text × (Text × Default))
        → loads new ≡ some d'
        → (lacked e ≡ true
            → in_missing e.0 e.1.0 (missing_in loads beyond_ascii (some d) old) ≡ true)
        → lacks_now d' e ≡ false
    provided d' (s, (k, default)) now offered = ground (
      arith,
      toml.same_keys old new d d' plain breaks.0 breaks.1 same counted parsed now s k,
      mentioned_lem s k new,
      mentioned_lem s k old,
      mentioned s k,
    )

    nothing_missing :
        (o : Option (Document V)) → loads new ≡ o → missing_in loads beyond_ascii o new ≡ []
    unfolding missing_in
    nothing_missing none e = refl
    nothing_missing (some d') e = keep_none (lacks_now d') (entries file_known_keys) (
        All-map (entries file_known_keys) (λ x. provided d' x e)
          (kept-found lacked (entries file_known_keys) (missing_in loads beyond_ascii (some d) old)
            (λ x m. m)))

    pub migrate_after : migrated new ≡ (new, [])
    migrate_after = migrate_nothing new (nothing_missing (loads new) refl)

  -- Another migration does nothing.
  abbrev IsDone : Text × List Change → Type 0
  IsDone r = migrated r.0 ≡ (r.0, [])

  nothing_again : (old : Text) → migrated old ≡ (old, []) → IsDone (migrated old)
  nothing_again old e = rw (e, e) refl

  mentions-newline :
      (s k : Text)
      → mentions beyond_ascii s k none (split_lines (join newline [] ++ newline))
        ≡ mentions beyond_ascii s k none []
  unfolding join split_lines mentions section_of lstrip commented_key
  mentions-newline s k = refl

  -- The lines of a text that is written are those that it is written from.
  mentions-written :
      (s k : Text) (lines : List Text)
      → All IsLine lines
      → mentions beyond_ascii s k none (split_lines (join newline lines ++ newline))
        ≡ mentions beyond_ascii s k none lines
  mentions-written s k [] h = mentions-newline s k
  mentions-written s k (l ∷ ls) h = ap (mentions beyond_ascii s k none) (split_lines-join l ls h)

  abbrev missing_keys_now : Text → Document V → List (Text × (Text × Default))
  missing_keys_now old d = missing_in loads beyond_ascii (some d) old

  abbrev added_to : Text → Document V → List Text × List Change
  added_to old d =
      add_missing version (by_section (missing_keys_now old d) []) (split_lines old, [])

  module _ (old : Text) (d : Document V) (toml : IsToml loads) (plain : has_triple old ≡ false)
      (breaks : plain_breaks old ≡ true) (v : VersionIsLine version)
      (parsed : loads old ≡ some d) where
    by_changes :
        (p : List Text × List Change)
        → p ≡ added_to old d
        → migrated old ≡ written old p
        → IsDone (written old p)
    by_changes (lines, []) e w = w
    by_changes (lines, c ∷ cs) e w =
        let groups = by_section (missing_keys_now old d) [] in
        let (same, all) =
          add_missing-active version groups (split_lines old) []
            (by_section-GroupOf IsTitle (λ i. IsLine (offer version i)) (missing_keys_now old d) []
              (missing_in-Known loads beyond_ascii (some d) old version v) tt)
            (split_lines-IsLine old) in
        let lined = subst (All IsLine) (sym (ap (λ (q : List Text × List Change). q.0) e)) all in
        migrate_after old (join newline lines ++ newline) d toml plain
          (breaks, written-plain_breaks lines lined)
          (counts-written lines lined
            ∙ ap (λ (q : List Text × List Change). keep counts q.0) e
            ∙ add_missing-counts version groups (split_lines old) [] (
                by_section-GroupOf AddsNothing (λ i. Unit {0}) (missing_keys_now old d) []
                  (missing_in-AddsNothing loads beyond_ascii (some d) old) tt))
          parsed
          (ap (λ (r : Text × List Change). active none (split_lines r.0)) (sym w)
            ∙ migrate-active loads beyond_ascii old version v)
          (λ s k.
            mentions-written s k lines lined
            ∙ ap (λ (q : List Text × List Change). mentions beyond_ascii s k none q.0) e
            ∙ add_missing-mentions beyond_ascii s k version groups (split_lines old) [] (
                by_section-GroupOf IsTitle (IsPlain beyond_ascii) (missing_keys_now old d) []
                  (missing_in-Entries loads beyond_ascii (some d) old) tt)
            ∙ found s k)
      where
        found :
            (s k : Text)
            → (in_groups s k (by_section (missing_keys_now old d) [])
                || mentions beyond_ascii s k none (split_lines old))
              ≡ (in_missing s k (missing_keys_now old d)
                  || mentions beyond_ascii s k none (split_lines old))
        found s k = ground (arith, in_groups-by_section s k (missing_keys_now old d) [])

  migrate_lem :
      (old : Text)
      → let ms = missing_in loads beyond_ascii (loads old) old in
        migrated old ≡ (
          if is_nil ms && true
          then (old, [])
          else written old (add_missing version (by_section ms []) (split_lines old, [])))
  unfolding migrate diff_config apply_migration comment_deprecated
  migrate_lem old =
      let (m, p) = diff_config_lem loads beyond_ascii (loads old) old in rw (m, p) refl

  -- A second migration finds nothing to do and leaves the text as it is, whatever the first one has
  -- changed. The text has no string of several lines and no line break but the usual ones, the
  -- version is one line, and the parser is one for which comments, blank lines and the headers of
  -- the schema's sections set no key.
  pub migrate_again :
      (old : Text)
      → IsToml loads
      → has_triple old ≡ false
      → plain_breaks old ≡ true
      → VersionIsLine version
      → let (new, changes) = migrate loads beyond_ascii old version in
        migrate loads beyond_ascii new version ≡ (new, [])
  unfolding missing_in
  migrate_again old toml plain breaks v = by_parse (loads old) refl (migrate_lem old)
    where
      by_test :
          (d : Document V) (b : Bool)
          → loads old ≡ some d
          → migrated old ≡ (if b then (old, []) else written old (added_to old d))
          → IsDone (migrated old)
      by_test d true e h = nothing_again old h
      by_test d false e h = rw (h) (by_changes old d toml plain breaks v e (added_to old d) refl h)

      by_parse :
          (o : Option (Document V))
          → loads old ≡ o
          → (let ms = missing_in loads beyond_ascii o old in
              migrated old ≡ (
                if is_nil ms && true
                then (old, [])
                else written old (add_missing version (by_section ms []) (split_lines old, []))))
          → IsDone (migrated old)
      by_parse none e h = nothing_again old h
      by_parse (some d) e h = by_test d (is_nil (missing_keys_now old d) && true) e h
