-- ===== src/Migrate/Grouped.antt =====
-- configmigrate.py: the missing keys by their sections.
use mcp_postgres.Prelude.{
  ◌≡◌, refl, Bool, true, false, ◌&&◌, ◌||◌, List, [], ◌∷◌, ◌++◌, All, All-append, any_of,
  any_of-append, arith, if◌then◌else◌,
}
use mcp_postgres.PyText.{Text, text_eq, text_eq_iff}
use mcp_postgres.Config.{Default}
use mcp_postgres.Migrate.{Groups, add_to_group, by_section}

module _ (P : Text → Type 0) (Q : Text × Default → Type 0) where
  -- a section with its keys, and a key with its section
  abbrev pub GroupOf : Text × List (Text × Default) → Type 0
  GroupOf (section, items) = P section × All Q items

  abbrev pub EntryOf : Text × (Text × Default) → Type 0
  EntryOf (section, item) = P section × Q item

  add_to_group-GroupOf :
      (section : Text) (item : Text × Default) (gs : Groups)
      → P section
      → Q item
      → All GroupOf gs
      → All GroupOf (add_to_group section item gs)
  unfolding add_to_group
  add_to_group-GroupOf section item [] p q h = ((p, (q, tt)), tt)
  add_to_group-GroupOf section item ((s, items) ∷ gs) p q h =
      by_name (text_eq s section) (add_to_group-GroupOf section item gs p q h.1)
    where
      by_name :
          (b : Bool)
          → All GroupOf (add_to_group section item gs)
          → All GroupOf (
              if b then (s, items ++ item ∷ []) ∷ gs else (s, items) ∷ add_to_group section item gs)
      by_name true r = ((h.0.0, All-append Q items (item ∷ []) h.0.1 (q, tt)), h.1)
      by_name false r = (h.0, r)

  pub by_section-GroupOf :
      (ms : List (Text × (Text × Default))) (gs : Groups)
      → All EntryOf ms
      → All GroupOf gs
      → All GroupOf (by_section ms gs)
  unfolding by_section
  by_section-GroupOf [] gs k h = h
  by_section-GroupOf ((section, item) ∷ ms) gs k h =
      by_section-GroupOf ms (add_to_group section item gs) k.1
        (add_to_group-GroupOf section item gs k.0.0 k.0.1 h)

module _ (s k : Text) where
  -- whether the key of the section is in a group, and among the missing ones
  abbrev pub in_groups : Groups → Bool
  in_groups = any_of (λ g. text_eq g.0 s && any_of (λ i. text_eq i.0 k) g.1)

  abbrev pub in_missing : List (Text × (Text × Default)) → Bool
  in_missing = any_of (λ m. text_eq m.0 s && text_eq m.1.0 k)

  in_groups-add_to_group :
      (section : Text) (item : Text × Default) (gs : Groups)
      → in_groups (add_to_group section item gs)
        ≡ ((text_eq section s && text_eq item.0 k) || in_groups gs)
  unfolding add_to_group
  in_groups-add_to_group section item [] = ground arith
  in_groups-add_to_group section item ((t, items) ∷ gs) = ground (
    arith,
    in_groups-add_to_group section item gs,
    any_of-append (λ (i : Text × Default). text_eq i.0 k) items (item ∷ []),
    text_eq_iff t section,
    text_eq_iff t s,
    text_eq_iff section s,
  )

  pub in_groups-by_section :
      (ms : List (Text × (Text × Default))) (gs : Groups)
      → in_groups (by_section ms gs) ≡ (in_missing ms || in_groups gs)
  unfolding by_section
  in_groups-by_section [] gs = refl
  in_groups-by_section ((section, item) ∷ ms) gs = ground (
    arith,
    in_groups-by_section ms (add_to_group section item gs),
    in_groups-add_to_group section item gs,
  )
