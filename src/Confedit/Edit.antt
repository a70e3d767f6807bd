-- ===== src/Confedit/Edit.antt =====
-- The edits of `set_conf_value` by position, as recursions on the lines.
use mcp_postgres.Prelude.{
  ℕ, zero, suc, ◌≡◌, refl, sym, ap, ◌∙◌, Bool, true, false, not, Option, none, some, List, [], ◌∷◌,
  map, arith, if◌then◌else◌, Bool-cases, inl, inr, length, get_elem?, set, is_nil, keep, any_of,
  All,
}
use mcp_postgres.PyText.{Text}
use mcp_postgres.Confedit.{positions, last, init, comment_out, write_commented, comment_out_all}

-- Pass 1 on the positions `js`: nothing where there are none.
abbrev pub apply_pass : Text → List ℕ → List Text → List Text
apply_pass nl [] ls = ls
apply_pass nl (a ∷ bs) ls = comment_out_all (init a bs) (set ls (last a bs) nl)

-- The same on the lines: an active line is commented out if another follows, else replaced.
pub rewrite_active : (Text → Bool) → Text → List Text → List Text
rewrite_active p nl [] = []
rewrite_active p nl (l ∷ ls) =
    let rest = rewrite_active p nl ls in
    if p l then (if any_of p ls then comment_out l ∷ rest else nl ∷ ls) else l ∷ rest

positions-suc :
    (p : Text → Bool) (i : ℕ) (ls : List Text) → positions p (suc i) ls ≡ map suc (positions p i ls)
unfolding positions
positions-suc p i [] = refl
positions-suc p i (l ∷ ls) = ground (arith, positions-suc p (suc i) ls)

pub is_nil-positions :
    (p : Text → Bool) (i : ℕ) (ls : List Text) → is_nil (positions p i ls) ≡ not (any_of p ls)
unfolding positions
is_nil-positions p i [] = refl
is_nil-positions p i (l ∷ ls) = ground (arith, is_nil-positions p (suc i) ls)

last-suc : (a : ℕ) (bs : List ℕ) → last (suc a) (map suc bs) ≡ suc (last a bs)
last-suc a [] = refl
last-suc a (b ∷ bs) = last-suc b bs

init-suc : (a : ℕ) (bs : List ℕ) → init (suc a) (map suc bs) ≡ map suc (init a bs)
init-suc a [] = refl
init-suc a (b ∷ bs) = ap (λ (r : List ℕ). suc a ∷ r) (init-suc b bs)

write_commented-suc :
    (l : Text) (ls : List Text) (j : ℕ) (o : Option Text)
    → write_commented (l ∷ ls) (suc j) o ≡ l ∷ write_commented ls j o
write_commented-suc l ls j none = refl
write_commented-suc l ls j (some x) = refl

comment_out_all-suc :
    (js : List ℕ) (l : Text) (ls : List Text)
    → comment_out_all (map suc js) (l ∷ ls) ≡ l ∷ comment_out_all js ls
unfolding comment_out_all
comment_out_all-suc [] l ls = refl
comment_out_all-suc (j ∷ js) l ls =
    ap (comment_out_all (map suc js)) (write_commented-suc l ls j (get_elem? ls j))
    ∙ comment_out_all-suc js l (write_commented ls j (get_elem? ls j))

apply_pass-suc :
    (nl : Text) (js : List ℕ) (l : Text) (ls : List Text)
    → apply_pass nl (map suc js) (l ∷ ls) ≡ l ∷ apply_pass nl js ls
apply_pass-suc nl [] l ls = refl
apply_pass-suc nl (a ∷ bs) l ls =
    rw (last-suc a bs, init-suc a bs) (comment_out_all-suc (init a bs) l (set ls (last a bs) nl))

apply_pass-zero :
    (nl : Text) (b : ℕ) (bs : List ℕ) (l : Text) (ls : List Text)
    → apply_pass nl (zero ∷ map suc (b ∷ bs)) (l ∷ ls) ≡ comment_out l ∷ apply_pass nl (b ∷ bs) ls
unfolding comment_out_all
apply_pass-zero nl b bs l ls =
    rw (last-suc b bs, init-suc b bs)
      (comment_out_all-suc (init b bs) (comment_out l) (set ls (last b bs) nl))

head_case :
    (nl : Text) (js : List ℕ) (l : Text) (ls : List Text) (more : Bool)
    → is_nil js ≡ not more
    → apply_pass nl (zero ∷ map suc js) (l ∷ ls)
      ≡ (if more then comment_out l ∷ apply_pass nl js ls else nl ∷ ls)
head_case nl [] l ls true h = cc
head_case nl [] l ls false h = unfold comment_out_all in refl
head_case nl (b ∷ bs) l ls true h = apply_pass-zero nl b bs l ls
head_case nl (b ∷ bs) l ls false h = cc

-- The positions find the lines that the recursion finds.
pub apply_pass-positions :
    (p : Text → Bool) (nl : Text) (ls : List Text)
    → apply_pass nl (positions p 0 ls) ls ≡ rewrite_active p nl ls
unfolding positions rewrite_active
apply_pass-positions p nl [] = refl
apply_pass-positions p nl (l ∷ ls) = elim (Bool-cases (p l)) [
  | inl e ↦
      rw (e, positions-suc p 0 ls)
        (head_case nl (positions p 0 ls) l ls (any_of p ls) (is_nil-positions p 0 ls)
          ∙ ap (λ (r : List Text). if any_of p ls then comment_out l ∷ r else nl ∷ ls)
              (apply_pass-positions p nl ls))
  | inr e ↦
      rw (e, positions-suc p 0 ls)
        (apply_pass-suc nl (positions p 0 ls) l ls
          ∙ ap (λ (r : List Text). l ∷ r) (apply_pass-positions p nl ls))
]

abbrev pub last_of : List Text → Option Text
last_of [] = none
last_of (l ∷ []) = some l
last_of (l ∷ m ∷ ls) = last_of (m ∷ ls)

abbrev pub line_at_last : List ℕ → List Text → Option Text
line_at_last [] ls = none
line_at_last (a ∷ bs) ls = get_elem? ls (last a bs)

line_at_last-suc :
    (js : List ℕ) (l : Text) (ls : List Text)
    → line_at_last (map suc js) (l ∷ ls) ≡ line_at_last js ls
line_at_last-suc [] l ls = refl
line_at_last-suc (a ∷ bs) l ls = rw (last-suc a bs)

pub length-positions :
    (p : Text → Bool) (i : ℕ) (ls : List Text) → length (positions p i ls) ≡ length (keep p ls)
unfolding positions
length-positions p i [] = refl
length-positions p i (l ∷ ls) = ground (arith, length-positions p (suc i) ls)

last_head :
    (l : Text) (js : List ℕ) (ls hits : List Text)
    → length js ≡ length hits
    → line_at_last js ls ≡ last_of hits
    → line_at_last (zero ∷ map suc js) (l ∷ ls) ≡ last_of (l ∷ hits)
last_head l [] ls [] h e = refl
last_head l [] ls (m ∷ hits) h e = absurd (omega arith)
last_head l (b ∷ bs) ls [] h e = absurd (omega arith)
last_head l (b ∷ bs) ls (m ∷ hits) h e = rw (last-suc b bs) e

-- The last position is that of the last line that passes.
pub line_at_last-positions :
    (p : Text → Bool) (ls : List Text) → line_at_last (positions p 0 ls) ls ≡ last_of (keep p ls)
unfolding positions
line_at_last-positions p [] = refl
line_at_last-positions p (l ∷ ls) = elim (Bool-cases (p l)) [
  | inl e ↦
      rw (e, positions-suc p 0 ls)
        (last_head l (positions p 0 ls) ls (keep p ls) (length-positions p 0 ls)
          (line_at_last-positions p ls))
  | inr e ↦
      rw (e, positions-suc p 0 ls)
        (line_at_last-suc (positions p 0 ls) l ls ∙ line_at_last-positions p ls)
]

pub any_of-keep : (p : Text → Bool) (ls : List Text) → is_nil (keep p ls) ≡ not (any_of p ls)
any_of-keep p [] = refl
any_of-keep p (l ∷ ls) = ground (arith, any_of-keep p ls)

-- Of the lines that passed, one is left, if the new line passes and no commented line does.
pub keep-rewrite_active :
    (p : Text → Bool) (nl : Text) (ls : List Text)
    → p nl ≡ true
    → ((l : Text) → p (comment_out l) ≡ false)
    → keep p (rewrite_active p nl ls) ≡ (if any_of p ls then nl ∷ [] else [])
unfolding rewrite_active
keep-rewrite_active p nl [] h c = refl
keep-rewrite_active p nl (l ∷ ls) h c =
    ground (arith, c l, any_of-keep p ls, keep-rewrite_active p nl ls)

-- A second pass with the same line changes nothing.
pub rewrite_active_fixed :
    (p : Text → Bool) (nl : Text) (ls : List Text)
    → keep p ls ≡ nl ∷ []
    → rewrite_active p nl ls ≡ ls
unfolding rewrite_active
rewrite_active_fixed p nl [] h = refl
rewrite_active_fixed p nl (l ∷ ls) h =
    ground (arith, any_of-keep p ls, rewrite_active_fixed p nl ls)

-- A line that does not pass stays where it is.
pub get_elem?-rewrite_active :
    (p : Text → Bool) (nl : Text) (ls : List Text) (i : ℕ) (l : Text)
    → get_elem? ls i ≡ some l
    → p l ≡ false
    → get_elem? (rewrite_active p nl ls) i ≡ some l
unfolding rewrite_active
get_elem?-rewrite_active p nl [] i l e h = cc
get_elem?-rewrite_active p nl (m ∷ ls) zero l e h = ground arith
get_elem?-rewrite_active p nl (m ∷ ls) (suc i) l e h =
    ground (arith, get_elem?-rewrite_active p nl ls i l)

pub All-rewrite_active :
    (p : Text → Bool) (nl : Text) (P : Text → Type 0) (ls : List Text)
    → P nl
    → ((l : Text) → P l → P (comment_out l))
    → All P ls
    → All P (rewrite_active p nl ls)
unfolding rewrite_active
All-rewrite_active p nl P [] h c a = tt
All-rewrite_active p nl P (l ∷ ls) h c a =
    let ih = All-rewrite_active p nl P ls h c a.1 in
    elim (Bool-cases (p l)) [
      | inl e ↦ elim (Bool-cases (any_of p ls)) [
        | inl m ↦ rw (e, m) (c l a.0, ih)
        | inr m ↦ rw (e, m) (h, a.1)
      ]
      | inr e ↦ rw e (a.0, ih)
    ]

All-keep : (q : Text → Bool) (ls : List Text) → All (λ l. q l ≡ true) (keep q ls)
All-keep q [] = tt
All-keep q (m ∷ ls) = ground (arith, All-keep q ls)

last_of-All :
    (P : Text → Type 0) (ks : List Text)
    → is_nil ks ≡ false
    → All P ks
    → (l : Text) × (last_of ks ≡ some l) × P l
last_of-All P [] h a = cc
last_of-All P (k ∷ []) h a = (k, refl, a.0)
last_of-All P (k ∷ m ∷ ks) h a = last_of-All P (m ∷ ks) refl a.1

-- The line at the last position, where there is one, passes.
pub line_at_last_hit :
    (q : Text → Bool) (ls : List Text) (a : ℕ) (r : List ℕ)
    → positions q 0 ls ≡ a ∷ r
    → (l : Text) × (get_elem? ls (last a r) ≡ some l) × (q l ≡ true)
line_at_last_hit q ls a r h =
    let some_kept : is_nil (keep q ls) ≡ false =
      any_of-keep q ls ∙ sym (is_nil-positions q 0 ls) ∙ ap is_nil h in
    let (l, e, t) = last_of-All (λ l. q l ≡ true) (keep q ls) some_kept (All-keep q ls) in
    (l, sym (ap (λ js. line_at_last js ls) h) ∙ line_at_last-positions q ls ∙ e, t)

pub rewrite_active-not_nil :
    (p : Text → Bool) (nl : Text) (ls : List Text)
    → any_of p ls ≡ true
    → is_nil (rewrite_active p nl ls) ≡ false
unfolding rewrite_active
rewrite_active-not_nil p nl [] h = cc
rewrite_active-not_nil p nl (l ∷ ls) h = ground arith
