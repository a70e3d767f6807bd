-- ===== src/PyText/Strip.antt =====
-- `str.strip` and its halves.
use mcp_postgres.Prelude.{
  ℕ, ◌≡◌, refl, true, false, [], ◌∷◌, ◌++◌, arith, if◌then◌else◌, All, All-append_right, Bool-cases,
  inl, inr,
}
use mcp_postgres.PyText.Chars.{Text, is_space}

unfoldable pub lstrip : Text → Text
lstrip [] = []
lstrip (c ∷ cs) = let rest = lstrip cs in if is_space c then rest else c ∷ cs

abbrev keep_end : ℕ → Text → Text
keep_end c [] = if is_space c then [] else c ∷ []
keep_end c (d ∷ r) = c ∷ d ∷ r

unfoldable pub rstrip : Text → Text
rstrip [] = []
rstrip (c ∷ cs) = keep_end c (rstrip cs)

unfoldable pub strip : Text → Text
unfolding lstrip rstrip
strip t = rstrip (lstrip t)

abbrev pub IsBlank : Text → Type 0
IsBlank = All (λ c. is_space c ≡ true)

-- The text before what `lstrip` keeps.
unfoldable pub indent : Text → Text
indent [] = []
indent (c ∷ cs) = let rest = indent cs in if is_space c then c ∷ rest else []

pub indent-IsBlank : (t : Text) → IsBlank (indent t)
unfolding indent
indent-IsBlank [] = tt
indent-IsBlank (c ∷ cs) = ground (arith, indent-IsBlank cs)

pub indent-lstrip : (t : Text) → indent t ++ lstrip t ≡ t
unfolding indent lstrip
indent-lstrip [] = refl
indent-lstrip (c ∷ cs) = ground (arith, indent-lstrip cs)

rstrip-keep_end : (c : ℕ) (r : Text) → rstrip r ≡ r → rstrip (keep_end c r) ≡ keep_end c r
unfolding rstrip
rstrip-keep_end c [] h = ground arith
rstrip-keep_end c (d ∷ r) h = rw (h, rstrip)

pub rstrip-rstrip : (t : Text) → rstrip (rstrip t) ≡ rstrip t
unfolding rstrip
rstrip-rstrip [] = refl
rstrip-rstrip (c ∷ cs) = rstrip-keep_end c (rstrip cs) (rstrip-rstrip cs)

lstrip-keep_end : (c : ℕ) (r : Text) → is_space c ≡ false → lstrip (keep_end c r) ≡ keep_end c r
unfolding lstrip
lstrip-keep_end c [] h = rw (h, h)
lstrip-keep_end c (d ∷ r) h = rw h

lstrip-rstrip-lstrip : (t : Text) → lstrip (rstrip (lstrip t)) ≡ rstrip (lstrip t)
unfolding lstrip rstrip
lstrip-rstrip-lstrip [] = refl
lstrip-rstrip-lstrip (c ∷ cs) = elim (Bool-cases (is_space c)) [
  | inl e ↦ rw e (lstrip-rstrip-lstrip cs)
  | inr e ↦ rw e (lstrip-keep_end c (rstrip cs) e)
]

pub strip-strip : (t : Text) → strip (strip t) ≡ strip t
unfolding strip
strip-strip t = rw lstrip-rstrip-lstrip (rstrip-rstrip (lstrip t))

rstrip-append : (xs : Text) (c : ℕ) → is_space c ≡ false → rstrip (xs ++ c ∷ []) ≡ xs ++ c ∷ []
unfolding rstrip
rstrip-append [] c h = rw h
rstrip-append (x ∷ []) c h = rw (rstrip-append [] c h)
rstrip-append (x ∷ y ∷ xs) c h = rw (rstrip-append (y ∷ xs) c h)

-- What begins and ends with a visible character is not stripped.
pub strip_visible :
    (b : ℕ) (xs : Text) (c : ℕ)
    → is_space b ≡ false
    → is_space c ≡ false
    → strip (b ∷ xs ++ c ∷ []) ≡ b ∷ xs ++ c ∷ []
unfolding strip lstrip
strip_visible b xs c hb hc = rw hb (rstrip-append (b ∷ xs) c hc)

-- A space in front is dropped.
pub strip-cons_space : (b : ℕ) (t : Text) → is_space b ≡ true → strip (b ∷ t) ≡ strip t
unfolding strip lstrip
strip-cons_space b t h = rw h

All-keep_end : (P : ℕ → Type 0) (c : ℕ) (r : Text) → P c → All P r → All P (keep_end c r)
All-keep_end P c [] h a = ground arith
All-keep_end P c (d ∷ r) h a = (h, a)

All-rstrip : (P : ℕ → Type 0) (t : Text) → All P t → All P (rstrip t)
unfolding rstrip
All-rstrip P [] a = tt
All-rstrip P (c ∷ cs) a = All-keep_end P c (rstrip cs) a.0 (All-rstrip P cs a.1)

pub All-strip : (P : ℕ → Type 0) (t : Text) → All P t → All P (strip t)
unfolding strip
All-strip P t a =
    All-rstrip P (lstrip t) (All-append_right P (indent t) (lstrip t) (rw (indent-lstrip t) a))
