-- ===== src/Confedit/Passes.antt =====
-- The three passes of `set_conf_value`, one case for each.
use mcp_postgres.Prelude.{
  ℕ, zero, suc, ◌≡◌, refl, sym, ap, ◌∙◌, subst, Bool, true, false, not, some, List, [], ◌∷◌, ◌++◌,
  ◌==◌, arith, get_elem?, set, is_nil, keep, any_of, All, All-append, keep-append,
}
use mcp_postgres.PyText.{Text, is_break}
use mcp_postgres.PyText.Lines.{
  split_lines, join, newline, join-unlines, IsLine, split_lines-unlines,
}
use mcp_postgres.Confedit.{update_lines, is_active, is_commented, positions, last}
use mcp_postgres.Confedit.Match.{IsName, is_active-comment_out, comment_out-IsLine}
use mcp_postgres.Confedit.Edit.{
  apply_pass, rewrite_active, apply_pass-positions, keep-rewrite_active, rewrite_active_fixed,
  rewrite_active-not_nil, All-rewrite_active, is_nil-positions, line_at_last_hit,
}

-- The lines that the three passes write, given the active and the commented positions.
abbrev pub pass : Text → List Text → List ℕ → List ℕ → List Text
pass nl ls (a ∷ active) cs = apply_pass nl (a ∷ active) ls
pass nl ls [] (c ∷ cs) = set ls (last c cs) nl
pass nl ls [] [] = ls ++ nl ∷ []

pub content-update_lines :
    (content nl : Text) (ls : List Text) (active cs : List ℕ)
    → (update_lines content nl ls active cs).content
      ≡ join newline (pass nl ls active cs) ++ newline
unfolding update_lines
content-update_lines content nl ls (a ∷ active) cs = refl
content-update_lines content nl ls [] (c ∷ cs) = refl
content-update_lines content nl ls [] [] = refl

module _ (name nl : Text) (ls : List Text) where
  -- the lines that the edit writes
  abbrev pub edited : List Text
  edited = pass nl ls (positions (is_active name) 0 ls) (positions (is_commented name) 0 ls)

-- The three passes: an active line; else a commented line at `i`; else none.
module _ {ℓ} (name nl : Text) (ls : List Text) (Q : List Text → Type ℓ) where
  pub edited_cases :
      (any_of (is_active name) ls ≡ true → Q (rewrite_active (is_active name) nl ls))
      → (any_of (is_active name) ls ≡ false
          → (i : ℕ) (l : Text) → get_elem? ls i ≡ some l
          → is_commented name l ≡ true
          → Q (set ls i nl))
      → (any_of (is_active name) ls ≡ false → Q (ls ++ nl ∷ []))
      → Q (edited name nl ls)
  edited_cases live marked absent =
      go (positions (is_active name) 0 ls) (positions (is_commented name) 0 ls)
        (is_nil-positions (is_active name) 0 ls) (apply_pass-positions (is_active name) nl ls)
        (line_at_last_hit (is_commented name) ls)
    where
      go :
          (js cs : List ℕ)
          → is_nil js ≡ not (any_of (is_active name) ls)
          → apply_pass nl js ls ≡ rewrite_active (is_active name) nl ls
          → ((a : ℕ) (r : List ℕ)
              → cs ≡ a ∷ r
              → (l : Text) × (get_elem? ls (last a r) ≡ some l) × (is_commented name l ≡ true))
          → Q (pass nl ls js cs)
      go (a ∷ js) cs n e hit = subst Q (sym e) (live (ground arith))
      go [] (c ∷ cs) n e hit =
          let (l, at, m) = hit c cs refl in marked (ground arith) (last c cs) l at m
      go [] [] n e hit = absent (ground arith)

keep_none : (p : Text → Bool) (ks : List Text) → any_of p ks ≡ false → keep p ks ≡ []
keep_none p [] n = refl
keep_none p (k ∷ ks) n = ground (arith, keep_none p ks)

pub keep-set :
    (p : Text → Bool) (ls : List Text) (i : ℕ) (l nl : Text)
    → any_of p ls ≡ false
    → get_elem? ls i ≡ some l
    → p nl ≡ true
    → keep p (set ls i nl) ≡ nl ∷ []
keep-set p [] i l nl a h t = cc
keep-set p (m ∷ ls) zero l nl a h t = ground (arith, keep_none p ls)
keep-set p (m ∷ ls) (suc i) l nl a h t = ground (arith, keep-set p ls i l nl)

All-set {κ} :
    {A : Type 0} (P : A → Type κ) (xs : List A) (i : ℕ) (v : A)
    → P v
    → All P xs
    → All P (set xs i v)
All-set P [] i v h a = tt
All-set P (x ∷ xs) zero v h a = (h, a.1)
All-set P (x ∷ xs) (suc i) v h a = (a.0, All-set P xs i v h a.1)

pub split-joined :
    (ls : List Text)
    → is_nil ls ≡ false
    → All IsLine ls
    → split_lines (join newline ls ++ newline) ≡ ls
split-joined [] h a = cc
split-joined (l ∷ ls) h a = ap split_lines (join-unlines l ls) ∙ split_lines-unlines (l ∷ ls) a

pub name-IsLine : (name : Text) → IsName name → IsLine name
name-IsLine [] h = tt
name-IsLine (c ∷ cs) h = go (c ∷ cs) h.2
  where
    go : (t : Text) → All (λ d. (is_break d ≡ false) × ((d == b'=') ≡ false)) t → IsLine t
    go [] a = tt
    go (d ∷ t) a = (a.0.0, go t a.1)

set-not_nil :
    (ls : List Text) (i : ℕ) (l nl : Text) → get_elem? ls i ≡ some l → is_nil (set ls i nl) ≡ false
set-not_nil [] i l nl h = cc
set-not_nil (m ∷ ls) zero l nl h = refl
set-not_nil (m ∷ ls) (suc i) l nl h = refl

snoc-not_nil : (ls : List Text) (nl : Text) → is_nil (ls ++ nl ∷ []) ≡ false
snoc-not_nil [] nl = refl
snoc-not_nil (l ∷ ls) nl = refl

module _ (name nl : Text) (ls : List Text) where
  pub edited-not_nil : is_nil (edited name nl ls) ≡ false
  edited-not_nil =
      edited_cases name nl ls (λ e. is_nil e ≡ false)
        (λ live. rewrite_active-not_nil (is_active name) nl ls live)
        (λ no i l at m. set-not_nil ls i l nl at) (λ no. snoc-not_nil ls nl)

  pub edited-IsLine : IsLine nl → All IsLine ls → All IsLine (edited name nl ls)
  edited-IsLine h a =
      edited_cases name nl ls (All IsLine)
        (λ live. All-rewrite_active (is_active name) nl IsLine ls h comment_out-IsLine a)
        (λ no i l at m. All-set IsLine ls i nl h a) (λ no. All-append IsLine ls (nl ∷ []) a (h, tt))

  -- One line passes the test of the name afterwards, if the new line does.
  pub keep-edited :
      IsName name → is_active name nl ≡ true → keep (is_active name) (edited name nl ls) ≡ nl ∷ []
  keep-edited n t =
      edited_cases name nl ls (λ e. keep (is_active name) e ≡ nl ∷ [])
        (λ live.
          keep-rewrite_active (is_active name) nl ls t (λ l. is_active-comment_out name l n)
          ∙ rw live refl)
        (λ no i l at m. keep-set (is_active name) ls i l nl no at t)
        (λ no. keep-append (is_active name) ls (nl ∷ []) ∙ rw (keep_none (is_active name) ls no, t))

  pub edited_fixed : keep (is_active name) ls ≡ nl ∷ [] → edited name nl ls ≡ ls
  edited_fixed h =
      edited_cases name nl ls (λ e. e ≡ ls) (λ live. rewrite_active_fixed (is_active name) nl ls h)
        (λ no i l at m. cc (h, keep_none (is_active name) ls no))
        (λ no. cc (h, keep_none (is_active name) ls no))
