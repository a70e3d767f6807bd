-- ===== src/Confedit/Match.antt =====
-- The setting pattern of `set_conf_value`, on the lines that the edit writes.
use mcp_postgres.Prelude.{
  ℕ, ◌≡◌, refl, ◌∙◌, ◌≢◌, Bool, true, false, Option, none, some, ap, [], ◌∷◌, ◌++◌, ◌==◌, arith,
  All, All-append, All-append_left, All-append_right, Bool-cases, inl, inr, ==_iff,
}
use mcp_postgres.PyText.{
  Text, lit, is_space, is_break, fold_code, is_space_blank, is_space_hash, is_space_equals,
  fold_hash, fold_blank,
}
use mcp_postgres.PyText.Lines.{IsLine, IsBreakFree, is_line_sound}
use mcp_postgres.PyText.Strip.{IsBlank, indent, lstrip, indent-IsBlank, indent-lstrip}
use mcp_postgres.PyText.Regex.{
  many, some_of, one, literal, many-none, literal-append, Avoids, or_else-ne, many-Avoids,
  some_of-Avoids, literal-Avoids,
}
use mcp_postgres.Confedit.{
  active_mark, equals_sign, setting_name, marked_name, match_setting, is_active, comment_out,
  shadow_marker,
}

-- A name that begins with a visible character which is no comment mark, on one line, without `=`.
abbrev pub IsName : Text → Type 0
IsName [] = ⊥
IsName (c ∷ cs) =
    (is_space c ≡ false)
    × ((c == b'#') ≡ false)
    × All (λ d. (is_break d ≡ false) × ((d == b'=') ≡ false)) (c ∷ cs)

equals_sign_lem : (f : Text) → equals_sign false (lit " = " ++ f) ≡ some false
unfolding lit many one
equals_sign_lem f = rw (is_space_blank, is_space_equals)

marked_name-visible :
    (n : Text) (c : ℕ) (s : Text)
    → (c == b'#') ≡ false
    → marked_name n (c ∷ s) ≡ setting_name n false (c ∷ s)
unfolding some_of
marked_name-visible n c s h = rw h

match_setting-setting :
    (name f : Text) → IsName name → match_setting name (name ++ (lit " = " ++ f)) ≡ some false
unfolding match_setting
match_setting-setting [] f h = absurd h
match_setting-setting (c ∷ cs) f h =
    many-none is_space (marked_name (c ∷ cs)) c (cs ++ (lit " = " ++ f)) h.0
    ∙ marked_name-visible (c ∷ cs) c (cs ++ (lit " = " ++ f)) h.1
    ∙ literal-append (c ∷ cs) (equals_sign false) (lit " = " ++ f)
    ∙ equals_sign_lem f

-- The new line is an active line of its name.
pub is_active-setting :
    (name f : Text) → IsName name → is_active name (name ++ (lit " = " ++ f)) ≡ true
is_active-setting name f h = ap active_mark (match_setting-setting name f h)

one-Avoids : (d : ℕ) → Avoids false (one {R = Bool} d (λ s. some true))
unfolding one
one-Avoids d [] = λ e. cc
one-Avoids d (c ∷ s) = ground arith

-- Behind a comment mark, a match is no active setting.
commented_name : (n : Text) → Avoids false (setting_name n true)
commented_name n =
    literal-Avoids false n (equals_sign true)
      (many-Avoids false is_space (one b'=' (λ s. some true)) (one-Avoids b'='))

commented_mark :
    (n : Text) → Avoids false (some_of (λ c. c == b'#') (many is_space (setting_name n true)))
commented_mark n =
    some_of-Avoids false (λ c. c == b'#') (many is_space (setting_name n true))
      (many-Avoids false is_space (setting_name n true) (commented_name n))

literal-mismatch :
    (c : ℕ) (cs : Text) (d : ℕ) (s : Text)
    → fold_code d ≢ fold_code c
    → setting_name (c ∷ cs) false (d ∷ s) ≢ some false
unfolding literal
literal-mismatch c cs d s h = elim (Bool-cases (fold_code d == fold_code c)) [
  | inl e ↦ absurd (h ((==_iff _ _).0 e))
  | inr e ↦ rw e (λ x. cc)
]

hash-ne : (c : ℕ) → (c == b'#') ≡ false → fold_code b'#' ≢ fold_code c
hash-ne c h e = cc (fold_hash c e)

blank-ne : (c d : ℕ) → is_space c ≡ false → is_space d ≡ true → fold_code d ≢ fold_code c
blank-ne c d h b e = cc (fold_blank d c b e)

hash_line :
    (name ind rest : Text)
    → IsName name
    → IsBlank ind
    → match_setting name (ind ++ b'#' ∷ rest) ≢ some false
unfolding match_setting many
hash_line [] ind rest h b = absurd h
hash_line (c ∷ cs) [] rest h b = rw is_space_hash (
    or_else-ne false _ _ (commented_mark (c ∷ cs) (b'#' ∷ rest))
      (literal-mismatch c cs b'#' rest (hash-ne c h.1)))
hash_line (c ∷ cs) (d ∷ ind) rest h b = rw b.0 (
    or_else-ne false _ _ (hash_line (c ∷ cs) ind rest h b.1) (
      or_else-ne false _ _ (commented_mark (c ∷ cs) (d ∷ (ind ++ b'#' ∷ rest)))
        (literal-mismatch c cs d (ind ++ b'#' ∷ rest) (blank-ne c d h.0 b.0))))

inactive : (o : Option Bool) → o ≢ some false → active_mark o ≡ false
inactive none h = refl
inactive (some true) h = refl
inactive (some false) h = absurd (h refl)

-- A line that was commented out is not active.
pub is_active-comment_out :
    (name line : Text) → IsName name → is_active name (comment_out line) ≡ false
unfolding comment_out lit
is_active-comment_out name line h =
    inactive (match_setting name (comment_out line))
      (hash_line name (indent line) _ h (indent-IsBlank line))

pub comment_out-IsLine : (line : Text) → IsLine line → IsLine (comment_out line)
unfolding comment_out lit is_break
comment_out-IsLine line h =
    let parts : IsLine (indent line ++ lstrip line) = rw (indent-lstrip line) h in
    All-append IsBreakFree (indent line) _ (All-append_left IsBreakFree (indent line) _ parts) (
      refl,
      (
        refl,
        All-append IsBreakFree (lstrip line) _ (All-append_right IsBreakFree (indent line) _ parts)
            (is_line_sound (lit "    # " ++ shadow_marker) refl),
      ),
    )
