-- ===== src/PyText/Chars.antt =====
-- Code points: white space, line breaks, letter case; equality of texts.
use Prim.Native.Char.{code}
use mcp_postgres.Prelude.{
  ℕ, ◌+◌, String, ◌≡◌, refl, sym, ◌∙◌, ◌↔◌, Bool, true, false, ◌&&◌, ◌||◌, List, [], ◌∷◌, arith,
  leb, ◌==◌, if◌then◌else◌,
}

abbrev pub Text : Type 0
Text = List ℕ

-- A literal of the source, as code points.
unfoldable pub lit : String → Text
lit String.[] = []
lit (String.◌∷◌ c s) = code c ∷ lit s

abbrev within : ℕ → ℕ → ℕ → Bool
within lo hi c = leb lo c && leb c hi

-- `str.isspace` of one character, which is also `\s` in a pattern.
unfoldable pub is_space : ℕ → Bool
is_space c =
    within 9 13 c
    || within 28 32 c
    || c == 0x85
    || c == 0xa0
    || c == 0x1680
    || within 0x2000 0x200a c
    || c == 0x2028
    || c == 0x2029
    || c == 0x202f
    || c == 0x205f
    || c == 0x3000

-- The line boundaries of `str.splitlines`.
unfoldable pub is_break : ℕ → Bool
is_break c = within 10 13 c || within 28 30 c || c == 0x85 || c == 0x2028 || c == 0x2029

-- `str.lower` on the ASCII letters.
unfoldable pub lower_code : ℕ → ℕ
lower_code c = if within b'A' b'Z' c then c + 32 else c

-- Letter case as `re.IGNORECASE` forgets it: the ASCII letters, and the characters beyond ASCII
-- that it identifies with one of them (dotted I, dotless i, long s, the Kelvin sign).
unfoldable pub fold_code : ℕ → ℕ
fold_code c =
    if c == 0x130 || c == 0x131
    then b'i'
    else if c == 0x17f
    then b's'
    else if c == 0x212a
    then b'k'
    else lower_code c

unfoldable pub text_eq : Text → Text → Bool
text_eq [] [] = true
text_eq [] (d ∷ t) = false
text_eq (c ∷ s) [] = false
text_eq (c ∷ s) (d ∷ t) = c == d && text_eq s t

pub text_eq_sound : (s t : Text) → text_eq s t ≡ true → s ≡ t
unfolding text_eq
text_eq_sound [] [] h = refl
text_eq_sound [] (d ∷ t) h = ground arith
text_eq_sound (c ∷ s) [] h = ground arith
text_eq_sound (c ∷ s) (d ∷ t) h = ground (arith, text_eq_sound s t)

pub text_eq_refl : (s : Text) → text_eq s s ≡ true
unfolding text_eq
text_eq_refl [] = refl
text_eq_refl (c ∷ s) = ground (arith, text_eq_refl s)

pub text_eq_iff : (s t : Text) → (text_eq s t ≡ true) ↔ (s ≡ t)
text_eq_iff s t = (text_eq_sound s t, λ e. rw e (text_eq_refl t))

pub is_space_fold : (c : ℕ) → is_space c ≡ true → fold_code c ≡ c
unfolding is_space fold_code lower_code
is_space_fold c h = ground arith

pub fold_space : (c : ℕ) → is_space (fold_code c) ≡ true → fold_code c ≡ c
unfolding is_space fold_code lower_code
fold_space c h = ground arith

pub is_break-is_space : (c : ℕ) → is_space c ≡ false → is_break c ≡ false
unfolding is_space is_break
is_break-is_space c h = ground arith

pub break_not_lf : (c : ℕ) → is_break c ≡ false → (c == 10) ≡ false
unfolding is_break
break_not_lf c h = ground arith

pub break_not_cr : (c : ℕ) → is_break c ≡ false → (c == 13) ≡ false
unfolding is_break
break_not_cr c h = ground arith

pub is_break_lf : is_break 10 ≡ true
unfolding is_break
is_break_lf = refl

pub is_space_blank : is_space b' ' ≡ true
unfolding is_space
is_space_blank = refl

pub is_space_hash : is_space b'#' ≡ false
unfolding is_space
is_space_hash = refl

pub is_space_equals : is_space b'=' ≡ false
unfolding is_space
is_space_equals = refl

pub is_space_quote : is_space 39 ≡ false
unfolding is_space
is_space_quote = refl

-- Only the mark itself folds to the comment mark.
pub fold_hash : (c : ℕ) → fold_code b'#' ≡ fold_code c → (c == b'#') ≡ true
unfolding fold_code lower_code
fold_hash c h = ground arith

-- A blank folds only to what a blank folds to.
pub fold_blank : (b c : ℕ) → is_space b ≡ true → fold_code b ≡ fold_code c → is_space c ≡ true
fold_blank b c h e =
    let same : fold_code c ≡ b = sym e ∙ is_space_fold b h in
    let blank : is_space (fold_code c) ≡ true = rw same h in rw (sym (fold_space c blank) ∙ same) h
