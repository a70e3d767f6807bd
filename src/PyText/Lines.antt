-- ===== src/PyText/Lines.antt =====
-- `str.splitlines` and `sep.join`.
use mcp_postgres.Prelude.{
  ℕ, ◌≡◌, refl, ap, ◌∙◌, inl, inr, Bool-cases, ==_iff, is_nil, Bool, true, false, not, all_of, ◌&&◌,
  List, [], ◌∷◌, ◌++◌, arith, ◌==◌, All, if◌then◌else◌, append_assoc,
}
use mcp_postgres.PyText.Chars.{Text, is_break, is_break_lf, break_not_lf, break_not_cr}

abbrev push : ℕ → List Text → List Text
push c [] = (c ∷ []) ∷ []
push c (l ∷ ls) = (c ∷ l) ∷ ls

-- The flag says that the character before was a carriage return, so that a line feed belongs to it.
abbrev line_step : Bool → ℕ → List Text → List Text
line_step after_cr c rest =
    if after_cr && c == 10 then rest else if is_break c then [] ∷ rest else push c rest

pub lines_after : Bool → Text → List Text
lines_after after_cr [] = []
lines_after after_cr (c ∷ cs) = line_step after_cr c (lines_after (c == 13) cs)

unfoldable pub split_lines : Text → List Text
unfolding lines_after is_break
split_lines = lines_after false

unfoldable pub join : Text → List Text → Text
join sep [] = []
join sep (l ∷ []) = l
join sep (l ∷ m ∷ ls) = l ++ (sep ++ join sep (m ∷ ls))

abbrev pub newline : Text
newline = 10 ∷ []

-- Lines, each with its line feed.
unfoldable pub unlines : List Text → Text
unlines [] = []
unlines (l ∷ ls) = l ++ 10 ∷ unlines ls

pub join-unlines : (l : Text) (ls : List Text) → join newline (l ∷ ls) ++ newline ≡ unlines (l ∷ ls)
unfolding join unlines
join-unlines l [] = refl
join-unlines l (m ∷ ls) =
    rw (append_assoc l (10 ∷ join newline (m ∷ ls)) newline)
      (ap (λ (t : Text). l ++ 10 ∷ t) (join-unlines m ls))

abbrev pub IsBreakFree : ℕ → Type 0
IsBreakFree c = is_break c ≡ false

-- No line boundary stands in the text.
abbrev pub IsLine : Text → Type 0
IsLine = All IsBreakFree

abbrev pub is_line : Text → Bool
is_line = all_of (λ c. not (is_break c))

pub is_line_sound : (t : Text) → is_line t ≡ true → IsLine t
is_line_sound [] h = tt
is_line_sound (c ∷ cs) h = (ground arith, is_line_sound cs (ground arith))

push-IsLine : (c : ℕ) (ls : List Text) → is_break c ≡ false → All IsLine ls → All IsLine (push c ls)
push-IsLine c [] h a = ((h, tt), tt)
push-IsLine c (l ∷ ls) h a = ((h, a.0), a.1)

lines_after-IsLine : (f : Bool) (t : Text) → All IsLine (lines_after f t)
unfolding lines_after
lines_after-IsLine f [] = tt
lines_after-IsLine f (c ∷ cs) =
    let ih = lines_after-IsLine (c == 13) cs in
    elim (Bool-cases (f && c == 10)) [
      | inl swallowed ↦ rw swallowed ih
      | inr other ↦ rw other (elim (Bool-cases (is_break c)) [
        | inl e ↦ rw e (tt, ih)
        | inr e ↦ rw e (push-IsLine c _ e ih)
      ])
    ]

pub split_lines-IsLine : (t : Text) → All IsLine (split_lines t)
unfolding split_lines
split_lines-IsLine t = lines_after-IsLine false t

lines_after-line :
    (f : Bool) (l rest : Text)
    → (l ≡ [] → f ≡ false)
    → IsLine l
    → lines_after f (l ++ 10 ∷ rest) ≡ l ∷ lines_after false rest
unfolding lines_after
lines_after-line f [] rest h a = rw (h refl, is_break_lf)
lines_after-line f (c ∷ l) rest h a = ground (
  arith,
  break_not_lf c,
  break_not_cr c,
  lines_after-line (c == 13) l rest (λ e. break_not_cr c a.0) a.1,
)

-- Splitting joined lines gives them back.
pub split_lines-unlines : (ls : List Text) → All IsLine ls → split_lines (unlines ls) ≡ ls
unfolding split_lines unlines
split_lines-unlines [] a = refl
split_lines-unlines (l ∷ ls) a =
    lines_after-line false l (unlines ls) (λ e. refl) a.0
    ∙ ap (λ (t : List Text). l ∷ t) (split_lines-unlines ls a.1)

-- `t.endswith(d)`
unfoldable pub ends_in : ℕ → Text → Bool
ends_in d [] = false
ends_in d (c ∷ []) = c == d
ends_in d (c ∷ e ∷ cs) = ends_in d (e ∷ cs)

pub ends_in-append :
    (t : Text) (c : ℕ) (r : Text) → ends_in 10 (c ∷ r) ≡ true → ends_in 10 (t ++ c ∷ r) ≡ true
unfolding ends_in
ends_in-append [] c r h = h
ends_in-append (b ∷ []) c r h = h
ends_in-append (b ∷ d ∷ t) c r h = ends_in-append (d ∷ t) c r h

lines_after-not_nil : (c : ℕ) (cs : Text) → is_nil (lines_after false (c ∷ cs)) ≡ false
unfolding lines_after
lines_after-not_nil c cs = elim (Bool-cases (is_break c)) [
  | inl e ↦ rw e
  | inr e ↦ rw e (push-not_nil c (lines_after (c == 13) cs))
]
  where
    push-not_nil : (b : ℕ) (ls : List Text) → is_nil (push b ls) ≡ false
    push-not_nil b [] = refl
    push-not_nil b (l ∷ ls) = refl

push-append : (c : ℕ) (ls ks : List Text) → is_nil ls ≡ false → push c (ls ++ ks) ≡ push c ls ++ ks
push-append c [] ks h = cc
push-append c (l ∷ ls) ks h = refl

line_step-append :
    (f : Bool) (c : ℕ) (ls ks : List Text)
    → (is_break c ≡ false → is_nil ls ≡ false)
    → line_step f c (ls ++ ks) ≡ line_step f c ls ++ ks
line_step-append f c ls ks h = elim (Bool-cases (f && c == 10)) [
  | inl e ↦ rw e
  | inr e ↦
      rw e
        (elim (Bool-cases (is_break c)) [ inl b ↦ rw b | inr b ↦ rw b (push-append c ls ks (h b)) ])
]

lines_after-append :
    (f : Bool) (t x : Text)
    → ends_in 10 t ≡ true
    → lines_after f (t ++ x) ≡ lines_after f t ++ lines_after false x
unfolding ends_in lines_after
lines_after-append f [] x h = cc
lines_after-append f (c ∷ []) x h =
    let feed = (==_iff c 10).0 h in
    rw feed (line_step-append f 10 [] (lines_after false x) (λ b. cc (b, is_break_lf)))
lines_after-append f (c ∷ d ∷ t) x h =
    ap (line_step f c) (lines_after-append (c == 13) (d ∷ t) x h)
    ∙ line_step-append f c (lines_after (c == 13) (d ∷ t)) (lines_after false x)
        (λ b. rw (break_not_cr c b) (lines_after-not_nil d t))

-- Text behind a line feed is split by itself.
pub split_lines-append :
    (t x : Text) → ends_in 10 t ≡ true → split_lines (t ++ x) ≡ split_lines t ++ split_lines x
unfolding split_lines
split_lines-append = lines_after-append false
