-- ===== src/Confedit/Shadow.antt =====
-- `_basename` and `is_shadowed_source`.
use mcp_postgres.Prelude.{
  ℕ, ◌≡◌, refl, sym, ap, ◌∙◌, false, not, none, some, [], ◌∷◌, ◌++◌, ◌==◌, map, if◌then◌else◌,
  is_nil, All, append_assoc, append-nil,
}
use mathlib.Core.List.{map-append}
use mcp_postgres.PyText.{Text, text_eq}
use mcp_postgres.Confedit.{
  basename, rstrip_slashes, after_last_slash, forward_slash, drop_slash, is_shadowed_source,
}

-- A file name: not empty, and free of both separators.
abbrev pub IsFileName : Text → Type 0
IsFileName t = All (λ c. ((c == b'/') ≡ false) × ((c == b'\\') ≡ false)) t × (is_nil t ≡ false)

abbrev IsPart : Text → Type 0
IsPart = All (λ c. ((c == b'/') ≡ false) × ((c == b'\\') ≡ false))

forward-IsPart : (t : Text) → IsPart t → map forward_slash t ≡ t
forward-IsPart [] h = refl
forward-IsPart (c ∷ t) h = rw h.0.1 (ap (λ (r : Text). c ∷ r) (forward-IsPart t h.1))

rstrip-IsPart : (t : Text) → IsPart t → rstrip_slashes t ≡ t
unfolding rstrip_slashes
rstrip-IsPart [] h = refl
rstrip-IsPart (c ∷ []) h = rw h.0.0
rstrip-IsPart (c ∷ d ∷ t) h = rw (rstrip-IsPart (d ∷ t) h.1)

drop_slash-not_nil : (c : ℕ) (t : Text) → is_nil t ≡ false → drop_slash c t ≡ c ∷ t
drop_slash-not_nil c [] h = cc
drop_slash-not_nil c (d ∷ t) h = refl

append-not_nil : (d t : Text) → is_nil t ≡ false → is_nil (d ++ t) ≡ false
append-not_nil [] t h = h
append-not_nil (c ∷ d) t h = refl

rstrip-append :
    (d t : Text) → is_nil t ≡ false → rstrip_slashes t ≡ t → rstrip_slashes (d ++ t) ≡ d ++ t
unfolding rstrip_slashes
rstrip-append [] t n h = h
rstrip-append (c ∷ d) t n h =
    ap (drop_slash c) (rstrip-append d t n h) ∙ drop_slash-not_nil c (d ++ t) (append-not_nil d t n)

after_last-IsPart : (seen t : Text) → IsPart t → after_last_slash seen t ≡ seen ++ t
unfolding after_last_slash
after_last-IsPart seen [] h = sym (append-nil seen)
after_last-IsPart seen (c ∷ t) h =
    rw h.0.0 (after_last-IsPart (seen ++ c ∷ []) t h.1 ∙ append_assoc seen (c ∷ []) t)

after_last-append :
    (seen d t : Text) → after_last_slash seen (d ++ b'/' ∷ t) ≡ after_last_slash [] t
unfolding after_last_slash
after_last-append seen [] t = refl
after_last-append seen (c ∷ d) t = after_last-append (if c == b'/' then [] else seen ++ c ∷ []) d t

slash_file :
    (file : Text)
    → is_nil file ≡ false
    → rstrip_slashes file ≡ file
    → rstrip_slashes (b'/' ∷ file) ≡ b'/' ∷ file
unfolding rstrip_slashes
slash_file file n h = ap (drop_slash b'/') h ∙ drop_slash-not_nil b'/' file n

-- The base name of a path is what stands behind its last slash.
pub basename_lem : (dir file : Text) → IsFileName file → basename (dir ++ b'/' ∷ file) ≡ file
unfolding basename
basename_lem dir file h =
    let path = map forward_slash dir in
    ap (λ (t : Text). after_last_slash [] (rstrip_slashes t))
      (map-append forward_slash dir (b'/' ∷ file)
        ∙ ap (λ (t : Text). path ++ b'/' ∷ t) (forward-IsPart file h.0))
    ∙ ap (after_last_slash [])
        (rstrip-append path (b'/' ∷ file) refl (slash_file file h.1 (rstrip-IsPart file h.0)))
    ∙ after_last-append [] path file
    ∙ after_last-IsPart [] file h.0

basename_bare : (file : Text) → IsFileName file → basename file ≡ file
unfolding basename
basename_bare file h =
    ap (λ (t : Text). after_last_slash [] (rstrip_slashes t)) (forward-IsPart file h.0)
    ∙ ap (after_last_slash []) (rstrip-IsPart file h.0)
    ∙ after_last-IsPart [] file h.0

-- A file under another name shadows the edit; the same file, in whatever directory, and a setting
-- with no source file do not.
pub is_shadowed_source_iff :
    (dir dir' edited source : Text)
    → IsFileName edited
    → IsFileName source
    → (is_shadowed_source (dir ++ b'/' ∷ edited) (some (dir' ++ b'/' ∷ source))
        ≡ not (text_eq source edited))
      × (is_shadowed_source (dir ++ b'/' ∷ edited) (some source) ≡ not (text_eq source edited))
      × (is_shadowed_source (dir ++ b'/' ∷ edited) none ≡ false)
unfolding is_shadowed_source
is_shadowed_source_iff dir dir' edited source he hs = (
  rw (
    append-not_nil dir' (b'/' ∷ source) refl,
    basename_lem dir' source hs,
    basename_lem dir edited he,
  ),
  rw (hs.1, basename_bare source hs, basename_lem dir edited he),
  refl,
)
