-- ===== src/Priv/Fill.antt =====
-- privhelper.py: the `try` block of `cmd_write`, which fills a temporary file and renames it, and its
-- handler.
use mcp_postgres.Prelude.{
  ℕ, ◌≡◌, ◌≢◌, refl, sym, ap, ◌∙◌, ◌⊎◌, inl, inr, Bool-cases, none, some, ◌∷◌, ◌++◌, arith, length,
  length-append,
}
use mcp_postgres.PyText.{Text, text_eq, text_eq_iff}
use mcp_postgres.Effect.{Answer, returned, raised, Answer-cases}
use mcp_postgres.Priv.{
  Os, Chown, chowned, not_permitted, chown_failed, fill, clean_up, settle_chown, chown_quietly,
}
use mcp_postgres.Priv.Files.{Contents, Same, SameBut, IsFileSystem}

pub longer : (xs : Text) (c : ℕ) (ys : Text) → xs ≢ xs ++ c ∷ ys
longer xs c ys h = absurd (omega (arith, ap length h, length-append xs (c ∷ ys)))

pub same_or_not : (p q : Text) → (p ≡ q) ⊎ (p ≢ q)
same_or_not p q = elim (Bool-cases (text_eq p q)) [
  | inl e ↦ inl ((text_eq_iff p q).0 e)
  | inr e ↦ inr (λ h. cc (e, (text_eq_iff p q).1 h))
]

module _ {W : Type 0} {os : Os W} {contents : Contents W} (fs : IsFileSystem os contents) where
  -- What a call left alone is the same in the world that it is known to have left.
  pub frame :
      {A : Type 0} {p : Answer A × W} {a : Answer A} {w w1 : W} (tmp : Text)
      → p ≡ (a, w1)
      → SameBut contents tmp w p.1
      → SameBut contents tmp w w1
  frame tmp q h r n = ap (λ v. contents v.1 r) (sym q) ∙ h r n

  keeping :
      {A : Type 0} {p : Answer A × W} {a : Answer A} {w w1 w2 : W} (tmp : Text)
      → SameBut contents tmp w w1
      → p ≡ (a, w2)
      → Same contents w1 p.1
      → SameBut contents tmp w w2
  keeping tmp h q s r n = ap (λ v. contents v.1 r) (sym q) ∙ s r ∙ h r n

  chown-Same :
      (tmp : Text) (owner : ℕ × ℕ) (w : W) → Same contents w (chown_quietly os tmp owner w).1
  chown-Same tmp owner w r =
      ap (λ v. contents v r) (settled (os.chown tmp owner w)) ∙ fs.chown_same tmp owner w r
    where
      settled : (c : Chown × W) → (settle_chown os c).1 ≡ c.1
      settled (chowned, w') = refl
      settled (not_permitted, w') = refl
      settled (chown_failed e, w') = refl

  -- The target holds the content and the temporary file is gone.
  abbrev pub Moved : Text → Text → Text → W → W → Type 0
  Moved tmp real content w w' =
      (contents w' real ≡ some content)
      × (contents w' tmp ≡ none)
      × ((r : Text) → r ≢ tmp → r ≢ real → contents w' r ≡ contents w r)

  abbrev pub Filled : Text → Text → Text → W → Answer (Unit {0}) → W → Type 0
  Filled tmp real content w (returned u) w' = Moved tmp real content w w'
  Filled tmp real content w (raised e) w' = SameBut contents tmp w w'

  replace-Filled :
      (tmp real content : Text) (w w1 : W)
      → tmp ≢ real
      → SameBut contents tmp w w1
      → contents w1 tmp ≡ some content
      → let (a, w') = os.replace tmp real w1 in Filled tmp real content w a w'
  replace-Filled tmp real content w w1 differ h filled =
      elim (Answer-cases (os.replace tmp real w1)) [
        | inr (e, w2, q) ↦ rw q (λ r n. fs.replace_fails tmp real w1 w2 e q r ∙ h r n)
        | inl (u, w2, q) ↦
            let (target, gone, rest) = fs.replace_moves tmp real w1 w2 differ q in
            rw q (target ∙ filled, gone, λ r n m. rest r n m ∙ h r n)
      ]

  pub fill-Filled :
      (tmp real content : Text) (owner : ℕ × ℕ) (w : W)
      → tmp ≢ real
      → let (a, w') = fill os tmp real content owner w in Filled tmp real content w a w'
  fill-Filled tmp real content owner w differ = elim (Answer-cases (os.write_file tmp content w)) [
    | inr (e, w1, q) ↦ rw q (frame tmp q (fs.write_frame tmp content w))
    | inl (u, w1, q) ↦
        let h1 = frame tmp q (fs.write_frame tmp content w) in
        rw q (elim (Answer-cases (os.copystat real tmp w1)) [
          | inr (e, w2, q2) ↦ rw q2 (keeping tmp h1 q2 (fs.copystat_same real tmp w1))
          | inl (u2, w2, q2) ↦
              let h2 = keeping tmp h1 q2 (fs.copystat_same real tmp w1) in
              rw q2 (elim (Answer-cases (chown_quietly os tmp owner w2)) [
                | inr (e, w3, q3) ↦ rw q3 (keeping tmp h2 q3 (chown-Same tmp owner w2))
                | inl (u3, w3, q3) ↦ rw q3 (
                    replace-Filled tmp real content w w3 differ
                      (keeping tmp h2 q3 (chown-Same tmp owner w2))
                      (ap (λ v. contents v.1 tmp) (sym q3)
                        ∙ chown-Same tmp owner w2 tmp
                        ∙ ap (λ v. contents v.1 tmp) (sym q2)
                        ∙ fs.copystat_same real tmp w1 tmp
                        ∙ fs.write_writes tmp content w w1 q))
              ])
        ])
  ]

  -- A failed write leaves no temporary file, unless its removal failed too.
  abbrev pub Cleaned : Text → Text → Text → W → Answer (Unit {0}) → W → Type 0
  Cleaned tmp real content w (returned u) w' = Moved tmp real content w w'
  Cleaned tmp real content w (raised e) w' =
      SameBut contents tmp w w'
      × ((contents w' tmp ≡ none) ⊎ ((w1 : W) × ((os.unlink tmp w1).0 ≡ raised e)))

  pub clean_up-Cleaned :
      (tmp real content : Text) (w : W) (a : Answer (Unit {0}) × W)
      → Filled tmp real content w a.0 a.1
      → let (b, w') = clean_up os tmp a in Cleaned tmp real content w b w'
  clean_up-Cleaned tmp real content w (returned u, w1) h = h
  clean_up-Cleaned tmp real content w (raised e, w1) h = elim (Bool-cases (os.exists tmp w1)) [
    | inr gone ↦ rw gone (h, inl (fs.exists_none tmp w1 gone))
    | inl there ↦ rw there (elim (Answer-cases (os.unlink tmp w1)) [
      | inr (x, w2, q) ↦
          rw q
            ((λ r n. frame tmp q (fs.unlink_frame tmp w1) r n ∙ h r n), inr (w1, ap (λ v. v.0) q))
      | inl (u, w2, q) ↦ rw q (
        (λ r n. frame tmp q (fs.unlink_frame tmp w1) r n ∙ h r n),
        inl (fs.unlink_removes tmp w1 w2 q),
      )
    ])
  ]
