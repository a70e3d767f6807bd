-- ===== src/Priv/Write.antt =====
-- privhelper.py: `cmd_write` replaces an allowlisted file as a whole and keeps a backup, or leaves
-- every file that was there as it was.
use mcp_postgres.Prelude.{
  ℕ, ◌≡◌, ◌≢◌, refl, sym, ap, ◌∙◌, ◌⊎◌, inl, inr, true, Bool-cases, none, some, String, ◌++◌,
}
use mcp_postgres.PyText.{Text, lit}
use mcp_postgres.Effect.{Answer, returned, raised, Answer-cases}
use mcp_postgres.Priv.{
  Os, basename, dirname, is_absolute, is_allowed_name, resolve_allowed, fill, clean_up, backup_of,
  install, cmd_write,
}
use mcp_postgres.Priv.Fill.{longer, same_or_not, frame, Cleaned, fill-Filled, clean_up-Cleaned}
use mcp_postgres.Priv.Files.{Contents, Same, SameBut, IsFileSystem}

module _ {W : Type 0} {os : Os W} {contents : Contents W} (fs : IsFileSystem os contents) where
  -- Every file that was there, other than the backup, is as it was.
  abbrev pub Kept : Text → W → W → Type 0
  Kept backup w w' = (q : Text) → q ≢ backup → contents w q ≢ none → contents w' q ≡ contents w q

  abbrev pub Installed : Text → Text → Text → W → Answer (Unit {0}) → W → Type 0
  Installed real backup content w (returned u) w' =
      (contents w' real ≡ some content)
      × (contents w' backup ≡ contents w real)
      × ((q : Text) → q ≢ real → q ≢ backup → contents w' q ≡ contents w q)
  Installed real backup content w (raised e) w' = Kept backup w w'

  module _ (real backup content : Text) (w : W) (old : Text) (here : contents w real ≡ some old)
      (apart : real ≢ backup) where
    -- From the copied backup on, with a fresh temporary file.
    Cleaned-Installed :
        (tmp : Text) (w1 w2 : W) (a : Answer (Unit {0}) × W)
        → SameBut contents backup w w1
        → contents w1 backup ≡ some old
        → contents w1 tmp ≡ none
        → SameBut contents tmp w1 w2
        → Cleaned fs tmp real content w2 a.0 a.1
        → Installed real backup content w a.0 a.1
    Cleaned-Installed tmp w1 w2 (raised e, w3) copied saved fresh new h = λ q nb there.
        elim (same_or_not q tmp) [
          | inl e ↦ absurd (there (ap (contents w) e ∙ sym (copied tmp (λ t. nb (e ∙ t))) ∙ fresh))
          | inr n ↦ h.0 q n ∙ new q n ∙ copied q nb
        ]
    Cleaned-Installed tmp w1 w2 (returned u, w3) copied saved fresh new h = (
      h.0,
      h.2 backup (λ e. cc (saved, ap (contents w1) e, fresh)) (λ e. apart (sym e))
          ∙ new backup (λ e. cc (saved, ap (contents w1) e, fresh))
          ∙ saved
          ∙ sym here,
      λ q nr nb. elim (same_or_not q tmp) [
        | inl e ↦
            ap (contents w3) e
            ∙ h.1
            ∙ sym fresh
            ∙ copied tmp (λ t. nb (e ∙ t))
            ∙ ap (contents w) (sym e)
        | inr n ↦ h.2 q n nr ∙ new q n ∙ copied q nb
      ],
    )

  install-Installed :
      (real stamp content : Text) (owner : ℕ × ℕ) (w : W) (old : Text)
      → contents w real ≡ some old
      → let (a, w') = install os real stamp content owner w in
        Installed real (backup_of os real stamp) content w a w'
  install-Installed real stamp content owner w old here =
      let backup = backup_of os real stamp in
      let apart = longer real b'.' (stamp ++ lit ".bak") in
      elim (Answer-cases (os.copy2 real backup w)) [
        | inr (e, w1, q) ↦
            rw q (λ r nb there. frame fs backup q (fs.copy2_frame real backup w) r nb)
        | inl (u, w1, q) ↦
            let copied = frame fs backup q (fs.copy2_frame real backup w) in
            let saved = fs.copy2_copies real backup w w1 apart q ∙ here in
            rw q (elim (Answer-cases (os.mkstemp (dirname real) w1)) [
              | inr (e, w2, q2) ↦ rw q2 (λ r nb there.
                  ap (λ v. contents v.1 r) (sym q2)
                  ∙ fs.mkstemp_frame (dirname real) w1 r (λ g. there (sym (copied r nb) ∙ g))
                  ∙ copied r nb)
              | inl (tmp, w2, q2) ↦
                  let (fresh, new) = fs.mkstemp_fresh (dirname real) tmp w1 w2 q2 in
                  rw q2 (
                    Cleaned-Installed real backup content w old here apart tmp w1 w2
                      (clean_up os tmp (fill os tmp real content owner w2)) copied saved fresh new
                      (clean_up-Cleaned fs tmp real content w2 (fill os tmp real content owner w2) (
                        fill-Filled fs tmp real content owner w2
                          (λ e. cc (fresh, ap (contents w1) e, copied real apart, here)))))
            ])
      ]

  resolve_allowed-cases :
      (path : Text) (w : W)
      → ((e : String) × (resolve_allowed os path true w ≡ (raised e, w)))
        ⊎ ((is_absolute path ≡ true)
            × (is_allowed_name (basename (os.realpath path w)) ≡ true)
            × (os.isfile (os.realpath path w) w ≡ true)
            × (resolve_allowed os path true w ≡ (returned (os.realpath path w), w)))
  unfolding resolve_allowed
  resolve_allowed-cases path w =
      let real = os.realpath path w in
      elim (Bool-cases (is_absolute path)) [
        | inr a ↦ inl ("expected an absolute path", rw a refl)
        | inl a ↦ elim (Bool-cases (is_allowed_name (basename real))) [
          | inr b ↦ inl ("basename not in allowlist", rw (a, b) refl)
          | inl b ↦ elim (Bool-cases (os.exists real w)) [
            | inr c ↦ inl ("file does not exist", rw (a, b, c) refl)
            | inl c ↦ elim (Bool-cases (os.isfile real w)) [
              | inr d ↦ inl ("not a regular file", rw (a, b, c, d) refl)
              | inl d ↦ inr (a, b, d, rw (a, b, c, d) refl)
            ]
          ]
        ]
      ]

  -- The write by its path: what it needs to succeed, and what it leaves.
  abbrev pub Written : Text → Text → Text → W → Answer (Unit {0}) → W → Type 0
  Written path stamp content w (returned u) w' =
      let real = os.realpath path w in
      let backup = backup_of os real stamp in
      (is_absolute path ≡ true)
      × (is_allowed_name (basename real) ≡ true)
      × (contents w real ≢ none)
      × (contents w' real ≡ some content)
      × (contents w' backup ≡ contents w real)
      × ((q : Text) → q ≢ real → q ≢ backup → contents w' q ≡ contents w q)
  Written path stamp content w (raised e) w' = Kept (backup_of os (os.realpath path w) stamp) w w'

  -- `write` is all or nothing. If it succeeds, the path is absolute and leads to an existing file
  -- with an allowed name, which now has the content; its backup has what it had before, and no
  -- other file has changed. If it does not, whatever failed, every file that was there is as it
  -- was, but for a file with the name of the backup.
  pub cmd_write-Written :
      (path stamp content : Text) (w : W)
      → let (a, w') = cmd_write os path stamp content w in Written path stamp content w a w'
  unfolding cmd_write
  cmd_write-Written path stamp content w = elim (resolve_allowed-cases path w) [
    | inl (e, q) ↦ rw q (λ r nb there. refl)
    | inr (a, b, d, q) ↦
        let real = os.realpath path w in
        let (old, here) = fs.isfile_some real w d in
        rw q (elim (Answer-cases (os.stat real w)) [
          | inr (e, w1, q2) ↦
              rw q2 (λ r nb there. ap (λ v. contents v.1 r) (sym q2) ∙ fs.stat_same real w r)
          | inl (owner, w1, q2) ↦
              let same = λ (r : Text). ap (λ v. contents v.1 r) (sym q2) ∙ fs.stat_same real w r in
              rw q2 (
                by_answer path a b old here w1 same (install os real stamp content owner w1)
                  (install-Installed real stamp content owner w1 old (same real ∙ here)))
        ])
  ]
    where
      by_answer :
          (path : Text)
          → is_absolute path ≡ true
          → is_allowed_name (basename (os.realpath path w)) ≡ true
          → (old : Text) → contents w (os.realpath path w) ≡ some old
          → (w1 : W) → Same contents w w1
          → (c : Answer (Unit {0}) × W)
          → Installed
              (os.realpath path w)
              (backup_of os (os.realpath path w) stamp)
              content
              w1
              c.0
              c.1
          → Written path stamp content w c.0 c.1
      by_answer path a b old here w1 same (raised e, w') h =
          λ r nb there. h r nb (λ g. there (sym (same r) ∙ g)) ∙ same r
      by_answer path a b old here w1 same (returned u, w') h = (
        a,
        b,
        λ g. cc (g, here),
        h.0,
        h.1 ∙ same (os.realpath path w),
        λ q nr nb. h.2 q nr nb ∙ same q,
      )
