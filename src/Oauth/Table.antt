-- ===== src/Oauth/Table.antt =====
-- A table of the sqlite file: rows under a primary key of text, and when each expires.
use mcp_postgres.Prelude.{
  All, ℕ, ◌+◌, ◌≤◌, ◌≡◌, refl, ap, ◌∙◌, Bool, true, false, Option, none, some, List, [], ◌∷◌, arith,
  String, str_eq, eq_iff, ltb, if◌then◌else◌, length, Bool-cases, inl, inr,
}

pub record Row {ℓ} (A : Type ℓ) : Type ℓ where
  pub value : A
  -- the column `expires_at`, NULL where there is none
  pub expires_at : Option ℕ

abbrev pub Table {ℓ} : Type ℓ → Type ℓ
Table A = List (String × Row A)

-- `expires_at IS NOT NULL AND expires_at < now`
abbrev pub is_expired {ℓ} : {A : Type ℓ} → ℕ → Row A → Bool
is_expired now r = elim r.expires_at [ none ↦ false | some t ↦ ltb t now ]

module _ {ℓ} {A : Type ℓ} where
  unfoldable pub find : String → Table A → Option (Row A)
  find k [] = none
  find k ((j, r) ∷ t) = if str_eq j k then some r else find k t

  -- `DELETE FROM t WHERE key = ?`
  unfoldable pub delete : String → Table A → Table A
  delete k [] = []
  delete k ((j, r) ∷ t) = let rest = delete k t in if str_eq j k then rest else (j, r) ∷ rest

  -- `INSERT OR REPLACE INTO t`
  unfoldable pub put : String → Row A → Table A → Table A
  unfolding delete
  put k r t = (k, r) ∷ delete k t

  -- `DELETE FROM t WHERE expires_at IS NOT NULL AND expires_at < ?`
  unfoldable pub delete_expired : ℕ → Table A → Table A
  delete_expired now [] = []
  delete_expired now ((j, r) ∷ t) =
      let rest = delete_expired now t in if is_expired now r then rest else (j, r) ∷ rest

  pub find-nil : (k : String) → find k [] ≡ none
  unfolding find
  find-nil k = refl

  pub delete-nil : (k : String) → delete k [] ≡ []
  unfolding delete
  delete-nil k = refl

  pub find-delete :
      (k j : String) (t : Table A) → find j (delete k t) ≡ (if str_eq k j then none else find j t)
  unfolding find delete
  find-delete k j [] = ground arith
  find-delete k j ((i, r) ∷ t) =
      ground (arith, find-delete k j t, eq_iff i k, eq_iff i j, eq_iff k j)

  pub find-put :
      (k j : String) (r : Row A) (t : Table A)
      → find j (put k r t) ≡ (if str_eq k j then some r else find j t)
  unfolding find put
  find-put k j r t = ground (arith, find-delete k j t)

  -- No two rows have one key, as the primary key demands.
  abbrev pub IsKeyed : Table A → Type ℓ
  IsKeyed [] = Unit
  IsKeyed ((j, r) ∷ t) = (find j t ≡ none) × IsKeyed t

  pub delete-IsKeyed : (k : String) (t : Table A) → IsKeyed t → IsKeyed (delete k t)
  unfolding delete
  delete-IsKeyed k [] h = tt
  delete-IsKeyed k ((j, r) ∷ t) h = ground (arith, delete-IsKeyed k t h.1, find-delete k j t)

  pub put-IsKeyed : (k : String) (r : Row A) (t : Table A) → IsKeyed t → IsKeyed (put k r t)
  unfolding put
  put-IsKeyed k r t h = (
    find-delete k k t ∙ ap (λ b. if b then none else find k t) ((eq_iff k k).1 refl),
    delete-IsKeyed k t h,
  )

  pub find-delete_expired-none :
      (now : ℕ) (k : String) (t : Table A) → find k t ≡ none → find k (delete_expired now t) ≡ none
  unfolding find delete_expired
  find-delete_expired-none now k [] h = refl
  find-delete_expired-none now k ((j, r) ∷ t) h = ground (arith, find-delete_expired-none now k t)

  pub delete_expired-IsKeyed : (now : ℕ) (t : Table A) → IsKeyed t → IsKeyed (delete_expired now t)
  unfolding delete_expired
  delete_expired-IsKeyed now [] h = tt
  delete_expired-IsKeyed now ((j, r) ∷ t) h =
      ground (arith, delete_expired-IsKeyed now t h.1, find-delete_expired-none now j t h.0)

  -- No row that has expired is left.
  pub All-delete_expired :
      (now : ℕ) (t : Table A) → All (λ r. is_expired now r.1 ≡ false) (delete_expired now t)
  unfolding delete_expired
  All-delete_expired now [] = tt
  All-delete_expired now ((j, r) ∷ t) = elim (Bool-cases (is_expired now r)) [
    | inl e ↦ rw e (All-delete_expired now t)
    | inr e ↦ rw e (e, All-delete_expired now t)
  ]

  -- What a reader at a given instant gets: the row, unless it has expired.
  unfoldable pub live : ℕ → Option (Row A) → Option A
  live now none = none
  live now (some r) = if is_expired now r then none else some r.value

  -- Deleting what has expired is not seen later.
  pub live-delete_expired :
      (now later : ℕ) (k : String) (t : Table A)
      → now ≤ later
      → IsKeyed t
      → live later (find k (delete_expired now t)) ≡ live later (find k t)
  unfolding find delete_expired live
  live-delete_expired now later k [] h u = refl
  live-delete_expired now later k ((j, r) ∷ t) h u = ground (
    arith,
    live-delete_expired now later k t h u.1,
    find-delete_expired-none now j t u.0,
    eq_iff j k,
  )

  pub length-delete_expired-le : (now : ℕ) (t : Table A) → length (delete_expired now t) ≤ length t
  unfolding delete_expired
  length-delete_expired-le now [] = omega arith
  length-delete_expired-le now ((j, r) ∷ t) = ground (arith, length-delete_expired-le now t)

  -- `cursor.rowcount` of the deletion
  unfoldable pub count_expired : ℕ → Table A → ℕ
  count_expired now [] = 0
  count_expired now ((j, r) ∷ t) =
      let rest = count_expired now t in if is_expired now r then rest + 1 else rest

  pub count-delete_expired :
      (now : ℕ) (t : Table A) → count_expired now t + length (delete_expired now t) ≡ length t
  unfolding delete_expired count_expired
  count-delete_expired now [] = refl
  count-delete_expired now ((j, r) ∷ t) = ground (arith, count-delete_expired now t)

  expired_later :
      (now later : ℕ) (r : Row A)
      → now ≤ later
      → is_expired now r ≡ true
      → is_expired later r ≡ true
  expired_later now later r h e = ground arith

  -- Nor is deleting one expired row.
  pub live-delete :
      (now later : ℕ) (k j : String) (t : Table A) (r : Row A)
      → now ≤ later
      → find k t ≡ some r
      → is_expired now r ≡ true
      → live later (find j (delete k t)) ≡ live later (find j t)
  unfolding live
  live-delete now later k j t r h f e = elim (Bool-cases (str_eq k j)) [
    | inl same ↦
        rw (find-delete k j t, same, ← ((eq_iff k j).0 same), f, expired_later now later r h e) refl
    | inr other ↦ rw (find-delete k j t, other) refl
  ]

  pub live-put :
      (later : ℕ) (k j : String) (r : Row A) (t : Table A)
      → live later (find j (put k r t))
        ≡ (if str_eq k j then live later (some r) else live later (find j t))
  live-put later k j r t = elim (Bool-cases (str_eq k j)) [
    | inl e ↦ rw (find-put k j r t, e) refl
    | inr e ↦ rw (find-put k j r t, e) refl
  ]

  -- A deleted key is found by no reader.
  pub live-find-delete :
      (later : ℕ) (k j : String) (t : Table A)
      → live later (find j (delete k t)) ≡ (if str_eq k j then none else live later (find j t))
  unfolding live
  live-find-delete later k j t = elim (Bool-cases (str_eq k j)) [
    | inl e ↦ rw (find-delete k j t, e) refl
    | inr e ↦ rw (find-delete k j t, e) refl
  ]
