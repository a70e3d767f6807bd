-- ===== src/Oauth/Provider/Pending.antt =====
-- The way from `/authorize` over the login page to a code.
use mcp_postgres.Prelude.{
  ℕ, ◌+◌, ◌≡◌, refl, inl, inr, false, none, some, List, [], ◌∷◌, String, eq_iff, ltb, arith,
  if◌then◌else◌, Bool-cases,
}
use mcp_postgres.Oauth.Model.{Client, AuthorizationParams}
use mcp_postgres.Oauth.Provider.{
  Provider, Parked, authorize, pending_client, find_parked, drop_parked, fresh_parked, is_stale,
  pending_ttl,
}

pub find_parked-drop :
    (k : String) (ps : List (String × Parked)) → find_parked k (drop_parked k ps) ≡ none
unfolding find_parked drop_parked
find_parked-drop k [] = refl
find_parked-drop k ((j, p) ∷ ps) = ground (arith, find_parked-drop k ps)

pub find_parked-fresh_none :
    (now : ℕ) (k : String) (ps : List (String × Parked))
    → find_parked k ps ≡ none
    → find_parked k (fresh_parked now ps) ≡ none
unfolding find_parked fresh_parked
find_parked-fresh_none now k [] h = refl
find_parked-fresh_none now k ((j, p) ∷ ps) h = ground (arith, find_parked-fresh_none now k ps)

-- The request that was parked last is found, and no other under its id, until it is stale.
pub find_parked-head :
    (now : ℕ) (k : String) (p : Parked) (ps : List (String × Parked))
    → find_parked k ps ≡ none
    → find_parked k (fresh_parked now ((k, p) ∷ ps)) ≡ (if is_stale now p then none else some p)
unfolding find_parked fresh_parked
find_parked-head now k p ps h = ground (arith, find_parked-fresh_none now k ps h, eq_iff k k)

pub fresh_parked-fresh :
    (now : ℕ) (k : String) (p : Parked) (ps : List (String × Parked))
    → is_stale now p ≡ false
    → fresh_parked now ((k, p) ∷ ps) ≡ (k, p) ∷ fresh_parked now ps
unfolding fresh_parked
fresh_parked-fresh now k p ps h = rw h

module _ (pruned created : ℕ) (rid : String) (client : Client) (params : AuthorizationParams)
    (p : Provider) where
  abbrev pub parked : Parked
  parked = record { client = client; params = params; created_at = created }

  abbrev pub rest : List (String × Parked)
  rest = drop_parked rid (fresh_parked pruned p.pending)

  -- A login page opens for a parked request, for 600 seconds from when it was parked.
  pub pending_client-authorize :
      (now : ℕ)
      → let (rid', q) = authorize pruned created rid client params p in
        (rid' ≡ rid)
        × ((pending_client now rid q).0
            ≡ (if ltb (created + pending_ttl) now then none else some client))
  unfolding authorize pending_client
  pending_client-authorize now = elim (Bool-cases (ltb (created + pending_ttl) now)) [
    | inl e ↦ (
      refl,
      rw
          (
            find_parked-head now rid parked rest
                (find_parked-drop rid (fresh_parked pruned p.pending)),
            e,
          )
          refl,
    )
    | inr e ↦ (
      refl,
      rw
          (
            find_parked-head now rid parked rest
                (find_parked-drop rid (fresh_parked pruned p.pending)),
            e,
          )
          refl,
    )
  ]
