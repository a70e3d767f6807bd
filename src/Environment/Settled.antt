-- ===== src/Environment/Settled.antt =====
-- environment.py: what a sequence of reports says of the host and the cluster.
use mcp_postgres.Prelude.{◌≡◌, refl, subst, ◌∙◌, String, Option, none, some, List, [], ◌∷◌, map}
use mcp_postgres.Effect.{Answer, returned, raised}
use mcp_postgres.Db
use mcp_postgres.Db.{Server}
use mcp_postgres.Tools.Rows.{Value}
use mcp_postgres.Environment.{
  OsInfo, OsRelease, release, os_error, broken, VersionInfo, Postgres, Environment, Process,
  Platform, version_by, keep_version, with_extensions, server_version, postgres, os_by, keep_os,
  fallback, host_os, probe, probes, version_stmt,
}

-- Answers that may fail until one is given, and are that one from then on.
abbrev pub Settled : {A : Type 0} → Option A → List (Answer A) → Type 0
Settled known [] = Unit
Settled none (raised e ∷ as') = Settled none as'
Settled none (returned a ∷ as') = Settled (some a) as'
Settled (some a) (b ∷ as') = (b ≡ returned a) × Settled (some a) as'

-- the version that a report gives
abbrev pub version_in : Answer Postgres → Answer VersionInfo
version_in (returned p) = returned p.version
version_in (raised e) = raised e

abbrev pub versions : List Environment → List (Answer VersionInfo)
versions = map (λ r. version_in r.postgresql)

abbrev pub systems : List Environment → List (Answer OsInfo)
systems = map (λ r. r.os)

-- What one answer does to a cache.
abbrev pub Step : {A : Type 0} → Option A → Answer A → Option A → Type 0
Step none (raised e) after = after ≡ none
Step none (returned a) after = after ≡ some a
Step (some a) b after = (b ≡ returned a) × (after ≡ some a)

Settled-cons :
    {A : Type 0} (known : Option A) (b : Answer A) (after : Option A) (as' : List (Answer A))
    → Step known b after
    → Settled after as'
    → Settled known (b ∷ as')
Settled-cons none (raised e) after as' h k = subst (λ o. Settled o as') h k
Settled-cons none (returned a) after as' h k = subst (λ o. Settled o as') h k
Settled-cons (some a) b after as' h k = (h.0, subst (λ o. Settled o as') h.1 k)

module _ {W : Type 0} where
  version_by-Step :
      (server : Server W Value) (known : Option VersionInfo) (p : Process W)
      → p.version_cache ≡ known
      → let (a, p') = version_by server known p in
        Step known a p'.version_cache × (p'.os_cache ≡ p.os_cache)
  version_by-Step server (some v) p h = ((refl, h), refl)
  version_by-Step server none p h = asked (Db.query_one server version_stmt [] p.world)
    where
      asked :
          (q : Answer (Option (List String × List Value)) × W)
          → let (a, p') = keep_version server p q in
            Step none a p'.version_cache × (p'.os_cache ≡ p.os_cache)
      asked (raised e, w) = (h, refl)
      asked (returned row, w) = (refl, refl)

  with_extensions-Step :
      (server : Server W Value) (known : Option VersionInfo) (q : Answer VersionInfo × Process W)
      → Step known q.0 q.1.version_cache
      → let (a, p') = with_extensions server q in
        Step known (version_in a) p'.version_cache × (p'.os_cache ≡ q.1.os_cache)
  with_extensions-Step server none (raised e, p) h = (h, refl)
  with_extensions-Step server (some v) (raised e, p) h = (h, refl)
  with_extensions-Step server none (returned v, p) h = (h, refl)
  with_extensions-Step server (some u) (returned v, p) h = (h, refl)

  postgres-Step :
      (server : Server W Value) (p : Process W)
      → let (a, p') = postgres server p in
        Step p.version_cache (version_in a) p'.version_cache × (p'.os_cache ≡ p.os_cache)
  unfolding server_version postgres
  postgres-Step server p =
      let v = version_by-Step server p.version_cache p refl in
      let x =
        with_extensions-Step server p.version_cache (version_by server p.version_cache p) v.0 in
      (x.0, x.1 ∙ v.1)

  keep_os-Step :
      (platform : Platform W) (info : OsInfo) (rel : OsRelease) (p : Process W)
      → p.os_cache ≡ none
      → let (a, p') = keep_os platform info rel p in
        Step none a p'.os_cache × (p'.version_cache ≡ p.version_cache)
  keep_os-Step platform info (release rel) p h = (refl, refl)
  keep_os-Step platform info os_error p h = (refl, refl)
  keep_os-Step platform info (broken e) p h = (h, refl)

  os_by-Step :
      (platform : Platform W) (known : Option OsInfo) (p : Process W)
      → p.os_cache ≡ known
      → let (a, p') = os_by platform known p in
        Step known a p'.os_cache × (p'.version_cache ≡ p.version_cache)
  os_by-Step platform (some info) p h = ((refl, h), refl)
  os_by-Step platform none p h =
      let (system, w1) = platform.system p.world in
      let (kernel, w2) = platform.release w1 in
      let (machine, w3) = platform.machine w2 in
      let (rel, w4) = platform.freedesktop_os_release w3 in
      keep_os-Step platform (fallback platform system kernel machine) rel (record p { world = w4 })
        h

  host_os-Step :
      (platform : Platform W) (p : Process W)
      → let (a, p') = host_os platform p in
        Step p.os_cache a p'.os_cache × (p'.version_cache ≡ p.version_cache)
  unfolding host_os
  host_os-Step platform p = os_by-Step platform p.os_cache p refl

  -- A report always comes, and its two parts fail on their own. Over any sequence of reports, for
  -- whatever databases: the version of the cluster is an error until it has been read, and from
  -- then on it is the version that was read first, although a query should fail later, that for
  -- the extensions included; and so it is with the system of the host. It starts from what the two
  -- caches hold.
  pub probes-Settled :
      (platform : Platform W) (servers : List (Server W Value)) (p : Process W)
      → Settled p.version_cache (versions (probes platform servers p))
        × Settled p.os_cache (systems (probes platform servers p))
  unfolding probe
  probes-Settled platform [] p = (tt, tt)
  probes-Settled platform (server ∷ servers) p =
      let o = host_os-Step platform p in
      let p1 = (host_os platform p).1 in
      let v = postgres-Step server p1 in
      let p2 = (postgres server p1).1 in
      let rest = probes-Settled platform servers p2 in
      (
        subst (λ k. Settled k (versions (probes platform (server ∷ servers) p))) o.1
            (Settled-cons p1.version_cache _ p2.version_cache _ v.0 rest.0),
        Settled-cons p.os_cache _ p1.os_cache _ o.0
            (subst (λ k. Settled k (systems (probes platform servers p2))) v.1 rest.1),
      )
