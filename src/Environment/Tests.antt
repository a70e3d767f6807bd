-- ===== src/Environment/Tests.antt =====
-- environment.py: runs and an instance of its theorem, on a host without an os-release file, for a
-- database that can be reached and one that cannot.
use mcp_postgres.Prelude.{◌≡◌, refl, Option, none, some, List, [], ◌∷◌, map}
use mcp_postgres.PyText.{lit, is_space}
use mcp_postgres.PyText.Strip.{strip, lstrip, rstrip}
use mcp_postgres.Effect.{Answer, returned, raised}
use mcp_postgres.Db
use mcp_postgres.Db.{Server}
use mcp_postgres.Tools.Base.{ℤ, pos}
use mcp_postgres.Tools.Rows.{Value, int, get, put}
use mcp_postgres.Tools.ConfigFiles.{zip_dict}
use mcp_postgres.Environment.{
  os_error, Platform, Process, server_version, version_of, postgres, host_os, probe, probes,
  VersionInfo, libraries, split_on,
}
use mcp_postgres.Environment.Settled.{Settled, versions, systems, probes-Settled}

abbrev platform : Platform (Unit {0})
platform = record {
  system = λ w. ("Linux", w);
  release = λ w. ("6.1", w);
  machine = λ w. ("", w);
  freedesktop_os_release = λ w. (os_error, w);
}

abbrev closed : Server (Unit {0}) Value
closed = record {
  checkout = λ w. (raised "closed", w);
  putback = λ failed w. w;
  exec = λ stmt params w. (raised "closed", w);
}

abbrev answering : Server (Unit {0}) Value
answering = record {
  checkout = λ w. (returned tt, w);
  putback = λ failed w. w;
  exec = λ stmt params w. (
    returned (record {
      rowcount = none;
      status = "SELECT";
      description = some ("version_num" ∷ []);
      rows = (int (pos 160002) ∷ []) ∷ [];
    }),
    w,
  );
}

abbrev fresh : Process (Unit {0})
fresh = record { os_cache = none; version_cache = none; world = tt }

-- What the runs below compute with.
evaluate : Unit {0}
unfolding Db.select Db.query_one zip_dict put get version_of server_version postgres host_os probe
    libraries split_on strip lstrip rstrip lit is_space
evaluate = tt

probes-Settled_example :
    Settled none (versions (probes platform (closed ∷ answering ∷ closed ∷ []) fresh))
    × Settled none (systems (probes platform (closed ∷ answering ∷ closed ∷ []) fresh))
probes-Settled_example = probes-Settled platform (closed ∷ answering ∷ closed ∷ []) fresh

abbrev majors : Answer VersionInfo → List (Option (Option ℤ))
majors (returned v) = some v.major ∷ []
majors (raised e) = none ∷ []

versions_run :
    map majors (versions (probes platform (closed ∷ answering ∷ closed ∷ []) fresh))
    ≡ (none ∷ []) ∷ (some (some (pos 16)) ∷ []) ∷ (some (some (pos 16)) ∷ []) ∷ []
unfolding evaluate
versions_run = refl

libraries_run : libraries (lit "pg_stat, auto ,,") ≡ lit "pg_stat" ∷ lit "auto" ∷ []
unfolding evaluate
libraries_run = refl
