-- ===== src/Priv.antt =====
-- privhelper.py: the one command that the service runs as root, over the operating system.
--
-- The operating system is a parameter. An exception and an exit by `die` are both `raised`, with
-- the message less the quoted path.
pub mod Client
pub mod Fill
pub mod Write
pub mod Files
mod Toy
mod Tests
use mcp_postgres.Prelude.{
  ℕ, ◌≡◌, Bool, true, false, not, ◌&&◌, ◌||◌, Option, none, some, String, List, [], ◌∷◌, ◌++◌, ◌==◌,
  if◌then◌else◌, is_nil,
}
use mcp_postgres.PyText.{Text, lit, text_eq}
use mcp_postgres.PyText.Strip.{strip}
use mcp_postgres.Confedit.{after_last_slash}
use mcp_postgres.Effect.{Answer, returned, raised, Call, chain, ◌>>=◌, ◌>>◌, ret, raise, attempt}

-- `os.path.basename`, `os.path.isabs` and `os.path.dirname` on a POSIX host
unfoldable pub basename : Text → Text
unfolding after_last_slash
basename path = after_last_slash [] path

abbrev pub is_absolute : Text → Bool
is_absolute [] = false
is_absolute (c ∷ cs) = c == b'/'

-- what stands before the name, and the same without trailing slashes unless it is all slashes
abbrev keep_slash : ℕ → Option Text → Option Text
keep_slash c none = if c == b'/' then some (c ∷ []) else none
keep_slash c (some head) = some (c ∷ head)

unfoldable pub through_last_slash : Text → Option Text
through_last_slash [] = none
through_last_slash (c ∷ cs) = keep_slash c (through_last_slash cs)

abbrev drop_end_slash : ℕ → Text → Text
drop_end_slash c [] = if c == b'/' then [] else c ∷ []
drop_end_slash c (d ∷ rest) = c ∷ d ∷ rest

unfoldable pub rstrip_slash : Text → Text
rstrip_slash [] = []
rstrip_slash (c ∷ cs) = drop_end_slash c (rstrip_slash cs)

abbrev dirname_of : Option Text → Text
dirname_of none = []
dirname_of (some head) =
    let stripped = rstrip_slash head in if is_nil stripped then head else stripped

unfoldable pub dirname : Text → Text
unfolding through_last_slash rstrip_slash
dirname path = dirname_of (through_last_slash path)

-- `ALLOWED_BASENAMES`, in both privhelper.py and privclient.py
unfoldable pub is_allowed_name : Text → Bool
unfolding text_eq lit
is_allowed_name name = text_eq name (lit "postgresql.conf") || text_eq name (lit "pg_hba.conf")

-- how `os.chown` ends: a PermissionError is told from other exceptions
pub data Chown : Type 0 where
  chowned not_permitted : Chown
  chown_failed : String → Chown

-- the exit code and the standard error of `systemctl`
pub record Finished : Type 0 where
  pub returncode : ℕ
  pub stdout : Text
  pub stderr : Text

pub record Os (W : Type 0) : Type 0 where
  pub realpath : Text → W → Text
  pub exists : Text → W → Bool
  pub isfile : Text → W → Bool
  pub read_file : Text → Call W Text
  pub stat : Text → Call W (ℕ × ℕ)
  pub copy2 : Text → Text → Call W (Unit {0})
  pub mkstemp : Text → Call W Text
  pub write_file : Text → Text → Call W (Unit {0})
  pub copystat : Text → Text → Call W (Unit {0})
  pub chown : Text → ℕ × ℕ → W → Chown × W
  pub replace : Text → Text → Call W (Unit {0})
  pub unlink : Text → Call W (Unit {0})
  pub reload_unit : Call W Finished

-- A command of the helper, as its arguments are parsed; `usage` stands for none.
pub data Command : Type 0 where
  check reload usage : Command
  read : Text → Command
  write : (path stamp content : Text) → Command

-- what the helper prints to its standard output, or nothing
abbrev pub Output : Type 0
Output = Text

module _ {W : Type 0} (os : Os W) where
  unfoldable pub resolve_allowed : Text → Bool → Call W Text
  resolve_allowed path must_exist w =
      let real = os.realpath path w in
      if not (is_absolute path)
      then (raised "expected an absolute path", w)
      else if not (is_allowed_name (basename real))
      then (raised "basename not in allowlist", w)
      else if must_exist && not (os.exists real w)
      then (raised "file does not exist", w)
      else if must_exist && not (os.isfile real w)
      then (raised "not a regular file", w)
      else (returned real, w)

  unfoldable pub cmd_read : Text → Call W Output
  cmd_read path = do real ← resolve_allowed path true; os.read_file real

  -- `try: os.chown(…) except PermissionError: pass`
  abbrev pub settle_chown : Chown × W → Answer (Unit {0}) × W
  settle_chown (chowned, w) = (returned tt, w)
  settle_chown (not_permitted, w) = (returned tt, w)
  settle_chown (chown_failed e, w) = (raised e, w)

  abbrev pub chown_quietly : Text → ℕ × ℕ → Call W (Unit {0})
  chown_quietly tmp owner w = settle_chown (os.chown tmp owner w)

  -- the body of the `try` block
  abbrev pub fill : Text → Text → Text → ℕ × ℕ → Call W (Unit {0})
  fill tmp real content owner = do
    os.write_file tmp content
    os.copystat real tmp
    chown_quietly tmp owner
    os.replace tmp real

  -- `except Exception: if os.path.exists(tmp): os.unlink(tmp)`, and `raise`
  abbrev pub clean_up : Text → Answer (Unit {0}) × W → Answer (Unit {0}) × W
  clean_up tmp (returned u, w) = (returned u, w)
  clean_up tmp (raised e, w) =
      if os.exists tmp w then chain (λ _. raise e) (os.unlink tmp w) else (raised e, w)

  -- The name of the backup, by the time stamp.
  abbrev pub backup_of : Text → Text → Text
  backup_of real stamp = real ++ (b'.' ∷ stamp ++ lit ".bak")

  abbrev pub install : Text → Text → Text → ℕ × ℕ → Call W (Unit {0})
  install real stamp content owner = do
    os.copy2 real (backup_of real stamp)
    tmp ← os.mkstemp (dirname real)
    λ w. clean_up tmp (fill tmp real content owner w)

  unfoldable pub cmd_write : Text → Text → Text → Call W (Unit {0})
  cmd_write path stamp content = do
    real ← resolve_allowed path true
    owner ← os.stat real
    install real stamp content owner

  abbrev pub report_reload : Finished → Call W (Unit {0})
  report_reload proc = if proc.returncode == 0 then ret tt else raise "reload failed"

  unfoldable pub cmd_reload : Call W (Unit {0})
  cmd_reload = do proc ← os.reload_unit; report_reload proc

  abbrev silent : Call W (Unit {0}) → Call W Output
  silent m = do m; ret []

  unfoldable pub main : Command → Call W Output
  main check = ret []
  main (read path) = cmd_read path
  main (write path stamp content) = silent (cmd_write path stamp content)
  main reload = silent cmd_reload
  main usage = raise "usage"
