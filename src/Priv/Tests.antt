-- ===== src/Priv/Tests.antt =====
-- Runs and instances of the theorems on the helper and its client.
use mcp_postgres.Prelude.{ℕ, ◌≡◌, refl, ◌⊎◌, true, false, none, some, [], ◌∷◌}
use mcp_postgres.PyText.{Text, lit, text_eq}
use mcp_postgres.Confedit.{after_last_slash}
use mcp_postgres.Effect.{raised}
use mcp_postgres.Priv.{
  basename, dirname, is_allowed_name, resolve_allowed, cmd_read, cmd_write, main, read,
}
use mcp_postgres.Priv.Write.{Written, cmd_write-Written}
use mcp_postgres.Priv.Client
use mcp_postgres.Priv.Client.{
  Spawned, finished, Subprocess, Reflects, command_line, refusal, read-write-allowed,
}
use mcp_postgres.Priv.Toy.{Disk, update, disk, disk-IsFileSystem}

-- What the runs below compute with.
evaluate : Unit {0}
unfolding main cmd_read cmd_write resolve_allowed basename dirname is_allowed_name text_eq lit
    after_last_slash
evaluate = tt

abbrev conf : Text
conf = lit "/pg/postgresql.conf"

abbrev one_file : Disk
one_file = update (λ q. none) conf (some (lit "port = 1"))

written_run :
    (cmd_write disk conf (lit "now") (lit "port = 2") one_file).1 conf ≡ some (lit "port = 2")
unfolding evaluate
written_run = refl

backup_run :
    (cmd_write disk conf (lit "now") (lit "port = 2") one_file).1
      (lit "/pg/postgresql.conf.now.bak")
    ≡ some (lit "port = 1")
unfolding evaluate
backup_run = refl

read_run : (main disk (read (lit "/etc/shadow")) one_file).0 ≡ raised "basename not in allowlist"
unfolding evaluate
read_run = refl

cmd_write-Written_example :
    let (a, w') = cmd_write disk conf (lit "now") (lit "port = 2") one_file in
    Written disk-IsFileSystem conf (lit "now") (lit "port = 2") one_file a w'
cmd_write-Written_example =
    cmd_write-Written disk-IsFileSystem conf (lit "now") (lit "port = 2") one_file

-- A sudo that counts its processes; each of them passes.
abbrev sudo : Subprocess ℕ
sudo =
    λ args input n. (finished (record { returncode = 0; stdout = lit "port = 1"; stderr = [] }), n)

abbrev helper : Text
helper = lit "/privhelper"

abbrev exit_text : ℕ → Text
exit_text n = lit "exit"

read-write-allowed_example :
    ((is_allowed_name (basename conf) ≡ false)
      × (Client.read sudo helper exit_text conf 0
          ≡ (Client.priv_error (refusal sudo helper exit_text), 0))
      × (Client.write sudo helper exit_text conf [] 0
          ≡ (Client.priv_error (refusal sudo helper exit_text), 0)))
    ⊎ ((is_allowed_name (basename conf) ≡ true)
        × (let s = sudo (command_line sudo helper exit_text (lit "read" ∷ conf ∷ [])) none 0 in
            let (o, w') = Client.read sudo helper exit_text conf 0 in
            Reflects sudo helper exit_text (λ p. p.stdout) s.0 o × (w' ≡ s.1))
        × (let s =
              sudo (command_line sudo helper exit_text (lit "write" ∷ conf ∷ [])) (some []) 0 in
            let (o, w') = Client.write sudo helper exit_text conf [] 0 in
            Reflects sudo helper exit_text (λ p. tt) s.0 o × (w' ≡ s.1)))
read-write-allowed_example = read-write-allowed sudo helper exit_text conf [] 0
