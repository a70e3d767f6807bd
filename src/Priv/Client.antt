-- ===== src/Priv/Client.antt =====
-- privclient.py: how the service calls the helper through sudo.
use mcp_postgres.Prelude.{
  ℕ, ◌≡◌, refl, ap, sym, ◌⊎◌, inl, inr, Bool, true, false, not, ◌&&◌, ◌||◌, Bool-cases, Option,
  none, some, String, List, [], ◌∷◌, ◌++◌, ◌==◌, if◌then◌else◌, is_nil,
}
use mcp_postgres.PyText.{Text, lit}
use mcp_postgres.PyText.Strip.{strip}
use mcp_postgres.Effect.{Answer, returned, raised}
use mcp_postgres.Priv.{basename, is_allowed_name, Finished}

-- How `subprocess.run` ends; its outputs are decoded. A FileNotFoundError is told from the other
-- exceptions, of which a timeout after 30 seconds is one. Python gives a process that a signal ended
-- a negative return code; here that is a number other than 0 of its own, and its text is `exit_text`.
pub data Spawned : Type 0 where
  finished : Finished → Spawned
  not_found : Text → Spawned
  broke : String → Spawned

-- the command line, and what is fed to its standard input
abbrev pub Subprocess : Type 0 → Type 0
Subprocess W = List Text → Option Text → W → Spawned × W

-- what a method gives: a value, a PrivError with its message, or another exception
pub data Outcome (A : Type 0) : Type 0 where
  value : A → Outcome A
  priv_error : Text → Outcome A
  crashed : String → Outcome A

abbrev pub after : {W A B : Type 0} → (A → B) → Outcome A × W → Outcome B × W
after f (value a, w) = (value (f a), w)
after f (priv_error e, w) = (priv_error e, w)
after f (crashed e, w) = (crashed e, w)

module _ {W : Type 0} (run : Subprocess W) (helper : Text) (exit_text : ℕ → Text) where
  -- `proc.stderr.decode(…).strip() or f"exit {proc.returncode}"`
  abbrev pub message : Finished → Text
  message proc =
      let stripped = strip proc.stderr in
      if is_nil stripped then exit_text proc.returncode else stripped

  abbrev pub judge : Bool → Spawned × W → Outcome Finished × W
  judge must_pass (not_found e, w) = (priv_error (lit "sudo/privhelper not available: " ++ e), w)
  judge must_pass (broke e, w) = (crashed e, w)
  judge must_pass (finished proc, w) =
      if must_pass && not (proc.returncode == 0)
      then (priv_error (message proc), w)
      else (value proc, w)

  abbrev pub command_line : List Text → List Text
  command_line args = lit "sudo" ∷ lit "-n" ∷ helper ∷ args

  unfoldable pub run_helper : List Text → Option Text → Bool → W → Outcome Finished × W
  run_helper args input must_pass w = judge must_pass (run (command_line args) input w)

  abbrev pub passed : Outcome Finished × W → Answer Bool × W
  passed (value proc, w) = (returned (proc.returncode == 0), w)
  passed (priv_error e, w) = (returned false, w)
  passed (crashed e, w) = (raised e, w)

  unfoldable pub check : W → Answer Bool × W
  check w = passed (run_helper (lit "--check" ∷ []) none false w)

  abbrev pub refusal : Text
  refusal = lit "basename not allowlisted"

  unfoldable pub read : Text → W → Outcome Text × W
  read path w =
      if is_allowed_name (basename path)
      then after (λ (p : Finished). p.stdout) (run_helper (lit "read" ∷ path ∷ []) none true w)
      else (priv_error refusal, w)

  unfoldable pub write : Text → Text → W → Outcome (Unit {0}) × W
  write path content w =
      if is_allowed_name (basename path)
      then after (λ (p : Finished). tt) (run_helper (lit "write" ∷ path ∷ []) (some content) true w)
      else (priv_error refusal, w)

  unfoldable pub reload : W → Outcome (Unit {0}) × W
  reload w = after (λ (p : Finished). tt) (run_helper (lit "reload" ∷ []) none true w)

  -- The answer of a method that passes on a process, by how the process ended.
  abbrev pub Reflects : {A : Type 0} → (Finished → A) → Spawned → Outcome A → Type 0
  Reflects f (finished proc) o =
      ((proc.returncode ≡ 0) × (o ≡ value (f proc)))
      ⊎ ((proc.returncode ≡ 0 → ⊥) × (o ≡ priv_error (message proc)))
  Reflects f (not_found e) o = o ≡ priv_error (lit "sudo/privhelper not available: " ++ e)
  Reflects f (broke e) o = o ≡ crashed e

  judged :
      {A : Type 0} (f : Finished → A) (s : Spawned × W)
      → let (o, w) = after f (judge true s) in Reflects f s.0 o × (w ≡ s.1)
  judged f (not_found e, w) = (refl, refl)
  judged f (broke e, w) = (refl, refl)
  judged f (finished proc, w) = elim (Bool-cases (proc.returncode == 0)) [
    | inl e ↦ rw e (inl (zero_of e, refl), refl)
    | inr e ↦ rw e (inr ((λ z. cc (e, of_zero z)), refl), refl)
  ]
    where
      zero_of : (proc.returncode == 0) ≡ true → proc.returncode ≡ 0
      zero_of e = (mcp_postgres.Prelude.==_iff proc.returncode 0).0 e

      of_zero : proc.returncode ≡ 0 → (proc.returncode == 0) ≡ true
      of_zero z = (mcp_postgres.Prelude.==_iff proc.returncode 0).1 z

  -- A path whose name is not allowed starts no process: both `read` and `write` refuse it and
  -- nothing changes. Any other path starts one process with that path, fed the content to write,
  -- and the answer is a value exactly if that process ends with exit code zero.
  pub read-write-allowed :
      (path content : Text) (w : W)
      → ((is_allowed_name (basename path) ≡ false)
          × (read path w ≡ (priv_error refusal, w))
          × (write path content w ≡ (priv_error refusal, w)))
        ⊎ ((is_allowed_name (basename path) ≡ true)
            × (let s = run (command_line (lit "read" ∷ path ∷ [])) none w in
                let (o, w') = read path w in Reflects (λ p. p.stdout) s.0 o × (w' ≡ s.1))
            × (let s = run (command_line (lit "write" ∷ path ∷ [])) (some content) w in
                let (o, w') = write path content w in Reflects (λ p. tt) s.0 o × (w' ≡ s.1)))
  unfolding read write run_helper
  read-write-allowed path content w = elim (Bool-cases (is_allowed_name (basename path))) [
    | inr e ↦ inl (e, rw e refl, rw e refl)
    | inl e ↦ inr (
      e,
      rw e (judged (λ p. p.stdout) (run (command_line (lit "read" ∷ path ∷ [])) none w)),
      rw e (judged (λ p. tt) (run (command_line (lit "write" ∷ path ∷ [])) (some content) w)),
    )
  ]
