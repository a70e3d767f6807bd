-- ===== src/Priv/Files.antt =====
-- What privhelper.py relies on of the file system, as hypotheses on the contents of its files.
use mcp_postgres.Prelude.{◌≡◌, ◌≢◌, true, false, Option, none, some, String, ℕ}
use mcp_postgres.PyText.{Text}
use mcp_postgres.Effect.{returned, raised}
use mcp_postgres.Priv.{Os}

abbrev pub Contents : Type 0 → Type 0
Contents W = W → Text → Option Text

module _ {W : Type 0} (contents : Contents W) where
  abbrev pub Same : W → W → Type 0
  Same w w' = (q : Text) → contents w' q ≡ contents w q

  abbrev pub SameBut : Text → W → W → Type 0
  SameBut p w w' = (q : Text) → q ≢ p → contents w' q ≡ contents w q

-- Each call changes no file but the ones that it writes, also where it fails; a new temporary file
-- has a name that no file had; a rename is all or nothing.
pub record IsFileSystem {W : Type 0} (os : Os W) (contents : Contents W) : Type 0 where
  pub isfile_some :
      (p : Text) (w : W) → os.isfile p w ≡ true → (old : Text) × (contents w p ≡ some old)
  pub exists_none : (p : Text) (w : W) → os.exists p w ≡ false → contents w p ≡ none
  pub stat_same : (p : Text) (w : W) → Same contents w (os.stat p w).1
  pub copy2_frame : (p q : Text) (w : W) → SameBut contents q w (os.copy2 p q w).1
  pub copy2_copies :
      (p q : Text) (w w' : W)
      → p ≢ q
      → os.copy2 p q w ≡ (returned tt, w')
      → contents w' q ≡ contents w p
  pub mkstemp_frame :
      (d : Text) (w : W) (q : Text)
      → contents w q ≢ none
      → contents (os.mkstemp d w).1 q ≡ contents w q
  pub mkstemp_fresh :
      (d t : Text) (w w' : W)
      → os.mkstemp d w ≡ (returned t, w')
      → (contents w t ≡ none) × SameBut contents t w w'
  pub write_frame : (p x : Text) (w : W) → SameBut contents p w (os.write_file p x w).1
  pub write_writes :
      (p x : Text) (w w' : W) → os.write_file p x w ≡ (returned tt, w') → contents w' p ≡ some x
  pub copystat_same : (p q : Text) (w : W) → Same contents w (os.copystat p q w).1
  pub chown_same : (p : Text) (o : ℕ × ℕ) (w : W) → Same contents w (os.chown p o w).1
  pub replace_moves :
      (p q : Text) (w w' : W)
      → p ≢ q
      → os.replace p q w ≡ (returned tt, w')
      → (contents w' q ≡ contents w p)
        × (contents w' p ≡ none)
        × ((r : Text) → r ≢ p → r ≢ q → contents w' r ≡ contents w r)
  pub replace_fails :
      (p q : Text) (w w' : W) (e : String) → os.replace p q w ≡ (raised e, w') → Same contents w w'
  pub unlink_frame : (p : Text) (w : W) → SameBut contents p w (os.unlink p w).1
  pub unlink_removes :
      (p : Text) (w w' : W) → os.unlink p w ≡ (returned tt, w') → contents w' p ≡ none
