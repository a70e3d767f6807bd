-- ===== src/Priv/Toy.antt =====
-- A small file system that meets the hypotheses: a file is what a name is mapped to.
use mcp_postgres.Prelude.{
  ◌≡◌, ◌≢◌, refl, sym, ap, ◌∙◌, true, false, Bool-cases, Option, none, some, String, [], inl, inr,
  is_some, if◌then◌else◌, arith,
}
use mcp_postgres.PyText.{Text, lit, text_eq, text_eq_iff}
use mcp_postgres.Effect.{Answer, returned, raised}
use mcp_postgres.Priv.{Os, chowned}
use mcp_postgres.Priv.Files.{IsFileSystem, SameBut}

abbrev pub Disk : Type 0
Disk = Text → Option Text

abbrev pub update : Disk → Text → Option Text → Disk
update w p v q = if text_eq p q then v else w q

update_self : (w : Disk) (p : Text) (v : Option Text) → update w p v p ≡ v
update_self w p v = rw ((text_eq_iff p p).1 refl) refl

update_other : (w : Disk) (p q : Text) (v : Option Text) → q ≢ p → update w p v q ≡ w q
update_other w p q v n = elim (Bool-cases (text_eq p q)) [
  | inl e ↦ absurd (n (sym ((text_eq_iff p q).0 e)))
  | inr e ↦ rw e refl
]

abbrev read_from : Option Text → Disk → Answer Text × Disk
read_from none w = (raised "no such file", w)
read_from (some x) w = (returned x, w)

abbrev copy_to : Text → Option Text → Disk → Answer (Unit {0}) × Disk
copy_to q none w = (raised "no such file", w)
copy_to q (some x) w = (returned tt, update w q (some x))

abbrev move_to : Text → Text → Option Text → Disk → Answer (Unit {0}) × Disk
move_to p q none w = (raised "no such file", w)
move_to p q (some x) w = (returned tt, update (update w q (some x)) p none)

abbrev temporary : Text
temporary = lit ".mcp-1.tmp"

abbrev make : Option Text → Disk → Answer Text × Disk
make none w = (returned temporary, w)
make (some x) w = (raised "file exists", w)

abbrev pub disk : Os Disk
disk = record {
  realpath = λ p w. p;
  exists = λ p w. is_some (w p);
  isfile = λ p w. is_some (w p);
  read_file = λ p w. read_from (w p) w;
  stat = λ p w. (returned (0, 0), w);
  copy2 = λ p q w. copy_to q (w p) w;
  mkstemp = λ d w. make (w temporary) w;
  write_file = λ p x w. (returned tt, update w p (some x));
  copystat = λ p q w. (returned tt, w);
  chown = λ p o w. (chowned, w);
  replace = λ p q w. move_to p q (w p) w;
  unlink = λ p w. (returned tt, update w p none);
  reload_unit = λ w. (returned (record { returncode = 0; stdout = []; stderr = [] }), w);
}

abbrev pub files : Disk → Text → Option Text
files w = w

is_some-value : (o : Option Text) → is_some o ≡ true → (x : Text) × (o ≡ some x)
is_some-value none h = ground arith
is_some-value (some x) h = (x, refl)

is_some-none : (o : Option Text) → is_some o ≡ false → o ≡ none
is_some-none none h = refl
is_some-none (some x) h = ground arith

copy_frame : (q : Text) (o : Option Text) (w : Disk) → SameBut files q w (copy_to q o w).1
copy_frame q none w r n = refl
copy_frame q (some x) w r n = update_other w q r (some x) n

copied : (q : Text) (o : Option Text) (w w' : Disk) → copy_to q o w ≡ (returned tt, w') → w' q ≡ o
copied q none w w' h = cc (ap (λ a. a.0) h)
copied q (some x) w w' h = ap (λ a. a.1 q) (sym h) ∙ update_self w q (some x)

make_same : (o : Option Text) (w : Disk) → (make o w).1 ≡ w
make_same none w = refl
make_same (some x) w = refl

made :
    (o : Option Text) (w w' : Disk) (t : Text)
    → o ≡ w temporary
    → make o w ≡ (returned t, w')
    → (w t ≡ none) × SameBut files t w w'
made none w w' t e h =
    (ap w (sym (named (ap (λ a. a.0) h))) ∙ sym e, λ r n. ap (λ a. a.1 r) (sym h))
  where
    named : ◌≡◌ {A = Answer Text} (returned temporary) (returned t) → temporary ≡ t
    named k = cc
made (some x) w w' t e h = cc (ap (λ a. a.0) h)

moved :
    (p q : Text) (o : Option Text) (w w' : Disk)
    → p ≢ q
    → move_to p q o w ≡ (returned tt, w')
    → (w' q ≡ o) × (w' p ≡ none) × ((r : Text) → r ≢ p → r ≢ q → w' r ≡ w r)
moved p q none w w' d h = cc (ap (λ a. a.0) h)
moved p q (some x) w w' d h = (
  ap (λ a. a.1 q) (sym h)
      ∙ update_other (update w q (some x)) p q none (λ e. d (sym e))
      ∙ update_self w q (some x),
  ap (λ a. a.1 p) (sym h) ∙ update_self (update w q (some x)) p none,
  λ r np nq.
      ap (λ a. a.1 r) (sym h)
      ∙ update_other (update w q (some x)) p r none np
      ∙ update_other w q r (some x) nq,
)

move_failed :
    (p q : Text) (o : Option Text) (w w' : Disk) (e : String)
    → move_to p q o w ≡ (raised e, w')
    → (r : Text) → w' r ≡ w r
move_failed p q none w w' e h r = ap (λ a. a.1 r) (sym h)
move_failed p q (some x) w w' e h r = cc (ap (λ a. a.0) h)

pub disk-IsFileSystem : IsFileSystem disk files
disk-IsFileSystem = record {
  isfile_some = λ p w h. is_some-value (w p) h;
  exists_none = λ p w h. is_some-none (w p) h;
  stat_same = λ p w r. refl;
  copy2_frame = λ p q w. copy_frame q (w p) w;
  copy2_copies = λ p q w w' d h. copied q (w p) w w' h;
  mkstemp_frame = λ d w q n. ap (λ v. v q) (make_same (w temporary) w);
  mkstemp_fresh = λ d t w w' h. made (w temporary) w w' t refl h;
  write_frame = λ p x w r n. update_other w p r (some x) n;
  write_writes = λ p x w w' h. ap (λ a. a.1 p) (sym h) ∙ update_self w p (some x);
  copystat_same = λ p q w r. refl;
  chown_same = λ p o w r. refl;
  replace_moves = λ p q w w' d h. moved p q (w p) w w' d h;
  replace_fails = λ p q w w' e h. move_failed p q (w p) w w' e h;
  unlink_frame = λ p w r n. update_other w p r none n;
  unlink_removes = λ p w w' h. ap (λ a. a.1 p) (sym h) ∙ update_self w p none;
}
