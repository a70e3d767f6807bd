-- ===== src/Confedit.antt =====
-- src/mcp_postgres/confedit.py: pure edits of postgresql.conf and pg_hba.conf.
-- `is_digit` is `\d` of Python's `re`, which is wider than the ASCII digits.
pub mod Match
mod Edit
mod Passes
pub mod Value
pub mod Setting
pub mod Hba
pub mod Shadow
mod Tests
use mcp_postgres.Prelude.{
  ℕ, suc, ◌+◌, ◌-◌, Bool, true, false, not, ◌&&◌, ◌||◌, Option, none, some, List, [], ◌∷◌, ◌++◌,
  map, ◌==◌, if◌then◌else◌, length, get_elem?, set, any_of, is_some, is_nil,
}
use mathlib.Core.Option
use mcp_postgres.PyText.{Text, lit, lower_code, is_space, text_eq}
use mcp_postgres.PyText.Lines.{split_lines, join, newline, ends_in}
use mcp_postgres.PyText.Strip.{lstrip, strip, indent}
use mcp_postgres.PyText.Regex.{or_else, many, some_of, one, literal}

abbrev at_end : Text → Option (Unit {0})
at_end [] = some tt
at_end (c ∷ []) = if c == 10 then some tt else none
at_end (c ∷ d ∷ cs) = none

module _ (is_digit : ℕ → Bool) where
  abbrev fraction : Text → Option (Unit {0})
  fraction s = or_else (one b'.' (some_of is_digit at_end) s) (at_end s)

  -- `_NUMERIC`: `^-?\d+(\.\d+)?$`
  pub is_numeric : Text → Bool
  is_numeric v =
      is_some (or_else (one b'-' (some_of is_digit fraction) v) (some_of is_digit fraction v))

boolish : List Text
boolish = lit "on" ∷ lit "off" ∷ lit "true" ∷ lit "false" ∷ lit "yes" ∷ lit "no" ∷ []

pub is_boolish : Text → Bool
is_boolish v = any_of (text_eq (map lower_code v)) boolish

abbrev pub starts_quoted : Text → Bool
starts_quoted [] = false
starts_quoted (c ∷ cs) = c == 39

-- `v.replace("'", "''")`
pub double_quotes : Text → Text
double_quotes [] = []
double_quotes (c ∷ cs) = let rest = double_quotes cs in if c == 39 then 39 ∷ 39 ∷ rest else c ∷ rest

-- the branches of `format_value`, on the stripped value
pub format_stripped : (ℕ → Bool) → Text → Text
format_stripped is_digit v =
    if is_nil v
    then 39 ∷ 39 ∷ []
    else if starts_quoted v && ends_in 39 v
    then v
    else if is_numeric is_digit v || is_boolish v
    then v
    else 39 ∷ double_quotes v ++ 39 ∷ []

pub format_value : (ℕ → Bool) → Text → Text
format_value is_digit value = format_stripped is_digit (strip value)

pub data Action : Type 0 where
  replaced deduplicated uncommented appended : Action

pub record SetConfResult : Type 0 where
  pub content : Text
  pub changed : Bool
  pub old_value : Option Text
  pub action : Action
  pub active_occurrences : ℕ
  pub shadowed_disabled : ℕ

-- behind the name of the pattern: `\s*=`
abbrev pub equals_sign : Bool → Text → Option Bool
equals_sign commented = many is_space (one b'=' (λ s. some commented))

abbrev pub setting_name : Text → Bool → Text → Option Bool
setting_name name commented = literal name (equals_sign commented)

-- `(#+\s*)?` and the name
abbrev pub marked_name : Text → Text → Option Bool
marked_name name s =
    or_else (some_of (λ c. c == b'#') (many is_space (setting_name name true)) s)
      (setting_name name false s)

-- `pat.match(line)`: `some true` where group 2, the comment marks, took part.
pub match_setting : Text → Text → Option Bool
match_setting name = many is_space (marked_name name)

abbrev pub active_mark : Option Bool → Bool
active_mark none = false
active_mark (some commented) = not commented

abbrev pub commented_mark : Option Bool → Bool
commented_mark none = false
commented_mark (some commented) = commented

abbrev pub is_active : Text → Text → Bool
is_active name line = active_mark (match_setting name line)

abbrev pub is_commented : Text → Text → Bool
is_commented name line = commented_mark (match_setting name line)

-- The indices, from `i` on, of the lines that pass a test.
pub positions : (Text → Bool) → ℕ → List Text → List ℕ
positions p i [] = []
positions p i (l ∷ ls) = let rest = positions p (suc i) ls in if p l then i ∷ rest else rest

abbrev pub last : ℕ → List ℕ → ℕ
last x [] = x
last x (y ∷ ys) = last y ys

abbrev pub init : ℕ → List ℕ → List ℕ
init x [] = []
init x (y ∷ ys) = x ∷ init y ys

abbrev pub shadow_marker : Text
shadow_marker = lit "disabled by mcp-postgres: shadowed duplicate"

pub comment_out : Text → Text
comment_out line = indent line ++ (lit "# " ++ (lstrip line ++ (lit "    # " ++ shadow_marker)))

abbrev pub write_commented : List Text → ℕ → Option Text → List Text
write_commented lines i none = lines
write_commented lines i (some line) = set lines i (comment_out line)

-- `for i in shadowed: lines[i] = _comment_out(lines[i])`
pub comment_out_all : List ℕ → List Text → List Text
comment_out_all [] lines = lines
comment_out_all (i ∷ is) lines = comment_out_all is (write_commented lines i (get_elem? lines i))

-- `line.split("=", 1)[1]`, with `none` where there is no `=`
pub after_equals : Text → Option Text
after_equals [] = none
after_equals (c ∷ cs) = let rest = after_equals cs in if c == b'=' then some cs else rest

pub norm : Text → Text
norm content = if ends_in 10 content then content else content ++ newline

abbrev pub finish : Text → List Text → Option Text → Action → ℕ → ℕ → SetConfResult
finish content lines old_value action active shadowed =
    let new_content = join newline lines ++ newline in
    record {
      content = new_content;
      changed = not (text_eq new_content (norm content));
      old_value = old_value;
      action = action;
      active_occurrences = active;
      shadowed_disabled = shadowed;
    }

-- the value on a line, if there is such a line with a `=`
abbrev pub value_of : Option Text → Option Text
value_of none = none
value_of (some line) = Option.map strip (after_equals line)

-- The three passes, given the active and the commented positions.
pub update_lines : Text → Text → List Text → List ℕ → List ℕ → SetConfResult
update_lines content new_line lines (a ∷ active) commented =
    let shadowed = init a active in
    finish content (comment_out_all shadowed (set lines (last a active) new_line))
      (value_of (get_elem? lines (last a active)))
      (if is_nil shadowed then replaced else deduplicated) (length (a ∷ active)) (length shadowed)
update_lines content new_line lines [] (c ∷ commented) =
    finish content (set lines (last c commented) new_line) none uncommented 0 0
update_lines content new_line lines [] [] =
    finish content (lines ++ new_line ∷ []) none appended 0 0

abbrev pub setting_line : (ℕ → Bool) → Text → Text → Text
setting_line is_digit name value = name ++ (lit " = " ++ format_value is_digit value)

pub set_conf_value : (ℕ → Bool) → Text → Text → Text → SetConfResult
set_conf_value is_digit content name value =
    let lines = split_lines content in
    update_lines content (setting_line is_digit name value) lines
      (positions (is_active name) 0 lines) (positions (is_commented name) 0 lines)

-- `path.replace("\\", "/").rstrip("/").rsplit("/", 1)[-1]`
abbrev pub forward_slash : ℕ → ℕ
forward_slash c = if c == b'\\' then b'/' else c

abbrev pub drop_slash : ℕ → Text → Text
drop_slash c [] = if c == b'/' then [] else c ∷ []
drop_slash c (d ∷ r) = c ∷ d ∷ r

pub rstrip_slashes : Text → Text
rstrip_slashes [] = []
rstrip_slashes (c ∷ cs) = drop_slash c (rstrip_slashes cs)

unfoldable pub after_last_slash : Text → Text → Text
after_last_slash seen [] = seen
after_last_slash seen (c ∷ cs) = after_last_slash (if c == b'/' then [] else seen ++ c ∷ []) cs

pub basename : Text → Text
basename path = after_last_slash [] (rstrip_slashes (map forward_slash path))

pub is_shadowed_source : Text → Option Text → Bool
is_shadowed_source edited_path none = false
is_shadowed_source edited_path (some sourcefile) =
    if is_nil sourcefile then false else not (text_eq (basename sourcefile) (basename edited_path))

pub append_hba_rule : Text → Text → Text × Bool
append_hba_rule content rule =
    let r = strip rule in
    if any_of (λ line. text_eq (strip line) r) (split_lines content)
    then (content, false)
    else (norm content ++ (r ++ newline), true)
