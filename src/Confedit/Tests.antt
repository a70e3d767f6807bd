-- ===== src/Confedit/Tests.antt =====
-- Runs and instances of the configuration edits.
use mcp_postgres.Prelude.{
  ℕ, ◌-◌, ◌≡◌, refl, Bool, true, false, ◌&&◌, some, if◌then◌else◌, ◌==◌, [], ◌∷◌, leb, length, keep,
  any_of, get_elem?,
}
use mcp_postgres.PyText.{Text, lit, is_space, is_break, lower_code, fold_code, text_eq}
use mcp_postgres.PyText.Lines.{split_lines, join, ends_in, IsLine, is_line_sound}
use mcp_postgres.PyText.Strip.{strip, lstrip, rstrip, indent}
use mcp_postgres.PyText.Regex.{many, some_of, one, literal}
use mcp_postgres.Confedit.{
  replaced, deduplicated, set_conf_value, format_value, format_stripped, double_quotes, is_numeric,
  is_boolish, boolish, match_setting, positions, comment_out, comment_out_all, update_lines,
  after_equals, setting_line, norm, basename, rstrip_slashes, after_last_slash, is_shadowed_source,
  append_hba_rule, is_active, is_commented,
}
use mcp_postgres.Confedit.Match.{IsName}
use mcp_postgres.Confedit.Edit.{last_of}
use mcp_postgres.Confedit.Setting.{
  set_conf_value-one_active, set_conf_value_report, set_conf_value_again,
  set_conf_value_other_lines, expected_action, IsValueOf,
}
use mcp_postgres.Confedit.Hba.{has_rule, append_hba_rule_again}
use mcp_postgres.Confedit.Shadow.{IsFileName}

abbrev ascii_digit : ℕ → Bool
ascii_digit c = leb b'0' c && leb c b'9'

-- What the runs below compute with.
evaluate : Unit {0}
unfolding lit is_space is_break lower_code fold_code text_eq split_lines join ends_in strip lstrip
    rstrip indent many some_of one literal set_conf_value format_value format_stripped double_quotes
    is_numeric is_boolish boolish match_setting positions comment_out comment_out_all update_lines
    after_equals norm basename rstrip_slashes after_last_slash is_shadowed_source append_hba_rule
evaluate = tt

abbrev conf : Text
conf = lit "a = 1\n tz = 'x'\n#tz = 2\ntz=3\nb = 2"

set_tz :
    (set_conf_value ascii_digit conf (lit "tz") (lit " it's ")).content
    ≡ lit
        "a = 1\n # tz = 'x'    # disabled by mcp-postgres: shadowed duplicate\n#tz = 2\ntz = 'it''s'\nb = 2\n"
unfolding evaluate
set_tz = refl

set_tz_report :
    let r = set_conf_value ascii_digit conf (lit "TZ") (lit "4") in
    (r.old_value ≡ some (lit "3")) × (r.action ≡ deduplicated) × (r.changed ≡ true)
unfolding evaluate
set_tz_report = (refl, refl, refl)

uncomment_tz :
    (set_conf_value ascii_digit (lit "#tz = 2\n## tz = 3") (lit "tz") (lit "on")).content
    ≡ lit "#tz = 2\ntz = on\n"
unfolding evaluate
uncomment_tz = refl

append_tz :
    (set_conf_value ascii_digit (lit "") (lit "tz") (lit "-1.5")).content ≡ lit "tz = -1.5\n"
unfolding evaluate
append_tz = refl

-- A lone quote counts as a quoted value, and is written as it stands.
lone_quote : format_value ascii_digit (lit "'") ≡ lit "'"
unfolding evaluate
lone_quote = refl

tz-IsName : IsName (lit "tz")
unfolding lit is_space is_break
tz-IsName = (refl, refl, ((refl, refl), ((refl, refl), tt)))

utc-IsLine : IsLine (lit "UTC")
unfolding lit is_break
utc-IsLine = is_line_sound (lit "UTC") refl

set_conf_value-one_active_example :
    keep
      (is_active (lit "tz"))
      (split_lines (set_conf_value ascii_digit conf (lit "tz") (lit "UTC")).content)
    ≡ setting_line ascii_digit (lit "tz") (lit "UTC") ∷ []
set_conf_value-one_active_example =
    set_conf_value-one_active ascii_digit conf (lit "tz") (lit "UTC") tz-IsName utc-IsLine

set_conf_value_again_example :
    let first = set_conf_value ascii_digit conf (lit "tz") (lit "UTC") in
    let again = set_conf_value ascii_digit first.content (lit "tz") (lit "UTC") in
    (again.content ≡ first.content)
    × (again.changed ≡ false)
    × (again.old_value ≡ some (format_value ascii_digit (lit "UTC")))
    × (again.action ≡ replaced)
set_conf_value_again_example =
    set_conf_value_again ascii_digit conf (lit "tz") (lit "UTC") tz-IsName utc-IsLine

set_conf_value_other_lines_example :
    get_elem? (split_lines (set_conf_value ascii_digit conf (lit "tz") (lit "UTC")).content) 4
    ≡ some (lit "b = 2")
unfolding lit split_lines is_space is_break match_setting many some_of one literal fold_code
    lower_code
set_conf_value_other_lines_example =
    set_conf_value_other_lines ascii_digit conf (lit "tz") (lit "UTC") tz-IsName utc-IsLine 4
      (lit "b = 2") refl refl

set_conf_value_report_example :
    let r = set_conf_value ascii_digit conf (lit "tz") (lit "UTC") in
    let live = keep (is_active (lit "tz")) (split_lines conf) in
    (r.active_occurrences ≡ length live)
    × (r.shadowed_disabled ≡ length live - 1)
    × IsValueOf (last_of live) r.old_value
    × (r.action
        ≡ expected_action (length live) (any_of (is_commented (lit "tz")) (split_lines conf)))
set_conf_value_report_example = set_conf_value_report ascii_digit conf (lit "tz") (lit "UTC")

-- A reader of what stands behind the opening quote: two quotes are one, a backslash and a character
-- are that character.
data Pending : Type 0 where
  nothing : Pending
  a_quote : Pending
  a_backslash : Pending

abbrev scan_from : Pending → Text → Text
scan_from p [] = []
scan_from nothing (c ∷ cs) =
    if c == 39
    then scan_from a_quote cs
    else if c == b'\\'
    then scan_from a_backslash cs
    else c ∷ scan_from nothing cs
scan_from a_quote (c ∷ cs) = if c == 39 then 39 ∷ scan_from nothing cs else []
scan_from a_backslash (c ∷ cs) = c ∷ scan_from nothing cs

abbrev scan : Text → Text
scan = scan_from nothing

-- A doubled quote is one, and a backslash takes the character behind it.
scan_run : scan (lit "it''s C:\\\\d'") ≡ lit "it's C:\\d"
unfolding lit
scan_run = refl

rule-IsLine : IsLine (lit "host a b ::1/128 md5")
unfolding lit is_break
rule-IsLine = is_line_sound (lit "host a b ::1/128 md5") refl

append_hba_rule_again_example :
    let (content', added) = append_hba_rule conf (lit "host a b ::1/128 md5") in
    (has_rule content' (lit "host a b ::1/128 md5") ≡ true)
    × (append_hba_rule content' (lit "host a b ::1/128 md5") ≡ (content', false))
append_hba_rule_again_example = append_hba_rule_again conf (lit "host a b ::1/128 md5") rule-IsLine

conf_name : IsFileName (lit "a.conf")
unfolding lit
conf_name = (
  (
    (refl, refl),
    ((refl, refl), ((refl, refl), ((refl, refl), ((refl, refl), ((refl, refl), tt))))),
  ),
  refl,
)

auto_name : IsFileName (lit "b")
unfolding lit
auto_name = (((refl, refl), tt), refl)
