-- ===== src/Device/Text.antt =====
-- The expressions and text functions of internal/h3c/device/session.go.
use acl_edit_only.Base.{
  Option, none, some, List, [], ◌∷◌, ◌++◌, ◌-◌, ltb, if◌then◌else◌, length, drop, map,
}
use mathlib.Core.List.{reverse}
use acl_edit_only.Base.Text.{
  Bytes, codes, str_eq, contains, split, join, trim_space, drop_nul, quoted, byte_in, nl,
}
use acl_edit_only.Base.Decimal.{itoa_int}
use acl_edit_only.Base.Int.{ℤ}
use acl_edit_only.Base.Regex.{
  Regex, seq, alt, star, text_start, line_start, text_end, word_boundary, find_text, remove_all,
  text, text_i, plus, opt, up_to, white, one_of, none_of,
}

-- [ \t\r\x00]*\z
abbrev tail_re : Regex
tail_re = seq (star (one_of (32 ∷ 9 ∷ 13 ∷ 0 ∷ []))) text_end

-- (?:^|[\n\r\x00])(?:<[^<>\n]{1,64}>|\[[^\[\]\n]{1,64}\])[ \t\r\x00]*\z
abbrev pub prompt_re : Regex
prompt_re =
    let user_view = none_of (b'<' ∷ b'>' ∷ 10 ∷ []) in
    let other_view = none_of (b'[' ∷ b']' ∷ 10 ∷ []) in
    seq (alt text_start (one_of (10 ∷ 13 ∷ 0 ∷ []))) (
      seq
        (alt (seq (text (codes "<")) (seq user_view (seq (up_to 63 user_view) (text (codes ">")))))
          (seq (text (codes "[")) (seq other_view (seq (up_to 63 other_view) (text (codes "]"))))))
        tail_re)

-- ----\s*More\s*----
abbrev pub more_re : Regex
more_re =
    seq (text (codes "----"))
      (seq (star white) (seq (text (codes "More")) (seq (star white) (text (codes "----")))))

-- (?i)(?:username|login)\s*:[ \t\r\x00]*\z
abbrev pub username_prompt_re : Regex
username_prompt_re =
    seq (alt (text_i (codes "username")) (text_i (codes "login")))
      (seq (star white) (seq (text (codes ":")) tail_re))

-- (?i)password\s*:[ \t\r\x00]*\z
abbrev pub password_prompt_re : Regex
password_prompt_re =
    seq (text_i (codes "password")) (seq (star white) (seq (text (codes ":")) tail_re))

-- (?m)[ \t]*----\s*More\s*----[^\n]*
abbrev pub more_line_re : Regex
more_line_re = seq (star (one_of (32 ∷ 9 ∷ []))) (seq more_re (star (none_of (10 ∷ []))))

-- the patterns of `errorPatterns`, which are searched for as they stand
abbrev pub error_patterns : List Bytes
error_patterns =
    codes "Error:"
    ∷ codes "% Error"
    ∷ codes "% Unrecognized command"
    ∷ codes "% Wrong parameter"
    ∷ codes "% Too many"
    ∷ codes "^%"
    ∷ codes "% Ambiguous"
    ∷ codes "% Incomplete"
    ∷ []

-- \[.*-acl-ipv4-adv-%d\]
abbrev pub acl_view_prompt_re : ℤ → Regex
acl_view_prompt_re acl_num = seq (text (codes "[")) (
    seq (star (none_of (10 ∷ [])))
      (text (codes "-acl-ipv4-adv-" ++ (itoa_int acl_num ++ codes "]"))))

-- \[[^\[\]\n]*\b%d\][ \t\r\x00]*\z
abbrev pub acl_view_numbered_re : ℤ → Regex
acl_view_numbered_re acl_num = seq (text (codes "[")) (
    seq (star (none_of (b'[' ∷ b']' ∷ 10 ∷ [])))
      (seq word_boundary (seq (text (itoa_int acl_num ++ codes "]")) tail_re)))

-- (?im)^\s*acl\s+(?:ipv4\s+)?(?:number|advanced|basic)?\s*%d\b
abbrev pub display_this_acl_re : ℤ → Regex
display_this_acl_re acl_num = seq line_start (
    seq (star white) (
      seq (text_i (codes "acl")) (
        seq (plus white) (
          seq (opt (seq (text_i (codes "ipv4")) (plus white))) (
            seq
              (opt (
                alt (text_i (codes "number"))
                  (alt (text_i (codes "advanced")) (text_i (codes "basic")))))
              (seq (star white) (seq (text (itoa_int acl_num)) word_boundary)))))))

trim_chars_left : Bytes → Bytes → Bytes
trim_chars_left chars [] = []
trim_chars_left chars (c ∷ s) =
    let rest = trim_chars_left chars s in if byte_in c chars then rest else c ∷ s

-- `strings.Trim(s, chars)`
trim_chars : Bytes → Bytes → Bytes
unfolding trim_chars_left byte_in
trim_chars s chars = reverse (trim_chars_left chars (reverse (trim_chars_left chars s)))

-- `trailingPrompt`
unfoldable pub trailing_prompt : Bytes → Bytes
unfolding trim_chars
trailing_prompt out = trim_chars (find_text prompt_re out) (32 ∷ 9 ∷ 13 ∷ 10 ∷ 0 ∷ [])

-- the loop of `replayCR`, from the last segment down
last_painted : List Bytes → Bytes
last_painted [] = []
last_painted (seg ∷ segs) =
    let earlier = last_painted segs in if str_eq (trim_space seg) [] then earlier else seg

-- `replayCR`
unfoldable pub replay_cr : Bytes → Bytes
unfolding last_painted
replay_cr line = last_painted (reverse (split 13 line))

-- `normalizeTerminal`
unfoldable pub normalize_terminal : Bytes → Bytes
normalize_terminal raw =
    join nl (map (λ l. remove_all more_line_re (replay_cr l)) (split nl (drop_nul raw)))

-- the first line that holds the pattern
find_line : Bytes → List Bytes → Option Bytes
find_line pattern [] = none
find_line pattern (line ∷ lines) =
    let later = find_line pattern lines in if contains line pattern then some line else later

-- `offendingLine`
unfoldable pub offending_line : Bytes → Bytes → Bytes
unfolding find_line
offending_line out pattern = elim (find_line pattern (split nl out)) [
  | some line ↦ trim_space line
  | none ↦ trim_space out
]

-- the first pattern that the output holds
unfoldable pub first_error : List Bytes → Bytes → Option Bytes
first_error [] out = none
first_error (p ∷ ps) out =
    let later = first_error ps out in if contains out p then some p else later

-- `checkDeviceErrors`: the text of its error, if there is one
unfoldable pub check_device_errors : Bytes → Option Bytes
check_device_errors out = elim (first_error error_patterns out) [
  | some p ↦ some (codes "device error: " ++ offending_line out p)
  | none ↦ none
]

-- `quoteTail`
unfoldable pub quote_tail : Bytes → Bytes
quote_tail out =
    if str_eq out []
    then codes "nothing at all"
    else if ltb 200 (length out)
    then quoted (codes "..." ++ drop (length out - 200) out) ++ codes " instead"
    else quoted out ++ codes " instead"
