-- ===== src/Base/Regex.antt =====
-- Package `regexp`, for the constructs that the program's expressions use: leftmost-first matching
-- by backtracking, with at most one group. Positions are byte offsets.
use Prim.Native.Nat.{ℕ, zero, suc, ◌+◌, ◌-◌}
use mathlib.Core.Bool.{Bool, true, false, ◌&&◌, ◌||◌, not, xor}
use mathlib.Core.Option.{Option, none, some}
use mathlib.Core.List.{List, [], ◌∷◌, ◌++◌}
use acl_edit_only.Base.Tests.{◌==◌, leb, ltb}
use acl_edit_only.Base.Lists.{take, drop, length}
use acl_edit_only.Base.Text.{Bytes, lower, byte_in}
use acl_edit_only.Base.Decimal.{is_digit}

pub data Regex : Type 0 where
  empty : Regex
  byte : (ℕ → Bool) → Regex
  seq alt : Regex → Regex → Regex
  star : Regex → Regex  -- greedy
  line_start text_start text_end word_boundary : Regex  -- (?m)^  ^  \z  \b
  group : Regex → Regex

-- the byte before the cursor, the text behind it, its offset, and the group that was matched
pub record Cursor : Type 0 where
  pub prev : Option ℕ
  pub rest : Bytes
  pub offset : ℕ
  pub group_start : ℕ
  pub group_end : ℕ

pub is_word : ℕ → Bool
unfolding is_digit
is_word c = is_digit c || (leb b'a' c && leb c b'z') || (leb b'A' c && leb c b'Z') || (c == b'_')

before_is_word : Option ℕ → Bool
before_is_word none = false
before_is_word (some c) = is_word c

next_is_word : Bytes → Bool
next_is_word [] = false
next_is_word (c ∷ s) = is_word c

at_line_start : Option ℕ → Bool
at_line_start none = true
at_line_start (some c) = c == 10

at_text_start : Option ℕ → Bool
at_text_start none = true
at_text_start (some c) = false

at_text_end : Bytes → Bool
at_text_end [] = true
at_text_end (c ∷ s) = false

abbrev Cont : Type 0
Cont = Cursor → Option Cursor

abbrev or_else : Option Cursor → Option Cursor → Option Cursor
or_else none b = b
or_else (some a) b = some a

assert : Bool → Cursor → Cont → Option Cursor
assert b c k = elim b [ true ↦ k c | false ↦ none ]

eat : (ℕ → Bool) → Bytes → Cursor → Cont → Option Cursor
eat p [] c k = none
eat p (b ∷ s) c k = elim (p b) [
  | true ↦ k (record c { prev = some b; rest = s; offset = c.offset + 1 })
  | false ↦ none
]

-- A round that eats nothing ends the loop, so the length of the text bounds the rounds.
star_loop : (Cursor → Cont → Option Cursor) → ℕ → Cursor → Cont → Option Cursor
star_loop step zero c k = k c
star_loop step (suc fuel) c k =
    let once_more =
      step c
        (λ c'. elim (ltb c.offset c'.offset) [ true ↦ star_loop step fuel c' k | false ↦ none ]) in
    elim once_more [ some r ↦ some r | none ↦ k c ]

-- the first match at the cursor that `k` accepts
pub run : Regex → Cursor → Cont → Option Cursor
unfolding assert eat star_loop before_is_word next_is_word at_line_start at_text_start at_text_end
    is_word byte_in lower xor is_digit
run empty c k = k c
run (byte p) c k = eat p c.rest c k
run (seq r s) c k = run r c (λ c'. run s c' k)
run (alt r s) c k = let first = run r c k in elim first [ some a ↦ some a | none ↦ run s c k ]
run (star r) c k = star_loop (run r) (suc (length c.rest)) c k
run line_start c k = assert (at_line_start c.prev) c k
run text_start c k = assert (at_text_start c.prev) c k
run text_end c k = assert (at_text_end c.rest) c k
run word_boundary c k = assert (xor (before_is_word c.prev) (next_is_word c.rest)) c k
run (group r) c k = run r c (λ c'. k (record c' { group_start = c.offset; group_end = c'.offset }))

-- a match, with the byte in front of its end
pub record Match : Type 0 where
  pub start : ℕ
  pub stop : ℕ
  pub group_start : ℕ
  pub group_end : ℕ

match_at : Regex → Option ℕ → ℕ → Bytes → Option Match
unfolding run
match_at r prev offset s =
    elim (run r (record { prev = prev; rest = s; offset = offset; group_start = 0; group_end = 0 })
      (λ c. some c)) [
        | none ↦ none
        | some c ↦ some (record {
          start = offset;
          stop = c.offset;
          group_start = c.group_start;
          group_end = c.group_end;
        })
      ]

find_from : Regex → Option ℕ → ℕ → Bytes → Option Match
unfolding match_at
find_from r prev offset [] = match_at r prev offset []
find_from r prev offset (b ∷ s) = elim (match_at r prev offset (b ∷ s)) [
  | some m ↦ some m
  | none ↦ find_from r (some b) (offset + 1) s
]

-- `FindStringSubmatchIndex`; `none` is nil
unfoldable pub find : Regex → Bytes → Option Match
unfolding find_from
find r s = find_from r none 0 s

-- `MatchString`
unfoldable pub matches : Regex → Bytes → Bool
unfolding find
matches r s = elim (find r s) [ some m ↦ true | none ↦ false ]

-- the text between two offsets
abbrev pub slice : ℕ → ℕ → Bytes → Bytes
slice start stop s = take (stop - start) (drop start s)

-- `FindString`
unfoldable pub find_text : Regex → Bytes → Bytes
unfolding find
find_text r s = elim (find r s) [ some m ↦ slice m.start m.stop s | none ↦ [] ]

-- The matches from left to right that do not overlap, for an expression that matches no empty text;
-- the first argument counts the bytes that the last match still covers.
all_from : Regex → ℕ → Option ℕ → ℕ → Bytes → List Match
unfolding match_at
all_from r skip prev offset [] = []
all_from r (suc skip) prev offset (b ∷ s) = all_from r skip (some b) (offset + 1) s
all_from r zero prev offset (b ∷ s) = elim (match_at r prev offset (b ∷ s)) [
  | some m ↦ m ∷ all_from r (m.stop - offset - 1) (some b) (offset + 1) s
  | none ↦ all_from r zero (some b) (offset + 1) s
]

-- the groups of `FindAllStringSubmatch(s, -1)`
group_texts : List Match → Bytes → List Bytes
group_texts [] s = []
group_texts (m ∷ ms) s = slice m.group_start m.group_end s ∷ group_texts ms s

unfoldable pub find_all_groups : Regex → Bytes → List Bytes
unfolding all_from group_texts
find_all_groups r s = group_texts (all_from r 0 none 0 s) s

-- what is left of `s` from `offset` on when the matches are cut out
cut_out : List Match → ℕ → Bytes → Bytes
cut_out [] offset s = drop offset s
cut_out (m ∷ ms) offset s = slice offset m.start s ++ cut_out ms m.stop s

-- `ReplaceAllString(s, "")`
unfoldable pub remove_all : Regex → Bytes → Bytes
unfolding all_from cut_out
remove_all r s = cut_out (all_from r 0 none 0 s) 0 s

-- Notation: a literal byte and text, `r+`, `r?`, `r{1,n}`, and the classes that are used.
abbrev pub one_of : Bytes → Regex
one_of chars = byte (λ c. byte_in c chars)

abbrev pub none_of : Bytes → Regex
none_of chars = byte (λ c. not (byte_in c chars))

abbrev pub text : Bytes → Regex
text [] = empty
text (c ∷ s) = seq (byte (λ b. b == c)) (text s)

-- under (?i)
abbrev pub text_i : Bytes → Regex
text_i [] = empty
text_i (c ∷ s) = seq (byte (λ b. lower b == c)) (text_i s)

abbrev pub plus : Regex → Regex
plus r = seq r (star r)

abbrev pub opt : Regex → Regex
opt r = alt r empty

abbrev pub up_to : ℕ → Regex → Regex
up_to zero r = empty
up_to (suc n) r = opt (seq r (up_to n r))

-- \d
abbrev pub digit : Regex
digit = byte is_digit

-- [ \t]
abbrev pub blank : Regex
blank = one_of (32 ∷ 9 ∷ [])

-- \s is [\t\n\f\r ]
abbrev pub white : Regex
white = one_of (9 ∷ 10 ∷ 12 ∷ 13 ∷ 32 ∷ [])
