-- ===== src/FakeDev/Wire.antt =====
-- internal/h3c/fakedev/session.go: the bytes of a connection of the simulated switch. What the peer
-- sends is a list of bytes, behind which it closes the connection.
pub mod Lines
use acl_edit_only.Base.{
  ℕ, zero, suc, ◌+◌, ◌-◌, Bool, true, false, not, ◌&&◌, ◌||◌, Option, none, some, List, [], ◌∷◌,
  ◌++◌, length, take, ◌==◌, if◌then◌else◌,
}
use acl_edit_only.Base.Text.{Bytes, codes}

abbrev pub iac : ℕ
iac = 255

-- will, wont, do and dont
abbrev pub is_negotiation : ℕ → Bool
is_negotiation c = c == 251 || c == 252 || c == 253 || c == 254

-- where `readByte` is: at data, behind an IAC, or at the option of a negotiation
pub data Place : Type 0 where
  at_data at_verb at_option : Place

-- `readByte`, with the bytes behind the one that it returns; `none` is the end of the connection
unfoldable pub read_from : Place → Bytes → Option (ℕ × Bytes)
read_from place [] = none
read_from at_data (b ∷ s) = let next = read_from at_verb s in if b == iac then next else some (b, s)
read_from at_verb (verb ∷ s) =
    let skip = read_from at_option s in
    let next = read_from at_data s in
    if verb == iac then some (iac, s) else if is_negotiation verb then skip else next
read_from at_option (o ∷ s) = read_from at_data s

unfoldable pub read_byte : Bytes → Option (ℕ × Bytes)
unfolding read_from
read_byte s = read_from at_data s

-- `escape`, which writes three bytes for an IAC
unfoldable pub escape : Bytes → Bytes
escape [] = []
escape (c ∷ s) = let rest = escape s in if c == iac then iac ∷ iac ∷ c ∷ rest else c ∷ rest

-- `strings.ReplaceAll(text, "\r\n", "\r\x00\n")`
unfoldable pub with_nul : Bytes → Bytes
with_nul [] = []
with_nul (c ∷ s) = let rest = with_nul s in if c == 13 then 13 ∷ newline_after s rest else c ∷ rest
  where
    newline_after : Bytes → Bytes → Bytes
    newline_after [] rest = rest
    newline_after (d ∷ t) rest = if d == 10 then 0 ∷ rest else rest

-- the bytes of `out`; `plain` is PlainLineEndings
unfoldable pub wire_text : Bool → Bytes → Bytes
unfolding escape with_nul
wire_text plain text = escape (if plain then text else with_nul text)

-- the line feed or the NUL that may follow a carriage return
unfoldable pub after_return : Bytes → Bytes
after_return [] = []
after_return (c ∷ s) = if c == 10 || c == 0 then s else c ∷ s

pub data Key : Type 0 where
  return feed erase types : Key

-- the switch of `readLine`
unfoldable pub key_of : ℕ → Key
key_of b =
    if b == 13
    then return
    else if b == 10
    then feed
    else if b == 127 || b == 8
    then erase
    else types

abbrev pub echo_if : Bool → Bytes → Bytes
echo_if echo s = if echo then s else []

-- what `readLine` comes to: a line with what was echoed and what is left to read, or the end of the
-- connection; `spent` is that the fuel ran out
pub data LineRead : Type 0 where
  line : Bytes → Bytes → Bytes → LineRead
  closed : Bytes → LineRead
  spent : LineRead

abbrev pub crlf : Bytes
crlf = 13 ∷ 10 ∷ []

-- what is left of the line and what is echoed where a character is erased
unfoldable pub erased : Bytes → Bytes
erased [] = []
erased (c ∷ s) = take (length s) (c ∷ s)

abbrev pub erase_echo : Bool → Bytes → Bytes
erase_echo echo [] = []
erase_echo echo (c ∷ s) = echo_if echo (8 ∷ 32 ∷ 8 ∷ [])

-- the cases of the switch of `readLine`, where `again` goes on with the loop
unfoldable pub on_key :
    (Bytes → Bytes → Bytes → LineRead) → Bool → Bytes → Bytes → ℕ → Bytes → Key → LineRead
unfolding after_return erased escape
on_key again echo text out b rest return = line text (out ++ echo_if echo crlf) (after_return rest)
on_key again echo text out b rest feed = line text (out ++ echo_if echo crlf) rest
on_key again echo text out b rest erase = again (erased text) (out ++ erase_echo echo text) rest
on_key again echo text out b rest types =
    again (text ++ b ∷ []) (out ++ echo_if echo (escape (b ∷ []))) rest

unfoldable pub on_byte :
    (Bytes → Bytes → Bytes → LineRead) → Bool → Bytes → Bytes → Option (ℕ × Bytes) → LineRead
unfolding on_key key_of
on_byte again echo text out none = closed out
on_byte again echo text out (some (b, rest)) = on_key again echo text out b rest (key_of b)

-- `readLine`, with the line `text` read and `out` echoed so far; fuel above the number of bytes that
-- are to come is enough
unfoldable pub read_line : ℕ → Bool → Bytes → Bytes → Bytes → LineRead
unfolding on_byte read_byte
read_line zero echo text out input = spent
read_line (suc fuel) echo text out input =
    on_byte (read_line fuel echo) echo text out (read_byte input)

-- `waitMore`: whether the next page is asked for, what is echoed, and what is left to read
unfoldable pub wait_more : ℕ → Bytes → Bool × Bytes × Bytes
unfolding read_byte
wait_more zero input = (false, [], input)
wait_more (suc fuel) input = elim (read_byte input) [
  | none ↦ (false, [], [])
  | some (b, rest) ↦
      let again = wait_more fuel rest in
      if b == 32 || b == 13 || b == 10
      then (true, [], rest)
      else if b == b'q' || b == b'Q' || b == 3
      then (false, crlf, rest)
      else again
]
