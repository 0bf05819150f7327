-- ===== src/Plan/Address.antt =====
-- `net.ParseIP` and `To4`, which internal/h3c/plan/validate.go calls: an address is its 16 bytes.
use acl_edit_only.Base.{
  ℕ, zero, suc, ◌+◌, ◌-◌, ◌*◌, ◌/◌, ◌%◌, Bool, true, false, ◌&&◌, ◌||◌, not, Option, none, some,
  List, [], ◌∷◌, ◌++◌, leb, ltb, ◌==◌, if◌then◌else◌, length, drop, take, all_of, any_of,
}
use acl_edit_only.Base.Text.{Bytes, split}
use acl_edit_only.Base.Decimal.{is_digit, value_of}

abbrev dot : ℕ
dot = b'.'

abbrev colon : ℕ
colon = b':'

infixl 5 ◌>>=◌
abbrev ◌>>=◌ : {A B : Type 0} → Option A → (A → Option B) → Option B
none >>= f = none
some a >>= f = f a

-- one field of a dotted address: digits with no leading zero, at most 255
parse_octet : Bytes → Option ℕ
unfolding is_digit value_of
parse_octet [] = none
parse_octet (c ∷ s) =
    if not (all_of is_digit (c ∷ s))
    then none
    else if (c == b'0') && ltb 0 (length s)
    then none
    else if ltb 255 (value_of (c ∷ s))
    then none
    else some (value_of (c ∷ s))

parse_fields : List Bytes → Option (List ℕ)
unfolding parse_octet
parse_fields (a ∷ b ∷ c ∷ d ∷ []) = do
  a' ← parse_octet a
  b' ← parse_octet b
  c' ← parse_octet c
  d' ← parse_octet d
  some (a' ∷ b' ∷ c' ∷ d' ∷ [])
parse_fields _ = none

parse_ipv4 : Bytes → Option (List ℕ)
unfolding parse_fields split
parse_ipv4 s = parse_fields (split dot s)

is_hex : ℕ → Bool
unfolding is_digit
is_hex c = is_digit c || (leb b'a' c && leb c b'f') || (leb b'A' c && leb c b'F')

hex_value : ℕ → ℕ
unfolding is_digit
hex_value c = if is_digit c then c - b'0' else if leb b'a' c then c - b'a' + 10 else c - b'A' + 10

-- the longest run of hexadecimal digits, its value behind `n`, and what follows it
hex_run : ℕ → ℕ → Bytes → ℕ × ℕ × Bytes
unfolding is_hex hex_value
hex_run digits n [] = (digits, n, [])
hex_run digits n (c ∷ s) =
    let more = hex_run (digits + 1) (n * 16 + hex_value c) s in
    if is_hex c then more else (digits, n, c ∷ s)

zeros : ℕ → List ℕ
zeros zero = []
zeros (suc n) = 0 ∷ zeros n

-- what follows the loop: `acc` holds the bytes so far, `ellipsis` the place of the "::"
finish : List ℕ → Option ℕ → Bytes → Option (List ℕ)
unfolding zeros
finish acc ellipsis (c ∷ s) = none
finish acc none [] = if length acc == 16 then some acc else none
finish acc (some at) [] =
    if ltb (length acc) 16
    then some (take at acc ++ zeros (16 - length acc) ++ drop at acc)
    else none

embedded : List ℕ → Option ℕ → Bytes → Option (List ℕ)
unfolding parse_ipv4 finish
embedded acc ellipsis s =
    let fields = parse_ipv4 s in
    let joined : Option (List ℕ) = fields >>= λ four. finish (acc ++ four) ellipsis [] in
    if ltb 12 (length acc)
    then none
    else elim ellipsis [ none ↦ if length acc == 12 then joined else none | some at ↦ joined ]

-- the loop over the groups; each round that goes on fills two of the sixteen bytes, so a fuel of 8
-- is the bound of the loop itself
groups : ℕ → List ℕ → Option ℕ → Bytes → Option (List ℕ)
unfolding embedded finish hex_run
groups zero acc ellipsis s = finish acc ellipsis s
groups (suc fuel) acc ellipsis s =
    let (digits, n, rest) = hex_run 0 0 s in
    let acc' = acc ++ (n / 256 ∷ n % 256 ∷ []) in
    if (digits == 0) || ltb 4 digits then none else elim rest [
      | [] ↦ finish acc' ellipsis []
      | c ∷ [] ↦ if c == dot then embedded acc ellipsis s else none
      | c ∷ d ∷ rest' ↦
          if c == dot
          then embedded acc ellipsis s
          else if not (c == colon)
          then none
          else elim (d == colon) [
            | false ↦ groups fuel acc' ellipsis (d ∷ rest')
            | true ↦ elim ellipsis [
              | some at ↦ none
              | none ↦ elim rest' [
                | [] ↦ finish acc' (some (length acc')) []
                | e ∷ rest'' ↦ groups fuel acc' (some (length acc')) (e ∷ rest'')
              ]
            ]
          ]
    ]

parse_ipv6 : Bytes → Option (List ℕ)
unfolding groups zeros
parse_ipv6 (c ∷ d ∷ []) =
    if (c == colon) && (d == colon) then some (zeros 16) else groups 8 [] none (c ∷ d ∷ [])
parse_ipv6 (c ∷ d ∷ e ∷ s) =
    if (c == colon) && (d == colon)
    then groups 8 [] (some 0) (e ∷ s)
    else groups 8 [] none (c ∷ d ∷ e ∷ s)
parse_ipv6 s = groups 8 [] none s

-- the first of '.', ':' and '%' decides
dispatch : Bytes → Bytes → Option (List ℕ)
unfolding parse_ipv4 parse_ipv6 zeros
dispatch [] s = none
dispatch (c ∷ rest) s =
    let later = dispatch rest s in
    if c == dot
    then parse_ipv4 s >>= (λ four. some (zeros 10 ++ (255 ∷ 255 ∷ four)))
    else if c == colon
    then (if any_of (λ b. b == b'%') s then none else parse_ipv6 s)
    else if c == b'%'
    then none
    else later

-- `net.ParseIP`; `none` is nil
unfoldable pub parse_ip : Bytes → Option (List ℕ)
unfolding dispatch
parse_ip s = dispatch s s

-- `(IP).To4`; `none` is nil
unfoldable pub to4 : List ℕ → Option (List ℕ)
to4 (a ∷ b ∷ c ∷ d ∷ e ∷ f ∷ g ∷ h ∷ i ∷ j ∷ k ∷ l ∷ w ∷ x ∷ y ∷ z ∷ []) =
    if all_of (λ n. n == 0) (a ∷ b ∷ c ∷ d ∷ e ∷ f ∷ g ∷ h ∷ i ∷ j ∷ []) && (k == 255) && (l == 255)
    then some (w ∷ x ∷ y ∷ z ∷ [])
    else none
to4 _ = none
