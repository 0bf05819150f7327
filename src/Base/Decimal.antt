-- ===== src/Base/Decimal.antt =====
-- `strconv.Itoa` and `strconv.Atoi`, and the verb `%d`.
use Prim.Native.Nat.{ℕ, zero, suc, ◌+◌, ◌-◌, ◌*◌, ◌/◌, ◌%◌, ◌^◌}
use mathlib.Core.Bool.{Bool, true, false, ◌&&◌}
use mathlib.Core.List.{[], ◌∷◌, foldl}
use mathlib.Core.Option.{Option, none, some}
use acl_edit_only.Base.Tests.{leb, ◌==◌, if◌then◌else◌}
use acl_edit_only.Base.Text.{Bytes}
use acl_edit_only.Base.Int.{ℤ, pos, negsuc}

unfoldable pub is_digit : ℕ → Bool
is_digit c = leb b'0' c && leb c b'9'

-- the digits of `n`, in front of `out`; `fuel` above the number of digits is enough
unfoldable pub digits_onto : ℕ → ℕ → Bytes → Bytes
digits_onto zero n out = out
digits_onto (suc fuel) n out =
    let out' = (b'0' + n % 10) ∷ out in
    elim (n / 10 == 0) [ true ↦ out' | false ↦ digits_onto fuel (n / 10) out' ]

-- `n` itself bounds its number of digits
unfoldable pub itoa : ℕ → Bytes
unfolding digits_onto
itoa n = digits_onto (suc n) n []

unfoldable pub itoa_int : ℤ → Bytes
unfolding itoa
itoa_int (pos n) = itoa n
itoa_int (negsuc n) = b'-' ∷ itoa (suc n)

abbrev pub max_int : ℕ
max_int = 2 ^ 63 - 1

-- the number that digits spell
unfoldable pub value_of : Bytes → ℕ
value_of s = foldl (λ n c. n * 10 + (c - b'0')) 0 s

-- `strconv.Atoi` on a run of digits: the value, and `none` where it does not fit an int64
unfoldable pub atoi : Bytes → Option ℕ
unfolding value_of
atoi s = if leb (value_of s) max_int then some (value_of s) else none

-- the value that `strconv.Atoi` returns beside an ignored error: the greatest int64
unfoldable pub atoi_value : Bytes → ℕ
unfolding value_of
atoi_value s = if leb (value_of s) max_int then value_of s else max_int
