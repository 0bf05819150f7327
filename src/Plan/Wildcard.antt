-- ===== src/Plan/Wildcard.antt =====
-- `requireContiguousWildcard` of internal/h3c/plan/validate.go, and the masks that it lets through.
pub mod Accepted
use Prim.Native.Nat.{bit_and, bit_and-bitwise, digits, min}
use native.Mathlib.Nat.{pow-suc, le_refl}
use native.Mathlib.Decide.{ℕ_discrete}
use acl_edit_only.Base.{
  ◌∙◌, sym, ℕ, zero, suc, ◌+◌, ◌-◌, ◌*◌, ◌/◌, ◌%◌, ◌^◌, ◌≤◌, ◌<◌, ◌≡◌, ◌⊎◌, inl, inr, refl, Bool,
  false, ◌&&◌, not, none, some, List, [], ◌∷◌, ◌==◌, arith, ◌↔◌,
}
use acl_edit_only.Base.Text.{Bytes}
use acl_edit_only.Base.Result.{Check, err, fail_if}
use acl_edit_only.Plan.Address.{parse_ip, to4}

abbrev pub u32_max : ℕ
u32_max = 0xffffffff

-- `v = v<<8 | uint32(b)` over the bytes; the low eight bits are free, so `|` adds
pub word_of : ℕ → List ℕ → ℕ
word_of v [] = v
word_of v (b ∷ bs) = word_of ((v * 256 + b) % 2 ^ 32) bs

-- the condition of the error, on `mask := ^v`
pub is_refused : ℕ → Bool
is_refused v =
    let mask = u32_max - v in not (mask == u32_max) && not (bit_and mask ((mask + 1) % 2 ^ 32) == 0)

pub data WildcardError : Type 0 where
  not_ipv4 not_contiguous : WildcardError

-- The call is made after `net.ParseIP` has returned an address; `To4` of nil is nil.
unfoldable pub require_contiguous_wildcard : Bytes → Check WildcardError
unfolding word_of is_refused
require_contiguous_wildcard wc = elim (parse_ip wc) [
  | none ↦ err not_ipv4
  | some ip ↦ elim (to4 ip) [
    | none ↦ err not_ipv4
    | some four ↦ fail_if (is_refused (word_of 0 four)) not_contiguous
  ]
]

-- The definition that `bit_and` stands for, on `fuel` digits. Digits beyond those of the first number
-- change nothing.
abbrev common : ℕ → ℕ → ℕ → ℕ
common fuel x y = digits (λ rest. 0) min fuel x y

common_zero : (fuel y : ℕ) → common fuel 0 y ≡ 0
common_zero zero y = refl
common_zero (suc fuel) y = refl

common_more : (x y fuel more : ℕ) → x ≤ fuel → fuel ≤ more → common more x y ≡ common fuel x y
common_more zero y fuel more h k = common_zero more y ∙ sym (common_zero fuel y)
common_more (suc x) y zero more h k = absurd (omega arith)
common_more (suc x) y (suc fuel) zero h k = absurd (omega arith)
common_more (suc x) y (suc fuel) (suc more) h k =
    omega (arith, common_more (suc x / 2) (y / 2) fuel more (omega arith) (omega arith))

common_half : (x y : ℕ) → common x (suc x / 2) (y / 2) ≡ bit_and (suc x / 2) (y / 2)
common_half x y =
    common_more (suc x / 2) (y / 2) (suc x / 2) x (omega arith) (omega arith)
    ∙ sym (bit_and-bitwise (suc x / 2) (y / 2))

-- the lowest digit of the result, where s and t are the halves of x and y
bit_and_at :
    (x y s t : ℕ) → x / 2 ≡ s → y / 2 ≡ t → bit_and x y ≡ bit_and s t * 2 + min (x % 2) (y % 2)
bit_and_at zero y s t p q = rw (← p) (omega (arith, bit_and-bitwise 0 y, bit_and-bitwise 0 t))
bit_and_at (suc x) y s t p q =
    rw (← p, ← q) (omega (arith, bit_and-bitwise (suc x) y, common_half x y))

bit_and_self : (bound x : ℕ) → x ≤ bound → bit_and x x ≡ x
bit_and_self bound zero h = refl
bit_and_self zero (suc x) h = absurd (omega arith)
bit_and_self (suc bound) (suc x) h = omega (
  arith,
  bit_and_at (suc x) (suc x) (suc x / 2) (suc x / 2) refl refl,
  bit_and_self bound (suc x / 2) (omega arith),
)

-- m & (m + 1) for an even and for an odd m
and_next_even : (m t : ℕ) → m ≡ 2 * t → bit_and m (m + 1) ≡ 2 * t
and_next_even m t h =
    omega
      (arith, bit_and_at m (m + 1) t t (omega arith) (omega arith), bit_and_self t t (omega arith))

and_next_odd : (m t : ℕ) → m ≡ 2 * t + 1 → bit_and m (m + 1) ≡ 2 * bit_and t (t + 1)
and_next_odd m t h = omega (arith, bit_and_at m (m + 1) t (t + 1) (omega arith) (omega arith))

abbrev pub IsPowerOfTwo : ℕ → Type 0
IsPowerOfTwo n = (k : ℕ) × (n ≡ 2 ^ k)

parity : (m : ℕ) → ((t : ℕ) × (m ≡ 2 * t)) ⊎ ((t : ℕ) × (m ≡ 2 * t + 1))
parity m = elim (ℕ_discrete (m % 2) 0) [
  | yes e ↦ inl (m / 2, omega arith)
  | no e ↦ inr (m / 2, omega arith)
]

and_next-zero : (n m : ℕ) → m ≤ n → bit_and m (m + 1) ≡ 0 → IsPowerOfTwo (m + 1)
and_next-zero zero m h e = (0, omega arith)
and_next-zero (suc n) m h e = elim (parity m) [
  | inl (t, p) ↦ (0, omega (arith, e, and_next_even m t p))
  | inr (t, p) ↦
      let (k, q) = and_next-zero n t (omega arith) (omega (arith, e, and_next_odd m t p)) in
      (suc k, omega (arith, q, p, pow-suc 2 k))
]

next_of_power : (k m : ℕ) → m + 1 ≡ 2 ^ k → bit_and m (m + 1) ≡ 0
next_of_power zero m e = let z : m ≡ 0 = omega (arith, e) in rw z
next_of_power (suc k) m e =
    let t = m / 2 in
    let p : m ≡ 2 * t + 1 = omega (arith, e, pow-suc 2 k) in
    let half : t + 1 ≡ 2 ^ k = omega (arith, e, p, pow-suc 2 k) in
    omega (arith, and_next_odd m t p, next_of_power k t half)

-- the two tests of the condition at a word
is_refused_zero : is_refused 0 ≡ false
unfolding is_refused
is_refused_zero = refl

is_refused_pos :
    (v : ℕ)
    → 0 < v
    → v ≤ u32_max
    → is_refused v ≡ not (bit_and (u32_max - v) (u32_max - v + 1) == 0)
unfolding is_refused
is_refused_pos v p h =
    let e : (u32_max - v + 1) % 2 ^ 32 ≡ u32_max - v + 1 = omega arith in rw e (ground arith)

-- The words that pass are those whose ones stand in front of their zeros: 2 ^ 32 - 2 ^ k.
pub is_refused_iff : (v : ℕ) → v ≤ u32_max → (is_refused v ≡ false) ↔ IsPowerOfTwo (2 ^ 32 - v)
is_refused_iff v h = elim (ℕ_discrete v 0) [
  | yes z ↦ rw z (λ _. (32, refl), λ _. is_refused_zero)
  | no nz ↦
      let next : u32_max - v + 1 ≡ 2 ^ 32 - v = omega arith in
      rw (is_refused_pos v (omega arith) h) (
        λ passed. rw (← next) (and_next-zero _ (u32_max - v) (le_refl _) (ground arith)),
        λ (k, e). ground (arith, next_of_power k (u32_max - v) (next ∙ e)),
      )
]
