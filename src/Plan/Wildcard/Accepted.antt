-- ===== src/Plan/Wildcard/Accepted.antt =====
-- Which dotted wildcards `requireContiguousWildcard` of internal/h3c/plan/validate.go lets through.
use native.Mathlib.Nat.{pow-suc, pow-le-pow_right}
use acl_edit_only.Base.{
  ℕ, zero, suc, ◌+◌, ◌-◌, ◌*◌, ◌^◌, ◌≤◌, ◌<◌, ◌≡◌, ◌↔◌, true, false, some, List, [], ◌∷◌, arith,
  inl, inr, Bool-cases,
}
use acl_edit_only.Base.Text.{Bytes}
use acl_edit_only.Base.Result.{done, err}
use acl_edit_only.Plan.Address.{parse_ip, to4}
use acl_edit_only.Plan.Wildcard.{
  u32_max, word_of, is_refused, not_contiguous, require_contiguous_wildcard, IsPowerOfTwo,
  is_refused_iff,
}

-- the number that four bytes stand for
abbrev pub word : ℕ → ℕ → ℕ → ℕ → ℕ
word a b c d = a * 0x1000000 + b * 0x10000 + c * 0x100 + d

-- The text is an IPv4 address with these four bytes.
pub record ReadsAs (wc : Bytes) (a b c d : ℕ) : Type 0 where
  pub ip : List ℕ
  pub parsed : parse_ip wc ≡ some ip
  pub four : to4 ip ≡ some (a ∷ b ∷ c ∷ d ∷ [])
  pub a_byte : a < 256
  pub b_byte : b < 256
  pub c_byte : c < 256
  pub d_byte : d < 256

module _ {wc : Bytes} {a b c d : ℕ} (r : ReadsAs wc a b c d) where
  word_of-word : word_of 0 (a ∷ b ∷ c ∷ d ∷ []) ≡ word a b c d
  unfolding word_of
  word_of-word = omega (arith, r.a_byte, r.b_byte, r.c_byte, r.d_byte)

  word_le : word a b c d ≤ u32_max
  word_le = omega (arith, r.a_byte, r.b_byte, r.c_byte, r.d_byte)

  require_passed : is_refused (word a b c d) ≡ false → require_contiguous_wildcard wc ≡ done
  unfolding require_contiguous_wildcard
  require_passed h = ground (arith, r.parsed, r.four, word_of-word)

  require_refused :
      is_refused (word a b c d) ≡ true → require_contiguous_wildcard wc ≡ err not_contiguous
  unfolding require_contiguous_wildcard
  require_refused h = ground (arith, r.parsed, r.four, word_of-word)

  done→passed : require_contiguous_wildcard wc ≡ done → is_refused (word a b c d) ≡ false
  done→passed h = elim (Bool-cases (is_refused (word a b c d))) [
    | inl refused ↦ cc (require_refused refused)
    | inr passed ↦ passed
  ]

  -- A dotted wildcard passes exactly if 2 ^ 32 less its value is a power of two: its ones stand in
  -- front of its zeros, as in a network mask, or it is all zeros.
  pub require_contiguous_wildcard_iff :
      (require_contiguous_wildcard wc ≡ done) ↔ IsPowerOfTwo (2 ^ 32 - word a b c d)
  require_contiguous_wildcard_iff = (
    λ h. (is_refused_iff _ word_le).0 (done→passed h),
    λ p. require_passed ((is_refused_iff _ word_le).1 p),
  )

  odd_power : (k j : ℕ) → 0 < k → k < 32 → 2 ^ 32 - (2 ^ k - 1) ≡ 2 ^ j → ⊥
  odd_power zero j p q e = elim p [ ]
  odd_power (suc k) zero p q e =
      omega (arith, e, pow-le-pow_right {n = 2} (omega arith) {i = suc k} {j = 31} (omega arith))
  odd_power (suc k) (suc j) p q e = omega (
    arith,
    e,
    pow-suc 2 k,
    pow-suc 2 j,
    pow-le-pow_right {n = 2} (omega arith) {i = suc k} {j = 31} (omega arith),
    pow-le-pow_right {n = 2} (omega arith) {i = 0} {j = k} (omega arith),
  )

  -- A wildcard of the form that the switch uses for a whole subnet, all ones in its last k bits for
  -- 0 < k < 32, such as 0.0.0.255, is refused as not contiguous.
  pub host_bits_refused :
      (k : ℕ)
      → 0 < k
      → k < 32
      → word a b c d ≡ 2 ^ k - 1
      → require_contiguous_wildcard wc ≡ err not_contiguous
  host_bits_refused k p q e = elim (Bool-cases (is_refused (word a b c d))) [
    | inl refused ↦ require_refused refused
    | inr passed ↦
        let (j, f) = (is_refused_iff _ word_le).0 passed in absurd (odd_power k j p q (rw (← e) f))
  ]
