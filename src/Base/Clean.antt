-- ===== src/Base/Clean.antt =====
-- Texts without certain bytes: which pieces of a command are free of them.
use Prim.Native.Nat.{ℕ, zero, suc, ◌+◌, ◌/◌, ◌%◌, ◌<◌}
use mathlib.Core.Path.{◌≡◌, refl}
use mathlib.Core.Logic.{inl, inr}
use mathlib.Core.Bool.{false}
use mathlib.Core.List.{[], ◌∷◌, ◌++◌}
use native.Mathlib.Omega.{arith}
use acl_edit_only.Base.Tests.{Bool-cases}
use acl_edit_only.Base.Text.{Bytes, contains_any, byte_in}
use acl_edit_only.Base.Decimal.{digits_onto, itoa, itoa_int}
use acl_edit_only.Base.Int.{ℤ, pos, negsuc}

module _ (bad : Bytes) where
  -- no byte of the text is bad
  abbrev pub IsClean : Bytes → Type 0
  IsClean s = contains_any s bad ≡ false

  pub append-IsClean : (s t : Bytes) → IsClean s → IsClean t → IsClean (s ++ t)
  unfolding contains_any
  append-IsClean [] t hs ht = ht
  append-IsClean (c ∷ s) t hs ht = elim (Bool-cases (byte_in c bad)) [
    | inl e ↦ cc (rw e at hs)
    | inr e ↦ rw e (append-IsClean s t (rw e at hs) ht)
  ]

  pub IsClean-left : (s t : Bytes) → IsClean (s ++ t) → IsClean s
  unfolding contains_any
  IsClean-left [] t h = refl
  IsClean-left (c ∷ s) t h = elim (Bool-cases (byte_in c bad)) [
    | inl e ↦ cc (rw e at h)
    | inr e ↦ rw e (IsClean-left s t (rw e at h))
  ]

  pub IsClean-right : (s t : Bytes) → IsClean (s ++ t) → IsClean t
  unfolding contains_any
  IsClean-right [] t h = h
  IsClean-right (c ∷ s) t h = elim (Bool-cases (byte_in c bad)) [
    | inl e ↦ cc (rw e at h)
    | inr e ↦ IsClean-right s t (rw e at h)
  ]

  module _ (digit : (d : ℕ) → d < 10 → byte_in (b'0' + d) bad ≡ false) where
    digits_onto-IsClean :
        (fuel n : ℕ) (out : Bytes) → IsClean out → IsClean (digits_onto fuel n out)
    unfolding digits_onto contains_any
    digits_onto-IsClean zero n out h = h
    digits_onto-IsClean (suc fuel) n out h =
        let h' : IsClean ((b'0' + n % 10) ∷ out) = rw (digit (n % 10) (omega arith)) h in
        ground (arith, h', digits_onto-IsClean fuel (n / 10) ((b'0' + n % 10) ∷ out) h')

    pub itoa-IsClean : (n : ℕ) → IsClean (itoa n)
    unfolding itoa
    itoa-IsClean n = digits_onto-IsClean (suc n) n [] (unfold contains_any in refl)

    pub itoa_int-IsClean : byte_in b'-' bad ≡ false → (n : ℤ) → IsClean (itoa_int n)
    unfolding itoa_int contains_any
    itoa_int-IsClean dash (pos n) = itoa-IsClean n
    itoa_int-IsClean dash (negsuc n) = rw dash (itoa-IsClean (suc n))
