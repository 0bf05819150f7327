-- ===== src/Core/Spawn/Tail.antt =====
-- The tail of an agent's standard error, of internal/aclweb/core/core.go.
use acl_edit_only.Base.{
  Bool-cases, inl, inr, false, ℕ, zero, suc, ◌+◌, ◌-◌, ◌≡◌, refl, sym, ap, ◌∙◌, List, [], ◌∷◌, ◌++◌,
  length, length-append, drop, ltb, if◌then◌else◌, append_assoc, append-nil, arith,
}
use acl_edit_only.Base.Text.{Bytes}
use acl_edit_only.Core.Spawn.{tail_write, tail_of}

-- all bytes that were written
abbrev pub concat : List Bytes → Bytes
concat [] = []
concat (p ∷ ps) = p ++ concat ps

-- the last `max` bytes
abbrev pub last_bytes : ℕ → Bytes → Bytes
last_bytes max s = drop (length s - max) s

drop_nil : (n : ℕ) → drop {A = ℕ} n [] ≡ []
drop_nil zero = refl
drop_nil (suc n) = refl

length-drop : (n : ℕ) (s : Bytes) → length (drop n s) ≡ length s - n
length-drop zero s = omega arith
length-drop (suc n) [] = omega arith
length-drop (suc n) (c ∷ s) = omega (arith, length-drop n s)

drop_to : (s : Bytes) {m n : ℕ} → m ≡ n → drop m s ≡ drop n s
drop_to s h = ap (λ k. drop k s) h

drop-drop : (m n : ℕ) (s : Bytes) → drop m (drop n s) ≡ drop (n + m) s
drop-drop m zero s = drop_to s {m = m} {n = zero + m} (omega arith)
drop-drop m (suc n) [] = drop_nil m ∙ sym (drop_nil (suc n + m))
drop-drop m (suc n) (c ∷ s) =
    drop-drop m n s ∙ drop_to (c ∷ s) {m = suc (n + m)} {n = suc n + m} (omega arith)

drop-append : (n : ℕ) (s t : Bytes) (k : ℕ) → n + k ≡ length s → drop n (s ++ t) ≡ drop n s ++ t
drop-append zero s t k h = refl
drop-append (suc n) [] t k h = absurd (omega (arith, h))
drop-append (suc n) (c ∷ s) t k h = drop-append n s t k (omega (arith, h))

last_bytes-all : (max : ℕ) (s : Bytes) → ltb max (length s) ≡ false → last_bytes max s ≡ s
last_bytes-all max s h = drop_to s {m = length s - max} {n = 0} (ground arith)

-- what has been dropped before a write is dropped of all that was written
length-last_bytes :
    (max : ℕ) (s : Bytes)
    → length (last_bytes max s) ≡ (if ltb max (length s) then max else length s)
length-last_bytes max s = ground (arith, length-drop (length s - max) s)

-- what has been dropped before a write is dropped of all that was written
last_bytes-append :
    (max : ℕ) (s p : Bytes) → last_bytes max (last_bytes max s ++ p) ≡ last_bytes max (s ++ p)
last_bytes-append max s p =
    ap (last_bytes max)
      (sym (drop-append (length s - max) s p (length s - (length s - max)) (omega arith)))
    ∙ drop-drop _ (length s - max) (s ++ p)
    ∙ drop_to (s ++ p) (omega (arith, length-drop (length s - max) (s ++ p), length-append s p))

-- one write
tail_write_last : (max : ℕ) (s p : Bytes) → tail_write max s p ≡ last_bytes max (s ++ p)
unfolding tail_write
tail_write_last max s p = elim (Bool-cases (ltb max (length (s ++ p)))) [
  | inl h ↦ rw h refl
  | inr h ↦ rw h (sym (last_bytes-all max (s ++ p) h))
]

-- the writes, onto the tail of what was written before
tail_of_last :
    (max : ℕ) (s : Bytes) (ps : List Bytes)
    → tail_of max (last_bytes max s) ps ≡ last_bytes max (s ++ concat ps)
unfolding tail_of
tail_of_last max s [] = ap (last_bytes max) (sym (append-nil s))
tail_of_last max s (p ∷ ps) =
    ap (λ b. tail_of max b ps)
      (tail_write_last max (last_bytes max s) p ∙ last_bytes-append max s p)
    ∙ tail_of_last max (s ++ p) ps
    ∙ ap (last_bytes max) (append_assoc s p (concat ps))

-- However a process splits what it writes, the tail writer holds the last `max` bytes of all of it,
-- and everything where it is no more.
pub tail_of_lem :
    (max : ℕ) (ps : List Bytes)
    → (tail_of max [] ps ≡ drop (length (concat ps) - max) (concat ps))
      × (length (tail_of max [] ps)
          ≡ (if ltb max (length (concat ps)) then max else length (concat ps)))
tail_of_lem max ps =
    let e = ap (λ b. tail_of max b ps) (sym (drop_nil (0 - max))) ∙ tail_of_last max [] ps in
    (e, ap length e ∙ length-last_bytes max (concat ps))
