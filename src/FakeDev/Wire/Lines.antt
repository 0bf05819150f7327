-- ===== src/FakeDev/Wire/Lines.antt =====
-- What the simulated switch of internal/h3c/fakedev reads of the lines that a client sends.
use acl_edit_only.Base.{
  ℕ, zero, suc, ◌<◌, ◌≤◌, ◌≡◌, ◌≢◌, refl, sym, ap, subst, ◌∙◌, Bool, true, false, Option, none,
  some, [], ◌∷◌, ◌++◌, length, All, append_assoc, append-nil, length-append, arith,
}
use acl_edit_only.Base.Text.{Bytes}
use acl_edit_only.Device.Telnet.{escape_iac}
use acl_edit_only.FakeDev.Wire.{
  Place, at_data, at_verb, at_option, read_from, read_byte, escape, after_return, key_of, types,
  return, feed, erase, Key, on_key, on_byte, echo_if, crlf, LineRead, line, closed, spent,
  read_line,
}

-- a byte that is read is taken off what is to come
pub read_from_shorter :
    (place : Place) (s : Bytes) (b : ℕ) (rest : Bytes)
    → read_from place s ≡ some (b, rest)
    → length rest < length s
unfolding read_from
read_from_shorter place [] b rest h = cc h
read_from_shorter at_data (c ∷ s) b rest h = ground (arith, read_from_shorter at_verb s b rest)
read_from_shorter at_verb (c ∷ s) b rest h =
    ground (arith, read_from_shorter at_option s b rest, read_from_shorter at_data s b rest)
read_from_shorter at_option (c ∷ s) b rest h = ground (arith, read_from_shorter at_data s b rest)

-- the fuel is not spent, and of `n` bytes a line leaves fewer
abbrev pub EndsWithin : ℕ → LineRead → Type 0
EndsWithin n (line text echoed rest) = length rest < n
EndsWithin n (closed echoed) = Unit
EndsWithin n spent = ⊥

within_more : (m n : ℕ) (r : LineRead) → m ≤ n → EndsWithin m r → EndsWithin n r
within_more m n (line text echoed rest) h k = omega (arith, h, k)
within_more m n (closed echoed) h k = tt
within_more m n spent h k = k

after_return_shorter : (s : Bytes) → length (after_return s) ≤ length s
unfolding after_return
after_return_shorter [] = omega arith
after_return_shorter (c ∷ s) = ground arith

on_key-EndsWithin :
    (n : ℕ) (again : Bytes → Bytes → Bytes → LineRead) (echo : Bool) (text out : Bytes) (b : ℕ)
    (rest : Bytes)
    → length rest < n
    → ((t o : Bytes) → EndsWithin n (again t o rest))
    → (k : Key) → EndsWithin n (on_key again echo text out b rest k)
unfolding on_key
on_key-EndsWithin n again echo text out b rest h k return =
    omega (arith, h, after_return_shorter rest)
on_key-EndsWithin n again echo text out b rest h k feed = h
on_key-EndsWithin n again echo text out b rest h k erase = k _ _
on_key-EndsWithin n again echo text out b rest h k types = k _ _

on_byte-EndsWithin :
    (n : ℕ) (again : Bytes → Bytes → Bytes → LineRead) (echo : Bool) (text out : Bytes)
    (o : Option (ℕ × Bytes))
    → ((b : ℕ) (rest : Bytes)
        → o ≡ some (b, rest)
        → (length rest < n) × ((t u : Bytes) → EndsWithin n (again t u rest)))
    → EndsWithin n (on_byte again echo text out o)
unfolding on_byte
on_byte-EndsWithin n again echo text out none h = tt
on_byte-EndsWithin n again echo text out (some (b, rest)) h =
    on_key-EndsWithin n again echo text out b rest (h b rest refl).0 (h b rest refl).1 (key_of b)

-- with enough fuel, the reading of a line ends
pub read_line-EndsWithin :
    (fuel : ℕ) (echo : Bool) (text out input : Bytes)
    → length input < fuel
    → EndsWithin (length input) (read_line fuel echo text out input)
unfolding read_line read_byte
read_line-EndsWithin zero echo text out input h = absurd (omega (arith, h))
read_line-EndsWithin (suc fuel) echo text out input h =
    on_byte-EndsWithin (length input) (read_line fuel echo) echo text out (read_from at_data input)
      (λ b rest k.
        let shorter = read_from_shorter at_data input b rest k in
        (
          shorter,
          λ t u.
              within_more (length rest) (length input) (read_line fuel echo t u rest)
                (omega (arith, shorter))
                (read_line-EndsWithin fuel echo t u rest (omega (arith, h, shorter))),
        ))

-- a byte that a client sends as data is the next one that is read
read_byte-escape_iac :
    (c : ℕ) (s tail : Bytes)
    → read_byte (escape_iac (c ∷ s) ++ tail) ≡ some (c, escape_iac s ++ tail)
unfolding read_byte read_from escape_iac
read_byte-escape_iac c s tail = ground arith

escape_iac-length : (s : Bytes) → length s ≤ length (escape_iac s)
unfolding escape_iac
escape_iac-length [] = omega arith
escape_iac-length (c ∷ s) = ground (arith, escape_iac-length s)

-- neither the end of a line nor an erasure
abbrev pub IsTyped : ℕ → Type 0
IsTyped c = key_of c ≡ types

-- what is echoed of a line, one character after the other
echoed :
    (echo : Bool) (out : Bytes) (c : ℕ) (s : Bytes)
    → (out ++ echo_if echo (escape (c ∷ []))) ++ echo_if echo (escape s ++ crlf)
      ≡ out ++ echo_if echo (escape (c ∷ s) ++ crlf)
unfolding escape
echoed false out c s = append-nil (out ++ [])
echoed true out c s =
    append_assoc out (escape (c ∷ [])) (escape s ++ crlf) ∙ ap (λ x. out ++ x) (ground arith)

typed_line :
    (fuel : ℕ) (echo : Bool) (text out s rest : Bytes)
    → All IsTyped s
    → length s < fuel
    → read_line fuel echo text out (escape_iac s ++ 13 ∷ rest)
      ≡ line (text ++ s) (out ++ echo_if echo (escape s ++ crlf)) (after_return rest)
unfolding read_line on_byte on_key key_of escape_iac
typed_line zero echo text out s rest t h = absurd (omega (arith, h))
typed_line (suc fuel) echo text out [] rest t h =
    ap (λ x. line x (out ++ echo_if echo crlf) (after_return rest)) (sym (append-nil text))
typed_line (suc fuel) echo text out (c ∷ s) rest t h =
    ap (on_byte (read_line fuel echo) echo text out) (read_byte-escape_iac c s (13 ∷ rest))
    ∙ ap (on_key (read_line fuel echo) echo text out c (escape_iac s ++ 13 ∷ rest)) t.0
    ∙ typed_line fuel echo (text ++ c ∷ []) (out ++ echo_if echo (escape (c ∷ []))) s rest t.1
        (omega (arith, h))
    ∙ ap
        (λ x.
          line x ((out ++ echo_if echo (escape (c ∷ []))) ++ echo_if echo (escape s ++ crlf))
            (after_return rest))
        (append_assoc text (c ∷ []) s)
    ∙ ap (λ x. line (text ++ c ∷ s) x (after_return rest)) (echoed echo out c s)

-- With fuel above the number of bytes that are to come, the reading of a line never runs out of it. A
-- line without line ends and erasures that the client escapes and ends with a carriage return is read
-- as it is, and it and the line end are echoed where the echo is on.
pub read_line_lem :
    (fuel : ℕ) (echo : Bool) (input : Bytes)
    → length input < fuel
    → (read_line fuel echo [] [] input ≢ spent)
      × ((s rest : Bytes)
          → All IsTyped s
          → input ≡ escape_iac s ++ 13 ∷ rest
          → read_line fuel echo [] [] input
            ≡ line s (echo_if echo (escape s ++ crlf)) (after_return rest))
read_line_lem fuel echo input h = (
  λ e. subst (EndsWithin (length input)) e (read_line-EndsWithin fuel echo [] [] input h),
  λ s rest t e.
      subst
        (λ x.
          read_line fuel echo [] [] x
          ≡ line s (echo_if echo (escape s ++ crlf)) (after_return rest))
        (sym e)
        (typed_line fuel echo [] [] s rest t (
          omega (
            arith,
            h,
            ap length e,
            length-append (escape_iac s) (13 ∷ rest),
            escape_iac-length s,
          ))),
)
