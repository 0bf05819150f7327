-- ===== src/Device/Telnet/Framing.antt =====
-- What the telnet framing of internal/h3c/device/telnet.go does to whole texts.
use acl_edit_only.Base.{
  ℕ, ◌≡◌, refl, sym, false, ◌⊎◌, inl, inr, [], ◌∷◌, ◌++◌, arith, Bool-cases, ◌==◌, ==_iff,
}
use mathlib.Core.Path.{subst}
use acl_edit_only.Base.Text.{Bytes}
use acl_edit_only.Device.Telnet.{
  iac_byte, iac_will, iac_do, iac_wont, iac_dont, Phase, data_phase, iac_phase, option_phase,
  sb_phase, sb_iac_phase, Decoder, refusal, after_iac, step_in, strip_byte, strip, escape_iac,
}

-- The text that a chunk yields does not depend on where the reads cut the stream: stripping two
-- chunks one after the other, with the decoder carried over, yields what stripping them as one does.
pub strip-append :
    (d : Decoder) (a b : Bytes)
    → let first = strip d a in
      let second = strip first.decoder b in
      let whole = strip d (a ++ b) in
      (whole.out ≡ first.out ++ second.out)
      × (whole.sent ≡ first.sent ++ second.sent)
      × (whole.decoder ≡ second.decoder)
unfolding strip
strip-append d [] b = (refl, refl, refl)
strip-append d (c ∷ a) b =
    let (o, s, e) = strip-append (strip_byte d c).decoder a b in ground (arith, o, s, e)

-- a plain byte, and an escaped 0xFF, in the data phase
strip_plain :
    (v c : ℕ) (s : Bytes)
    → (c == iac_byte) ≡ false
    → let d : Decoder = record { phase = data_phase; verb = v } in
      strip d (c ∷ s)
      ≡ record { decoder = (strip d s).decoder; out = c ∷ (strip d s).out; sent = (strip d s).sent }
unfolding strip strip_byte
strip_plain v c s h = rw h

strip_doubled :
    (v : ℕ) (s : Bytes)
    → let d : Decoder = record { phase = data_phase; verb = v } in
      strip d (iac_byte ∷ iac_byte ∷ s) ≡ record {
        decoder = (strip d s).decoder;
        out = iac_byte ∷ (strip d s).out;
        sent = (strip d s).sent;
      }
unfolding strip strip_byte
strip_doubled v s = refl

strip-escape_iac_lem :
    (v : ℕ) (b : Bytes)
    → let d : Decoder = record { phase = data_phase; verb = v } in
      strip d (escape_iac b) ≡ record { decoder = d; out = b; sent = [] }
unfolding escape_iac
strip-escape_iac_lem v [] = unfold strip in refl
strip-escape_iac_lem v (c ∷ b) = elim (Bool-cases (c == iac_byte)) [
  | inl e ↦
      rw (e, (==_iff c iac_byte).0 e)
        (rw (strip_doubled v (escape_iac b), strip-escape_iac_lem v b))
  | inr e ↦ rw (e) (rw (strip_plain v c (escape_iac b) e, strip-escape_iac_lem v b))
]

-- Data that is escaped on one side and read on the other in the data phase is the data; the decoder
-- ends where it began, and nothing is answered.
pub strip-escape_iac :
    (d : Decoder) (b : Bytes)
    → d.phase ≡ data_phase
    → strip d (escape_iac b) ≡ record { decoder = d; out = b; sent = [] }
strip-escape_iac d b h =
    let e : d ≡ record { phase = data_phase; verb = d.verb } =
      λ i. record { phase = h i; verb = d.verb } in
    subst (λ x. strip x (escape_iac b) ≡ record { decoder = x; out = b; sent = [] }) (sym e)
      (strip-escape_iac_lem d.verb b)

-- A sequence of refusals: IAC DONT or IAC WONT, each with the option that it refuses.
pub data Refusals : Bytes → Type 0 where
  silent : Refusals []
  refuse :
      {s : Bytes} (answer option : ℕ)
      → (answer ≡ iac_dont) ⊎ (answer ≡ iac_wont)
      → Refusals s
      → Refusals (iac_byte ∷ answer ∷ option ∷ s)

-- What one byte makes the decoder send is nothing, or one refusal.
refusal-Refusals : (v b : ℕ) (s : Bytes) → Refusals s → Refusals (refusal v b ++ s)
unfolding refusal
refusal-Refusals v b s h = elim (Bool-cases (v == iac_will)) [
  | inl e ↦ rw e (refuse iac_dont b (inl refl) h)
  | inr e ↦ rw e (elim (Bool-cases (v == iac_do)) [
    | inl f ↦ rw f (refuse iac_wont b (inr refl) h)
    | inr f ↦ rw f h
  ])
]

after_iac_sent : (d : Decoder) (b : ℕ) → (after_iac d b).sent ≡ []
unfolding after_iac
after_iac_sent d b = ground arith

step_in-Refusals :
    (p : Phase) (d : Decoder) (b : ℕ) (s : Bytes)
    → Refusals s
    → Refusals ((step_in p d b).sent ++ s)
unfolding step_in
step_in-Refusals data_phase d b s h = elim (Bool-cases (b == iac_byte)) [
  | inl e ↦ rw e h
  | inr e ↦ rw e h
]
step_in-Refusals iac_phase d b s h = rw (after_iac_sent d b) h
step_in-Refusals option_phase d b s h = refusal-Refusals d.verb b s h
step_in-Refusals sb_phase d b s h = h
step_in-Refusals sb_iac_phase d b s h = h

-- What one byte makes the decoder send is nothing, or one refusal.
strip_byte-Refusals :
    (d : Decoder) (b : ℕ) (s : Bytes) → Refusals s → Refusals ((strip_byte d b).sent ++ s)
unfolding strip_byte
strip_byte-Refusals d b s h = step_in-Refusals d.phase d b s h

-- Whatever the device sends, all that the decoder writes back are refusals of options: it never
-- agrees to one, and never answers anything else.
pub strip-Refusals : (d : Decoder) (raw : Bytes) → Refusals (strip d raw).sent
unfolding strip
strip-Refusals d [] = silent
strip-Refusals d (b ∷ raw) = strip_byte-Refusals d b _ (strip-Refusals (strip_byte d b).decoder raw)
