-- ===== src/Device/Telnet/Reading.antt =====
-- The read loop of internal/h3c/device/telnet.go over a whole connection.
use acl_edit_only.Base.{
  ℕ, ◌≡◌, arith, none, inl, inr, refl, ap, Option, some, Option-cases, List, [], ◌∷◌, ◌++◌,
  append-nil, append_assoc, inl, inr,
}
use acl_edit_only.Base.Text.{Bytes}
use acl_edit_only.Device.Telnet.{
  Decoder, Step, strip, ReadError, Outcome, matched, failed, read_loop,
}
use acl_edit_only.Device.Telnet.Framing.{strip-append}

abbrev pub joined : List Bytes → Bytes
joined [] = []
joined (c ∷ cs) = c ++ joined cs

-- the text that an outcome carries
abbrev pub text_of : Outcome → Bytes
text_of (matched out i) = out
text_of (failed out e) = out

-- why the loop ended, with `rest` left unread and `e` the error behind the last chunk
abbrev pub Ended : (Bytes → Option ℕ) → ReadError → List Bytes → Outcome → Type 0
Ended match e rest (matched out i) = match out ≡ some i
Ended match e rest (failed out e') = (e' ≡ e) × (rest ≡ [])

-- what a run of the loop that began with the text `buf` has returned
abbrev Explained :
    (Bytes → Option ℕ)
    → Decoder
    → Bytes
    → List Bytes
    → ReadError
    → Outcome × Decoder × List Bytes
    → Type 0
Explained match d buf chunks e (o, d', rest) =
    (used : List Bytes) × (chunks ≡ used ++ rest)
    × (text_of o ≡ buf ++ (strip d (joined used)).out)
    × (d' ≡ (strip d (joined used)).decoder)
    × Ended match e rest o

module _ (match : Bytes → Option ℕ) (d : Decoder) (buf : Bytes) (b : ℕ) (raw : Bytes)
    (chunks : List Bytes) (e : ReadError) where
  abbrev step : Step
  step = strip d (b ∷ raw)

  read_loop_hit :
      (i : ℕ)
      → match (buf ++ step.out) ≡ some i
      → read_loop match d buf ((b ∷ raw) ∷ chunks) e
        ≡ (matched (buf ++ step.out) i, step.decoder, chunks)
  unfolding read_loop
  read_loop_hit i found = ground arith

  read_loop_miss :
      match (buf ++ step.out) ≡ none
      → read_loop match d buf ((b ∷ raw) ∷ chunks) e
        ≡ read_loop match step.decoder (buf ++ step.out) chunks e
  unfolding read_loop
  read_loop_miss missed = ground arith

  Explained-miss :
      (r : Outcome × Decoder × List Bytes)
      → Explained match step.decoder (buf ++ step.out) chunks e r
      → Explained match d buf ((b ∷ raw) ∷ chunks) e r
  Explained-miss r (used, split_up, text, dec, why) =
      let (out, _, decoder) = strip-append d (b ∷ raw) (joined used) in
      (
        (b ∷ raw) ∷ used,
        ap (λ cs. (b ∷ raw) ∷ cs) split_up,
        rw (text, out, append_assoc),
        rw (dec, decoder),
        why,
      )

Explained-empty :
    (match : Bytes → Option ℕ) (d : Decoder) (buf : Bytes) (chunks : List Bytes) (e : ReadError)
    → Explained match d buf chunks e (read_loop match d buf chunks e)
    → Explained match d buf ([] ∷ chunks) e (read_loop match d buf ([] ∷ chunks) e)
unfolding read_loop
Explained-empty match d buf chunks e (used, split_up, text, dec, why) =
    ([] ∷ used, ap (λ cs. [] ∷ cs) split_up, text, dec, why)

read_loop-Explained :
    (match : Bytes → Option ℕ) (d : Decoder) (buf : Bytes) (chunks : List Bytes) (e : ReadError)
    → Explained match d buf chunks e (read_loop match d buf chunks e)
read_loop-Explained match d buf [] e =
    unfold read_loop strip in ([], refl, rw append-nil, refl, (refl, refl))
read_loop-Explained match d buf ([] ∷ chunks) e =
    Explained-empty match d buf chunks e (read_loop-Explained match d buf chunks e)
read_loop-Explained match d buf ((b ∷ raw) ∷ chunks) e =
    let s = strip d (b ∷ raw) in
    let later = read_loop-Explained match s.decoder (buf ++ s.out) chunks e in
    elim (Option-cases (match (buf ++ s.out))) [
      | inr (i, found) ↦
          rw (read_loop_hit match d buf b raw chunks e i found)
            ((b ∷ raw) ∷ [], refl, rw append-nil, rw append-nil, found)
      | inl missed ↦
          rw (read_loop_miss match d buf b raw chunks e missed)
            (Explained-miss match d buf b raw chunks e _ later)
    ]

-- The read loop returns the stripped text of the chunks that it has read, from the first one on, and
-- leaves the rest unread. It returns an index only if the match passes on exactly that text, and
-- otherwise it has read every chunk and returns the error of the connection.
pub read_loop_lem :
    (match : Bytes → Option ℕ) (d : Decoder) (chunks : List Bytes) (e : ReadError)
    → let (o, d', rest) = read_loop match d [] chunks e in
      (used : List Bytes) × (chunks ≡ used ++ rest)
      × (text_of o ≡ (strip d (joined used)).out)
      × (d' ≡ (strip d (joined used)).decoder)
      × Ended match e rest o
read_loop_lem match d chunks e = read_loop-Explained match d [] chunks e
