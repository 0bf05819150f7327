-- ===== src/Device/Telnet.antt =====
-- internal/h3c/device/telnet.go: the telnet framing and the read loop. A connection is the list of
-- chunks that its reads return, followed by the error that the last read returns.
pub mod Framing
pub mod Reading
use acl_edit_only.Base.{
  ℕ, ◌+◌, Bool, ◌||◌, Option, none, some, List, [], ◌∷◌, ◌++◌, ◌==◌, if◌then◌else◌,
}
use acl_edit_only.Base.Text.{Bytes, contains}

abbrev pub iac_byte : ℕ
iac_byte = 0xFF

abbrev pub iac_will : ℕ
iac_will = 0xFB

abbrev pub iac_wont : ℕ
iac_wont = 0xFC

abbrev pub iac_do : ℕ
iac_do = 0xFD

abbrev pub iac_dont : ℕ
iac_dont = 0xFE

abbrev pub iac_sb : ℕ
iac_sb = 0xFA

abbrev pub iac_se : ℕ
iac_se = 0xF0

pub data Phase : Type 0 where
  data_phase iac_phase option_phase sb_phase sb_iac_phase : Phase

pub record Decoder : Type 0 where
  pub phase : Phase
  pub verb : ℕ

-- What one byte does: the decoder after it, the data that it adds, and the bytes that are written
-- back to the connection.
pub record Step : Type 0 where
  pub decoder : Decoder
  pub out : Bytes
  pub sent : Bytes

-- the zero value of `iacDecoder`
abbrev pub fresh : Decoder
fresh = record { phase = data_phase; verb = 0 }

unfoldable pub refusal : ℕ → ℕ → Bytes
refusal verb b =
    if verb == iac_will
    then iac_byte ∷ iac_dont ∷ b ∷ []
    else if verb == iac_do
    then iac_byte ∷ iac_wont ∷ b ∷ []
    else []

-- the `switch` on the byte behind an IAC
pub after_iac : Decoder → ℕ → Step
after_iac d b =
    if b == iac_byte
    then record { decoder = record d { phase = data_phase }; out = iac_byte ∷ []; sent = [] }
    else if b == iac_sb
    then record { decoder = record d { phase = sb_phase }; out = []; sent = [] }
    else if b == iac_se
    then record { decoder = record d { phase = data_phase }; out = []; sent = [] }
    else if b == iac_will || b == iac_wont || b == iac_do || b == iac_dont
    then record { decoder = record { phase = option_phase; verb = b }; out = []; sent = [] }
    else record { decoder = record d { phase = data_phase }; out = []; sent = [] }

pub step_in : Phase → Decoder → ℕ → Step
unfolding after_iac refusal
step_in data_phase d b =
    if b == iac_byte
    then record { decoder = record d { phase = iac_phase }; out = []; sent = [] }
    else record { decoder = d; out = b ∷ []; sent = [] }
step_in iac_phase d b = after_iac d b
step_in option_phase d b = record {
  decoder = record d { phase = data_phase };
  out = [];
  sent = refusal d.verb b;
}
step_in sb_phase d b = record {
  decoder = if b == iac_byte then record d { phase = sb_iac_phase } else d;
  out = [];
  sent = [];
}
step_in sb_iac_phase d b = record {
  decoder = record d { phase = if b == iac_se then data_phase else sb_phase };
  out = [];
  sent = [];
}

-- one round of the loop of `strip`
unfoldable pub strip_byte : Decoder → ℕ → Step
unfolding step_in
strip_byte d b = step_in d.phase d b

-- `(*iacDecoder).strip`
unfoldable pub strip : Decoder → Bytes → Step
unfolding strip_byte
strip d [] = record { decoder = d; out = []; sent = [] }
strip d (b ∷ raw) =
    let first = strip_byte d b in
    let rest = strip first.decoder raw in
    record { decoder = rest.decoder; out = first.out ++ rest.out; sent = first.sent ++ rest.sent }

-- `escapeIAC`
unfoldable pub escape_iac : Bytes → Bytes
escape_iac [] = []
escape_iac (c ∷ b) = if c == iac_byte then iac_byte ∷ iac_byte ∷ escape_iac b else c ∷ escape_iac b

-- the error of a read: a passed deadline, or any other
pub data ReadError : Type 0 where
  deadline : ReadError
  broken : Bytes → ReadError

-- What `readUntil` returns: the text so far with the index that matched, or with the error. The
-- error of a passed deadline is "timeout waiting for prompt".
pub data Outcome : Type 0 where
  matched : Bytes → ℕ → Outcome
  failed : Bytes → ReadError → Outcome

-- The loop of `readUntil`, with the decoder and the chunks that are left when it returns. A read of
-- no bytes tests nothing.
unfoldable pub read_loop :
    (Bytes → Option ℕ) → Decoder → Bytes → List Bytes → ReadError → Outcome × Decoder × List Bytes
unfolding strip
read_loop match d buf [] e = (failed buf e, d, [])
read_loop match d buf ([] ∷ chunks) e = read_loop match d buf chunks e
read_loop match d buf ((b ∷ raw) ∷ chunks) e =
    let s = strip d (b ∷ raw) in
    let out = buf ++ s.out in
    elim (match out) [
      | some i ↦ (matched out i, s.decoder, chunks)
      | none ↦ read_loop match s.decoder out chunks e
    ]

-- the index of the first test that passes, from `i` on
unfoldable pub first_match : List (Bytes → Bool) → ℕ → Bytes → Option ℕ
first_match [] i out = none
first_match (t ∷ tests) i out =
    let later = first_match tests (i + 1) out in if t out then some i else later

-- the test of `ReadUntil` for one of its patterns
unfoldable pub occurs : Bytes → Bytes → Bool
unfolding contains
occurs p out = contains out p
