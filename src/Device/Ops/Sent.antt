-- ===== src/Device/Ops/Sent.antt =====
-- What the methods of a session (internal/h3c/device/session.go) send that `Apply` and `Remove` call
-- behind their guards, whatever they come to.
use acl_edit_only.Base.{
  ◌≡◌, refl, ap, ◌∙◌, ◌⊎◌, inl, inr, Bool, true, false, Bool-cases, Option, none, some, List, [],
  ◌∷◌, ◌++◌, if◌then◌else◌,
}
use acl_edit_only.Base.Text.{Bytes, codes, str_eq, contains}
use acl_edit_only.Base.Result.{Result, ok, err}
use acl_edit_only.Device.Text.{check_device_errors, trailing_prompt}
use acl_edit_only.Device.Session.{
  Transport, Session, M, GoError, ReadResult, got, fault, session, plain, ◌>>=◌, pure, raise, after,
  in_stage, in_session, send, record_out, after_read, read_until, refuse_errors, exec_output, exec,
  exec_in_acl_view, left_view, says_success, confirm_save, save, prompt_user_view, prompt_sys_view,
}

abbrev pub line : Bytes → Bytes
line cmd = cmd ++ codes "\r\n"

module _ {C : Type 0} where
  -- whatever it comes to, it has sent these texts, the last one first
  abbrev pub Sends : List Bytes → {A : Type 0} → M C A → Type 0
  Sends new m = (s : Session C) → (m s).1.sent ≡ new ++ s.sent

  after-sent :
      {A B : Type 0} (f : A → M C B) (r : Result GoError A) (s : Session C)
      → ((a : A) → Sends [] (f a))
      → (after f r s).1.sent ≡ s.sent
  after-sent f (ok a) s h = h a s
  after-sent f (err e) s h = refl

  bind-Sends :
      {A B : Type 0} (new : List Bytes) (m : M C A) (f : A → M C B)
      → Sends new m
      → ((a : A) → Sends [] (f a))
      → Sends new (m >>= f)
  bind-Sends new m f h k s = after-sent f (m s).0 (m s).1 k ∙ h s

  in_session-Sends : (o : Option Bytes) (f : Bytes → GoError) → Sends [] (in_session {C = C} o f)
  in_session-Sends none f s = refl
  in_session-Sends (some e) f s = refl

  if-Sends :
      {A : Type 0} (b : Bool) (m k : M C A)
      → Sends [] m
      → Sends [] k
      → Sends [] (if b then m else k)
  if-Sends true m k h g = h
  if-Sends false m k h g = g

module _ {C : Type 0} (tr : Transport C) where
  record_out-sent : (out : Bytes) (s : Session C) → (record_out tr out s).sent ≡ s.sent
  unfolding record_out
  record_out-sent out s = elim (Bool-cases s.in_auth) [ inl e ↦ rw e refl | inr e ↦ rw e refl ]

  after_read-sent : (r : ReadResult) (s : Session C) → (after_read tr r s).1.sent ≡ s.sent
  unfolding after_read
  after_read-sent (got out i) s = record_out-sent out s
  after_read-sent (fault out e) s = record_out-sent out s

  read_until-Sends : (ps : List Bytes) → Sends [] (read_until tr ps)
  unfolding read_until
  read_until-Sends ps s =
      after_read-sent (tr.read_until ps s.conn).0 (record s { conn = (tr.read_until ps s.conn).1 })

  send-Sends : (txt : Bytes) → Sends (txt ∷ []) (send tr txt)
  unfolding send
  send-Sends txt s = refl

  exec_output-Sends :
      (cmd : Bytes) (ps : List Bytes) → Sends (line cmd ∷ []) (exec_output tr cmd ps)
  unfolding exec_output
  exec_output-Sends cmd ps =
      bind-Sends (line cmd ∷ []) (in_stage (codes "write") (send tr (line cmd))) _
        (send-Sends (line cmd))
        (λ u. bind-Sends [] (read_until tr ps) _ (read_until-Sends ps) (λ (out, i).
          bind-Sends [] (refuse_errors tr out) _
            (in_session-Sends (check_device_errors out) (λ e. session (codes "write") e out))
            (λ v s. refl)))

  pub exec-Sends : (cmd : Bytes) (ps : List Bytes) → Sends (line cmd ∷ []) (exec tr cmd ps)
  unfolding exec
  exec-Sends cmd ps =
      bind-Sends (line cmd ∷ []) (exec_output tr cmd ps) _ (exec_output-Sends cmd ps)
        (λ out s. refl)

  pub exec_in_acl_view-Sends : (cmd : Bytes) → Sends (line cmd ∷ []) (exec_in_acl_view tr cmd)
  unfolding exec_in_acl_view
  exec_in_acl_view-Sends cmd =
      bind-Sends (line cmd ∷ []) (exec_output tr cmd (codes "]" ∷ codes ">" ∷ [])) _
        (exec_output-Sends cmd (codes "]" ∷ codes ">" ∷ []))
        (λ out s.
          bind-Sends []
            (if str_eq (trailing_prompt out) s.acl_prompt
              then pure tt
              else raise (left_view tr s.acl_prompt out))
            _
            (if-Sends (str_eq (trailing_prompt out) s.acl_prompt) (pure tt)
              (raise (left_view tr s.acl_prompt out)) (λ t. refl) (λ t. refl))
            (λ u. in_session-Sends (check_device_errors out) plain) s)

  -- `save` asks for a confirmation where the device does
  abbrev pub Saves : Session C → Result GoError (Unit {0}) × Session C → Type 0
  Saves s res =
      (res ≡ save tr s)
      × ((res.1.sent ≡ line (codes "save force") ∷ s.sent)
          ⊎ (res.1.sent ≡ line (codes "Y") ∷ line (codes "save force") ∷ s.sent))

  confirm_save-Sends : Sends (line (codes "Y") ∷ []) (confirm_save tr)
  unfolding confirm_save
  confirm_save-Sends =
      bind-Sends (line (codes "Y") ∷ []) (in_stage (codes "save") (send tr (line (codes "Y")))) _
        (send-Sends (line (codes "Y")))
        (λ u.
          bind-Sends []
            (in_stage (codes "save")
              (read_until tr (codes "successfully" ∷ prompt_user_view ∷ prompt_sys_view ∷ [])))
            _ (read_until-Sends (codes "successfully" ∷ prompt_user_view ∷ prompt_sys_view ∷ []))
            (λ (out, i).
              if-Sends (says_success tr out) (pure tt)
                (raise (session (codes "save") (codes "save did not report success") []))
                (λ t. refl) (λ t. refl)))

  saved_sent :
      (s s₁ : Session C) (r : Result GoError Bytes)
      → s₁.sent ≡ line (codes "save force") ∷ s.sent
      → let res =
          after
            (λ out.
              if says_success tr out
              then pure tt
              else if contains out (codes "Y/N")
              then confirm_save tr
              else raise (session (codes "save") (codes "save did not report success: " ++ out) []))
            r
            s₁ in
        (res.1.sent ≡ line (codes "save force") ∷ s.sent)
        ⊎ (res.1.sent ≡ line (codes "Y") ∷ line (codes "save force") ∷ s.sent)
  saved_sent s s₁ (err e) h = inl h
  saved_sent s s₁ (ok out) h = elim (Bool-cases (says_success tr out)) [
    | inl e ↦ rw e (inl h)
    | inr e ↦ rw e (elim (Bool-cases (contains out (codes "Y/N"))) [
      | inl k ↦ rw k (inr (confirm_save-Sends s₁ ∙ ap (λ l. line (codes "Y") ∷ l) h))
      | inr k ↦ rw k (inl h)
    ])
  ]

  pub save-Saves : (s : Session C) → Saves s (save tr s)
  unfolding save
  save-Saves s =
      let ps = prompt_user_view ∷ prompt_sys_view ∷ codes "successfully" ∷ [] in
      let r = in_stage (codes "save") (exec_output tr (codes "save force") ps) s in
      (refl, saved_sent s r.1 r.0 (exec_output-Sends (codes "save force") ps s))
