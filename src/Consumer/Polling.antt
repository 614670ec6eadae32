-- ===== src/Consumer/Polling.antt =====
-- What a run of the consumer's loop adds to the audit log.
use bet_advise.Base.{
  ◌≡◌, refl, sym, ap, ◌∙◌, ◌⊎◌, inl, inr, Bool, if◌then◌else◌, true, false, Option, none, some,
  List, [], ◌∷◌, ◌++◌, Bool-cases, Option-cases, arith,
}
use bet_advise.Base.Exec.{ok, throw}
use bet_advise.Base.Text.{Text, codes, is_empty, text_eq, text_eq_iff, text_or}
use bet_advise.Audit.{AuditLog, AuditError}
use bet_advise.Consumer.{
  InboxMessage, SqsMessage, Body, Details, World, Delivery, inbox_id, delete_message, handle,
  roll_back, settle, process_reserved, reserve, process_for, process_body, process_message,
  process_all, poll_loop,
}
use bet_advise.Consumer.Inbox.{Save}
use bet_advise.Consumer.Message.{
  IsAdvice, advice_generated, event_id_of, tenant_of, log_of, run-sanitized, handle-advice,
}

-- The messages that SQS handed out, in order.
abbrev pub received : List (Option (List (Delivery × SqsMessage))) → List (Delivery × SqsMessage)
received [] = []
received (none ∷ responses) = received responses
received (some ms ∷ responses) = ms ++ received responses

append_assoc : {A : Type 0} (xs ys zs : List A) → (xs ++ ys) ++ zs ≡ xs ++ (ys ++ zs)
append_assoc [] ys zs = refl
append_assoc (x ∷ xs) ys zs = ap (λ t. x ∷ t) (append_assoc xs ys zs)

append_snoc : {A : Type 0} (xs : List A) (x : A) (ys : List A) → (xs ++ x ∷ []) ++ ys ≡ xs ++ x ∷ ys
append_snoc [] x ys = refl
append_snoc (z ∷ xs) x ys = ap (λ t. z ∷ t) (append_snoc xs x ys)

append_nil : {A : Type 0} (xs : List A) → xs ++ [] ≡ xs
append_nil [] = refl
append_nil (x ∷ xs) = ap (λ t. x ∷ t) (append_nil xs)

module _ {Json : Type 0} where
  delete_message-logs :
      (d : Delivery) (receipt : Text) (w : World Json)
      → (delete_message d receipt w).audit_logs ≡ w.audit_logs
  unfolding delete_message
  delete_message-logs d receipt w = ground arith

  roll_back-logs :
      (d : Delivery) (id : Text) (w : World Json) → (roll_back d id w).audit_logs ≡ w.audit_logs
  unfolding roll_back
  roll_back-logs d id w = ground arith

  handle-other :
      (d : Delivery) (body : Body Json) (event_type event_id tenant : Text) (w : World Json)
      → text_eq event_type advice_generated ≡ false
      → handle d body event_type event_id w (some tenant) ≡ ok w
  unfolding handle
  handle-other d body event_type event_id tenant w other = rw other refl

  -- A refused row rolls back and a written one does not.
  settle-logs :
      (fails : Bool) (d : Delivery) (receipt id : Text) (w w' : World Json)
      → let settled =
          settle d receipt id w (ok (if fails then throw AuditError.database_refused else ok w')) in
        ((fails ≡ true) × (settled.audit_logs ≡ w.audit_logs))
        ⊎ ((fails ≡ false) × (settled.audit_logs ≡ w'.audit_logs))
  unfolding settle
  settle-logs true d receipt id w w' = inl (refl, roll_back-logs d id w)
  settle-logs false d receipt id w w' = inr (refl, delete_message-logs d receipt w')

-- The audit rows that a sequence of received messages may come to: none or one for each message,
-- in their order, and one only for a message that announces advice and whose row is not refused.
pub data Audits {Json : Type 0} (parse : Text → Option (Body Json))
    : List (Delivery × SqsMessage) → List (AuditLog (Details Json)) → Type 0 where
  done : Audits parse [] []
  passed :
      (d : Delivery) (m : SqsMessage) {ms : List (Delivery × SqsMessage)}
      {new : List (AuditLog (Details Json))}
      → Audits parse ms new
      → Audits parse ((d, m) ∷ ms) new
  audited :
      (d : Delivery) (m : SqsMessage) (body : Body Json) {ms : List (Delivery × SqsMessage)}
      {new : List (AuditLog (Details Json))}
      → IsAdvice parse m body
      → d.writing.fails ≡ false
      → Audits parse ms new
      → Audits parse ((d, m) ∷ ms) (log_of d m body ∷ new)

module _ {Json : Type 0} (parse : Text → Option (Body Json)) (save : Save) where
  -- One message leaves the audit log as it is, or adds its row.
  abbrev IsStep : Delivery → SqsMessage → World Json → World Json → Type 0
  IsStep d m w w' =
      (w'.audit_logs ≡ w.audit_logs)
      ⊎ ((body : Body Json) × IsAdvice parse m body
          × (d.writing.fails ≡ false)
          × (w'.audit_logs ≡ w.audit_logs ++ log_of d m body ∷ []))

  settle-IsStep :
      (d : Delivery) (m : SqsMessage) (body : Body Json) (event_type : Text) (w : World Json)
      (inbox : List InboxMessage)
      → parse (text_or m.body (codes "{}")) ≡ some body
      → event_type ≡ text_or body.type (text_or body.event_type [])
      → is_empty (tenant_of body) ≡ false
      → IsStep d m w (
          settle d m.receipt_handle
            (inbox_id (tenant_of body) (event_id_of m body))
            (record w { inbox = inbox })
            (ok (
              handle d body event_type
                (event_id_of m body)
                (record w { inbox = inbox })
                (some (tenant_of body)))))
  unfolding settle
  settle-IsStep d m body event_type w inbox parsed typed filled =
      elim (Bool-cases (text_eq event_type advice_generated)) [
        | inr other ↦ inl (
            rw (handle-other d body event_type (event_id_of m body) (tenant_of body) reserved other)
              (delete_message-logs d m.receipt_handle reserved))
        | inl same ↦
            let t : event_type ≡ advice_generated =
              (text_eq_iff event_type advice_generated).0 same in
            rw t (
              rw (handle-advice d m body reserved filled)
                (elim (settle-logs d.writing.fails d m.receipt_handle
                  (inbox_id (tenant_of body) (event_id_of m body)) reserved
                  (record reserved { audit_logs = w.audit_logs ++ log_of d m body ∷ [] })) [
                    | inl (fails, same) ↦ inl same
                    | inr (works, added) ↦ inr (
                      body,
                      record { parsed = parsed; typed = sym typed ∙ t; filled = filled },
                      works,
                      added,
                    )
                  ]))
      ]
    where
      reserved : World Json
      reserved = record w { inbox = inbox }

  process_body-IsStep :
      (d : Delivery) (m : SqsMessage) (body : Body Json) (w : World Json)
      → parse (text_or m.body (codes "{}")) ≡ some body
      → IsStep d m w (process_body parse save d m body w)
  unfolding process_body process_for process_reserved
  process_body-IsStep d m body w parsed =
      elim (Bool-cases (is_empty (text_or body.type (text_or body.event_type [])))) [
        | inl untyped ↦ inl (rw untyped (delete_message-logs d m.receipt_handle w))
        | inr typed ↦ elim (Bool-cases (is_empty (tenant_of body))) [
          | inl unnamed ↦ inl (rw typed (rw unnamed (delete_message-logs d m.receipt_handle w)))
          | inr named ↦
              elim (Option-cases (
                reserve parse save d (inbox_id (tenant_of body) (event_id_of m body))
                  (tenant_of body) w.inbox)) [
                    | inl refused ↦ inl (
                        rw typed (rw named (rw refused (delete_message-logs d m.receipt_handle w))))
                    | inr (inbox, reserved) ↦ rw typed (
                        rw named (
                          rw reserved (
                            rw
                              (run-sanitized (text_or body.tenant_id (codes "default"))
                                (handle d body (text_or body.type (text_or body.event_type []))
                                  (event_id_of m body) (record w { inbox = inbox }))
                                named)
                              (settle-IsStep d m body _ w inbox parsed refl named))))
                  ]
        ]
      ]

  -- The audit log after some messages: what it held, then rows that the messages come to.
  abbrev pub IsGrown :
      List (Delivery × SqsMessage)
      → List (AuditLog (Details Json))
      → List (AuditLog (Details Json))
      → Type 0
  IsGrown ms logs logs' =
      (new : List (AuditLog (Details Json))) × (logs' ≡ logs ++ new) × Audits parse ms new

  all_passed : (ms : List (Delivery × SqsMessage)) → Audits parse ms []
  all_passed [] = done
  all_passed ((d, m) ∷ ms) = passed d m (all_passed ms)

  Audits-append :
      (ms ms' : List (Delivery × SqsMessage)) {new new' : List (AuditLog (Details Json))}
      → Audits parse ms new
      → Audits parse ms' new'
      → Audits parse (ms ++ ms') (new ++ new')
  Audits-append _ ms' done b = b
  Audits-append ((d, m) ∷ ms) ms' (passed _ _ a) b = passed d m (Audits-append ms ms' a b)
  Audits-append ((d, m) ∷ ms) ms' (audited _ _ body i works a) b =
      audited d m body i works (Audits-append ms ms' a b)

  step-IsGrown :
      (d : Delivery) (m : SqsMessage) (ms : List (Delivery × SqsMessage)) (w w' : World Json)
      (logs : List (AuditLog (Details Json)))
      → IsStep d m w w'
      → IsGrown ms w'.audit_logs logs
      → IsGrown ((d, m) ∷ ms) w.audit_logs logs
  step-IsGrown d m ms w w' logs (inl same) (new, grown, a) =
      (new, grown ∙ ap (λ t. t ++ new) same, passed d m a)
  step-IsGrown d m ms w w' logs (inr (body, advice, works, added)) (new, grown, a) = (
    log_of d m body ∷ new,
    grown ∙ ap (λ t. t ++ new) added ∙ append_snoc w.audit_logs (log_of d m body) new,
    audited d m body advice works a,
  )

  process_all-IsGrown :
      (ms : List (Delivery × SqsMessage)) (w : World Json)
      → IsGrown ms w.audit_logs (process_all parse save ms w).0.audit_logs
  unfolding process_all process_message
  process_all-IsGrown [] w = ([], sym (append_nil w.audit_logs), done)
  process_all-IsGrown ((d, m) ∷ ms) w = elim (Option-cases (parse (text_or m.body (codes "{}")))) [
    | inl broken ↦
        rw (process_all, broken) ([], sym (append_nil w.audit_logs), all_passed ((d, m) ∷ ms))
    | inr (body, parsed) ↦
        rw (process_all, parsed)
          (step-IsGrown d m ms w (process_body parse save d m body w) _
            (process_body-IsStep d m body w parsed)
            (process_all-IsGrown ms (process_body parse save d m body w)))
  ]

  -- Over any run of the loop, with any failures and whatever `save` does with an id that is there,
  -- the audit log keeps what it held and grows only at its end, by at most one row for each message
  -- that is received, in their order: the row of the event and the cleaned tenant of that message,
  -- and only where it announces advice.
  pub poll_loop-IsGrown :
      (responses : List (Option (List (Delivery × SqsMessage)))) (w : World Json)
      → IsGrown (received responses) w.audit_logs (poll_loop parse save responses w).audit_logs
  unfolding poll_loop
  poll_loop-IsGrown [] w = ([], sym (append_nil w.audit_logs), done)
  poll_loop-IsGrown (none ∷ responses) w = poll_loop-IsGrown responses w
  poll_loop-IsGrown (some ms ∷ responses) w =
      let w' = (process_all parse save ms w).0 in
      let (new, grown, a) = process_all-IsGrown ms w in
      let (new', grown', a') = poll_loop-IsGrown responses w' in
      (
        new ++ new',
        grown' ∙ ap (λ t. t ++ new') grown ∙ append_assoc w.audit_logs new new',
        Audits-append ms (received responses) a a',
      )
