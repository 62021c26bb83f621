-- ===== src/Qualification/Settled.antt =====
-- What qualify of backend/src/modules/qualification/qualification.service.ts leaves of a message: it
-- is settled, and settled once.
use bravi_ai.Qualification.Writes.{
  SameContacts, rename_contact-ok, find-update_status, upsert-found,
}
use bravi_ai.Store.{truthy}
use bravi_ai.Exec.{ok, Exception, Result, catches}
use bravi_ai.Qualification.Qualify.{
  inbound_by, find_result, set_status, AiClassification, announce_lead, final_status, classify,
  settle, to_review, result_row, failed_row, revise_result, fail_result, qualify, is_waiting,
  is_finalized,
}
use bravi_ai.Data.{
  QualificationStatus, QualificationResult, World, InboundMessage, Event, enquiry_qualified,
}
use bravi_ai.Prelude.{
  ℕ, List, find_first, ◌≡◌, true, some, update_where, inl, inr, refl, Option, none, ◌∷◌, ==_refl,
  false, Bool-cases, arith,
}

-- The status that the message gets.
abbrev pub outcome : ℕ → Option AiClassification → Option Exception → QualificationStatus
outcome threshold answer none = final_status threshold (classify answer)
outcome threshold answer (some e) = QualificationStatus.needs_review

-- The message has a status that its stored result confirms.
abbrev pub IsSettled : InboundMessage → QualificationStatus → World → Type 0
IsSettled m status t =
    (find_first (inbound_by m.id) t.inbox ≡ some (set_status status m))
    × ((r : QualificationResult) × (find_result m.id t ≡ some r) × (r.final_status ≡ status))

abbrev pub lead_events :
    InboundMessage → AiClassification → QualificationStatus → List Event → List Event
lead_events m a QualificationStatus.real_enquiry events =
    enquiry_qualified m.id m.contact_id a.intent a.urgency a.priority ∷ events
lead_events m a _ events = events

announce_lead-ok :
    (m : InboundMessage) (a : AiClassification) (status : QualificationStatus) (s : World)
    → announce_lead m a status s ≡ (ok tt, record s { events = lead_events m a status s.events })
announce_lead-ok m a QualificationStatus.real_enquiry s = refl
announce_lead-ok m a QualificationStatus.spam s = refl
announce_lead-ok m a QualificationStatus.needs_review s = refl
announce_lead-ok m a QualificationStatus.pending s = refl
announce_lead-ok m a QualificationStatus.processing s = refl
announce_lead-ok m a QualificationStatus.reviewed_approved s = refl
announce_lead-ok m a QualificationStatus.reviewed_rejected s = refl

-- What a qualification that is not skipped does: the message is settled, the lead is announced, and
-- no conversation changes.
abbrev pub Settles :
    InboundMessage
    → AiClassification
    → QualificationStatus
    → World
    → Result (Unit {0}) × World
    → Type 0
Settles m a status s r =
    (r.0 ≡ ok tt)
    × IsSettled m status r.1
    × (r.1.events ≡ lead_events m a status s.events)
    × (r.1.messages ≡ s.messages)
    × (r.1.enquiries ≡ s.enquiries)
    × SameContacts s.contacts r.1.contacts

module _ (m : InboundMessage) (s : World) (q : QualificationStatus)
    (here : find_first (inbound_by m.id) s.inbox ≡ some (set_status q m)) where
  settle-Settles :
      (a : AiClassification) (status : QualificationStatus)
      → Settles m a status s (catches (settle none m a status) (to_review m.id) s)
  settle-Settles a status =
      let (cs, e, same) = rename_contact-ok (truthy a.contact_name) m.contact_id s in
      rw (e, here, announce_lead-ok m a status)
        (
          refl,
          (
            find-update_status m.id status s.inbox (set_status q m) here,
            upsert-found m.id (result_row m.id status a) (revise_result status a) status s
                (==_refl m.id) (λ r. refl) refl (λ r. refl),
          ),
          refl,
          refl,
          refl,
          same,
        )

  review-Settles :
      (a : AiClassification) (status : QualificationStatus) (x : Exception)
      → Settles m a QualificationStatus.needs_review s
          (catches (settle (some x) m a status) (to_review m.id) s)
  review-Settles a status x =
      let (cs, e, same) = rename_contact-ok (truthy a.contact_name) m.contact_id s in
      rw (e, here, here)
        (
          refl,
          (
            find-update_status m.id QualificationStatus.needs_review s.inbox (set_status q m) here,
            upsert-found m.id (failed_row m.id) fail_result QualificationStatus.needs_review s
                (==_refl m.id) (λ r. refl) refl (λ r. refl),
          ),
          refl,
          refl,
          refl,
          same,
        )

  attempt-Settles :
      (threshold : ℕ) (answer : Option AiClassification) (refused : Option Exception)
      → Settles m (classify answer) (outcome threshold answer refused) s (
          catches
            (settle refused m (classify answer) (final_status threshold (classify answer)))
            (to_review m.id)
            s)
  attempt-Settles threshold answer none =
      settle-Settles (classify answer) (final_status threshold (classify answer))
  attempt-Settles threshold answer (some x) =
      review-Settles (classify answer) (final_status threshold (classify answer)) x

-- The qualification of a stored message that has no final result, whatever the AI service answers
-- and whether or not the database refuses the result, returns normally and settles the message: its
-- status is the outcome, a stored result says the same, 'enquiry.qualified' is emitted if and only
-- if that is REAL_ENQUIRY, and the conversations and enquiries are as they were.
pub qualify-Settles :
    (m : InboundMessage) (s : World) (threshold : ℕ) (answer : Option AiClassification)
    (refused : Option Exception)
    → find_first (inbound_by m.id) s.inbox ≡ some m
    → is_finalized m (find_result m.id s) ≡ false
    → Settles m
        (classify answer)
        (outcome threshold answer refused)
        s
        (qualify threshold answer refused m.id s)
unfolding qualify
qualify-Settles m s threshold answer refused here new =
    rw (here, new, here)
      (attempt-Settles m
        (record s {
          inbox =
              update_where (inbound_by m.id) (set_status QualificationStatus.processing) s.inbox;
        })
        QualificationStatus.processing
        (find-update_status m.id QualificationStatus.processing s.inbox m here) threshold answer
        refused)

outcome-final :
    (threshold : ℕ) (answer : Option AiClassification) (refused : Option Exception)
    → is_waiting (outcome threshold answer refused) ≡ false
unfolding final_status
outcome-final threshold answer none = ground arith
outcome-final threshold answer (some x) = refl

-- A settled message is skipped.
skipped :
    (m : InboundMessage) (s : World) (threshold : ℕ) (answer : Option AiClassification)
    (refused : Option Exception)
    → find_first (inbound_by m.id) s.inbox ≡ some m
    → is_finalized m (find_result m.id s) ≡ true
    → qualify threshold answer refused m.id s ≡ (ok tt, s)
unfolding qualify
skipped m s threshold answer refused here old = rw (here, old) refl

-- Qualifying a stored message a second time, with whatever answer, does nothing.
pub qualify_once :
    (m : InboundMessage) (s : World) (threshold threshold2 : ℕ)
    (answer answer2 : Option AiClassification) (refused refused2 : Option Exception)
    → find_first (inbound_by m.id) s.inbox ≡ some m
    → let t = (qualify threshold answer refused m.id s).1 in
      qualify threshold2 answer2 refused2 m.id t ≡ (ok tt, t)
qualify_once m s threshold threshold2 answer answer2 refused refused2 here =
    elim (Bool-cases (is_finalized m (find_result m.id s))) [
      | inl old ↦
          rw (skipped m s threshold answer refused here old)
            (skipped m s threshold2 answer2 refused2 here old)
      | inr new ↦
          let (a, (b, (r, c, d)), e, f, g, h) =
            qualify-Settles m s threshold answer refused here new in
          skipped (set_status (outcome threshold answer refused) m) _ threshold2 answer2 refused2 b
            (rw (c, outcome-final threshold answer refused) refl)
    ]
