-- ===== src/Qualification/Qualify.antt =====
-- qualify of backend/src/modules/qualification/qualification.service.ts, with classify and its fallback
-- from backend/src/ai/qualification.client.ts. What the AI service answers, if it does, is an
-- argument, and so is the database's refusal of the transaction, if it refuses. The costs and times
-- that are only recorded, and the texts of errors within the reasons, are left out.
use bravi_ai.Enquiry.Qualified.{intents, intent_named}
use bravi_ai.Prelude.{
  ℕ, Bool, true, false, not, ◌&&◌, String, Option, none, some, ◌∷◌, ◌==◌, leb, is_some,
  if◌then◌else◌, find_first, update_where,
}
use bravi_ai.Data.{
  Contact, InboundMessage, QualificationResult, QualificationStatus, World, enquiry_qualified,
}
use bravi_ai.Exec.{
  Exec, Exception, pure, throw, reads, writes, found, transaction, emit, catches, ◌>>=◌, ◌>>◌,
  not_found, record_missing,
}
use bravi_ai.Store.{contact_by, find_inbound, truthy}

pub record AiClassification : Type 0 where
  pub is_lead : Bool
  pub confidence : ℕ
  pub intent : String
  pub urgency : ℕ
  pub priority : ℕ
  pub reason : String
  pub contact_name : Option String

-- safeFallback
abbrev pub safe_fallback : AiClassification
safe_fallback = record {
  is_lead = false;
  confidence = 0;
  intent = "UNKNOWN";
  urgency = 3;
  priority = 5;
  reason = "AI service unreachable. Sent to manual review.";
  contact_name = none;
}

abbrev pub classify : Option AiClassification → AiClassification
classify none = safe_fallback
classify (some a) = a

unfoldable pub final_status : (threshold : ℕ) → AiClassification → QualificationStatus
final_status threshold a =
    if a.confidence == 0
    then QualificationStatus.needs_review
    else if a.is_lead && leb threshold a.confidence
    then QualificationStatus.real_enquiry
    else if not a.is_lead && leb 70 a.confidence
    then QualificationStatus.spam
    else QualificationStatus.needs_review

abbrev pub is_waiting : QualificationStatus → Bool
is_waiting QualificationStatus.pending = true
is_waiting QualificationStatus.processing = true
is_waiting _ = false

abbrev pub is_review : QualificationStatus → Bool
is_review QualificationStatus.needs_review = true
is_review _ = false

abbrev pub inbound_by : ℕ → InboundMessage → Bool
inbound_by id m = m.id == id

abbrev pub set_status : QualificationStatus → InboundMessage → InboundMessage
set_status status m = record m { status = status }

-- inboundMessage.update
abbrev pub update_status : ℕ → QualificationStatus → Exec (Unit {0})
update_status id status = do
  row ← find_inbound id
  m ← found row record_missing
  writes λ s. record s { inbox = update_where (inbound_by id) (set_status status) s.inbox }

abbrev pub result_by : ℕ → QualificationResult → Bool
result_by id r = r.inbound_message_id == id

abbrev pub find_result : ℕ → World → Option QualificationResult
find_result id s = find_first (result_by id) s.qualification_results

abbrev pub rule_reason_for : QualificationStatus → Bool → Option String
rule_reason_for status is_lead =
    if is_review status && not is_lead
    then some "AI did not find strong lead intent; routed to manual review to avoid message loss."
    else none

-- The row that the upsert creates.
abbrev pub result_row : ℕ → QualificationStatus → AiClassification → QualificationResult
result_row id status a = record {
  inbound_message_id = id;
  final_status = status;
  rule_reason = rule_reason_for status a.is_lead;
  sent_to_ai = true;
  ai_confidence = some a.confidence;
  ai_reason = some a.reason;
  intent = some (intent_named intents a.intent);
  urgency = some a.urgency;
  priority = some a.priority;
}

-- Its update sets every column but the key.
abbrev pub revise_result :
    QualificationStatus → AiClassification → QualificationResult → QualificationResult
revise_result status a r = result_row r.inbound_message_id status a

abbrev pub upsert_result :
    ℕ
    → (create : QualificationResult) → (update : QualificationResult → QualificationResult)
    → Exec (Unit {0})
upsert_result id create update = writes λ s. record s {
  qualification_results =
      if is_some (find_result id s)
      then update_where (result_by id) update s.qualification_results
      else create ∷ s.qualification_results;
}

-- The name from the message; a contact that is gone is only logged.
abbrev pub set_name : String → Contact → Contact
set_name name c = record c { display_name = name }

abbrev pub rename_contact : Option String → Option ℕ → Exec (Unit {0})
rename_contact none contact_id = pure tt
rename_contact (some name) none = pure tt
rename_contact (some name) (some id) =
    writes λ s. record s { contacts = update_where (contact_by id) (set_name name) s.contacts }

abbrev pub announce_lead : InboundMessage → AiClassification → QualificationStatus → Exec (Unit {0})
announce_lead m a QualificationStatus.real_enquiry =
    emit (enquiry_qualified m.id m.contact_id a.intent a.urgency a.priority)
announce_lead m a _ = pure tt

abbrev pub refuse : Option Exception → Exec (Unit {0})
refuse none = pure tt
refuse (some e) = throw e

-- The body of the `try`.
abbrev pub settle :
    Option Exception → InboundMessage → AiClassification → QualificationStatus → Exec (Unit {0})
settle refused m a status = do
  rename_contact (truthy a.contact_name) m.contact_id
  transaction do
    upsert_result m.id (result_row m.id status a) (revise_result status a)
    update_status m.id status
    refuse refused
  announce_lead m a status

abbrev pub failed_row : ℕ → QualificationResult
failed_row id = record {
  inbound_message_id = id;
  final_status = QualificationStatus.needs_review;
  rule_reason = some "Error";
  sent_to_ai = false;
  ai_confidence = none;
  ai_reason = none;
  intent = none;
  urgency = none;
  priority = none;
}

abbrev pub fail_result : QualificationResult → QualificationResult
fail_result r = record r {
  final_status = QualificationStatus.needs_review;
  rule_reason = some "Error";
  sent_to_ai = false;
}

-- The `catch`.
abbrev pub to_review : ℕ → Exec (Unit {0})
to_review id = transaction do
  update_status id QualificationStatus.needs_review
  upsert_result id (failed_row id) fail_result

abbrev pub is_finalized : InboundMessage → Option QualificationResult → Bool
is_finalized m result = is_some result && not (is_waiting m.status)

abbrev pub classify_message :
    ℕ → Option AiClassification → Option Exception → InboundMessage → Exec (Unit {0})
classify_message threshold answer refused m = do
  update_status m.id QualificationStatus.processing
  catches (settle refused m (classify answer) (final_status threshold (classify answer)))
      (to_review m.id)

abbrev pub qualify_unless :
    ℕ → Option AiClassification → Option Exception → InboundMessage → Bool → Exec (Unit {0})
qualify_unless threshold answer refused m true = pure tt
qualify_unless threshold answer refused m false = classify_message threshold answer refused m

unfoldable pub qualify :
    (threshold : ℕ)
    → (answer : Option AiClassification) → (refused : Option Exception) → ℕ
    → Exec (Unit {0})
unfolding final_status
qualify threshold answer refused id = do
  row ← find_inbound id
  m ← found row not_found
  result ← reads (find_result id)
  qualify_unless threshold answer refused m (is_finalized m result)
