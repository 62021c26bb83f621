-- ===== src/Tests/Qualification.antt =====
-- The qualification theorems at concrete inputs.
use bravi_ai.Text.{to_lower_case, trim}
use bravi_ai.Contact.Resolve.{resolve, normalize_identifier, has_channel}
use bravi_ai.Exec.{ok}
use bravi_ai.Ingestion.Paths.{Refuses}
use bravi_ai.Tests.Sample.{world, env, later}
use bravi_ai.Qualification.Journey.{journey, Kept, journey-Kept}
use bravi_ai.Enquiry.Unique.{UniqueIds}
use bravi_ai.Qualification.Settled.{Settles, outcome, qualify-Settles, qualify_once}
use bravi_ai.Prelude.{find_first, true, none, some, ◌≡◌, refl, false, ◌⊎◌}
use bravi_ai.Data.{InboundMessage, World, MessageChannel, QualificationStatus}
use bravi_ai.Qualification.Qualify.{
  AiClassification, qualify, inbound_by, is_finalized, find_result,
}
use bravi_ai.Ingestion.Ingest.{
  IngestMessage, ingest, route, queue_for_qualification, latest_updated, is_redelivered,
}

-- A customer that is not known yet.
abbrev new_mail : IngestMessage
new_mail = record {
  channel = MessageChannel.email;
  display_name = some "Ben";
  external_id = some "<b1@y.io>";
  from = "ben@y.io";
  to = none;
  subject = none;
  body = "Price of 3 mm wire?";
}

abbrev lead : AiClassification
lead = record {
  is_lead = true;
  confidence = 90;
  intent = "PRICING_REQUEST";
  urgency = 3;
  priority = 5;
  reason = "asks for a price";
  contact_name = some "Ben B.";
}

abbrev stored : InboundMessage
stored = record {
  id = 50;
  channel = MessageChannel.email;
  external_id = some "<b1@y.io>";
  from = "ben@y.io";
  to = none;
  subject = none;
  body = "Price of 3 mm wire?";
  status = QualificationStatus.pending;
  contact_id = some 50;
}

abbrev arrived : World
arrived = (ingest env new_mail world).1

arrived_stored : find_first (inbound_by 50) arrived.inbox ≡ some stored
unfolding find_first ingest resolve to_lower_case trim route queue_for_qualification
    normalize_identifier has_channel latest_updated is_redelivered
arrived_stored = refl

arrived_new : is_finalized stored (find_result 50 arrived) ≡ false
unfolding find_first ingest resolve to_lower_case trim route queue_for_qualification
    normalize_identifier has_channel latest_updated is_redelivered
arrived_new = refl

unique_world : UniqueIds world.enquiries
unfolding find_first
unique_world = (refl, tt)

qualify-Settles_example :
    Settles stored lead
      (outcome 50 (some lead) none)
      arrived
      (qualify 50 (some lead) none 50 arrived)
qualify-Settles_example =
    qualify-Settles stored arrived 50 (some lead) none arrived_stored arrived_new

qualify_once_example :
    qualify 70 none none 50 (qualify 50 (some lead) none 50 arrived).1
    ≡ (ok tt, (qualify 50 (some lead) none 50 arrived).1)
qualify_once_example = qualify_once stored arrived 50 70 (some lead) none none none arrived_stored

journey-Kept_example :
    let r = journey env later 50 (some lead) none new_mail world in
    ((is_redelivered new_mail.channel new_mail.external_id world.inbox ≡ true) × Refuses world r)
    ⊎ ((is_redelivered new_mail.channel new_mail.external_id world.inbox ≡ false)
        × ((raw : InboundMessage) × (r.0 ≡ ok raw)
            × (raw.body ≡ "Price of 3 mm wire?")
            × Kept raw (some lead) world.messages r.1))
journey-Kept_example = journey-Kept env later 50 (some lead) none new_mail world unique_world
