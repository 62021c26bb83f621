-- ===== src/Tests/Idempotency.antt =====
-- The theorems on idempotency keys at concrete inputs.
use bravi_ai.Idempotency.Keys.{handle_request, can_activate, processing_limit, key_by}
use bravi_ai.Idempotency.Once.{handled_once, failed_key_reopens, refusal, LeavesKeys, entered}
use bravi_ai.Ingestion.Ingest.{
  IngestMessage, queue_for_qualification, is_redelivered, inbound_message,
}
use bravi_ai.Enquiry.Manage.{assign}
use bravi_ai.Data.{MessageChannel, InboundMessage, QualificationStatus}
use bravi_ai.Exec.{Exec, ok, err, not_found, conflict}
use bravi_ai.Prelude.{some, none, ◌≡◌, refl, arith, find_first, if◌then◌else◌, ltb, ◌+◌}
use bravi_ai.Tests.Sample.{world, env, later}

abbrev hello : IngestMessage
hello = record {
  channel = MessageChannel.whatsapp;
  display_name = none;
  external_id = some "wamid.1";
  from = "+4912345";
  to = none;
  subject = none;
  body = "Hello";
}

abbrev receive_hello : Exec InboundMessage
receive_hello = queue_for_qualification env hello 1

new_here : find_first (key_by "WHATSAPP:wamid.1") world.idempotency_keys ≡ none
unfolding find_first
new_here = refl

hello_keys : LeavesKeys receive_hello
unfolding queue_for_qualification
hello_keys s = ground arith

hello_received :
    (receive_hello (entered env "WHATSAPP:wamid.1" "h1" world)).0
    ≡ ok (inbound_message env hello QualificationStatus.pending 1)
unfolding queue_for_qualification is_redelivered find_first
hello_received = refl

handled_once_example :
    let (r, t) = handle_request env (some "WHATSAPP:wamid.1") "h1" receive_hello world in
    (r ≡ ok (inbound_message env hello QualificationStatus.pending 1))
    × (handle_request later (some "WHATSAPP:wamid.1") "h1" receive_hello t
        ≡ (err (refusal "h1" "h1"), t))
handled_once_example =
    handled_once env "WHATSAPP:wamid.1" "h1" world receive_hello
      (inbound_message env hello QualificationStatus.pending 1) refl new_here hello_keys
      hello_received later "h1" receive_hello

assign_keys : LeavesKeys (assign env 99 "u1" 1)
unfolding assign
assign_keys s = ground arith

assign_fails : (assign env 99 "u1" 1 (entered env "K" "h1" world)).0 ≡ err not_found
unfolding assign find_first
assign_fails = refl

new_key_here : find_first (key_by "K") world.idempotency_keys ≡ none
unfolding find_first
new_key_here = refl

failed_key_reopens_example :
    let (r, t) = handle_request env (some "K") "h1" (assign env 99 "u1" 1) world in
    (r ≡ err not_found)
    × (can_activate later (some "K") "h1" t
        ≡ (if ltb (1000 + processing_limit) 2000 then ok tt else err conflict, t))
failed_key_reopens_example =
    failed_key_reopens env "K" "h1" world (assign env 99 "u1" 1) not_found refl new_key_here
      assign_keys assign_fails later
