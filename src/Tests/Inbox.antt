-- ===== src/Tests/Inbox.antt =====
-- The enquiry and ingestion theorems at concrete inputs.
use bravi_ai.Contact.Resolve.{resolve, normalize_identifier, has_channel}
use bravi_ai.Ingestion.Paths.{Waits, Joins, Refuses, ingest_records}
use bravi_ai.Inbox.OneOpen.{SparesClosed, step-OneOpen, reopening_adds}
use bravi_ai.Enquiry.OpenCount.{open_count, OneOpen}
use bravi_ai.Inbox.Numbers.{step-IsNumbered}
use bravi_ai.Exec.{ok, err, not_unique}
use bravi_ai.Enquiry.Status.{includes, transitions}
use bravi_ai.Store.{enquiry_by, contact_by, stamp}
use bravi_ai.Inbox.Sequence.{IsNumbered}
use bravi_ai.Inbox.Concurrency.{IsRefused, second_write-IsRefused}
use bravi_ai.Inbox.Command.{step, change_status, receive, write_note, step-Change}
use bravi_ai.Enquiry.Unique.{UniqueIds, Change-UniqueIds}
use bravi_ai.Inbox.History.{Reach, Continues, next, Reach-Continues, here}
use bravi_ai.Enquiry.Lifecycle.{Change}
use bravi_ai.Text.{to_lower_case, trim}
use bravi_ai.Ingestion.Ingest.{
  append_to_existing, route, status_on_reply, latest_updated, IngestMessage, ingest, is_redelivered,
}
use bravi_ai.Prelude.{
  find_first, refl, update_where, arith, none, ◌≡◌, some, ◌⊎◌, ◌∷◌, ◌+◌, true, false, find_many,
}
use bravi_ai.Data.{World, EnquiryStatus, Enquiry, MessageChannel, InboundMessage}
use bravi_ai.Enquiry.Manage.{ChangeStatus, status_change, assign, change}
use bravi_ai.Tests.Sample.{world, enquiry, env, later}

abbrev convert : ChangeStatus
convert = record { status = EnquiryStatus.converted; version = 3; lost_reason = none }

abbrev sold : World
sold = step env (change_status 10 convert (some "u1")) world

abbrev sold_row : Enquiry
sold_row = record enquiry {
  status = EnquiryStatus.converted;
  version = 4;
  last_activity_at = 1000;
  updated_at = 1000;
}

unique_world : UniqueIds world.enquiries
unfolding find_first
unique_world = (refl, tt)

fresh : find_first (enquiry_by env.row_id) world.enquiries ≡ none
unfolding find_first
fresh = refl

fresh_sold : find_first (enquiry_by later.row_id) sold.enquiries ≡ none
unfolding find_first step status_change update_where includes transitions
fresh_sold = refl

convert_ok : (status_change env 10 convert (some "u1") world).0 ≡ ok sold_row
unfolding status_change find_first includes transitions
convert_ok = refl

mail : IngestMessage
mail = record {
  channel = MessageChannel.email;
  display_name = none;
  external_id = some "<a1@x.io>";
  from = " Ana@X.io";
  to = none;
  subject = none;
  body = "Any news?";
}

step-Change_example : Change env.row_id world.enquiries (step env (receive mail) world).enquiries
step-Change_example = step-Change env (receive mail) world unique_world fresh

history : Reach 10 sold (step later (write_note 10 "call" "u1") sold)
history = next later (write_note 10 "call" "u1") here fresh_sold (λ e. absurd (omega arith))

history_from_start :
    Reach 10 world (
      step later
        (write_note 10 "call" "u1")
        (step env (change_status 10 convert (some "u1")) world))
history_from_start =
    next later (write_note 10 "call" "u1")
      (next env (change_status 10 convert (some "u1")) here fresh (λ e. absurd (omega arith)))
      fresh_sold (λ e. absurd (omega arith))

found_enquiry : find_first (enquiry_by 10) world.enquiries ≡ some enquiry
unfolding find_first
found_enquiry = refl

Reach-Continues_example :
    Continues enquiry
      (find_first (enquiry_by 10) (step later (write_note 10 "call" "u1") sold).enquiries)
Reach-Continues_example = Reach-Continues 10 enquiry unique_world history_from_start found_enquiry

unique_sold : UniqueIds sold.enquiries
unique_sold =
    Change-UniqueIds
      (step-Change env (change_status 10 convert (some "u1")) world unique_world fresh) unique_world

found_sold : find_first (enquiry_by 10) sold.enquiries ≡ some sold_row
unfolding find_first step status_change update_where includes transitions
found_sold = refl

second_write-IsRefused_example :
    IsRefused (status_change later 10 convert none sold) sold
    × IsRefused (assign later 10 "u1" 3 sold) sold
unfolding step
second_write-IsRefused_example =
    second_write-IsRefused env 10 convert (some "u1") world sold_row unique_world convert_ok here
      later convert none "u1" refl

assign_ok :
    (assign env 10 "u1" 3 world).0
    ≡ ok (record enquiry {
      assigned_to_id = some "u1";
      version = 4;
      last_activity_at = 1000;
      updated_at = 1000;
    })
unfolding assign find_first
assign_ok = refl

world-IsNumbered : IsNumbered world.contacts world.messages
unfolding find_first
world-IsNumbered = (omega arith, tt, tt)

fresh_contact : find_first (contact_by env.row_id) world.contacts ≡ none
unfolding find_first
fresh_contact = refl

step-IsNumbered_example :
    IsNumbered (step env (receive mail) world).contacts (step env (receive mail) world).messages
step-IsNumbered_example = step-IsNumbered env (receive mail) world fresh_contact world-IsNumbered

one_open : OneOpen world.enquiries
unfolding open_count
one_open c = ground arith

spares_closed : SparesClosed world (change_status 10 convert (some "u1"))
unfolding SparesClosed find_first
spares_closed e p q = ground arith

step-OneOpen_example : OneOpen (step env (change_status 10 convert (some "u1")) world).enquiries
step-OneOpen_example =
    step-OneOpen env (change_status 10 convert (some "u1")) world unique_world spares_closed
      one_open

abbrev lost : Enquiry
lost = record enquiry { id = 11; status = EnquiryStatus.closed_lost; version = 5 }

abbrev two_enquiries : World
two_enquiries = record world { enquiries = lost ∷ world.enquiries }

unique_two : UniqueIds two_enquiries.enquiries
unfolding find_first
unique_two = (refl, (refl, tt))

found_lost : find_first (enquiry_by 11) two_enquiries.enquiries ≡ some lost
unfolding find_first
found_lost = refl

abbrev reopening : ChangeStatus
reopening = record { status = EnquiryStatus.open_; version = 5; lost_reason = none }

reopening_adds_example :
    ((status_change env 11 reopening none two_enquiries).0
      ≡ ok (stamp env.now (change env.now reopening) lost))
    × (open_count 1 (status_change env 11 reopening none two_enquiries).1.enquiries
        ≡ open_count 1 two_enquiries.enquiries + 1)
reopening_adds_example =
    reopening_adds env 11 reopening none two_enquiries lost unique_two found_lost refl refl refl

ingest_records_example :
    let r = ingest env mail world in
    ((is_redelivered mail.channel mail.external_id world.inbox ≡ true) × Refuses world r)
    ⊎ ((is_redelivered mail.channel mail.external_id world.inbox ≡ false)
        × ((raw : InboundMessage) × (r.0 ≡ ok raw)
            × (r.1.inbox ≡ raw ∷ world.inbox)
            × (raw.body ≡ mail.body)
            × (Waits world r.1 raw ⊎ Joins mail world r.1 raw)))
ingest_records_example = ingest_records env mail world unique_world

-- The second delivery of a message is refused.
redelivered : (ingest later mail (ingest env mail world).1).0 ≡ err not_unique
unfolding find_first ingest resolve to_lower_case trim route append_to_existing normalize_identifier
    has_channel latest_updated is_redelivered mail find_many update_where status_on_reply
redelivered = refl
