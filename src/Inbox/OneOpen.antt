-- ===== src/Inbox/OneOpen.antt =====
-- Every call of the enquiry and ingestion services against the rule of handleQualified in
-- backend/src/modules/enquiry/enquiry.service.ts: a contact with an open enquiry gets no other.
use bravi_ai.Ingestion.OneOpen.{ingest-OneOpen}
use bravi_ai.Exec.{ok}
use bravi_ai.Enquiry.OneOpen.{
  create-OneOpen, status_change-count, assign-count, update_tags-count, send_message-count,
  add_outbound_message-count, add_ai_reply-count, maybe_transition_on_outbound-count,
  add_note-count, handle_qualified-OneOpen, remove-count, bulk_delete-count,
}
use bravi_ai.Store.{stamp, enquiry_by}
use bravi_ai.Enquiry.Status.{includes, transitions}
use bravi_ai.Enquiry.Unique.{UniqueIds}
use bravi_ai.Enquiry.Manage.{status_change, ChangeStatus, change}
use bravi_ai.Data.{Env, Enquiry, World, EnquiryStatus}
use bravi_ai.Enquiry.OpenCount.{open_count, OneOpen, count_update}
use bravi_ai.Inbox.Command.{
  Command, step, change_status, create_enquiry, assign_to, set_tags, send, send_outbound, send_ai,
  outbound_done, write_note, qualify, delete_one, delete_many, receive,
}
use bravi_ai.Prelude.{ℕ, ◌≡◌, Option, find_first, some, String, ◌≢◌, arith, update_where, ◌+◌}

-- The call is not a status change of a CLOSED_LOST enquiry.
unfoldable pub SparesClosed : World → Command → Type 0
SparesClosed s (change_status id dto u) =
    (e : Enquiry)
    → find_first (enquiry_by id) s.enquiries ≡ some e
    → e.status ≢ EnquiryStatus.closed_lost
SparesClosed s _ = Unit {0}

-- No call but a status change of a CLOSED_LOST enquiry gives a contact a second open enquiry, if no
-- contact has two before and the identifiers of the table are distinct.
pub step-OneOpen :
    (env : Env) (c : Command) (s : World)
    → UniqueIds s.enquiries
    → SparesClosed s c
    → OneOpen s.enquiries
    → OneOpen (step env c s).enquiries
unfolding step SparesClosed
step-OneOpen env (create_enquiry dto u) s q h o c = create-OneOpen env s dto u o c
step-OneOpen env (change_status id dto u) s q h o c =
    omega (arith, status_change-count env id s q dto u h c, o c)
step-OneOpen env (assign_to id user version) s q h o c =
    omega (arith, assign-count env id s q user version c, o c)
step-OneOpen env (set_tags id tags u) s q h o c =
    omega (arith, update_tags-count env id s q tags u c, o c)
step-OneOpen env (send id content channel user) s q h o c =
    omega (arith, send_message-count env id s q content channel user c, o c)
step-OneOpen env (send_outbound id channel to subject body user draft) s q h o c =
    omega (arith, add_outbound_message-count env id s q channel to subject body user draft c, o c)
step-OneOpen env (send_ai id channel to body subject) s q h o c =
    omega (arith, add_ai_reply-count env id s q channel to body subject c, o c)
step-OneOpen env (outbound_done id) s q h o c =
    omega (arith, maybe_transition_on_outbound-count env id s q c, o c)
step-OneOpen env (write_note id content user) s q h o c =
    omega (arith, add_note-count env id s q content user c, o c)
step-OneOpen env (qualify p) s q h o c = handle_qualified-OneOpen env s p o c
step-OneOpen env (delete_one id) s q h o c = omega (arith, remove-count env s id c, o c)
step-OneOpen env (delete_many ids) s q h o c = omega (arith, bulk_delete-count env s ids c, o c)
step-OneOpen env (receive dto) s q h o c = ingest-OneOpen env dto s q o c

status_change-reopens :
    (env : Env) (id : ℕ) (dto : ChangeStatus) (user : Option String) (s : World) (e : Enquiry)
    → find_first (enquiry_by id) s.enquiries ≡ some e
    → e.status ≡ EnquiryStatus.closed_lost
    → dto.status ≡ EnquiryStatus.open_
    → dto.version ≡ e.version
    → ((status_change env id dto user s).0 ≡ ok (stamp env.now (change env.now dto) e))
      × ((status_change env id dto user s).1.enquiries
          ≡ update_where (enquiry_by id) (stamp env.now (change env.now dto)) s.enquiries)
unfolding status_change includes transitions
status_change-reopens env id dto user s e p h k v = ground arith

-- A status change of a CLOSED_LOST enquiry to OPEN with the right version succeeds, whatever other
-- enquiries its contact has: the contact has one open enquiry more than before, two if it had one.
pub reopening_adds :
    (env : Env) (id : ℕ) (dto : ChangeStatus) (user : Option String) (s : World) (e : Enquiry)
    → UniqueIds s.enquiries
    → find_first (enquiry_by id) s.enquiries ≡ some e
    → e.status ≡ EnquiryStatus.closed_lost
    → dto.status ≡ EnquiryStatus.open_
    → dto.version ≡ e.version
    → ((status_change env id dto user s).0 ≡ ok (stamp env.now (change env.now dto) e))
      × (open_count e.contact_id (status_change env id dto user s).1.enquiries
          ≡ open_count e.contact_id s.enquiries + 1)
reopening_adds env id dto user s e u p h k v =
    let (r, w) = status_change-reopens env id dto user s e p h k v in
    (
      r,
      rw w (
          ground (
            arith,
            count_update e.contact_id id (stamp env.now (change env.now dto)) s.enquiries e u p,
          )),
    )
