-- ===== src/Inbox/Command.antt =====
-- The calls that reach the enquiry table: the methods of
-- backend/src/modules/enquiry/enquiry.service.ts that write, and ingest of
-- backend/src/modules/Ingestion/ingestion.service.ts.
use bravi_ai.Ingestion.Routing.{ingest-Change}
use bravi_ai.Enquiry.Notes.{add_note, remove, bulk_delete}
use bravi_ai.Enquiry.Changes.{
  create-Change, status_change-Change, assign-Change, update_tags-Change, add_note-Change,
  handle_qualified-Change, remove-Change, bulk_delete-Change,
}
use bravi_ai.Enquiry.Changes.Replies.{
  send_message-Change, add_outbound_message-Change, add_ai_reply-Change,
  maybe_transition_on_outbound-Change,
}
use bravi_ai.Enquiry.Lifecycle.{Change}
use bravi_ai.Ingestion.Ingest.{IngestMessage, ingest}
use bravi_ai.Enquiry.Reply.{
  send_message, add_outbound_message, add_ai_reply, maybe_transition_on_outbound,
}
use bravi_ai.Enquiry.Qualified.{Qualified, handle_qualified}
use bravi_ai.Store.{enquiry_by}
use bravi_ai.Enquiry.Manage.{status_change, ChangeStatus, assign, update_tags}
use bravi_ai.Enquiry.Unique.{UniqueIds}
use bravi_ai.Prelude.{Option, String, ℕ, find_first, List, ◌≡◌, none}
use bravi_ai.Data.{Env, World, MessageChannel}
use bravi_ai.Enquiry.Create.{create, CreateEnquiry}

pub data Command : Type 0 where
  create_enquiry : CreateEnquiry → Option String → Command
  change_status : ℕ → ChangeStatus → Option String → Command
  assign_to : ℕ → String → ℕ → Command
  set_tags : ℕ → List String → Option String → Command
  send : ℕ → String → Option MessageChannel → String → Command
  send_outbound :
      ℕ
      → MessageChannel
      → (to : String) → (subject : Option String) → (body user : String) → Option ℕ
      → Command
  send_ai : ℕ → MessageChannel → (to body : String) → Option String → Command
  outbound_done : ℕ → Command
  write_note : ℕ → (content user : String) → Command
  qualify : Qualified → Command
  delete_one : ℕ → Command
  delete_many : List ℕ → Command
  receive : IngestMessage → Command

-- The world after a call, whether it returns or throws.
unfoldable pub step : Env → Command → World → World
step env (create_enquiry dto u) s = (create env dto u s).1
step env (change_status id dto u) s = (status_change env id dto u s).1
step env (assign_to id user version) s = (assign env id user version s).1
step env (set_tags id tags u) s = (update_tags env id tags u s).1
step env (send id content channel user) s = (send_message env id content channel user s).1
step env (send_outbound id channel to subject body user draft) s =
    (add_outbound_message env id channel to subject body user draft s).1
step env (send_ai id channel to body subject) s = (add_ai_reply env id channel to body subject s).1
step env (outbound_done id) s = (maybe_transition_on_outbound env id s).1
step env (write_note id content user) s = (add_note env id content user s).1
step env (qualify q) s = (handle_qualified env q s).1
step env (delete_one id) s = (remove id s).1
step env (delete_many ids) s = (bulk_delete ids s).1
step env (receive dto) s = (ingest env dto s).1

-- Every call, on every branch, makes one change of the lifecycle: it leaves the enquiry table, edits
-- one row along an edge of ENQUIRY_TRANSITIONS (or none) with the version not falling, adds a NEW
-- row of version 1 under the fresh identifier, or deletes rows. The identifiers of the table are
-- distinct, and the new one is fresh.
pub step-Change :
    (env : Env) (c : Command) (s : World)
    → UniqueIds s.enquiries
    → find_first (enquiry_by env.row_id) s.enquiries ≡ none
    → Change env.row_id s.enquiries (step env c s).enquiries
unfolding step
step-Change env (create_enquiry dto u) s q h = create-Change env s dto u h
step-Change env (change_status id dto u) s q h = status_change-Change env id s dto u
step-Change env (assign_to id user version) s q h = assign-Change env id s user version
step-Change env (set_tags id tags u) s q h = update_tags-Change env id s tags u
step-Change env (send id content channel user) s q h =
    send_message-Change env id s content channel user
step-Change env (send_outbound id channel to subject body user draft) s q h =
    add_outbound_message-Change env id s channel to subject body user draft
step-Change env (send_ai id channel to body subject) s q h =
    add_ai_reply-Change env id s channel to body subject
step-Change env (outbound_done id) s q h = maybe_transition_on_outbound-Change env id s
step-Change env (write_note id content user) s q h = add_note-Change env id s content user
step-Change env (qualify p) s q h = handle_qualified-Change env s p h
step-Change env (delete_one id) s q h = remove-Change env id s
step-Change env (delete_many ids) s q h = bulk_delete-Change env s ids
step-Change env (receive dto) s q h = ingest-Change env dto s q
