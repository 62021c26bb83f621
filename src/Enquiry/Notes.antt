-- ===== src/Enquiry/Notes.antt =====
-- addNote, remove and bulkDelete of backend/src/modules/enquiry/enquiry.service.ts
use bravi_ai.Prelude.{
  ℕ, Bool, true, false, ◌||◌, String, none, List, [], ◌∷◌, ◌==◌, find_many, delete_where, length,
  map,
}
use bravi_ai.Data.{
  Enquiry, EventType, Metadata, TimelineEntry, Note, Draft, DraftAttachment, Message,
  MessageAttachment, Env, World,
}
use bravi_ai.Exec.{Exec, pure, reads, writes, found, throw_if, ◌>>=◌, ◌>>◌, bad_request, not_found}
use bravi_ai.Store.{find_enquiry, update_enquiry, add_timeline}

unfoldable pub add_note : Env → ℕ → (content user_id : String) → Exec Note
add_note env id content user_id = do
  row ← find_enquiry id
  e ← found row not_found
  let note : Note = record {
    id = env.row_id;
    enquiry_id = id;
    content = content;
    created_by = user_id;
  }
  writes λ s. record s { notes = note ∷ s.notes }
  add_timeline (
      record {
        enquiry_id = id;
        type = EventType.note_added;
        from_status = none;
        to_status = none;
        created_by = user_id;
        metadata = Metadata.note note.id;
      }
      ∷ [])
  updated ← update_enquiry env.now id (λ e. record e { last_activity_at = env.now })
  pure note

unfoldable pub member : List ℕ → ℕ → Bool
member [] id = false
member (x ∷ xs) id = x == id || member xs id

-- The rows that `onDelete: Cascade` takes along with the enquiries of the test.
abbrev pub cascade : (ℕ → Bool) → World → World
cascade gone s =
    let lost_messages =
      map (λ (m : Message). m.id) (find_many (λ (m : Message). gone m.enquiry_id) s.messages) in
    let lost_drafts =
      map (λ (d : Draft). d.id) (find_many (λ (d : Draft). gone d.enquiry_id) s.drafts) in
    record s {
      enquiries = delete_where (λ (e : Enquiry). gone e.id) s.enquiries;
      messages = delete_where (λ (m : Message). gone m.enquiry_id) s.messages;
      timeline = delete_where (λ (t : TimelineEntry). gone t.enquiry_id) s.timeline;
      notes = delete_where (λ (n : Note). gone n.enquiry_id) s.notes;
      drafts = delete_where (λ (d : Draft). gone d.enquiry_id) s.drafts;
      draft_attachments =
          delete_where (λ (a : DraftAttachment). member lost_drafts a.draft_id) s.draft_attachments;
      message_attachments =
          delete_where (λ (a : MessageAttachment). member lost_messages a.message_id)
            s.message_attachments;
    }

unfoldable pub remove : ℕ → Exec (Unit {0})
unfolding member
remove id = do row ← find_enquiry id; e ← found row not_found; writes (cascade (λ i. i == id))

abbrev pub is_empty : List ℕ → Bool
is_empty [] = true
is_empty (x ∷ xs) = false

unfoldable pub bulk_delete : List ℕ → Exec ℕ
unfolding member
bulk_delete ids = do
  throw_if (is_empty ids) bad_request
  count ← reads λ s. length (find_many (λ (e : Enquiry). member ids e.id) s.enquiries)
  writes (cascade (member ids))
  pure count
