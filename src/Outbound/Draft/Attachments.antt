-- ===== src/Outbound/Draft/Attachments.antt =====
-- The attachments of drafts in backend/src/modules/outbound/draft.service.ts: addAttachment and
-- removeAttachment.
use bravi_ai.Outbound.Draft.Cleanup.{clean_orphaned_files}
use bravi_ai.Outbound.Draft.{require_own_draft, not_active}
use bravi_ai.Exec.{Exec, reads, ◌>>=◌, writes, found, ◌>>◌, not_found, throw_if, bad_request, pure}
use bravi_ai.Data.{
  Env, AttachmentKind, File, image, document, video, DraftAttachment, audio, voice_note,
}
use bravi_ai.Prelude.{
  ◌==◌, ℕ, List, String, not, some, ◌∷◌, find_first, if◌then◌else◌, str_eq, [], delete_where,
}

-- MIME_TO_KIND
abbrev pub mime_kinds : List (String × AttachmentKind)
mime_kinds =
    ("image/jpeg", image)
    ∷ ("image/png", image)
    ∷ ("image/gif", image)
    ∷ ("image/webp", image)
    ∷ ("image/svg+xml", image)
    ∷ ("image/bmp", image)
    ∷ ("video/mp4", video)
    ∷ ("video/webm", video)
    ∷ ("video/quicktime", video)
    ∷ ("video/3gpp", video)
    ∷ ("audio/webm", audio)
    ∷ ("audio/ogg", audio)
    ∷ ("audio/mpeg", audio)
    ∷ ("audio/aac", audio)
    ∷ ("audio/flac", audio)
    ∷ ("audio/opus", audio)
    ∷ ("audio/wav", audio)
    ∷ ("audio/mp4", voice_note)
    ∷ ("application/pdf", document)
    ∷ ("application/msword", document)
    ∷ ("application/vnd.openxmlformats-officedocument.wordprocessingml.document", document)
    ∷ ("application/vnd.openxmlformats-officedocument.spreadsheetml.sheet", document)
    ∷ ("application/vnd.ms-excel", document)
    ∷ ("application/vnd.ms-powerpoint", document)
    ∷ ("application/vnd.openxmlformats-officedocument.presentationml.presentation", document)
    ∷ ("application/zip", document)
    ∷ ("application/x-zip-compressed", document)
    ∷ ("application/x-rar-compressed", document)
    ∷ ("text/plain", document)
    ∷ ("text/csv", document)
    ∷ []

-- MIME_TO_KIND[mime] ?? DOCUMENT
unfoldable pub kind_in : List (String × AttachmentKind) → String → AttachmentKind
kind_in [] mime = document
kind_in ((m, k) ∷ rest) mime = if str_eq m mime then k else kind_in rest mime

-- An uploaded file: name, type and size from the request, key and address from the storage.
pub record Upload : Type 0 where
  pub name : String
  pub mime : String
  pub size : ℕ
  pub key : String
  pub url : String

unfoldable pub uploaded_file : Upload → File
unfolding kind_in
uploaded_file u = record {
  kind = kind_in mime_kinds u.mime;
  file_name = u.name;
  mime_type = u.mime;
  file_size = u.size;
  storage_key = u.key;
  cdn_url = some u.url;
}

unfoldable pub add_attachment : Env → ℕ → Upload → String → Exec DraftAttachment
unfolding require_own_draft uploaded_file
add_attachment env id u user = do
  d ← require_own_draft id user
  throw_if (not_active d) bad_request
  let a : DraftAttachment = record {
    id = env.row_id;
    draft_id = id;
    file = uploaded_file u;
    created_at = env.now;
  }
  writes λ s. record s { storage = u.key ∷ s.storage; draft_attachments = a ∷ s.draft_attachments }
  clean_orphaned_files env
  pure a

unfoldable pub remove_attachment : ℕ → ℕ → String → Exec (Unit {0})
unfolding require_own_draft
remove_attachment id attachment_id user = do
  d ← require_own_draft id user
  row ← reads λ s. find_first (λ (a : DraftAttachment). a.id == attachment_id) s.draft_attachments
  a ← found row not_found
  throw_if (not (a.draft_id == id)) not_found
  writes λ s. record s {
    draft_attachments =
        delete_where (λ (a : DraftAttachment). a.id == attachment_id) s.draft_attachments;
  }
