-- ===== src/Outbound/Draft.antt =====
-- backend/src/modules/outbound/draft.service.ts. The file itself goes to the storage service, which
-- gives its key and address; these are arguments.
pub mod Attachments
pub mod Cleanup
use bravi_ai.Store.{keep_text}
use bravi_ai.Exec.{
  Exec, reads, writes, found, record_missing, not_found, throw_if, forbidden, bad_request, pure,
  ◌>>=◌, ◌>>◌,
}
use bravi_ai.Data.{MessageChannel, Env, Draft, DraftStatus, same_channel, same_draft}
use bravi_ai.Prelude.{
  ◌==◌, ℕ, Option, String, ◌*◌, Bool, or_else, ◌&&◌, ◌+◌, true, not, some, ◌∷◌, find_first, str_eq,
  none, update_where, ltb, if◌then◌else◌,
}

abbrev pub thirty_minutes : ℕ
thirty_minutes = 30 * 60 * 1000

abbrev pub seven_days : ℕ
seven_days = 7 * 24 * 60 * 60 * 1000

abbrev pub draft_by : ℕ → Draft → Bool
draft_by id d = d.id == id

abbrev pub find_draft : ℕ → Exec (Option Draft)
find_draft id = reads λ s. find_first (draft_by id) s.drafts

abbrev pub update_draft_row : ℕ → (Draft → Draft) → Exec (Unit {0})
update_draft_row id f = do
  old ← find_draft id
  d ← found old record_missing
  writes λ s. record s { drafts = update_where (draft_by id) f s.drafts }

-- The ACTIVE, unexpired draft of an enquiry, a channel and a user.
abbrev pub is_active_for : ℕ → ℕ → MessageChannel → String → Draft → Bool
is_active_for now enquiry_id channel user d =
    d.enquiry_id == enquiry_id
    && (same_channel d.channel channel
        && (str_eq d.created_by user
            && (same_draft d.status DraftStatus.active && ltb now d.expires_at)))

pub record SaveDraft : Type 0 where
  pub channel : MessageChannel
  pub subject : Option String
  pub body : Option String
  pub save_for_later : Bool

abbrev pub expiry : ℕ → Bool → ℕ
expiry now later = now + (if later then seven_days else thirty_minutes)

abbrev pub new_draft : Env → ℕ → SaveDraft → String → Draft
new_draft env enquiry_id dto user = record {
  id = env.row_id;
  enquiry_id = enquiry_id;
  channel = dto.channel;
  subject = dto.subject;
  body = dto.body;
  status = DraftStatus.active;
  expires_at = expiry env.now dto.save_for_later;
  created_by = user;
}

abbrev pub rewrite_draft : Env → SaveDraft → Draft → Draft
rewrite_draft env dto d = record d {
  subject = keep_text dto.subject d.subject;
  body = keep_text dto.body d.body;
  expires_at = expiry env.now dto.save_for_later;
}

abbrev pub save_over : Env → ℕ → SaveDraft → String → Option Draft → Exec (Unit {0})
save_over env enquiry_id dto user none =
    writes λ s. record s { drafts = new_draft env enquiry_id dto user ∷ s.drafts }
save_over env enquiry_id dto user (some d) = update_draft_row d.id (rewrite_draft env dto)

unfoldable pub save_draft : Env → ℕ → SaveDraft → String → Exec (Unit {0})
save_draft env enquiry_id dto user = do
  existing ← reads λ s. find_first (is_active_for env.now enquiry_id dto.channel user) s.drafts
  save_over env enquiry_id dto user existing

-- The channel, if it is given, narrows the search.
abbrev pub on_channel : Option MessageChannel → Draft → Bool
on_channel none d = true
on_channel (some c) d = same_channel d.channel c

unfoldable pub get_active_draft : Env → ℕ → Option MessageChannel → String → Exec (Option Draft)
get_active_draft env enquiry_id channel user = reads λ s.
    find_first
      (λ (d : Draft). is_active_for env.now enquiry_id d.channel user d && on_channel channel d)
      s.drafts

unfoldable pub require_own_draft : ℕ → String → Exec Draft
require_own_draft id user = do
  row ← find_draft id
  d ← found row not_found
  throw_if (not (str_eq d.created_by user)) forbidden
  pure d

abbrev pub not_active : Draft → Bool
not_active d = not (same_draft d.status DraftStatus.active)

unfoldable pub discard_draft : ℕ → String → Exec (Unit {0})
unfolding require_own_draft
discard_draft id user = do
  d ← require_own_draft id user
  update_draft_row d.id (λ d. record d { status = DraftStatus.cleared })

unfoldable pub save_for_later : Env → ℕ → String → Exec (Unit {0})
unfolding require_own_draft
save_for_later env id user = do
  d ← require_own_draft id user
  throw_if (not_active d) bad_request
  update_draft_row d.id (λ d. record d { expires_at = env.now + seven_days })

pub record UpdateDraft : Type 0 where
  pub channel : Option MessageChannel
  pub subject : Option String
  pub body : Option String

abbrev pub amend : Env → UpdateDraft → Draft → Draft
amend env dto d = record d {
  channel = or_else dto.channel d.channel;
  subject = keep_text dto.subject d.subject;
  body = keep_text dto.body d.body;
  expires_at = env.now + thirty_minutes;
}

unfoldable pub update_draft : Env → ℕ → UpdateDraft → String → Exec (Unit {0})
unfolding require_own_draft
update_draft env id dto user = do
  d ← require_own_draft id user
  throw_if (not_active d) bad_request
  update_draft_row d.id (amend env dto)
