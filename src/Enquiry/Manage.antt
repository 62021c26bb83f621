-- ===== src/Enquiry/Manage.antt =====
-- statusChange, assign and updateTags of backend/src/modules/enquiry/enquiry.service.ts
use bravi_ai.Prelude.{
  ℕ, ◌+◌, Bool, false, not, ◌&&◌, ◌||◌, String, Option, none, some, List, [], ◌∷◌, ◌++◌, map, ◌==◌,
  str_eq, if◌then◌else◌, is_some, find_many,
}
use bravi_ai.Data.{
  Enquiry, EnquiryStatus, EventType, Metadata, TimelineEntry, User, Env, same_status,
}
use bravi_ai.Exec.{Exec, pure, found, throw_if, ◌>>=◌, ◌>>◌, bad_request, conflict, not_found}
use bravi_ai.Store.{find_enquiry, find_user, update_enquiry, add_timeline, truthy, or_text}
use bravi_ai.Enquiry.Status.{transitions, includes}

-- ChangeStatusDto of dto/create-enquiry.dto.ts
pub record ChangeStatus : Type 0 where
  pub status : EnquiryStatus
  pub version : ℕ
  pub lost_reason : Option String

-- The reason is stored only for CLOSED_LOST, and only if it is given.
abbrev pub new_reason : ChangeStatus → Option String → Option String
new_reason dto old =
    if same_status dto.status EnquiryStatus.closed_lost && is_some (truthy dto.lost_reason)
    then dto.lost_reason
    else old

abbrev pub reason_metadata : Option String → Metadata
reason_metadata none = Metadata.empty
reason_metadata (some t) = Metadata.lost_reason t

abbrev pub change : ℕ → ChangeStatus → Enquiry → Enquiry
change now dto e = record e {
  status = dto.status;
  version = e.version + 1;
  last_activity_at = now;
  lost_reason = new_reason dto e.lost_reason;
}

unfoldable pub status_change : Env → ℕ → ChangeStatus → Option String → Exec Enquiry
status_change env id dto user_id = do
  row ← find_enquiry id
  e ← found row not_found
  throw_if (not (dto.version == e.version)) conflict
  throw_if (not (includes dto.status (transitions e.status))) bad_request
  updated ← update_enquiry env.now id (change env.now dto)
  add_timeline (
      record {
        enquiry_id = id;
        type = EventType.status_changed;
        from_status = some e.status;
        to_status = some dto.status;
        created_by = or_text user_id "SYSTEM";
        metadata = reason_metadata (truthy dto.lost_reason);
      }
      ∷ [])
  pure updated

-- Auto-open on assignment if NEW
abbrev pub open_if_new : EnquiryStatus → EnquiryStatus
open_if_new EnquiryStatus.new = EnquiryStatus.open_
open_if_new s = s

abbrev pub give_to : ℕ → String → Enquiry → Enquiry
give_to now user_id e = record e {
  assigned_to_id = some user_id;
  version = e.version + 1;
  last_activity_at = now;
  status = open_if_new e.status;
}

abbrev pub name_of : User → String
name_of u = if str_eq u.display_name "" then u.user_name else u.display_name

unfoldable pub assign : Env → ℕ → String → ℕ → Exec Enquiry
assign env id user_id version = do
  row ← find_enquiry id
  e ← found row not_found
  throw_if (not (version == e.version)) conflict
  account ← find_user user_id
  user ← found account bad_request
  updated ← update_enquiry env.now id (give_to env.now user_id)
  add_timeline (
      record {
        enquiry_id = id;
        type =
            if is_some (truthy e.assigned_to_id) then EventType.reassigned else EventType.assigned;
        from_status = none;
        to_status = none;
        created_by = "SYSTEM";
        metadata = Metadata.assignee user_id (name_of user) e.assigned_to_id;
      }
      ∷ [])
  pure updated

-- tags.includes(t)
unfoldable pub has_tag : List String → String → Bool
has_tag [] t = false
has_tag (x ∷ xs) t = str_eq x t || has_tag xs t

abbrev pub tag_entry : ℕ → Option String → EventType → String → TimelineEntry
tag_entry id user_id type tag = record {
  enquiry_id = id;
  type = type;
  from_status = none;
  to_status = none;
  created_by = or_text user_id "SYSTEM";
  metadata = Metadata.tag tag;
}

unfoldable pub added_tags : List String → List String → List String
unfolding has_tag
added_tags old tags = find_many (λ t. not (has_tag old t)) tags

unfoldable pub removed_tags : List String → List String → List String
unfolding has_tag
removed_tags old tags = find_many (λ t. not (has_tag tags t)) old

unfoldable pub update_tags : Env → ℕ → List String → Option String → Exec Enquiry
unfolding added_tags removed_tags
update_tags env id tags user_id = do
  row ← find_enquiry id
  e ← found row not_found
  updated ← update_enquiry env.now id (λ e. record e { tags = tags; last_activity_at = env.now })
  add_timeline (
      map (tag_entry id user_id EventType.tag_added) (added_tags e.tags tags)
      ++ map (tag_entry id user_id EventType.tag_removed) (removed_tags e.tags tags))
  pure updated
