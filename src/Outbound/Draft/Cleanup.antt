-- ===== src/Outbound/Draft/Cleanup.antt =====
-- cleanOrphanedFiles of backend/src/modules/outbound/draft.service.ts.
use bravi_ai.Outbound.Draft.{draft_by}
use bravi_ai.Exec.{Exec, writes}
use bravi_ai.Data.{Env, Draft, DraftStatus, same_draft, DraftAttachment, World, MessageAttachment}
use bravi_ai.Prelude.{
  ◌==◌, ℕ, List, Option, String, ◌*◌, Bool, ◌&&◌, ◌+◌, some, ◌∷◌, find_first, if◌then◌else◌, str_eq,
  none, [], ltb, delete_where, ◌||◌, false, take, find_many,
}

abbrev pub grace : ℕ
grace = 24 * 60 * 60 * 1000

-- CLEARED, EXPIRED, or ACTIVE and out of date
abbrev pub is_abandoned : ℕ → Draft → Bool
is_abandoned now d =
    same_draft d.status DraftStatus.cleared
    || (same_draft d.status DraftStatus.expired
        || (same_draft d.status DraftStatus.active && ltb d.expires_at now))

abbrev pub abandoned_draft : ℕ → Option Draft → Bool
abandoned_draft now none = false
abandoned_draft now (some d) = is_abandoned now d

abbrev pub is_candidate : ℕ → World → DraftAttachment → Bool
is_candidate now s a =
    ltb (a.created_at + grace) now
    && abandoned_draft now (find_first (draft_by a.draft_id) s.drafts)

-- take: 50
abbrev pub candidates : ℕ → World → List DraftAttachment
candidates now s = take 50 (find_many (is_candidate now s) s.draft_attachments)

unfoldable pub is_referenced : List MessageAttachment → String → Bool
is_referenced [] key = false
is_referenced (a ∷ rows) key = str_eq a.file.storage_key key || is_referenced rows key

-- The keys to delete from the storage: those of candidates that no sent message refers to.
unfoldable pub orphan_keys : List MessageAttachment → List DraftAttachment → List String
unfolding is_referenced
orphan_keys sent [] = []
orphan_keys sent (a ∷ as') =
    let rest = orphan_keys sent as' in
    if is_referenced sent a.file.storage_key then rest else a.file.storage_key ∷ rest

unfoldable pub has_key : List String → String → Bool
has_key [] key = false
has_key (k ∷ ks) key = str_eq k key || has_key ks key

unfoldable pub has_id : List DraftAttachment → ℕ → Bool
has_id [] id = false
has_id (a ∷ as') id = a.id == id || has_id as' id

unfoldable pub clean_orphaned_files : Env → Exec (Unit {0})
unfolding orphan_keys has_key has_id
clean_orphaned_files env = writes λ s.
    let old = candidates env.now s in
    record s {
      storage = delete_where (has_key (orphan_keys s.message_attachments old)) s.storage;
      draft_attachments =
          delete_where (λ (a : DraftAttachment). has_id old a.id) s.draft_attachments;
    }
