-- ===== src/Outbound/Cleanup.antt =====
-- cleanOrphanedFiles of backend/src/modules/outbound/draft.service.ts.
use bravi_ai.Outbound.Draft.Cleanup.{
  clean_orphaned_files, is_referenced, orphan_keys, has_key, candidates,
}
use bravi_ai.Data.{World, Env, MessageAttachment, DraftAttachment}
use bravi_ai.Prelude.{
  List, String, ◌≡◌, true, false, arith, ◌∷◌, delete_where, [], Bool, refl, str_eq, Bool-cases, ◌⊎◌,
  inl, ◌||◌, eq_iff, inr, subst, sym,
}

-- A key that a sent message refers to is not among those to delete.
orphan_keys-keeps :
    (sent : List MessageAttachment) (old : List DraftAttachment) (key : String)
    → is_referenced sent key ≡ true
    → has_key (orphan_keys sent old) key ≡ false
unfolding orphan_keys has_key
orphan_keys-keeps sent [] key h = refl
orphan_keys-keeps sent (a ∷ old) key h = elim (Bool-cases (is_referenced sent a.file.storage_key)) [
  | inl t ↦ rw t (orphan_keys-keeps sent old key h)
  | inr t ↦
      rw t (other (Bool-cases (str_eq a.file.storage_key key)) t (orphan_keys-keeps sent old key h))
]
  where
    other :
        (str_eq a.file.storage_key key ≡ true) ⊎ (str_eq a.file.storage_key key ≡ false)
        → is_referenced sent a.file.storage_key ≡ false
        → has_key (orphan_keys sent old) key ≡ false
        → (str_eq a.file.storage_key key || has_key (orphan_keys sent old) key) ≡ false
    other (inl k) t rest =
        let same : a.file.storage_key ≡ key = (eq_iff a.file.storage_key key).0 k in
        absurd (cc (same, t, h))
    other (inr k) t rest = rw k rest

has_key-delete_where :
    (gone : String → Bool) (keys : List String) (key : String)
    → gone key ≡ false
    → has_key keys key ≡ true
    → has_key (delete_where gone keys) key ≡ true
unfolding has_key delete_where
has_key-delete_where gone [] key g h = cc
has_key-delete_where gone (k ∷ keys) key g h = elim (Bool-cases (str_eq k key)) [
  | inl t ↦
      let same : k ≡ key = (eq_iff k key).0 t in
      let stays : gone k ≡ false = subst (λ x. gone x ≡ false) (sym same) g in rw (stays, t) refl
  | inr t ↦ ground (arith, t, has_key-delete_where gone keys key g)
]

-- The cleanup never deletes a stored file that a sent message refers to, and leaves the messages'
-- attachments as they are.
pub clean_orphaned_files-keeps :
    (env : Env) (s : World) (key : String)
    → is_referenced s.message_attachments key ≡ true
    → has_key s.storage key ≡ true
    → let t = (clean_orphaned_files env s).1 in
      (has_key t.storage key ≡ true) × (t.message_attachments ≡ s.message_attachments)
unfolding clean_orphaned_files
clean_orphaned_files-keeps env s key r h = (
  has_key-delete_where (has_key (orphan_keys s.message_attachments (candidates env.now s)))
      s.storage key (orphan_keys-keeps s.message_attachments (candidates env.now s) key r) h,
  refl,
)
