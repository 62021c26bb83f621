-- ===== src/Outbound/Ownership.antt =====
-- Whose draft it is, and how often it is sent: backend/src/modules/outbound/draft.service.ts and
-- backend/src/modules/outbound/outbound-send.service.ts.
use bravi_ai.Store.{enquiry_by, find_channel, channels_of, contact_by}
use bravi_ai.Outbound.Idempotence.{resolve_content-reads}
use bravi_ai.Enquiry.Reply.{add_outbound_message}
use bravi_ai.Outbound.Draft.{
  draft_by, discard_draft, save_for_later, update_draft, UpdateDraft, require_own_draft,
}
use bravi_ai.Outbound.Draft.Attachments.{add_attachment, Upload, remove_attachment}
use bravi_ai.Outbound.Send.{
  SendInput, prepare_send, resolve_content, create_from, create_for, transfer_draft, Content,
  is_blank, is_none, recipient,
}
use bravi_ai.Data.{Draft, DraftStatus, World, Env, same_draft, EnqueuePayload, MessageChannel}
use bravi_ai.Exec.{
  err, ok, forbidden, bad_request, Result, bind_rule, found_rule, throw_if_rule, not_found,
}
use bravi_ai.Prelude.{
  ℕ, String, Option, some, none, Bool, false, true, ◌≡◌, find_first, str_eq, arith, List,
  update_where, find_first-update_where, find_first-IsTrue, refl, ◌⊎◌, subst, ◌&&◌, sym,
}

-- Nothing that a user asks of another user's draft is done: each method answers with Forbidden and
-- leaves the world as it was, sending included.
pub other_users_draft :
    (env : Env) (id : ℕ) (user : String) (s : World) (d : Draft)
    → find_first (draft_by id) s.drafts ≡ some d
    → str_eq d.created_by user ≡ false
    → (dto : UpdateDraft) (up : Upload) (attachment : ℕ) (input : SendInput)
    → input.draft_id ≡ some id
    → input.user_id ≡ user
    → (discard_draft id user s ≡ (err forbidden, s))
      × (save_for_later env id user s ≡ (err forbidden, s))
      × (update_draft env id dto user s ≡ (err forbidden, s))
      × (add_attachment env id up user s ≡ (err forbidden, s))
      × (remove_attachment id attachment user s ≡ (err forbidden, s))
      × (prepare_send env input s ≡ (err forbidden, s))
unfolding discard_draft save_for_later update_draft add_attachment remove_attachment prepare_send
    require_own_draft resolve_content
other_users_draft env id user s d h o dto up attachment input i j = ground arith

abbrev pub is_cleared : Option Draft → Bool
is_cleared none = false
is_cleared (some d) = same_draft d.status DraftStatus.cleared

find-clear :
    (id : ℕ) (ds : List Draft) (d : Draft)
    → find_first (draft_by id) ds ≡ some d
    → find_first
        (draft_by id)
        (update_where (draft_by id) (λ d. record d { status = DraftStatus.cleared }) ds)
      ≡ some (record d { status = DraftStatus.cleared })
find-clear id ds d p = rw (
  find_first-update_where (draft_by id) (draft_by id)
      (λ d. record d { status = DraftStatus.cleared }) (λ a. refl) ds,
  p,
  find_first-IsTrue (draft_by id) ds d p,
)

transfer_draft-clears :
    (message id : ℕ) (s : World) (o : Option Draft)
    → find_first (draft_by id) s.drafts ≡ o
    → (transfer_draft message (some id) s).0 ≡ ok tt
    → is_cleared (find_first (draft_by id) (transfer_draft message (some id) s).1.drafts) ≡ true
unfolding transfer_draft
transfer_draft-clears message id s none p h = ground arith
transfer_draft-clears message id s (some d) p h = ground (arith, find-clear id s.drafts d p)

-- A result that names a draft has cleared it.
abbrev Clears : ℕ → Result (EnqueuePayload × ℕ) × World → Type 0
Clears id r =
    (a : EnqueuePayload × ℕ) → r.0 ≡ ok a → is_cleared (find_first (draft_by id) r.1.drafts) ≡ true

create_for-Clears :
    (env : Env) (input : SendInput) (content : Content) (channel : MessageChannel) (to : String)
    (contact id : ℕ) (s : World)
    → input.draft_id ≡ some id
    → Clears id (create_for env input content channel to contact s)
unfolding create_for
create_for-Clears env input content channel to contact id s h =
    bind_rule (Clears id) _ s
      (add_outbound_message env input.enquiry_id channel to content.subject content.body
        input.user_id input.draft_id s)
      (λ e _ a k. cc)
      λ m _.
        let t =
          (add_outbound_message env input.enquiry_id channel to content.subject content.body
            input.user_id input.draft_id s).1 in
        bind_rule (Clears id) _ s (transfer_draft m.id input.draft_id t) (λ e _ a k. cc)
          λ _ q a k.
            let given : (transfer_draft m.id (some id) t).0 ≡ ok tt =
              subst (λ o. (transfer_draft m.id o t).0 ≡ ok tt) h q in
            subst
              (λ o. is_cleared (find_first (draft_by id) (transfer_draft m.id o t).1.drafts) ≡ true)
              (sym h)
              (transfer_draft-clears m.id id t (find_first (draft_by id) t.drafts) refl given)

create_from-Clears :
    (env : Env) (input : SendInput) (content : Content) (id : ℕ) (s : World)
    → input.draft_id ≡ some id
    → Clears id (create_from env input content s)
unfolding create_from
create_from-Clears env input content id s h =
    found_rule (Clears id) _ s content.channel bad_request (λ a k. cc)
      λ channel _.
        throw_if_rule (Clears id) _ s (is_blank content.body && is_none input.draft_id) bad_request
          (λ a k. cc)
          λ _.
            found_rule (Clears id) _ s (find_first (enquiry_by input.enquiry_id) s.enquiries)
              not_found (λ a k. cc)
              λ e _.
                found_rule (Clears id) _ s
                  (recipient input.recipient_override (
                    find_channel channel
                      (channels_of (find_first (contact_by e.contact_id) s.contacts))))
                  bad_request (λ a k. cc)
                  λ to _. create_for-Clears env input content channel to e.contact_id id s h

prepare_send-Clears :
    (env : Env) (input : SendInput) (id : ℕ) (s : World)
    → input.draft_id ≡ some id
    → Clears id (prepare_send env input s)
unfolding prepare_send
prepare_send-Clears env input id s h =
    bind_rule (Clears id) (create_from env input) s (resolve_content input input.draft_id s)
      (λ e _ a k. cc)
      λ content _.
        rw (resolve_content-reads input input.draft_id s)
          (create_from-Clears env input content id s h)

cleared-refuses :
    (env : Env) (input : SendInput) (id : ℕ) (s : World) (o : Option Draft)
    → input.draft_id ≡ some id
    → find_first (draft_by id) s.drafts ≡ o
    → is_cleared o ≡ true
    → (prepare_send env input s ≡ (err bad_request, s))
      ⊎ (prepare_send env input s ≡ (err forbidden, s))
unfolding prepare_send resolve_content
cleared-refuses env input id s none h p k = cc
cleared-refuses env input id s (some d) h p k = ground arith

-- A draft is sent once: in the world that a send of it leaves when it has made its message, a further
-- send of the same draft, by whomever, is refused as a bad request or as forbidden before it writes
-- anything.
pub send_again_fails :
    (env : Env) (input : SendInput) (id : ℕ) (s : World) (a : EnqueuePayload × ℕ)
    → input.draft_id ≡ some id
    → (prepare_send env input s).0 ≡ ok a
    → (later : Env) (again : SendInput) → again.draft_id ≡ some id
    → let t = (prepare_send env input s).1 in
      (prepare_send later again t ≡ (err bad_request, t))
      ⊎ (prepare_send later again t ≡ (err forbidden, t))
send_again_fails env input id s a h k later again g =
    cleared-refuses later again id (prepare_send env input s).1 _ g refl
      (prepare_send-Clears env input id s h a k)
