-- ===== src/Enquiry/Changes/Replies.antt =====
-- The replies of backend/src/modules/enquiry/enquiry.service.ts against the abstract lifecycle.
use bravi_ai.Enquiry.Changes.{Edits, Edits-Change, Moves, Follows, stamp, ap, some, or_else}
use bravi_ai.Enquiry.Reply.{
  respond, await_customer, send_message, add_outbound_message, store_outbound, stay, add_ai_reply,
  maybe_transition_on_outbound, await,
}
use bravi_ai.Prelude.{ℕ, ◌≡◌, refl, inl, inr, true, String, Option, arith}
use bravi_ai.Data.{World, Env, EnquiryStatus, MessageChannel, Enquiry}
use bravi_ai.Enquiry.Status.{includes, transitions}
use bravi_ai.Enquiry.Lifecycle.{Change}

module _ (env : Env) (id : ℕ) (s : World) where
  respond-Follows :
      (move : EnquiryStatus → EnquiryStatus)
      → ((t : EnquiryStatus) → Moves t (move t))
      → (e : Enquiry) → Follows e (stamp env.now (respond env.now move) e)
  respond-Follows move h e = record {
    same_id = refl;
    same_contact = refl;
    moves = h e.status;
    version_grows = omega arith;
    response_kept = λ t p. ap (λ o. some (or_else o env.now)) p;
  }

  await_customer-Moves : (t : EnquiryStatus) → Moves t (await_customer t)
  unfolding includes transitions
  await_customer-Moves t = ground arith

  pub send_message-Edits :
      (content : String) (chosen : Option MessageChannel) (user : String)
      → Edits
          (λ e. Unit {0})
          env.now
          id
          (respond env.now await_customer)
          s.enquiries
          (send_message env id content chosen user s).1.enquiries
  unfolding send_message store_outbound
  send_message-Edits content chosen user = ground arith

  pub add_outbound_message-Edits :
      (channel : MessageChannel) (to : String) (subject : Option String) (body user : String)
      (draft : Option ℕ)
      → Edits
          (λ e. Unit {0})
          env.now
          id
          (respond env.now stay)
          s.enquiries
          (add_outbound_message env id channel to subject body user draft s).1.enquiries
  unfolding add_outbound_message store_outbound
  add_outbound_message-Edits channel to subject body user draft = ground arith

  pub add_outbound_message-Change :
      (channel : MessageChannel) (to : String) (subject : Option String) (body user : String)
      (draft : Option ℕ)
      → Change env.row_id s.enquiries
          (add_outbound_message env id channel to subject body user draft s).1.enquiries
  add_outbound_message-Change channel to subject body user draft =
      Edits-Change _ env.now id (respond env.now stay) (λ a. refl)
        (λ e p. respond-Follows stay (λ t. inl refl) e)
        (add_outbound_message-Edits channel to subject body user draft)

  pub send_message-Change :
      (content : String) (chosen : Option MessageChannel) (user : String)
      → Change env.row_id s.enquiries (send_message env id content chosen user s).1.enquiries
  send_message-Change content chosen user =
      Edits-Change _ env.now id (respond env.now await_customer) (λ a. refl)
        (λ e p. respond-Follows await_customer await_customer-Moves e)
        (send_message-Edits content chosen user)

  pub add_ai_reply-Edits :
      (channel : MessageChannel) (to body : String) (subject : Option String)
      → Edits
          (λ e. Unit {0})
          env.now
          id
          (respond env.now stay)
          s.enquiries
          (add_ai_reply env id channel to body subject s).1.enquiries
  unfolding add_ai_reply store_outbound
  add_ai_reply-Edits channel to body subject = ground arith

  pub add_ai_reply-Change :
      (channel : MessageChannel) (to body : String) (subject : Option String)
      → Change env.row_id s.enquiries (add_ai_reply env id channel to body subject s).1.enquiries
  add_ai_reply-Change channel to body subject =
      Edits-Change _ env.now id (respond env.now stay) (λ a. refl)
        (λ e p. respond-Follows stay (λ t. inl refl) e) (add_ai_reply-Edits channel to body subject)

  pub maybe_transition_on_outbound-Edits :
      Edits
        (λ e. includes EnquiryStatus.awaiting_customer (transitions e.status) ≡ true)
        env.now
        id
        (await env.now)
        s.enquiries
        (maybe_transition_on_outbound env id s).1.enquiries
  unfolding maybe_transition_on_outbound
  maybe_transition_on_outbound-Edits = ground arith

  pub maybe_transition_on_outbound-Change :
      Change env.row_id s.enquiries (maybe_transition_on_outbound env id s).1.enquiries
  maybe_transition_on_outbound-Change =
      Edits-Change _ env.now id (await env.now) (λ a. refl)
        (λ e p. record {
          same_id = refl;
          same_contact = refl;
          moves = inr p;
          version_grows = omega arith;
          response_kept = λ t h. h;
        })
        maybe_transition_on_outbound-Edits
