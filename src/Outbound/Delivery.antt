-- ===== src/Outbound/Delivery.antt =====
-- updateDeliveryStatus and updateDeliveryStatusByExternalId of
-- backend/src/modules/outbound/outbound.service.ts, and the SendGrid webhook of
-- backend/src/modules/outbound/delivery/delivery-tracking.service.ts.
use Prim.Native.Char.{code}
use bravi_ai.Exec.{Exec, pure, ◌>>◌, ◌>>=◌, reads, emit, writes}
use bravi_ai.Store.{truthy, find_message}
use bravi_ai.Data.{DeliveryStatus, Env, Message, same_delivery, delivery_updated}
use bravi_ai.Prelude.{
  ◌==◌, List, Option, ℕ, String, ◌∷◌, find_many, Bool, some, if◌then◌else◌, [], ltb, false, true,
  none, ◌&&◌, str_eq, or_else, ◌||◌, is_some, find_first, update_where,
}

-- STATUS_RANK, one higher: FAILED is -1 in the source. Only the order is used.
abbrev pub rank : DeliveryStatus → ℕ
rank DeliveryStatus.failed = 0
rank DeliveryStatus.pending = 1
rank DeliveryStatus.sent = 2
rank DeliveryStatus.delivered = 3
rank DeliveryStatus.read = 4

-- Object.keys(STATUS_RANK)
abbrev pub statuses : List DeliveryStatus
statuses =
    DeliveryStatus.pending ∷ DeliveryStatus.sent ∷ DeliveryStatus.delivered ∷ DeliveryStatus.read
    ∷ DeliveryStatus.failed ∷ []

unfoldable pub lower_statuses : DeliveryStatus → List DeliveryStatus
lower_statuses d = find_many (λ s. ltb (rank s) (rank d)) statuses

unfoldable pub is_among : DeliveryStatus → List DeliveryStatus → Bool
is_among d [] = false
is_among d (s ∷ ss) = same_delivery s d || is_among d ss

-- deliveryStatus: lowerStatuses.length > 0 ? { in: lowerStatuses } : undefined
abbrev pub admits : List DeliveryStatus → DeliveryStatus → Bool
admits [] d = true
admits (s ∷ ss) d = is_among d (s ∷ ss)

abbrev pub delivered_time : DeliveryStatus → ℕ → Option ℕ → Option ℕ
delivered_time DeliveryStatus.delivered now old = some now
delivered_time _ now old = old

abbrev pub read_time : DeliveryStatus → ℕ → Option ℕ → Option ℕ
read_time DeliveryStatus.read now old = some now
read_time _ now old = old

abbrev pub reason_kept : Option String → Option String → Option String
reason_kept none old = old
reason_kept (some r) old = some r

abbrev pub fail_reason : DeliveryStatus → Option String → Option String → Option String
fail_reason DeliveryStatus.failed reason old = reason_kept (truthy reason) old
fail_reason _ reason old = old

abbrev pub deliver : ℕ → DeliveryStatus → Option String → Message → Message
deliver now d reason m = record m {
  delivery_status = d;
  delivered_at = delivered_time d now m.delivered_at;
  read_at = read_time d now m.read_at;
  fail_reason = fail_reason d reason m.fail_reason;
}

abbrev pub accepts : ℕ → DeliveryStatus → Message → Bool
accepts id d m = m.id == id && admits (lower_statuses d) m.delivery_status

abbrev pub enquiry_of : Option Message → Option ℕ
enquiry_of none = none
enquiry_of (some m) = some m.enquiry_id

-- enquiryId ?? msg?.enquiryId
abbrev pub first_of_two : Option ℕ → Option ℕ → Option ℕ
first_of_two none b = b
first_of_two (some a) b = some a

abbrev pub announce : ℕ → DeliveryStatus → Option ℕ → Option String → Exec (Unit {0})
announce id d enquiry_id reason = do
  m ← find_message id
  emit (delivery_updated id (first_of_two enquiry_id (enquiry_of m)) d reason)

unfoldable pub update_delivery_status :
    Env → ℕ → DeliveryStatus → (enquiry_id : Option ℕ) → (reason : Option String) → Exec (Unit {0})
unfolding lower_statuses is_among
update_delivery_status env id d enquiry_id reason = do
  hit ← reads λ s. find_first (accepts id d) s.messages
  writes
      λ s. record s { messages = update_where (accepts id d) (deliver env.now d reason) s.messages }
  if is_some hit then announce id d enquiry_id reason else pure tt

abbrev pub external_is : String → Message → Bool
external_is external m = str_eq (or_else m.external_id "") external && is_some m.external_id

abbrev pub update_found : Env → Option Message → DeliveryStatus → Option String → Exec (Unit {0})
update_found env none d reason = pure tt
update_found env (some m) d reason = update_delivery_status env m.id d (some m.enquiry_id) reason

unfoldable pub update_delivery_status_by_external_id :
    Env → String → DeliveryStatus → Option String → Exec (Unit {0})
update_delivery_status_by_external_id env external d reason = do
  m ← reads λ s. find_first (external_is external) s.messages
  update_found env m d reason

-- mapSendGridEvent
unfoldable pub map_send_grid_event : String → Option DeliveryStatus
map_send_grid_event e =
    if str_eq e "delivered"
    then some DeliveryStatus.delivered
    else if str_eq e "open"
    then some DeliveryStatus.read
    else if str_eq e "bounce"
    then some DeliveryStatus.failed
    else if str_eq e "dropped"
    then some DeliveryStatus.failed
    else if str_eq e "deferred"
    then some DeliveryStatus.sent
    else none

-- split('.')[0]
unfoldable pub before_dot : String → String
before_dot String.[] = String.[]
before_dot (String.◌∷◌ c s) =
    let rest = before_dot s in if code c == b'.' then String.[] else String.◌∷◌ c rest

pub record SendGridEvent : Type 0 where
  pub event : String
  pub sg_message_id : Option String

abbrev pub external_of : SendGridEvent → Option String
external_of e = elim e.sg_message_id [ none ↦ none | some t ↦ truthy (some (before_dot t)) ]

abbrev pub track : Env → Option String → Option DeliveryStatus → Exec (Unit {0})
track env none d = pure tt
track env (some external) none = pure tt
track env (some external) (some d) = update_delivery_status_by_external_id env external d none

unfoldable pub handle_send_grid_delivery : Env → List SendGridEvent → Exec (Unit {0})
unfolding map_send_grid_event before_dot
handle_send_grid_delivery env [] = pure tt
handle_send_grid_delivery env (e ∷ es) =
    track env (external_of e) (map_send_grid_event e.event) >> handle_send_grid_delivery env es
