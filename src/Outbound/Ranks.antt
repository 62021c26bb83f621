-- ===== src/Outbound/Ranks.antt =====
-- The order of delivery statuses under updateDeliveryStatus of
-- backend/src/modules/outbound/outbound.service.ts.
use bravi_ai.Store.{message_by}
use bravi_ai.Prelude.{
  ℕ, List, Bool, Option, ◌∷◌, true, find_many, String, none, ◌≡◌, false, if◌then◌else◌,
  update_where, find_first, [], ltb, arith, ◌==◌, some, ◌||◌, edit, ◌≤◌, ap, All,
  find_first-update_where, ◌∙◌, find_first-IsTrue, ==_refl, refl,
}
use bravi_ai.Data.{DeliveryStatus, Env, World, Message}
use bravi_ai.Outbound.Delivery.{
  deliver, lower_statuses, update_delivery_status, is_among, admits, accepts, rank,
}
use mathlib.Core.Option

abbrev pub is_failed : DeliveryStatus → Bool
is_failed DeliveryStatus.failed = true
is_failed _ = false

-- The filter of the update lets a status through exactly if its rank is lower, or the new one is
-- FAILED, for which the filter is dropped.
admits-lower_statuses :
    (d x : DeliveryStatus) → admits (lower_statuses d) x ≡ (ltb (rank x) (rank d) || is_failed d)
unfolding lower_statuses is_among find_many
admits-lower_statuses DeliveryStatus.failed x = ground arith
admits-lower_statuses DeliveryStatus.pending x = ground arith
admits-lower_statuses DeliveryStatus.sent x = ground arith
admits-lower_statuses DeliveryStatus.delivered x = ground arith
admits-lower_statuses DeliveryStatus.read x = ground arith

abbrev pub after_update : ℕ → DeliveryStatus → Option String → Message → Message
after_update now d reason m =
    if ltb (rank m.delivery_status) (rank d) || is_failed d then deliver now d reason m else m

messages-update_delivery_status :
    (env : Env) (id : ℕ) (d : DeliveryStatus) (e : Option ℕ) (reason : Option String) (s : World)
    → (update_delivery_status env id d e reason s).1.messages
      ≡ update_where (accepts id d) (deliver env.now d reason) s.messages
unfolding update_delivery_status
messages-update_delivery_status env id d e reason s = ground arith

-- A status update of a message takes effect exactly if the new status ranks above the message's, or
-- is FAILED; otherwise the message stays as it is. Other messages are not touched.
find-update_delivery_status :
    (env : Env) (id i : ℕ) (d : DeliveryStatus) (e : Option ℕ) (reason : Option String) (s : World)
    → find_first (message_by i) (update_delivery_status env id d e reason s).1.messages
      ≡ Option.map
          (λ m. if i == id then after_update env.now d reason m else m)
          (find_first (message_by i) s.messages)
find-update_delivery_status env id i d e reason s =
    rw
      (
        messages-update_delivery_status env id d e reason s,
        find_first-update_where (accepts id d) (message_by i) (deliver env.now d reason) (λ a. refl)
            s.messages,
      )
      (at_row (find_first (message_by i) s.messages) (find_first-IsTrue (message_by i) s.messages))
  where
    at_row :
        (o : Option Message)
        → ((m : Message) → o ≡ some m → message_by i m ≡ true)
        → Option.map (edit (accepts id d) (deliver env.now d reason)) o
          ≡ Option.map (λ m. if i == id then after_update env.now d reason m else m) o
    at_row none h = refl
    at_row (some m) h =
        ap some (ground (arith, h m refl, admits-lower_statuses d m.delivery_status))

-- Statuses that the provider reports, one after another, for one message.
unfoldable pub report_all : Env → ℕ → List DeliveryStatus → World → World
report_all env id [] s = s
report_all env id (d ∷ ds) s = report_all env id ds (update_delivery_status env id d none none s).1

abbrev pub NoFailure : List DeliveryStatus → Type 0
NoFailure [] = Unit {0}
NoFailure (d ∷ ds) = (is_failed d ≡ false) × NoFailure ds

-- Whatever is reported for a message in whatever order, short of FAILED, its status never falls in
-- rank, and ends at least as high as every status reported.
pub report_all-rank :
    (env : Env) (id : ℕ) (ds : List DeliveryStatus) (s : World) (m : Message)
    → NoFailure ds
    → find_first (message_by id) s.messages ≡ some m
    → (n : Message) × (find_first (message_by id) (report_all env id ds s).messages ≡ some n)
      × (rank m.delivery_status ≤ rank n.delivery_status)
      × All (λ d. rank d ≤ rank n.delivery_status) ds
unfolding report_all
report_all-rank env id [] s m h p = (m, p, omega arith, tt)
report_all-rank env id (d ∷ ds) s m h p =
    let t = (update_delivery_status env id d none none s).1 in
    let q : find_first (message_by id) t.messages ≡ some (after_update env.now d none m) =
      find-update_delivery_status env id id d none none s ∙ (rw (p, ==_refl id) refl) in
    let (n, r, le, all) = report_all-rank env id ds t (after_update env.now d none m) h.1 q in
    (n, r, ground arith, (ground arith, all))
