-- ===== src/Enquiry/Status.antt =====
-- backend/src/modules/enquiry/enquiry.state.ts
use bravi_ai.Prelude.{◌≡◌, Bool, true, false, ◌||◌, List, [], ◌∷◌, arith, ◌⊎◌}
use bravi_ai.Data.{EnquiryStatus, same_status}
use bravi_ai.Data.EnquiryStatus.{
  new, open_, in_progress, awaiting_customer, quotation_sent, follow_up, stale, converted,
  closed_lost,
}

-- ENQUIRY_TRANSITIONS
unfoldable pub transitions : EnquiryStatus → List EnquiryStatus
transitions new = open_ ∷ in_progress ∷ closed_lost ∷ []
transitions open_ = in_progress ∷ quotation_sent ∷ follow_up ∷ converted ∷ closed_lost ∷ []
transitions in_progress =
    awaiting_customer ∷ quotation_sent ∷ follow_up ∷ converted ∷ closed_lost ∷ []
transitions awaiting_customer = in_progress ∷ follow_up ∷ stale ∷ converted ∷ closed_lost ∷ []
transitions quotation_sent =
    in_progress ∷ follow_up ∷ awaiting_customer ∷ converted ∷ closed_lost ∷ []
transitions follow_up = in_progress ∷ awaiting_customer ∷ stale ∷ converted ∷ closed_lost ∷ []
transitions stale = in_progress ∷ open_ ∷ follow_up ∷ closed_lost ∷ []
transitions converted = []
transitions closed_lost = open_ ∷ []

unfoldable pub includes : EnquiryStatus → List EnquiryStatus → Bool
includes t [] = false
includes t (s ∷ ss) = same_status s t || includes t ss

-- A row may move from one status to the other: it stays, or the table lists the move.
abbrev pub Moves : EnquiryStatus → EnquiryStatus → Type 0
Moves s t = (s ≡ t) ⊎ (includes t (transitions s) ≡ true)

-- A converted enquiry moves nowhere.
pub Moves-converted : (t : EnquiryStatus) → Moves converted t → t ≡ converted
unfolding transitions includes
Moves-converted t m = ground arith
