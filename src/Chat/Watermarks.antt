-- ===== src/Chat/Watermarks.antt =====
-- What the receipts of a room say: computeRoomReceipts of backend/src/modules/chat/chat.service.ts.
use bravi_ai.Exec.{ok}
use bravi_ai.Data.{ChatParticipant, World}
use bravi_ai.Chat.Receipts.{min_from, compute_room_receipts, receipts_of, members_of, Receipts}
use bravi_ai.Prelude.{
  ℕ, List, [], ◌∷◌, Option, none, some, ◌≤◌, ◌↔◌, refl, All, arith, if◌then◌else◌, ltb, length, map,
  ◌≡◌,
}

-- A watermark at or past a time.
abbrev pub Reached : ℕ → Option ℕ → Type 0
Reached t none = ⊥
Reached t (some w) = t ≤ w

min_from-Reached :
    (t m : ℕ) (ds : List (Option ℕ))
    → Reached t (min_from (some m) ds) ↔ ((t ≤ m) × All (Reached t) ds)
unfolding min_from
min_from-Reached t m [] = (λ h. (h, tt), λ h. h.0)
min_from-Reached t m (none ∷ ds) = (λ h. absurd h, λ h. absurd h.1.0)
min_from-Reached t m (some d ∷ ds) =
    ground (arith, min_from-Reached t (if ltb d m then d else m) ds)

-- What all the active members of a room have reached, when they are at least two.
abbrev pub AllReached : (ChatParticipant → Option ℕ) → ℕ → List ChatParticipant → Type 0
AllReached mark t members = (2 ≤ length members) × All (Reached t) (map mark members)

min_from-none-Reached :
    (t : ℕ) (d : Option ℕ) (ds : List (Option ℕ))
    → Reached t (min_from none (d ∷ ds)) ↔ All (Reached t) (d ∷ ds)
unfolding min_from
min_from-none-Reached t none ds = (λ h. absurd h, λ h. absurd h.0)
min_from-none-Reached t (some d) ds = min_from-Reached t d ds

receipts_of-Reached :
    (t : ℕ) (ps : List ChatParticipant)
    → (Reached t (receipts_of ps).0 ↔ AllReached (λ p. p.last_delivered_at) t ps)
      × (Reached t (receipts_of ps).1 ↔ AllReached (λ p. p.last_read_at) t ps)
receipts_of-Reached t [] =
    ((λ h. absurd h, λ h. ground (arith, h.0)), (λ h. absurd h, λ h. ground (arith, h.0)))
receipts_of-Reached t (p ∷ []) =
    ((λ h. absurd h, λ h. ground (arith, h.0)), (λ h. absurd h, λ h. ground (arith, h.0)))
receipts_of-Reached t (p ∷ q ∷ ps) =
    let delivered =
      min_from-none-Reached t p.last_delivered_at
        (map (λ (x : ChatParticipant). x.last_delivered_at) (q ∷ ps)) in
    let read =
      min_from-none-Reached t p.last_read_at
        (map (λ (x : ChatParticipant). x.last_read_at) (q ∷ ps)) in
    ground (arith, delivered, read)

-- The receipts of a room are what they stand for: a time is covered by deliveredUpTo, or by readUpTo,
-- exactly when the room has two active members or more and each of them has a watermark for
-- delivery, or for reading, that is not before that time. Computing them changes nothing.
pub compute_room_receipts-Reached :
    (room t : ℕ) (s : World)
    → (r : Receipts) × (compute_room_receipts room s ≡ (ok r, s))
      × (Reached t r.0 ↔ AllReached (λ p. p.last_delivered_at) t (members_of room s))
      × (Reached t r.1 ↔ AllReached (λ p. p.last_read_at) t (members_of room s))
unfolding compute_room_receipts
compute_room_receipts-Reached room t s =
    let both = receipts_of-Reached t (members_of room s) in
    (receipts_of (members_of room s), refl, both.0, both.1)
