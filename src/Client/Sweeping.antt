-- ===== src/Client/Sweeping.antt =====
-- The outbox of frontend/stores/inboxStore.ts and its sweeper.
use bravi_ai.Chat.Paging.Unique.{Distinct}
use mathlib.Core.Option
use bravi_ai.Client.Maps.{get, values, get-put_key}
use bravi_ai.Client.InboxStore.{
  mark_outbox_failed, sweep_entries, InboxStore, OutboxEntry, is_stuck, fail_entry,
  sweep_stuck_outbox_messages, is_sending, failed,
}
use bravi_ai.Prelude.{
  ℕ, Bool, List, Option, false, some, ◌≡◌, ◌∷◌, if◌then◌else◌, ◌==◌, [], ◌&&◌, none, ◌||◌, refl,
  true, sym, Option-cases, Bool-cases, All, ◌⊎◌, inl, ◌≢◌, ◌∙◌, ==_iff, ap, inr, arith, subst, ltb,
  ◌-◌,
}

-- Some entry of the list that is stuck has the identifier.
abbrev stuck_in : ℕ → ℕ → List OutboxEntry → Bool
stuck_in now k [] = false
stuck_in now k (e ∷ es) = is_stuck now e && e.client_message_id == k || stuck_in now k es

abbrev fail_if : Bool → Option OutboxEntry → Option OutboxEntry
fail_if b none = none
fail_if b (some e) = some (if b then fail_entry e else e)

fail_if-false : (o : Option OutboxEntry) → fail_if false o ≡ o
fail_if-false none = refl
fail_if-false (some e) = refl

fail_if_twice : (a b : Bool) (o : Option OutboxEntry) → fail_if b (fail_if a o) ≡ fail_if (a || b) o
fail_if_twice a b none = refl
fail_if_twice true true (some e) = refl
fail_if_twice true false (some e) = refl
fail_if_twice false b (some e) = refl

get-mark_failed :
    (i k : ℕ) (s : InboxStore)
    → get k (mark_outbox_failed i s).outbox ≡ fail_if (i == k) (get k s.outbox)
unfolding mark_outbox_failed
get-mark_failed i k s = elim (Option-cases (get i s.outbox)) [
  | inl h ↦ rw h (missing (Bool-cases (i == k)) h)
  | inr (e, h) ↦ rw (h, get-put_key i k (fail_entry e) s.outbox) (present e (Bool-cases (i == k)) h)
]
  where
    missing :
        (i == k ≡ true) ⊎ (i == k ≡ false)
        → get i s.outbox ≡ none
        → get k s.outbox ≡ fail_if (i == k) (get k s.outbox)
    missing (inl e) h =
        let p : i ≡ k = (==_iff i k).0 e in rw (e, subst (λ j. get j s.outbox ≡ none) p h) refl
    missing (inr e) h = rw e (sym (fail_if-false (get k s.outbox)))

    present :
        (e : OutboxEntry)
        → (i == k ≡ true) ⊎ (i == k ≡ false)
        → get i s.outbox ≡ some e
        → (if i == k then some (fail_entry e) else get k s.outbox)
          ≡ fail_if (i == k) (get k s.outbox)
    present e (inl q) h =
        let p : i ≡ k = (==_iff i k).0 q in rw (q, subst (λ j. get j s.outbox ≡ some e) p h) refl
    present e (inr q) h = rw q (sym (fail_if-false (get k s.outbox)))

sweep_entries-get :
    (now k : ℕ) (es : List OutboxEntry) (s : InboxStore)
    → get k (sweep_entries now es s).outbox ≡ fail_if (stuck_in now k es) (get k s.outbox)
unfolding sweep_entries
sweep_entries-get now k [] s = sym (fail_if-false (get k s.outbox))
sweep_entries-get now k (e ∷ es) s =
    one (is_stuck now e) (sweep_entries-get now k es (mark_outbox_failed e.client_message_id s))
      (sweep_entries-get now k es s)
  where
    one :
        (b : Bool)
        → get k (sweep_entries now es (mark_outbox_failed e.client_message_id s)).outbox
          ≡ fail_if (stuck_in now k es) (get k (mark_outbox_failed e.client_message_id s).outbox)
        → get k (sweep_entries now es s).outbox ≡ fail_if (stuck_in now k es) (get k s.outbox)
        → get k
            (sweep_entries now es
              (if b then mark_outbox_failed e.client_message_id s else s)).outbox
          ≡ fail_if (b && e.client_message_id == k || stuck_in now k es) (get k s.outbox)
    one true x y =
        x
        ∙ ap (fail_if (stuck_in now k es)) (get-mark_failed e.client_message_id k s)
        ∙ fail_if_twice (e.client_message_id == k) (stuck_in now k es) (get k s.outbox)
    one false x y = y

-- Only the outbox changes.
abbrev with_outbox : List (ℕ × OutboxEntry) → InboxStore → InboxStore
with_outbox o s = record s { outbox = o }

mark_failed-rest :
    (i : ℕ) (s : InboxStore) → with_outbox [] (mark_outbox_failed i s) ≡ with_outbox [] s
unfolding mark_outbox_failed
mark_failed-rest i s = elim (Option-cases (get i s.outbox)) [
  | inl h ↦ rw h refl
  | inr (e, h) ↦ rw h refl
]

sweep_entries-rest :
    (now : ℕ) (es : List OutboxEntry) (s : InboxStore)
    → with_outbox [] (sweep_entries now es s) ≡ with_outbox [] s
unfolding sweep_entries
sweep_entries-rest now [] s = refl
sweep_entries-rest now (e ∷ es) s =
    one (is_stuck now e) (sweep_entries-rest now es (mark_outbox_failed e.client_message_id s))
      (sweep_entries-rest now es s)
  where
    one :
        (b : Bool)
        → with_outbox [] (sweep_entries now es (mark_outbox_failed e.client_message_id s))
          ≡ with_outbox [] (mark_outbox_failed e.client_message_id s)
        → with_outbox [] (sweep_entries now es s) ≡ with_outbox [] s
        → with_outbox []
            (sweep_entries now es (if b then mark_outbox_failed e.client_message_id s else s))
          ≡ with_outbox [] s
    one true x y = x ∙ mark_failed-rest e.client_message_id s
    one false x y = y

-- Every entry stands under its own identifier, and no two under one.
abbrev pub IsKeyed : List (ℕ × OutboxEntry) → Type 0
IsKeyed o = All (λ p. p.1.client_message_id ≡ p.0) o × Distinct (λ p. p.0) o

abbrev stuck_at : ℕ → Option OutboxEntry → Bool
stuck_at now none = false
stuck_at now (some e) = is_stuck now e

stuck_nowhere :
    (now k : ℕ) (o : List (ℕ × OutboxEntry))
    → All (λ p. p.1.client_message_id ≡ p.0) o
    → All (λ p. k ≢ p.0) o
    → stuck_in now k (values o) ≡ false
unfolding values
stuck_nowhere now k [] h n = refl
stuck_nowhere now k ((j, e) ∷ o) h n =
    rw (stuck_nowhere now k o h.1 n.1) (apart (is_stuck now e) h.0 n.0)
  where
    apart :
        (b : Bool)
        → e.client_message_id ≡ j
        → k ≢ j
        → (b && e.client_message_id == k || false) ≡ false
    apart true p q = ground (arith, p, q)
    apart false p q = refl

stuck_in-values :
    (now k : ℕ) (o : List (ℕ × OutboxEntry))
    → IsKeyed o
    → stuck_in now k (values o) ≡ stuck_at now (get k o)
unfolding values get Distinct
stuck_in-values now k [] h = refl
stuck_in-values now k ((j, e) ∷ o) h = elim (Bool-cases (j == k)) [
  | inl q ↦
      let p : j ≡ k = (==_iff j k).0 q in
      rw (h.0.0, q, stuck_nowhere now k o h.0.1 (subst (λ i. All (λ x. i ≢ x.0) o) p h.1.0))
        (last_true (is_stuck now e))
  | inr q ↦ rw (h.0.0, q, stuck_in-values now k o (h.0.1, h.1.1)) (and_no (is_stuck now e) _)
]
  where
    last_true : (b : Bool) → (b && true || false) ≡ b
    last_true true = refl
    last_true false = refl

    and_no : (b c : Bool) → (b && false || c) ≡ c
    and_no true c = refl
    and_no false c = refl

abbrev pub swept : ℕ → OutboxEntry → OutboxEntry
swept now e =
    if is_sending e.status && ltb 30000 (now - e.first_attempt_at)
    then record e { status = failed }
    else e

-- If the entries of the outbox stand under their own identifiers, each under one, the sweep marks
-- exactly those as failed that have been sending for more than 30 seconds, and changes nothing else
-- of the store.
pub sweep_stuck_outbox_messages-get :
    (now k : ℕ) (s : InboxStore)
    → IsKeyed s.outbox
    → let t = sweep_stuck_outbox_messages now s in
      (get k t.outbox ≡ Option.map (swept now) (get k s.outbox))
      × (record t { outbox = s.outbox } ≡ s)
unfolding sweep_stuck_outbox_messages
sweep_stuck_outbox_messages-get now k s h = (
  sweep_entries-get now k (values s.outbox) s
      ∙ ap (λ b. fail_if b (get k s.outbox)) (stuck_in-values now k s.outbox h)
      ∙ map_swept (get k s.outbox),
  ap (with_outbox s.outbox) (sweep_entries-rest now (values s.outbox) s),
)
  where
    map_swept : (o : Option OutboxEntry) → fail_if (stuck_at now o) o ≡ Option.map (swept now) o
    map_swept none = refl
    map_swept (some e) = refl
