-- ===== src/Inbox/Sequence.antt =====
-- The message numbers of a contact: Contact.lastMessageSeq, the `seq` of its messages, and the
-- unique constraint (contactId, seq) of the schema.
use bravi_ai.Data.{Contact, Message}
use bravi_ai.Prelude.{
  ℕ, List, delete_where, some, find_first, ◌+◌, ◌≤◌, none, ◌∷◌, ◌≡◌, update_where, Bool, subst, ◌<◌,
  [], edit, find_first-update_where, arith, Bool-cases, sym, refl, find_first-IsTrue, inl, inr,
  is_some, true,
}
use mathlib.Core.Option.{Option}
use mathlib.Core.Option
use bravi_ai.Store.{contact_by}

-- The watermark of a contact; 0 if there is none.
abbrev pub watermark_of : Option Contact → ℕ
watermark_of none = 0
watermark_of (some c) = c.last_message_seq

abbrev pub watermark : ℕ → List Contact → ℕ
watermark c cs = watermark_of (find_first (contact_by c) cs)

-- No earlier message of the contact has reached `seq`.
abbrev pub Above : ℕ → ℕ → List Message → Type 0
Above c seq [] = Unit {0}
Above c seq (m ∷ ms) = (m.contact_id ≡ c → m.seq < seq) × Above c seq ms

-- In the table, newest first, the numbers of each contact fall strictly and none is above the
-- contact's watermark.
abbrev pub IsNumbered : List Contact → List Message → Type 0
IsNumbered cs [] = Unit {0}
IsNumbered cs (m ∷ ms) =
    (m.seq ≤ watermark m.contact_id cs) × Above m.contact_id m.seq ms × IsNumbered cs ms

abbrev pub bump : Contact → Contact
bump c = record c { last_message_seq = c.last_message_seq + 1 }

-- One call leaves the messages and lowers no watermark, adds the next message of one contact, or
-- deletes messages.
pub data Numbering (cs : List Contact) (ms : List Message) (ds : List Contact) (ns : List Message)
    : Type 0 where
  quiet : ((c : ℕ) → watermark c cs ≤ watermark c ds) → ns ≡ ms → Numbering cs ms ds ns
  numbered :
      (m : Message)
      → is_some (find_first (contact_by m.contact_id) cs) ≡ true
      → ds ≡ update_where (contact_by m.contact_id) bump cs
      → m.seq ≡ watermark m.contact_id cs + 1
      → ns ≡ m ∷ ms
      → Numbering cs ms ds ns
  fewer : (gone : Message → Bool) → ds ≡ cs → ns ≡ delete_where gone ms → Numbering cs ms ds ns

watermark-bump :
    (c d : ℕ) (cs : List Contact)
    → watermark c cs ≤ watermark c (update_where (contact_by d) bump cs)
watermark-bump c d cs =
    rw (find_first-update_where (contact_by d) (contact_by c) bump (λ a. refl) cs)
      (raise (find_first (contact_by c) cs))
  where
    raise :
        (o : Option Contact)
        → watermark_of o ≤ watermark_of (Option.map (edit (contact_by d) bump) o)
    raise none = omega arith
    raise (some k) = ground arith

watermark-bump_self :
    (c : ℕ) (cs : List Contact)
    → is_some (find_first (contact_by c) cs) ≡ true
    → watermark c (update_where (contact_by c) bump cs) ≡ watermark c cs + 1
watermark-bump_self c cs h =
    rw (find_first-update_where (contact_by c) (contact_by c) bump (λ a. refl) cs)
      (raise (find_first (contact_by c) cs) h (find_first-IsTrue (contact_by c) cs))
  where
    raise :
        (o : Option Contact)
        → is_some o ≡ true
        → ((k : Contact) → o ≡ some k → contact_by c k ≡ true)
        → watermark_of (Option.map (edit (contact_by c) bump) o) ≡ watermark_of o + 1
    raise none h f = cc
    raise (some k) h f = rw (f k refl) refl

IsNumbered-mono :
    (cs ds : List Contact) (ms : List Message)
    → ((c : ℕ) → watermark c cs ≤ watermark c ds)
    → IsNumbered cs ms
    → IsNumbered ds ms
IsNumbered-mono cs ds [] h n = tt
IsNumbered-mono cs ds (m ∷ ms) h n =
    (omega (arith, h m.contact_id), n.1, IsNumbered-mono cs ds ms h n.2)

Above-delete :
    (c seq : ℕ) (gone : Message → Bool) (ms : List Message)
    → Above c seq ms
    → Above c seq (delete_where gone ms)
unfolding delete_where
Above-delete c seq gone [] a = tt
Above-delete c seq gone (m ∷ ms) a = elim (Bool-cases (gone m)) [
  | inl t ↦ rw t (Above-delete c seq gone ms a.1)
  | inr t ↦ rw t (a.0, Above-delete c seq gone ms a.1)
]

IsNumbered-delete :
    (cs : List Contact) (gone : Message → Bool) (ms : List Message)
    → IsNumbered cs ms
    → IsNumbered cs (delete_where gone ms)
unfolding delete_where
IsNumbered-delete cs gone [] n = tt
IsNumbered-delete cs gone (m ∷ ms) n = elim (Bool-cases (gone m)) [
  | inl t ↦ rw t (IsNumbered-delete cs gone ms n.2)
  | inr t ↦
      rw t (n.0, Above-delete m.contact_id m.seq gone ms n.1, IsNumbered-delete cs gone ms n.2)
]

pub Above-watermark :
    (c : ℕ) (cs : List Contact) (ms : List Message)
    → IsNumbered cs ms
    → Above c (watermark c cs + 1) ms
Above-watermark c cs [] n = tt
Above-watermark c cs (m ∷ ms) n = ((λ h. omega (arith, below h)), Above-watermark c cs ms n.2)
  where
    below : m.contact_id ≡ c → m.seq ≤ watermark c cs
    below h = subst (λ d. m.seq ≤ watermark d cs) h n.0

-- Each kind of call keeps the numbering.
pub Numbering-IsNumbered :
    {cs ds : List Contact} {ms ns : List Message}
    → Numbering cs ms ds ns
    → IsNumbered cs ms
    → IsNumbered ds ns
Numbering-IsNumbered {cs} {ds} {ms} (quiet h p) n = rw p (IsNumbered-mono cs ds ms h n)
Numbering-IsNumbered {cs} {ds} {ms} (numbered m p q w x) n = rw x (
    rw q (
      omega (arith, w, watermark-bump_self m.contact_id cs p),
      subst (λ j. Above m.contact_id j ms) (sym w) (Above-watermark m.contact_id cs ms n),
      subst (λ es. IsNumbered es ms) (sym q)
          (IsNumbered-mono cs (update_where (contact_by m.contact_id) bump cs) ms
            (λ d. watermark-bump d m.contact_id cs) n),
    ))
Numbering-IsNumbered {cs} {ds} {ms} (fewer gone p q) n = rw (p, q) (IsNumbered-delete cs gone ms n)
