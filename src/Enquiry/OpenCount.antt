-- ===== src/Enquiry/OpenCount.antt =====
-- Counting the open enquiries of a contact.
use bravi_ai.Enquiry.Changes.{Edits}
use bravi_ai.Store.{enquiry_by, open_for, stamp}
use bravi_ai.Enquiry.Unique.{UniqueIds}
use bravi_ai.Prelude.{
  ℕ, List, [], ◌∷◌, ◌≡◌, ◌≤◌, ◌+◌, arith, Bool-cases, if◌then◌else◌, find_first, some, none, refl,
  update_where, delete_where, ◌==◌, Bool, inl, subst, ==_iff, inr,
}
use bravi_ai.Data.{Enquiry}

abbrev pub open_here : ℕ → Enquiry → ℕ
open_here c e = if open_for c e then 1 else 0

-- The open enquiries of a contact.
unfoldable pub open_count : ℕ → List Enquiry → ℕ
open_count c [] = 0
open_count c (e ∷ es) = open_here c e + open_count c es

abbrev pub OneOpen : List Enquiry → Type 0
OneOpen es = (c : ℕ) → open_count c es ≤ 1

pub count_zero :
    (c : ℕ) (es : List Enquiry) → find_first (open_for c) es ≡ none → open_count c es ≡ 0
unfolding open_count find_first
count_zero c [] h = refl
count_zero c (e ∷ es) h = ground (arith, count_zero c es)

update_absent :
    (id : ℕ) (f : Enquiry → Enquiry) (es : List Enquiry)
    → find_first (enquiry_by id) es ≡ none
    → update_where (enquiry_by id) f es ≡ es
unfolding find_first update_where
update_absent id f [] h = refl
update_absent id f (e ∷ es) h = ground (arith, update_absent id f es)

-- An edit of one row changes the count by that row.
pub count_update :
    (c id : ℕ) (f : Enquiry → Enquiry) (es : List Enquiry) (e : Enquiry)
    → UniqueIds es
    → find_first (enquiry_by id) es ≡ some e
    → open_count c (update_where (enquiry_by id) f es) + open_here c e
      ≡ open_count c es + open_here c (f e)
unfolding open_count find_first update_where
count_update c id f [] e u h = cc
count_update c id f (x ∷ es) e u h = elim (Bool-cases (x.id == id)) [
  | inl k ↦
      let absent : find_first (enquiry_by id) es ≡ none =
        subst (λ i. find_first (enquiry_by i) es ≡ none) ((==_iff x.id id).0 k) u.0 in
      let same : x ≡ e = ground (arith, k, h) in
      rw (k, update_absent id f es absent, same) (omega arith)
  | inr k ↦ let rest = count_update c id f es e u.1 (rw k at h) in rw k (omega (arith, rest))
]

pub count_delete :
    (c : ℕ) (gone : Enquiry → Bool) (es : List Enquiry)
    → open_count c (delete_where gone es) ≤ open_count c es
unfolding open_count delete_where
count_delete c gone [] = omega arith
count_delete c gone (e ∷ es) = ground (arith, count_delete c gone es)

pub Edits-count :
    (P : Enquiry → Type 0) (now id : ℕ) (f : Enquiry → Enquiry) {es fs : List Enquiry}
    → UniqueIds es
    → ((e : Enquiry) → P e → (c : ℕ) → open_here c (stamp now f e) ≤ open_here c e)
    → Edits P now id f es fs
    → (c : ℕ) → open_count c fs ≤ open_count c es
Edits-count P now id f u h (inl p) c = rw p (omega arith)
Edits-count P now id f {es} u h (inr (e, p, q, r)) c =
    rw r (omega (arith, count_update c id (stamp now f) es e u p, h e q c))

-- One more open row for a contact that had none.
pub added-OneOpen :
    (e : Enquiry) (es : List Enquiry)
    → find_first (open_for e.contact_id) es ≡ none
    → OneOpen es
    → OneOpen (e ∷ es)
unfolding open_count
added-OneOpen e es h o c = elim (Bool-cases (e.contact_id == c)) [
  | inl k ↦
      let none_here : open_count c es ≡ 0 =
        count_zero c es
          (subst (λ i. find_first (open_for i) es ≡ none) ((==_iff e.contact_id c).0 k) h) in
      ground (arith, none_here)
  | inr k ↦ ground (arith, k, o c)
]
