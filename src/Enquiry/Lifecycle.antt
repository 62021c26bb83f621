-- ===== src/Enquiry/Lifecycle.antt =====
-- The abstract lifecycle of the enquiry table: what one call of a service may do to it, and what
-- follows for the row of one identifier.
use mathlib.Core.Option
use bravi_ai.Prelude.{
  ℕ, ◌≤◌, ◌≡◌, refl, inl, inr, Bool, true, Option, none, some, List, ◌∷◌, arith, ◌==◌, find_first,
  update_where, delete_where, find_first-update_where, Bool-cases, if◌then◌else◌, ap,
  find_first-IsTrue, ==_iff, subst, find_first-delete_where_hidden, ◌∙◌, find_first-delete_where,
  [], ◌≢◌,
}
use bravi_ai.Data.{Enquiry, EnquiryStatus}
use bravi_ai.Store.{enquiry_by, stamp}
use bravi_ai.Enquiry.Status.{Moves}

-- What an edit of a row keeps.
pub record Follows (e f : Enquiry) : Type 0 where
  pub same_id : f.id ≡ e.id
  pub same_contact : f.contact_id ≡ e.contact_id
  pub moves : Moves e.status f.status
  pub version_grows : e.version ≤ f.version
  pub response_kept : (t : ℕ) → e.first_response_at ≡ some t → f.first_response_at ≡ some t

-- One call leaves the table, edits one row, adds a NEW row under the fresh identifier `row`, or
-- deletes.
pub data Change (row : ℕ) (es fs : List Enquiry) : Type 0 where
  kept : fs ≡ es → Change row es fs
  edited :
      (now id : ℕ) (f : Enquiry → Enquiry) (e : Enquiry)
      → find_first (enquiry_by id) es ≡ some e
      → ((a : Enquiry) → (f a).id ≡ a.id)
      → Follows e (stamp now f e)
      → fs ≡ update_where (enquiry_by id) (stamp now f) es
      → Change row es fs
  added :
      (e : Enquiry)
      → e.id ≡ row
      → find_first (enquiry_by row) es ≡ none
      → e.status ≡ EnquiryStatus.new
      → e.version ≡ 1
      → fs ≡ e ∷ es
      → Change row es fs
  removed : (gone : ℕ → Bool) → fs ≡ delete_where (λ (e : Enquiry). gone e.id) es → Change row es fs

-- The row of an identifier after a change: gone, or one that follows the row before.
abbrev pub Succeeds : Enquiry → Option Enquiry → Type 0
Succeeds e none = Unit {0}
Succeeds e (some f) = Follows e f

Follows-refl : (e : Enquiry) → Follows e e
Follows-refl e = record {
  same_id = refl;
  same_contact = refl;
  moves = inl refl;
  version_grows = omega arith;
  response_kept = λ t h. h;
}

pub find_edited :
    (now id i : ℕ) (f : Enquiry → Enquiry) (es : List Enquiry)
    → ((a : Enquiry) → (f a).id ≡ a.id)
    → find_first (enquiry_by i) (update_where (enquiry_by id) (stamp now f) es)
      ≡ Option.map (λ a. if a.id == id then stamp now f a else a) (find_first (enquiry_by i) es)
find_edited now id i f es h =
    find_first-update_where (enquiry_by id) (enquiry_by i) (stamp now f) (λ a. rw h) es

pub find_edited_self :
    (now i : ℕ) (f : Enquiry → Enquiry) (es : List Enquiry) (e : Enquiry)
    → ((a : Enquiry) → (f a).id ≡ a.id)
    → find_first (enquiry_by i) es ≡ some e
    → find_first (enquiry_by i) (update_where (enquiry_by i) (stamp now f) es)
      ≡ some (stamp now f e)
find_edited_self now i f es e h p =
    rw (find_edited now i i f es h, p, find_first-IsTrue (enquiry_by i) es e p)

by_cong : (gone : ℕ → Bool) (i : ℕ) (a : Enquiry) → enquiry_by i a ≡ true → gone a.id ≡ gone i
by_cong gone i a h = ap gone ((==_iff a.id i).0 h)

-- Whatever a change does, a row that was there is succeeded by one that follows it, or deleted.
pub Change-Succeeds :
    (i : ℕ) {row : ℕ} {es fs : List Enquiry} (e : Enquiry)
    → Change row es fs
    → find_first (enquiry_by i) es ≡ some e
    → Succeeds e (find_first (enquiry_by i) fs)
Change-Succeeds i e (kept p) h = rw (p, h) (Follows-refl e)
Change-Succeeds i {es} e (edited now id f a p q w r) h =
    rw (r, find_edited now id i f es q, h)
      (elim (Bool-cases (e.id == id)) [
        | inl t ↦ rw t (subst (λ b. Follows b (stamp now f b)) (same t) w)
        | inr t ↦ rw t (Follows-refl e)
      ])
  where
    same : (e.id == id) ≡ true → a ≡ e
    same t = ground (arith, find_first-IsTrue (enquiry_by i) es e h)
Change-Succeeds i {es} e (added a o p q w r) h = rw r (elim (Bool-cases (a.id == i)) [
  | inl t ↦ absurd (grind (arith))
  | inr t ↦ unfold find_first in rw (t, h) (Follows-refl e)
])
Change-Succeeds i {es} e (removed gone p) h = rw p (elim (Bool-cases (gone i)) [
  | inl t ↦
      rw
        (find_first-delete_where_hidden (λ (b : Enquiry). gone b.id) (enquiry_by i) es
          (λ b k. by_cong gone i b k ∙ t))
        tt
  | inr t ↦
      rw
        (
          find_first-delete_where (λ (b : Enquiry). gone b.id) (enquiry_by i) es
              (λ b k. by_cong gone i b k ∙ t),
          h,
        )
        (Follows-refl e)
])

pub find_none-delete :
    (gone : Enquiry → Bool) (i : ℕ) (es : List Enquiry)
    → find_first (enquiry_by i) es ≡ none
    → find_first (enquiry_by i) (delete_where gone es) ≡ none
unfolding find_first delete_where
find_none-delete gone i [] h = refl
find_none-delete gone i (x ∷ es) h = ground (arith, find_none-delete gone i es)

-- An identifier that is not in the table, and that no new row gets, stays out of it.
pub Change-none :
    (i : ℕ) {row : ℕ} {es fs : List Enquiry}
    → row ≢ i
    → Change row es fs
    → find_first (enquiry_by i) es ≡ none
    → find_first (enquiry_by i) fs ≡ none
Change-none i n (kept p) h = rw (p, h)
Change-none i {row} {es} n (edited now id f a p q w r) h = rw (r, find_edited now id i f es q, h)
Change-none i n (added a o p q w r) h = rw r (unfold find_first in grind (arith))
Change-none i {row} {es} n (removed gone p) h =
    rw p (find_none-delete (λ (e : Enquiry). gone e.id) i es h)
