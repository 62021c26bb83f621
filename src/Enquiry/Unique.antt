-- ===== src/Enquiry/Unique.antt =====
-- The primary key of the enquiry table: no two rows share an identifier.
use bravi_ai.Store.{enquiry_by, stamp}
use bravi_ai.Ingestion.Ingest.{latest_updated, newer}
use bravi_ai.Prelude.{
  find_first, List, find_many, ◌∷◌, Bool, ◌≡◌, none, some, true, Bool-cases, inl, arith, inr, ◌==◌,
  ==_iff, [], subst, ==_refl, Option, update_where, delete_where, ℕ, ◌⊎◌, edit, refl, sym,
}
use bravi_ai.Data.{Enquiry}
use bravi_ai.Enquiry.Lifecycle.{Change, kept, edited, added, removed, find_none-delete}

abbrev pub UniqueIds : List Enquiry → Type 0
UniqueIds [] = Unit {0}
UniqueIds (e ∷ es) = (find_first (enquiry_by e.id) es ≡ none) × UniqueIds es

find_skip :
    (x f : Enquiry) (es : List Enquiry)
    → find_first (enquiry_by x.id) es ≡ none
    → find_first (enquiry_by f.id) es ≡ some f
    → find_first (enquiry_by f.id) (x ∷ es) ≡ some f
unfolding find_first
find_skip x f es u h = elim (Bool-cases (x.id == f.id)) [
  | inl k ↦
      let miss = subst (λ i. find_first (enquiry_by i) es ≡ none) ((==_iff x.id f.id).0 k) u in
      cc (miss, h)
  | inr k ↦ rw k h
]

find_self : (x : Enquiry) (es : List Enquiry) → find_first (enquiry_by x.id) (x ∷ es) ≡ some x
unfolding find_first
find_self x es = rw (==_refl x.id)

newer-cases :
    (x : Enquiry) (o : Option Enquiry) {e : Enquiry} → newer x o ≡ some e → (x ≡ e) ⊎ (o ≡ some e)
newer-cases x none h = inl (ground arith)
newer-cases x (some f) h = ground arith

-- The row that a query picks from the table is the one that its identifier finds.
pub find_first-latest_updated :
    (q : Enquiry → Bool) (es : List Enquiry) (e : Enquiry)
    → UniqueIds es
    → latest_updated (find_many q es) ≡ some e
    → (find_first (enquiry_by e.id) es ≡ some e) × (q e ≡ true)
unfolding find_many latest_updated
find_first-latest_updated q [] e u h = cc
find_first-latest_updated q (x ∷ es) e u h = elim (Bool-cases (q x)) [
  | inl t ↦ elim (newer-cases x (latest_updated (find_many q es)) (rw t at h)) [
    | inl p ↦
        subst (λ y. (find_first (enquiry_by y.id) (x ∷ es) ≡ some y) × (q y ≡ true)) p
          (find_self x es, t)
    | inr p ↦ let ih = find_first-latest_updated q es e u.1 p in (find_skip x e es u.0 ih.0, ih.1)
  ]
  | inr t ↦
      let ih = find_first-latest_updated q es e u.1 (rw t at h) in (find_skip x e es u.0 ih.0, ih.1)
]

find_none-update :
    (now id i : ℕ) (f : Enquiry → Enquiry) (es : List Enquiry)
    → ((a : Enquiry) → (f a).id ≡ a.id)
    → find_first (enquiry_by i) es ≡ none
    → find_first (enquiry_by i) (update_where (enquiry_by id) (stamp now f) es) ≡ none
unfolding find_first update_where
find_none-update now id i f [] k h = refl
find_none-update now id i f (x ∷ es) k h = ground (arith, k x, find_none-update now id i f es k)

update-UniqueIds :
    (now id : ℕ) (f : Enquiry → Enquiry) (es : List Enquiry)
    → ((a : Enquiry) → (f a).id ≡ a.id)
    → UniqueIds es
    → UniqueIds (update_where (enquiry_by id) (stamp now f) es)
unfolding update_where
update-UniqueIds now id f [] k u = tt
update-UniqueIds now id f (x ∷ es) k u =
    (rw same (find_none-update now id x.id f es k u.0), update-UniqueIds now id f es k u.1)
  where
    same : (edit (enquiry_by id) (stamp now f) x).id ≡ x.id
    same = ground (arith, k x)

delete-UniqueIds :
    (gone : Enquiry → Bool) (es : List Enquiry) → UniqueIds es → UniqueIds (delete_where gone es)
unfolding delete_where
delete-UniqueIds gone [] u = tt
delete-UniqueIds gone (x ∷ es) u = elim (Bool-cases (gone x)) [
  | inl t ↦ rw t (delete-UniqueIds gone es u.1)
  | inr t ↦ rw t (find_none-delete gone x.id es u.0, delete-UniqueIds gone es u.1)
]

-- Every change keeps the identifiers distinct.
pub Change-UniqueIds :
    {row : ℕ} {es fs : List Enquiry} → Change row es fs → UniqueIds es → UniqueIds fs
Change-UniqueIds (kept p) u = rw p u
Change-UniqueIds {row} {es} (edited now id f e p k w r) u = rw r (update-UniqueIds now id f es k u)
Change-UniqueIds {row} {es} (added e o p q w r) u =
    rw r (subst (λ k. find_first (enquiry_by k) es ≡ none) (sym o) p, u)
Change-UniqueIds {row} {es} (removed gone p) u = rw p (delete-UniqueIds (λ e. gone e.id) es u)
