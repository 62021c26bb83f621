-- ===== src/Inbox/Concurrency.antt =====
-- The optimistic concurrency check of statusChange and assign in
-- backend/src/modules/enquiry/enquiry.service.ts.
use bravi_ai.Enquiry.Changes.{status_change-Change, assign-Change}
use bravi_ai.Inbox.History.{Reach, Descends, Continues, Reach-Continues}
use bravi_ai.Enquiry.Unique.{UniqueIds, Change-UniqueIds}
use bravi_ai.Enquiry.Lifecycle.{find_edited_self}
use bravi_ai.Store.{enquiry_by}
use bravi_ai.Prelude.{
  ℕ, ◌≡◌, String, Option, ◌⊎◌, find_first, ◌+◌, some, ◌<◌, arith, inr, inl, none, refl, subst,
}
use bravi_ai.Data.{World, Env, Enquiry}
use bravi_ai.Enquiry.Manage.{status_change, assign, ChangeStatus, change, give_to}
use bravi_ai.Exec.{Result, err, conflict, ok, not_found}

-- What a refused call returns; the world is the one it was called in.
abbrev pub IsRefused {ℓ} : {A : Type ℓ} → Result A × World → World → Type ℓ
IsRefused r t = (r ≡ (err conflict, t)) ⊎ (r ≡ (err not_found, t))

status_change-refuses :
    (env : Env) (i : ℕ) (dto : ChangeStatus) (u : Option String) (t : World) (o : Option Enquiry)
    → find_first (enquiry_by i) t.enquiries ≡ o
    → ((f : Enquiry) → o ≡ some f → dto.version < f.version)
    → IsRefused (status_change env i dto u t) t
unfolding status_change
status_change-refuses env i dto u t none p h = inr (rw p)
status_change-refuses env i dto u t (some f) p h = inl (ground (arith, h f refl))

assign-refuses :
    (env : Env) (i : ℕ) (user : String) (version : ℕ) (t : World) (o : Option Enquiry)
    → find_first (enquiry_by i) t.enquiries ≡ o
    → ((f : Enquiry) → o ≡ some f → version < f.version)
    → IsRefused (assign env i user version t) t
unfolding assign
assign-refuses env i user version t none p h = inr (rw p)
assign-refuses env i user version t (some f) p h = inl (ground (arith, h f refl))

-- The row of `i` in the world after a call that returned `row` is `row`, at the next version.
abbrev pub Wrote : ℕ → ℕ → Result Enquiry × World → Enquiry → Type 0
Wrote i version r row =
    (row.version ≡ version + 1) × (find_first (enquiry_by i) r.1.enquiries ≡ some row)

status_change-Wrote :
    (env : Env) (i : ℕ) (dto : ChangeStatus) (u : Option String) (s : World) (row : Enquiry)
    (o : Option Enquiry)
    → find_first (enquiry_by i) s.enquiries ≡ o
    → (status_change env i dto u s).0 ≡ ok row
    → Wrote i dto.version (status_change env i dto u s) row
unfolding status_change
status_change-Wrote env i dto u s row none p h = ground arith
status_change-Wrote env i dto u s row (some e) p h =
    ground (arith, find_edited_self env.now i (change env.now dto) s.enquiries e (λ a. refl) p)

assign-Wrote :
    (env : Env) (i : ℕ) (user : String) (version : ℕ) (s : World) (row : Enquiry)
    (o : Option Enquiry)
    → find_first (enquiry_by i) s.enquiries ≡ o
    → (assign env i user version s).0 ≡ ok row
    → Wrote i version (assign env i user version s) row
unfolding assign
assign-Wrote env i user version s row none p h = ground arith
assign-Wrote env i user version s row (some e) p h =
    ground (arith, find_edited_self env.now i (give_to env.now user) s.enquiries e (λ a. refl) p)

newer_after :
    (i version : ℕ) {s t : World} (row : Enquiry)
    → UniqueIds s.enquiries
    → find_first (enquiry_by i) s.enquiries ≡ some row
    → row.version ≡ version + 1
    → Reach i s t
    → (f : Enquiry) → find_first (enquiry_by i) t.enquiries ≡ some f
    → version < f.version
newer_after i version row u p v r f q =
    let d : Descends row f = subst (Continues row) q (Reach-Continues i row u r p) in omega arith

-- No lost update: once a status change made against a version has succeeded, then after any history of
-- calls with fresh identifiers a status change and an assignment against that version are both
-- refused, with a conflict or because the enquiry is deleted, and change nothing. The identifiers of
-- the table are distinct.
pub second_write-IsRefused :
    (env : Env) (i : ℕ) (dto : ChangeStatus) (u : Option String) (s : World) (row : Enquiry)
    {t : World}
    → UniqueIds s.enquiries
    → (status_change env i dto u s).0 ≡ ok row
    → Reach i (status_change env i dto u s).1 t
    → (later : Env) (dto' : ChangeStatus) (u' : Option String) (user : String)
    → dto'.version ≡ dto.version
    → IsRefused (status_change later i dto' u' t) t
      × IsRefused (assign later i user dto.version t) t
second_write-IsRefused env i dto u s row {t} k h r later dto' u' user v =
    let w = status_change-Wrote env i dto u s row (find_first (enquiry_by i) s.enquiries) refl h in
    let k' = Change-UniqueIds (status_change-Change env i s dto u) k in
    let n = newer_after i dto.version row k' w.1 w.0 r in
    (
      status_change-refuses later i dto' u' t _ refl (λ a p. rw v (n a p)),
      assign-refuses later i user dto.version t _ refl n,
    )

-- The same after an assignment: once one made against a version has succeeded, then after any history
-- of calls with fresh identifiers a status change and an assignment against that version are both
-- refused, with a conflict or because the enquiry is deleted, and change nothing. The identifiers of
-- the table are distinct.
second_write_after_assign-IsRefused :
    (env : Env) (i : ℕ) (user : String) (version : ℕ) (s : World) (row : Enquiry) {t : World}
    → UniqueIds s.enquiries
    → (assign env i user version s).0 ≡ ok row
    → Reach i (assign env i user version s).1 t
    → (later : Env) (dto' : ChangeStatus) (u' : Option String) (user' : String)
    → dto'.version ≡ version
    → IsRefused (status_change later i dto' u' t) t × IsRefused (assign later i user' version t) t
second_write_after_assign-IsRefused env i user version s row {t} k h r later dto' u' user' v =
    let w = assign-Wrote env i user version s row (find_first (enquiry_by i) s.enquiries) refl h in
    let k' = Change-UniqueIds (assign-Change env i s user version) k in
    let n = newer_after i version row k' w.1 w.0 r in
    (
      status_change-refuses later i dto' u' t _ refl (λ a p. rw v (n a p)),
      assign-refuses later i user' version t _ refl n,
    )
