-- ===== src/Enquiry/Changes.antt =====
-- The methods of backend/src/modules/enquiry/enquiry.service.ts and of
-- backend/src/modules/Ingestion/ingestion.service.ts against the abstract lifecycle.
pub mod Replies
use bravi_ai.Enquiry.Qualified.{handle_qualified, Qualified, qualified_enquiry}
use bravi_ai.Enquiry.Create.{create, CreateEnquiry, new_enquiry}
use bravi_ai.Enquiry.Notes.{add_note, remove, bulk_delete, member}
use bravi_ai.Enquiry.Reply.{respond, await_customer}
use bravi_ai.Prelude.{
  [], ℕ, ◌≡◌, refl, ◌⊎◌, inl, inr, true, String, Option, some, List, arith, find_first,
  update_where, sym, ◌∙◌, ap, or_else, none, delete_where, ◌==◌, ◌∷◌,
}
use bravi_ai.Data.{Enquiry, World, Env, EnquiryStatus}
use bravi_ai.Store.{enquiry_by, stamp}
use bravi_ai.Enquiry.Status.{includes, transitions, Moves}
use bravi_ai.Enquiry.Manage.{status_change, ChangeStatus, change, assign, give_to, update_tags}
use bravi_ai.Enquiry.Lifecycle.{Follows, Change, kept, edited, removed, added}

-- One row that satisfies `P` is edited by `f`, or nothing is.
abbrev pub Edits :
    (Enquiry → Type 0) → ℕ → ℕ → (Enquiry → Enquiry) → List Enquiry → List Enquiry → Type 0
Edits P now id f es fs =
    (fs ≡ es)
    ⊎ ((e : Enquiry) × (find_first (enquiry_by id) es ≡ some e)
        × P e
        × (fs ≡ update_where (enquiry_by id) (stamp now f) es))

pub Edits-Change :
    {row : ℕ} (P : Enquiry → Type 0) (now id : ℕ) (f : Enquiry → Enquiry) {es fs : List Enquiry}
    → ((a : Enquiry) → (f a).id ≡ a.id)
    → ((e : Enquiry) → P e → Follows e (stamp now f e))
    → Edits P now id f es fs
    → Change row es fs
Edits-Change P now id f h k (inl p) = kept p
Edits-Change P now id f h k (inr (e, p, q, r)) = edited now id f e p h (k e q) r

module _ (env : Env) (id : ℕ) (s : World) where
  pub status_change-Edits :
      (dto : ChangeStatus) (u : Option String)
      → Edits
          (λ e. (includes dto.status (transitions e.status) ≡ true) × (e.version ≡ dto.version))
          env.now
          id
          (change env.now dto)
          s.enquiries
          (status_change env id dto u s).1.enquiries
  unfolding status_change
  status_change-Edits dto u = ground arith

  pub status_change-Change :
      (dto : ChangeStatus) (u : Option String)
      → Change env.row_id s.enquiries (status_change env id dto u s).1.enquiries
  status_change-Change dto u =
      Edits-Change _ env.now id (change env.now dto) (λ a. refl)
        (λ e p. record {
          same_id = refl;
          same_contact = refl;
          moves = inr p.0;
          version_grows = omega arith;
          response_kept = λ t h. h;
        })
        (status_change-Edits dto u)

  pub assign-Edits :
      (user : String) (version : ℕ)
      → Edits
          (λ e. Unit {0})
          env.now
          id
          (give_to env.now user)
          s.enquiries
          (assign env id user version s).1.enquiries
  unfolding assign
  assign-Edits user version = ground arith

  give_to-Follows :
      (user : String) (e : Enquiry) → Follows e (stamp env.now (give_to env.now user) e)
  unfolding includes transitions
  give_to-Follows user e = ground arith

  pub assign-Change :
      (user : String) (version : ℕ)
      → Change env.row_id s.enquiries (assign env id user version s).1.enquiries
  assign-Change user version =
      Edits-Change _ env.now id (give_to env.now user) (λ a. refl) (λ e p. give_to-Follows user e)
        (assign-Edits user version)

  pub update_tags-Edits :
      (tags : List String) (u : Option String)
      → Edits
          (λ e. Unit {0})
          env.now
          id
          (λ e. record e { tags = tags; last_activity_at = env.now })
          s.enquiries
          (update_tags env id tags u s).1.enquiries
  unfolding update_tags
  update_tags-Edits tags u = ground arith

  touch-Follows :
      (f : Enquiry → Enquiry)
      → ((a : Enquiry) → (f a).id ≡ a.id)
      → ((a : Enquiry) → (f a).contact_id ≡ a.contact_id)
      → ((a : Enquiry) → (f a).status ≡ a.status)
      → ((a : Enquiry) → (f a).version ≡ a.version)
      → ((a : Enquiry) → (f a).first_response_at ≡ a.first_response_at)
      → (e : Enquiry) → Follows e (stamp env.now f e)
  touch-Follows f h i j k l e = record {
    same_id = h e;
    same_contact = i e;
    moves = inl (sym (j e));
    version_grows = omega (arith, k e);
    response_kept = λ t p. l e ∙ p;
  }

  pub update_tags-Change :
      (tags : List String) (u : Option String)
      → Change env.row_id s.enquiries (update_tags env id tags u s).1.enquiries
  update_tags-Change tags u =
      Edits-Change _ env.now id (λ e. record e { tags = tags; last_activity_at = env.now })
        (λ a. refl)
        (λ e p.
          touch-Follows (λ e. record e { tags = tags; last_activity_at = env.now }) (λ a. refl)
            (λ a. refl) (λ a. refl) (λ a. refl) (λ a. refl) e)
        (update_tags-Edits tags u)

  pub add_note-Edits :
      (content user : String)
      → Edits
          (λ e. Unit {0})
          env.now
          id
          (λ e. record e { last_activity_at = env.now })
          s.enquiries
          (add_note env id content user s).1.enquiries
  unfolding add_note
  add_note-Edits content user = ground arith

  pub add_note-Change :
      (content user : String)
      → Change env.row_id s.enquiries (add_note env id content user s).1.enquiries
  add_note-Change content user =
      Edits-Change _ env.now id (λ e. record e { last_activity_at = env.now }) (λ a. refl)
        (λ e p.
          touch-Follows (λ e. record e { last_activity_at = env.now }) (λ a. refl) (λ a. refl)
            (λ a. refl) (λ a. refl) (λ a. refl) e)
        (add_note-Edits content user)

  pub remove-cases :
      ((remove id s).1.enquiries ≡ s.enquiries)
      ⊎ ((remove id s).1.enquiries ≡ delete_where (λ (e : Enquiry). e.id == id) s.enquiries)
  unfolding remove
  remove-cases = ground arith

  pub remove-Change : Change env.row_id s.enquiries (remove id s).1.enquiries
  remove-Change = elim remove-cases [ inl p ↦ kept p | inr p ↦ removed (λ i. i == id) p ]

module _ (env : Env) (s : World) where
  pub bulk_delete-cases :
      (ids : List ℕ)
      → ((bulk_delete ids s).1.enquiries ≡ s.enquiries)
        ⊎ ((bulk_delete ids s).1.enquiries
            ≡ delete_where (λ (e : Enquiry). member ids e.id) s.enquiries)
  unfolding bulk_delete
  bulk_delete-cases [] = inl refl
  bulk_delete-cases (i ∷ ids) = inr refl

  pub bulk_delete-Change :
      (ids : List ℕ) → Change env.row_id s.enquiries (bulk_delete ids s).1.enquiries
  bulk_delete-Change ids = elim (bulk_delete-cases ids) [
    | inl p ↦ kept p
    | inr p ↦ removed (member ids) p
  ]

  -- The identifier that the database gives to a new enquiry is not in the table.
  abbrev pub IsFresh : Type 0
  IsFresh = find_first (enquiry_by env.row_id) s.enquiries ≡ none

  pub create-cases :
      (dto : CreateEnquiry) (u : Option String)
      → ((create env dto u s).1.enquiries ≡ s.enquiries)
        ⊎ ((create env dto u s).1.enquiries ≡ new_enquiry env dto ∷ s.enquiries)
  unfolding create
  create-cases dto u = ground arith

  pub create-Change :
      (dto : CreateEnquiry) (u : Option String)
      → IsFresh
      → Change env.row_id s.enquiries (create env dto u s).1.enquiries
  create-Change dto u h = elim (create-cases dto u) [
    | inl p ↦ kept p
    | inr p ↦ added (new_enquiry env dto) refl h refl refl p
  ]

  pub handle_qualified-cases :
      (q : Qualified)
      → ((handle_qualified env q s).1.enquiries ≡ s.enquiries)
        ⊎ ((c : ℕ) × (q.contact_id ≡ some c)
            × ((handle_qualified env q s).1.enquiries ≡ qualified_enquiry env c q ∷ s.enquiries))
  unfolding handle_qualified
  handle_qualified-cases q = ground arith

  pub handle_qualified-Change :
      (q : Qualified)
      → IsFresh
      → Change env.row_id s.enquiries (handle_qualified env q s).1.enquiries
  handle_qualified-Change q h = elim (handle_qualified-cases q) [
    | inl p ↦ kept p
    | inr (c, r, p) ↦ added (qualified_enquiry env c q) refl h refl refl p
  ]
