-- ===== src/Inbox/History.antt =====
-- Histories of calls, and what holds of an enquiry along any of them.
use bravi_ai.Store.{enquiry_by}
use bravi_ai.Inbox.Command.{Command, step-Change, step}
use bravi_ai.Enquiry.Lifecycle.{Follows, Change, Change-none, Succeeds, Change-Succeeds}
use bravi_ai.Enquiry.Status.{includes, Moves, transitions, Moves-converted}
use bravi_ai.Data.{EnquiryStatus, Enquiry, World, Env}
use bravi_ai.Prelude.{
  ℕ, ◌≡◌, Option, List, ◌≤◌, some, inl, ◌≢◌, find_first, true, none, subst, ◌∙◌, inr, arith, refl,
  ◌⊎◌,
}
use bravi_ai.Enquiry.Unique.{UniqueIds, Change-UniqueIds}

-- Calls one after another. The identifier of each call is fresh, and is never `i`.
pub data Reach (i : ℕ) (s : World) : World → Type 0 where
  here : Reach i s s
  next :
      {t : World} (env : Env) (c : Command)
      → Reach i s t
      → find_first (enquiry_by env.row_id) t.enquiries ≡ none
      → env.row_id ≢ i
      → Reach i s (step env c t)

-- Edges of ENQUIRY_TRANSITIONS, one after another.
pub data Walk (a : EnquiryStatus) : EnquiryStatus → Type 0 where
  stay : Walk a a
  move : {b c : EnquiryStatus} → Walk a b → includes c (transitions b) ≡ true → Walk a c

pub record Descends (e f : Enquiry) : Type 0 where
  pub same_contact : f.contact_id ≡ e.contact_id
  pub walk : Walk e.status f.status
  pub version_grows : e.version ≤ f.version
  pub response_kept : (t : ℕ) → e.first_response_at ≡ some t → f.first_response_at ≡ some t

abbrev pub Continues : Enquiry → Option Enquiry → Type 0
Continues e none = Unit {0}
Continues e (some f) = Descends e f

Walk-Moves : {a b c : EnquiryStatus} → Walk a b → Moves b c → Walk a c
Walk-Moves {a} w (inl p) = subst (Walk a) p w
Walk-Moves w (inr p) = move w p

Descends-refl : (e : Enquiry) → Descends e e
Descends-refl e = record {
  same_contact = refl;
  walk = stay;
  version_grows = omega arith;
  response_kept = λ t h. h;
}

Descends-Follows : {e f g : Enquiry} → Descends e f → Follows f g → Descends e g
Descends-Follows d w = record {
  same_contact = w.same_contact ∙ d.same_contact;
  walk = Walk-Moves d.walk w.moves;
  version_grows = omega arith;
  response_kept = λ t p. w.response_kept t (d.response_kept t p);
}

pub Reach-UniqueIds :
    {i : ℕ} {s t : World} → UniqueIds s.enquiries → Reach i s t → UniqueIds t.enquiries
Reach-UniqueIds u here = u
Reach-UniqueIds u (next env c r f a) =
    let v = Reach-UniqueIds u r in Change-UniqueIds (step-Change env c _ v f) v

Continues-step :
    (i : ℕ) (e : Enquiry) (row : ℕ) (es fs : List Enquiry) (o : Option Enquiry)
    → row ≢ i
    → Change row es fs
    → find_first (enquiry_by i) es ≡ o
    → Continues e o
    → Continues e (find_first (enquiry_by i) fs)
Continues-step i e row es fs none a c p d = rw (Change-none i a c p) tt
Continues-step i e row es fs (some f) a c p d =
    after (find_first (enquiry_by i) fs) (Change-Succeeds i f c p)
  where
    after : (o : Option Enquiry) → Succeeds f o → Continues e o
    after none w = tt
    after (some g) w = Descends-Follows d w

-- Along any history of calls with fresh identifiers, from a table with distinct ones, the enquiry of
-- an identifier is either deleted or still belongs to its contact,
-- its status has walked edges of ENQUIRY_TRANSITIONS, its version has not fallen, and the time of the
-- first response, once set, has not changed.
pub Reach-Continues :
    (i : ℕ) {s t : World} (e : Enquiry)
    → UniqueIds s.enquiries
    → Reach i s t
    → find_first (enquiry_by i) s.enquiries ≡ some e
    → Continues e (find_first (enquiry_by i) t.enquiries)
Reach-Continues i e u here p = rw p (Descends-refl e)
Reach-Continues i e u (next {t} env c r f a) p =
    Continues-step i e env.row_id t.enquiries _ _ a (step-Change env c t (Reach-UniqueIds u r) f)
      refl (Reach-Continues i e u r p)

Walk-converted : {b : EnquiryStatus} → Walk EnquiryStatus.converted b → b ≡ EnquiryStatus.converted
Walk-converted stay = refl
Walk-converted (move {b} {c} w h) =
    Moves-converted c (inr (subst (λ a. includes c (transitions a) ≡ true) (Walk-converted w) h))

-- A converted enquiry is final: along any history of calls with fresh identifiers, from a table with
-- distinct ones, it is deleted or still converted.
converted_final :
    (i : ℕ) {s t : World} (e : Enquiry)
    → UniqueIds s.enquiries
    → Reach i s t
    → find_first (enquiry_by i) s.enquiries ≡ some e
    → e.status ≡ EnquiryStatus.converted
    → (find_first (enquiry_by i) t.enquiries ≡ none)
      ⊎ ((f : Enquiry) × (find_first (enquiry_by i) t.enquiries ≡ some f)
          × (f.status ≡ EnquiryStatus.converted))
converted_final i {s} {t} e u r p h =
    split (find_first (enquiry_by i) t.enquiries) (Reach-Continues i e u r p)
  where
    split :
        (o : Option Enquiry)
        → Continues e o
        → (o ≡ none) ⊎ ((f : Enquiry) × (o ≡ some f) × (f.status ≡ EnquiryStatus.converted))
    split none d = inl refl
    split (some f) d = inr (f, refl, Walk-converted (subst (λ a. Walk a f.status) h d.walk))
