-- ===== src/Contact/Marked.antt =====
-- How many channels of a contact pass a test, after the edits of
-- backend/src/modules/contact/contact.service.ts.
use bravi_ai.Contact.Channels.{channel_by, set_primary, make_primary, first_channel}
use bravi_ai.Contact.Owners.{named}
use bravi_ai.Prelude.{
  ℕ, ◌+◌, ◌≤◌, Bool, true, Bool-cases, inl, inr, List, [], ◌∷◌, ◌++◌, some, ◌≡◌, refl, sym, subst,
  arith, All, if◌then◌else◌, is_some, find_first, update_where, delete_where,
}
use bravi_ai.Data.{Contact, ContactChannel}
use bravi_ai.Store.{contact_by}

abbrev pub is_primary : ContactChannel → Bool
is_primary c = c.is_primary

unfoldable pub marked : (ContactChannel → Bool) → List ContactChannel → ℕ
marked p [] = 0
marked p (c ∷ cs) = (if p c then 1 else 0) + marked p cs

pub marked-append :
    (p : ContactChannel → Bool) (cs : List ContactChannel) (x : ContactChannel)
    → marked p (cs ++ (x ∷ [])) ≡ marked p cs + (if p x then 1 else 0)
unfolding marked
marked-append p [] x = omega arith
marked-append p (c ∷ cs) x = omega (arith, marked-append p cs x)

pub marked-set_primary :
    (i : ℕ) (p : ContactChannel → Bool) (b : Bool) (cs : List ContactChannel)
    → marked (channel_by i) (update_where p (set_primary b) cs) ≡ marked (channel_by i) cs
unfolding marked update_where
marked-set_primary i p b [] = refl
marked-set_primary i p b (c ∷ cs) = ground (arith, marked-set_primary i p b cs)

-- After setPrimaryChannel the primary channels are those of the identifier.
pub marked-make_primary :
    (i : ℕ) (cs : List ContactChannel)
    → marked is_primary (make_primary i cs) ≡ marked (channel_by i) cs
unfolding marked update_where
marked-make_primary i [] = refl
marked-make_primary i (c ∷ cs) = ground (arith, marked-make_primary i cs)

pub marked-find_first :
    (p : ContactChannel → Bool) (cs : List ContactChannel)
    → is_some (find_first p cs) ≡ true
    → 1 ≤ marked p cs
unfolding marked find_first
marked-find_first p [] h = ground (arith, h)
marked-find_first p (c ∷ cs) h = ground (arith, marked-find_first p cs)

pub marked-delete_where :
    (p q : ContactChannel → Bool) (cs : List ContactChannel)
    → marked p (delete_where q cs) ≤ marked p cs
unfolding marked delete_where
marked-delete_where p q [] = ground arith
marked-delete_where p q (c ∷ cs) = ground (arith, marked-delete_where p q cs)

unmarked-delete_where :
    (q : ContactChannel → Bool) (cs : List ContactChannel)
    → marked q cs ≡ 0
    → delete_where q cs ≡ cs
unfolding marked delete_where
unmarked-delete_where q [] h = refl
unmarked-delete_where q (c ∷ cs) h = ground (arith, h, unmarked-delete_where q cs)

-- The deletion of a channel takes its mark along and no other.
pub marked-delete_one :
    (p : ContactChannel → Bool) (i : ℕ) (cs : List ContactChannel) (lost : ContactChannel)
    → marked (channel_by i) cs ≤ 1
    → find_first (channel_by i) cs ≡ some lost
    → marked p cs ≡ marked p (delete_where (channel_by i) cs) + (if p lost then 1 else 0)
unfolding marked delete_where find_first
marked-delete_one p i [] lost u h = ground (arith, h)
marked-delete_one p i (c ∷ cs) lost u h =
    ground (arith, u, h, marked-delete_one p i cs lost, unmarked-delete_where (channel_by i) cs)

-- The heir becomes the one primary channel.
pub marked-heir :
    (i : ℕ) (cs : List ContactChannel)
    → marked is_primary cs ≡ 0
    → marked is_primary (update_where (channel_by i) (set_primary true) cs)
      ≡ marked (channel_by i) cs
unfolding marked update_where
marked-heir i [] h = refl
marked-heir i (c ∷ cs) h = ground (arith, h, marked-heir i cs)

pub marked-first_channel :
    (cs : List ContactChannel) (heir : ContactChannel)
    → first_channel cs ≡ some heir
    → 1 ≤ marked (channel_by heir.id) cs
unfolding marked
marked-first_channel [] heir h = ground (arith, h)
marked-first_channel (c ∷ cs) heir h = ground (arith, h)

-- An edit of one contact, when one has the identifier.
unnamed-update_where :
    (id : ℕ) (f : Contact → Contact) (cs : List Contact)
    → named id cs ≡ 0
    → update_where (contact_by id) f cs ≡ cs
unfolding named update_where
unnamed-update_where id f [] h = refl
unnamed-update_where id f (c ∷ cs) h = ground (arith, h, unnamed-update_where id f cs)

pub All-put :
    (P : Contact → Type 0) (id : ℕ) (f : Contact → Contact) (cs : List Contact)
    → named id cs ≤ 1
    → ((c : Contact) → find_first (contact_by id) cs ≡ some c → P c → P (f c))
    → All P cs
    → All P (update_where (contact_by id) f cs)
unfolding named update_where find_first
All-put P id f [] u h a = tt
All-put P id f (c ∷ cs) u h a = elim (Bool-cases (contact_by id c)) [
  | inl e ↦ (
    subst P (ground (arith, e)) (h c (ground (arith, e)) a.0),
    subst (λ l. All P l) (sym (unnamed-update_where id f cs (ground (arith, e, u)))) a.1,
  )
  | inr e ↦ (
    subst P (ground (arith, e)) a.0,
    All-put P id f cs (ground (arith, e, u)) (λ x g. h x (ground (arith, e, g))) a.1,
  )
]
