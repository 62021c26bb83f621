-- ===== src/Contact/Owners.antt =====
-- How many rows of ContactChannel have a pair of channel and identifier, and how many contacts an
-- identifier, after what backend/src/modules/contact/contact.service.ts does to its tables.
use bravi_ai.Contact.Resolve.{has_channel}
use bravi_ai.Contact.Channels.{on_channels}
use bravi_ai.Prelude.{
  ℕ, ◌+◌, ◌≤◌, Bool, true, false, ◌&&◌, String, List, [], ◌∷◌, ◌++◌, ◌≡◌, refl, arith, str_eq, ◌==◌,
  if◌then◌else◌, is_some, find_first, update_where, delete_where, eq_iff, subst,
}
use bravi_ai.Data.{Contact, ContactChannel, MessageChannel, same_channel}
use bravi_ai.Store.{contact_by}

abbrev pub is_pair : MessageChannel → String → ContactChannel → Bool
is_pair channel t c = same_channel c.channel channel && str_eq c.identifier t

unfoldable pub holds : MessageChannel → String → List ContactChannel → ℕ
holds channel t [] = 0
holds channel t (c ∷ cs) = (if is_pair channel t c then 1 else 0) + holds channel t cs

unfoldable pub owners : MessageChannel → String → List Contact → ℕ
unfolding holds
owners channel t [] = 0
owners channel t (c ∷ cs) = holds channel t c.channels + owners channel t cs

unfoldable pub named : ℕ → List Contact → ℕ
named id [] = 0
named id (c ∷ cs) = (if c.id == id then 1 else 0) + named id cs

-- A pair that nobody has.
holds_none :
    (channel : MessageChannel) (t : String) (cs : List ContactChannel)
    → has_channel channel t cs ≡ false
    → holds channel t cs ≡ 0
unfolding holds has_channel
holds_none channel t [] h = refl
holds_none channel t (c ∷ cs) h = ground (arith, holds_none channel t cs)

owners_none :
    (channel : MessageChannel) (t : String) (cs : List Contact)
    → is_some (find_first (λ (c : Contact). has_channel channel t c.channels) cs) ≡ false
    → owners channel t cs ≡ 0
unfolding owners find_first
owners_none channel t [] h = refl
owners_none channel t (c ∷ cs) h =
    ground (arith, owners_none channel t cs, holds_none channel t c.channels)

holds_same :
    (a b : MessageChannel) (t : String) (cs : List ContactChannel)
    → same_channel a b ≡ true
    → holds b t cs ≡ holds a t cs
unfolding holds
holds_same a b t [] h = refl
holds_same a b t (c ∷ cs) h = ground (arith, holds_same a b t cs h, h)

owners_same :
    (a b : MessageChannel) (t : String) (cs : List Contact)
    → same_channel a b ≡ true
    → owners b t cs ≡ owners a t cs
unfolding owners
owners_same a b t [] h = refl
owners_same a b t (c ∷ cs) h = ground (arith, owners_same a b t cs h, holds_same a b t c.channels h)

-- A row whose pair nobody has leaves every pair with one owner at most.
pub owners_free :
    (x : ContactChannel) (channel : MessageChannel) (t : String) (cs : List Contact)
    → is_some (find_first (λ (c : Contact). has_channel x.channel x.identifier c.channels) cs)
      ≡ false
    → is_pair channel t x ≡ true
    → owners channel t cs ≡ 0
owners_free x channel t cs h p =
    let same : x.identifier ≡ t = (eq_iff x.identifier t).0 (ground (arith, p)) in
    subst (λ u. owners channel u cs ≡ 0) same
      (ground (
        arith,
        owners_none x.channel x.identifier cs h,
        owners_same x.channel channel x.identifier cs (ground (arith, p)),
      ))

holds-append :
    (channel : MessageChannel) (t : String) (cs : List ContactChannel) (x : ContactChannel)
    → holds channel t (cs ++ (x ∷ [])) ≡ holds channel t cs + (if is_pair channel t x then 1 else 0)
unfolding holds
holds-append channel t [] x = omega arith
holds-append channel t (c ∷ cs) x = omega (arith, holds-append channel t cs x)

pub owners-extend :
    (x : ContactChannel) (channel : MessageChannel) (t : String) (id : ℕ) (cs : List Contact)
    → owners channel t (update_where (contact_by id) (on_channels λ l. l ++ (x ∷ [])) cs)
      ≤ owners channel t cs + (if is_pair channel t x then named id cs else 0)
unfolding owners named update_where
owners-extend x channel t id [] = ground arith
owners-extend x channel t id (c ∷ cs) =
    ground (arith, owners-extend x channel t id cs, holds-append channel t c.channels x)

-- Edits that add no pair, and deletions.
pub owners-update_where :
    (channel : MessageChannel) (t : String) (p : Contact → Bool) (f : Contact → Contact)
    (cs : List Contact)
    → ((c : Contact) → holds channel t (f c).channels ≤ holds channel t c.channels)
    → owners channel t (update_where p f cs) ≤ owners channel t cs
unfolding owners update_where
owners-update_where channel t p f [] h = ground arith
owners-update_where channel t p f (c ∷ cs) h =
    ground (arith, h c, owners-update_where channel t p f cs h)

pub owners-delete_where :
    (channel : MessageChannel) (t : String) (p : Contact → Bool) (cs : List Contact)
    → owners channel t (delete_where p cs) ≤ owners channel t cs
unfolding owners delete_where
owners-delete_where channel t p [] = ground arith
owners-delete_where channel t p (c ∷ cs) = ground (arith, owners-delete_where channel t p cs)

pub holds-delete_where :
    (channel : MessageChannel) (t : String) (p : ContactChannel → Bool) (cs : List ContactChannel)
    → holds channel t (delete_where p cs) ≤ holds channel t cs
unfolding holds delete_where
holds-delete_where channel t p [] = ground arith
holds-delete_where channel t p (c ∷ cs) = ground (arith, holds-delete_where channel t p cs)

pub holds-update_where :
    (channel : MessageChannel) (t : String) (p : ContactChannel → Bool)
    (f : ContactChannel → ContactChannel) (cs : List ContactChannel)
    → ((c : ContactChannel) → is_pair channel t (f c) ≡ is_pair channel t c)
    → holds channel t (update_where p f cs) ≡ holds channel t cs
unfolding holds update_where
holds-update_where channel t p f [] h = refl
holds-update_where channel t p f (c ∷ cs) h =
    ground (arith, h c, holds-update_where channel t p f cs h)

pub named-update_where :
    (id : ℕ) (p : Contact → Bool) (f : Contact → Contact) (cs : List Contact)
    → ((c : Contact) → (f c).id ≡ c.id)
    → named id (update_where p f cs) ≡ named id cs
unfolding named update_where
named-update_where id p f [] h = refl
named-update_where id p f (c ∷ cs) h = ground (arith, h c, named-update_where id p f cs h)

pub named-delete_where :
    (id : ℕ) (p : Contact → Bool) (cs : List Contact) → named id (delete_where p cs) ≤ named id cs
unfolding named delete_where
named-delete_where id p [] = ground arith
named-delete_where id p (c ∷ cs) = ground (arith, named-delete_where id p cs)
