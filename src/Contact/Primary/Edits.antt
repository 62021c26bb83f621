-- ===== src/Contact/Primary/Edits.antt =====
-- The edits of one contact's channels and their primary channel, for
-- backend/src/modules/contact/contact.service.ts.
use bravi_ai.Contact.Channels.{channel_by, on_channels, set_primary, make_primary, first_channel}
use bravi_ai.Contact.Marked.{
  is_primary, marked, marked-append, marked-set_primary, marked-make_primary, marked-find_first,
  marked-delete_where, marked-delete_one, marked-heir, marked-first_channel,
}
use bravi_ai.Contact.Writes.{put}
use bravi_ai.Prelude.{
  ℕ, ◌≤◌, true, false, List, [], ◌∷◌, ◌++◌, some, ◌≡◌, refl, arith, find_first, is_some,
  delete_where, update_where,
}
use bravi_ai.Data.{Contact, ContactChannel}

-- One channel is primary, and each identifier has one channel at most.
abbrev pub HasPrimary : Contact → Type 0
HasPrimary c = (marked is_primary c.channels ≡ 1) × ((i : ℕ) → marked (channel_by i) c.channels ≤ 1)

abbrev pub IsFreshChannel : ℕ → Contact → Type 0
IsFreshChannel i c = marked (channel_by i) c.channels ≡ 0

pub put-put :
    (id : ℕ) (f g : List ContactChannel → List ContactChannel) (cs : List Contact)
    → put id f (put id g cs) ≡ put id (λ l. f (g l)) cs
unfolding update_where
put-put id f g [] = refl
put-put id f g (c ∷ cs) = ground (arith, put-put id f g cs)

pub new-HasPrimary :
    (x : ContactChannel)
    → x.is_primary ≡ true
    → (marked is_primary (x ∷ []) ≡ 1) × ((i : ℕ) → marked (channel_by i) (x ∷ []) ≤ 1)
unfolding marked
new-HasPrimary x h = (ground (arith, h), λ i. ground arith)

pub make_primary-HasPrimary :
    (c : Contact) (i : ℕ)
    → is_some (find_first (channel_by i) c.channels) ≡ true
    → HasPrimary c
    → HasPrimary (on_channels (make_primary i) c)
make_primary-HasPrimary c i h p = (
  ground (
    arith,
    marked-make_primary i c.channels,
    marked-find_first (channel_by i) c.channels h,
    p.1 i,
  ),
  λ j. ground (
    arith,
    p.1 j,
    marked-set_primary j (channel_by i) true
        (update_where (λ (x : ContactChannel). x.is_primary) (set_primary false) c.channels),
    marked-set_primary j (λ (x : ContactChannel). x.is_primary) false c.channels,
  ),
)

pub extend-HasPrimary :
    (c : Contact) (x : ContactChannel)
    → x.is_primary ≡ false
    → IsFreshChannel x.id c
    → HasPrimary c
    → HasPrimary (on_channels (λ l. l ++ (x ∷ [])) c)
extend-HasPrimary c x h n p = (
  ground (arith, h, p.0, marked-append is_primary c.channels x),
  λ i. ground (arith, n, p.1 i, marked-append (channel_by i) c.channels x),
)

-- A channel goes that is not primary, or the primary role is passed on.
pub detach-HasPrimary :
    (c : Contact) (i : ℕ) (lost : ContactChannel)
    → find_first (channel_by i) c.channels ≡ some lost
    → lost.is_primary ≡ false
    → HasPrimary c
    → HasPrimary (on_channels (delete_where (channel_by i)) c)
detach-HasPrimary c i lost e h p = (
  ground (arith, p.0, h, marked-delete_one is_primary i c.channels lost (p.1 i) e),
  λ j. ground (arith, p.1 j, marked-delete_where (channel_by j) (channel_by i) c.channels),
)

pub heir-HasPrimary :
    (c : Contact) (i : ℕ) (lost heir : ContactChannel)
    → find_first (channel_by i) c.channels ≡ some lost
    → lost.is_primary ≡ true
    → first_channel (delete_where (channel_by i) c.channels) ≡ some heir
    → HasPrimary c
    → HasPrimary (
        on_channels
          (λ l.
            update_where (channel_by heir.id) (set_primary true) (delete_where (channel_by i) l))
          c)
heir-HasPrimary c i lost heir e h f p =
    let rest = delete_where (channel_by i) c.channels in
    let fewer : (j : ℕ) → marked (channel_by j) rest ≤ marked (channel_by j) c.channels =
      λ j. marked-delete_where (channel_by j) (channel_by i) c.channels in
    let none_left : marked is_primary rest ≡ 0 =
      ground (arith, p.0, h, marked-delete_one is_primary i c.channels lost (p.1 i) e) in
    (
      ground (
        arith,
        marked-heir heir.id rest none_left,
        marked-first_channel rest heir f,
        fewer heir.id,
        p.1 heir.id,
      ),
      λ j. ground (arith, p.1 j, fewer j, marked-set_primary j (channel_by heir.id) true rest),
    )
