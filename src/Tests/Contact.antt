-- ===== src/Tests/Contact.antt =====
-- The calls on contacts at the small world.
use bravi_ai.Prelude.{◌≡◌, refl, ◌∷◌, [], true, some, none, arith, All, ◌⊎◌, ◌<◌, find_many, length}
use bravi_ai.Data.{Contact, MessageChannel}
use bravi_ai.Exec.{ok, err, bad_request}
use bravi_ai.Tests.Sample.{world, env, ana}
use bravi_ai.Contact.Resolve.{has_channel, normalize_identifier}
use bravi_ai.Enquiry.Notes.{member}
use bravi_ai.Text.{trim, trim_start, trim_end}
use bravi_ai.Prelude.{find_first}
use bravi_ai.Contact.Channels.{AddChannel, add_channel}
use bravi_ai.Contact.Delete.{open_count, delete_contacts}
use bravi_ai.Contact.Calls.{ContactCall, run_contact}
use bravi_ai.Contact.Owners.{named, owners, holds}
use bravi_ai.Contact.Marked.{marked}
use bravi_ai.Contact.Unique.{IsUnique, run_contact-IsUnique}
use bravi_ai.Contact.Primary.{HasPrimary, run_contact-HasPrimary}
use bravi_ai.Contact.Deletion.{IsGone, delete_contacts-IsGone}

abbrev phone : AddChannel
phone = record { channel = MessageChannel.whatsapp; identifier = "+1"; is_primary = none }

abbrev main_phone : AddChannel
main_phone = record phone { is_primary = some true }

one_owner : IsUnique (ana ∷ [])
unfolding named owners holds
one_owner = (λ channel t. ground arith, λ id. ground arith)

run_contact-IsUnique_example :
    IsUnique (run_contact env (ContactCall.extend 1 phone) world).contacts
unfolding named
run_contact-IsUnique_example =
    run_contact-IsUnique env (ContactCall.extend 1 phone) world refl one_owner

one_primary : HasPrimary ana
unfolding marked
one_primary = (refl, λ i. ground arith)

run_contact-HasPrimary_example :
    All HasPrimary (run_contact env (ContactCall.extend 1 phone) world).contacts
unfolding marked
run_contact-HasPrimary_example =
    run_contact-HasPrimary env (ContactCall.extend 1 phone) world refl (refl, tt) one_owner.1
      (one_primary, tt)

added :
    (add_channel env 1 main_phone world).0
    ≡ ok (record {
      id = 50;
      channel = MessageChannel.whatsapp;
      identifier = "+1";
      is_primary = true;
    })
unfolding add_channel find_first has_channel normalize_identifier trim trim_start trim_end
added = refl

delete_contacts-IsGone_example :
    ((0 < open_count (1 ∷ []) world) × (delete_contacts (1 ∷ []) world ≡ (err bad_request, world)))
    ⊎ ((open_count (1 ∷ []) world ≡ 0)
        × ((delete_contacts (1 ∷ []) world).0
            ≡ ok (length (find_many (λ (c : Contact). member (1 ∷ []) c.id) world.contacts)))
        × IsGone (1 ∷ []) (delete_contacts (1 ∷ []) world).1)
delete_contacts-IsGone_example = delete_contacts-IsGone (1 ∷ []) world
