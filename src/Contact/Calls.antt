-- ===== src/Contact/Calls.antt =====
-- The calls of backend/src/modules/contact/contact.service.ts that write.
use bravi_ai.Contact.Resolve.{resolve}
use bravi_ai.Contact.Edit.{CreateContact, UpdateContact, create_contact, update_contact}
use bravi_ai.Contact.Channels.{AddChannel, add_channel, remove_channel, set_primary_channel}
use bravi_ai.Contact.Delete.{delete_contact, delete_contacts}
use bravi_ai.Prelude.{ℕ, String, Option, List}
use bravi_ai.Data.{Env, World, MessageChannel}

pub data ContactCall : Type 0 where
  see : MessageChannel → (identifier : String) → (display_name : Option String) → ContactCall
  add : CreateContact → ContactCall
  change : ℕ → UpdateContact → ContactCall
  extend : ℕ → AddChannel → ContactCall
  detach : (contact_id channel_id : ℕ) → ContactCall
  prefer : (contact_id channel_id : ℕ) → ContactCall
  drop_one : ℕ → ContactCall
  drop_many : List ℕ → ContactCall

-- The world after a call, returned or thrown.
unfoldable pub run_contact : Env → ContactCall → World → World
run_contact env (see channel identifier display_name) s =
    (resolve env channel identifier display_name s).1
run_contact env (add dto) s = (create_contact env dto s).1
run_contact env (change id dto) s = (update_contact id dto s).1
run_contact env (extend id dto) s = (add_channel env id dto s).1
run_contact env (detach id channel_id) s = (remove_channel id channel_id s).1
run_contact env (prefer id channel_id) s = (set_primary_channel id channel_id s).1
run_contact env (drop_one id) s = (delete_contact id s).1
run_contact env (drop_many ids) s = (delete_contacts ids s).1
