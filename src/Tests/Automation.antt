-- ===== src/Tests/Automation.antt =====
-- The AI's reply to an enquiry with one inbound message.
use bravi_ai.Prelude.{◌≡◌, ◌⊎◌, some, none, ◌∷◌, []}
use bravi_ai.Data.{World, MessageDirection}
use bravi_ai.Exec.{ok}
use bravi_ai.Tests.Sample.{world, env, later, waiting}
use bravi_ai.Automation.Reply.{AiAnswer, process_reply}
use bravi_ai.Automation.Once.{process_reply_once}

abbrev asked : World
asked = record world { messages = record waiting { direction = MessageDirection.inbound } ∷ [] }

abbrev answer : AiAnswer
answer = record { action = "reply"; reply = some "Hello"; confidence = 900; subject = none }

process_reply_once_example :
    let after = (process_reply env 600 (some answer) 10 asked).1 in
    (after ≡ asked) ⊎ (process_reply later 600 (some answer) 10 after ≡ (ok tt, after))
process_reply_once_example =
    process_reply_once env later 600 600 (some answer) (some answer) 10 asked
