-- ===== src/Lib.antt =====
-- Verification of the backend of bravi-ai, an inbox for customer enquiries: messages come in over
-- email, WhatsApp and SMS, are attached to the enquiry of their contact, and staff answer them
-- through a queue of outbound jobs.
--
-- The program's parts, and the files that model them
--
-- The services share one database through Prisma. A service method reads and writes rows, may throw
-- an exception, may run a `$transaction`, and may emit events to the other services.
--   * Data: the rows and enums of backend/prisma/schema.prisma (Data/Enums, Data/Tables), and the
--     World of all tables, both job queues, the stored files and the emitted events (Data/Shared).
--   * Exec: a service method as a state transformer over the World with a result or an exception. An
--     exception keeps what was written before it; `transaction` takes it back.
--   * Store: the Prisma calls that the services share, and nextContactSeq of
--     backend/src/common/utils/conversation-seq.util.ts. Text: `trim` and `toLowerCase`.
--   * Contact, for backend/src/modules/contact/contact.service.ts: resolve (Resolve), creation and editing
--     (Edit), the channels of a contact (Channels), deletion (Delete).
--   * Ingestion/Ingest: backend/src/modules/Ingestion/ingestion.service.ts, the three paths of an
--     inbound message. It calls resolve, and edits enquiries.
--   * Enquiry: backend/src/modules/enquiry/enquiry.state.ts (Status) and the methods of
--     backend/src/modules/enquiry/enquiry.service.ts that write: create (Create); statusChange,
--     assign, updateTags (Manage); sendMessage, addOutboundMessage, addAiReply,
--     maybeTransitionOnOutbound (Reply); handleQualified (Qualified); addNote, remove, bulkDelete
--     (Notes).
--   * Outbound, for backend/src/modules/outbound: outbound.service.ts (Queue, Delivery),
--     delivery/delivery-tracking.service.ts (Delivery), outbound.processor.ts (Processor),
--     draft.service.ts (Draft), outbound-send.service.ts (Send), dlq/dlq.service.ts (DeadLetters).
--     Send calls addOutboundMessage, which emits the event that handleOutbound handles; the processor
--     calls maybeTransitionOnOutbound.
--   * Permission: backend/src/modules/permission/permission.service.ts, permissions (Service) and
--     their assignment to roles (Roles).
--   * Idempotency/Keys: backend/src/common/Idempotency/idempotency.guard.ts and
--     backend/src/common/interceptors/idempotency.interceptor.ts, which stand around the handlers of
--     webhooks; the hash of the body and the handler are arguments.
--   * Chat, for backend/src/modules/chat/chat.service.ts: rooms and their members (Members), delivery and
--     read watermarks (Receipts), writing (Messages), reading (History), channels and direct messages
--     (Channels), reactions and uploads (Reactions). Its tables are in Data/ChatTables.
--   * Template, for backend/src/modules/template: template.engine.ts (Engine), template-system-fields.ts
--     (Fields), template.service.ts (Service). Its tables are in Data/TemplateTables.
--   * Automation/Reply: backend/src/modules/automation/ai-reply.processor.ts, which calls addAiReply; what
--     the AI service answers is an argument.
--   * Qualification, for backend/src/modules/qualification and backend/src/ai/qualification.client.ts:
--     qualify (Qualify) and its queue's worker with the listener of its event (Worker). It classifies
--     a message that ingest queued, and its event makes handleQualified open an enquiry.
--   * Messaging: backend/src/modules/messaging/messaging.service.ts, a contact's summary and the unread
--     counts (Summary), the list of conversations (Conversations), a contact's thread (Thread), stars
--     (Stars); and the read marks of backend/src/websocket/app.gateway.ts (ReadMark).
--   * Channels: backend/src/modules/channels/channels.service.ts (Service), the guard of the mail webhook in
--     backend/src/modules/webhooks/guards/sendgrid-signature.guard.ts (Webhook), and the router of
--     sends, backend/src/modules/outbound/channel-router.service.ts (Router).
--   * Client, for frontend/, what the browser keeps: stores/inboxStore.ts (InboxStore), lib/cachePatch.ts
--     (ConversationCache) with the events of lib/socketListeners.ts (Badges), and the preview of
--     templates in lib/template-parse.ts (TemplateParse). Maps are JavaScript objects used as maps.
-- The other files hold the proofs: Enquiry/Lifecycle is the abstract table of enquiries, the files
-- Changes, Unique and Ingestion/Routing relate each method to it, the files OpenCount and OneOpen
-- count the open enquiries of a contact, Ingestion/Paths says what ingest records, and Inbox puts
-- all methods together as commands (Command), histories of commands (History), and their properties
-- (Concurrency, Sequence, Numbers, OneOpen). Of Outbound, Ranks is about delivery statuses,
-- Attempts about the attempts of a job, Idempotence about the handling of one event, Ownership
-- about drafts and their users, Cleanup about stored files and Retry about dead letters.
-- Idempotency/Once says how often a request is handled. Of Contact, Owners, Marked and Writes are
-- lemmas for Unique (channels and their contacts), Primary (the primary channel) and Deletion.
-- Automation/Once says how often the AI replies. Of Qualification, Writes and Arrival are lemmas
-- for Settled (what qualify leaves) and Journey (a message from its arrival to a conversation). Of
-- Messaging, Counts and Reading are about unread counts and Pages about the list's pages. Of
-- Client, Sweeping is about the outbox, Badges and ReadSync about the conversation lists, and
-- Preview about templates. Of Template, Tokens says what a marker is, Variables how they are
-- numbered, Scanning that no text is lost, Compiled what becomes of a body, and Rows what stays
-- true of the table. Of Chat, Access is about who may use a room,
-- Watermarks and Unread about what is read, Toggle about reactions, Direct about direct messages
-- and Paging about the pages of a room. Of Channels, Switched is about the toggle and Rotation
-- about a key. Tests has a sample database and the theorems at it. Prelude has the shared functions
-- and lemmas on lists, options, numbers and texts.
--
-- How the model reads the source
--
-- A method's optional argument is an Option, and JavaScript's truth of a text is written out
-- (Store.truthy, Store.or_text). What the runtime chooses is an argument (Data.Env): the time, the
-- identifier of the row a method creates, and the job's identifier from the queue. A method that
-- creates several rows in one table takes identifiers from there on (provision, bulk_assign); rows
-- of different tables may share one. Times are milliseconds and identifiers are natural numbers,
-- which are compared and nothing else; counters do not overflow. A table is a list, the newest row
-- first; `findFirst` without an order gives the first in the list, and with one the latest, the
-- first in the list on a tie. Where a client reads page after page (listConversations and
-- Chat/History), the order of the rows of a query is an argument instead, of which Ordering states what
-- `orderBy` promises. `update` and `delete` touch all rows of an identifier. Loops run over
-- lists, so no fuel is needed but for two: the requests of a client that follows cursors
-- (Chat/Paging.read_all), for which one more than there are messages is enough, and the digits of a
-- number (Template/Engine.decimal), which are fewer than the number's successor. The channels of a
-- contact and the variables of a template stand in its row, the oldest first.
--
-- A method runs as one step, so the races that the source names are not in a single method; the
-- race between send and handleOutbound is modelled by splitting both where they wait for the
-- database (Outbound/Send.prepare_send, Outbound/Queue.is_queued and queue_unless).
--
-- Not modelled: the text of exceptions and logging; what a method returns besides its rows, and the
-- rows that are only included for display; `trim` and `toLowerCase` beyond ASCII; the dispatch of
-- events (they are kept in a log); access checks of CASL and of the HTTP layer; what the providers
-- of channels, the storage service and the AI service answer, which are arguments (the processor
-- takes the router's answer as one). Of the services, the reads that only list rows for display are
-- left out, and so are the controllers and the modules for authentication, users, search and
-- sockets, the webhooks but for one guard, the AI service in ai/ and of the React application in
-- frontend/ what Client does not name.
pub mod Prelude
pub mod Data
pub mod Exec
pub mod Ordering
pub mod Text
pub mod Store
pub mod Contact
pub mod Ingestion
pub mod Enquiry
pub mod Inbox
pub mod Outbound
pub mod Chat
pub mod Automation
pub mod Template
pub mod Permission
pub mod Idempotency
pub mod Qualification
pub mod Messaging
pub mod Client
pub mod Channels
pub mod Tests
