-- ===== src/Lib.antt =====
-- Verification of the campaigns, the inbox, the contacts, the team, the bulk sending, the sessions,
-- the webhooks, the API keys, the hooks and the route guards of NotifyWA.
--
-- The repository holds a backend (backend/src, a NestJS service over a Prisma database) in which
-- the users of a tenant run WhatsApp campaigns, and an engine (src), which holds the WhatsApp
-- sessions and has a bulk sender of its own. A campaign is created, edited, given recipients,
-- launched and cancelled by requests to CampaignsService; a queue hands it to CampaignProcessor,
-- which asks the engine to send one message to each recipient, while further requests arrive. What
-- happens in WhatsApp comes back as events of the engine, which a second queue hands to
-- WebhooksProcessor: it stores messages, conversations and reactions, and the acknowledgements
-- that move the progress of campaigns. Contacts and the members of a team
-- are edited by requests of their own. Two guards stand before the routes of the backend. In the
-- engine a manager of hooks lets plugins see and change what happens.
--
-- Files and what they model:
--   Text          strings, as lists of the codes of their characters: trim, startsWith, digits
--   Phone         backend/src/common/utils/phone.util.ts (src/common/utils has the same file)
--   Interpolation backend/src/common/utils/message-interpolation.util.ts
--   Campaigns     backend/src/campaigns:
--     Data        the tables of backend/prisma/schema.prisma, as one record Store
--     Progress    utils/campaign-progress.util.ts
--     Actions     requests as functions of the Store, with the exceptions as values
--     Recipients  resolveRecipients, and createMany with and without skipDuplicates
--     Lookup      what the operations share
--     Creation    createCampaign, cloneCampaign
--     Lifecycle   updateCampaign, launchCampaign, cancelCampaign
--     Audience    addContactsToCampaign, importCampaignRecipients, retryFailedCampaign
--     Requests    all of these as one type of requests, and what holds between requests
--     Pacing      the delays of campaign-processor.ts
--     Links       its message types, and the links sent after a message
--     Conversations  the conversation that a message goes to
--     Delivery    one round of its loop, for one contact
--     Processor   the whole job of handleCampaign
--   Inbox         backend/src/webhooks/webhooks.processor.ts, and its switch over the events:
--     Addresses   normaliseJid, resolveContactMatchPhone
--     Threads     reattachOrphan and the upsert of a conversation
--     Links       the events of a session
--     Chats       handleSessionChatsSynced
--     Messages    handleMessageReceived, handleMessageOutgoing, handleMessageDecryptFailed, and in
--                 Content extractMessageContent with the types of backend/src/media/media.module.ts
--     Reactions   handleMessageReaction
--     Acks        handleMessageAck
--     Soundness   what every event keeps
--   Contacts      backend/src/contacts/contacts.service.ts: the operations of users on contacts
--     Import      importContacts, and in Accounts what it reports
--     Requests    contacts.controller.ts, and in Tenancy and Importing whose rows a request
--                 leaves alone
--   Team          backend/src/team/team.service.ts: the invitations
--     Members     the roles of the members, their managers and their removal
--     Requests    the requests of team.controller.ts
--     Losses, Owners   what they leave of the owners
--   Guards        backend/src/common/guards: who may call a route
--   Bulk          src/modules/message/bulk-message.service.ts and its entity:
--     Template    applyVariables
--     Data        the batches and the map processingBatches
--     Sending     createBatch, cancelBatch, sendMessage
--     Processing  processBatch
--   Hooks         src/core/hooks: the handlers that plugins register for events
--     Order, Invariant, Cleanup, Chain   their order, their removal, and how they run
--   Engine        src/modules/session/session.service.ts:
--     Data        the rows, the maps of engines and of reconnections, the timers
--     Reconnect   the callbacks of an engine, and the reconnection
--     Sessions    create, delete, start, stop, the start and the end of the service
--     Phases, Refinement, Timers, Disconnects   what holds of them
--   Webhooks      src/modules/webhook, and src/modules/queue/processors/webhook.processor.ts:
--     Data        the rows, the requests, the jobs and what the hooks are told
--     Keys        utils/idempotency.util.ts
--     Delivery    deliverWebhook
--     Dispatching dispatch, with the hooks of Hooks
--     Rows        create, update, delete, test
--     Queued      one attempt at a job of the queue
--   ApiKeys       src/modules/auth: the keys of the engine
--     Addresses   isIpAllowed
--     Access      guards/api-key.guard.ts
--     Entry       who may enter
--   Prelude       numbers, lists and tables of rows
--   Tests         the theorems and the operations at concrete inputs
--
-- State and interleavings. The Store holds every table, the queue, the audit log, and in order the
-- events emitted, the requests made to engines and the pauses taken. A request runs at once. A job
-- is interleaved with requests: a Script lists the requests that are served before each look at
-- the status of the campaign, that is between two contacts; so any number of requests of any users
-- may arrive there. In processBatch a script tells at which messages a cancellation arrives. An
-- operation of the session service runs to its end, with what its engine calls back meanwhile; the
-- other callbacks and the timers that run out are steps of their own, in any order.
--
-- The chats of one batch of handleSessionChatsSynced start together; turns tell which of them comes
-- further next and which of them throws, where reattachOrphan is one step and the write of the row
-- is another.
--
-- Outside code is a parameter. A World answers for the clock, the ids of the database,
-- Math.random, the grouping of rows, the engine registry and the engines; the n-th question gets
-- the n-th answer, and the store counts the questions. IsGenerator says that the database never
-- gives an id twice; IsGroupBy says what groupBy of the client library answers. The CSV parser
-- gives a list of rows or fails. While an acknowledgement waits for its message, a function of the
-- pause tells what other jobs do to the store.
--
-- Numbers and bounds. Ids and times are natural numbers, and nothing in the code overflows but the
-- arithmetic on addresses, which is modulo 2 ^ 32. Every loop runs over a list and is structural,
-- but for the batches of chats: their fuel is the number of the chats, and each batch takes one
-- chat at least; and for the retries of a webhook, whose fuel is their number. The digits of a
-- number have the number itself as fuel.
--
-- Not modelled: the queries listCampaigns and getCampaign, failures of the database in the middle
-- of an operation (but the unique keys of the contacts, and what throws for one chat of a batch), requests that arrive while a message is
-- on its way to the engine, retries of the queue, logging, the queries of the session service, of
-- the webhook service, of the contacts and of the team, and the other parts of the repository:
-- sign-in, the requests of users on conversations, the sessions of the backend, the dashboard and
-- the infrastructure.
pub mod ApiKeys
pub mod Bulk
pub mod Campaigns
pub mod Contacts
pub mod Engine
pub mod Guards
pub mod Hooks
pub mod Inbox
pub mod Interpolation
pub mod Phone
pub mod Prelude
pub mod Team
pub mod Tests
pub mod Text
pub mod Webhooks
