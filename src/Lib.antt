-- ===== src/Lib.antt =====
-- palmagent: agents that work on tasks, driven from a phone. This library models the parts of the
-- server that keep the state which must survive crashes, retries and concurrent devices, and proves
-- what makes them correct.
--
-- The parts, and the files that model them:
--   Messages: the message queue of a task, apps/server/src/modules/tasks/application/use-cases/
--     message-controller.ts, with packages/shared/src/messages.ts. Messages/Types has the data,
--     Messages/Transitions the operations that only write the state (beginRun, recover, delivered and
--     the callbacks of a steered message), Messages/Controller those that start runs (sendNow, start,
--     pump) and Messages/Requests the requests (submit, action, resume, finish). The task service is
--     the parameter `Host`; a state of the queue with the service's own state is a `World`.
--   Events: the events of the providers, packages/shared/src/events.ts, whose payloads are JSON values.
--     Events/Summary is packages/shared/src/history.ts and the summary of a tool call.
--   Tasks: the store of tasks, apps/server/src/modules/tasks/adapters/outbound/sqlite-tasks.ts.
--     Tasks/Rows reads and writes rows, Tasks/Store the writes to one task, Tasks/Events the events and
--     what is projected from them, Tasks/History the pages of a history, Tasks/Sessions the imports of
--     shared sessions. Tasks/Evidence is pr-evidence.ts beside it, with its shell reader in
--     Tasks/Evidence/Shell and `isPrCreate` in Tasks/Evidence/Command, and Tasks/Prs is
--     apps/server/src/modules/tasks/domain/pr-projection.ts.
--   Conversation: what a reader sees of a task. Conversation/Log and Conversation/Transcript (with its
--     children Rows, Phases, Work and Flush) are packages/shared/src/conversation.ts,
--     Conversation/Trace and Conversation/Projection packages/shared/src/conversation-trace.ts,
--     Conversation/Activity packages/shared/src/conversation-activity.ts.
--   Terminals: persistent shells. Terminals/Store is the registry, apps/server/src/modules/terminals/
--     adapters/outbound/sqlite-terminal-store.ts; Terminals/Service and Terminals/Reconcile are the
--     use cases over it, apps/server/src/modules/terminals/application/use-cases/
--     terminal-service.ts. Terminals/Chunks is the input of a terminal in frames,
--     packages/shared/src/terminals.ts.
--   Routines: Routines/Cron and Routines/Schedule are apps/server/src/modules/routines/domain/
--     schedule.ts, Routines/Schedule/Steady what the search finds while the clock is not changed.
--     apps/server/src/modules/routines/application/use-cases/routine-service.ts, with
--     its repository (adapters/outbound/sqlite-routines.ts) as part of the state, is in four files:
--     Routines/Scheduler has the state and the results of scripts, Routines/Service fires and ticks,
--     Routines/CatchUp is `start`, Routines/Requests the requests.
--   Executions: apps/server/src/modules/agents/adapters/outbound/execution-store.ts. Executions/Store
--     has the operations, Executions/Operations sequences of them.
--   Auth: apps/server/src/modules/auth. Auth/Repository is adapters/outbound/sqlite-auth.ts,
--     Auth/Service, Auth/Ceremonies and Auth/SignIn are application/use-cases/auth-service.ts.
--     Auth/Calls has its calls one after another, Auth/Generations what revocations interrupt.
--   Campaign: the campaign of the game, apps/web/src/games/scrap-survivor/rules/campaign.ts with
--     campaign-catalog.ts. Campaign/Catalog has the robots and costs, Campaign/Rules the operations,
--     Campaign/Choices and Campaign/Profiles their theorems.
--   Permissions: packages/shared/src/permissions.ts.
--   Common: lists, texts and tests over the native numbers, and failures
--     (apps/server/src/kernel/errors.ts).
--   Tests: runs of the models on concrete states.
--
-- How the code is modelled. A database row is a record, a table a list in the order of its rows. A
-- transaction is a function on the tables; one that throws leaves them as they were. An operation
-- that may throw returns its result or failure beside the next state, so that what it wrote before it
-- threw is kept. A method that awaits is split at its wait, and the rest takes the state that it
-- finds. Clocks, random identifiers, processes and the file system are arguments or the fields of a
-- parameter record. Sequences of calls are steps of a relation (`Step`, `Reach`) or lists of
-- operations (`perform_all`). A text that the code takes apart is the list of its UTF-16 code units;
-- other texts are strings. A reference to an object in a list is the place of the object. The JSON
-- parser, SHA-256 and the projections of conversation-history.ts are arguments, and so is the local time
-- zone (`Zone` of Routines/Schedule): the wall time of an instant, and the instant of a wall time.
--
-- Fuel: `scan` of Routines/Schedule takes one unit for each round, and has one more than the horizon
-- of 400 days has milliseconds; a round moves on to another minute of the clock at least. `values` of
-- Routines/Cron takes one unit for each value of a range. `read` of Tasks/Evidence/Shell and
-- `terminal_input_chunks` of Terminals/Chunks take the length of their text, of which every round
-- consumes at least one unit. `is_pr_create` takes the three levels of nested scripts of the code.
--
-- Not modelled: the task service, the processes of agents and terminals and their protocols, the rest
-- of the web application, installation and updates, telemetry, the attachments and usage totals of the
-- task store, the pages of conversation-history.ts, writes to the storage of routines that throw, but for the
-- results of scripts, and how rows are encoded in SQLite.
pub mod Common
pub mod Events
pub mod Messages
pub mod Terminals
pub mod Routines
pub mod Executions
pub mod Auth
pub mod Campaign
pub mod Permissions
pub mod Tasks
pub mod Conversation
pub mod Tests
