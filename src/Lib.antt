-- ===== src/Lib.antt =====
-- Verification of flowers, an assistant that acts on its owner's accounts: a language model plans and
-- proposes, and deterministic code decides what may be sent, remembers what was sent, and refuses to
-- call a step done that no independent read-back supports. That deterministic code is the subject.
--
-- How the parts interact. A worker's tool call reaches the broker (flowers/broker.py), which asks the
-- policy (flowers/policy.py) for the tier of the action and the mandate (flowers/mandate.py) whether
-- the owner's one-time approval covers it; it executes through a backend, reads the effect back and
-- compares (flowers/effects.py), and returns an effect record (flowers/types.py). At the end of a step
-- the operator (flowers/engine/operator.py) hands the records of the run to the trust gate
-- (flowers/trustgate.py), whose verdict accepts the step, sends it back, or asks the owner. What was
-- refused is tried again, rung by rung, then planned anew, and at last the owner is asked; the run then
-- waits for a reply (flowers/channels/base.py, flowers/controlplane.py) or for its reaper. Runs, plans,
-- effects, events, notes and questions are kept by the store (flowers/seams/store.py), and the tick of
-- the control plane turns the timers that are due (flowers/seams/timers.py) into calls of the operator.
--
-- Where each part is. Definitions keep the names of the functions, without a leading underscore.
--   Base              texts as code points, dicts as association lists in insertion order, JSON values
--   Policy            flowers/policy.py: Vocabulary (its tables), Money, Content, and `classify`
--   TrustGate         flowers/trustgate.py: Record (the tests of one record), Effects
--                     (`classify_effects`, `_forwarded_labels`), Verdict (`gate_verdict`), Events (the
--                     signatures confirmed from the event stream)
--   Readback          flowers/effects.py
--   Types             flowers/types.py: Effect (`EffectRecord`), Plan (`Plan`, `PlanStep`,
--                     `StepResult`), Run (`RunState`, and `ApprovalRequest` as `Question`)
--   Mandate           flowers/mandate.py: Emails, Scope (recipients, allow-list), Counts (`bump`, caps,
--                     `covers`, `learned_covers`), Hosts (discovered recipients), Goal (what the
--                     owner wrote), Grant (`owner_grant`, `parse_mandate`)
--   Broker            flowers/broker.py: Spend (the money floors of browser actions), Results (the
--                     records and prompts), Backend (the seam to the world and the read-back loop),
--                     Decision and Integration (`call_integration`), Browser (`call_browser`,
--                     `perform_pending`)
--   Planner           flowers/engine/planner.py: `_parse_steps`, and Replan (`replan`)
--   Timers            flowers/seams/timers.py: the table of timers as rows
--   Pacing            flowers/engine/scheduler.py: `CircuitBreaker`
--   Store             flowers/seams/store.py: Json (reading a field with its default), Criteria
--                     (`dict` of a criterion), Effects, Plans and Runs (each record as a dict and
--                     back), Tables (the rows), RunTable, EffectLog, EventLog, Notes and Approvals
--                     (the operations of `SqliteStore`), Roundtrip
--   Channels          flowers/channels/base.py: `parse_answer`
--   ControlPlane      flowers/controlplane.py: Route (`classify`), Tick (`tick`)
--   Memory            flowers/memory.py: the notes about the owner, as one text
--   Operator          flowers/engine/operator.py: Gate (`_gate_step`), Intents (what a reply to an
--                     escalation leads to), Corrections (what it does to the effects), Ladder (retries
--                     and replans of a step), Lifecycle (`_escalate`, `fail`, `_reap` and the ends of an
--                     escalation), Recovery (`_recover`), Deliverable (which text is judged and handed over)
--
-- State. The broker's fields that calls change (the mandate's counters, the two sets of grant keys) and
-- the world behind the backend form one `Session`, which an operation takes and returns; the fields
-- that stay are `Config`. A backend's call may look at and change the world in any way, and may raise.
-- The two sets of grant keys are lists, of which only membership is used.
--
-- The table of timers is a list of rows, and each operation, which holds the lock, is one step. The
-- store is one record with a list of rows or a dict for each table; a statement of SQL is what it does
-- to the rows. A dict keeps the place of a key that is written again, as an upsert keeps the row.
-- `Desk` is what the store and the timers hold of one run, for the operator's side of an escalation.
--
-- Parameters, since their code is not in the repository or is not worth a model: json, as a `Codec` whose
-- reading undoes its writing; `str.isalnum` beyond ASCII; the attempts at a step and the answers of the
-- planner, of the model and of the operator's calls, as functions or values; the backends of
-- integrations and of the browser; `repr`, which is `str` of a list or a dict; `params_digest`, the SHA-256 digest of an
-- action's parameters; and Python's equality of items, an instance of `Eq`.
--
-- Bounds and fuel. The search for addresses in a text (`find_emails`) has one unit of fuel per
-- character and one more, and each round takes at least one character; the digits of a number have the
-- number itself. The read-back loop recurses on its attempts, as the source does. The ladder of a step has
-- fuel for thirteen attempts, which is one for each rung up to the cap of twelve.
--
-- Not modelled: case and white space beyond ASCII, floating-point numbers (but for the
-- number of a routed reply), the underscores that Python admits in integers, numeric addresses in brackets; times and amounts are whole numbers; pauses,
-- random ids, the user's id, the activity feed, the messages to the owner and the metering, which no
-- decision depends on. The parts that are left out are those that talk to a model or a service: the
-- executor, the web channel, the seams; and the objective checks of the trust gate, the single-action
-- fast path of the mandate, and of the operator its driving loop, the waiting, monitor and connect
-- loops, and the second look at a broken read-back.
pub mod Base
pub mod Policy
pub mod TrustGate
pub mod Readback
pub mod Types
pub mod Operator
pub mod Mandate
pub mod Broker
pub mod Planner
pub mod Pacing
pub mod Store
pub mod Channels
pub mod ControlPlane
pub mod Memory
pub mod Timers
