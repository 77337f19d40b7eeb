-- ===== src/Lib.antt =====
-- Deferred teleoperation: the durable core of the Python runtime.
--
-- A Mission, a Field and a Robot node exchange messages over links that delay, repeat and lose them,
-- and any node may crash at any time. Each node keeps its state in a SQLite store
-- (python/src/deferred_teleop/storage.py); what it may do again after a crash, and what it must
-- never do again, is decided by the transactions of that store. This library models the store's
-- tables and those transactions.
--
-- The parts and their files:
-- - Base: Boolean tests, lists, tables with SELECT, INSERT and UPDATE, unique keys, and events that
--   happen at most once in a sequence of steps.
-- - Time: `_utc_text` and `_parse_utc_text`. An instant is the number of microseconds since
--   0001-01-01T00:00:00Z. A stored text is its second and its fraction; a fraction of 0 is left out of
--   the text, so that `Z` is compared with `.` there. A text that is no timestamp has a place in that
--   order too, and a flag. Time/Order relates both orders.
-- - Wire: the models of python/src/deferred_teleop/protocol.py. Identifiers, UUIDs and other texts are
--   numbers, the blank texts are 0. The fields of a payload that no modelled operation reads are one
--   number. `Codec` holds what comes from pydantic, json, hashlib and datetime as parameters.
-- - External: `coerce_observation` of python/src/deferred_teleop/external_effect.py. External/Dummy:
--   `PersistentDummyExternalEffect`, whose file is the list of its lines.
-- - Store/Schema: the rows of the tables. Store/Monad: a method as a function of the tables with a
--   result, and `_transaction`, which takes back what a body that raises has written.
-- - Store/Inbox: `receive`, `recover_interrupted_processing`, `claim_next_inbox`, `claim_inbox`,
--   `fail_inbox`, `complete_inbox`.
-- - Store/Outbox: `enqueue`, `_insert_outbox`, `pending_outbox`, `record_attempt`, `acknowledge`.
-- - Store/Journal: `accept_contract`, `record_dispatch`, `commit_dummy_effect`.
-- - Store/Budget: `admit_external_budget_contract`, `reserve_external_dispatch_with_budget` and the
--   checks of policy and digest. A double is the number of its bit pattern.
-- - Store/Outcome: `resolve_external_outcome`; equality of Python values and the canonical text of a
--   mapping are the parameters `ResultCodec`.
-- - Store/Denial: `complete_budget_scope_denial`, `budget_denial_event`.
-- - Store/Binding: `bind_m3a_intent`, `bind_m3a_context`. Store/Decision: `record_m3a_decision`.
--   Store/Effect: `bind_m3a_effect`, `bind_m3a_effect_diagnostic`, `record_m3a_effect_conflict`.
-- - Store/Dispatch: what the seven operations that write the execution journal do to one of its rows,
--   and to it through any sequence of their calls.
-- - Link: `DeterministicLink` of python/src/deferred_teleop/link.py. A time, a delay or a bandwidth is
--   the bit pattern of a double that is not negative. `Machine` holds the arithmetic of doubles, the
--   random generator, the frame's JSON text and the wall clock as parameters. Link/Schedule: `submit`,
--   `deliver_due`, `status` and their helpers. The heap is the list of its frames in the order in which
--   they are popped.
-- - M3a: the values of python/src/deferred_teleop/m3a_types.py, with the checks of their constructors;
--   `Digests` holds `canonical_digest` as a parameter.
-- - Policy: python/src/deferred_teleop/two_button_policy.py. Policy/Reference: `verify_reference`,
--   `_verify_current_context` and `_matching_unique_detection`. Policy/Decide: `decide_two_button` and
--   `derive_spatial_press_command`; `Geometry` holds the arithmetic of doubles as a parameter.
--   Policy/Valid: the checks of the constructor of a decision.
-- - Fixture: python/src/deferred_teleop/two_button_fixture.py. Fixture/Journal: `_read_journal` with its
--   validation, `_bindings`, `_state`. Fixture/Press: `bind_command`, `bound_command`, `press_at`,
--   `_seed_prior_impulse` and the constructor. Fixture/Adapter: `SpatialExternalEffectAdapter`.
--   Fixture/Observation: `_observation`. The journal file is the list of its lines.
-- - Runtime: `RuntimeService.handle` and `recover` of python/src/deferred_teleop/runtime.py, for any
--   `process_claimed`, and that of `MissionService`. The clock is the sequence of its readings.
--   Runtime/Factory: `EnvelopeFactory`.
-- - Node: a round of `receive_frames` and one of `send_pending` in `_run_socket_connection` of
--   python/src/deferred_teleop/node.py, with the frames that they send. In a round of
--   `send_pending`, the calls that other tasks make while it awaits `connection.send`, and whether that
--   raises, are a parameter; a round of `receive_frames` runs without such calls. Node/Calls: what those
--   calls keep. Node/Send: the round.
-- - Examples: the same statements at concrete inputs.
--
-- How the parts interact: `complete_inbox`, `commit_dummy_effect`, `resolve_external_outcome` and
-- `complete_budget_scope_denial` write the outbox by `_insert_outbox` inside their own transaction; the
-- denial completes an inbox message as well; admission, reservation, resolution and denial write the
-- journal and the budget together.
--
-- Each transaction runs alone, since it begins with BEGIN IMMEDIATE. So an interleaving of several
-- connections is a sequence of calls, and a crash stands between two calls.
-- `resolve_external_outcome` reads the effect key and the time of the dispatch before its transaction
-- begins; the model takes both reads as one step.
--
-- A connection receives a frame into the inbox and has the service handle it, and sends what the outbox
-- says is due; the link carries the frames, repeats and drops them.
--
-- The policy decides on two observations, from which the press command is derived; the adapter binds the
-- command in the fixture's journal and presses it, and the fixture's observations feed the policy.
--
-- The loops are over lists or a number of rounds, but for the `while` loop of `_after_blackout`: it runs
-- on fuel, one pass more than there are intervals, since each pass that moves the candidate leaves one
-- more interval behind.
--
-- Not modelled: the exceptions of SQLite itself and of a full
-- disk, the migrations, the owner lock, the queries that only read whole tables, the handlers of the
-- Field and of the Robot in python/src/deferred_teleop/runtime.py, the views, sockets and TOML files,
-- the dumps of the values to JSON, overflow of the arithmetic of doubles, kinematics, command lines and
-- the Unreal plugin.
pub mod Base
pub mod Time
pub mod Wire
pub mod External
pub mod Fixture
pub mod Link
pub mod M3a
pub mod Node
pub mod Policy
pub mod Runtime
pub mod Store
pub mod Examples
