-- ===== src/Lib.antt =====
-- ESS-MCP: the core of the demo agent, the program that answers people in Teams, works their cases and
-- runs tools of business systems for them, and the properties that make it safe to let it do so.
--
-- The parts, and how they interact. A person's message reaches the agent at least once, so the memory of a
-- chat (demo_agent/conversation_memory.py) claims each activity and keeps a bounded window of it, in a
-- document that is stored by an optimistic update. A tool that changes something is not run at once: the
-- gate (demo_agent/tool_approvals.py) stores the call in such a document, asks the person, and runs it
-- after an exact command of the same person. A question to a manager waits in a queue
-- (demo_agent/hitl.py). A compliance case (demo_agent/compliance_case.py) is created, answered and closed in
-- Salesforce, each after a claim in the document of the case. The case desk (demo_agent/case_desk.py) gathers
-- pushed events on the file of a case and works them one turn at a time. The guardrails
-- (demo_agent/guardrails.py) ask a policy about long texts window by window. Every tool call passes
-- `_call_tool_safe` in demo_agent/web.py: it asks the operator's switches and deny-list
-- (demo_agent/governance.py) and the guardrails, and then runs the call by the authority of a person's
-- approval, of a grant of the run's skill (demo_agent/skill_runtime.py) or of a requester's delegation, or
-- proposes it to the gate. Webhooks of ServiceNow and Salesforce (demo_agent/event_gateway.py) hand their
-- events to the case desk.
--
-- Files and code.
--   Prelude           helpers: tests on numbers, lists, texts as lists of code points, dictionaries as
--                     association lists in insertion order, and results with an error.
--   Memory            conversation_memory.py: State (ChatScope, the document, `_validate_state`), Storage
--                     (SQLiteStore's row and compare-and-swap), Update (Store.update with its retries, among
--                     other writers), Activity (claim_activity, mark_welcomed, append_exchange), Saving (an
--                     update as its caller sees it).
--   Compliance        compliance_case.py: Identity (CaseIdentity and the patterns), Record (the claims and
--                     receipts inside the transforms), Workflow (receive, answer_delivered, close, whole).
--   Approvals         tool_approvals.py: Identity (`_guid`, `_configured_users`, `_actor`, `_COMMAND`), Json and
--                     Call (`_validated_call`), Record (the request, `_validated_request`, the texts), Tasks
--                     (the transforms), Gate.Methods (propose, decide, sole_pending, clear, whole), Change (the
--                     transforms in any order).
--   CaseDesk          case_desk.py: Bindings (load_bindings), Event (CaseEvent), File (the case file,
--                     the transform of `submit`; File.Turn and File.Lifecycle, the other writes), Index (`_index`,
--                     `_resolve`), Worker (`schedule` and `_drain` as a step relation;
--                     Worker.Finishing, its workers left to themselves),
--                     Agenda (`_timer_loop` among the writes of a case).
--   Hitl              hitl.py: Queue (HitlCoordinator), with its futures in the state.
--   Guardrails        guardrails.py: Windows (`_windows`), Verdict (GuardVerdict, evaluate_text, `_record`),
--                     Versions (publish, restore_version), Saved (export, restore).
--   Governance        governance.py: Patterns (fnmatch.fnmatchcase), Switches (GovernanceState, whole), Calls
--                     (any calls and restarts), Lasting and Denied (its properties).
--   Skills            skill_runtime.py: Paths (Workspace.normalize), Workspace (its other methods, `_window`),
--                     Grants (ToolGrant, parse_grants), Session (budget, grant_for, spend, check_autonomy).
--   Dispatch          web.py: Admission (`_call_tool_safe` up to the guardrails, `_assert_instance_enabled`,
--                     `_transformed_args`), Route (by whose authority a call runs), Reply (`_tool_result_text`),
--                     Sending (the attempts, and the function whole), Authority, Backed, Once and Reported
--                     (its properties).
--   Gateway           event_gateway.py: Events (servicenow_event, salesforce_event), Handler (verify, handle).
--   */Examples        one concrete run for each theorem, and tests.
--
-- How code is modelled. A text is the list of its code points; a time is a number of ticks, which in the
-- case desk are seconds. A method that awaits is a function of what happens at its awaits: how each write
-- of the store ends (Memory.Saving: it returns, or raises before or after the row is written), what
-- callbacks answer, when the caller is cancelled, and which writes other calls make in between. An
-- exception is a value. Python dictionaries hold no key twice, which IsDict states. A loop is structural
-- recursion; Store.update's loop has its own bound, and the windows of a text run on fuel, the length of
-- the text, which is enough since each window takes a character (Guardrails.Cover).
--
-- What is a parameter: Unicode's tables, str.lower and str.casefold, the redaction patterns, json.dumps and
-- json.loads, SHA-256 and HMAC, the JSON Schema validator, the answers of Salesforce, of tools, of a skill's
-- policy check and of the policy engine. A case desk's transform reads the clock once. Calls of one run
-- overlap at their awaits: Dispatch takes what other calls do to the run meanwhile as a function, and
-- Skills.Session.Checks orders the tests of the budget and the spending of it as steps of a relation.
--
-- What is not modelled: the Azure Blob backend, HTTP, Teams, Graph and model clients, reports and
-- telemetry, document editing, the web application other than the dispatch of tool calls, the rebuilding
-- of the agenda and the sweeps of the case desk, the validation of policies, the reading of skill
-- packages, the choice of a model, the running of a skill's scripts, and the feed of events that a run
-- publishes.
pub mod Prelude
pub mod Memory
pub mod Compliance
pub mod Approvals
pub mod CaseDesk
pub mod Hitl
pub mod Gateway
pub mod Governance
pub mod Dispatch
pub mod Skills
pub mod Guardrails
