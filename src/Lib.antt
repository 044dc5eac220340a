-- ===== src/Lib.antt =====
-- The playbook harness keeps the work of coding agents in task files, ties every agent's
-- conversation to a session identity, and runs scripted experiments with agents in an arena. This
-- development models thirteen parts of it.
--
-- src/tasks/task_document.py, the authority over a task.md file, is TaskDocument. The text of a file
-- is a list of code points (Text). TaskDocument/Grammar.antt has the patterns of the lines, Scan.antt
-- the loop of `TaskDocument.parse` over fences, captured chat and headings, Document.antt the class
-- `TaskDocument` with `parse` and its properties, Render.antt `render`, Claim.antt
-- `claim_task_document` and `complete_task_document`, Gates.antt `complete_next_gate`, Replace.antt
-- the edits by replacing text, Position.antt `head_position`, `section_span` and
-- `update_task_document`. An operation takes the text of the file and gives its result, or the
-- exception, with the text that it leaves; the lock makes it one step. The other files of the folder
-- hold the lemmas: GateLine, NextGate, Neutral and Assemble follow one line through a parse.
--
-- src/provider/session_identity.py is Identity: validation and the providers' contracts in
-- Identity.antt, environments of processes in Env.antt, the resolution of a command's identity in
-- Resolve.antt. `SessionKey` of src/provider/session_state.py is the key by which a task names its
-- owner, and TaskDocument uses it.
--
-- The managed lanes of src/provider/session_state.py are Lanes: the data and the directory in
-- Lanes.antt, `_validate_lane` in Validate.antt, `create_managed_lane` and `resolve_managed_lane` in
-- Create.antt, `transition_managed_lane`, `_finalize_lane_binding_locked` and `record_lane_foreground`
-- in Transition.antt. A lane is bound to a `SessionKey` of Identity. Whether a time stamp can be parsed
-- is a parameter.
--
-- src/tasks/gate_edit.py is GateEdit: `candidate_from_tool_input` in Candidate.antt,
-- `candidate_from_apply_patch` in Patch.antt, `validate_task_candidate`,
-- `gate_closure_from_documents` and `validate_structured_task_edit` in Validate.antt. The members of a
-- tool call are a value of Json. A candidate is checked by two calls of `parse` of TaskDocument.
--
-- Launches and session records of the same file are Sessions, on the state of all files below
-- sessions/: the data in Sessions.antt, `_validate_launch`, expiry, `revoke_unclaimed_launches`,
-- `assert_no_active_managed_resume` and `cancel_managed_launch` in Launches.antt,
-- `reserve_managed_launch` in Reserve.antt, `_validate_record` and the update of a record in
-- Records.antt, `bind_managed_launch` in Bind.antt and Bind/Rebind.antt, and with
-- `ensure_session_record` in Ensure.antt. A bind writes the lane of its body through Lanes. The digest
-- of a token, the resolution of paths and the reading of time stamps are parameters. The lock over
-- the root makes each call one step, whose state is given also where it raises.
--
-- src/provider/policy.py, with the data of capabilities.py and events.py, is Policy: the verdict on a
-- tool call, with the file system as parameters. Policy/Gated.antt calls GateEdit for the check of an
-- edit of a task.md.
--
-- src/tasks/chat_state.py is ChatLog: the markers and the check of an entry's values in ChatLog.antt,
-- `_encode_body` and `_decode_body` in Body.antt. src/tasks/provider_detection.py is Detection:
-- `parse_version`, `_version_at_least` and the status of a probe. src/tasks/core.py is TaskCore:
-- `_slugify` and `_next_task_number`.
--
-- arena/src/playbook_arena/controller.py is Arena/Controller: `replay_controller` in Controller.antt,
-- `decide` and the records in Decide.antt, and in Rounds.antt the loop of `_control_and_collect` of
-- arena/src/playbook_arena/run.py, one round as a function from the log to the log. Regular
-- expression search, the terminal, the transport and the clock are parameters of a round.
--
-- arena/src/playbook_arena/schema.py is Arena/Schema: the checks of JSON values in Schema.antt,
-- `load_script` in Schema/Script.antt, which makes the script of a controller, and `load_rubric` in
-- Schema/Rubric.antt. arena/src/playbook_arena/judge.py is Arena/Judge: `_validate_output` on a rubric of
-- Schema in Judge.antt, `aggregate_judgments` in Judge/Aggregate.antt; the ids of a rubric are different, so
-- the result, a dictionary by id, is a list in the order of the criteria.
--
-- arena/src/playbook_arena/store.py, the log under the controller, is Arena/Chain: `verify`, `append` and
-- the check of `resume` on the parsed lines of events.jsonl, with the hash function as a parameter.
--
-- All functions are total by structural recursion, and no fuel is used. Texts and numbers of the
-- source are unbounded, so no width of integers is chosen. Upper and lower case, digits and white space are
-- those of ASCII and the few further characters that Text.antt names. An exception is a value of an
-- error type without its message. Not modelled are the locks, the atomic replacement of files, the parsing
-- of JSON and paths on the disk, the commands, and the parts of the repository outside these files.
pub mod Base
pub mod Text
pub mod Json
pub mod Identity
pub mod TaskDocument
pub mod Lanes
pub mod Policy
pub mod GateEdit
pub mod Sessions
pub mod ChatLog
pub mod Detection
pub mod TaskCore
pub mod Arena
pub mod Tests
