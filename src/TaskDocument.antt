-- ===== src/TaskDocument.antt =====
-- src/tasks/task_document.py: reading and editing the authority fields of a task.md.
-- A task file is its text. The lock makes each operation one step on that text, and
-- `_atomic_replace` is the new text; an operation that raises before it leaves the old one.
pub mod Grammar
pub mod Scan
pub mod Document
pub mod Render
pub mod Claim
pub mod Gates
pub mod Replace
pub mod Ownership
pub mod Authority
pub mod Neutral
pub mod Assemble
pub mod GateLine
pub mod NextGate
pub mod GateClosed
pub mod Position
