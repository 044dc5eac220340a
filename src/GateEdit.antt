-- ===== src/GateEdit.antt =====
-- src/tasks/gate_edit.py: the edits of a task.md that the hooks admit. The document that a tool
-- call proposes, the check of it against the present one, and the gate that it closes.
pub mod Candidate
pub mod Patch
pub mod Validate
pub mod Pointer
pub mod Closure
pub mod Completed
pub mod Spliced
pub mod Patched
