-- ===== src/Sessions.antt =====
-- src/provider/session_state.py: launch reservations, session records and how a hook binds a
-- conversation to a launch. The files of a directory are listed by name in the order of `glob`, and
-- each is a regular file that holds a value of its type; a member that is null is one that is
-- missing. The constant members `schema` and `owner` are left out, and a workspace is the object of
-- mode and path that the code writes. An instant is a number, and when a time stamp names one is a
-- parameter, as is the name that the digest of a token gives to its file.
pub mod Directory
pub mod Launches
pub mod Reserve
pub mod Records
pub mod Bind
pub mod Ensure
pub mod Sublist
pub mod Apart
pub mod Reserved
pub mod Kept
pub mod Names
pub mod Cancel
pub mod Fresh
pub mod Admission
pub mod Update
pub mod Rebound
pub mod Claim
pub mod SingleUse
use playbook_harness.Base.{Bool, Option, List, ◌==◌}
use playbook_harness.Text.{Text}
use playbook_harness.Lanes.{Files}

pub data Operation : Type 0 where
  new resume : Operation

pub data LaunchState : Type 0 where
  reserved claimed : LaunchState

pub record Launch : Type 0 where
  pub provider : Text
  pub name : Option Text
  pub body_id : Text
  pub project : Text
  pub agent_dir : Text
  pub cwd : Text
  pub model : Option Text
  pub sandbox : Bool
  pub operation : Operation
  pub expected_provider : Option Text
  pub expected_session_id : Option Text
  pub created_at : Text
  pub expires_at : Text
  pub state : LaunchState
  pub claimed_provider : Option Text
  pub claimed_session_id : Option Text

-- `_STATES`
pub data RecordState : Type 0 where
  running stopped destroyed : RecordState

pub record Workspace : Type 0 where
  pub mode : Text
  pub path : Text

-- `session.json`
pub record SessionRecord : Type 0 where
  pub provider : Text
  pub session_id : Text
  pub created_at : Text
  pub name : Option Text
  pub managed : Option Bool
  pub state : Option RecordState
  pub project : Option Text
  pub workspace : Option Workspace
  pub resume_cwd : Option Text
  pub tmux_session : Option Text
  pub tmux_pane : Option Text
  pub last_started_at : Option Text
  pub stopped_at : Option Text
  pub lost_at : Option Text
  pub destroyed_at : Option Text
  pub body_id : Option Text
  pub sandbox : Option Bool

-- The directory of a session; other files are those that are neither a lock nor temporary.
pub record SessionEntry : Type 0 where
  pub session_record : Option SessionRecord
  pub current_state : Option Text
  pub other_files : List Text

abbrev pub Launches : Type 0
Launches = List (Text × Launch)

abbrev pub Entries : Type 0
Entries = List (Text × SessionEntry)

-- What stands below `sessions/`.
pub record Disk : Type 0 where
  pub launches : Launches
  pub lanes : Files
  pub entries : Entries
