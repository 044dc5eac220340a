-- ===== src/Policy.antt =====
-- src/provider/policy.py with the data of capabilities.py and events.py: the verdicts on messages,
-- tool calls and the end of a session. The members that no policy reads, and the text of a message,
-- are left out. `os.path.realpath` and `os.path.splitext` are parameters, and so is the check of a
-- structured edit, which gives the error if there is one: Gated puts that of src/tasks/gate_edit.py
-- in its place.
pub mod Admission
pub mod Gated
use playbook_harness.Base.{
  ℕ, Bool, true, false, not, ◌&&◌, ◌||◌, Option, none, some, List, [], ◌∷◌, ◌==◌, if◌then◌else◌,
  is_empty,
}
use playbook_harness.Text.{Text, codes, text_eq, text_mem, lower}

pub record ProviderCapabilities : Type 0 where
  pub has_user_prompt_hook : Bool
  pub has_pre_tool_hook : Bool
  pub has_post_tool_hook : Bool
  pub has_stop_hook : Bool

pub record SessionFacts : Type 0 where
  pub active_task_number : Option ℕ
  pub active_task_path : Option Text
  pub authority_error : Option Text

pub record ToolEvent (Input : Type 0) : Type 0 where
  pub tool_name : Text
  pub tool_input : Input
  pub file_path : Text

-- `Decision`, by its action.
pub data Decision : Type 0 where
  allow warn block skip : Decision

abbrev pub evaluate_message : ProviderCapabilities → SessionFacts → Decision
evaluate_message caps facts = if not caps.has_user_prompt_hook then skip else allow

abbrev pub is_set {ℓ} : {A : Type ℓ} → Option A → Bool
is_set none = false
is_set (some a) = true

-- A text that Python takes for true.
abbrev pub is_told : Option Text → Bool
is_told none = false
is_told (some t) = not (is_empty t)

abbrev pub evaluate_stop : ProviderCapabilities → SessionFacts → Decision
evaluate_stop caps facts =
    if not caps.has_stop_hook
    then skip
    else if not (is_set facts.active_task_number)
    then allow
    else allow

-- `.replace("\\", "/")`
unfoldable pub normalized : Text → Text
normalized [] = []
normalized (c ∷ t) = (if c == b'\\' then b'/' else c) ∷ normalized t

abbrev pub extend : ℕ → List Text → List Text
extend c [] = (c ∷ []) ∷ []
extend c (p ∷ ps) = (c ∷ p) ∷ ps

-- `.split("/")`
unfoldable pub split_path : Text → List Text
split_path [] = [] ∷ []
split_path (c ∷ t) = let rest = split_path t in if c == b'/' then [] ∷ rest else extend c rest

-- `[part for part in parts if part]`, last part first.
unfoldable pub last_parts : List Text → List Text → List Text
last_parts acc [] = acc
last_parts acc (p ∷ ps) = last_parts (if is_empty p then acc else p ∷ acc) ps

abbrev pub is_control : List Text → Bool
is_control (a ∷ b ∷ c ∷ d ∷ ps) =
    text_eq a (codes "task.md") && text_eq c (codes "tasks") && text_eq d (codes ".agent")
is_control _ = false

-- `_is_task_control_path`
unfoldable pub is_task_control_path : Text → Bool
is_task_control_path path = is_control (last_parts [] (split_path (normalized path)))

-- `_is_management_path`
unfoldable pub is_management_path : Text → Bool
is_management_path path =
    text_mem (codes ".agent") (split_path (normalized path))
    || text_mem (codes ".claude") (split_path (normalized path))

abbrev pub code_tools : List Text
code_tools = codes "Edit" ∷ codes "Write" ∷ codes "MultiEdit" ∷ []

abbrev pub code_extensions : List Text
code_extensions =
    codes ".py"
    ∷ codes ".ts"
    ∷ codes ".js"
    ∷ codes ".tsx"
    ∷ codes ".jsx"
    ∷ codes ".sh"
    ∷ codes ".bash"
    ∷ codes ".go"
    ∷ codes ".rs"
    ∷ codes ".rb"
    ∷ codes ".java"
    ∷ codes ".c"
    ∷ codes ".cpp"
    ∷ codes ".h"
    ∷ codes ".css"
    ∷ codes ".html"
    ∷ codes ".sql"
    ∷ codes ".yaml"
    ∷ codes ".yml"
    ∷ codes ".toml"
    ∷ []

abbrev pub code_dirs : List Text
code_dirs =
    codes "scripts" ∷ codes "bin" ∷ codes "src" ∷ codes "hooks" ∷ codes "lib" ∷ codes "cmd" ∷ []

-- `bool(parts & _CODE_DIRS)`
unfoldable pub meets : List Text → List Text → Bool
meets [] ds = false
meets (p ∷ ps) ds = text_mem p ds || meets ps ds

-- `_is_code_file_path`
unfoldable pub is_code_file_path : (Text → Text) → Text → Bool
is_code_file_path extension [] = false
is_code_file_path extension (c ∷ path) =
    text_mem (lower (extension (normalized (c ∷ path)))) code_extensions
    || meets (split_path (normalized (c ∷ path))) code_dirs

module _ {Input Error : Type 0} (realpath extension : Text → Text)
    (edit_error : Text → Text → Input → Option Error) where
  -- A code tool on the task.md of a task.
  abbrev pub judge_control : SessionFacts → ToolEvent Input → Option Text → Decision
  judge_control facts event none = block
  judge_control facts event (some active) =
      if not (text_eq (realpath event.file_path) (realpath active))
      then block
      else if is_set (edit_error (realpath active) event.tool_name event.tool_input)
      then block
      else allow

  -- A code tool on another file.
  abbrev pub judge_file : SessionFacts → ToolEvent Input → Decision
  judge_file facts event =
      if is_set facts.active_task_number || is_management_path event.file_path
      then allow
      else if is_code_file_path extension event.file_path
      then block
      else allow

  unfoldable pub evaluate_tool_call :
      ProviderCapabilities → SessionFacts → ToolEvent Input → Decision
  evaluate_tool_call caps facts event =
      if not caps.has_pre_tool_hook
      then skip
      else if not (text_mem event.tool_name code_tools)
      then allow
      else if is_told facts.authority_error
      then block
      else if is_task_control_path event.file_path
      then judge_control facts event facts.active_task_path
      else judge_file facts event
