-- ===== src/Sessions/Admission.antt =====
-- The launches that let a conversation in.
use playbook_harness.Base.{◌≡◌, refl, ◌⊎◌, true, Option, none, some, arith, ok}
use playbook_harness.Text.{Text, text_eq_iff}
use playbook_harness.Identity.{}
use playbook_harness.Lanes.{}
use playbook_harness.Lanes.Validate.{}
use playbook_harness.Sessions.{Operation, new, resume, Launch, stopped, SessionRecord}
use playbook_harness.Sessions.Directory.{}
use playbook_harness.Sessions.Launches.{is_key, is_reserved}
use playbook_harness.Sessions.Records.{same_option}
use playbook_harness.Sessions.Bind.{Bind, require_target, admit_launch}

-- The conversation that a launch lets in: a new one, or the stopped one that it resumes.
abbrev pub IsTarget : Operation → Bind → Launch → Option SessionRecord → Type 0
IsTarget new b l o = o ≡ none
IsTarget resume b l o =
    (is_key l.expected_provider l.expected_session_id b.key ≡ true)
    × ((r : SessionRecord) × (o ≡ some r)
        × (r.managed ≡ some true)
        × (r.state ≡ some stopped)
        × (r.name ≡ l.name))

pub record IsAdmission (b : Bind) (l : Launch) (o : Option SessionRecord) : Type 0 where
  pub same_provider : l.provider ≡ b.key.provider
  pub same_body : l.body_id ≡ b.body
  pub same_project : l.project ≡ b.root
  pub same_agent : l.agent_dir ≡ b.agent
  pub unclaimed :
      (is_reserved l.state ≡ true) ⊎ (is_key l.claimed_provider l.claimed_session_id b.key ≡ true)
  pub target : IsTarget l.operation b l o

same_option-eq : (a b : Option Text) → same_option a b ≡ true → a ≡ b
same_option-eq none none h = refl
same_option-eq (some a) (some b) h = ground (arith, text_eq_iff a b)
same_option-eq none (some b) h = cc
same_option-eq (some a) none h = cc

require_target-IsTarget :
    (op : Operation) (b : Bind) (l : Launch) (o : Option SessionRecord)
    → require_target op b l o ≡ ok tt
    → IsTarget op b l o
require_target-IsTarget new b l none h = refl
require_target-IsTarget new b l (some r) h = cc
require_target-IsTarget resume b l none h = absurd (ground arith)
require_target-IsTarget resume b l (some r) h = (
  ground arith,
  (r, refl, ground arith, ground arith, same_option-eq r.name l.name (ground arith)),
)

pub admit_launch-IsAdmission :
    (b : Bind) (l : Launch) (o : Option SessionRecord)
    → admit_launch b l o ≡ ok tt
    → IsAdmission b l o
unfolding admit_launch
admit_launch-IsAdmission b l o h =
    let k : require_target l.operation b l o ≡ ok tt = ground arith in
    record {
      same_provider = ground (arith, text_eq_iff l.provider b.key.provider);
      same_body = ground (arith, text_eq_iff l.body_id b.body);
      same_project = ground (arith, text_eq_iff l.project b.root);
      same_agent = ground (arith, text_eq_iff l.agent_dir b.agent);
      unclaimed = ground arith;
      target = require_target-IsTarget l.operation b l o k;
    }
