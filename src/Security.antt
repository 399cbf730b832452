-- ===== src/Security.antt =====
-- The control plane's vocabulary: src/beachops/domain/security.py and the modes of
-- src/beachops/domain/models.py. Identifiers (UUIDs, Telegram ids) and time stamps are numbers.
use beachops.Base.{ℕ, Bool, true, Option, Text, List, ◌≡◌, ◌↔◌, same, same_iff}

pub data Role : Type 0 where
  viewer operator owner : Role

pub data UserMode : Type 0 where
  ask plan do_mode : UserMode

-- The members, without the aliases of the source (ASK, DO, SHELL).
pub data JobKind : Type 0 where
  read plan change raw_shell deploy merge prod_db secrets iam delete : JobKind

pub data JobStatus : Type 0 where
  draft queued planning awaiting_approval approved running review_required : JobStatus
  revision_requested paused accepted rejected succeeded failed cancelled blocked : JobStatus

pub data ApprovalKind : Type 0 where
  plan_execution result_review high_risk deploy merge prod_db secrets iam destructive : ApprovalKind

pub data Decision : Type 0 where
  pending approved rejected expired cancelled : Decision

pub data RiskLevel : Type 0 where
  low medium high blocked : RiskLevel

unfoldable pub JobStatus-discrete : Discrete JobStatus
JobStatus-discrete = hlevel

unfoldable pub ApprovalKind-discrete : Discrete ApprovalKind
ApprovalKind-discrete = hlevel

unfoldable pub status_eq : JobStatus → JobStatus → Bool
unfolding same JobStatus-discrete
status_eq = same JobStatus-discrete

pub status_eq_iff : (s t : JobStatus) → (status_eq s t ≡ true) ↔ (s ≡ t)
unfolding status_eq
status_eq_iff = same_iff JobStatus-discrete

unfoldable pub kind_eq : ApprovalKind → ApprovalKind → Bool
unfolding same ApprovalKind-discrete
kind_eq = same ApprovalKind-discrete

pub kind_eq_iff : (s t : ApprovalKind) → (kind_eq s t ≡ true) ↔ (s ≡ t)
unfolding kind_eq
kind_eq_iff = same_iff ApprovalKind-discrete

pub record Job : Type 0 where
  pub id : ℕ
  pub actor_id : ℕ
  pub kind : JobKind
  pub status : JobStatus
  pub risk_level : RiskLevel
  pub repository_url : Option Text
  pub branch : Option Text
  pub summary : Text
  pub payload_ciphertext : Option Text
  pub cursor_agent_id : Option Text
  pub cursor_run_id : Option Text
  pub cursor_token_key : Option Text
  pub cursor_last_event_id : Option Text
  pub cursor_run_status : Option Text
  pub pr_url : Option Text
  pub total_tokens : Option ℕ
  pub input_tokens : Option ℕ
  pub output_tokens : Option ℕ
  pub cache_read_tokens : Option ℕ
  pub cache_write_tokens : Option ℕ
  pub telegram_chat_id : Option ℕ
  pub telegram_message_id : Option ℕ
  pub idempotency_key : Option Text
  pub runtime : Text
  pub worker_node_id : Option ℕ
  pub attempt : ℕ
  pub telegram_updated : Bool
  pub started_at : Option ℕ
  pub finished_at : Option ℕ
  pub finalized_at : Option ℕ
  pub created_at : ℕ
  pub updated_at : ℕ

pub record Approval : Type 0 where
  pub id : ℕ
  pub job_id : ℕ
  pub actor_id : ℕ
  pub kind : ApprovalKind
  pub decision : Decision
  pub requested_at : ℕ
  pub expires_at : ℕ
  pub decided_by : Option ℕ
  pub decided_at : Option ℕ
  pub reason : Option Text

pub record RepositoryPolicy : Type 0 where
  pub repository_url : Text
  pub allowed_branches : List Text
  pub protected_branches : List Text
