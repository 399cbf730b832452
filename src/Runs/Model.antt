-- ===== src/Runs/Model.antt =====
-- What src/beachops/services/run_finalizer.py reads and writes.
use beachops.Base.{ℕ, Bool, Option, List, Text}
use beachops.Database.{Db, Result}
use beachops.Jobs.Runtime.{RunResult}
use beachops.AgentSlots.{SlotDb}
use beachops.Dispatch.{Services, State}
use beachops.Decisions.{Crypto}

-- The tables, the ARQ queue, the slots, and the jobs that are enqueued with a delay.
pub record App : Type 0 where
  pub st : State
  pub slots : SlotDb
  pub deferred : List (ℕ × ℕ)
  pub cancel_store : ℕ → Bool

-- The settings that the finalizer reads.
pub record RunSettings : Type 0 where
  pub owner_user_ids : List ℕ
  pub admin_user_ids : List ℕ
  pub auto_approve_plans : Bool
  pub callback_token_ttl_sec : ℕ

-- The columns of StreamState that the finalizer stores.
pub record StreamState : Type 0 where
  pub result : RunResult
  pub agent_id : Option Text
  pub run_id : Option Text
  pub last_event_id : Option Text
  pub status : Text

pub record RunOutcome : Type 0 where
  pub state : StreamState
  pub status : Text
  pub error_message : Option Text

-- What the finalizer uses and does not define.
pub record Tools : Type 0 where
  pub services : Services
  pub crypto : Crypto
  pub digest : Text → ℕ
  pub settings : RunSettings
  -- the message with an owner's buttons
  pub send_message : ℕ → Result (Unit {0})

abbrev pub with_db : App → Db → App
with_db w db = record w { st = record w.st { db = db } }
