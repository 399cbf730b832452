-- ===== src/Jobs/History.antt =====
-- Histories of the tables of jobs and job events: every write of
-- src/beachops/db/repositories/jobs.py, the claim of a Windows worker included.
use beachops.Base.{ℕ, ◌≡◌, Text, Bool}
use beachops.Security.{JobStatus}
use beachops.Database.{Db}
use beachops.Jobs.Audit.{Step}
use beachops.Jobs.Queue.{claim_for_worker}

pub data Write (redact : Text → Text) (start : ℕ → ℕ → JobStatus) (db db' : Db) : Type 0 where
  writes : Step redact start db db' → Write redact start db db'
  claims :
      (locked : ℕ → Bool) (now worker : ℕ) (runtime : Text)
      → db' ≡ (claim_for_worker locked db now worker runtime).1
      → Write redact start db db'

pub data History (redact : Text → Text) (start : ℕ → ℕ → JobStatus) (db : Db) : Db → Type 0 where
  begin : History redact start db db
  later :
      {t u : Db} → History redact start db t → Write redact start t u → History redact start db u
