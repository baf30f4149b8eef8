-- ===== src/Protocol.antt =====
-- internal/protocol/types.go: the status of a job and what the runtime reports of it.
use autback.Prelude.{ℕ, String, Bool, true, false, Option, ℤ}

pub data Status : Type 0 where
  preparing queued running succeeded failed cancelled timed_out lost : Status

abbrev pub is_terminal : Status → Bool
is_terminal preparing = false
is_terminal queued = false
is_terminal running = false
is_terminal succeeded = true
is_terminal failed = true
is_terminal cancelled = true
is_terminal timed_out = true
is_terminal lost = true

-- protocol.Job, as far as the control plane copies it.
pub record RemoteJob : Type 0 where
  pub status : Status
  pub worker_id : String
  pub started_at : Option ℕ
  pub finished_at : Option ℕ
  pub cancel_requested : Bool
  pub exit_code : Option ℤ
  pub error_message : String
