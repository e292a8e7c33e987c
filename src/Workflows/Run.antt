-- ===== src/Workflows/Run.antt =====
-- What becomes of an execution that `runWorkflowNow` begins.
use birthub_360_innovation.Base.{ℕ, String, Bool, some, str_eq}
use birthub_360_innovation.Runner as Worker
use birthub_360_innovation.Runner.{Execution, QueuedJob, Workflow}

abbrev pub with_id : String → Execution → Bool
with_id id e = str_eq e.id id

abbrev pub works_on : String → QueuedJob → Bool
works_on id j = str_eq j.payload.execution_id id

abbrev given_up : ℕ → Execution → Execution
given_up completed_at e = record e {
  completed_at = some completed_at;
  error_message = some "Workflow has no trigger step configured.";
  status = Worker.ExecutionStatus.failed;
}
