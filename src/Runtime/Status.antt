-- ===== src/Runtime/Status.antt =====
-- Statuses (include/bt/status.hpp, src/bt/status.cpp) and the statuses of scheduler jobs
-- (include/bt/scheduler.hpp).
use muesli_bt.Common.{Text, codes}

pub data Status : Type 0 where
  success failure running : Status

pub Status-discrete : Discrete Status
Status-discrete = hlevel

unfoldable pub status_name : Status → Text
status_name success = codes "success"
status_name failure = codes "failure"
status_name running = codes "running"

pub data JobStatus : Type 0 where
  queued running done failed cancelled unknown : JobStatus

unfoldable pub job_status_name : JobStatus → Text
job_status_name queued = codes "queued"
job_status_name running = codes "running"
job_status_name done = codes "done"
job_status_name failed = codes "failed"
job_status_name cancelled = codes "cancelled"
job_status_name unknown = codes "unknown"
