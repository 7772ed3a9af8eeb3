-- ===== src/ControlPlane/Lifecycle/Consistency/Issuance.antt =====
-- Issue keeps the file replayable to the memory, if the clock is not behind the submission.
use flowops.Prelude.{Text, codes}

abbrev issue_reason : Text
issue_reason = codes "approval window elapsed before issuance"
