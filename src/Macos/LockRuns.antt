-- ===== src/Macos/LockRuns.antt =====
-- macos/service/src/mnemosyne_macos/coordinator.py: the holders of the operation lock and the tasks that
-- work on the engines, through every interleaving.
use mnemosyne_inference.Prelude.{◌+◌, ◌≡◌, Option}
use mnemosyne_inference.Leasing.{one_if}
use mnemosyne_inference.Macos.Types.{Barrier, Audit, Coordinator}
use mnemosyne_inference.Macos.System
use mnemosyne_inference.Macos.System.{Call, replace, call}
use mnemosyne_inference.Macos.LockCounts.{holds_by, inspects}

-- An audit's section.
record IsBalancedAudit (a : Audit) (s : Coordinator) (r : Option Audit × Coordinator) : Type 0 where
  balance :
      one_if (holds_by inspects r.0) + one_if s.operation_lock
      ≡ one_if (inspects a) + one_if r.1.operation_lock
  same_driver : r.1.driver ≡ s.driver
  same_barriers : r.1.barriers ≡ s.barriers
  same_audits : r.1.audits ≡ s.audits
  same_shutdown : r.1.shutdown ≡ s.shutdown
