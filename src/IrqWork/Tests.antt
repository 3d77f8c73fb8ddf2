-- ===== src/IrqWork/Tests.antt =====
-- Three triggers, with an interrupt after the first.
use l3_dd_trg.IrqWork.Triggers.{}
