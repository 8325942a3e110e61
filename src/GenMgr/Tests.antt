-- ===== src/GenMgr/Tests.antt =====
-- Witnesses of the event log.
use nic_ob_fw.Common.{[]}
use nic_ob_fw.Sample.{esp, firmware}
use nic_ob_fw.GenMgr.{clear_sel}
use nic_ob_fw.GenMgr.Sel.{Logged, clear_sel-Logs, nic_gen_mgr_log_sel_event-Logs}

nic_gen_mgr_log_sel_event-Logs_example : Logged esp 6 17 [] firmware
unfolding clear_sel
nic_gen_mgr_log_sel_event-Logs_example =
    nic_gen_mgr_log_sel_event-Logs esp 6 17 [] firmware (clear_sel-Logs firmware.gen_mgr)
