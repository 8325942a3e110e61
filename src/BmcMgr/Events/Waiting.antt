-- ===== src/BmcMgr/Events/Waiting.antt =====
-- The queue of the NIC's events is emptied.
use nic_ob_fw.Common.{ℕ, ◌≡◌, ◌≢◌, refl, ◌∙◌, List, [], ◌∷◌, map, some}
use nic_ob_fw.Types.{rtos_err_timeout, NicEventMsg}
use nic_ob_fw.Platform.{Esp, nic_item}
use nic_ob_fw.Platform.Fifo.{pending, IsFifo}
use nic_ob_fw.Firmware.{Firmware}
use nic_ob_fw.Rtos.{rtos_get_tick_ms}
use nic_ob_fw.GenMgr.{nic_gen_mgr_log_sel_event, nic_gen_mgr_handle_nic_event}
use nic_ob_fw.BmcMgr.{handle_nic_event}
use nic_ob_fw.BmcMgr.Events.{Notifies, quiet, notifies_one}
use nic_ob_fw.BmcMgr.Replies.Steps.{
  received, received_first, received_from_empty, received_elsewhere,
}

-- One event handled.
record Noted (esp : Esp) (ev : NicEventMsg) (u : Firmware) : Type 0 where
  pub after : Firmware
  pub returns : handle_nic_event esp ev u ≡ some (tt, after)
  pub same_nic : after.bmc_mgr.nic_event_queue ≡ u.bmc_mgr.nic_event_queue
  pub kept : (queue : ℕ) → pending esp queue after.world ≡ pending esp queue u.world

noted : (esp : Esp) (ev : NicEventMsg) (u : Firmware) → Noted esp ev u
unfolding handle_nic_event nic_gen_mgr_handle_nic_event nic_gen_mgr_log_sel_event rtos_get_tick_ms
noted esp ev u = record { after = _; returns = refl; same_nic = refl; kept = λ queue. refl }

-- The state after the queue was emptied, with what waits in the other queues as it was.
pub record Quiets (esp : Esp) (evs : List NicEventMsg) (s : Firmware) : Type 0 where
  pub after : Firmware
  pub notifies : Notifies esp s evs after
  pub none_left : pending esp s.bmc_mgr.nic_event_queue after.world ≡ []
  pub kept :
      (queue : ℕ)
      → s.bmc_mgr.nic_event_queue ≢ queue
      → pending esp queue after.world ≡ pending esp queue s.world

module _ (esp : Esp) (fifo : IsFifo esp) where
  pub waiting-Quiets :
      (evs : List NicEventMsg) (s : Firmware)
      → pending esp s.bmc_mgr.nic_event_queue s.world ≡ map nic_item evs
      → Quiets esp evs s
  waiting-Quiets [] s waits =
      let nic = s.bmc_mgr.nic_event_queue in
      let (returns, left) = received_from_empty esp fifo s nic waits in
      record {
        after = received esp fifo s nic;
        notifies = quiet s _ rtos_err_timeout _ returns (λ e. cc);
        none_left = left;
        kept = λ queue apart. received_elsewhere esp fifo s nic queue apart;
      }
  waiting-Quiets (ev ∷ evs) s waits =
      let nic = s.bmc_mgr.nic_event_queue in
      let u = received esp fifo s nic in
      let (returns, left) = received_first esp fifo s nic (nic_item ev) (map nic_item evs) waits in
      let n = noted esp ev u in
      let q = waiting-Quiets evs n.after (rw (n.same_nic) (n.kept nic ∙ left)) in
      record {
        after = q.after;
        notifies = notifies_one s u n.after q.after ev evs returns n.returns q.notifies;
        none_left = rw (n.same_nic) at q.none_left;
        kept = λ queue apart.
            q.kept queue (rw (n.same_nic) apart)
            ∙ n.kept queue
            ∙ received_elsewhere esp fifo s nic queue apart;
      }
