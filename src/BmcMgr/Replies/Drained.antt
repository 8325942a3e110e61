-- ===== src/BmcMgr/Replies/Drained.antt =====
-- The queue of the BMC's messages is emptied.
use nic_ob_fw.Common.{ℕ, ◌≡◌, refl, ◌≢◌, ◌∙◌, List, [], ◌∷◌, map, some, All}
use nic_ob_fw.Types.{BmcRxMsg}
use nic_ob_fw.Platform.{Esp, World, IsSized, rx_item}
use nic_ob_fw.Platform.Fifo.{pending, IsFifo}
use nic_ob_fw.Firmware.{Firmware}
use nic_ob_fw.Protocol.Mctp.Receiver.{receiver}
use nic_ob_fw.BmcMgr.{drain_bmc_rx}
use nic_ob_fw.BmcMgr.Drain.{IsServing, IsPosted, handled-IsServing}
use nic_ob_fw.BmcMgr.Replies.{requests, NoneTooLong, Answers, empty, next}
use nic_ob_fw.BmcMgr.Replies.Steps.{
  handled, received, received_first, received_from_empty, received_elsewhere,
}

-- The queue was emptied.
pub record Empties (esp : Esp) (ms : List BmcRxMsg) (fuel : ℕ) (s : Firmware) : Type 0 where
  pub after : Firmware
  pub returns : drain_bmc_rx esp fuel s ≡ some (tt, after)
  pub answers : Answers esp s ms (requests (receiver s.mctp) ms) after
  pub none_left : pending esp s.bmc_mgr.bmc_rx_queue after.world ≡ []

-- The state after the queue was emptied, with all the rest that the BMC manager uses as it was.
pub record Drained (esp : Esp) (ms : List BmcRxMsg) (s : Firmware) : Type 0 where
  pub after : Firmware
  pub answers : Answers esp s ms (requests (receiver s.mctp) ms) after
  pub none_left : pending esp s.bmc_mgr.bmc_rx_queue after.world ≡ []
  pub same_nic : after.bmc_mgr.nic_event_queue ≡ s.bmc_mgr.nic_event_queue
  pub same_log : after.gen_mgr ≡ s.gen_mgr
  pub kept :
      (queue : ℕ)
      → s.bmc_mgr.bmc_rx_queue ≢ queue
      → s.bmc_mgr.flash_cmd_queue ≢ queue
      → pending esp queue after.world ≡ pending esp queue s.world

module _ (esp : Esp) (fifo : IsFifo esp) (sized : (w : World) → IsSized (esp.uninit w)) where
  pub drained :
      (ms : List BmcRxMsg) (s : Firmware)
      → IsServing s
      → s.bmc_mgr.flash_cmd_queue ≢ s.bmc_mgr.bmc_rx_queue
      → pending esp s.bmc_mgr.bmc_rx_queue s.world ≡ map rx_item ms
      → All IsPosted ms
      → NoneTooLong (receiver s.mctp) ms
      → Drained esp ms s
  drained [] s serving other waits posted fits =
      let (returns, left) = received_from_empty esp fifo s s.bmc_mgr.bmc_rx_queue waits in
      record {
        after = received esp fifo s s.bmc_mgr.bmc_rx_queue;
        answers = empty s _ returns;
        none_left = left;
        same_nic = refl;
        same_log = refl;
        kept = λ queue apart elsewhere.
            received_elsewhere esp fifo s s.bmc_mgr.bmc_rx_queue queue apart;
      }
  drained (m ∷ ms) s serving other waits posted fits =
      let rx = s.bmc_mgr.bmc_rx_queue in
      let u = received esp fifo s rx in
      let (returns, left) = received_first esp fifo s rx (rx_item m) (map rx_item ms) waits in
      let served : IsServing u = record {
        ready = serving.ready;
        valid = serving.valid;
        inside = serving.inside;
      } in
      let h = handled esp m u sized served posted.0 fits.0 in
      let again = handled-IsServing esp m u h.after sized posted.0 served h.returns in
      let d =
        drained ms h.after again (rw (h.same_flash, h.same_rx) other)
          (rw (h.same_rx) (h.kept rx other ∙ left)) posted.1 (rw (h.heard_next) (fits.1)) in
      record {
        after = d.after;
        answers =
            next s u h.after d.after m ms _ _ returns h.returns h.replies
              (rw (h.heard_next) at d.answers);
        none_left = rw (h.same_rx) at d.none_left;
        same_nic = d.same_nic ∙ h.same_nic;
        same_log = d.same_log ∙ h.same_log;
        kept = λ queue apart elsewhere.
            d.kept queue (rw (h.same_rx) apart) (rw (h.same_flash) elsewhere)
            ∙ h.kept queue elsewhere
            ∙ received_elsewhere esp fifo s rx queue apart;
      }
