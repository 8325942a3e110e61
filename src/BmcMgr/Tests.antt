-- ===== src/BmcMgr/Tests.antt =====
-- Witnesses of the thread of the BMC manager.
use nic_ob_fw.Common.{
  List, none, false, length, ◌==◌, if◌then◌else◌, replicate, ◌≡◌, refl, some, [], ◌∷◌, arith, ltb,
  ◌-◌,
}
use nic_ob_fw.Common.Int.{pos}
use nic_ob_fw.Types.{NicEventMsg, BmcRxMsg, rtos_ok, rtos_err_timeout}
use nic_ob_fw.GenMgr.{clear_sel, store_event, nic_gen_mgr_handle_nic_event}
use nic_ob_fw.GenMgr.Sel.{Logs, clear_sel-Logs}
use nic_ob_fw.BmcMgr.Events.{Notifies, quiet, notifies_one, Records, drain_nic_events-Logs}
use nic_ob_fw.Protocol.Mctp.Contract.{IsFragment, IsValid}
use nic_ob_fw.BmcMgr.Handle.{Handles, handle_bmc_msg-Handles}
use nic_ob_fw.Platform.{nic_item, Esp, queue_receive, tick_count}
use nic_ob_fw.Firmware.{SelEntry, Firmware}
use nic_ob_fw.Rtos.{rtos_get_tick_ms, rtos_queue_receive}
use nic_ob_fw.Sample.{esp, esp-IsSized, esp-IsClock, message, firmware}
use nic_ob_fw.BmcMgr.{handle_nic_event, drain_nic_events, liveness_update, liveness_check}
use nic_ob_fw.BmcMgr.Dispatch.{Responds, dispatch_pldm-Responds}
use nic_ob_fw.BmcMgr.Liveness.{liveness_check-liveness_update}

dispatch_pldm-Responds_example : Responds esp message firmware
dispatch_pldm-Responds_example =
    dispatch_pldm-Responds esp message firmware esp-IsSized refl (omega arith)

-- The BMC was heard of, one call later.
abbrev later : Firmware
later = record firmware {
  world = tick_count ∷ [];
  bmc_mgr = record firmware.bmc_mgr { last_bmc_seen_ms = 0 };
}

heard_from_start : liveness_update esp firmware ≡ some (tt, later)
unfolding liveness_update rtos_get_tick_ms
heard_from_start = refl

liveness_check-liveness_update_example :
    liveness_check esp later
    ≡ some (ltb (1 - 0) 5000, record later { world = tick_count ∷ tick_count ∷ [] })
unfolding esp-IsClock
liveness_check-liveness_update_example =
    liveness_check-liveness_update esp esp-IsClock firmware later later heard_from_start refl
      (omega arith) (omega arith)

-- A request for the reading of sensor 1, in one fragment.
abbrev reading_request : BmcRxMsg
reading_request = record { bytes = 1 ∷ 8 ∷ 9 ∷ 0xc0 ∷ 1 ∷ 2 ∷ 0x11 ∷ 1 ∷ replicate 24 0; len = 8 }

reading_request-IsFragment : IsFragment reading_request
reading_request-IsFragment = record { sized = refl; has_header = omega arith; within = omega arith }

idle-IsValid : IsValid firmware.mctp
idle-IsValid = record { sized = refl; within = omega arith }

handle_bmc_msg-Handles_example : Handles esp reading_request firmware
handle_bmc_msg-Handles_example =
    handle_bmc_msg-Handles esp reading_request firmware refl (omega arith) esp-IsSized refl
      idle-IsValid (omega arith)

-- A platform whose first receive delivers an event of the NIC, a link change, and no other receive
-- delivers anything.
abbrev link_event : NicEventMsg
link_event = record { event_type = 1; event_data = 42; timestamp_ms = 0 }

abbrev notifying : Esp
notifying = record esp {
  answer = λ w c.
      if length w == 0
      then record {
        status = pos 1;
        value = 0;
        bytes = [];
        item = some (nic_item link_event);
        woken = false;
      }
      else esp.answer w c;
}

abbrev notified : Firmware
notified = record firmware { world = queue_receive 2 0 ∷ [] }

abbrev logged : Firmware
logged = elim (handle_nic_event notifying link_event notified) [
  | none ↦ firmware
  | some (u, after) ↦ after
]

abbrev quiet_again : Firmware
quiet_again = record logged { world = queue_receive 2 0 ∷ logged.world }

notifies :
    rtos_queue_receive notifying 2 0 firmware
    ≡ some ((rtos_ok, some (nic_item link_event)), notified)
unfolding rtos_queue_receive
notifies = refl

logs_event : handle_nic_event notifying link_event notified ≡ some (tt, logged)
unfolding handle_nic_event nic_gen_mgr_handle_nic_event store_event rtos_get_tick_ms
logs_event = refl

goes_quiet :
    rtos_queue_receive notifying logged.bmc_mgr.nic_event_queue 0 logged
    ≡ some ((rtos_err_timeout, none), quiet_again)
unfolding handle_nic_event nic_gen_mgr_handle_nic_event store_event rtos_get_tick_ms
    rtos_queue_receive
goes_quiet = refl

one_link_event : Notifies notifying firmware (link_event ∷ []) quiet_again
one_link_event =
    notifies_one firmware notified logged quiet_again link_event [] notifies logs_event
      (quiet logged quiet_again rtos_err_timeout none goes_quiet (λ e. cc))

empty-Logs : Logs firmware.gen_mgr []
unfolding clear_sel
empty-Logs = clear_sel-Logs firmware.gen_mgr

drain_nic_events-Logs_example :
    (h' : List SelEntry) × (drain_nic_events notifying 2 firmware ≡ some (tt, quiet_again))
    × Records (link_event ∷ []) [] h'
    × Logs quiet_again.gen_mgr h'
drain_nic_events-Logs_example =
    drain_nic_events-Logs notifying (link_event ∷ []) [] 2 firmware quiet_again one_link_event
      (omega arith) empty-Logs
