-- ===== src/System/Tests.antt =====
-- Witnesses of the whole system, on a platform whose queues work.
mod Start
mod Delivery
mod Cleared
mod Handover
use nic_ob_fw.Common.{ℕ, ◌≡◌, refl, List, [], ◌∷◌, some, inl, arith, replicate}
use nic_ob_fw.Types.{FlashCmd, PldmMsg}
use nic_ob_fw.Platform.{nic_item, flash_item, queue_send, queue_send_from_isr, Esp}
use nic_ob_fw.Firmware.{Firmware}
use nic_ob_fw.Sample.{esp-IsSized, firmware, message}
use nic_ob_fw.Sample.Fifo.{fifo, fifo-IsQueues}
use nic_ob_fw.GenMgr.{clear_sel}
use nic_ob_fw.GenMgr.Sel.{Logs, clear_sel-Logs}
use nic_ob_fw.Rtos.{rtos_queue_send_from_isr, rtos_yield_from_isr}
use nic_ob_fw.Protocol.Mctp.{is_som, is_eom}
use nic_ob_fw.Isr.{nic_alert_isr}
use nic_ob_fw.SensorMgr.Range.{cleared-IsTyped}
use nic_ob_fw.Common.Int.{negsuc, bits16}
use nic_ob_fw.System.Measure.{Measures, dispatch_pldm-Measures}
use nic_ob_fw.System.{IsRunning}
use nic_ob_fw.System.Queues.{Receives, IsRxItem, IsNicItem, IsUpdateItem}
use nic_ob_fw.System.Typed.{Reach-Receives}
use nic_ob_fw.System.Updates.{Settles, handle_update_start-Settles}
use nic_ob_fw.System.Steps.{alert_interrupt, at_start, one_more, Reach-IsRunning}
use nic_ob_fw.System.Request.{IsWhole, Serves, bmc_i2c_rx_isr-Serves}
use nic_ob_fw.System.Rounds.{FlashRounds, nic_flash_mgr_round-FlashRounds}

pub firmware_log : Logs firmware.gen_mgr []
unfolding clear_sel
firmware_log = clear_sel-Logs firmware.gen_mgr

-- A state in which an event and an update command wait.
abbrev pub waiting : Firmware
waiting = record firmware {
  world =
      queue_send 4
        (flash_item (record {
          cmd_type = 0;
          target_partition = 0;
          reserved = 0;
          image_offset = 0;
          image_size = 0;
        }))
        0
      ∷ queue_send_from_isr 2
          (nic_item (record { event_type = 0; event_data = 0; timestamp_ms = 0 }))
      ∷ [];
}

pub waiting-IsRunning : IsRunning waiting
waiting-IsRunning = record {
  sound = record {
    linked = (refl, refl, refl, refl, refl, refl, (omega arith, omega arith, omega arith));
    transmits = refl;
    reassembly = record { sized = refl; within = omega arith };
    cache = record { sized = refl; calibrated = omega arith };
    typed = cleared-IsTyped 16;
    log = ([], firmware_log);
    suited = ((refl, refl), (refl, tt));
  };
  settled = inl (refl, refl);
}

nic_flash_mgr_round-FlashRounds_example : FlashRounds fifo waiting
nic_flash_mgr_round-FlashRounds_example =
    nic_flash_mgr_round-FlashRounds fifo waiting fifo-IsQueues waiting-IsRunning

-- An update command with an image.
abbrev update : FlashCmd
update = record {
  cmd_type = 0;
  target_partition = 0;
  reserved = 0;
  image_offset = 256;
  image_size = 16;
}

handle_update_start-Settles_example : Settles fifo update firmware
handle_update_start-Settles_example = handle_update_start-Settles fifo update firmware

-- A request for the reading of sensor 1, as the bus hands it over.
abbrev pub request : List ℕ
request = 1 ∷ 8 ∷ 9 ∷ 0xc0 ∷ 1 ∷ 2 ∷ 0x11 ∷ 1 ∷ []

-- An alert in the middle of operation.
abbrev alerted : Firmware
alerted = record waiting {
  world =
      queue_send_from_isr 2 (nic_item (record { event_type = 0; event_data = 0; timestamp_ms = 0 }))
      ∷ waiting.world;
}

alert : nic_alert_isr fifo waiting ≡ some (tt, alerted)
unfolding nic_alert_isr rtos_queue_send_from_isr rtos_yield_from_isr
alert = refl

Reach-Receives_example :
    Receives fifo 1 0 IsRxItem alerted
    × Receives fifo 2 0 IsNicItem alerted
    × Receives fifo 4 0 IsUpdateItem alerted
    × Receives fifo alerted.sensor_mgr.alert_queue 0 (λ item. ⊥) alerted
Reach-Receives_example =
    Reach-Receives fifo 0 waiting alerted esp-IsSized fifo-IsQueues waiting-IsRunning
      (one_more waiting waiting alerted (at_start waiting) (alert_interrupt alert))
      (omega arith, omega arith, omega arith)

alerted-IsRunning : IsRunning alerted
alerted-IsRunning =
    Reach-IsRunning fifo waiting alerted esp-IsSized fifo-IsQueues
      (one_more waiting waiting alerted (at_start waiting) (alert_interrupt alert))
      waiting-IsRunning

request-IsWhole : IsWhole request 8
unfolding is_som is_eom
request-IsWhole = record {
  has_codes = omega arith;
  one_block = omega arith;
  handed_over = omega arith;
  starts = refl;
  ends = refl;
}

bmc_i2c_rx_isr-Serves_example : Serves fifo request 8 waiting alerted
bmc_i2c_rx_isr-Serves_example =
    bmc_i2c_rx_isr-Serves fifo request 8 waiting alerted esp-IsSized request-IsWhole (omega arith)
      waiting-IsRunning alerted-IsRunning

-- Both sensors answer with the bytes of -400, which is -25 degrees.
abbrev cold : Esp
cold = record fifo { answer = λ w c. record (fifo.answer w c) { bytes = 0xfe ∷ 0x70 ∷ [] } }

abbrev asks_second : PldmMsg
asks_second = record message { payload = 1 ∷ replicate 255 0 }

dispatch_pldm-Measures_example : Measures cold asks_second (negsuc 399) waiting
unfolding bits16
dispatch_pldm-Measures_example =
    dispatch_pldm-Measures cold asks_second (negsuc 399) waiting esp-IsSized waiting-IsRunning refl
      (refl, refl) (omega arith) (omega arith, omega arith) refl refl
