-- ===== src/System/Rounds.antt =====
-- A round of the flash manager's thread, and what the BMC manager takes out of its queues.
use nic_ob_fw.Common.{◌<◌, ◌≡◌, refl, ◌∙◌, ◌∷◌, some, none}
use nic_ob_fw.Types.{RtosErr, rtos_ok, rtos_err_timeout, FlashCmd, update_start, flash_cmd_code}
use nic_ob_fw.Platform.{Esp, flash_item, queue_receive}
use nic_ob_fw.Firmware.{Firmware}
use nic_ob_fw.Rtos.{rtos_queue_receive, rtos_wait_forever, ms_to_ticks}
use nic_ob_fw.FlashMgr.{handle_update_start, dispatch_flash_cmd, nic_flash_mgr_round}
use nic_ob_fw.System.{IsRunning, IsQueues}
use nic_ob_fw.System.Sound.{called-IsRunning}
use nic_ob_fw.System.Keeps.{Ends-returns}
use nic_ob_fw.System.Queues.{Receives, nothing, got, IsUpdateItem, rtos_queue_receive-Receives}
use nic_ob_fw.System.Updates.{
  Settles, nothing_to_write, left_active, no_result, handle_update_start-Settles,
  dispatch-IsRunning,
}

-- The state after the receive.
abbrev received_by : Firmware → Firmware
received_by s = record s { world = queue_receive s.flash_mgr.cmd_queue 0xffff_ffff ∷ s.world }

-- A round of the flash manager: no command came; or an update command came, and was carried out; or
-- it had an image and its behaviour is undefined.
pub data FlashRounds (esp : Esp) (s : Firmware) : Type 0 where
  no_command :
      rtos_queue_receive esp s.flash_mgr.cmd_queue rtos_wait_forever s
        ≡ some ((rtos_err_timeout, none), received_by s)
      → nic_flash_mgr_round esp s
        ≡ some (tt, record s { world = queue_receive s.flash_mgr.cmd_queue 0xffff_ffff ∷ s.world })
      → FlashRounds esp s
  updated :
      (cmd : FlashCmd) (e : RtosErr) (t : Firmware)
      → rtos_queue_receive esp s.flash_mgr.cmd_queue rtos_wait_forever s
        ≡ some ((rtos_ok, some (flash_item cmd)), received_by s)
      → handle_update_start esp cmd
          (record s { world = queue_receive s.flash_mgr.cmd_queue 0xffff_ffff ∷ s.world })
        ≡ some (e, t)
      → nic_flash_mgr_round esp s ≡ some (tt, t)
      → IsRunning t
      → FlashRounds esp s
  null_image :
      (cmd : FlashCmd)
      → rtos_queue_receive esp s.flash_mgr.cmd_queue rtos_wait_forever s
        ≡ some ((rtos_ok, some (flash_item cmd)), received_by s)
      → 0 < cmd.image_size
      → handle_update_start esp cmd (received_by s) ≡ none
      → nic_flash_mgr_round esp s ≡ none
      → FlashRounds esp s

module _ (esp : Esp) (s : Firmware) (h : IsRunning s) where
  abbrev received : Firmware
  received = record s { world = queue_receive s.flash_mgr.cmd_queue 0xffff_ffff ∷ s.world }

  received-IsRunning : IsRunning received
  received-IsRunning = called-IsRunning (queue_receive s.flash_mgr.cmd_queue 0xffff_ffff) s tt h

  -- The command that the queue delivers.
  abbrev Delivers : FlashCmd → Type 0
  Delivers cmd =
      rtos_queue_receive esp s.flash_mgr.cmd_queue rtos_wait_forever s
      ≡ some ((rtos_ok, some (flash_item cmd)), received)

  carried_out :
      (cmd : FlashCmd) (e : RtosErr) (t : Firmware)
      → Delivers cmd
      → nic_flash_mgr_round esp s ≡ dispatch_flash_cmd esp cmd received
      → cmd.cmd_type ≡ flash_cmd_code update_start
      → handle_update_start esp cmd received ≡ some (e, t)
      → FlashRounds esp s
  unfolding dispatch_flash_cmd
  carried_out cmd e t delivers round type returns =
      let runs : dispatch_flash_cmd esp cmd received ≡ some (tt, t) = rw (type, returns) refl in
      updated cmd e t delivers returns (round ∙ runs)
        (Ends-returns IsRunning _ (dispatch-IsRunning esp cmd received received-IsRunning) runs)

  by_settling :
      (cmd : FlashCmd)
      → Delivers cmd
      → nic_flash_mgr_round esp s ≡ dispatch_flash_cmd esp cmd received
      → cmd.cmd_type ≡ flash_cmd_code update_start
      → Settles esp cmd received
      → FlashRounds esp s
  unfolding dispatch_flash_cmd
  by_settling cmd delivers round type (nothing_to_write empty returns) =
      carried_out cmd rtos_ok _ delivers round type returns
  by_settling cmd delivers round type (left_active e t image returns bad is) =
      carried_out cmd e t delivers round type returns
  by_settling cmd delivers round type (no_result image returns) =
      null_image cmd delivers image returns (round ∙ rw (type, returns) refl)

  by_receiving :
      Receives esp s.flash_mgr.cmd_queue rtos_wait_forever IsUpdateItem s → FlashRounds esp s
  unfolding nic_flash_mgr_round ms_to_ticks
  by_receiving (nothing returns) = no_command returns (rw returns refl)
  by_receiving (got item (cmd, is, type) returns) =
      by_settling cmd (rw is at returns) (rw (returns, is) refl) type
        (handle_update_start-Settles esp cmd received)

-- On queues that deliver only what was sent to them, in every running state, a round of the flash
-- manager's thread finds no command, and changes nothing; or takes an update command, carries this
-- command out and is running again, its update state settled; or takes an update command with an
-- image of one byte or more, and carrying this command out is undefined.
pub nic_flash_mgr_round-FlashRounds :
    (esp : Esp) (s : Firmware) → IsQueues esp → IsRunning s → FlashRounds esp s
nic_flash_mgr_round-FlashRounds esp s queues h =
    by_receiving esp s h (rtos_queue_receive-Receives esp rtos_wait_forever s queues h.sound).2
