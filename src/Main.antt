-- ===== src/Main.antt =====
-- main/main.c: queues, hardware, services, interrupts and then tasks.
pub mod Order
pub mod Steps
pub mod Services
pub mod Boot
mod Tests
use nic_ob_fw.Common.{ℕ, Bool, true, ◌==◌, if◌then◌else◌}
use nic_ob_fw.Types.{
  RtosErr, rtos_ok, rtos_err_nomem, queue_depth_bmc, queue_depth_nic_gen, queue_depth_sensor,
  queue_depth_flash, task_stack_bmc, task_stack_sensor, task_stack_flash, pri_bmc_mgr,
  pri_sensor_mgr, pri_flash_mgr,
}
use nic_ob_fw.Platform.{Esp, bmc_mgr_task_name, sensor_mgr_task_name, flash_mgr_task_name}
use nic_ob_fw.Firmware.{M, MainQueues, pure, ◌>>=◌, ◌>>◌, get, modify}
use nic_ob_fw.Rtos.{rtos_queue_create, rtos_task_create}
use nic_ob_fw.Hal.Bmc.{bmc_hal_init}
use nic_ob_fw.Hal.Sensor.{sensor_hal_init}
use nic_ob_fw.Hal.NicChip.{nic_chip_hal_init}
use nic_ob_fw.Flash.{check}
use nic_ob_fw.BmcMgr.{bmc_mgr_init}
use nic_ob_fw.SensorMgr.{sensor_mgr_init}
use nic_ob_fw.FlashMgr.{nic_flash_mgr_init}
use nic_ob_fw.Isr.{isr_handlers_init}

abbrev pub bmc_i2c_slave_addr : ℕ
bmc_i2c_slave_addr = 0x20

-- The sizes of the items, `sizeof (bmc_rx_msg_t)` and so on: the fields and the padding to four bytes.
abbrev sizeof_bmc_rx_msg : ℕ
sizeof_bmc_rx_msg = 36

abbrev sizeof_nic_event_msg : ℕ
sizeof_nic_event_msg = 12

abbrev sizeof_flash_cmd : ℕ
sizeof_flash_cmd = 12

abbrev update_queues : (MainQueues → MainQueues) → M (Unit {0})
update_queues f = modify λ s. record s { main = f s.main }

module _ (esp : Esp) where
  unfoldable pub init_queues : M RtosErr
  init_queues = do
    rx ← rtos_queue_create esp queue_depth_bmc sizeof_bmc_rx_msg
    update_queues λ q. record q { bmc_rx_queue = rx }
    if rx == 0 then pure rtos_err_nomem else (do
      nic ← rtos_queue_create esp queue_depth_nic_gen sizeof_nic_event_msg
      update_queues λ q. record q { nic_event_queue = nic }
      if nic == 0 then pure rtos_err_nomem else (do
        alert ← rtos_queue_create esp queue_depth_sensor sizeof_nic_event_msg
        update_queues λ q. record q { sensor_alert_queue = alert }
        if alert == 0 then pure rtos_err_nomem else (do
          flash ← rtos_queue_create esp queue_depth_flash sizeof_flash_cmd
          update_queues λ q. record q { flash_cmd_queue = flash }
          if flash == 0 then pure rtos_err_nomem else pure rtos_ok)))

  unfoldable pub init_hal : M RtosErr
  init_hal = do
    bmc ← bmc_hal_init esp bmc_i2c_slave_addr
    check bmc (do
      sensor ← sensor_hal_init esp
      check sensor (do nic ← nic_chip_hal_init esp; check nic (pure rtos_ok)))

  unfoldable pub init_services : M RtosErr
  init_services = do
    s ← get
    bmc ← bmc_mgr_init esp s.main.bmc_rx_queue s.main.nic_event_queue s.main.flash_cmd_queue
    check bmc (do
      s ← get
      sensor ← sensor_mgr_init esp s.main.sensor_alert_queue
      check sensor (do
        s ← get
        flash ← nic_flash_mgr_init esp s.main.flash_cmd_queue
        check flash (pure rtos_ok)))

  unfoldable pub init_isr : M RtosErr
  init_isr = do
    s ← get
    isr_handlers_init esp s.main.bmc_rx_queue s.main.nic_event_queue s.main.sensor_alert_queue

  unfoldable pub create_tasks : M RtosErr
  create_tasks = do
    bmc ← rtos_task_create esp bmc_mgr_task_name task_stack_bmc pri_bmc_mgr
    check bmc (do
      sensor ← rtos_task_create esp sensor_mgr_task_name task_stack_sensor pri_sensor_mgr
      check sensor (do
        flash ← rtos_task_create esp flash_mgr_task_name task_stack_flash pri_flash_mgr
        check flash (pure rtos_ok)))

  -- The five steps. What `app_main` logs is left out; what it ends with is returned.
  unfoldable pub app_main : M RtosErr
  unfolding init_queues init_hal init_services init_isr create_tasks
  app_main = do
    queues ← init_queues
    check queues (do
      hal ← init_hal
      check hal
          (do services ← init_services; check services (do isr ← init_isr; check isr create_tasks)))
