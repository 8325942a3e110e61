-- ===== src/Platform.antt =====
-- What the firmware calls and does not implement: FreeRTOS and the drivers of ESP-IDF. A call is a
-- value of `HwCall`; the world is the list of the calls made so far, the newest first; and what a
-- call returns is any function of the calls before it and of the call (`Esp`).
pub mod Fifo
use nic_ob_fw.Common.{ℕ, List, Bool, false, Option, ◌==◌, ltb, ◌≡◌, length}
use nic_ob_fw.Common.Int.{ℤ, pos, negsuc}
use nic_ob_fw.Types.{
  BmcRxMsg, NicEventMsg, FlashCmd, MctpPacket, PldmMsg, mctp_max_payload, pldm_max_payload,
  smb_max_block_size,
}

-- An item of one of the four queues.
pub data Item : Type 0 where
  rx_item : BmcRxMsg → Item
  nic_item : NicEventMsg → Item
  flash_item : FlashCmd → Item

-- A step of an I2C command link.
pub data I2cOp : Type 0 where
  i2c_start i2c_stop : I2cOp
  i2c_write_byte : ℕ → I2cOp
  i2c_write : List ℕ → ℕ → I2cOp
  i2c_read : ℕ → I2cOp

pub data TaskName : Type 0 where
  bmc_mgr_task_name sensor_mgr_task_name flash_mgr_task_name : TaskName

-- The arguments are those of the call, in its order, where the firmware does not fix them. The lock of
-- a critical section is not one: every call has a new one.
pub data HwCall : Type 0 where
  task_create : TaskName → (stack_size priority : ℕ) → HwCall
  task_priority_set : (handle priority : ℕ) → HwCall
  task_priority_get : (handle : ℕ) → HwCall
  task_delay : (ticks : ℕ) → HwCall
  tick_count : HwCall
  yield_from_isr : HwCall
  enter_critical exit_critical : HwCall
  queue_create : (depth item_size : ℕ) → HwCall
  queue_send : (queue : ℕ) → Item → (ticks : ℕ) → HwCall
  queue_send_from_isr : (queue : ℕ) → Item → HwCall
  queue_receive : (queue ticks : ℕ) → HwCall
  semaphore_create_mutex semaphore_create_binary : HwCall
  semaphore_take : (handle ticks : ℕ) → HwCall
  semaphore_give : (handle : ℕ) → HwCall
  semaphore_give_from_isr : (handle : ℕ) → HwCall
  event_group_create : HwCall
  event_group_wait : (group bits : ℕ) → (clear_on_exit wait_all : Bool) → (ticks : ℕ) → HwCall
  event_group_set : (group bits : ℕ) → HwCall
  event_group_set_from_isr : (group bits : ℕ) → HwCall
  timer_create : (period_ticks : ℕ) → (auto_reload : Bool) → HwCall
  timer_start timer_stop : (timer : ℕ) → HwCall
  i2c_param_config : (port slave_addr : ℕ) → HwCall
  i2c_driver_install : (port rx_size tx_size : ℕ) → HwCall
  i2c_slave_write_buffer : (port : ℕ) → List ℕ → (len ticks : ℕ) → HwCall
  i2c_master_cmd_begin : (port : ℕ) → List I2cOp → (ticks : ℕ) → HwCall
  spi_bus_initialize spi_bus_add_device : HwCall
  spi_device_transmit : (device : ℕ) → (tx : Option (List ℕ)) → (reads : Bool) → (bits : ℕ) → HwCall
  gpio_config : (pin : ℕ) → (output : Bool) → HwCall
  gpio_set_level : (pin level : ℕ) → HwCall
  gpio_get_level : (pin : ℕ) → HwCall
  gpio_install_isr_service : HwCall
  gpio_isr_handler_add : (pin : ℕ) → HwCall

abbrev pub World : Type 0
World = List HwCall

-- `status` is an `esp_err_t`, a `BaseType_t` or an `int`, `value` a handle, a tick count, a set of
-- bits or a level, `bytes` what a read delivers and `item` what a queue delivers. `woken` is the
-- flag that the calls for interrupt handlers set.
pub record Answer : Type 0 where
  pub status : ℤ
  pub value : ℕ
  pub bytes : List ℕ
  pub item : Option Item
  pub woken : Bool

-- Local variables before anything is written to them hold any values of their types.
pub record Uninit : Type 0 where
  pub mctp_pkt : MctpPacket
  pub pldm : PldmMsg
  pub tx_buf : List ℕ
  pub resp_buf : List ℕ
  pub rx_bytes : List ℕ

-- `polls_in` bounds how often the flash is polled before a time in milliseconds is over. The source has no
-- such bound; it is what the polling loop of the model runs on.
pub record Esp : Type 0 where
  pub answer : World → HwCall → Answer
  pub uninit : World → Uninit
  pub tick_period_ms : ℕ
  pub polls_in : ℕ → ℕ
  pub ticks_of_ms : ℕ → ℕ

-- Arrays have the sizes of their types.
pub record IsSized (u : Uninit) : Type 0 where
  pub mctp_payload : length u.mctp_pkt.payload ≡ mctp_max_payload
  pub pldm_payload : length u.pldm.payload ≡ pldm_max_payload
  pub tx_buf : length u.tx_buf ≡ smb_max_block_size
  pub resp_buf : length u.resp_buf ≡ 64
  pub rx_bytes : length u.rx_bytes ≡ smb_max_block_size

-- `err == ESP_OK`.
abbrev pub is_esp_ok : Answer → Bool
is_esp_ok a = elim a.status [ pos n ↦ n == 0 | negsuc n ↦ false ]

-- `ret == pdPASS`, with `pdPASS` and `pdTRUE` one.
abbrev pub is_pass : Answer → Bool
is_pass a = elim a.status [ pos n ↦ n == 1 | negsuc n ↦ false ]

-- `written > 0`.
abbrev pub is_positive : Answer → Bool
is_positive a = elim a.status [ pos n ↦ ltb 0 n | negsuc n ↦ false ]
