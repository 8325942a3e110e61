-- ===== src/Isr.antt =====
-- components/isr_handlers/src/isr_handlers.c: the interrupt handlers, which post to queues.
pub mod Copy
mod Tests
use nic_ob_fw.Common.{
  ℕ, ◌+◌, ◌*◌, ◌^◌, ◌≤◌, List, [], ◌∷◌, Bool, true, false, Option, some, none, bit_and, ltb, leb,
  ◌==◌, if◌then◌else◌, u16, get_or, set, length, for_loop,
}
use nic_ob_fw.Types.{
  RtosErr, rtos_ok, BmcRxMsg, NicEventMsg, smb_max_block_size, hw_error, nic_event_code,
}
use nic_ob_fw.Platform.{Esp, rx_item, nic_item}
use nic_ob_fw.Firmware.{M, IsrQueues, pure, ◌>>=◌, ◌>>◌, get, modify, defined}
use nic_ob_fw.Rtos.{rtos_queue_send_from_isr, rtos_yield_from_isr}
use nic_ob_fw.Hal.Bmc.{bmc_hal_register_isr}
use nic_ob_fw.Hal.NicChip.{nic_chip_hal_register_alert_isr}

-- The clamp to the size of an SMBus block.
unfoldable pub block_length : ℕ → ℕ
block_length n = if ltb smb_max_block_size n then smb_max_block_size else n

-- The bodies of the two loops that copy the block.
abbrev pub copy_one : List ℕ → ℕ → List ℕ → List ℕ
copy_one bytes i msg = set msg i (get_or bytes i 0)

abbrev pub copy_four : List ℕ → ℕ → List ℕ → List ℕ
copy_four bytes i msg =
    let msg1 = set msg i (get_or bytes i 0) in
    let msg2 = set msg1 (i + 1) (get_or bytes (i + 1) 0) in
    let msg3 = set msg2 (i + 2) (get_or bytes (i + 2) 0) in
    set msg3 (i + 3) (get_or bytes (i + 3) 0)

-- The two loops, for a block of `n` bytes. The counter is a uint16_t.
unfoldable pub copy_block : List ℕ → ℕ → List ℕ → List ℕ
unfolding for_loop
copy_block bytes n msg =
    let fours = for_loop n (2 ^ 16) 4 (bit_and n 0xffff_fffc) (copy_four bytes) 0 msg in
    (for_loop n (2 ^ 16) 1 n (copy_one bytes) fours.0 fours.1).1

module _ (esp : Esp) where
  -- The typed wrappers, which the compiler inlines.
  abbrev pub bmc_rx_queue_send_from_isr : BmcRxMsg → M (RtosErr × Bool)
  bmc_rx_queue_send_from_isr msg = do
    s ← get
    rtos_queue_send_from_isr esp s.isr.bmc_rx_queue (rx_item msg)

  abbrev pub nic_event_queue_send_from_isr : NicEventMsg → M (RtosErr × Bool)
  nic_event_queue_send_from_isr event = do
    s ← get
    rtos_queue_send_from_isr esp s.isr.nic_event_queue (nic_item event)

  -- A read past the end of the bytes that the driver hands over is undefined.
  unfoldable pub bmc_i2c_rx_isr : List ℕ → ℕ → M (Unit {0})
  unfolding copy_block block_length
  bmc_i2c_rx_isr bytes len = do
    s ← get
    if s.isr.bmc_rx_queue == 0 then pure tt else (do
      let n = block_length len
      let start = (esp.uninit s.world).rx_bytes
      block ← defined (if leb n (length bytes) then some (copy_block bytes n start) else none)
      r ← bmc_rx_queue_send_from_isr (record { bytes = block; len = n })
      rtos_yield_from_isr esp r.1)

  unfoldable pub nic_alert_isr : M (Unit {0})
  nic_alert_isr = do
    s ← get
    if s.isr.nic_event_queue == 0 then pure tt else (do
      r ←
          nic_event_queue_send_from_isr
            (record { event_type = nic_event_code hw_error; event_data = 0; timestamp_ms = 0 })
      rtos_yield_from_isr esp r.1)

  -- The results of the two registrations are dropped.
  unfoldable pub isr_handlers_init : ℕ → ℕ → ℕ → M RtosErr
  isr_handlers_init bmc_rx_queue nic_event_queue sensor_alert_queue = do
    modify λ s. record s {
      isr = record {
        bmc_rx_queue = bmc_rx_queue;
        nic_event_queue = nic_event_queue;
        sensor_alert_queue = sensor_alert_queue;
      };
    }
    bmc_hal_register_isr esp
    nic_chip_hal_register_alert_isr esp 5
    pure rtos_ok
