-- ===== src/Hal/Bmc.antt =====
-- components/bmc_hal/src/bmc_hal.c: the I2C slave towards the BMC.
use nic_ob_fw.Common.{ℕ, List, true, if◌then◌else◌}
use nic_ob_fw.Types.{RtosErr, rtos_ok, rtos_err_fail}
use nic_ob_fw.Platform.{
  Esp, is_esp_ok, is_positive, i2c_param_config, i2c_driver_install, i2c_slave_write_buffer,
}
use nic_ob_fw.Firmware.{M, pure, ◌>>=◌, ◌>>◌, get, modify, perform}

abbrev pub bmc_i2c_port : ℕ
bmc_i2c_port = 0

module _ (esp : Esp) where
  unfoldable pub bmc_hal_init : ℕ → M RtosErr
  bmc_hal_init slave_addr = do
    configured ← perform esp (i2c_param_config bmc_i2c_port slave_addr)
    if is_esp_ok configured
        then (do
          installed ← perform esp (i2c_driver_install bmc_i2c_port 256 256)
          if is_esp_ok installed
              then (do
                modify λ s. record s { bmc_hal = record s.bmc_hal { initialized = true } }
                pure rtos_ok)
              else pure rtos_err_fail)
        else pure rtos_err_fail

  unfoldable pub bmc_hal_transmit : List ℕ → ℕ → M RtosErr
  bmc_hal_transmit bytes length = do
    s ← get
    if s.bmc_hal.initialized
        then (do
          written ←
              perform esp (i2c_slave_write_buffer bmc_i2c_port bytes length (esp.ticks_of_ms 100))
          pure (if is_positive written then rtos_ok else rtos_err_fail))
        else pure rtos_err_fail

  -- The only callback that the program registers is `bmc_i2c_rx_isr`.
  unfoldable pub bmc_hal_register_isr : M RtosErr
  bmc_hal_register_isr = do
    modify λ s. record s { bmc_hal = record s.bmc_hal { rx_callback = true } }
    pure rtos_ok
