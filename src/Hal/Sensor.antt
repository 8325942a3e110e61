-- ===== src/Hal/Sensor.antt =====
-- components/sensor_hal/src/sensor_hal.c: the I2C master towards the sensors.
use nic_ob_fw.Common.{ℕ, ◌+◌, List, [], ◌∷◌, true, if◌then◌else◌, u8, ◌<<<◌}
use nic_ob_fw.Types.{RtosErr, rtos_ok, rtos_err_fail}
use nic_ob_fw.Platform.{
  Esp, is_esp_ok, i2c_param_config, i2c_driver_install, i2c_master_cmd_begin, i2c_start, i2c_stop,
  i2c_write_byte, i2c_write, i2c_read,
}
use nic_ob_fw.Firmware.{M, pure, ◌>>=◌, ◌>>◌, get, modify, perform}

abbrev pub sensor_i2c_port : ℕ
sensor_i2c_port = 1

-- `(dev_addr << 1) | I2C_MASTER_WRITE` and `… | I2C_MASTER_READ`, as the byte that goes out.
abbrev address_write : ℕ → ℕ
address_write dev_addr = u8 (dev_addr <<< 1)

abbrev address_read : ℕ → ℕ
address_read dev_addr = u8 (dev_addr <<< 1 + 1)

module _ (esp : Esp) where
  unfoldable pub sensor_hal_init : M RtosErr
  sensor_hal_init = do
    configured ← perform esp (i2c_param_config sensor_i2c_port 0)
    if is_esp_ok configured
        then (do
          installed ← perform esp (i2c_driver_install sensor_i2c_port 0 0)
          if is_esp_ok installed
              then (do modify λ s. record s { sensor_hal_initialized = true }; pure rtos_ok)
              else pure rtos_err_fail)
        else pure rtos_err_fail

  -- The error code, and the bytes read.
  unfoldable pub sensor_hal_read_reg : ℕ → ℕ → ℕ → M (RtosErr × List ℕ)
  sensor_hal_read_reg dev_addr reg_addr length = do
    s ← get
    if s.sensor_hal_initialized
        then (do
          ret ← perform esp (
              i2c_master_cmd_begin sensor_i2c_port
                (i2c_start
                  ∷ i2c_write_byte (address_write dev_addr)
                  ∷ i2c_write_byte reg_addr
                  ∷ i2c_start
                  ∷ i2c_write_byte (address_read dev_addr)
                  ∷ i2c_read length
                  ∷ i2c_stop
                  ∷ [])
                (esp.ticks_of_ms 50))
          pure (if is_esp_ok ret then rtos_ok else rtos_err_fail, ret.bytes))
        else pure (rtos_err_fail, [])

  unfoldable pub sensor_hal_write_reg : ℕ → ℕ → List ℕ → ℕ → M RtosErr
  sensor_hal_write_reg dev_addr reg_addr bytes length = do
    s ← get
    if s.sensor_hal_initialized
        then (do
          ret ← perform esp (
              i2c_master_cmd_begin sensor_i2c_port
                (i2c_start
                  ∷ i2c_write_byte (address_write dev_addr)
                  ∷ i2c_write_byte reg_addr
                  ∷ i2c_write bytes length
                  ∷ i2c_stop
                  ∷ [])
                (esp.ticks_of_ms 50))
          pure (if is_esp_ok ret then rtos_ok else rtos_err_fail))
        else pure rtos_err_fail
