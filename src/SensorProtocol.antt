-- ===== src/SensorProtocol.antt =====
-- components/sensor_protocol/src/sensor_protocol.c: which register holds which sensor.
pub mod Register
use nic_ob_fw.Common.{ℕ, List, ◌∷◌, bit_or, ltb, if◌then◌else◌, u16, ◌<<<◌, get_or, replicate}
use nic_ob_fw.Common.Int.{ℤ, pos, signed16}
use nic_ob_fw.Types.{RtosErr, rtos_ok, rtos_err_fail, max_sensors, temp, sensor_type_code}
use nic_ob_fw.Platform.{Esp}
use nic_ob_fw.Firmware.{M, pure, ◌>>=◌}
use nic_ob_fw.Hal.Sensor.{sensor_hal_read_reg}

pub record SensorHwMap : Type 0 where
  pub i2c_addr : ℕ
  pub reg_addr : ℕ
  pub sensor_type : ℕ

abbrev pub no_sensor : SensorHwMap
no_sensor = record { i2c_addr = 0; reg_addr = 0; sensor_type = 0 }

-- The entries that the source does not fill in are zero.
abbrev pub sensor_map : List SensorHwMap
sensor_map =
    record { i2c_addr = 0x48; reg_addr = 0x00; sensor_type = sensor_type_code temp }
    ∷ record { i2c_addr = 0x49; reg_addr = 0x00; sensor_type = sensor_type_code temp }
    ∷ replicate 14 no_sensor

unfoldable pub sensor_protocol_init : M RtosErr
sensor_protocol_init = pure rtos_ok

-- Big-endian, as an int16_t.
unfoldable pub raw_of_bytes : List ℕ → ℤ
raw_of_bytes raw = signed16 (u16 (bit_or (get_or raw 0 0 <<< 8) (get_or raw 1 0)))

unfoldable pub sensor_protocol_set_threshold : ℕ → ℤ → ℤ → M RtosErr
sensor_protocol_set_threshold sensor_id upper_critical lower_critical = pure rtos_ok

module _ (esp : Esp) where
  -- The error code, and what is left in `*raw_value_out` on success.
  unfoldable pub sensor_protocol_read : ℕ → M (RtosErr × ℤ)
  unfolding raw_of_bytes
  sensor_protocol_read sensor_id =
      if ltb sensor_id max_sensors
      then (do
        let map = get_or sensor_map sensor_id no_sensor
        r ← sensor_hal_read_reg esp map.i2c_addr map.reg_addr 2
        (elim r.0 [ rtos_ok ↦ pure (rtos_ok, raw_of_bytes r.1) | err ↦ pure (err, pos 0) ]))
      else pure (rtos_err_fail, pos 0)
