-- ===== src/SensorProtocol/Register.antt =====
-- The register of a sensor, from the bytes on the bus to the number.
use nic_ob_fw.Common.{
  ℕ, ◌+◌, ◌/◌, ◌%◌, ◌<◌, ◌≡◌, refl, ap, ◌∙◌, List, [], ◌∷◌, true, some, arith, lt→ltb, u8, u16,
  get_or, bit_or, ◌<<<◌, bit_or_bytes,
}
use nic_ob_fw.Common.Int.{ℤ, IsInt16, bits16, signed16, bits16-fits, signed16-bits16}
use nic_ob_fw.Types.{rtos_ok}
use nic_ob_fw.Platform.{
  Esp, HwCall, is_esp_ok, i2c_master_cmd_begin, i2c_start, i2c_stop, i2c_write_byte, i2c_read,
}
use nic_ob_fw.Firmware.{Firmware}
use nic_ob_fw.Hal.Sensor.{sensor_hal_read_reg}
use nic_ob_fw.SensorProtocol.{no_sensor, sensor_map, raw_of_bytes, sensor_protocol_read}

-- What a sensor puts on the bus for a 16-bit value: the high byte first.
abbrev pub register_bytes : ℤ → List ℕ
register_bytes v = bits16 v / 256 ∷ bits16 v % 256 ∷ []

-- The transaction that reads the register of the sensor `i`: the device and the register are written,
-- and after a repeated start two bytes are read.
abbrev pub register_call : Esp → ℕ → HwCall
register_call esp i =
    let map = get_or sensor_map i no_sensor in
    i2c_master_cmd_begin 1
      (i2c_start
        ∷ i2c_write_byte (u8 (map.i2c_addr <<< 1))
        ∷ i2c_write_byte map.reg_addr
        ∷ i2c_start
        ∷ i2c_write_byte (u8 (map.i2c_addr <<< 1 + 1))
        ∷ i2c_read 2
        ∷ i2c_stop
        ∷ [])
      (esp.ticks_of_ms 50)

pub raw_of_bytes-register_bytes : (v : ℤ) → IsInt16 v → raw_of_bytes (register_bytes v) ≡ v
unfolding raw_of_bytes
raw_of_bytes-register_bytes v h =
    let fits = bits16-fits v in
    let joined = bit_or_bytes (bits16 v / 256) (bits16 v % 256) (omega arith) in
    let whole : u16 (bit_or ((bits16 v / 256) <<< 8) (bits16 v % 256)) ≡ bits16 v =
      omega (arith, joined, fits) in
    ap signed16 whole ∙ signed16-bits16 v h

-- With the driver initialised, reading one of the 16 sensors makes exactly one transaction, with
-- its device and its register; and if that succeeds and brings the two bytes of a 16-bit value, the
-- high byte first, the call returns `RTOS_OK` and that value, negative ones included.
pub sensor_protocol_read-register_bytes :
    (esp : Esp) (i : ℕ) (v : ℤ) (s : Firmware)
    → i < 16
    → s.sensor_hal_initialized ≡ true
    → IsInt16 v
    → is_esp_ok (esp.answer s.world (register_call esp i)) ≡ true
    → (esp.answer s.world (register_call esp i)).bytes ≡ register_bytes v
    → sensor_protocol_read esp i s
      ≡ some ((rtos_ok, v), record s { world = register_call esp i ∷ s.world })
unfolding sensor_protocol_read sensor_hal_read_reg
sensor_protocol_read-register_bytes esp i v s known ready range fine bytes =
    let in_map = lt→ltb i 16 known in
    let value : raw_of_bytes (esp.answer s.world (register_call esp i)).bytes ≡ v =
      ap raw_of_bytes bytes ∙ raw_of_bytes-register_bytes v range in
    simp (in_map, ready, fine, value) refl
