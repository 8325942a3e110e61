-- ===== src/BmcMgr/Encoding/Tests.antt =====
-- Witness of the encoding of a reading.
use nic_ob_fw.Common.{◌≡◌, refl, [], ◌∷◌, arith}
use nic_ob_fw.Common.Int.{negsuc}
use nic_ob_fw.Types.{SensorRecord}
use nic_ob_fw.BmcMgr.Wire.{record_bytes}
use nic_ob_fw.BmcMgr.Encoding.{record_of_bytes, record_of_bytes-record_bytes}

-- A sensor that reports -25 degrees.
abbrev cold_record : SensorRecord
cold_record = record {
  sensor_id = 258;
  sensor_type = 0;
  state = 2;
  raw_value = negsuc 399;
  scaled_value = negsuc 24;
  unit = 0;
  reserved = 0 ∷ 0 ∷ 0 ∷ [];
  timestamp_ms = 70000;
}

record_of_bytes-record_bytes_example : record_of_bytes (record_bytes cold_record) ≡ cold_record
record_of_bytes-record_bytes_example = record_of_bytes-record_bytes cold_record (record {
  sensor_id = omega arith;
  raw_value = (omega arith, omega arith);
  scaled_value = (omega arith, omega arith);
  reserved = refl;
  timestamp_ms = omega arith;
})
