-- ===== src/BmcMgr/Wire.antt =====
-- How dispatch_pldm of components/bmc_mgr/src/bmc_mgr.c lays out bytes and reads them.
use nic_ob_fw.Common.{ℕ, ◌+◌, ◌*◌, List, [], ◌∷◌, ◌++◌, leb, if◌then◌else◌, u8, ◌>>>◌, get_or}
use nic_ob_fw.Common.Int.{bits16}
use nic_ob_fw.Types.{SensorRecord, FlashCmd, PldmMsg, update_start, flash_cmd_code}

-- The bytes of a number in memory, the low one first.
abbrev pub bytes_16 : ℕ → List ℕ
bytes_16 n = u8 n ∷ u8 (n >>> 8) ∷ []

abbrev pub bytes_32 : ℕ → List ℕ
bytes_32 n = u8 n ∷ u8 (n >>> 8) ∷ u8 (n >>> 16) ∷ u8 (n >>> 24) ∷ []

abbrev pub number_32 : List ℕ → ℕ → ℕ
number_32 bytes i =
    get_or bytes i 0
    + 256 * get_or bytes (i + 1) 0
    + 65536 * get_or bytes (i + 2) 0
    + 16777216 * get_or bytes (i + 3) 0

-- The 16 bytes of a `sensor_record_t`.
unfoldable pub record_bytes : SensorRecord → List ℕ
record_bytes rec =
    bytes_16 rec.sensor_id
    ++ (rec.sensor_type ∷ rec.state ∷ [])
    ++ bytes_16 (bits16 rec.raw_value)
    ++ bytes_16 (bits16 rec.scaled_value)
    ++ (rec.unit ∷ get_or rec.reserved 0 0 ∷ get_or rec.reserved 1 0 ∷ get_or rec.reserved 2 0 ∷ [])
    ++ bytes_32 rec.timestamp_ms

-- The command that a request for an update is turned into.
unfoldable pub update_command : PldmMsg → FlashCmd
update_command msg = record {
  cmd_type = flash_cmd_code update_start;
  target_partition = 0;
  reserved = 0;
  image_offset = if leb 8 msg.payload_len then number_32 msg.payload 0 else 0;
  image_size = if leb 8 msg.payload_len then number_32 msg.payload 4 else 0;
}

-- What a request ends up with: the buffer, the length and the completion code of the response.
pub record Response : Type 0 where
  pub buf : List ℕ
  pub len : ℕ
  pub cc : ℕ

abbrev pub bare : List ℕ → ℕ → Response
bare buf cc = record { buf = buf; len = 0; cc = cc }
