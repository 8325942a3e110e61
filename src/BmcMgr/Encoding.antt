-- ===== src/BmcMgr/Encoding.antt =====
-- The bytes that requests and responses carry, as the BMC reads and writes them: little-endian, at the
-- offsets of the C structs.
mod Tests
use nic_ob_fw.Common.{
  ℕ, ◌+◌, ◌*◌, ◌^◌, ◌≤◌, ◌<◌, ◌≡◌, refl, ap, ◌∙◌, List, [], ◌∷◌, ◌++◌, arith, le→leb, get_or,
  length, u8, ◌>>>◌,
}
use nic_ob_fw.Common.Int.{IsInt16, bits16, signed16, bits16-fits, signed16-bits16}
use nic_ob_fw.Types.{SensorRecord, PldmMsg, update_start, flash_cmd_code}
use nic_ob_fw.SensorMgr.Range.{IsRecord}
use nic_ob_fw.BmcMgr.Wire.{bytes_32, number_32, record_bytes, update_command}

abbrev pub number_16 : List ℕ → ℕ → ℕ
number_16 bytes i = get_or bytes i 0 + 256 * get_or bytes (i + 1) 0

-- A `sensor_record_t` read from 16 bytes.
abbrev pub record_of_bytes : List ℕ → SensorRecord
record_of_bytes bytes = record {
  sensor_id = number_16 bytes 0;
  sensor_type = get_or bytes 2 0;
  state = get_or bytes 3 0;
  raw_value = signed16 (number_16 bytes 4);
  scaled_value = signed16 (number_16 bytes 6);
  unit = get_or bytes 8 0;
  reserved = get_or bytes 9 0 ∷ get_or bytes 10 0 ∷ get_or bytes 11 0 ∷ [];
  timestamp_ms = number_32 bytes 12;
}

two_bytes : (n : ℕ) → n < 2 ^ 16 → u8 n + 256 * u8 (n >>> 8) ≡ n
two_bytes n h = omega arith

four_bytes :
    (n : ℕ)
    → n < 2 ^ 32
    → u8 n + 256 * u8 (n >>> 8) + 65536 * u8 (n >>> 16) + 16777216 * u8 (n >>> 24) ≡ n
four_bytes n h = omega arith

three_bytes : (l : List ℕ) → length l ≡ 3 → get_or l 0 0 ∷ get_or l 1 0 ∷ get_or l 2 0 ∷ [] ≡ l
three_bytes [] h = absurd (omega arith)
three_bytes (a ∷ []) h = absurd (omega arith)
three_bytes (a ∷ b ∷ []) h = absurd (omega arith)
three_bytes (a ∷ b ∷ c ∷ []) h = refl
three_bytes (a ∷ b ∷ c ∷ d ∷ l) h = absurd (omega arith)

-- A record whose fields have the ranges of their types is read back from the 16 bytes of a sensor
-- reading as it was, negative values included.
pub record_of_bytes-record_bytes :
    (rec : SensorRecord) → IsRecord rec → record_of_bytes (record_bytes rec) ≡ rec
unfolding record_bytes
record_of_bytes-record_bytes rec h =
    let id = two_bytes rec.sensor_id h.sensor_id in
    let raw =
      ap signed16 (two_bytes (bits16 rec.raw_value) (bits16-fits rec.raw_value))
      ∙ signed16-bits16 rec.raw_value h.raw_value in
    let scaled =
      ap signed16 (two_bytes (bits16 rec.scaled_value) (bits16-fits rec.scaled_value))
      ∙ signed16-bits16 rec.scaled_value h.scaled_value in
    let rest = three_bytes rec.reserved h.reserved in
    let time = four_bytes rec.timestamp_ms h.timestamp_ms in rw (id, raw, scaled, rest, time) refl

-- A request whose payload starts with the little-endian bytes of an offset and a size is turned
-- into the update command with this offset and this size, for partition 0.
pub update_command-bytes_32 :
    (offset size : ℕ) (rest : List ℕ) (msg : PldmMsg)
    → offset < 2 ^ 32
    → size < 2 ^ 32
    → 8 ≤ msg.payload_len
    → msg.payload ≡ bytes_32 offset ++ bytes_32 size ++ rest
    → update_command msg ≡ record {
      cmd_type = flash_cmd_code update_start;
      target_partition = 0;
      reserved = 0;
      image_offset = offset;
      image_size = size;
    }
unfolding update_command
update_command-bytes_32 offset size rest msg small small2 long is =
    rw (le→leb 8 msg.payload_len long, is, four_bytes offset small, four_bytes size small2) refl
