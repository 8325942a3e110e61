-- ===== src/Types.antt =====
-- components/common/include/common_types.h: the constants, enumerations and structs that the
-- components share, and the return codes of components/rtos_hal/include/rtos_hal.h. A struct is a
-- record, an array a list, and a uint8_t, uint16_t or uint32_t a number whose range is stated
-- where it matters. An enumeration is a data type; where the code keeps its value in a uint8_t,
-- `code` is that value. Padding fields are kept only where the code writes or sends them.
pub mod Crc
pub mod Errors
mod Tests
use nic_ob_fw.Common.{ℕ, List}
use nic_ob_fw.Common.Int.{ℤ}

abbrev pub max_sensors : ℕ
max_sensors = 16

abbrev pub sensor_poll_interval_ms : ℕ
sensor_poll_interval_ms = 100

abbrev pub mctp_max_payload : ℕ
mctp_max_payload = 64

abbrev pub pldm_max_payload : ℕ
pldm_max_payload = 256

abbrev pub smb_max_block_size : ℕ
smb_max_block_size = 32

abbrev pub queue_depth_bmc : ℕ
queue_depth_bmc = 8

abbrev pub queue_depth_nic_gen : ℕ
queue_depth_nic_gen = 4

abbrev pub queue_depth_sensor : ℕ
queue_depth_sensor = 4

abbrev pub queue_depth_flash : ℕ
queue_depth_flash = 2

abbrev pub task_stack_bmc : ℕ
task_stack_bmc = 4096

abbrev pub task_stack_sensor : ℕ
task_stack_sensor = 2048

abbrev pub task_stack_flash : ℕ
task_stack_flash = 4096

abbrev pub pri_bmc_mgr : ℕ
pri_bmc_mgr = 5

abbrev pub pri_sensor_mgr : ℕ
pri_sensor_mgr = 3

abbrev pub pri_flash_mgr : ℕ
pri_flash_mgr = 1

abbrev pub flash_page_size : ℕ
flash_page_size = 256

abbrev pub flash_sector_size : ℕ
flash_sector_size = 4096

pub data RtosErr : Type 0 where
  rtos_ok rtos_err_timeout rtos_err_full rtos_err_empty rtos_err_nomem rtos_err_fail : RtosErr

pub data MsgType : Type 0 where
  sensor_read fw_update fru_query fw_version reset_cmd power_ctrl sel_event nic_asic_event : MsgType
  liveness : MsgType

pub data SensorState : Type 0 where
  ok warning critical failed unavailable : SensorState

pub data SensorType : Type 0 where
  temp voltage current power fan_rpm type_max : SensorType

pub data FlashCmdType : Type 0 where
  update_start update_abort verify activate : FlashCmdType

pub data NicEventType : Type 0 where
  hw_error link_change threshold_alert boot_complete : NicEventType

abbrev pub msg_type_code : MsgType → ℕ
msg_type_code sensor_read = 0
msg_type_code fw_update = 1
msg_type_code fru_query = 2
msg_type_code fw_version = 3
msg_type_code reset_cmd = 4
msg_type_code power_ctrl = 5
msg_type_code sel_event = 6
msg_type_code nic_asic_event = 7
msg_type_code liveness = 8

abbrev pub sensor_state_code : SensorState → ℕ
sensor_state_code ok = 0
sensor_state_code warning = 1
sensor_state_code critical = 2
sensor_state_code failed = 3
sensor_state_code unavailable = 4

abbrev pub sensor_type_code : SensorType → ℕ
sensor_type_code temp = 0
sensor_type_code voltage = 1
sensor_type_code current = 2
sensor_type_code power = 3
sensor_type_code fan_rpm = 4
sensor_type_code type_max = 5

abbrev pub flash_cmd_code : FlashCmdType → ℕ
flash_cmd_code update_start = 0
flash_cmd_code update_abort = 1
flash_cmd_code verify = 2
flash_cmd_code activate = 3

abbrev pub nic_event_code : NicEventType → ℕ
nic_event_code hw_error = 0
nic_event_code link_change = 1
nic_event_code threshold_alert = 2
nic_event_code boot_complete = 3

pub record SensorRecord : Type 0 where
  pub sensor_id : ℕ
  pub sensor_type : ℕ
  pub state : ℕ
  pub raw_value : ℤ
  pub scaled_value : ℤ
  pub unit : ℕ
  pub reserved : List ℕ
  pub timestamp_ms : ℕ

pub record SensorCache : Type 0 where
  pub records : List SensorRecord
  pub count : ℕ

pub record FlashCmd : Type 0 where
  pub cmd_type : ℕ
  pub target_partition : ℕ
  pub reserved : ℕ
  pub image_offset : ℕ
  pub image_size : ℕ

pub record NicEventMsg : Type 0 where
  pub event_type : ℕ
  pub event_data : ℕ
  pub timestamp_ms : ℕ

-- `bytes` is the field `data`.
pub record BmcRxMsg : Type 0 where
  pub bytes : List ℕ
  pub len : ℕ

pub record MctpPacket : Type 0 where
  pub hdr_version : ℕ
  pub dest_eid : ℕ
  pub src_eid : ℕ
  pub flags_seq : ℕ
  pub payload_len : ℕ
  pub reserved : ℕ
  pub payload : List ℕ

pub record PldmMsg : Type 0 where
  pub instance_id : ℕ
  pub pldm_type : ℕ
  pub command : ℕ
  pub completion_code : ℕ
  pub payload_len : ℕ
  pub reserved : ℕ
  pub payload : List ℕ

pub record FruRecord : Type 0 where
  pub board_serial : List ℕ
  pub part_number : List ℕ
  pub mac_addr : List ℕ
  pub hw_revision : ℕ
  pub reserved : List ℕ
