-- ===== src/GenMgr.antt =====
-- components/nic_gen_mgr/src/nic_gen_mgr.c: inventory, versions, reset, and the system event log, a
-- ring of 32 entries. It runs in the thread of the BMC manager.
pub mod Sel
mod Tests
use nic_ob_fw.Common.{ℕ, ◌+◌, ◌%◌, List, [], ◌∷◌, ltb, if◌then◌else◌, u8, set, replicate, memcpy}
use nic_ob_fw.Types.{RtosErr, rtos_ok, FruRecord, NicEventMsg, msg_type_code, reset_cmd}
use nic_ob_fw.Platform.{Esp}
use nic_ob_fw.Firmware.{Firmware, GenMgr, SelEntry, M, pure, ◌>>=◌, ◌>>◌, get, modify, defined}
use nic_ob_fw.Rtos.{rtos_get_tick_ms}
use nic_ob_fw.NicChipProtocol.{
  nic_chip_protocol_init, nic_chip_protocol_get_fw_version, nic_chip_protocol_reset,
}

-- "1.0.0" and its final zero.
abbrev pub ob_fw_version : List ℕ
ob_fw_version = b'1' ∷ b'.' ∷ b'0' ∷ b'.' ∷ b'0' ∷ 0 ∷ []

-- "SN000000000001" and "NIC-OB-FW-001", filled up with zeros.
abbrev pub fru_initial : FruRecord
fru_initial = record {
  board_serial =
      b'S' ∷ b'N' ∷ b'0' ∷ b'0' ∷ b'0' ∷ b'0' ∷ b'0' ∷ b'0' ∷ b'0' ∷ b'0' ∷ b'0' ∷ b'0' ∷ b'0'
      ∷ b'1' ∷ 0 ∷ 0 ∷ [];
  part_number =
      b'N' ∷ b'I' ∷ b'C' ∷ b'-' ∷ b'O' ∷ b'B' ∷ b'-' ∷ b'F' ∷ b'W' ∷ b'-' ∷ b'0' ∷ b'0' ∷ b'1' ∷ 0
      ∷ 0 ∷ 0 ∷ [];
  mac_addr = 0x00 ∷ 0x1a ∷ 0x2b ∷ 0x3c ∷ 0x4d ∷ 0x5e ∷ 0x00 ∷ 0x00 ∷ [];
  hw_revision = 1;
  reserved = 0 ∷ 0 ∷ 0 ∷ [];
}

abbrev pub sel_max_entries : ℕ
sel_max_entries = 32

abbrev pub empty_entry : SelEntry
empty_entry = record { event_type = 0; event_data = 0; timestamp_ms = 0 }

-- What the log is set to by `nic_gen_mgr_init`.
unfoldable pub clear_sel : GenMgr → GenMgr
clear_sel g = record g {
  sel_log = replicate sel_max_entries empty_entry;
  sel_head = 0;
  sel_count = 0;
}

-- What `nic_gen_mgr_log_sel_event` does to the log at the time `now`.
unfoldable pub store_event : ℕ → ℕ → ℕ → GenMgr → GenMgr
store_event event_type event_data now g = record g {
  sel_log =
      set g.sel_log g.sel_head
        (record { event_type = event_type; event_data = event_data; timestamp_ms = now });
  sel_head = (g.sel_head + 1) % sel_max_entries;
  sel_count = if ltb g.sel_count sel_max_entries then u8 (g.sel_count + 1) else g.sel_count;
}

unfoldable pub nic_gen_mgr_init : M RtosErr
unfolding clear_sel
nic_gen_mgr_init = do modify λ s. record s { gen_mgr = clear_sel s.gen_mgr }; nic_chip_protocol_init

unfoldable pub nic_gen_mgr_get_fru : M (RtosErr × FruRecord)
nic_gen_mgr_get_fru = do s ← get; pure (rtos_ok, s.gen_mgr.fru)

-- The error code, and what is left in `version_buf`.
unfoldable pub nic_gen_mgr_get_ob_fw_version : List ℕ → ℕ → M (RtosErr × List ℕ)
nic_gen_mgr_get_ob_fw_version version_buf buf_size = do
  let copy_len = if ltb buf_size 6 then buf_size else 6
  filled ← defined (memcpy version_buf 0 ob_fw_version copy_len)
  pure (rtos_ok, filled)

unfoldable pub nic_gen_mgr_get_nic_fw_version : List ℕ → ℕ → M (RtosErr × List ℕ)
nic_gen_mgr_get_nic_fw_version version_buf buf_size =
    nic_chip_protocol_get_fw_version version_buf buf_size

unfoldable pub nic_gen_mgr_power_ctrl : ℕ → M RtosErr
nic_gen_mgr_power_ctrl power_state = pure rtos_ok

module _ (esp : Esp) where
  unfoldable pub nic_gen_mgr_log_sel_event : ℕ → ℕ → M RtosErr
  unfolding store_event
  nic_gen_mgr_log_sel_event event_type event_data = do
    now ← rtos_get_tick_ms esp
    modify λ s. record s { gen_mgr = store_event event_type event_data now s.gen_mgr }
    pure rtos_ok

  unfoldable pub nic_gen_mgr_reset : ℕ → M RtosErr
  unfolding nic_gen_mgr_log_sel_event
  nic_gen_mgr_reset reset_type = do
    nic_gen_mgr_log_sel_event (msg_type_code reset_cmd) reset_type
    nic_chip_protocol_reset reset_type

  unfoldable pub nic_gen_mgr_handle_nic_event : NicEventMsg → M RtosErr
  unfolding nic_gen_mgr_log_sel_event
  nic_gen_mgr_handle_nic_event event = do
    nic_gen_mgr_log_sel_event event.event_type event.event_data
    pure rtos_ok
