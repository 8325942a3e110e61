-- ===== src/NicChipProtocol.antt =====
-- components/nic_chip_protocol/src/nic_chip_protocol.c: the source has stubs, which return at once
-- and write nothing.
use nic_ob_fw.Common.{ℕ, List}
use nic_ob_fw.Types.{RtosErr, rtos_ok}
use nic_ob_fw.Firmware.{M, pure}

unfoldable pub nic_chip_protocol_init : M RtosErr
nic_chip_protocol_init = pure rtos_ok

-- The error code, and what is left in `version_buf`.
unfoldable pub nic_chip_protocol_get_fw_version : List ℕ → ℕ → M (RtosErr × List ℕ)
nic_chip_protocol_get_fw_version version_buf buf_size = pure (rtos_ok, version_buf)

unfoldable pub nic_chip_protocol_get_link_status : ℕ → M (RtosErr × ℕ)
nic_chip_protocol_get_link_status status = pure (rtos_ok, status)

unfoldable pub nic_chip_protocol_reset : ℕ → M RtosErr
nic_chip_protocol_reset reset_type = pure rtos_ok
