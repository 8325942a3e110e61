-- ===== src/Flash/Ops.antt =====
-- What the flash chip is told and says: the write enables, erases and page programs among the calls
-- made, and the status reads in which it says that it is not busy, in the order in which they were made.
use nic_ob_fw.Common.{
  ℕ, ◌+◌, ◌*◌, List, [], ◌∷◌, ◌++◌, Option, none, some, ◌==◌, if◌then◌else◌, bit_and, get_or,
}
use nic_ob_fw.Types.{RtosErr, rtos_ok, rtos_err_fail}
use nic_ob_fw.Platform.{Esp, Answer, HwCall, World, is_esp_ok, spi_device_transmit}
use nic_ob_fw.Flash.{
  flash_cmd_write_enable, flash_cmd_read_status, flash_cmd_sector_erase, flash_cmd_page_program,
  flash_status_busy,
}

-- Addresses have 24 bits, as on the wire.
pub data FlashOp : Type 0 where
  enable not_busy : FlashOp
  erase : ℕ → FlashOp
  program : ℕ → List ℕ → FlashOp

abbrev wire_address : ℕ → ℕ → ℕ → ℕ
wire_address a b c = a * 65536 + b * 256 + c

-- The operation that a frame asks for.
unfoldable pub frame_ops : List ℕ → List FlashOp
frame_ops (cmd ∷ a ∷ b ∷ c ∷ bytes) =
    if cmd == flash_cmd_sector_erase
    then erase (wire_address a b c) ∷ []
    else if cmd == flash_cmd_page_program
    then program (wire_address a b c) bytes ∷ []
    else []
frame_ops (cmd ∷ []) = if cmd == flash_cmd_write_enable then enable ∷ [] else []
frame_ops other = []

-- What a status says, if it was read.
unfoldable pub status_ops : RtosErr → ℕ → List FlashOp
status_ops rtos_ok status = if bit_and status flash_status_busy == 0 then not_busy ∷ [] else []
status_ops err status = []

abbrev pub transfer_err : Answer → RtosErr
transfer_err a = if is_esp_ok a then rtos_ok else rtos_err_fail

-- What the chip says in its answer to a frame.
unfoldable pub answer_ops : Answer → List ℕ → List FlashOp
unfolding status_ops
answer_ops a (cmd ∷ pad ∷ []) =
    if cmd == flash_cmd_read_status then status_ops (transfer_err a) (get_or a.bytes 1 0) else []
answer_ops a other = []

unfoldable pub tx_ops : Answer → Option (List ℕ) → List FlashOp
unfolding frame_ops answer_ops
tx_ops a none = []
tx_ops a (some frame) = frame_ops frame ++ answer_ops a frame

unfoldable pub call_ops : Answer → HwCall → List FlashOp
unfolding tx_ops
call_ops a (spi_device_transmit device tx reads bits) = tx_ops a tx
call_ops a other = []

unfoldable pub flash_ops : Esp → World → List FlashOp
unfolding call_ops
flash_ops esp [] = []
flash_ops esp (c ∷ w) = flash_ops esp w ++ call_ops (esp.answer w c) c
