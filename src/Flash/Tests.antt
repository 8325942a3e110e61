-- ===== src/Flash/Tests.antt =====
-- Witness of the polling of the SPI flash.
use nic_ob_fw.Common.{[], ◌∷◌, arith}
use nic_ob_fw.Sample.{esp, esp-IsClock, firmware}
use nic_ob_fw.Flash.{spi_flash_cmd_wait_ready}
use nic_ob_fw.Flash.Ops.{not_busy}
use nic_ob_fw.Flash.Runs.{Runs}
use nic_ob_fw.Flash.Ready.{spi_flash_cmd_wait_ready-Runs}

spi_flash_cmd_wait_ready-Runs_example :
    Runs esp (spi_flash_cmd_wait_ready esp 3000) firmware (not_busy ∷ [])
spi_flash_cmd_wait_ready-Runs_example =
    spi_flash_cmd_wait_ready-Runs esp esp-IsClock 3000 firmware (omega arith)
