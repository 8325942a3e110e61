-- ===== src/Main/Tests.antt =====
-- Witness of the start-up.
use nic_ob_fw.Sample.{esp, firmware}
use nic_ob_fw.Main.{app_main}
use nic_ob_fw.Main.Boot.{Boots, app_main-Boots}

app_main-Boots_example : Boots esp (app_main esp) firmware
app_main-Boots_example = app_main-Boots esp firmware
