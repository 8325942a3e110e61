-- ===== src/Isr/Tests.antt =====
-- Witness of the interrupt handlers.
use nic_ob_fw.Common.{ℕ, List, [], ◌∷◌}

abbrev received : List ℕ
received = 1 ∷ 8 ∷ 9 ∷ 0xc0 ∷ 1 ∷ 2 ∷ 0x11 ∷ []
