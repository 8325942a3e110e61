-- ===== src/Protocol/Pldm/Tests.antt =====
-- Witnesses of the PLDM code.
use nic_ob_fw.Common.{◌≡◌, refl, [], ◌∷◌, some, arith}
use nic_ob_fw.Types.{rtos_ok, PldmMsg}
use nic_ob_fw.Sample.{packet, message}
use nic_ob_fw.Protocol.Pldm.{pldm_parse}
use nic_ob_fw.Protocol.Pldm.Response.{Answers, ParsedBack, pldm_parse-Answers}

-- The sample packet answers the sample message.
packet-Answers : Answers message 0 (7 ∷ []) packet
packet-Answers = record { holds = refl; payload_length = refl; sized = refl; within = omega arith }

pldm_parse-Answers_example :
    (msg : PldmMsg) × (pldm_parse packet message ≡ some (rtos_ok, msg))
    × ParsedBack message 0 (7 ∷ []) msg
pldm_parse-Answers_example =
    pldm_parse-Answers message 0 (7 ∷ []) packet message packet-Answers refl
