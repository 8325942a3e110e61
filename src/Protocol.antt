-- ===== src/Protocol.antt =====
-- components/protocol_hdlr: the facade over MCTP and PLDM.
pub mod Mctp
pub mod Pldm
