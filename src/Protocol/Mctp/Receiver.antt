-- ===== src/Protocol/Mctp/Receiver.antt =====
-- What a receiver of MCTP messages promises, with no buffer in sight: a message is the
-- concatenation of its fragments' bodies, from a start to an end, in sequence.
use nic_ob_fw.Common.{
  ℕ, ◌+◌, ◌-◌, ◌%◌, List, [], ◌++◌, Bool, not, Option, none, some, ltb, ◌==◌, if◌then◌else◌, get_or,
  take, drop, length,
}
use nic_ob_fw.Types.{BmcRxMsg}
use nic_ob_fw.Protocol.Mctp.{extract_seq, is_som, is_eom, Reassembly}

pub record Fragment : Type 0 where
  pub som : Bool
  pub eom : Bool
  pub seq : ℕ
  pub body : List ℕ

pub data Receiver : Type 0 where
  idle : Receiver
  receiving : List ℕ → ℕ → Receiver

-- One fragment in the middle of a message: out of sequence or too long drops the message.
unfoldable pub accept : Receiver → Fragment → Receiver × Option (List ℕ)
accept idle f = (idle, none)
accept (receiving got want) f =
    if not (f.seq == want)
    then (idle, none)
    else if ltb 256 (length got + length f.body)
    then (idle, none)
    else if f.eom
    then (idle, some (got ++ f.body))
    else (receiving (got ++ f.body) ((want + 1) % 4), none)

-- A start of message drops what was there; the message, if one is complete, comes second.
unfoldable pub receive : Receiver → Fragment → Receiver × Option (List ℕ)
unfolding accept
receive s f = accept (if f.som then receiving [] f.seq else s) f

-- The fragment that a raw message of at least four bytes holds.
unfoldable pub fragment : BmcRxMsg → Fragment
fragment m = record {
  som = is_som (get_or m.bytes 3 0);
  eom = is_eom (get_or m.bytes 3 0);
  seq = extract_seq (get_or m.bytes 3 0);
  body = take (m.len - 4) (drop 4 m.bytes);
}

-- The abstract receiver behind the module's state.
unfoldable pub receiver : Reassembly → Receiver
receiver r = if r.active then receiving (take r.offset r.buf) r.expected_seq else idle
