-- ===== src/Protocol/Pldm/Response.antt =====
-- `pldm_build_response`: what a response holds, and that a requester parses it back.
use nic_ob_fw.Common.{
  ℕ, zero, suc, append-nil, ◌+◌, ◌-◌, ◌≤◌, ◌<◌, ◌≡◌, refl, sym, ap, ◌∙◌, List, [], ◌∷◌, ◌++◌, some,
  inl, inr, arith, u16, get_or, set, take, length-take, drop, length, overwrite, memcpy_fits,
  length-overwrite, take-overwrite, length-set, lt→ltb, get_or-take, drop-take,
}
use nic_ob_fw.Types.{rtos_ok, MctpPacket, PldmMsg, pldm_max_payload, mctp_max_payload}
use nic_ob_fw.Protocol.Pldm.{pldm_build_response, pldm_parse, clamp_response}
use nic_ob_fw.Protocol.Pldm.Parse.{pldm_parse-within}

-- A response to `request`: its three codes echoed, the completion code, then the data.
pub record Answers (request : PldmMsg) (cc : ℕ) (content : List ℕ) (pkt : MctpPacket) : Type 0 where
  pub holds :
      take pkt.payload_len pkt.payload
      ≡ request.instance_id ∷ request.pldm_type ∷ request.command ∷ cc ∷ content
  pub payload_length : pkt.payload_len ≡ 4 + length content
  pub sized : length pkt.payload ≡ mctp_max_payload
  pub within : pkt.payload_len ≤ mctp_max_payload

-- Four bytes at the start of an array of at least four.
take-set_four :
    (xs : List ℕ) (a b c d : ℕ)
    → 4 ≤ length xs
    → take 4 (set (set (set (set xs 0 a) 1 b) 2 c) 3 d) ≡ a ∷ b ∷ c ∷ d ∷ []
take-set_four [] a b c d h = absurd (omega arith)
take-set_four (w ∷ []) a b c d h = absurd (omega arith)
take-set_four (w ∷ x ∷ []) a b c d h = absurd (omega arith)
take-set_four (w ∷ x ∷ y ∷ []) a b c d h = absurd (omega arith)
take-set_four (w ∷ x ∷ y ∷ z ∷ xs) a b c d h = refl

length-set_four :
    (xs : List ℕ) (a b c d : ℕ) → length (set (set (set (set xs 0 a) 1 b) 2 c) 3 d) ≡ length xs
length-set_four xs a b c d =
    length-set (set (set (set xs 0 a) 1 b) 2 c) 3 d
    ∙ length-set (set (set xs 0 a) 1 b) 2 c
    ∙ length-set (set xs 0 a) 1 b
    ∙ length-set xs 0 a

module _ (request : PldmMsg) (cc : ℕ) (out : MctpPacket)
    (sized : length out.payload ≡ mctp_max_payload) where
  abbrev head : List ℕ
  head =
      set (set (set (set out.payload 0 request.instance_id) 1 request.pldm_type) 2 request.command)
        3 cc

  length-head : length head ≡ mctp_max_payload
  length-head =
      length-set_four out.payload request.instance_id request.pldm_type request.command cc ∙ sized

  take-head : take 4 head ≡ request.instance_id ∷ request.pldm_type ∷ request.command ∷ cc ∷ []
  take-head =
      take-set_four out.payload request.instance_id request.pldm_type request.command cc
        (omega (arith, sized))

  -- The first four bytes and `n` bytes of content make the answer.
  Answers-of :
      (payload content : List ℕ) (n : ℕ)
      → length payload ≡ mctp_max_payload
      → n ≤ 60
      → length content ≡ n
      → take (4 + n) payload ≡ take 4 head ++ content
      → Answers request cc content (record out { payload = payload; payload_len = u16 (4 + n) })
  Answers-of payload content n sized' short l e =
      let small : u16 (4 + n) ≡ 4 + n = omega arith in
      record {
        holds = rw small (e ∙ ap (λ (h : List ℕ). h ++ content) take-head);
        payload_length = small ∙ ap (λ (k : ℕ). 4 + k) (sym l);
        sized = sized';
        within = omega (arith, small);
      }

  clamp_bounds : (n : ℕ) → (clamp_response n ≤ n) × (clamp_response n ≤ 60)
  unfolding clamp_response
  clamp_bounds n = ground arith

  module _ (bytes : List ℕ) (resp_len : ℕ) (have : resp_len ≤ length bytes) where
    abbrev n : ℕ
    n = clamp_response resp_len

    abbrev copied : List ℕ
    copied = overwrite head 4 bytes n

    room : 4 + n ≤ length head
    room = omega (arith, clamp_bounds resp_len, length-head)

    enough : n ≤ length bytes
    enough = omega (arith, clamp_bounds resp_len)

    copied-Answers :
        Answers request cc
          (take n bytes)
          (record out { payload = copied; payload_len = u16 (4 + n) })
    copied-Answers =
        Answers-of copied (take n bytes) n
          (length-overwrite head 4 bytes n room enough ∙ length-head) (clamp_bounds resp_len).1
          (omega (arith, length-take n bytes, enough)) (take-overwrite head 4 bytes n room enough)

    built :
        0 < resp_len
        → pldm_build_response request (some bytes) resp_len cc out
          ≡ some (rtos_ok, record out { payload = copied; payload_len = u16 (4 + n) })
    unfolding pldm_build_response
    built h = rw (lt→ltb 0 resp_len h, memcpy_fits head 4 bytes n room enough)

  -- Without data the answer is the four codes.
  bare-Answers : Answers request cc [] (record out { payload = head; payload_len = u16 (4 + 0) })
  bare-Answers =
      Answers-of head [] 0 length-head (omega arith) refl (sym (append-nil (take 4 head)))

  built_bare :
      (bytes : List ℕ)
      → pldm_build_response request (some bytes) 0 cc out
        ≡ some (rtos_ok, record out { payload = head; payload_len = u16 (4 + 0) })
  unfolding pldm_build_response
  built_bare bytes = refl

pub pldm_build_response-Answers :
    (request : PldmMsg) (cc : ℕ) (out : MctpPacket) (bytes : List ℕ) (resp_len : ℕ)
    → length out.payload ≡ mctp_max_payload
    → resp_len ≤ length bytes
    → (pkt : MctpPacket) × (pldm_build_response request (some bytes) resp_len cc out
        ≡ some (rtos_ok, pkt))
      × Answers request cc (take (clamp_response resp_len) bytes) pkt
      × (pkt.hdr_version ≡ out.hdr_version)
      × (pkt.dest_eid ≡ out.dest_eid)
      × (pkt.src_eid ≡ out.src_eid)
unfolding clamp_response
pldm_build_response-Answers request cc out bytes zero sized have =
    (_, built_bare request cc out sized bytes, bare-Answers request cc out sized, refl, refl, refl)
pldm_build_response-Answers request cc out bytes (suc k) sized have = (
  _,
  built request cc out sized bytes (suc k) have (omega arith),
  copied-Answers request cc out sized bytes (suc k) have,
  refl,
  refl,
  refl,
)

-- The requester's side: what an answer parses to.
pub record ParsedBack (request : PldmMsg) (cc : ℕ) (content : List ℕ) (msg : PldmMsg) : Type 0 where
  pub same_instance : msg.instance_id ≡ request.instance_id
  pub same_type : msg.pldm_type ≡ request.pldm_type
  pub same_command : msg.command ≡ request.command
  pub carries : take msg.payload_len msg.payload ≡ cc ∷ content

-- A packet that answers `request` is parsed, and gives back the request's codes and, as its data,
-- the completion code followed by the answer's content.
pub pldm_parse-Answers :
    (request : PldmMsg) (cc : ℕ) (content : List ℕ) (pkt : MctpPacket) (out : PldmMsg)
    → Answers request cc content pkt
    → length out.payload ≡ pldm_max_payload
    → (msg : PldmMsg) × (pldm_parse pkt out ≡ some (rtos_ok, msg))
      × ParsedBack request cc content msg
pldm_parse-Answers request cc content pkt out a sized =
    elim (pldm_parse-within pkt out a.sized sized a.within) [
      | inl (short, _) ↦ absurd (omega (arith, a.payload_length))
      | inr (msg, long, parses, parsed) ↦ (
        msg,
        parses,
        record {
          same_instance = parsed.instance ∙ byte 0 (omega (arith, long));
          same_type = parsed.type ∙ byte 1 (omega (arith, long));
          same_command = parsed.command ∙ byte 2 (omega (arith, long));
          carries =
              parsed.data_bytes
              ∙ sym (drop-take 3 (pkt.payload_len - 3) pkt.payload)
              ∙ ap (λ (k : ℕ). drop 3 (take k pkt.payload)) (omega (arith, long))
              ∙ ap (drop 3) a.holds;
        },
      )
    ]
  where
    byte :
        (i : ℕ)
        → i < pkt.payload_len
        → get_or pkt.payload i 0
          ≡ get_or (request.instance_id ∷ request.pldm_type ∷ request.command ∷ cc ∷ content) i 0
    byte i h =
        sym (get_or-take i pkt.payload_len pkt.payload 0 h)
        ∙ ap (λ (xs : List ℕ). get_or xs i 0) a.holds
