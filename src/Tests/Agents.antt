-- ===== src/Tests/Agents.antt =====
-- An agent that signs by echoing the data, and two requests to it.
use longterm.Base.{
  ◌≡◌, refl, List, [], ◌∷◌, ◌++◌, true, none, arith, ◌&&◌, not, is_empty, if◌then◌else◌,
}
use longterm.Base.Words.{Bytes, from_big_endian}
use longterm.Agent.{
  Agent, ed25519, append_string, sign, reply, process, same_bytes, agent_sign_request,
  agent_sign_response, agent_failure,
}
use longterm.Agent.Framing.{frames, answers, process-frames}
use longterm.Agent.Signing.{sign_request, reply-sign_request}

abbrev echo_agent : Agent
echo_agent = record {
  has_private_key = true;
  key_type = ed25519;
  public_key_blob = 7 ∷ 8 ∷ [];
  digest_sign = λ digest bytes. bytes;
  signature_numbers = λ raw. none;
}

-- The identities, then an unknown request; the third has only its length.
abbrev two_requests : List Bytes
two_requests = (11 ∷ []) ∷ (99 ∷ 1 ∷ []) ∷ []

process-frames_example :
    process echo_agent (frames two_requests ++ (0 ∷ 0 ∷ 0 ∷ 9 ∷ []))
    ≡ (answers echo_agent two_requests, 0 ∷ 0 ∷ 0 ∷ 9 ∷ [])
unfolding from_big_endian
process-frames_example =
    process-frames echo_agent two_requests (0 ∷ 0 ∷ 0 ∷ 9 ∷ []) (omega arith, (omega arith, tt))
      refl

reply-sign_request_example :
    reply echo_agent (agent_sign_request ∷ sign_request (7 ∷ 8 ∷ []) (1 ∷ 2 ∷ []) 0) ≡ (
      if same_bytes (7 ∷ 8 ∷ []) (7 ∷ 8 ∷ []) && not (is_empty (sign echo_agent (1 ∷ 2 ∷ []) 0))
      then append_string (agent_sign_response ∷ []) (sign echo_agent (1 ∷ 2 ∷ []) 0)
      else agent_failure ∷ [])
reply-sign_request_example =
    reply-sign_request echo_agent (7 ∷ 8 ∷ []) (1 ∷ 2 ∷ []) 0 refl (omega arith) (omega arith)
      (omega arith)
