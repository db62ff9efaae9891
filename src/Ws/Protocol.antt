-- ===== src/Ws/Protocol.antt =====
-- The checks of internal/ws/protocol.go. `encoding/json` and `google/uuid` are the parameter `Codec`.
use mathlib.Core.Bool.{◌&&◌, not}
use sys_escape.Prelude.{
  ℕ, Bool, false, Option, none, some, String, if◌then◌else◌, Result, ok, err, fail_if, ◌>>=◌, ◌>>◌,
  ◌==◌,
}
use sys_escape.Prelude.Int.{ℤ, leb_ℤ}
use sys_escape.Prelude.Text.{str_eq, is_blank}
use sys_escape.Ws.Messages.{
  Envelope, HelloPayload, ApplyActionPayload, protocol_version1, type_hello, type_apply_action,
  type_pong,
}

pub data WsError : Type 0 where
  invalid_envelope : WsError

-- `json.Unmarshal` at the three types, and `uuid.Parse` followed by `Version`. `none` is an error.
pub record Codec (P : Type 0) : Type 0 where
  pub envelope_of : String → Option (Envelope P)
  pub hello_of : P → Option HelloPayload
  pub apply_action_of : P → Option ApplyActionPayload
  pub uuid_version : String → Option ℕ

abbrev pub decoded : {A : Type 0} → Option A → Result WsError A
decoded none = err invalid_envelope
decoded (some a) = ok a

abbrev pub is_version1 : ℤ → Bool
is_version1 v = leb_ℤ v protocol_version1 && leb_ℤ protocol_version1 v

abbrev pub is_version4 : Option ℕ → Bool
is_version4 none = false
is_version4 (some v) = v == 4

module _ {P : Type 0} ⦃codec : Codec P⦄ where
  unfoldable pub decode_envelope : String → Result WsError (Envelope P)
  unfolding is_blank
  decode_envelope data_text = do
    env ← decoded (Codec.envelope_of codec data_text)
    fail_if (is_blank env.msg_type) invalid_envelope
    ok env

  unfoldable pub decode_hello_payload : P → Result WsError HelloPayload
  decode_hello_payload raw = decoded (Codec.hello_of codec raw)

  unfoldable pub decode_apply_action_payload : P → Result WsError ApplyActionPayload
  decode_apply_action_payload raw = decoded (Codec.apply_action_of codec raw)

  unfoldable pub validate_and_decode_hello : Envelope P → Result WsError HelloPayload
  unfolding is_blank decode_hello_payload
  validate_and_decode_hello env = do
    fail_if (not (is_version1 env.protocol_version)) invalid_envelope
    fail_if (is_blank env.run_id) invalid_envelope
    payload ← decode_hello_payload env.payload
    fail_if (is_blank payload.run_token) invalid_envelope
    ok payload

  unfoldable pub validate_and_decode_apply_action : Envelope P → Result WsError ApplyActionPayload
  unfolding is_blank decode_apply_action_payload
  validate_and_decode_apply_action env = do
    fail_if (not (is_version1 env.protocol_version)) invalid_envelope
    fail_if (is_blank env.run_id) invalid_envelope
    payload ← decode_apply_action_payload env.payload
    fail_if (is_blank payload.action_key) invalid_envelope
    fail_if (not (is_version4 (Codec.uuid_version codec payload.client_request_id)))
        invalid_envelope
    ok payload

  unfoldable pub validate_client_envelope : Envelope P → Result WsError (Unit {0})
  validate_client_envelope env =
      if str_eq env.msg_type type_pong
      then ok tt
      else if str_eq env.msg_type type_hello
      then (validate_and_decode_hello env >>= (λ payload. ok tt))
      else if str_eq env.msg_type type_apply_action
      then (validate_and_decode_apply_action env >>= (λ payload. ok tt))
      else err invalid_envelope
