-- ===== src/Token/Tokens.antt =====
-- internal/token/mint.go and internal/token/verify.go. `golang-jwt` and `google/uuid` are the parameter
-- `Jwt`.
use mathlib.Core.Bool.{not}
use sys_escape.Prelude.{
  ℕ, ◌+◌, Option, none, some, String, Result, ok, err, fail_if, ◌>>=◌, ◌>>◌, map_err,
}
use sys_escape.Prelude.Int.{pos_part}
use sys_escape.Prelude.Text.{str_eq}
use sys_escape.Token.Claims.{
  TokenError, invalid_token, expired_token, engine_mismatch, run_id_mismatch, RunTokenClaims,
  MintRunTokenInput, VerifyRunTokenInput, validate_claims, validate_mint, validate_verify,
  normalize_now,
}

-- An error of the parser that is `ErrTokenExpired`, or another one.
pub data JwtError : Type 0 where
  token_expired other_jwt_error : JwtError

-- `NewNumericDate`, `SignedString` with HS256, `ParseWithClaims` with HS256 at a time, and
-- `uuid.UUID.String`. A token that is not `Valid` is an error of the parser.
pub record Jwt : Type 0 where
  pub numeric_date : ℕ → ℕ
  pub signed_string : String → RunTokenClaims → Option String
  pub parse_with_claims : ℕ → String → String → Result JwtError RunTokenClaims
  pub uuid_text : ℕ → String

abbrev pub signed : Option String → Result TokenError String
signed none = err invalid_token
signed (some token) = ok token

abbrev pub parse_error : JwtError → TokenError
parse_error token_expired = expired_token
parse_error other_jwt_error = invalid_token

abbrev pub claims_of : Jwt → ℕ → MintRunTokenInput → RunTokenClaims
claims_of jwt now input = record {
  run_id = jwt.uuid_text input.run_id;
  engine = input.engine;
  subject = jwt.uuid_text input.user_id;
  issued_at = some (jwt.numeric_date now);
  expires_at = some (jwt.numeric_date (now + pos_part input.ttl));
}

unfoldable pub mint_run_token : Jwt → ℕ → String → MintRunTokenInput → Result TokenError String
unfolding validate_mint normalize_now
mint_run_token jwt clock secret input = do
  validate_mint input secret
  signed (jwt.signed_string secret (claims_of jwt (normalize_now clock input.now) input))

-- The checks of `VerifyRunToken` after the parser.
unfoldable pub check_claims :
    Jwt → VerifyRunTokenInput → RunTokenClaims → Result TokenError RunTokenClaims
unfolding validate_claims
check_claims jwt input claims = do
  validate_claims claims
  fail_if (not (str_eq claims.engine input.expected_engine)) engine_mismatch
  fail_if (not (str_eq claims.run_id (jwt.uuid_text input.expected_run_id))) run_id_mismatch
  ok claims

unfoldable pub verify_run_token : Jwt → ℕ → VerifyRunTokenInput → Result TokenError RunTokenClaims
unfolding validate_verify check_claims normalize_now
verify_run_token jwt clock input = do
  validate_verify input
  claims ←
      map_err parse_error
        (jwt.parse_with_claims (normalize_now clock input.now) input.secret input.token)
  check_claims jwt input claims
