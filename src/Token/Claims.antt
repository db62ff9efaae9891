-- ===== src/Token/Claims.antt =====
-- internal/token/claims.go. A uuid is its 128-bit number, `uuid.Nil` is 0, and a time is a number of
-- nanoseconds; the zero time is `none`. The texts of errors are left out.
use mathlib.Core.Bool.{◌||◌}
use sys_escape.Prelude.{
  ℕ, ◌==◌, Option, none, some, String, Result, ok, err, fail_if, ◌>>◌, ltb, if◌then◌else◌,
}
use sys_escape.Prelude.Int.{ℤ, pos, leb_ℤ}
use sys_escape.Prelude.Text.{str_eq, is_blank}

pub data TokenError : Type 0 where
  invalid_token expired_token engine_mismatch run_id_mismatch invalid_claims : TokenError

abbrev pub engine_a : String
engine_a = "A"

abbrev pub engine_b : String
engine_b = "B"

pub record RunTokenClaims : Type 0 where
  pub run_id : String
  pub engine : String
  pub subject : String
  pub issued_at : Option ℕ
  pub expires_at : Option ℕ

unfoldable pub validate_engine : String → Result TokenError (Unit {0})
validate_engine engine =
    if str_eq engine engine_a || str_eq engine engine_b then ok tt else err invalid_claims

unfoldable pub validate_times : Option ℕ → Option ℕ → Result TokenError (Unit {0})
validate_times none expires_at = err invalid_claims
validate_times (some issued_at) none = err invalid_claims
validate_times (some issued_at) (some expires_at) =
    if ltb expires_at issued_at then err invalid_claims else ok tt

unfoldable pub validate_claims : RunTokenClaims → Result TokenError (Unit {0})
unfolding validate_engine validate_times is_blank
validate_claims c = do
  fail_if (is_blank c.subject) invalid_claims
  fail_if (is_blank c.run_id) invalid_claims
  validate_engine c.engine
  validate_times c.issued_at c.expires_at

pub record MintRunTokenInput : Type 0 where
  pub user_id : ℕ
  pub run_id : ℕ
  pub engine : String
  pub ttl : ℤ
  pub now : Option ℕ

unfoldable pub validate_mint : MintRunTokenInput → String → Result TokenError (Unit {0})
unfolding validate_engine is_blank
validate_mint input secret = do
  fail_if (is_blank secret) invalid_claims
  fail_if (input.user_id == 0) invalid_claims
  fail_if (input.run_id == 0) invalid_claims
  validate_engine input.engine
  fail_if (leb_ℤ input.ttl (pos 0)) invalid_claims

pub record VerifyRunTokenInput : Type 0 where
  pub token : String
  pub secret : String
  pub expected_run_id : ℕ
  pub expected_engine : String
  pub now : Option ℕ

unfoldable pub validate_verify : VerifyRunTokenInput → Result TokenError (Unit {0})
unfolding validate_engine is_blank
validate_verify input = do
  fail_if (is_blank input.token) invalid_claims
  fail_if (is_blank input.secret) invalid_claims
  fail_if (input.expected_run_id == 0) invalid_claims
  validate_engine input.expected_engine

-- `clock` is what `time.Now()` gives.
unfoldable pub normalize_now : ℕ → Option ℕ → ℕ
normalize_now clock none = clock
normalize_now clock (some now) = now
