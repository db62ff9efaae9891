-- ===== src/Token/RoundTrip.antt =====
-- Minting and verifying run tokens (internal/token).
use sys_escape.Prelude.{
  ℕ, ◌+◌, ◌≤◌, ◌<◌, ◌==◌, ◌≡◌, ◌≢◌, refl, sym, ap, ◌∙◌, true, false, Option, some, String, Result,
  ok, err, arith, ◌>>◌, inl, inr, Result-cases,
}
use sys_escape.Prelude.Int.{pos_part}
use sys_escape.Prelude.Text.{str_eq, is_blank, eq_refl, eq_iff}
use sys_escape.Token.Claims.{
  expired_token, RunTokenClaims, MintRunTokenInput, VerifyRunTokenInput, validate_claims,
  validate_engine, validate_times, validate_mint, validate_verify, normalize_now,
}
use sys_escape.Token.Tokens.{
  Jwt, token_expired, claims_of, mint_run_token, verify_run_token, check_claims,
}

-- What the code relies on. `NewNumericDate` keeps the order of times. A signed token is no blank text.
-- Where both dates of the claims are such dates, so that writing them as JSON loses nothing of them, a signed
-- token parses under the same secret to its claims before it expires, and to `ErrTokenExpired` from then on.
-- A uuid's text is not blank.
pub record JwtLaws (jwt : Jwt) : Type 0 where
  pub numeric_date-le : (a b : ℕ) → a ≤ b → jwt.numeric_date a ≤ jwt.numeric_date b
  pub token_text :
      (secret token : String) (c : RunTokenClaims)
      → jwt.signed_string secret c ≡ some token
      → is_blank token ≡ false
  pub parse-fresh :
      (secret token : String) (c : RunTokenClaims) (now start finish : ℕ)
      → jwt.signed_string secret c ≡ some token
      → c.issued_at ≡ some (jwt.numeric_date start)
      → c.expires_at ≡ some (jwt.numeric_date finish)
      → now < jwt.numeric_date finish
      → jwt.parse_with_claims now secret token ≡ ok c
  pub parse-expired :
      (secret token : String) (c : RunTokenClaims) (now start finish : ℕ)
      → jwt.signed_string secret c ≡ some token
      → c.issued_at ≡ some (jwt.numeric_date start)
      → c.expires_at ≡ some (jwt.numeric_date finish)
      → jwt.numeric_date finish ≤ now
      → jwt.parse_with_claims now secret token ≡ err token_expired
  pub uuid-text : (id : ℕ) → is_blank (jwt.uuid_text id) ≡ false

validate_mint-ok :
    (input : MintRunTokenInput) (secret : String)
    → validate_mint input secret ≡ ok tt
    → (is_blank secret ≡ false)
      × ((input.run_id == 0) ≡ false)
      × (validate_engine input.engine ≡ ok tt)
unfolding validate_mint
validate_mint-ok input secret h = ground arith

validate_claims-minted :
    (jwt : Jwt) (now : ℕ) (input : MintRunTokenInput)
    → JwtLaws jwt
    → validate_engine input.engine ≡ ok tt
    → validate_claims (claims_of jwt now input) ≡ ok tt
unfolding validate_claims validate_times
validate_claims-minted jwt now input laws h = ground (
  arith,
  laws.uuid-text input.user_id,
  laws.uuid-text input.run_id,
  laws.numeric_date-le now (now + pos_part input.ttl) (omega arith),
  h,
)

-- What `VerifyRunToken` is asked with for a minted token.
abbrev pub request : MintRunTokenInput → String → String → Option ℕ → VerifyRunTokenInput
request input secret token now = record {
  token = token;
  secret = secret;
  expected_run_id = input.run_id;
  expected_engine = input.engine;
  now = now;
}

mint_run_token-ok :
    (jwt : Jwt) (clock : ℕ) (secret token : String) (input : MintRunTokenInput)
    → mint_run_token jwt clock secret input ≡ ok token
    → (validate_mint input secret ≡ ok tt)
      × (jwt.signed_string secret (claims_of jwt (normalize_now clock input.now) input)
          ≡ some token)
unfolding mint_run_token
mint_run_token-ok jwt clock secret token input h = ground arith

validate_verify-minted :
    (input : MintRunTokenInput) (secret token : String) (now : Option ℕ)
    → is_blank token ≡ false
    → validate_mint input secret ≡ ok tt
    → validate_verify (request input secret token now) ≡ ok tt
unfolding validate_verify
validate_verify-minted input secret token now h k =
    ground (arith, h, validate_mint-ok input secret k)

-- A minted token verifies for its run, engine and secret at any time before its expiry, and gives the
-- claims that it was minted with; from its expiry on it is refused as expired. The expiry is the date, in
-- the precision of the token library, of the time of minting with the time to live added. This is for a
-- token library that keeps its documented behaviour.
pub mint-verify :
    (jwt : Jwt) (clock clock' : ℕ) (secret token : String) (input : MintRunTokenInput)
    (now : Option ℕ)
    → JwtLaws jwt
    → mint_run_token jwt clock secret input ≡ ok token
    → let expiry = jwt.numeric_date (normalize_now clock input.now + pos_part input.ttl) in
      (normalize_now clock' now < expiry
        → verify_run_token jwt clock' (request input secret token now)
          ≡ ok (claims_of jwt (normalize_now clock input.now) input))
      × (expiry ≤ normalize_now clock' now
          → verify_run_token jwt clock' (request input secret token now) ≡ err expired_token)
unfolding verify_run_token check_claims
mint-verify jwt clock clock' secret token input now laws h =
    let (valid, signs) = mint_run_token-ok jwt clock secret token input h in
    let start = normalize_now clock input.now in
    let claims = claims_of jwt start input in
    let asked =
      validate_verify-minted input secret token now (laws.token_text secret token claims signs)
        valid in
    let minted =
      validate_claims-minted jwt start input laws (validate_mint-ok input secret valid).2 in
    (
      λ fresh.
          let parsed =
            laws.parse-fresh secret token claims _ start (start + pos_part input.ttl) signs refl
              refl fresh in
          rw (asked, parsed, minted, eq_refl input.engine, eq_refl (jwt.uuid_text input.run_id))
            refl,
      λ late.
          let parsed =
            laws.parse-expired secret token claims _ start (start + pos_part input.ttl) signs refl
              refl late in
          rw (asked, parsed) refl,
    )

check_claims-ok :
    (jwt : Jwt) (input : VerifyRunTokenInput) (c claims : RunTokenClaims)
    → check_claims jwt input c ≡ ok claims
    → (c ≡ claims)
      × (validate_claims c ≡ ok tt)
      × (str_eq c.engine input.expected_engine ≡ true)
      × (str_eq c.run_id (jwt.uuid_text input.expected_run_id) ≡ true)
unfolding check_claims
check_claims-ok jwt input c claims h = ground arith

then-ok :
    {E A : Type 0} {x : Result E A} {a : A} (r : Result E (Unit {0})) → (r >> x) ≡ ok a → x ≡ ok a
then-ok (ok u) h = h
then-ok (err e) h = cc

err≢ok : {E A : Type 0} {e : E} {a : A} → ◌≢◌ {A = Result E A} (err e) (ok a)
err≢ok h = cc

verify_run_token-parsed :
    (jwt : Jwt) (clock : ℕ) (input : VerifyRunTokenInput) (claims : RunTokenClaims)
    → verify_run_token jwt clock input ≡ ok claims
    → (c : RunTokenClaims) × (jwt.parse_with_claims
          (normalize_now clock input.now)
          input.secret
          input.token
        ≡ ok c)
      × (check_claims jwt input c ≡ ok claims)
unfolding verify_run_token
verify_run_token-parsed jwt clock input claims h =
    elim (Result-cases
      (jwt.parse_with_claims (normalize_now clock input.now) input.secret input.token)) [
        | inl (c, p) ↦ (c, p, then-ok (validate_verify input) (rw p at h))
        | inr (e, p) ↦ absurd (err≢ok (then-ok (validate_verify input) (rw p at h)))
      ]

-- Whatever the token library does, a token that verifies was parsed under the given secret at the given
-- time, and its claims name the expected run and engine and pass every check of `validate`.
pub verify_run_token-ok :
    (jwt : Jwt) (clock : ℕ) (input : VerifyRunTokenInput) (claims : RunTokenClaims)
    → verify_run_token jwt clock input ≡ ok claims
    → (jwt.parse_with_claims (normalize_now clock input.now) input.secret input.token ≡ ok claims)
      × (validate_claims claims ≡ ok tt)
      × (claims.engine ≡ input.expected_engine)
      × (claims.run_id ≡ jwt.uuid_text input.expected_run_id)
verify_run_token-ok jwt clock input claims h =
    let (c, parsed, checks) = verify_run_token-parsed jwt clock input claims h in
    let (same, valid, engine, run) = check_claims-ok jwt input c claims checks in
    let named : c.engine ≡ input.expected_engine =
      ground (arith, eq_iff c.engine input.expected_engine) in
    let of_run : c.run_id ≡ jwt.uuid_text input.expected_run_id =
      ground (arith, eq_iff c.run_id (jwt.uuid_text input.expected_run_id)) in
    (
      parsed ∙ ap ok same,
      ap validate_claims (sym same) ∙ valid,
      ap (λ (x : RunTokenClaims). x.engine) (sym same) ∙ named,
      ap (λ (x : RunTokenClaims). x.run_id) (sym same) ∙ of_run,
    )
