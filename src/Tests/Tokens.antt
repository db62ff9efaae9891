-- ===== src/Tests/Tokens.antt =====
-- A token library that signs all claims with dates, and what internal/token does with it.
use Prim.Native.Char.{Char, code}
use sys_escape.Prelude.{
  ℕ, zero, suc, ◌≡◌, sym, subst, ap, ◌∙◌, ◌==◌, ◌≤◌, ◌<◌, ◌*◌, ◌/◌, refl, false, Option, none, some,
  String, Result, ok, err, or_err, ◌>>=◌, ◌>>◌, arith, ltb, if◌then◌else◌,
}
use sys_escape.Prelude.Int.{pos}
use sys_escape.Prelude.Text.{str_eq, is_blank, eq_refl, trim_space}
use sys_escape.Prelude.Text.Trim.{is_blank-visible}
use sys_escape.Token.Claims.{
  RunTokenClaims, MintRunTokenInput, validate_claims, validate_engine, validate_times,
  validate_mint, validate_verify, normalize_now, expired_token,
}
use sys_escape.Token.Tokens.{
  Jwt, JwtError, token_expired, other_jwt_error, mint_run_token, verify_run_token, check_claims,
}
use sys_escape.Token.RoundTrip.{JwtLaws, request, mint-verify, verify_run_token-ok}

-- A text, each character behind a mark, and a number as marks, both up to a dot.
abbrev write_text : String → String → String
write_text String.[] k = String.◌∷◌ "." k
write_text (String.◌∷◌ c s) k = String.◌∷◌ "x" (String.◌∷◌ c (write_text s k))

abbrev push : Char → Option (String × String) → Option (String × String)
push c none = none
push c (some (s, k)) = some (String.◌∷◌ c s, k)

abbrev read_text : String → Option (String × String)
read_text String.[] = none
read_text (String.◌∷◌ m String.[]) = if code m == 46 then some (String.[], String.[]) else none
read_text (String.◌∷◌ m (String.◌∷◌ c s)) =
    let rest = read_text s in if code m == 46 then some (String.[], String.◌∷◌ c s) else push c rest

read-write_text : (s k : String) → read_text (write_text s k) ≡ some (s, k)
read-write_text String.[] String.[] = refl
read-write_text String.[] (String.◌∷◌ c k) = refl
read-write_text (String.◌∷◌ c s) k = ap (push c) (read-write_text s k)

abbrev write_count : ℕ → String → String
write_count zero k = String.◌∷◌ "." k
write_count (suc n) k = String.◌∷◌ "x" (write_count n k)

abbrev one_more : Option (ℕ × String) → Option (ℕ × String)
one_more none = none
one_more (some (n, k)) = some (suc n, k)

abbrev read_count : String → Option (ℕ × String)
read_count String.[] = none
read_count (String.◌∷◌ m s) =
    let rest = read_count s in if code m == 46 then some (0, s) else one_more rest

read-write_count : (n : ℕ) (k : String) → read_count (write_count n k) ≡ some (n, k)
read-write_count zero k = refl
read-write_count (suc n) k = ap one_more (read-write_count n k)

-- The precision of dates: a second, in nanoseconds.
abbrev second : ℕ
second = 1_000_000_000

abbrev in_seconds : ℕ → ℕ
in_seconds t = t / second * second

-- The secret stands for the signature.
abbrev token_of : String → RunTokenClaims → ℕ → ℕ → String
token_of secret c from until = String.◌∷◌ "t" (
    write_text secret (
      write_text c.run_id (
        write_text c.engine
          (write_text c.subject (write_count (from / second) (write_count (until / second) ""))))))

abbrev sign : String → RunTokenClaims → Option ℕ → Option ℕ → Option String
sign secret c none until = none
sign secret c (some from) none = none
sign secret c (some from) (some until) = some (token_of secret c from until)

abbrev checked : ℕ → RunTokenClaims → ℕ → Result JwtError RunTokenClaims
checked now c until = if ltb now until then ok c else err token_expired

abbrev parsed : ℕ → String → String → Result JwtError RunTokenClaims
parsed now secret body = do
  (key, b1) ← or_err other_jwt_error (read_text body)
  (run_id, b2) ← or_err other_jwt_error (read_text b1)
  (engine, b3) ← or_err other_jwt_error (read_text b2)
  (subject, b4) ← or_err other_jwt_error (read_text b3)
  (from, b5) ← or_err other_jwt_error (read_count b4)
  (until, b6) ← or_err other_jwt_error (read_count b5)
  (if str_eq key secret then ok tt else err other_jwt_error)
  checked now
      (record {
        run_id = run_id;
        engine = engine;
        subject = subject;
        issued_at = some (from * second);
        expires_at = some (until * second);
      })
      (until * second)

abbrev parse : ℕ → String → String → Result JwtError RunTokenClaims
parse now secret String.[] = err other_jwt_error
parse now secret (String.◌∷◌ m body) = parsed now secret body

abbrev marks : ℕ → String
marks zero = ""
marks (suc n) = String.◌∷◌ "x" (marks n)

-- A library that signs whatever has both dates.
abbrev library : Jwt
library = record {
  numeric_date = in_seconds;
  signed_string = λ secret c. sign secret c c.issued_at c.expires_at;
  parse_with_claims = parse;
  uuid_text = λ id. String.◌∷◌ "u" (marks id);
}

whole : (t : ℕ) → in_seconds t / second * second ≡ in_seconds t
whole t = omega arith

library-parsed :
    (secret token : String) (c : RunTokenClaims) (now start finish : ℕ)
    → library.signed_string secret c ≡ some token
    → c.issued_at ≡ some (in_seconds start)
    → c.expires_at ≡ some (in_seconds finish)
    → parse now secret token ≡ checked now c (in_seconds finish)
library-parsed secret token c now start finish h i e =
    let signs = rw (i, e) at h in
    let same : token_of secret c (in_seconds start) (in_seconds finish) ≡ token = cc in
    subst (λ t. parse now secret t ≡ checked now c (in_seconds finish)) same
      (rw
        (
          read-write_text secret _,
          read-write_text c.run_id _,
          read-write_text c.engine _,
          read-write_text c.subject _,
          read-write_count (in_seconds start / second) _,
          read-write_count (in_seconds finish / second) _,
          eq_refl secret,
          whole start,
          whole finish,
          sym i,
          sym e,
        )
        refl)

token_text :
    (secret token : String) (c : RunTokenClaims) (from until : Option ℕ)
    → sign secret c from until ≡ some token
    → is_blank token ≡ false
token_text secret token c none until h = cc
token_text secret token c (some from) none h = cc
token_text secret token c (some from) (some until) h =
    let same : token_of secret c from until ≡ token = cc in
    subst (λ t. is_blank t ≡ false) same (is_blank-visible "t" _ (omega arith) (omega arith))

library-JwtLaws : JwtLaws library
library-JwtLaws = record {
  numeric_date-le = λ a b h. omega arith;
  token_text = λ secret token c h. token_text secret token c c.issued_at c.expires_at h;
  parse-fresh = λ secret token c now start finish h i e fresh.
      library-parsed secret token c now start finish h i e ∙ ground (arith, fresh);
  parse-expired = λ secret token c now start finish h i e late.
      library-parsed secret token c now start finish h i e ∙ ground (arith, late);
  uuid-text = λ id. is_blank-visible "u" (marks id) (omega arith) (omega arith);
}

-- Minted at 1.5 seconds for 60 seconds.
abbrev mint_input : MintRunTokenInput
mint_input = record {
  user_id = 3;
  run_id = 7;
  engine = "A";
  ttl = pos 60_000_000_000;
  now = some 1_500_000_000;
}

abbrev session_claims : RunTokenClaims
session_claims = record {
  run_id = "uxxxxxxx";
  engine = "A";
  subject = "uxxx";
  issued_at = some 1_000_000_000;
  expires_at = some 61_000_000_000;
}

abbrev session_token : String
session_token = token_of "secret" session_claims 1_000_000_000 61_000_000_000

-- All that minting and verifying compute with.
tokens : Unit {0}
unfolding mint_run_token verify_run_token check_claims validate_claims validate_engine
    validate_times validate_mint validate_verify normalize_now is_blank trim_space
tokens = tt

minted : mint_run_token library 0 "secret" mint_input ≡ ok session_token
unfolding tokens
minted = refl

mint-verify_example :
    (20_000_000_000 < 61_000_000_000
      → verify_run_token library 0 (request mint_input "secret" session_token (some 20_000_000_000))
        ≡ ok session_claims)
    × (61_000_000_000 ≤ 20_000_000_000
        → verify_run_token library 0
            (request mint_input "secret" session_token (some 20_000_000_000))
          ≡ err expired_token)
unfolding tokens
mint-verify_example =
    mint-verify library 0 0 "secret" session_token mint_input (some 20_000_000_000) library-JwtLaws
      minted

verified :
    verify_run_token library 0 (request mint_input "secret" session_token (some 20_000_000_000))
    ≡ ok session_claims
unfolding tokens
verified = refl

-- Expired before the 60 seconds are over, since the date is cut to a second.
early_test :
    verify_run_token library 0 (request mint_input "secret" session_token (some 61_200_000_000))
    ≡ err expired_token
unfolding tokens
early_test = refl

verify_run_token-ok_example :
    (library.parse_with_claims 20_000_000_000 "secret" session_token ≡ ok session_claims)
    × (validate_claims session_claims ≡ ok tt)
    × (session_claims.engine ≡ mint_input.engine)
    × (session_claims.run_id ≡ library.uuid_text 7)
unfolding tokens
verify_run_token-ok_example =
    verify_run_token-ok library 0 (request mint_input "secret" session_token (some 20_000_000_000))
      session_claims verified
