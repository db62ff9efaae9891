-- ===== src/Starts/Idempotency.antt =====
-- The table `idempotency_keys` and the statements on it (internal/engine/a/service/run_service.go and
-- migrations/0001_init_users_sessions.up.sql). `fails` says that the driver reports an error.
use mathlib.Core.Bool.{not}
use sys_escape.Prelude.{
  ℕ, ◌+◌, ◌*◌, Bool, true, false, List, [], ◌∷◌, Option, none, some, String, if◌then◌else◌, Result,
  ok, err, is_some,
}
use sys_escape.Prelude.Text.{str_eq}
use sys_escape.Prelude.Assoc.{lookup, insert}

pub data StartError : Type 0 where
  idempotency_conflict request_in_progress invalid_input database_error mint_error : StartError

-- An empty `response_body` is `none`. The body that is stored stands for what its JSON is unmarshalled
-- to: a body that some other program wrote, and that does not unmarshal, is outside the model.
pub record KeyRow (B : Type 0) : Type 0 where
  pub user_id : ℕ
  pub response_fingerprint : String
  pub response_body : Option B
  pub expires_at : ℕ

module _ {B : Type 0} where
  -- The row of the key, after the query.
  unfoldable pub check_row : String → Option (KeyRow B) → Result StartError (Option B)
  check_row fingerprint none = ok none
  check_row fingerprint (some row) =
      if not (str_eq row.response_fingerprint fingerprint)
      then err idempotency_conflict
      else elim row.response_body [ none ↦ err request_in_progress | some body ↦ ok (some body) ]

  unfoldable pub lookup_idempotency :
      Bool → List (String × KeyRow B) → String → String → Result StartError (Option B)
  unfolding check_row lookup
  lookup_idempotency fails keys key fingerprint =
      if fails then err database_error else check_row fingerprint (lookup key keys)

  -- Whether the key was free, and the table. A conflict does nothing.
  unfoldable pub reserve_idempotency :
      ℕ → List (String × KeyRow B) → String → ℕ → String → Bool × List (String × KeyRow B)
  unfolding lookup insert
  reserve_idempotency now keys key user_id fingerprint =
      if is_some (lookup key keys) then (false, keys) else (
        true,
        insert key
            (record {
              user_id = user_id;
              response_fingerprint = fingerprint;
              response_body = none;
              expires_at = now + 24 * 3600 * 1000000000;
            })
            keys,
      )

  -- `UPDATE … SET response_body`.
  unfoldable pub store_response : List (String × KeyRow B) → String → B → List (String × KeyRow B)
  unfolding lookup insert
  store_response keys key body = elim (lookup key keys) [
    | none ↦ keys
    | some row ↦ insert key (record row { response_body = some body }) keys
  ]

  -- `DELETE … WHERE key = $1 AND response_body IS NULL`.
  unfoldable pub release : List (String × KeyRow B) → String → List (String × KeyRow B)
  release [] key = []
  release (entry ∷ rest) key =
      let others = release rest key in
      if str_eq entry.0 key
      then (if is_some entry.1.response_body then entry ∷ others else others)
      else entry ∷ others
