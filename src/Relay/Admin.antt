-- ===== src/Relay/Admin.antt =====
-- codebase/relay/src/admin.rs and database.rs, and the commands of main.rs that change the
-- allowlist: who may enroll.
pub mod Revocation
pub mod Access
use safechat.Prelude.{
  ℕ, Bool, true, false, ◌&&◌, not, Option, none, some, List, [], ◌∷◌, ◌++◌, leb, ltb, zero, suc,
  ◌==◌, if◌then◌else◌, err, ok, Result,
}
use safechat.Prelude
use safechat.Prelude.Bytes.{Bytes, bytes_eq}
use safechat.Relay.{
  Db, AllowRow, AllowStatus, EnrollmentRow, Invalid, ApiError, bad_request, unauthorized, not_found,
  internal, max_id_bytes, max_fingerprint_bytes, max_label_bytes, max_secret_bytes,
  max_identity_b64_bytes,
}
use safechat.Relay.Sql.{query_row, select, delete, update, count, exists, insert_or_replace}
use safechat.Relay.Host.{Host, Headers}
use safechat.Relay.Service.{
  World, Action, ◌>>=◌, ◌>>◌, pure, raise_if, or_raise, query, execute, now, checked, internally,
}
use safechat.Relay.Validation.{
  validate_json_accept, validate_text, require_json_content, decode_bounded_base64,
}
use safechat.Relay.Auth.{hash, bearer}

pub record AdminAllowlistRequest : Type 0 where
  pub client_id : Bytes
  pub identity_key : Bytes
  pub fingerprint : Bytes
  pub enrollment_secret : Bytes
  pub label : Bytes

-- enrollment_requests WHERE client_id = ?1 AND expires_at >= ?2
abbrev pub is_current : Bytes → ℕ → EnrollmentRow → Bool
is_current client time r = bytes_eq r.client_id client && leb time r.expires_at

module _ {Key : Type 0} (host : Host Key) where
  -- A failure of `add_allowlist` is an internal error to its caller. The INSERT fails if the
  -- client is on the list already.
  unfoldable pub add_allowlist : Bytes → Bytes → Bytes → Bytes → Bytes → Action (Unit {0})
  add_allowlist client_id identity_key fingerprint enrollment_secret label = do
    internally (validate_text client_id max_id_bytes)
    internally (validate_text fingerprint max_fingerprint_bytes)
    internally (validate_text enrollment_secret max_secret_bytes)
    internally (validate_text label max_label_bytes)
    identity ← internally (decode_bounded_base64 host identity_key max_identity_b64_bytes 128)
    _ ← or_raise (host.decode_key identity) internal
    time ← now
    taken ← query (λ db. exists (λ a. bytes_eq a.client_id client_id) db.allowlist)
    raise_if taken internal
    execute λ db. record db {
      allowlist =
          db.allowlist
          ++ (record {
            client_id = client_id;
            identity_key = identity;
            fingerprint = fingerprint;
            enrollment_secret_hash = hash host enrollment_secret;
            enrollment_used = 0;
            device_address = [];
            status = AllowStatus.active;
            label = label;
            created_at = time;
          }
              ∷ []);
    }

  -- `admin_token` is the token that the service was started with.
  unfoldable pub allowlist : Option Bytes → Headers → AdminAllowlistRequest → Action Bytes
  allowlist admin_token headers request = do
    checked (require_json_content host headers)
    checked (validate_json_accept host headers)
    checked (validate_text request.client_id max_id_bytes)
    checked (validate_text request.fingerprint max_fingerprint_bytes)
    checked (validate_text request.enrollment_secret max_secret_bytes)
    checked (validate_text request.label max_label_bytes)
    _ ← checked (decode_bounded_base64 host request.identity_key max_identity_b64_bytes 128)
    expected ← or_raise admin_token not_found
    provided ← or_raise (bearer host headers) unauthorized
    raise_if (not (bytes_eq provided expected)) unauthorized
    add_allowlist request.client_id request.identity_key request.fingerprint
        request.enrollment_secret request.label
    pure request.client_id

-- `approve_enrollment`
unfoldable pub approve_enrollment : Bytes → Action (Unit {0})
approve_enrollment client_id = do
  time ← now
  request ← query (λ db. query_row (is_current client_id time) db.enrollment_requests)
  request ← or_raise request not_found
  created_at ← now
  execute (λ db. record db {
    allowlist =
        insert_or_replace (λ a. bytes_eq a.client_id request.client_id)
          (record {
            client_id = request.client_id;
            identity_key = request.identity_key;
            fingerprint = request.fingerprint;
            enrollment_secret_hash = request.enrollment_secret_hash;
            enrollment_used = 0;
            device_address = request.device_address;
            status = AllowStatus.active;
            label = request.device_address;
            created_at = created_at;
          })
          db.allowlist;
  })
  execute (λ db. record db {
    enrollment_requests = delete (λ r. bytes_eq r.client_id client_id) db.enrollment_requests;
  })

-- `Command::EnrollmentReject`
unfoldable pub reject_enrollment : Bytes → Action (Unit {0})
reject_enrollment client_id = do
  changed ← query (λ db. count (λ r. bytes_eq r.client_id client_id) db.enrollment_requests)
  execute (λ db. record db {
    enrollment_requests = delete (λ r. bytes_eq r.client_id client_id) db.enrollment_requests;
  })
  raise_if (changed == 0) not_found

-- `Command::AllowlistRevoke`
unfoldable pub revoke : Bytes → Action (Unit {0})
revoke client_id = do
  changed ← query (λ db. count (λ a. bytes_eq a.client_id client_id) db.allowlist)
  execute (λ db. record db {
    allowlist =
        update (λ a. bytes_eq a.client_id client_id)
          (λ a. record a { status = AllowStatus.revoked }) db.allowlist;
  })
  raise_if (changed == 0) not_found
  execute (λ db. record db { devices = delete (λ d. bytes_eq d.client_id client_id) db.devices })

-- The rows that `Command::EnrollmentPending` prints and `choose_pending_enrollment` offers: ORDER BY
-- created_at.
unfoldable pub insert_by_age : EnrollmentRow → List EnrollmentRow → List EnrollmentRow
insert_by_age row [] = row ∷ []
insert_by_age row (x ∷ xs) =
    if ltb x.created_at row.created_at then x ∷ insert_by_age row xs else row ∷ x ∷ xs

unfoldable pub order_by_age : List EnrollmentRow → List EnrollmentRow
order_by_age [] = []
order_by_age (x ∷ xs) = insert_by_age x (order_by_age xs)

unfoldable pub pending_enrollments : Action (List EnrollmentRow)
pending_enrollments = do
  time ← now
  query (λ db. order_by_age (select (λ r. leb time r.expires_at) db.enrollment_requests))

-- `choose_pending_enrollment`, for the number that was typed: `none` where the program panics.
abbrev nth_request : ℕ → List EnrollmentRow → Option Bytes
nth_request n [] = none
nth_request zero (r ∷ rs) = some r.client_id
nth_request (suc n) (r ∷ rs) = nth_request n rs

unfoldable pub choose_pending_enrollment : ℕ → List EnrollmentRow → Option Bytes
choose_pending_enrollment zero rows = none
choose_pending_enrollment (suc index) rows = nth_request index rows
