-- ===== src/Relay/Contacts.antt =====
-- codebase/relay/src/contacts.rs: contact requests between devices.
pub mod Decision
use safechat.Prelude.{
  ℕ, ◌+◌, ◌*◌, Bool, true, false, ◌&&◌, not, Option, none, some, List, [], ◌∷◌, ◌++◌, map, leb, ltb,
  if◌then◌else◌,
}
use safechat.Prelude.Bytes.{Bytes, bytes_eq, codes}
use safechat.Relay.{
  Db, ContactRow, ContactStatus, bad_request, not_found, not_json, contact_direction, max_id_bytes,
  max_bundle_bytes, max_label_bytes, max_fingerprint_bytes,
}
use safechat.Relay.Sql.{query_row, update, select, insert_or_ignore}
use safechat.Relay.Host.{Host, Headers}
use safechat.Relay.Service.{
  Action, ◌>>=◌, ◌>>◌, pure, or_raise, raise_if, query, execute, now, checked,
}
use safechat.Relay.Validation.{
  validate_json_accept, validate_text, require_json_content, validate_optional_json_content,
  decode_bounded_base64,
}
use safechat.Relay.Auth.{authenticate_request}

pub record ContactRequestResponse : Type 0 where
  pub request_id : Bytes
  pub sender_id : Bytes
  pub recipient : Bytes
  pub sender_name : Bytes
  pub sender_fingerprint : Bytes
  pub bundle : Bytes
  pub status : ContactStatus
  pub created_at : ℕ

abbrev pub is_pending : ContactStatus → Bool
is_pending ContactStatus.pending = true
is_pending ContactStatus.accepted = false
is_pending ContactStatus.rejected = false

-- `request_id = ?1 AND recipient = ?2`
abbrev pub is_request_to : Bytes → Bytes → ContactRow → Bool
is_request_to request_id recipient row =
    bytes_eq row.request_id request_id && bytes_eq row.recipient recipient

-- The two queries of `list`.
abbrev is_outgoing : Bytes → ℕ → ContactRow → Bool
is_outgoing caller time row = bytes_eq row.sender caller && leb time row.expires_at

abbrev is_incoming : Bytes → ℕ → ContactRow → Bool
is_incoming caller time row =
    bytes_eq row.recipient caller && (is_pending row.status && leb time row.expires_at)

-- ORDER BY created_at, rows with one time in the order of their row ids.
unfoldable pub insert_by_time :
    ContactRequestResponse → List ContactRequestResponse → List ContactRequestResponse
insert_by_time row [] = row ∷ []
insert_by_time row (x ∷ xs) =
    if ltb x.created_at row.created_at then x ∷ insert_by_time row xs else row ∷ x ∷ xs

unfoldable pub order_by_time : List ContactRequestResponse → List ContactRequestResponse
order_by_time [] = []
order_by_time (x ∷ xs) = insert_by_time x (order_by_time xs)

-- The `direction` of a query is absent, "outgoing" or wrong.
abbrev is_wrong_direction : Option Bytes → Bool
is_wrong_direction none = false
is_wrong_direction (some direction) = not (bytes_eq direction (codes "outgoing"))

abbrev wants_outgoing : Option Bytes → Bool
wants_outgoing none = false
wants_outgoing (some direction) = bytes_eq direction (codes "outgoing")

module _ {Key : Type 0} (host : Host Key) where
  unfoldable pub contact_response : ContactRow → ContactRequestResponse
  contact_response row = record {
    request_id = row.request_id;
    sender_id = row.sender;
    recipient = row.recipient;
    sender_name = row.sender_name;
    sender_fingerprint = row.sender_fingerprint;
    bundle = host.b64 row.bundle;
    status = row.status;
    created_at = row.created_at;
  }

  unfoldable pub create : Headers → Bytes → Action ContactRequestResponse
  create headers body = do
    checked (require_json_content host headers)
    checked (validate_json_accept host headers)
    sender ←
        authenticate_request host headers (codes "POST") (codes "/v1/contacts/requests") body none
    request ← or_raise (host.parse_contact body) (bad_request not_json)
    checked (validate_text request.request_id max_id_bytes)
    checked (validate_text request.recipient max_id_bytes)
    checked (validate_text request.sender_name max_label_bytes)
    checked (validate_text request.sender_fingerprint max_fingerprint_bytes)
    bundle ←
        checked (decode_bounded_base64 host request.bundle (max_bundle_bytes * 2) max_bundle_bytes)
    found ← query (λ db. query_row (λ d. bytes_eq d.client_id request.recipient) db.devices)
    _ ← or_raise found not_found
    created_at ← now
    time ← now
    execute (λ db. record db {
      contact_requests =
          insert_or_ignore (λ r. bytes_eq r.request_id request.request_id)
            (record {
              request_id = request.request_id;
              sender = sender;
              recipient = request.recipient;
              sender_name = request.sender_name;
              sender_fingerprint = request.sender_fingerprint;
              bundle = bundle;
              status = ContactStatus.pending;
              created_at = created_at;
              expires_at = time + 86400;
            })
            db.contact_requests;
    })
    answered_at ← now
    pure (record {
      request_id = request.request_id;
      sender_id = sender;
      recipient = request.recipient;
      sender_name = request.sender_name;
      sender_fingerprint = request.sender_fingerprint;
      bundle = request.bundle;
      status = ContactStatus.pending;
      created_at = answered_at;
    })

  -- JOIN devices d ON d.client_id = c.recipient JOIN allowlist a ON a.client_id = c.recipient:
  -- both are primary keys, so a request gives one row or none.
  unfoldable pub outgoing_row : Db → ContactRow → List ContactRequestResponse
  outgoing_row db row = elim (query_row (λ d. bytes_eq d.client_id row.recipient) db.devices) [
    | none ↦ []
    | some d ↦ elim (query_row (λ a. bytes_eq a.client_id row.recipient) db.allowlist) [
      | none ↦ []
      | some a ↦
          (record {
            request_id = row.request_id;
            sender_id = row.recipient;
            recipient = row.recipient;
            sender_name = d.device_address;
            sender_fingerprint = a.fingerprint;
            bundle = host.b64 d.bundle;
            status = row.status;
            created_at = row.created_at;
          })
          ∷ []
    ]
  ]

  unfoldable pub outgoing_rows : Db → List ContactRow → List ContactRequestResponse
  outgoing_rows db [] = []
  outgoing_rows db (row ∷ rows) = outgoing_row db row ++ outgoing_rows db rows

  unfoldable pub contacts_of : Db → Bool → Bytes → ℕ → List ContactRequestResponse
  contacts_of db outgoing caller time =
      if outgoing
      then order_by_time (outgoing_rows db (select (is_outgoing caller time) db.contact_requests))
      else order_by_time
          (map contact_response (select (is_incoming caller time) db.contact_requests))

  unfoldable pub list : Headers → Option Bytes → Action (List ContactRequestResponse)
  list headers direction = do
    checked (validate_json_accept host headers)
    raise_if (is_wrong_direction direction) (bad_request contact_direction)
    caller ← authenticate_request host headers (codes "GET") (codes "/v1/contacts/requests") [] none
    time ← now
    query (λ db. contacts_of db (wants_outgoing direction) caller time)

  unfoldable pub accept : Headers → Bytes → Action ContactRequestResponse
  accept headers request_id = do
    checked (validate_optional_json_content host headers)
    checked (validate_json_accept host headers)
    checked (validate_text request_id max_id_bytes)
    recipient ←
        authenticate_request host headers (codes "POST")
          (codes "/v1/contacts/requests/" ++ (request_id ++ codes "/accept")) (codes "null") none
    execute (λ db. record db {
      contact_requests =
          update (λ r. is_request_to request_id recipient r && is_pending r.status)
            (λ r. record r { status = ContactStatus.accepted }) db.contact_requests;
    })
    row ← query (λ db. query_row (is_request_to request_id recipient) db.contact_requests)
    row ← or_raise row not_found
    pure (contact_response row)

  unfoldable pub reject : Headers → Bytes → Action (Unit {0})
  reject headers request_id = do
    checked (validate_optional_json_content host headers)
    checked (validate_json_accept host headers)
    checked (validate_text request_id max_id_bytes)
    recipient ←
        authenticate_request host headers (codes "POST")
          (codes "/v1/contacts/requests/" ++ (request_id ++ codes "/reject")) (codes "null") none
    execute (λ db. record db {
      contact_requests =
          update (is_request_to request_id recipient)
            (λ r. record r { status = ContactStatus.rejected }) db.contact_requests;
    })
