-- ===== src/Relay/Bundles.antt =====
-- codebase/relay/src/bundles.rs: publication and lookup of device bundles.
use safechat.Prelude.{◌*◌, none, some, [], ◌++◌}
use safechat.Prelude.Bytes.{Bytes, bytes_eq, codes}
use safechat.Relay.{DeviceRow, bad_request, not_found, not_json, max_id_bytes, max_bundle_bytes}
use safechat.Relay.Sql.{query_row, update}
use safechat.Relay.Host.{Host, Headers}
use safechat.Relay.Service.{Action, ◌>>=◌, ◌>>◌, pure, or_raise, query, execute, now, checked}
use safechat.Relay.Validation.{
  validate_json_accept, validate_text, require_json_content, decode_bounded_base64,
}
use safechat.Relay.Auth.{authenticate_request}
use safechat.Relay.Messages.{is_addressed}

pub record BundleResponse : Type 0 where
  pub device_id : Bytes
  pub bundle : Bytes

-- `format!("/v1/devices/{device}/bundle")`
abbrev bundle_path : Bytes → Bytes
bundle_path device = codes "/v1/devices/" ++ (device ++ codes "/bundle")

module _ {Key : Type 0} (host : Host Key) where
  unfoldable pub publish : Headers → Bytes → Bytes → Action BundleResponse
  publish headers device body = do
    checked (require_json_content host headers)
    checked (validate_json_accept host headers)
    checked (validate_text device max_id_bytes)
    auth ← authenticate_request host headers (codes "PUT") (bundle_path device) body (some device)
    text ← or_raise (host.parse_bundle body) (bad_request not_json)
    bundle ← checked (decode_bounded_base64 host text (max_bundle_bytes * 2) max_bundle_bytes)
    time ← now
    execute (λ db. record db {
      devices =
          update (λ d. bytes_eq d.client_id auth)
            (λ d. record d { bundle = bundle; last_seen_at = time }) db.devices;
    })
    pure (record { device_id = device; bundle = text })

  unfoldable pub bundle_response : DeviceRow → BundleResponse
  bundle_response d = record { device_id = d.client_id; bundle = host.b64 d.bundle }

  unfoldable pub fetch : Headers → Bytes → Action BundleResponse
  fetch headers device = do
    checked (validate_json_accept host headers)
    checked (validate_text device max_id_bytes)
    _ ← authenticate_request host headers (codes "GET") (bundle_path device) [] none
    row ← query (λ db. query_row (is_addressed device) db.devices)
    row ← or_raise row not_found
    pure (bundle_response row)

  unfoldable pub fetch_by_address : Headers → Bytes → Action BundleResponse
  fetch_by_address headers address = do
    checked (validate_json_accept host headers)
    checked (validate_text address max_id_bytes)
    _ ←
        authenticate_request host headers (codes "GET")
          (codes "/v1/devices/by-address/" ++ (address ++ codes "/bundle")) [] none
    row ← query (λ db. query_row (λ d. bytes_eq d.device_address address) db.devices)
    row ← or_raise row not_found
    pure (bundle_response row)
