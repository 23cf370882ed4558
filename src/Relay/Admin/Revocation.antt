-- ===== src/Relay/Admin/Revocation.antt =====
-- codebase/relay/src/main.rs, `Command::AllowlistRevoke`: what a revocation takes away.
use safechat.Prelude.{
  ◌≡◌, ◌≢◌, refl, Bool, true, false, Option, none, some, List, [], ◌∷◌, ok, err, arith, ◌⊎◌, inl,
  inr, ◌==◌,
}
use safechat.Prelude.Bytes.{Bytes, bytes_eq, codes}
use safechat.Relay.{AllowRow, AllowStatus, DeviceRow, not_found}
use safechat.Relay.Sql.{update, exists, delete, count, query_row}
use safechat.Relay.Host.{Host, Headers}
use safechat.Relay.Service.{World, execute, raise_if, ◌>>=◌, ◌>>◌}
use safechat.Relay.Service.Returns.{returns, bind-ok}
use safechat.Relay.Auth.{is_allowed, authenticate_request}
use safechat.Relay.Auth.Genuine.{authenticate-Genuine, verify_signature-Signed}
use safechat.Relay.Validation.{MessageResponse}
use safechat.Relay.Events.{WsPollRequest, poll, verify_websocket_request}
use safechat.Relay.Admin.{revoke}

abbrev revoked_rows : Bytes → List AllowRow → List AllowRow
revoked_rows client rows =
    update (λ a. bytes_eq a.client_id client) (λ a. record a { status = AllowStatus.revoked }) rows

is_allowed-revoked :
    (client : Bytes) (rows : List AllowRow) → is_allowed (revoked_rows client rows) client ≡ false
unfolding is_allowed update exists
is_allowed-revoked client [] = refl
is_allowed-revoked client (a ∷ rows) = ground (arith, is_allowed-revoked client rows)

revoke_allowlist :
    (client : Bytes) (w : World)
    → (revoke client w).1.db.allowlist ≡ revoked_rows client w.db.allowlist
unfolding revoke ◌>>=◌
revoke_allowlist client w = ground arith

query_row-delete : {A : Type 0} (p : A → Bool) (rows : List A) → query_row p (delete p rows) ≡ none
unfolding query_row delete
query_row-delete p [] = refl
query_row-delete p (a ∷ rows) = ground (arith, query_row-delete p rows)

-- The command found no such client, or its device is deleted.
revoke_devices :
    (client : Bytes) (w : World)
    → ((revoke client w).0 ≡ err not_found)
      ⊎ (query_row (λ d. bytes_eq d.client_id client) (revoke client w).1.db.devices ≡ none)
unfolding revoke ◌>>=◌
revoke_devices client w = by_count (count (λ a. bytes_eq a.client_id client) w.db.allowlist == 0) w
  where
    by_count :
        (unknown : Bool) (w : World)
        → let r =
            (raise_if unknown not_found
                >> execute (λ db. record db {
                  devices = delete (λ d. bytes_eq d.client_id client) db.devices;
                }))
              (record w { db = record w.db { allowlist = revoked_rows client w.db.allowlist } }) in
          (r.0 ≡ err not_found)
          ⊎ (query_row (λ d. bytes_eq d.client_id client) r.1.db.devices ≡ none)
    by_count true w = inl refl
    by_count false w = inr (query_row-delete (λ d. bytes_eq d.client_id client) w.db.devices)

-- A poll that is answered has the row of its device.
poll-row :
    {Key : Type 0} (host : Host Key) (client : Bytes) (request : WsPollRequest) (w : World)
    (rows : List MessageResponse)
    → (poll host client request w).0 ≡ ok rows
    → (row : DeviceRow) × (query_row (λ d. bytes_eq d.client_id client) w.db.devices ≡ some row)
unfolding poll verify_websocket_request
poll-row host client request w rows e =
    let check = verify_websocket_request host client request in
    bind-ok _ check (returns (poll host client request) w rows e) λ unit sent _.
      let s =
        verify_signature-Signed host client (codes "WS") (codes "/v1/events")
          (host.poll_body request.cursor request.nonce request.timestamp) request.nonce
          request.timestamp request.signature w _ unit (returns check w unit sent) in
      (s.row, s.row_is)

absent : {A : Type 0} {o : Option A} {a : A} → o ≡ none → o ≡ some a → ⊥
absent h k = cc

-- After a client has been revoked no HTTP request is accepted as coming from it, with any token and
-- signature, whether the command reported success or an unknown client; and when it did not report
-- an unknown client, no poll on an event socket that the client had opened is answered.
pub revoke_locks_out :
    {Key : Type 0} (host : Host Key) (client : Bytes) (headers : Headers) (method path body : Bytes)
    (expected : Option Bytes) (request : WsPollRequest) (rows : List MessageResponse) (w : World)
    → ((authenticate_request host headers method path body expected (revoke client w).1).0
        ≢ ok client)
      × (((revoke client w).0 ≡ err not_found)
          ⊎ ((poll host client request (revoke client w).1).0 ≢ ok rows))
revoke_locks_out host client headers method path body expected request rows w =
    let v = (revoke client w).1 in
    (
      λ accepted.
          let (genuine, _) =
            authenticate-Genuine host headers method path body expected v client _ (
              returns (authenticate_request host headers method path body expected) v client
                accepted) in
          ground (
            arith,
            genuine.active,
            revoke_allowlist client w,
            is_allowed-revoked client w.db.allowlist,
          ),
      elim (revoke_devices client w) [
        | inl unknown ↦ inl unknown
        | inr gone ↦ inr (λ answered. absent gone (poll-row host client request v rows answered).1)
      ],
    )
