-- ===== src/Relay/Admin/Access.antt =====
-- codebase/relay/src/admin.rs: who may add to the allowlist over HTTP, and what is added.
use safechat.Prelude.{ℕ, ◌≡◌, sym, ap, ◌∙◌, false, Option, some, [], ◌∷◌, ◌++◌, ok, arith}
use safechat.Prelude.Bytes.{Bytes, bytes_eq, bytes_eq_iff}
use safechat.Relay.{AllowStatus, max_identity_b64_bytes}
use safechat.Relay.Sql.{exists}
use safechat.Relay.Host.{Host, Headers}
use safechat.Relay.Service.{World}
use safechat.Relay.Service.Returns.{
  Returns, returns, bind-ok, checked-ok, or_raise-ok, raise_if-ok, now-ok, query-ok, pure-ok,
  internally-ok, last_execute-db,
}
use safechat.Relay.Validation.{decode_bounded_base64, validate_text}
use safechat.Relay.Auth.{hash, bearer}
use safechat.Relay.Admin.{AdminAllowlistRequest, add_allowlist, allowlist}

-- The request carried the administrator's token; the client was not on the list, and its row, with
-- a valid key, the hash of its secret and an unused enrollment, is the only change to the tables.
pub record Added {Key : Type 0} (host : Host Key) (admin_token : Option Bytes) (headers : Headers)
    (request : AdminAllowlistRequest) (w w' : World) : Type 0 where
  pub token : Bytes
  pub token_set : admin_token ≡ some token
  pub token_given : bearer host headers ≡ some token
  pub was_new : exists (λ a. bytes_eq a.client_id request.client_id) w.db.allowlist ≡ false
  pub identity : Bytes
  pub identity_is : host.b64decode request.identity_key ≡ some identity
  pub key : Key
  pub key_is : host.decode_key identity ≡ some key
  pub time : ℕ
  pub tables : w'.db ≡ record w.db {
    allowlist =
        w.db.allowlist
        ++ (record {
          client_id = request.client_id;
          identity_key = identity;
          fingerprint = request.fingerprint;
          enrollment_secret_hash = hash host request.enrollment_secret;
          enrollment_used = 0;
          device_address = [];
          status = AllowStatus.active;
          label = request.label;
          created_at = time;
        }
            ∷ []);
  }

module _ {Key : Type 0} (host : Host Key) where
  decoded_is :
      (text bytes : Bytes)
      → decode_bounded_base64 host text max_identity_b64_bytes 128 ≡ ok bytes
      → host.b64decode text ≡ some bytes
  unfolding decode_bounded_base64 validate_text
  decoded_is text bytes e = ground arith

  -- A request to add to the allowlist that succeeds carried the token that the service was started
  -- with. Its client was not on the list before, its key is valid, and all that the request changes
  -- in the tables is a new row: active, unused, and with the hash of the secret.
  pub allowlist-Added :
      (admin_token : Option Bytes) (headers : Headers) (r : AdminAllowlistRequest) (w : World)
      (x : Bytes) (w' : World)
      → Returns (allowlist host admin_token headers r) w x w'
      → Added host admin_token headers r w w'
  unfolding allowlist add_allowlist
  allowlist-Added admin_token headers r w x w' e = checked-ok _ e λ _ _ e. checked-ok _ e λ _ _ e.
      checked-ok _ e λ _ _ e. checked-ok _ e λ _ _ e. checked-ok _ e λ _ _ e.
        checked-ok _ e λ _ _ e. checked-ok _ e λ _ _ e. or_raise-ok _ _ e λ expected expected_is e.
          or_raise-ok _ _ e λ provided provided_is e. raise_if-ok _ _ e λ same e.
            bind-ok _ _ e λ u added e.
              let (_, end) = pure-ok _ x _ w' e in
              let add =
                add_allowlist host r.client_id r.identity_key r.fingerprint r.enrollment_secret
                  r.label in
              let i = returns add w u added in
              internally-ok _ i λ _ _ i. internally-ok _ i λ _ _ i. internally-ok _ i λ _ _ i.
                internally-ok _ i λ _ _ i. internally-ok _ i λ identity decoded i.
                  or_raise-ok _ _ i λ key key_is i. now-ok _ i λ i. query-ok _ _ i λ i.
                    raise_if-ok _ _ i λ new i. record {
                      token = expected;
                      token_set = expected_is;
                      token_given =
                          ground (arith, provided_is, same, bytes_eq_iff provided expected);
                      was_new = new;
                      identity = identity;
                      identity_is = decoded_is r.identity_key identity decoded;
                      key = key;
                      key_is = key_is;
                      time = w.clock w.readings;
                      tables = sym (last_execute-db _ _ u (add w).1 i ∙ ap (λ z. z.db) end);
                    }
