-- ===== src/Relay/Auth/Genuine.antt =====
-- codebase/relay/src/auth.rs: what an accepted request has shown.
use safechat.Prelude.{ℕ, suc, ◌≡◌, true, false, not, Option, some, ok, ltb, arith, subst}
use safechat.Prelude.Bytes.{Bytes, bytes_eq, bytes_eq_iff, codes}
use safechat.Prelude.Text.{parse_u64}
use safechat.Relay.{Db, DeviceRow}
use safechat.Relay.Sql.{query_row, query_row-some, exists, delete}
use safechat.Relay.Host.{Host, Headers}
use safechat.Relay.Service.{World, ◌>>=◌}
use safechat.Relay.Service.Returns.{
  Returns, returns, bind-ok, or_raise-ok, query-ok, raise_if-ok, last_raise_if-ok, pure-ok, now-ok,
}
use safechat.Relay.Auth.{
  abs_diff, is_empty, is_allowed, is_expired, is_nonce, record_nonce, find_device, is_other, hash,
  bearer, header, signed_request, verify_signature, authenticate_request,
}

-- The device holds a key under which the signature is over this very request, the timestamp is
-- within five minutes of the clock, and the nonce was not among those that have not expired.
pub record Signed {Key : Type 0} (host : Host Key) (device method path body nonce : Bytes)
    (timestamp : ℕ) (signature : Bytes) (w : World) : Type 0 where
  pub row : DeviceRow
  pub row_is : query_row (λ d. bytes_eq d.client_id device) w.db.devices ≡ some row
  pub key : Key
  pub key_is : host.decode_key row.identity_key ≡ some key
  pub proof : Bytes
  pub proof_is : host.b64decode signature ≡ some proof
  pub verified : host.verify key (signed_request host method path body nonce timestamp) proof ≡ true
  pub recent : ltb 300 (abs_diff timestamp (w.clock w.readings)) ≡ false
  pub nonce_given : is_empty nonce ≡ false
  pub unused :
      exists
        (is_nonce device nonce)
        (delete (is_expired (w.clock (suc w.readings))) w.db.request_nonces)
      ≡ false

-- The request carries the token of a device whose client is active on the allowlist, and is signed.
pub record Genuine {Key : Type 0} (host : Host Key) (headers : Headers) (method path body : Bytes)
    (w : World) (device : Bytes) : Type 0 where
  pub token : Bytes
  pub token_is : bearer host headers ≡ some token
  pub owner : DeviceRow
  pub owner_is : find_device w.db (hash host token) ≡ some owner
  pub owner_id : owner.client_id ≡ device
  pub hash_is : owner.token_hash ≡ hash host token
  pub active : is_allowed w.db.allowlist device ≡ true
  pub nonce : Bytes
  pub nonce_is : header host headers (codes "x-safechat-nonce") ≡ some nonce
  pub time_text : Bytes
  pub time_is : header host headers (codes "x-safechat-timestamp") ≡ some time_text
  pub timestamp : ℕ
  pub timestamp_is : parse_u64 time_text ≡ some timestamp
  pub signature : Bytes
  pub signature_is : header host headers (codes "x-safechat-signature") ≡ some signature
  pub signed : Signed host device method path body nonce timestamp signature w

find_device-some :
    (db : Db) (h : Bytes) (owner : DeviceRow)
    → find_device db h ≡ some owner
    → (owner.token_hash ≡ h) × (is_allowed db.allowlist owner.client_id ≡ true)
unfolding find_device
find_device-some db h owner e =
    ground (arith, query_row-some _ db.devices owner e, bytes_eq_iff owner.token_hash h)

module _ {Key : Type 0} (host : Host Key) where
  record_nonce-unused :
      (d n : Bytes) (w : World)
      → (record_nonce d n w).0 ≡ ok true
      → exists (is_nonce d n) (delete (is_expired (w.clock w.readings)) w.db.request_nonces) ≡ false
  unfolding record_nonce ◌>>=◌
  record_nonce-unused d n w e = ground arith

  pub verify_signature-Signed :
      (d m p b n : Bytes) (t : ℕ) (s : Bytes) (w w' : World) (x : Unit)
      → Returns (verify_signature host d m p b n t s) w x w'
      → Signed host d m p b n t s w
  unfolding verify_signature
  verify_signature-Signed d m p b n t s w w' x e = now-ok _ e λ e. raise_if-ok _ _ e λ fine e.
      query-ok _ _ e λ e. or_raise-ok _ _ e λ row row_is e. or_raise-ok _ _ e λ key key_is e.
        or_raise-ok _ _ e λ proof proof_is e. raise_if-ok _ _ e λ valid e.
          bind-ok _ _ e λ inserted record_is e.
            let new = last_raise_if-ok (not inserted) _ _ x w' e in
            record {
              row = row;
              row_is = row_is;
              key = key;
              key_is = key_is;
              proof = proof;
              proof_is = proof_is;
              verified = ground (arith, valid);
              recent = ground (arith, fine);
              nonce_given = ground (arith, fine);
              unused =
                  record_nonce-unused d n (record w { readings = suc w.readings })
                    (ground (arith, new, record_is));
            }

  -- A request is accepted only for the device that the bearer token belongs to, only while its
  -- client is active on the allowlist, and only with a signature under that device's key over this
  -- very method, path, body, nonce and timestamp; the timestamp is within five minutes of the
  -- clock, the nonce is not empty and not among those still recorded, and the device is the
  -- expected one, where one is expected.
  pub authenticate-Genuine :
      (headers : Headers) (m p b : Bytes) (expected : Option Bytes) (w : World) (d : Bytes)
      (w' : World)
      → Returns (authenticate_request host headers m p b expected) w d w'
      → Genuine host headers m p b w d × (is_other expected d ≡ false)
  unfolding authenticate_request
  authenticate-Genuine headers m p b expected w d w' e = or_raise-ok _ _ e λ token token_is e.
      raise_if-ok _ _ e λ fits e. query-ok _ _ e λ e. or_raise-ok _ _ e λ owner owner_is e.
        raise_if-ok _ _ e λ expects e. or_raise-ok _ _ e λ nonce nonce_is e.
          or_raise-ok _ _ e λ text text_is e. or_raise-ok _ _ e λ timestamp timestamp_is e.
            or_raise-ok _ _ e λ signature signature_is e. bind-ok _ _ e λ unit sent e.
              let (same, _) = pure-ok _ d _ w' e in
              let signed =
                verify_signature-Signed owner.client_id m p b nonce timestamp signature w _ unit (
                  returns (verify_signature host owner.client_id m p b nonce timestamp signature) w
                    unit sent) in
              let matches = find_device-some w.db (hash host token) owner owner_is in
              (
                record {
                  token = token;
                  token_is = token_is;
                  owner = owner;
                  owner_is = owner_is;
                  owner_id = same;
                  hash_is = matches.0;
                  active = cc (matches.1, same);
                  nonce = nonce;
                  nonce_is = nonce_is;
                  time_text = text;
                  time_is = text_is;
                  timestamp = timestamp;
                  timestamp_is = timestamp_is;
                  signature = signature;
                  signature_is = signature_is;
                  signed = subst (λ x. Signed host x m p b nonce timestamp signature w) same signed;
                },
                cc (expects, same),
              )
