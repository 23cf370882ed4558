-- ===== src/Relay/Messages/Resend.antt =====
-- codebase/relay/src/messages.rs: a message that is submitted more than once.
use safechat.Prelude.{
  ℕ, pos, suc, ◌≡◌, refl, ap, ◌∙◌, Result, err, Bool, true, Option, none, some, List, [], ◌∷◌, ◌++◌,
  ok, arith, as_i64, subst, sym,
}
use mathlib.Core.Option
use safechat.Prelude.Bytes.{Bytes, bytes_eq_refl, codes}
use safechat.Relay.{Db, DeviceRow, MessageRow}
use safechat.Relay.Sql.{query_row}
use safechat.Relay.Host.{Host, Headers}
use safechat.Relay.Service.{World, ◌>>=◌}
use safechat.Relay.Service.Returns.{
  Returns, returns, or_raise-ok, query-ok, now-ok, checked-ok, bind-ok, raise_if-ok,
  last_or_raise-ok,
}
use safechat.Relay.Validation.{MessageResponse, decode_message_request, encode_binary_messages}
use safechat.Protocol.{Submit}
use safechat.Relay.Auth.{authenticate_request}
use safechat.Relay.Auth.Untouched.{SameButNonces, authenticate_same}
use safechat.Relay.Messages.{
  is_message, is_addressed, to_response, insert_message, store_message, send,
}

-- The stored message that a submission with this key is answered from, with its id and content.
pub record StoredAs {Key : Type 0} (host : Host Key) (sender recipient message_id : Bytes)
    (x : MessageResponse) (db : Db) : Type 0 where
  pub device : DeviceRow
  pub device_is : query_row (is_addressed recipient) db.devices ≡ some device
  pub row : MessageRow
  pub row_is : query_row (is_message sender device.client_id message_id) db.messages ≡ some row
  pub same_id : x.server_id ≡ pos row.server_id
  pub same_content : x.ciphertext ≡ host.b64 row.ciphertext
  pub same_time : x.accepted_at ≡ row.accepted_at

abbrev value_or : {E A : Type 0} → A → Result E A → A
value_or a (ok b) = b
value_or a (err e) = a

ok-same : {E A : Type 0} (a b : A) → ◌≡◌ {A = Result E A} (ok a) (ok b) → a ≡ b
ok-same a b e = ap (λ r. value_or a r) e

query_row-last :
    {A : Type 0} (p : A → Bool) (xs : List A) (y : A)
    → query_row p xs ≡ none
    → p y ≡ true
    → query_row p (xs ++ (y ∷ [])) ≡ some y
unfolding query_row
query_row-last p [] y e is = ground arith
query_row-last p (x ∷ xs) y e is = ground (arith, query_row-last p xs y)

module _ {Key : Type 0} (host : Host Key) where
  insert_message-StoredAs :
      (s r m : Bytes) (e : Option ℕ) (t : Bytes) (d : DeviceRow) (known : Option MessageRow)
      (at : ℕ) (w : World) (x : MessageResponse) (w' : World)
      → query_row (is_addressed r) w.db.devices ≡ some d
      → query_row (is_message s d.client_id m) w.db.messages ≡ known
      → Returns (insert_message host known s d.client_id m e t at) w x w'
      → StoredAs host s r m x w'.db
  unfolding insert_message to_response ◌>>=◌
  insert_message-StoredAs s r m e t d (some row) at w x w' found same is = record {
    device = d;
    device_is = ground arith;
    row = row;
    row_is = ground arith;
    same_id = ground arith;
    same_content = ground arith;
    same_time = ground arith;
  }
  insert_message-StoredAs s r m e t d none at w x w' found same is =
      let row : MessageRow = record {
        server_id = suc w.db.last_server_id;
        sender = s;
        recipient = d.client_id;
        client_message_id = m;
        ciphertext = t;
        accepted_at = at;
        expires_at = Option.map as_i64 e;
        acknowledged_at = none;
      } in
      let matches : is_message s d.client_id m row ≡ true =
        ground (arith, bytes_eq_refl s, bytes_eq_refl d.client_id, bytes_eq_refl m) in
      record {
        device = d;
        device_is = ground arith;
        row = row;
        row_is =
            ground
              (arith, query_row-last (is_message s d.client_id m) w.db.messages row same matches);
        same_id = ground arith;
        same_content = ground arith;
        same_time = ground arith;
      }

  pub store_message-StoredAs :
      (s r m : Bytes) (e : Option ℕ) (t : Bytes) (w : World) (x : MessageResponse) (w' : World)
      → Returns (store_message host s r m e t) w x w'
      → StoredAs host s r m x w'.db
  unfolding store_message
  store_message-StoredAs s r m e t w x w' is = query-ok _ _ is λ i. or_raise-ok _ _ i λ d found i.
      now-ok _ i λ i. query-ok _ _ i λ i.
        insert_message-StoredAs s r m e t d _ (w.clock w.readings)
          (record w { readings = suc w.readings }) x w' found refl i

  -- What a submission does, once its key is stored.
  known_message :
      (s r m : Bytes) (e : Option ℕ) (t : Bytes) (x : MessageResponse) (w : World)
      → StoredAs host s r m x w.db
      → ((store_message host s r m e t w).1.db ≡ w.db)
        × ((y : MessageResponse) × ((store_message host s r m e t w).0 ≡ ok y)
            × (y.server_id ≡ x.server_id)
            × (y.ciphertext ≡ x.ciphertext)
            × (y.accepted_at ≡ x.accepted_at))
  unfolding store_message insert_message to_response ◌>>=◌
  known_message s r m e t x w stored =
      rw (stored.device_is, stored.row_is)
        (refl, (_, refl, sym stored.same_id, sym stored.same_content, sym stored.same_time))

  -- What a submission that is answered has gone through: the authentication, which changes nonces
  -- alone, the decoder, the lock and the encoder.
  pub record Sent (headers : Headers) (body : Bytes) (w : World) (frame : Bytes) (w' : World)
      : Type 0 where
    pub sender : Bytes
    pub sender_is :
        (authenticate_request host headers (codes "POST") (codes "/v1/messages") body none w).0
        ≡ ok sender
    pub request : Submit
    pub request_is : decode_message_request host headers body ≡ ok request
    pub inside : World
    pub only_nonces : SameButNonces w.db 0 inside.db
    pub answer : MessageResponse
    pub stored :
        Returns
          (store_message host sender request.recipient request.message_id request.expires_at
            request.ciphertext)
          inside
          answer
          w'
    pub frame_is : encode_binary_messages host (answer ∷ []) ≡ some frame

  send-Sent :
      (headers : Headers) (body : Bytes) (w : World) (frame : Bytes) (w' : World)
      → Returns (send host headers body) w frame w'
      → Sent headers body w frame w'
  unfolding send
  send-Sent headers body w frame w' e = checked-ok _ e λ _ _ e.
      bind-ok _ (authenticate_request host headers (codes "POST") (codes "/v1/messages") body none)
        e
        λ sender sender_is e. checked-ok _ e λ request request_is e. raise_if-ok _ _ e λ fits e.
          let store =
            store_message host sender request.recipient request.message_id request.expires_at
              request.ciphertext in
          bind-ok _ store e λ answer stored e. last_or_raise-ok _ _ e λ frame_is same. record {
            sender = sender;
            sender_is = sender_is;
            request = request;
            request_is = request_is;
            inside = _;
            only_nonces =
                authenticate_same host headers (codes "POST") (codes "/v1/messages") body none w;
            answer = answer;
            stored = subst (Returns store _ answer) same (returns store _ answer stored);
            frame_is = frame_is;
          }

  -- What is stored does not depend on the other tables.
  moved :
      (sender r m sender' r' m' : Bytes) (x : MessageResponse) (old db : Db)
      → StoredAs host sender r m x old
      → db.messages ≡ old.messages
      → db.devices ≡ old.devices
      → sender' ≡ sender
      → r' ≡ r
      → m' ≡ m
      → StoredAs host sender' r' m' x db
  moved sender r m sender' r' m' x old db k messages devices es er em = record {
    device = k.device;
    device_is = rw (devices, er) k.device_is;
    row = k.row;
    row_is = rw (messages, es, em) k.row_is;
    same_id = k.same_id;
    same_content = k.same_content;
    same_time = k.same_time;
  }

  again-unchanged :
      (headers headers' : Headers) (body body' frame frame' : Bytes) (w w1 v w2 : World)
      (first : Sent headers body w frame w1) (again : Sent headers' body' v frame' w2)
      → v.db.messages ≡ w1.db.messages
      → v.db.devices ≡ w1.db.devices
      → again.sender ≡ first.sender
      → again.request.recipient ≡ first.request.recipient
      → again.request.message_id ≡ first.request.message_id
      → (w2.db.messages ≡ v.db.messages)
        × (w2.db.last_server_id ≡ v.db.last_server_id)
        × (again.answer.server_id ≡ first.answer.server_id)
        × (again.answer.ciphertext ≡ first.answer.ciphertext)
        × (again.answer.accepted_at ≡ first.answer.accepted_at)
  again-unchanged headers headers' body body' frame frame' w w1 v w2 first again ms ds s r m =
      let q = again.request in
      let kept =
        store_message-StoredAs first.sender first.request.recipient first.request.message_id
          first.request.expires_at first.request.ciphertext first.inside first.answer w1
          first.stored in
      let known =
        moved first.sender first.request.recipient first.request.message_id again.sender q.recipient
          q.message_id first.answer w1.db again.inside.db kept
          (ap (λ (db : Db). db.messages) again.only_nonces ∙ ms)
          (ap (λ (db : Db). db.devices) again.only_nonces ∙ ds) s r m in
      let (same, (y, answers, id, content, time)) =
        known_message again.sender q.recipient q.message_id q.expires_at q.ciphertext first.answer
          again.inside known in
      let after : w2.db ≡ again.inside.db = sym (ap (λ p. p.1.db) again.stored) ∙ same in
      let is_y : again.answer ≡ y =
        ok-same again.answer y (sym (ap (λ p. p.0) again.stored) ∙ answers) in
      (
        ap (λ (db : Db). db.messages) after ∙ ap (λ (db : Db). db.messages) again.only_nonces,
        ap (λ (db : Db). db.last_server_id) after
            ∙ ap (λ (db : Db). db.last_server_id) again.only_nonces,
        ap (λ (a : MessageResponse). a.server_id) is_y ∙ id,
        ap (λ (a : MessageResponse). a.ciphertext) is_y ∙ content,
        ap (λ (a : MessageResponse). a.accepted_at) is_y ∙ time,
      )

  -- After a submission was answered, in any world with the same messages and devices, a submission
  -- that is answered too, of the same sender, recipient and message id, changes neither the messages
  -- nor their counter, whatever expiry and ciphertext come with it; and the message of its answer has
  -- the server id, the ciphertext and the time of the first.
  pub resend_unchanged :
      (headers headers' : Headers) (body body' frame frame' sender : Bytes) (q q' : Submit)
      (w w1 v w2 : World)
      → Returns (send host headers body) w frame w1
      → (authenticate_request host headers (codes "POST") (codes "/v1/messages") body none w).0
        ≡ ok sender
      → decode_message_request host headers body ≡ ok q
      → v.db.messages ≡ w1.db.messages
      → v.db.devices ≡ w1.db.devices
      → Returns (send host headers' body') v frame' w2
      → (authenticate_request host headers' (codes "POST") (codes "/v1/messages") body' none v).0
        ≡ ok sender
      → decode_message_request host headers' body' ≡ ok q'
      → q'.recipient ≡ q.recipient
      → q'.message_id ≡ q.message_id
      → (w2.db.messages ≡ v.db.messages)
        × (w2.db.last_server_id ≡ v.db.last_server_id)
        × ((x : MessageResponse) × (y : MessageResponse) × (encode_binary_messages host (x ∷ [])
              ≡ some frame)
            × (encode_binary_messages host (y ∷ []) ≡ some frame')
            × (y.server_id ≡ x.server_id)
            × (y.ciphertext ≡ x.ciphertext)
            × (y.accepted_at ≡ x.accepted_at))
  resend_unchanged headers headers' body body' frame frame' sender q q' w w1 v w2 sent by of ms ds
        resent by' of' r m =
      let first = send-Sent headers body w frame w1 sent in
      let again = send-Sent headers' body' v frame' w2 resent in
      let asked : first.request ≡ q = ok-same _ _ (sym first.request_is ∙ of) in
      let asked' : again.request ≡ q' = ok-same _ _ (sym again.request_is ∙ of') in
      let (messages, counter, id, content, time) =
        again-unchanged headers headers' body body' frame frame' w w1 v w2 first again ms ds
          (ok-same _ _ (sym again.sender_is ∙ by') ∙ sym (ok-same _ _ (sym first.sender_is ∙ by)))
          (ap (λ (u : Submit). u.recipient) asked'
            ∙ (r ∙ sym (ap (λ (u : Submit). u.recipient) asked)))
          (ap (λ (u : Submit). u.message_id) asked'
            ∙ (m ∙ sym (ap (λ (u : Submit). u.message_id) asked))) in
      (
        messages,
        counter,
        (first.answer, again.answer, first.frame_is, again.frame_is, id, content, time),
      )
