-- ===== src/Relay/Events.antt =====
-- codebase/relay/src/events.rs, and `verify_websocket_request` of auth.rs: the event socket. The
-- socket itself is not modelled: `poll` is what one text frame on an open socket does.
use safechat.Prelude.{ℕ, ℤ, List, [], none}
use safechat.Prelude.Bytes.{Bytes, codes}
use safechat.Relay.Host.{Host, Headers}
use safechat.Relay.Service.{Action, ◌>>◌, query}
use safechat.Relay.Validation.{MessageResponse}
use safechat.Relay.Auth.{verify_signature, authenticate_request}
use safechat.Relay.Messages.{pending_messages}

pub record WsPollRequest : Type 0 where
  pub cursor : ℤ
  pub nonce : Bytes
  pub timestamp : ℕ
  pub signature : Bytes

module _ {Key : Type 0} (host : Host Key) where
  unfoldable pub verify_websocket_request : Bytes → WsPollRequest → Action (Unit {0})
  verify_websocket_request device request =
      verify_signature host device (codes "WS") (codes "/v1/events")
        (host.poll_body request.cursor request.nonce request.timestamp) request.nonce
        request.timestamp request.signature

  -- Opening the socket authenticates the device that it then serves.
  unfoldable pub open_socket : Headers → Action Bytes
  open_socket headers = authenticate_request host headers (codes "GET") (codes "/v1/events") [] none

  unfoldable pub poll : Bytes → WsPollRequest → Action (List MessageResponse)
  poll device request = do
    verify_websocket_request device request
    query (λ db. pending_messages host db device request.cursor)
