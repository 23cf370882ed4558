-- ===== src/Relay/Router.antt =====
-- codebase/relay/src/router.rs: the routes, as one function from calls to handlers; with them the
-- commands of main.rs that work on the same database.
pub mod Frame
pub mod Nonces
pub mod Mailbox
pub mod Retention
pub mod Acknowledged
use safechat.Prelude.{ℕ, ℤ, Option, none, some, List, [], ◌∷◌}
use safechat.Prelude.Bytes.{Bytes}
use safechat.Relay.Host.{Host, Headers}
use safechat.Relay.Service.{World, Action, ◌>>=◌, ◌>>◌, pure}
use safechat.Relay.Validation.{MessageResponse}
use safechat.Relay.Messages.{send, receive, status, acknowledge}
use safechat.Relay.Enrollment.{
  EnrollmentRequest, EnrollmentResponse, ChallengeRequest, ChallengeResponse, RegisterRequest,
  RegisterResponse, enrollment_request, challenge, register,
}
use safechat.Relay.Bundles.{BundleResponse, publish, fetch, fetch_by_address}
use safechat.Relay.Contacts.{ContactRequestResponse, create, list, accept, reject}
use safechat.Relay.Admin.{
  AdminAllowlistRequest, add_allowlist, allowlist, approve_enrollment, reject_enrollment, revoke,
}
use safechat.Relay.Events.{WsPollRequest, open_socket, poll}

-- A constructor for each route, with the path parameters, the query and the JSON body that the
-- framework has parsed; then a frame on an open socket, and the commands.
pub data Call : Type 0 where
  admin_allowlist : Headers → AdminAllowlistRequest → Call
  devices_challenge : Headers → ChallengeRequest → Call
  devices_enrollment : Headers → EnrollmentRequest → Call
  devices_register : Headers → RegisterRequest → Call
  bundle_put : Headers → Bytes → Bytes → Call
  bundle_get : Headers → Bytes → Call
  bundle_get_by_address : Headers → Bytes → Call
  messages_post : Headers → Bytes → Call
  messages_get : Headers → Option ℤ → Call
  contacts_post : Headers → Bytes → Call
  contacts_get : Headers → Option Bytes → Call
  contacts_accept : Headers → Bytes → Call
  contacts_reject : Headers → Bytes → Call
  messages_status : Headers → Bytes → Call
  messages_ack : Headers → ℤ → Bytes → Call
  events_get : Headers → Call
  events_poll : Bytes → WsPollRequest → Call
  command_add : AdminAllowlistRequest → Call
  command_approve : Bytes → Call
  command_reject : Bytes → Call
  command_revoke : Bytes → Call

pub data Reply : Type 0 where
  done : Reply
  text : Bytes → Reply
  enrollment : EnrollmentResponse → Reply
  challenged : ChallengeResponse → Reply
  registered : RegisterResponse → Reply
  bundle : BundleResponse → Reply
  contact : ContactRequestResponse → Reply
  contacts : List ContactRequestResponse → Reply
  events : List MessageResponse → Reply

abbrev pub reply : {A : Type 0} → (A → Reply) → Action A → Action Reply
reply f m = m >>= λ a. pure (f a)

module _ {Key : Type 0} (host : Host Key) (admin_token : Option Bytes) where
  unfoldable pub dispatch : Call → Action Reply
  dispatch (admin_allowlist headers request) =
      reply text (allowlist host admin_token headers request)
  dispatch (devices_challenge headers request) = reply challenged (challenge host headers request)
  dispatch (devices_enrollment headers request) =
      reply enrollment (enrollment_request host headers request)
  dispatch (devices_register headers request) = reply registered (register host headers request)
  dispatch (bundle_put headers device body) = reply bundle (publish host headers device body)
  dispatch (bundle_get headers device) = reply bundle (fetch host headers device)
  dispatch (bundle_get_by_address headers address) =
      reply bundle (fetch_by_address host headers address)
  dispatch (messages_post headers body) = reply text (send host headers body)
  dispatch (messages_get headers cursor) = reply text (receive host headers cursor)
  dispatch (contacts_post headers body) = reply contact (create host headers body)
  dispatch (contacts_get headers direction) = reply contacts (list host headers direction)
  dispatch (contacts_accept headers request_id) = reply contact (accept host headers request_id)
  dispatch (contacts_reject headers request_id) = reply (λ _. done) (reject host headers request_id)
  dispatch (messages_status headers message_id) = reply text (status host headers message_id)
  dispatch (messages_ack headers server_id body) =
      reply (λ _. done) (acknowledge host headers server_id body)
  dispatch (events_get headers) = reply text (open_socket host headers)
  dispatch (events_poll device request) = reply events (poll host device request)
  dispatch (command_add r) =
      reply (λ _. done)
        (add_allowlist host r.client_id r.identity_key r.fingerprint r.enrollment_secret r.label)
  dispatch (command_approve client_id) = reply (λ _. done) (approve_enrollment client_id)
  dispatch (command_reject client_id) = reply (λ _. done) (reject_enrollment client_id)
  dispatch (command_revoke client_id) = reply (λ _. done) (revoke client_id)

  -- The service after a sequence of calls, each run to its end.
  unfoldable pub serve : List Call → World → World
  serve [] w = w
  serve (call ∷ calls) w = serve calls (dispatch call w).1
