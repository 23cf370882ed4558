-- ===== src/Client/Contacts.antt =====
-- codebase/transports/src/relay_client.rs: the requests about contacts.
use safechat.Prelude.{Bool, List, [], ◌∷◌, ◌++◌, Result, ok, err, if◌then◌else◌}
use safechat.Prelude.Bytes.{Bytes, bytes_eq, codes}
use safechat.Prelude.Programs.{pure, lift, ◌>>=◌}
use safechat.Transport.{ContactRequest, Base64}
use safechat.Client.{Action, Json}
use safechat.Client.Calls.{signed_json}
use safechat.Client.Requests.{Ports, ContactResponse, decode, field, post, get_method}

abbrev with_bundle : ContactResponse → Result Bytes Bytes → Result Bytes ContactRequest
with_bundle response (err e) = err e
with_bundle response (ok bundle) = ok (record {
  request_id = response.request_id;
  sender_id = response.sender_id;
  sender_name = response.sender_name;
  sender_fingerprint = response.sender_fingerprint;
  bundle = bundle;
})

unfoldable pub contact_request : Base64 → ContactResponse → Result Bytes ContactRequest
unfolding decode
contact_request base64 response = with_bundle response (decode base64 response.bundle)

abbrev cons_results :
    Result Bytes ContactRequest
    → Result Bytes (List ContactRequest)
    → Result Bytes (List ContactRequest)
cons_results (err e) rest = err e
cons_results (ok a) (err e) = err e
cons_results (ok a) (ok rest) = ok (a ∷ rest)

-- `collect` into a `Result`: the first error, if there is one.
unfoldable pub collect : Base64 → List ContactResponse → Result Bytes (List ContactRequest)
unfolding contact_request
collect base64 [] = ok []
collect base64 (r ∷ rs) =
    let rest = collect base64 rs in cons_results (contact_request base64 r) rest

unfoldable pub accepted_of : List ContactResponse → List ContactResponse
unfolding bytes_eq
accepted_of [] = []
accepted_of (r ∷ rs) =
    let rest = accepted_of rs in if bytes_eq r.status (codes "accepted") then r ∷ rest else rest

module _ {K N B : Type 0} (ports : Ports K N B) where
  unfoldable pub request_contact : Bytes → ContactRequest → Action K N (Unit {0})
  unfolding ◌>>=◌ signed_json
  request_contact recipient request = do
    answer ← signed_json ports.host ports.parsers.contact post (codes "/v1/contacts/requests") (
        Json.object (
          field (codes "request_id") request.request_id
          ∷ field (codes "recipient") recipient
          ∷ field (codes "sender_name") request.sender_name
          ∷ field (codes "sender_fingerprint") request.sender_fingerprint
          ∷ field (codes "bundle") (ports.host.base64.encode request.bundle)
          ∷ []))
    pure tt

  abbrev outgoing_path : Bytes
  outgoing_path = codes "/v1/contacts/requests?direction=outgoing"

  unfoldable pub contact_requests : Bool → Action K N (List ContactRequest)
  unfolding ◌>>=◌ signed_json collect
  contact_requests outgoing = do
    let path = if outgoing then outgoing_path else codes "/v1/contacts/requests"
    responses ← signed_json ports.host ports.parsers.contacts get_method path Json.null
    lift (collect ports.host.base64 responses)

  unfoldable pub accepted_contacts : Action K N (List ContactRequest)
  unfolding ◌>>=◌ signed_json collect accepted_of
  accepted_contacts = do
    responses ← signed_json ports.host ports.parsers.contacts get_method outgoing_path Json.null
    lift (collect ports.host.base64 (accepted_of responses))

  abbrev decision_path : Bytes → Bytes → Bytes
  decision_path request_id decision = codes "/v1/contacts/requests/" ++ (request_id ++ decision)

  unfoldable pub accept_contact : Bytes → Action K N ContactRequest
  unfolding ◌>>=◌ signed_json contact_request
  accept_contact request_id = do
    let path = decision_path request_id (codes "/accept")
    response ← signed_json ports.host ports.parsers.contact post path Json.null
    lift (contact_request ports.host.base64 response)

  unfoldable pub reject_contact : Bytes → Action K N (Unit {0})
  unfolding signed_json
  reject_contact request_id =
      signed_json ports.host ports.parsers.value post (decision_path request_id (codes "/reject"))
        Json.null
