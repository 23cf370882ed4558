-- ===== src/Relay/Router/Frame.antt =====
-- What every call keeps: a statement about the tables of nonces and messages is kept by the whole
-- service once it is kept by the few actions that write those tables.
use safechat.Prelude.{ℕ, ℤ, Option, List, [], ◌∷◌, some, ◌≡◌, arith}
use safechat.Prelude.Bytes.{Bytes}
use safechat.Relay.{Db, AllowRow, EnrollmentRow, ChallengeRow, DeviceRow, ContactRow}
use safechat.Relay.Sql.{delete, update}
use safechat.Relay.Host.{Host, Headers}
use safechat.Relay.Service.{World}
use safechat.Relay.Service.Keeps.{After, Keeps, Stable, keeps_rules}
use safechat.Relay.Auth.{record_nonce, verify_signature, authenticate_request}
use safechat.Relay.Messages.{
  is_expired, is_acked, store_message, send, receive, status, acknowledge,
}
use safechat.Relay.Enrollment
use safechat.Relay.Enrollment.{
  enrollment_request, challenge, verify_registration, claim_device, register,
}
use safechat.Relay.Bundles.{publish, fetch, fetch_by_address}
use safechat.Relay.Contacts.{create, list, accept, reject}
use safechat.Relay.Admin
use safechat.Relay.Admin.{add_allowlist, allowlist, approve_enrollment, reject_enrollment, revoke}
use safechat.Relay.Events
use safechat.Relay.Events.{verify_websocket_request, open_socket, poll}
use safechat.Relay.Router.{Call, dispatch, serve}

-- `Q` says nothing of the five other tables, and the writes of nonces and messages keep it.
pub record Rules {Key : Type 0} (host : Host Key) (c : ℕ → ℕ) (Q : ℕ → Db → Type 0) : Type 0 where
  pub stable : Stable Q
  pub allowlist : (k : ℕ) (db : Db) (x : List AllowRow) → Q k db → Q k (record db { allowlist = x })
  pub enrollments :
      (k : ℕ) (db : Db) (x : List EnrollmentRow)
      → Q k db
      → Q k (record db { enrollment_requests = x })
  pub challenges :
      (k : ℕ) (db : Db) (x : List ChallengeRow) → Q k db → Q k (record db { challenges = x })
  pub devices : (k : ℕ) (db : Db) (x : List DeviceRow) → Q k db → Q k (record db { devices = x })
  pub contacts :
      (k : ℕ) (db : Db) (x : List ContactRow) → Q k db → Q k (record db { contact_requests = x })
  pub nonces : (d n : Bytes) → Keeps c Q (record_nonce d n)
  pub store : (s r m : Bytes) (e : Option ℕ) (t : Bytes) → Keeps c Q (store_message host s r m e t)
  pub purge :
      (time k : ℕ) (db : Db)
      → Q k db
      → Q k (record db { messages = delete (is_expired time) db.messages })
  pub acks :
      (id : ℤ) (r : Bytes) (time k : ℕ) (db : Db)
      → Q k db
      → Q k (record db {
        messages =
            update (is_acked id r) (λ m. record m { acknowledged_at = some time }) db.messages;
      })

module _ {Key : Type 0} (host : Host Key) (c : ℕ → ℕ) (Q : ℕ → Db → Type 0)
    (rules : Rules host c Q) where
  open rules use {nonces, store, purge, acks}

  stable_rule : Stable Q
  stable_rule = rules.stable

  allowlist_rule :
      (k : ℕ) (db : Db) (x : List AllowRow) → Q k db → Q k (record db { allowlist = x })
  allowlist_rule = rules.allowlist

  enrollments_rule :
      (k : ℕ) (db : Db) (x : List EnrollmentRow)
      → Q k db
      → Q k (record db { enrollment_requests = x })
  enrollments_rule = rules.enrollments

  challenges_rule :
      (k : ℕ) (db : Db) (x : List ChallengeRow) → Q k db → Q k (record db { challenges = x })
  challenges_rule = rules.challenges

  devices_rule : (k : ℕ) (db : Db) (x : List DeviceRow) → Q k db → Q k (record db { devices = x })
  devices_rule = rules.devices

  contacts_rule :
      (k : ℕ) (db : Db) (x : List ContactRow) → Q k db → Q k (record db { contact_requests = x })
  contacts_rule = rules.contacts

  ruleset table_rules = (
    keeps_rules, stable_rule, allowlist_rule, enrollments_rule, challenges_rule, devices_rule,
    contacts_rule,
  )

  verify_signature-Keeps :
      (d m p b n : Bytes) (t : ℕ) (s : Bytes) → Keeps c Q (verify_signature host d m p b n t s)
  unfolding verify_signature
  verify_signature-Keeps d m p b n t s = search (table_rules, nonces) depth 40

  authenticate-Keeps :
      (h : Headers) (m p b : Bytes) (x : Option Bytes)
      → Keeps c Q (authenticate_request host h m p b x)
  unfolding authenticate_request
  authenticate-Keeps h m p b x = search (table_rules, verify_signature-Keeps) depth 40

  ruleset handler_rules = (table_rules, authenticate-Keeps)

  send-Keeps : (h : Headers) (b : Bytes) → Keeps c Q (send host h b)
  unfolding send
  send-Keeps h b = search (handler_rules, store) depth 40

  receive-Keeps : (h : Headers) (x : Option ℤ) → Keeps c Q (receive host h x)
  unfolding receive
  receive-Keeps h x = search (handler_rules, purge) depth 40

  acknowledge-Keeps : (h : Headers) (i : ℤ) (b : Bytes) → Keeps c Q (acknowledge host h i b)
  unfolding acknowledge
  acknowledge-Keeps h i b = search (handler_rules, acks) depth 40

  register-Keeps : (h : Headers) (r : Enrollment.RegisterRequest) → Keeps c Q (register host h r)
  unfolding register verify_registration claim_device
  register-Keeps h r = search handler_rules depth 40

  enrollment_request-Keeps :
      (h : Headers) (r : Enrollment.EnrollmentRequest) → Keeps c Q (enrollment_request host h r)
  unfolding enrollment_request
  enrollment_request-Keeps h r = search handler_rules depth 40

  challenge-Keeps : (h : Headers) (r : Enrollment.ChallengeRequest) → Keeps c Q (challenge host h r)
  unfolding challenge
  challenge-Keeps h r = search handler_rules depth 40

  publish-Keeps : (h : Headers) (d b : Bytes) → Keeps c Q (publish host h d b)
  unfolding publish
  publish-Keeps h d b = search handler_rules depth 40

  fetch-Keeps : (h : Headers) (d : Bytes) → Keeps c Q (fetch host h d)
  unfolding fetch
  fetch-Keeps h d = search handler_rules depth 40

  fetch_by_address-Keeps : (h : Headers) (a : Bytes) → Keeps c Q (fetch_by_address host h a)
  unfolding fetch_by_address
  fetch_by_address-Keeps h a = search handler_rules depth 40

  create-Keeps : (h : Headers) (b : Bytes) → Keeps c Q (create host h b)
  unfolding create
  create-Keeps h b = search handler_rules depth 40

  list-Keeps : (h : Headers) (d : Option Bytes) → Keeps c Q (list host h d)
  unfolding list
  list-Keeps h d = search handler_rules depth 40

  accept-Keeps : (h : Headers) (i : Bytes) → Keeps c Q (accept host h i)
  unfolding accept
  accept-Keeps h i = search handler_rules depth 40

  reject-Keeps : (h : Headers) (i : Bytes) → Keeps c Q (reject host h i)
  unfolding reject
  reject-Keeps h i = search handler_rules depth 40

  status-Keeps : (h : Headers) (i : Bytes) → Keeps c Q (status host h i)
  unfolding status
  status-Keeps h i = search handler_rules depth 40

  add_allowlist-Keeps : (a b d e f : Bytes) → Keeps c Q (add_allowlist host a b d e f)
  unfolding add_allowlist
  add_allowlist-Keeps a b d e f = search handler_rules depth 40

  allowlist-Keeps :
      (t : Option Bytes) (h : Headers) (r : Admin.AdminAllowlistRequest)
      → Keeps c Q (allowlist host t h r)
  unfolding allowlist
  allowlist-Keeps t h r = search (handler_rules, add_allowlist-Keeps) depth 40

  approve-Keeps : (i : Bytes) → Keeps c Q (approve_enrollment i)
  unfolding approve_enrollment
  approve-Keeps i = search handler_rules depth 40

  reject_enrollment-Keeps : (i : Bytes) → Keeps c Q (reject_enrollment i)
  unfolding reject_enrollment
  reject_enrollment-Keeps i = search handler_rules depth 40

  revoke-Keeps : (i : Bytes) → Keeps c Q (revoke i)
  unfolding revoke
  revoke-Keeps i = search handler_rules depth 40

  open_socket-Keeps : (h : Headers) → Keeps c Q (open_socket host h)
  unfolding open_socket
  open_socket-Keeps h = authenticate-Keeps h _ _ _ _

  poll-Keeps : (d : Bytes) (r : Events.WsPollRequest) → Keeps c Q (poll host d r)
  unfolding poll verify_websocket_request
  poll-Keeps d r = search (handler_rules, verify_signature-Keeps) depth 40

  -- Every route and every command keeps `Q`.
  pub dispatch-Keeps : (t : Option Bytes) (call : Call) → Keeps c Q (dispatch host t call)
  unfolding dispatch
  dispatch-Keeps t (Call.admin_allowlist h r) = search (keeps_rules, allowlist-Keeps)
  dispatch-Keeps t (Call.devices_challenge h r) = search (keeps_rules, challenge-Keeps)
  dispatch-Keeps t (Call.devices_enrollment h r) = search (keeps_rules, enrollment_request-Keeps)
  dispatch-Keeps t (Call.devices_register h r) = search (keeps_rules, register-Keeps)
  dispatch-Keeps t (Call.bundle_put h d b) = search (keeps_rules, publish-Keeps)
  dispatch-Keeps t (Call.bundle_get h d) = search (keeps_rules, fetch-Keeps)
  dispatch-Keeps t (Call.bundle_get_by_address h a) = search (keeps_rules, fetch_by_address-Keeps)
  dispatch-Keeps t (Call.messages_post h b) = search (keeps_rules, send-Keeps)
  dispatch-Keeps t (Call.messages_get h x) = search (keeps_rules, receive-Keeps)
  dispatch-Keeps t (Call.contacts_post h b) = search (keeps_rules, create-Keeps)
  dispatch-Keeps t (Call.contacts_get h d) = search (keeps_rules, list-Keeps)
  dispatch-Keeps t (Call.contacts_accept h i) = search (keeps_rules, accept-Keeps)
  dispatch-Keeps t (Call.contacts_reject h i) = search (keeps_rules, reject-Keeps)
  dispatch-Keeps t (Call.messages_status h i) = search (keeps_rules, status-Keeps)
  dispatch-Keeps t (Call.messages_ack h i b) = search (keeps_rules, acknowledge-Keeps)
  dispatch-Keeps t (Call.events_get h) = search (keeps_rules, open_socket-Keeps)
  dispatch-Keeps t (Call.events_poll d r) = search (keeps_rules, poll-Keeps)
  dispatch-Keeps t (Call.command_add r) = search (keeps_rules, add_allowlist-Keeps)
  dispatch-Keeps t (Call.command_approve i) = search (keeps_rules, approve-Keeps)
  dispatch-Keeps t (Call.command_reject i) = search (keeps_rules, reject_enrollment-Keeps)
  dispatch-Keeps t (Call.command_revoke i) = search (keeps_rules, revoke-Keeps)

  -- And so does any sequence of them.
  pub serve-After :
      (t : Option Bytes) (calls : List Call) (w : World)
      → w.clock ≡ c
      → Q w.readings w.db
      → After c Q w (serve host t calls w)
  unfolding serve
  serve-After t [] w e q = record { same_clock = e; holds = q; forward = omega arith }
  serve-After t (call ∷ calls) w e q =
      let first = (dispatch-Keeps t call).at w e q in
      let rest = serve-After t calls (dispatch host t call w).1 first.same_clock first.holds in
      record {
        same_clock = rest.same_clock;
        holds = rest.holds;
        forward = omega (arith, first.forward, rest.forward);
      }
