-- ===== src/Relay/Commands.antt =====
-- codebase/relay/src/main.rs: the command line, `Command` and the part of `run` that works on a
-- database. The commands that listen or send requests have no action here.
use safechat.Prelude.{ℕ, Bool, Option, none, some, List}
use safechat.Prelude.Bytes.{Bytes}
use safechat.Relay.{EnrollmentRow, internal}
use safechat.Relay.Host.{Host}
use safechat.Relay.Service.{Action, ◌>>=◌, ◌>>◌, pure, or_raise}
use safechat.Relay.Admin.{
  AdminAllowlistRequest, add_allowlist, revoke, reject_enrollment, approve_enrollment,
  pending_enrollments, choose_pending_enrollment,
}

-- The fields of each command in the order of the source.
pub data Command : Type 0 where
  serve :
      (bind database : Bytes) (http : Bool) (tls_cert tls_key admin_token : Option Bytes) → Command
  allowlist_add :
      (database client_id identity_key fingerprint enrollment_secret label : Bytes) → Command
  allowlist_revoke : (database client_id : Bytes) → Command
  allowlist_add_remote :
      (url : Bytes) (allow_http : Bool) (admin_token : Bytes) (ca_cert : Option Bytes)
      (request : AdminAllowlistRequest)
      → Command
  enrollment_pending : (database : Bytes) → Command
  enrollment_approve : (database : Bytes) (client_id : Option Bytes) → Command
  enrollment_reject : (database client_id : Bytes) → Command

-- What is printed, apart from fixed texts.
pub data Printed : Type 0 where
  client : Bytes → Printed
  requests : List EnrollmentRow → Printed

-- The client that a command without one asks for; the program stops if the number is wrong.
unfoldable pub chosen_client : ℕ → Option Bytes → Action Bytes
chosen_client number (some client_id) = pure client_id
chosen_client number none = do
  rows ← pending_enrollments
  or_raise (choose_pending_enrollment number rows) internal

module _ {Key : Type 0} (host : Host Key) where
  -- `number` is what the user types when asked for one.
  unfoldable pub run : ℕ → Command → Option (Action Printed)
  run number (Command.allowlist_add database client_id identity_key fingerprint secret label) =
      some do
        add_allowlist host client_id identity_key fingerprint secret label
        pure (Printed.client client_id)
  run number (Command.allowlist_revoke database client_id) =
      some do revoke client_id; pure (Printed.client client_id)
  run number (Command.enrollment_pending database) =
      some do rows ← pending_enrollments; pure (Printed.requests rows)
  run number (Command.enrollment_approve database client_id) = some do
    client_id ← chosen_client number client_id
    approve_enrollment client_id
    pure (Printed.client client_id)
  run number (Command.enrollment_reject database client_id) =
      some do reject_enrollment client_id; pure (Printed.client client_id)
  run number (Command.serve bind database http tls_cert tls_key admin_token) = none
  run number (Command.allowlist_add_remote url allow_http admin_token ca_cert request) = none
