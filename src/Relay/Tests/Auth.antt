-- ===== src/Relay/Tests/Auth.antt =====
-- Runs of authentication, and theorems at concrete inputs.
use safechat.Prelude.{suc, ◌≡◌, ◌≢◌, refl, false, none, [], ◌∷◌, ok, arith, if◌then◌else◌, ltb}
use safechat.Prelude.Bytes.{bytes_eq, codes, to_be_bytes}
use safechat.Prelude.Text.{strip_prefix, parse_u64, digits_from}
use safechat.Relay.Sql.{query_row, delete, count, exists, insert_or_ignore}
use safechat.Relay.Service.{World, Action, ◌>>=◌}
use safechat.Relay.Service.Returns.{returns}
use safechat.Relay.Admin.{reject_enrollment}
use safechat.Relay.Auth.Genuine.{Genuine, authenticate-Genuine}
use safechat.Relay.Auth.{
  is_other, hex, hash, bearer, header, is_allowed, find_device, signed_request, record_nonce,
  verify_signature, authenticate_request,
}
use safechat.Relay.Router.{dispatch, serve}
use safechat.Relay.Router.Nonces.{replay_refused}
use safechat.Relay.Tests.{demo, world, signed_headers, other_call}

abbrev once : Action (Unit {0})
once =
    verify_signature demo (codes "a") (codes "GET") (codes "/p") [] (codes "n1") 1000 (codes "ka")

once_accepted : (once world).0 ≡ ok tt
unfolding verify_signature record_nonce ◌>>=◌ signed_request to_be_bytes query_row exists delete
    insert_or_ignore bytes_eq
once_accepted = refl

authenticated :
    (authenticate_request demo signed_headers (codes "GET") (codes "/v1/messages") [] none world).0
    ≡ ok (codes "a")
unfolding authenticate_request bearer header strip_prefix parse_u64 digits_from hash hex find_device
    is_allowed verify_signature record_nonce ◌>>=◌ signed_request to_be_bytes query_row exists
    delete insert_or_ignore bytes_eq
authenticated = refl

abbrev later : World
later = serve demo none (other_call ∷ []) (once world).1

-- The clock of this world stands still.
later_clock : later.clock (suc later.readings) ≡ later.clock later.readings
unfolding serve dispatch reject_enrollment count delete verify_signature record_nonce ◌>>=◌
    signed_request to_be_bytes query_row exists insert_or_ignore bytes_eq
later_clock = refl

replay_refused_example : (once later).0 ≢ ok tt
replay_refused_example =
    replay_refused demo none (codes "a") (codes "n1") 1000 (codes "GET") (codes "/p") []
      (codes "ka") (codes "GET") (codes "/p") [] (codes "ka") (other_call ∷ []) world (once world).1
      (λ i j _. omega arith) (returns once world tt once_accepted) later_clock

authenticate-Genuine_example :
    Genuine demo signed_headers (codes "GET") (codes "/v1/messages") [] world (codes "a")
    × (is_other none (codes "a") ≡ false)
authenticate-Genuine_example =
    authenticate-Genuine demo signed_headers (codes "GET") (codes "/v1/messages") [] none world
      (codes "a") _
      (returns
        (authenticate_request demo signed_headers (codes "GET") (codes "/v1/messages") [] none)
        world (codes "a") authenticated)

-- At the edge of the window: the first use is three hundred seconds before the timestamp, the
-- second three hundred seconds after it, and the clock ticks before the purge.
abbrev edge_world : World
edge_world = record world { clock = λ i. if ltb i 3 then 700 else if ltb i 4 then 1300 else 1301 }

replayed_at_edge : ((once edge_world).0 ≡ ok tt) × ((once (once edge_world).1).0 ≡ ok tt)
unfolding verify_signature record_nonce ◌>>=◌ signed_request to_be_bytes query_row exists delete
    insert_or_ignore bytes_eq
replayed_at_edge = (refl, refl)
