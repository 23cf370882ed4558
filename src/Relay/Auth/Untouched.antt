-- ===== src/Relay/Auth/Untouched.antt =====
-- codebase/relay/src/auth.rs: the tables that an authentication leaves alone.
use safechat.Prelude.{ℕ, ◌≡◌, refl, Option}
use safechat.Prelude.Bytes.{Bytes}
use safechat.Relay.{Db}
use safechat.Relay.Host.{Host, Headers}
use safechat.Relay.Service.{World}
use safechat.Relay.Service.Keeps.{Keeps, Stable, keeps_rules}
use safechat.Relay.Auth.{record_nonce, verify_signature, authenticate_request}

-- All tables but the nonces are those of `old`.
abbrev pub SameButNonces : Db → ℕ → Db → Type 0
SameButNonces old k db = record db { request_nonces = old.request_nonces } ≡ old

SameButNonces-Stable : (old : Db) → Stable (SameButNonces old)
SameButNonces-Stable old k db h = h

authenticate-Untouched :
    {Key : Type 0} (host : Host Key) (c : ℕ → ℕ) (old : Db) (h : Headers) (m p b : Bytes)
    (x : Option Bytes)
    → Keeps c (SameButNonces old) (authenticate_request host h m p b x)
unfolding authenticate_request verify_signature record_nonce
authenticate-Untouched host c old h m p b x = search (keeps_rules, SameButNonces-Stable) depth 40

-- An authentication changes no table but that of the nonces, whether it succeeds or not.
pub authenticate_same :
    {Key : Type 0} (host : Host Key) (h : Headers) (m p b : Bytes) (x : Option Bytes) (w : World)
    → SameButNonces w.db 0 (authenticate_request host h m p b x w).1.db
authenticate_same host h m p b x w =
    ((authenticate-Untouched host w.clock w.db h m p b x).at w refl refl).holds

pub authenticate_clock :
    {Key : Type 0} (host : Host Key) (h : Headers) (m p b : Bytes) (x : Option Bytes) (w : World)
    → (authenticate_request host h m p b x w).1.clock ≡ w.clock
authenticate_clock host h m p b x w =
    ((authenticate-Untouched host w.clock w.db h m p b x).at w refl refl).same_clock
