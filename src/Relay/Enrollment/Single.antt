-- ===== src/Relay/Enrollment/Single.antt =====
-- codebase/relay/src/enrollment.rs: refused and repeated registrations.
use safechat.Prelude.{
  ◌≡◌, refl, Bool, false, none, some, List, [], ◌∷◌, Result, ok, err, arith, suc, subst, sym, ◌≢◌,
  ◌==◌,
}
use safechat.Prelude.Bytes.{Bytes, bytes_eq}
use safechat.Relay.{Db, AllowRow, ApiError, Invalid}
use safechat.Relay.Sql.{query_row, query_row-some, delete, update, exists}
use safechat.Relay.Host.{Host, Headers}
use safechat.Relay.Service.{World, Action, ◌>>=◌, checked, transaction, settle}
use safechat.Relay.Service.Returns.{
  Returns, returns, bind-ok, checked-ok, pure-ok, or_raise-ok, query-ok, now-ok, random_bytes-ok,
  raise_if-ok,
}
use safechat.Relay.Enrollment.{
  ChallengeRequest, RegisterRequest, ChallengeResponse, RegisterResponse, is_active_client,
  is_unused_client, verify_registration, claim_device, register, challenge,
}

-- An action that leaves the tables as they were if it raises.
abbrev Atomic : {A : Type 0} → Action A → Type 0
Atomic m = (w : World) (e : ApiError) → (m w).0 ≡ err e → (m w).1.db ≡ w.db

settle-err :
    {A : Type 0} (db : Db) (r : Result ApiError A × World) (e : ApiError)
    → (settle db r).0 ≡ err e
    → (settle db r).1.db ≡ db
settle-err db (ok a, v) e is = ground arith
settle-err db (err x, v) e is = refl

Atomic-transaction : {A : Type 0} (m : Action A) → Atomic (transaction m)
unfolding transaction
Atomic-transaction m w e is = settle-err w.db (m w) e is

Atomic-checked :
    {A B : Type 0} (r : Result Invalid A) (f : A → Action B)
    → ((a : A) → Atomic (f a))
    → Atomic (checked r >>= f)
unfolding ◌>>=◌
Atomic-checked (ok a) f k w e is = k a w e is
Atomic-checked (err x) f k w e is = refl

-- A registration that is refused, at whatever point, leaves every table as it was.
pub register_atomic :
    {Key : Type 0} (host : Host Key) (headers : Headers) (request : RegisterRequest) (w : World)
    (e : ApiError)
    → (register host headers request w).0 ≡ err e
    → (register host headers request w).1.db ≡ w.db
unfolding register
register_atomic host headers request = Atomic-checked _ _ λ _.
    Atomic-checked _ _ λ _. Atomic-checked _ _ λ _. Atomic-checked _ _ λ _. Atomic-transaction _

-- No challenge is open for the client, and its place on the allowlist is used.
pub record Spent (client : Bytes) (db : Db) : Type 0 where
  pub no_challenge : query_row (λ c. bytes_eq c.client_id client) db.challenges ≡ none
  pub used : exists (is_unused_client client) db.allowlist ≡ false

query_row-delete : {A : Type 0} (p : A → Bool) (xs : List A) → query_row p (delete p xs) ≡ none
unfolding query_row delete
query_row-delete p [] = refl
query_row-delete p (x ∷ xs) = ground (arith, query_row-delete p xs)

exists-claimed :
    (client address : Bytes) (rows : List AllowRow)
    → exists (is_unused_client client) (
        update
          (is_unused_client client)
          (λ a. record a { enrollment_used = 1; device_address = address })
          rows)
      ≡ false
unfolding exists update
exists-claimed client address [] = refl
exists-claimed client address (a ∷ rows) = ground (arith, exists-claimed client address rows)

query_row-exists :
    {A : Type 0} (p q : A → Bool) (xs : List A) (x : A)
    → query_row p xs ≡ some x
    → exists q xs ≡ false
    → q x ≡ false
unfolding query_row exists
query_row-exists p q [] x found none_left = ground arith
query_row-exists p q (y ∷ xs) x found none_left = ground (arith, query_row-exists p q xs x)

transaction-ok :
    {A : Type 0} (m : Action A) (w : World) (a : A) (w' : World)
    → Returns (transaction m) w a w'
    → Returns m w a w'
unfolding transaction
transaction-ok m w a w' e = settle-ok (m w) e
  where
    settle-ok : (r : Result ApiError _ × World) → settle w.db r ≡ (ok a, w') → r ≡ (ok a, w')
    settle-ok (ok b, v) is = is
    settle-ok (err x, v) is = ground arith

module _ {Key : Type 0} (host : Host Key) where
  claim_device-Spent :
      (r : RegisterRequest) (a : AllowRow) (b t : Bytes) (w : World) (u : Unit {0}) (w' : World)
      → Returns (claim_device host r a b t) w u w'
      → Spent r.client_id w'.db
  unfolding claim_device ◌>>=◌
  claim_device-Spent r a b t w u w' e = record {
    no_challenge =
        ground (arith, query_row-delete (λ c. bytes_eq c.client_id r.client_id) w.db.challenges);
    used = ground (arith, exists-claimed r.client_id r.device_address w.db.allowlist);
  }

  active_used :
      (client : Bytes) (db : Db) (a : AllowRow)
      → Spent client db
      → query_row (is_active_client client) db.allowlist ≡ some a
      → (a.enrollment_used == 0) ≡ false
  active_used client db a spent found = ground (
    arith,
    query_row-some (is_active_client client) db.allowlist a found,
    query_row-exists (is_active_client client) (is_unused_client client) db.allowlist a found
        spent.used,
  )

  Spent-challenge :
      (headers : Headers) (r : ChallengeRequest) (w : World) (x : ChallengeResponse) (w' : World)
      → Spent r.client_id w.db
      → ¬ Returns (challenge host headers r) w x w'
  unfolding challenge
  Spent-challenge headers r w x w' spent e = checked-ok _ e λ _ _ e. checked-ok _ e λ _ _ e.
      checked-ok _ e λ _ _ e. checked-ok _ e λ _ _ e. random_bytes-ok _ e λ e. now-ok _ e λ e.
        query-ok _ _ e λ e. or_raise-ok _ _ e λ a found e.
          raise_if-ok _ _ e
            λ fine e. ground (arith, fine, active_used r.client_id w.db a spent found)

  Spent-register :
      (headers : Headers) (r : RegisterRequest) (w : World) (x : RegisterResponse) (w' : World)
      → Spent r.client_id w.db
      → ¬ Returns (register host headers r) w x w'
  unfolding register verify_registration
  Spent-register headers r w x w' spent e = checked-ok _ e λ _ _ e. checked-ok _ e λ _ _ e.
      checked-ok _ e λ _ _ e. checked-ok _ e λ _ _ e.
        let e = transaction-ok _ w x w' e in
        query-ok _ _ e λ e. or_raise-ok _ _ e λ a found e. bind-ok _ _ e λ bundle verified e.
          raise_if-ok _ _ (returns (verify_registration host r a) w bundle verified)
            λ fine _. ground (arith, fine, active_used r.client_id w.db a spent found)

  register-Spent :
      (headers : Headers) (r : RegisterRequest) (w : World) (x : RegisterResponse) (w' : World)
      → Returns (register host headers r) w x w'
      → Spent r.client_id w'.db
  unfolding register
  register-Spent headers r w x w' e = checked-ok _ e λ _ _ e. checked-ok _ e λ _ _ e.
      checked-ok _ e λ _ _ e. checked-ok _ e λ _ _ e.
        let e = transaction-ok _ w x w' e in
        query-ok _ _ e λ e. or_raise-ok _ _ e λ a found e. bind-ok _ _ e λ bundle verified e.
          random_bytes-ok _ e λ e. bind-ok _ _ e λ u claimed e.
            let v = (verify_registration host r a w).1 in
            let before = record v { draws = suc v.draws } in
            let claim = claim_device host r a bundle (v.random v.draws) in
            let (_, same) = pure-ok _ x (claim before).1 w' e in
            subst (λ z. Spent r.client_id z.db) same
              (claim_device-Spent r a bundle (v.random v.draws) before u (claim before).1
                (returns claim before u claimed))

-- A registration that succeeds is the only one of its enrollment: after it neither a challenge nor
-- another registration is granted for that client, from the tables as it left them.
pub register_once :
    {Key : Type 0} (host : Host Key) (headers : Headers) (first : RegisterRequest) (w : World)
    (x : RegisterResponse) (w' : World)
    → Returns (register host headers first) w x w'
    → ((other : Headers) (again : RegisterRequest) (y : RegisterResponse)
        → again.client_id ≡ first.client_id
        → (register host other again w').0 ≢ ok y)
      × ((other : Headers) (again : ChallengeRequest) (y : ChallengeResponse)
          → again.client_id ≡ first.client_id
          → (challenge host other again w').0 ≢ ok y)
register_once host headers first w x w' e =
    let spent = register-Spent host headers first w x w' e in
    (
      (λ other again y same granted.
          Spent-register host other again w' y _ (subst (λ c. Spent c w'.db) (sym same) spent)
            (returns (register host other again) w' y granted)),
      λ other again y same granted.
          Spent-challenge host other again w' y _ (subst (λ c. Spent c w'.db) (sym same) spent)
            (returns (challenge host other again) w' y granted),
    )
