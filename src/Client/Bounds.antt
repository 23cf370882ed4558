-- ===== src/Client/Bounds.antt =====
-- codebase/transports/src/relay_client.rs: how often a request is repeated and for how long the
-- client sleeps between.
use safechat.Prelude.{
  ℕ, suc, ◌+◌, ◌≤◌, ◌≡◌, refl, sym, subst, Bool, true, false, ◌&&◌, List, [], ◌∷◌, ◌++◌, Result, ok,
  err, ltb, ◌==◌, length, if◌then◌else◌, arith,
}
use safechat.Prelude.Bytes.{Bytes}
use safechat.Prelude.Programs.{continue, pure, get, lift, ◌>>=◌, ◌>>◌}
use safechat.Prelude.Programs.Keeps.{Keeps, Keeps-pure, Keeps-lift, Keeps-get, Keeps->>=}
use safechat.Prelude.Programs.Ensures.{ok-injective}
use safechat.Client.{
  ClientHost, HttpRequest, Response, World, Action, retryable_status, retry_delay, sleep,
  max_request_attempts, random_bytes, now, signed_path,
}
use safechat.Client.Calls.{
  build_signed, random_nonce, request_url, signed_bytes, signature_headers, with_headers, transmit,
  settle, round, retry_from, send_with_retry,
}

unfoldable pub total : List ℕ → ℕ
total [] = 0
total (n ∷ ns) = n + total ns

module _ {K N : Type 0} where
  -- From a world on, at most so many requests were sent and at most so many milliseconds slept; and
  -- an answer that asks for a repetition is returned only when all these requests were sent.
  pub record Spent (requests delay : ℕ) (w : World K N) (r : Result Bytes Response) (v : World K N)
      : Type 0 where
    pub sent : length v.requests ≤ requests + length w.requests
    pub slept : total v.slept ≤ delay + total w.slept
    pub last :
        (response : Response)
        → r ≡ ok response
        → retryable_status response.status ≡ true
        → length v.requests ≡ requests + length w.requests

  -- A builder neither sends nor sleeps.
  pub record Quiet (build : Action K N HttpRequest) : Type 0 where
    pub requests : (w : World K N) → (build w).1.requests ≡ w.requests
    pub slept : (w : World K N) → (build w).1.slept ≡ w.slept

module _ {K N : Type 0} {n d : ℕ} (a : ℕ) (again : Action K N Response)
    (more : (w : World K N) → Spent n d w (again w).0 (again w).1) where
  abbrev Later : World K N → Result Bytes Response × World K N → Type 0
  Later w x = Spent n (retry_delay a + d) w x.0 x.1

  slept_then : (w : World K N) → Later w ((sleep (retry_delay a) >> again) w)
  unfolding sleep total ◌>>=◌
  slept_then w =
      let s = more (record w { slept = retry_delay a ∷ w.slept }) in
      record { sent = s.sent; slept = (let k = s.slept in omega arith); last = s.last }

  by_status :
      (c : Bool) (response : Response) (w : World K N)
      → (retryable_status response.status ≡ true → c ≡ true)
      → Later w ((if c then sleep (retry_delay a) >> again else pure response) w)
  unfolding ◌>>=◌
  by_status true response w h = slept_then w
  by_status false response w h = record {
    sent = omega arith;
    slept = omega arith;
    last = λ other e wanted.
        let same = sym (ok-injective response other e) in
        let asked = h (subst (λ r. retryable_status r.status ≡ true) same wanted) in cc;
  }

abbrev Within : {K N : Type 0} → ℕ → ℕ → Action K N Response → Type 0
Within {K = K} {N = N} n d m = (w : World K N) → Spent n d w (m w).0 (m w).1

module _ {K N : Type 0} (host : ClientHost K N) {n d : ℕ} where
  -- An attempt that is not the last one.
  settle-Spent :
      (a : ℕ) (again : Action K N Response)
      → Within n d again
      → (a + 1 == max_request_attempts) ≡ false
      → ltb (a + 1) max_request_attempts ≡ true
      → (answer : Result Bytes Response) → Within n (retry_delay a + d) (settle host a again answer)
  unfolding settle ◌>>=◌
  settle-Spent a again more e k (ok response) w =
      by_status a again more _ response w λ wanted. rw wanted (rw e refl)
  settle-Spent a again more e k (err error) w = rw k (slept_then a again more w)

  -- The request itself, before its answer is settled.
  round-Spent :
      (a : ℕ) (again : Action K N Response)
      → ((answer : Result Bytes Response) → Within n d (settle host a again answer))
      → (request : HttpRequest) → Within (suc n) d (round host a again request)
  unfolding round transmit ◌>>=◌
  round-Spent a again settled request w =
      let answer = host.execute request w.net in
      let s = settled answer.0 (record w { net = answer.1; requests = request ∷ w.requests }) in
      record {
        sent = (let k = s.sent in omega arith);
        slept = s.slept;
        last = λ response e wanted. (let k = s.last response e wanted in omega arith);
      }

  built :
      (next : HttpRequest → Action K N Response)
      → ((request : HttpRequest) → Within (suc n) d (next request))
      → (r : Result Bytes HttpRequest) (v w : World K N) → v.requests ≡ w.requests
      → v.slept ≡ w.slept
      → Spent (suc n) d w (continue r next v).0 (continue r next v).1
  built next within (ok request) v w e k =
      let s = within request v in
      record { sent = rw (sym e) s.sent; slept = rw (sym k) s.slept; last = rw (sym e) s.last }
  built next within (err error) v w e k = record {
    sent = rw e (omega arith);
    slept = rw k (omega arith);
    last = λ response made. cc;
  }

  retry-Spent :
      (left a : ℕ) (build : Action K N HttpRequest)
      → Quiet build
      → ((answer : Result Bytes Response)
          → Within n d (settle host a (retry_from host left (a + 1) build) answer))
      → Within (suc n) d (retry_from host (suc left) a build)
  unfolding retry_from ◌>>=◌
  retry-Spent left a build quiet settled w =
      built (round host a (retry_from host left (a + 1) build))
        (round-Spent a (retry_from host left (a + 1) build) settled) (build w).0 (build w).1 w
        (quiet.requests w) (quiet.slept w)

module _ {K N : Type 0} where
  abbrev Unspent : List HttpRequest → List ℕ → World K N → Type 0
  Unspent requests slept w = (w.requests ≡ requests) × (w.slept ≡ slept)

  random-Keeps :
      (requests : List HttpRequest) (slept : List ℕ) → Keeps (Unspent requests slept) random_bytes
  unfolding random_bytes
  random-Keeps requests slept = record { at = λ w h. h }

  now-Keeps : (requests : List HttpRequest) (slept : List ℕ) → Keeps (Unspent requests slept) now
  unfolding now
  now-Keeps requests slept = record { at = λ w h. h }

module _ {K N : Type 0} (host : ClientHost K N) where
  stays : (r : Result Bytes Response) (w : World K N) → Spent 0 0 w r w
  stays r w = record {
    sent = omega arith;
    slept = omega arith;
    last = λ response e wanted. omega arith;
  }

  at_the_end :
      (asked : Bool) (again : Action K N Response) (response : Response)
      → Within 0 0 (if asked && false then sleep (retry_delay 3) >> again else pure response)
  unfolding ◌>>=◌
  at_the_end true again response w = stays (ok response) w
  at_the_end false again response w = stays (ok response) w

  -- The last attempt.
  settle_last :
      (again : Action K N Response) (r : Result Bytes Response) → Within 0 0 (settle host 3 again r)
  unfolding settle ◌>>=◌
  settle_last again (ok response) w = at_the_end (retryable_status response.status) again response w
  settle_last again (err error) w = stays _ w

  pub send_with_retry-Spent :
      (build : Action K N HttpRequest) → Quiet build → Within 4 1750 (send_with_retry host build)
  unfolding send_with_retry retry_delay
  send_with_retry-Spent build quiet = retry-Spent host 3 0 build quiet (
      settle-Spent host 0 (retry_from host 3 1 build)
        (retry-Spent host 2 1 build quiet (
          settle-Spent host 1 (retry_from host 2 2 build)
            (retry-Spent host 1 2 build quiet (
              settle-Spent host 2 (retry_from host 1 3 build)
                (retry-Spent host 0 3 build quiet (settle_last (retry_from host 0 4 build))) refl
                refl))
            refl refl))
        refl refl)

  random_nonce-Keeps :
      (requests : List HttpRequest) (slept : List ℕ)
      → Keeps (Unspent requests slept) (random_nonce host)
  unfolding random_nonce
  random_nonce-Keeps requests slept =
      Keeps->>= random_bytes _ (random-Keeps requests slept)
        λ bytes. Keeps-pure (host.base64.encode bytes)

  request_url-Keeps :
      (requests : List HttpRequest) (slept : List ℕ) (path : Bytes)
      → Keeps (Unspent requests slept) (request_url host path)
  unfolding request_url
  request_url-Keeps requests slept path =
      Keeps->>= (get (λ w. w.client.config.base_url)) _ (Keeps-get _) λ base. Keeps-lift _

  build_signed-Keeps :
      (requests : List HttpRequest) (slept : List ℕ) (token method path body : Bytes)
      (further : List (Bytes × Bytes))
      → Keeps (Unspent requests slept) (build_signed host token method path body further)
  unfolding build_signed
  build_signed-Keeps requests slept token method path body further =
      Keeps->>= (random_nonce host) _ (random_nonce-Keeps requests slept) λ nonce.
        Keeps->>= now _ (now-Keeps requests slept) λ timestamp.
          Keeps->>= (get (λ w. w.client.identity_pair)) _ (Keeps-get _) λ pair.
            Keeps->>= random_bytes _ (random-Keeps requests slept) λ randomness.
              let signed = signed_bytes host method (signed_path path) body nonce timestamp in
              Keeps->>= (lift (host.calculate_signature pair signed randomness)) _ (Keeps-lift _)
                λ signature.
                  Keeps->>= (request_url host path) _ (request_url-Keeps requests slept path) λ url.
                    Keeps-pure (
                      with_headers method url
                        (signature_headers host token nonce timestamp signature ++ further) body)

  build_signed-Quiet :
      (token method path body : Bytes) (further : List (Bytes × Bytes))
      → Quiet (build_signed host token method path body further)
  build_signed-Quiet token method path body further = record {
    requests = λ w.
        ((build_signed-Keeps w.requests w.slept token method path body further).at w
          (refl, refl)).0;
    slept = λ w.
        ((build_signed-Keeps w.requests w.slept token method path body further).at w
          (refl, refl)).1;
  }

  -- A signed request is sent at most four times and the client sleeps at most 1.75 seconds for it;
  -- an answer that asks for a repetition is returned only after all four.
  pub send_signed-Spent :
      (token method path body : Bytes) (further : List (Bytes × Bytes)) (w : World K N)
      → let (r, v) = send_with_retry host (build_signed host token method path body further) w in
        Spent 4 1750 w r v
  send_signed-Spent token method path body further =
      send_with_retry-Spent _ (build_signed-Quiet token method path body further)
