-- ===== src/Protocol/Parses.antt =====
-- The reader of codebase/relay-protocol/src/lib.rs the other way: what stood in the input when a
-- method has returned a value.
use safechat.Prelude.{
  ℕ, zero, suc, ◌+◌, ◌-◌, ◌*◌, ◌^◌, ◌≤◌, ◌<◌, ◌≡◌, refl, ap, sym, ◌∙◌, subst, Bool, true, false,
  Option, none, some, List, [], ◌∷◌, ◌++◌, append_assoc, append-nil, arith, Result, ok, err, ok_or,
  bail_if, ltb, leb, ◌==◌, if◌then◌else◌, length, length-append, take as take_list,
  take-append-drop, length-take, drop, drop-drop, length-drop, All, All-append_inv, All-take,
  as_u64, as_i64, IsI64, IsU64, as_u64-as_i64, as_i64-IsI64, ℤ, not,
}
use safechat.Prelude
use safechat.Prelude.Bytes.{
  Bytes, IsByte, to_be_bytes, from_be_bytes, to_be_bytes-from_be_bytes, from_be_bytes-lt,
}
use safechat.Prelude.Utf8.{is_utf8, IsText}
use safechat.Protocol.{max_body, Field, What, Error, max_address_bytes}
use safechat.Protocol.Layout.{header_layout, bytes_layout, expiry_layout, address_layout}
use safechat.Protocol.Reader.{
  Reader, Read, pure, ◌>>=◌, take, get_range, read_u8, read_u32, read_u64, read_i64, read_bytes,
  read_string, expiry_of_flag, read_expiry, finish, address_of_flag, read_address, new_reader, lift,
  first as first_byte,
}
use safechat.Protocol.Reads.{Holds, Holds-length, IsExpiry, IsAddress}

-- `xs` has been taken off the front of `s`, and the reader `r` holds the rest.
pub record Takes (xs s : Bytes) (r : Reader) : Type 0 where
  pub rest : Bytes
  pub split : s ≡ xs ++ rest
  pub holds : Holds r rest
  pub bytes : All IsByte rest

-- Whenever `p` returns a value, the value's layout stood at the front, and `Q` holds of it.
abbrev pub Parses : {A : Type 0} → Read A → (A → Bytes) → (A → Type 0) → Type 0
Parses {A} p layout Q =
    (r r' : Reader) (s : Bytes) (a : A)
    → Holds r s
    → All IsByte s
    → p r ≡ ok (a, r')
    → Takes (layout a) s r' × Q a

take_result :
    (n : ℕ) (what : What) (r r' : Reader) (v : Bytes)
    → take n what r ≡ ok (v, r')
    → (r.offset + n ≤ length r.input)
      × (v ≡ take_list n (drop r.offset r.input))
      × (r' ≡ record r { offset = r.offset + n })
unfolding take get_range
take_result n what r r' v e =
    let same : r.offset + n - r.offset ≡ n = omega arith in ground (arith, same)

pub take-Parses : (n : ℕ) (what : What) → Parses (take n what) (λ v. v) (λ v. length v ≡ n)
take-Parses n what r r' s v h w e =
    let (inside, value, after) = take_result n what r r' v e in
    let v_is : v ≡ take_list n s = value ∙ ap (take_list n) h.next in
    let cut : s ≡ v ++ drop n s = sym (take-append-drop n s) ∙ ap (λ t. t ++ drop n s) (sym v_is) in
    (
      record {
        rest = drop n s;
        split = cut;
        holds =
            subst (λ q. Holds q (drop n s)) (sym after)
              (record {
                next = sym (drop-drop r.offset n (r.offset + n) r.input refl) ∙ ap (drop n) h.next;
                inside = inside;
                small = h.small;
              });
        bytes = (All-append_inv IsByte v (drop n s) (subst (All IsByte) cut w)).1;
      },
      rw v_is (omega (arith, length-take n s, Holds-length r s h)),
    )

-- A step, then another on what it returned.
pub Takes-append :
    (xs ys s : Bytes) (r r' : Reader) (t : Takes xs s r)
    → Takes ys t.rest r'
    → Takes (xs ++ ys) s r'
Takes-append xs ys s r r' t u = record {
  rest = u.rest;
  split = t.split ∙ (ap (λ z. xs ++ z) u.split ∙ sym (append_assoc xs ys u.rest));
  holds = u.holds;
  bytes = u.bytes;
}

-- Inversion of a step of a `do` block.
pub >>=-eq-ok :
    {A B : Type 0} (p : Read A) (f : A → Read B) (r r' : Reader) (b : B)
    → (p >>= f) r ≡ ok (b, r')
    → (a : A) × (q : Reader) × (p r ≡ ok (a, q)) × (f a q ≡ ok (b, r'))
>>=-eq-ok p f r r' b e =
    let (aq, first, later) = Prelude.>>=-eq-ok (p r) (λ aq. f aq.0 aq.1) e in
    (aq.0, aq.1, first, later)

-- A reader of `n` big-endian bytes.
number-Parses :
    (n : ℕ) (what : What) (r r' : Reader) (s : Bytes) (v : ℕ)
    → Holds r s
    → All IsByte s
    → (take n what >>= λ value. pure (from_be_bytes value)) r ≡ ok (v, r')
    → Takes (to_be_bytes n v) s r' × (v < 256 ^ n)
number-Parses n what r r' s v h w e =
    let (bs, q, first, later) = >>=-eq-ok (take n what) _ r r' v e in
    let (t, len) = take-Parses n what r q s bs h w first in
    let same : from_be_bytes bs ≡ v = cc later in
    let moved : q ≡ r' = cc later in
    let bytes = (All-append_inv IsByte bs t.rest (subst (All IsByte) t.split w)).0 in
    (
      subst (λ x. Takes (to_be_bytes n v) s x) moved
          (subst (λ x. Takes (to_be_bytes n x) s q) same
            (rw (to_be_bytes-from_be_bytes n bs len bytes) t)),
      subst (λ x. x < 256 ^ n) same (from_be_bytes-lt n bs len bytes),
    )

pub read_u32-Parses : Parses read_u32 (to_be_bytes 4) (λ v. v < 256 ^ 4)
unfolding read_u32
read_u32-Parses = number-Parses 4 What.binary_u32

pub read_u64-Parses : Parses read_u64 (to_be_bytes 8) IsU64
unfolding read_u64
read_u64-Parses r r' s v h w e =
    let (t, small) = number-Parses 8 What.binary_u64 r r' s v h w e in (t, omega arith)

pub read_i64-Parses : Parses read_i64 (λ z. to_be_bytes 8 (as_u64 z)) IsI64
unfolding read_i64
read_i64-Parses r r' s z h w e =
    let (bs, q, first, later) = >>=-eq-ok (take 8 What.binary_i64) _ r r' z e in
    let (t, small) = number-Parses 8 What.binary_i64 r q s (from_be_bytes bs) h w (rw first) in
    let same : as_i64 (from_be_bytes bs) ≡ z = cc later in
    let moved : q ≡ r' = cc later in
    let u64 : from_be_bytes bs < 2 ^ 64 = omega arith in
    (
      subst (λ x. Takes (to_be_bytes 8 (as_u64 z)) s x) moved
          (subst (λ x. Takes (to_be_bytes 8 (as_u64 x)) s q) same
            (rw (as_u64-as_i64 (from_be_bytes bs) u64) t)),
      subst IsI64 same (as_i64-IsI64 (from_be_bytes bs) u64),
    )

pub read_u8-Parses : Parses read_u8 (λ b. b ∷ []) IsByte
unfolding read_u8
read_u8-Parses r r' s v h w e =
    let (bs, q, first, later) = >>=-eq-ok (take 1 What.binary_field) _ r r' v e in
    let (t, len) = take-Parses 1 What.binary_field r q s bs h w first in
    let (one, moved) = single bs v q r' len later in
    let whole : Takes (v ∷ []) s r' =
      subst (λ x. Takes (v ∷ []) s x) moved (subst (λ x. Takes x s q) one t) in
    (whole, (All-append_inv IsByte (v ∷ []) whole.rest (subst (All IsByte) whole.split w)).0.0)
  where
    single :
        (bs : Bytes) (x : ℕ) (q q' : Reader)
        → length bs ≡ 1
        → lift (ok_or (first_byte bs) (Error.truncated What.binary_field)) q ≡ ok (x, q')
        → (bs ≡ x ∷ []) × (q ≡ q')
    single [] x q q' l k = absurd (omega arith)
    single (b ∷ []) x q q' l k = (cc k, cc k)
    single (b ∷ c ∷ bs) x q q' l k = absurd (omega arith)

-- The value that a `bail_if` lets through.
pub bail_if_ok :
    {A : Type 0} (c : Bool) (x : Error) (q r' : Reader) (p : Read A) (a : A)
    → (lift (bail_if c x) >>= λ _. p) q ≡ ok (a, r')
    → (c ≡ false) × (p q ≡ ok (a, r'))
bail_if_ok true x q r' p a e = cc
bail_if_ok false x q r' p a e = (refl, e)

pub read_bytes-Parses :
    (limit : ℕ) (f : Field) → Parses (read_bytes limit f) bytes_layout (λ v. length v ≤ limit)
unfolding read_bytes
read_bytes-Parses limit f r r' s v h w e =
    let (n, q, first, later) = >>=-eq-ok read_u32 _ r r' v e in
    let (t, small) = read_u32-Parses r q s n h w first in
    let (fits, taken) = bail_if_ok (ltb limit n) (Error.exceeds_limit f) q r' _ v later in
    let (u, len) = take-Parses n (What.field f) q r' t.rest v t.holds t.bytes taken in
    (rw len (Takes-append (to_be_bytes 4 n) v s q r' t u), ground arith)

pub read_string-Parses :
    (limit : ℕ) (f : Field)
    → Parses (read_string limit f) bytes_layout (λ v. (length v ≤ limit) × IsText v)
unfolding read_string
read_string-Parses limit f r r' s v h w e =
    let (bs, q, first, later) = >>=-eq-ok (read_bytes limit f) _ r r' v e in
    let (t, fits) = read_bytes-Parses limit f r q s bs h w first in
    let (text, done) = bail_if_ok (not (is_utf8 bs)) (Error.not_utf8 f) q r' (pure bs) v later in
    let same : bs ≡ v = cc done in
    let moved : q ≡ r' = cc done in
    (
      subst (λ x. Takes (bytes_layout v) s x) moved
          (subst (λ x. Takes (bytes_layout x) s q) same t),
      subst (λ x. (length x ≤ limit) × IsText x) same (fits, ground arith),
    )

-- A flag byte, and what is read after it.
flagged :
    {A : Type 0} (f : ℕ → Read A) (layout : A → Bytes) (Q : A → Type 0) (payload : ℕ → A → Bytes)
    → ((b : ℕ) → Parses (f b) (payload b) (λ a. Q a × (layout a ≡ b ∷ payload b a)))
    → Parses (read_u8 >>= f) layout Q
flagged f layout Q payload k r r' s a h w e =
    let (b, q, first, later) = >>=-eq-ok read_u8 f r r' a e in
    let (t, _) = read_u8-Parses r q s b h w first in
    let (u, both) = k b q r' t.rest a t.holds t.bytes later in
    (rw both.1 (Takes-append (b ∷ []) (payload b a) s q r' t u), both.0)

Takes-nil : (s : Bytes) (r : Reader) → Holds r s → All IsByte s → Takes [] s r
Takes-nil s r h w = record { rest = s; split = refl; holds = h; bytes = w }

expiry_payload : ℕ → Option ℕ → Bytes
expiry_payload b none = []
expiry_payload b (some v) = to_be_bytes 8 v

expiry_of_flag-Parses :
    (b : ℕ)
    → Parses
        (expiry_of_flag b)
        (expiry_payload b)
        (λ o. IsExpiry o × (expiry_layout o ≡ b ∷ expiry_payload b o))
unfolding expiry_of_flag expiry_payload
expiry_of_flag-Parses zero r r' s none h w e =
    let moved : r ≡ r' = cc e in (subst (Takes [] s) moved (Takes-nil s r h w), (tt, refl))
expiry_of_flag-Parses zero r r' s (some v) h w e = cc e
expiry_of_flag-Parses (suc zero) r r' s o h w e =
    let (v, q, first, later) = >>=-eq-ok read_u64 _ r r' o e in
    let (t, small) = read_u64-Parses r q s v h w first in
    let same : some v ≡ o = cc later in
    let moved : q ≡ r' = cc later in
    subst
      (λ x.
        Takes (expiry_payload 1 x) s r' × (IsExpiry x × (expiry_layout x ≡ 1 ∷ expiry_payload 1 x)))
      same (subst (Takes (to_be_bytes 8 v) s) moved t, (small, refl))
expiry_of_flag-Parses (suc (suc b)) r r' s o h w e = cc e

pub read_expiry-Parses : Parses read_expiry expiry_layout IsExpiry
unfolding read_expiry
read_expiry-Parses =
    flagged expiry_of_flag expiry_layout IsExpiry expiry_payload expiry_of_flag-Parses

address_payload : ℕ → Option Bytes → Bytes
address_payload b none = []
address_payload b (some address) = bytes_layout address

address_of_flag-Parses :
    (b : ℕ)
    → Parses
        (address_of_flag b)
        (address_payload b)
        (λ o. IsAddress o × (address_layout o ≡ b ∷ address_payload b o))
unfolding address_of_flag address_payload
address_of_flag-Parses zero r r' s none h w e =
    let moved : r ≡ r' = cc e in (subst (Takes [] s) moved (Takes-nil s r h w), (tt, refl))
address_of_flag-Parses zero r r' s (some v) h w e = cc e
address_of_flag-Parses (suc zero) r r' s o h w e =
    let (v, q, first, later) =
      >>=-eq-ok (read_string max_address_bytes Field.sender_address) _ r r' o e in
    let (t, fits) = read_string-Parses max_address_bytes Field.sender_address r q s v h w first in
    let same : some v ≡ o = cc later in
    let moved : q ≡ r' = cc later in
    subst
      (λ x.
        Takes (address_payload 1 x) s r'
        × (IsAddress x × (address_layout x ≡ 1 ∷ address_payload 1 x)))
      same (subst (Takes (bytes_layout v) s) moved t, (fits, refl))
address_of_flag-Parses (suc (suc b)) r r' s o h w e = cc e

pub read_address-Parses : Parses read_address address_layout IsAddress
unfolding read_address
read_address-Parses =
    flagged address_of_flag address_layout IsAddress address_payload address_of_flag-Parses

-- After `finish` nothing is left.
pub finish_all :
    {A : Type 0} (a b : A) (r r' : Reader) (s : Bytes)
    → Holds r s
    → (finish >>= λ _. pure a) r ≡ ok (b, r')
    → (s ≡ []) × (a ≡ b)
unfolding finish
finish_all a b r r' [] h e = (refl, ground arith)
finish_all a b r r' (x ∷ s) h e = absurd (ground (arith, Holds-length r (x ∷ s) h))

new_reader_short :
    (input : Bytes) (kind : ℕ) (r : Reader) → length input < 5 → new_reader input kind ≡ ok r → ⊥
unfolding new_reader
new_reader_short input kind r short e = ground arith

new_reader_result :
    (v0 v1 s0 s1 k : ℕ) (rest : Bytes) (kind : ℕ) (r : Reader)
    → let input = v0 ∷ v1 ∷ s0 ∷ s1 ∷ k ∷ rest in
      new_reader input kind ≡ ok r
      → (length input ≤ max_body)
        × ((v0 * 256 + v1 ≡ 1) × (s0 * 256 + s1 ≡ 1) × (k ≡ kind))
        × (r ≡ record { input = input; offset = 5 })
unfolding new_reader from_be_bytes
new_reader_result v0 v1 s0 s1 k rest kind r e = ground arith

header_bytes :
    (v0 v1 s0 s1 k : ℕ) (rest : Bytes) (kind : ℕ)
    → IsByte v1
    → IsByte s1
    → (v0 * 256 + v1 ≡ 1) × (s0 * 256 + s1 ≡ 1) × (k ≡ kind)
    → v0 ∷ v1 ∷ s0 ∷ s1 ∷ k ∷ rest ≡ header_layout kind ++ rest
unfolding to_be_bytes
header_bytes v0 v1 s0 s1 k rest kind b0 b1 (ev, es, ek) =
    let a0 : v0 ≡ 0 = omega arith in
    let a1 : v1 ≡ 1 = omega arith in
    let c0 : s0 ≡ 0 = omega arith in let c1 : s1 ≡ 1 = omega arith in cc

-- An accepted frame starts with the header of its kind.
pub new_reader_ok :
    (input : Bytes) (kind : ℕ) (r : Reader)
    → All IsByte input
    → new_reader input kind ≡ ok r
    → (length input ≤ max_body)
      × (rest : Bytes) × (input ≡ header_layout kind ++ rest)
      × Holds r rest
      × All IsByte rest
new_reader_ok [] kind r w e = absurd (new_reader_short _ kind r (omega arith) e)
new_reader_ok (_ ∷ []) kind r w e = absurd (new_reader_short _ kind r (omega arith) e)
new_reader_ok (_ ∷ _ ∷ []) kind r w e = absurd (new_reader_short _ kind r (omega arith) e)
new_reader_ok (_ ∷ _ ∷ _ ∷ []) kind r w e = absurd (new_reader_short _ kind r (omega arith) e)
new_reader_ok (_ ∷ _ ∷ _ ∷ _ ∷ []) kind r w e = absurd (new_reader_short _ kind r (omega arith) e)
new_reader_ok (v0 ∷ v1 ∷ s0 ∷ s1 ∷ k ∷ rest) kind r w e =
    let (small, values, made) = new_reader_result v0 v1 s0 s1 k rest kind r e in
    (
      small,
      rest,
      header_bytes v0 v1 s0 s1 k rest kind w.1.0 w.1.1.1.0 values,
      subst (λ q. Holds q rest) (sym made)
          (record { next = refl; inside = omega arith; small = small }),
      w.1.1.1.1.1,
    )
