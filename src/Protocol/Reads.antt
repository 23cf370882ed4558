-- ===== src/Protocol/Reads.antt =====
-- The reader of codebase/relay-protocol/src/lib.rs as a parser: what its methods return when a
-- known layout comes next.
use safechat.Prelude.{
  ℕ, ◌+◌, ◌^◌, ◌≤◌, ◌<◌, ◌≡◌, refl, ap, sym, ◌∙◌, subst, Option, none, some, [], ◌∷◌, ◌++◌,
  append_assoc, append-nil, arith, ok, le→ltb, length, length-append, take as take_list,
  take-append, drop, drop-append, drop-drop, length-drop, as_u64, as_i64, IsI64, IsU64,
  as_i64-as_u64, as_u64-lt, ℤ,
}
use safechat.Prelude.Bytes.{
  Bytes, to_be_bytes, from_be_bytes, length-to_be_bytes, from_be_bytes-to_be_bytes,
}
use safechat.Prelude.Utf8.{IsText}
use safechat.Protocol.{max_body, max_address_bytes, Field, What}
use safechat.Protocol.Layout.{header_layout, bytes_layout, expiry_layout, address_layout}
use safechat.Protocol.Reader.{
  Reader, Read, pure, ◌>>=◌, take, get_range, read_u8, read_u32, read_u64, read_i64, read_bytes,
  read_string, expiry_of_flag, read_expiry, finish, address_of_flag, read_address, new_reader,
}

-- `rest` is what the reader has not read.
pub record Holds (r : Reader) (rest : Bytes) : Type 0 where
  pub next : drop r.offset r.input ≡ rest
  pub inside : r.offset ≤ length r.input
  pub small : length r.input ≤ max_body

abbrev pub advance : Reader → ℕ → Reader
advance r n = record r { offset = r.offset + n }

pub Holds-advance :
    (r : Reader) (xs rest : Bytes) → Holds r (xs ++ rest) → Holds (advance r (length xs)) rest
Holds-advance r xs rest h = record {
  next =
      sym (drop-drop r.offset (length xs) (r.offset + length xs) r.input (omega arith))
      ∙ (ap (drop (length xs)) h.next ∙ drop-append xs rest (length xs) refl);
  inside = omega (arith, Holds-length r (xs ++ rest) h, length-append xs rest);
  small = h.small;
}
  where
    Holds-length : (q : Reader) (ys : Bytes) → Holds q ys → q.offset + length ys ≡ length q.input
    Holds-length q ys k = omega (arith, ap length k.next, length-drop q.offset q.input)

pub Holds-length : (r : Reader) (xs : Bytes) → Holds r xs → r.offset + length xs ≡ length r.input
Holds-length r xs h = omega (arith, ap length h.next, length-drop r.offset r.input)

-- `p` takes `xs` off the front of any input, and returns `a`.
abbrev pub Reads : {A : Type 0} → Read A → Bytes → A → Type 0
Reads p xs a =
    (r : Reader) (rest : Bytes) → Holds r (xs ++ rest) → p r ≡ ok (a, advance r (length xs))

pub take-Reads : (xs : Bytes) (n : ℕ) (what : What) → length xs ≡ n → Reads (take n what) xs xs
unfolding take get_range
take-Reads xs n what e r rest h = ground (
  arith,
  Holds-length r (xs ++ rest) h,
  length-append xs rest,
  h.next,
  h.small,
  ap (take_list n) h.next,
  take-append xs rest n e,
)

pub Reads-bind :
    {A B : Type 0} (p : Read A) (f : A → Read B) (xs ys : Bytes) (a : A) {b : B}
    → Reads p xs a
    → Reads (f a) ys b
    → Reads (p >>= f) (xs ++ ys) b
Reads-bind p f xs ys a {b} hp hf r rest h =
    let h' : Holds r (xs ++ (ys ++ rest)) = subst (Holds r) (append_assoc xs ys rest) h in
    rw (hp r (ys ++ rest) h') (
      hf (advance r (length xs)) rest (Holds-advance r xs (ys ++ rest) h')
      ∙ ap (λ n. ok (b, record r { offset = n })) {x = r.offset + length xs + length ys}
          (omega (arith, length-append xs ys)))

pub pure-Reads : {A : Type 0} (a : A) → Reads (pure a) [] a
pure-Reads a r rest h = ap (λ n. ok (a, record r { offset = n })) {x = r.offset} (omega arith)

-- A last step that only computes on the value.
pub Reads-map :
    {A B : Type 0} (p : Read A) (g : A → B) (xs : Bytes) (a : A)
    → Reads p xs a
    → Reads (p >>= λ x. pure (g x)) xs (g a)
Reads-map p g xs a hp r rest h = rw (hp r rest h)

-- `p` takes `xs` when that is all that is left, and returns `a`.
abbrev pub ReadsAll : {A : Type 0} → Read A → Bytes → A → Type 0
ReadsAll p xs a = (r : Reader) → Holds r xs → p r ≡ ok (a, advance r (length xs))

pub ReadsAll-bind :
    {A B : Type 0} (p : Read A) (f : A → Read B) (xs ys : Bytes) (a : A) {b : B}
    → Reads p xs a
    → ReadsAll (f a) ys b
    → ReadsAll (p >>= f) (xs ++ ys) b
ReadsAll-bind p f xs ys a {b} hp hf r h = rw (hp r ys h) (
    hf (advance r (length xs)) (Holds-advance r xs ys h)
    ∙ ap (λ n. ok (b, record r { offset = n })) {x = r.offset + length xs + length ys}
        (omega (arith, length-append xs ys)))

finish-ReadsAll : {A : Type 0} (a : A) → ReadsAll (finish >>= λ _. pure a) [] a
unfolding finish
finish-ReadsAll a r h = ground (arith, Holds-length r [] h)

-- The last field, the test for trailing bytes and the value.
pub ReadsAll-finish :
    {A B : Type 0} (p : Read A) (g : A → B) (xs : Bytes) (a : A)
    → Reads p xs a
    → ReadsAll (p >>= λ x. finish >>= λ _. pure (g x)) xs (g a)
ReadsAll-finish p g xs a hp =
    subst (λ ys. ReadsAll (p >>= λ x. finish >>= λ _. pure (g x)) ys (g a)) (append-nil xs)
      (ReadsAll-bind p (λ x. finish >>= λ _. pure (g x)) xs [] a hp (finish-ReadsAll (g a)))

read_u8-Reads : (b : ℕ) → Reads read_u8 (b ∷ []) b
unfolding read_u8
read_u8-Reads b r rest h = rw (take-Reads (b ∷ []) 1 What.binary_field refl r rest h)

pub read_u32-Reads : (v : ℕ) → v < 2 ^ 32 → Reads read_u32 (to_be_bytes 4 v) v
unfolding read_u32
read_u32-Reads v h =
    subst (Reads read_u32 (to_be_bytes 4 v)) (from_be_bytes-to_be_bytes 4 v (omega arith)) (
      Reads-map (take 4 What.binary_u32) from_be_bytes (to_be_bytes 4 v) (to_be_bytes 4 v)
        (take-Reads (to_be_bytes 4 v) 4 What.binary_u32 (length-to_be_bytes 4 v)))

pub read_u64-Reads : (v : ℕ) → IsU64 v → Reads read_u64 (to_be_bytes 8 v) v
unfolding read_u64
read_u64-Reads v h =
    subst (Reads read_u64 (to_be_bytes 8 v)) (from_be_bytes-to_be_bytes 8 v (omega arith)) (
      Reads-map (take 8 What.binary_u64) from_be_bytes (to_be_bytes 8 v) (to_be_bytes 8 v)
        (take-Reads (to_be_bytes 8 v) 8 What.binary_u64 (length-to_be_bytes 8 v)))

pub read_i64-Reads : (z : ℤ) → IsI64 z → Reads read_i64 (to_be_bytes 8 (as_u64 z)) z
unfolding read_i64
read_i64-Reads z h =
    subst (Reads read_i64 (to_be_bytes 8 (as_u64 z)))
      (ap as_i64 (from_be_bytes-to_be_bytes 8 (as_u64 z) (omega (arith, as_u64-lt z h)))
        ∙ as_i64-as_u64 z h)
      (Reads-map (take 8 What.binary_i64) (λ v. as_i64 (from_be_bytes v)) (to_be_bytes 8 (as_u64 z))
        (to_be_bytes 8 (as_u64 z))
        (take-Reads (to_be_bytes 8 (as_u64 z)) 8 What.binary_i64 (length-to_be_bytes 8 (as_u64 z))))

pub read_bytes-Reads :
    (value : Bytes) (limit : ℕ) (f : Field)
    → length value ≤ limit
    → limit < 2 ^ 32
    → Reads (read_bytes limit f) (bytes_layout value) value
unfolding read_bytes
read_bytes-Reads value limit f fits small =
    Reads-bind read_u32 _ (to_be_bytes 4 (length value)) value (length value)
      (read_u32-Reads (length value) (omega arith))
      (rw (le→ltb limit (length value) fits) (take-Reads value (length value) (What.field f) refl))

pub read_string-Reads :
    (value : Bytes) (limit : ℕ) (f : Field)
    → length value ≤ limit
    → limit < 2 ^ 32
    → IsText value
    → Reads (read_string limit f) (bytes_layout value) value
unfolding read_string
read_string-Reads value limit f fits small text r rest h =
    rw (read_bytes-Reads value limit f fits small r rest h, text)

abbrev pub IsExpiry : Option ℕ → Type 0
IsExpiry none = Unit
IsExpiry (some v) = IsU64 v

pub read_expiry-Reads : (o : Option ℕ) → IsExpiry o → Reads read_expiry (expiry_layout o) o
unfolding read_expiry expiry_of_flag
read_expiry-Reads none h =
    Reads-bind read_u8 expiry_of_flag (0 ∷ []) [] 0 (read_u8-Reads 0) (pure-Reads none)
read_expiry-Reads (some v) h =
    Reads-bind read_u8 expiry_of_flag (1 ∷ []) (to_be_bytes 8 v) 1 (read_u8-Reads 1)
      (Reads-map read_u64 some (to_be_bytes 8 v) v (read_u64-Reads v h))

abbrev pub IsAddress : Option Bytes → Type 0
IsAddress none = Unit
IsAddress (some address) = (length address ≤ max_address_bytes) × IsText address

pub read_address-Reads : (o : Option Bytes) → IsAddress o → Reads read_address (address_layout o) o
unfolding read_address address_of_flag
read_address-Reads none h =
    Reads-bind read_u8 address_of_flag (0 ∷ []) [] 0 (read_u8-Reads 0) (pure-Reads none)
read_address-Reads (some address) h =
    Reads-bind read_u8 address_of_flag (1 ∷ []) (bytes_layout address) 1 (read_u8-Reads 1) (
      Reads-map (read_string max_address_bytes Field.sender_address) some (bytes_layout address)
        address
        (read_string-Reads address max_address_bytes Field.sender_address h.0 (omega arith) h.1))

-- A frame that starts with the header of its kind, and is not too long, is accepted.
pub new_reader-Holds :
    (kind : ℕ) (rest : Bytes)
    → length (header_layout kind ++ rest) ≤ max_body
    → (r : Reader) × (new_reader (header_layout kind ++ rest) kind ≡ ok r) × Holds r rest
unfolding new_reader to_be_bytes from_be_bytes
new_reader-Holds kind rest h = (
  record { input = header_layout kind ++ rest; offset = 5 },
  ground arith,
  record { next = refl; inside = omega arith; small = h },
)
