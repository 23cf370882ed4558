-- ===== src/Relay/Messages/Keys.antt =====
-- The unique key of a stored message, (sender, recipient, client_message_id).
use safechat.Prelude.{◌≡◌, refl, Bool, false, none, List, [], ◌∷◌, ◌++◌, arith}
use safechat.Prelude.Bytes.{bytes_eq_iff}
use safechat.Relay.{MessageRow}
use safechat.Relay.Sql.{delete, update, exists, exists-append, query_row}
use safechat.Relay.Messages.{is_message}

-- The rows with the key of `m`.
abbrev pub same_key : MessageRow → MessageRow → Bool
same_key m = is_message m.sender m.recipient m.client_message_id

-- No two rows have one key.
abbrev pub Unique : List MessageRow → Type 0
Unique [] = Unit
Unique (m ∷ ms) = (exists (same_key m) ms ≡ false) × Unique ms

pub query_row-none :
    {A : Type 0} (p : A → Bool) (xs : List A) → query_row p xs ≡ none → exists p xs ≡ false
unfolding query_row exists
query_row-none p [] e = refl
query_row-none p (x ∷ xs) e = ground (arith, query_row-none p xs)

same_key_comm : (m n : MessageRow) → same_key m n ≡ false → same_key n m ≡ false
same_key_comm m n h = ground (
  arith,
  bytes_eq_iff m.sender n.sender,
  bytes_eq_iff n.sender m.sender,
  bytes_eq_iff m.recipient n.recipient,
  bytes_eq_iff n.recipient m.recipient,
  bytes_eq_iff m.client_message_id n.client_message_id,
  bytes_eq_iff n.client_message_id m.client_message_id,
)

pub Unique-append :
    (ms : List MessageRow) (row : MessageRow)
    → exists (same_key row) ms ≡ false
    → Unique ms
    → Unique (ms ++ (row ∷ []))
unfolding exists
Unique-append [] row e u = (refl, tt)
Unique-append (m ∷ ms) row e u = (
  ground (arith, exists-append (same_key m) ms (row ∷ []), same_key_comm row m),
  Unique-append ms row (ground arith) u.1,
)

pub exists_false-delete :
    {A : Type 0} (p d : A → Bool) (xs : List A)
    → exists p xs ≡ false
    → exists p (delete d xs) ≡ false
unfolding exists delete
exists_false-delete p d [] e = e
exists_false-delete p d (x ∷ xs) e = ground (arith, exists_false-delete p d xs)

pub Unique-delete :
    (d : MessageRow → Bool) (ms : List MessageRow) → Unique ms → Unique (delete d ms)
unfolding delete
Unique-delete d [] u = tt
Unique-delete d (m ∷ ms) u =
    ground (arith, exists_false-delete (same_key m) d ms u.0, Unique-delete d ms u.1)

pub exists-update :
    {A : Type 0} (p q : A → Bool) (f : A → A) (xs : List A)
    → ((x : A) → p (f x) ≡ p x)
    → exists p (update q f xs) ≡ exists p xs
unfolding exists update
exists-update p q f [] same = refl
exists-update p q f (x ∷ xs) same = ground (arith, same x, exists-update p q f xs same)

exists-cong :
    {A : Type 0} (p q : A → Bool) (xs : List A) → ((x : A) → p x ≡ q x) → exists p xs ≡ exists q xs
unfolding exists
exists-cong p q [] same = refl
exists-cong p q (x ∷ xs) same = ground (arith, same x, exists-cong p q xs same)

-- An update that leaves the key alone.
abbrev pub LeavesKey : (MessageRow → MessageRow) → Type 0
LeavesKey f =
    (m : MessageRow)
    → ((f m).sender ≡ m.sender)
      × ((f m).recipient ≡ m.recipient)
      × ((f m).client_message_id ≡ m.client_message_id)

pub Unique-update :
    (q : MessageRow → Bool) (f : MessageRow → MessageRow) (ms : List MessageRow)
    → LeavesKey f
    → Unique ms
    → Unique (update q f ms)
unfolding update
Unique-update q f [] same u = tt
Unique-update q f (m ∷ ms) same u =
    let rest = Unique-update q f ms same u.1 in
    let key_of : (x : MessageRow) → same_key (f m) x ≡ same_key m x =
      λ x. cc ((same m).0, (same m).1, (same m).2) in
    let key_in : (x : MessageRow) → same_key m (f x) ≡ same_key m x =
      λ x. cc ((same x).0, (same x).1, (same x).2) in
    let untouched = exists-update (same_key m) q f ms key_in in
    let touched = exists-cong (same_key (f m)) (same_key m) (update q f ms) key_of in
    ground (arith, u.0, rest, untouched, touched)
