-- ===== src/Relay/Messages/Ids.antt =====
-- The `server_id` of stored messages: codebase/relay/src/messages.rs relies on their order for the
-- cursor of `receive`.
use safechat.Prelude.{ℕ, ◌≤◌, ◌<◌, ◌≡◌, Bool, List, [], ◌∷◌, ◌++◌, arith}
use safechat.Relay.{MessageRow}
use safechat.Relay.Sql.{delete, update, select}

-- The ids rise strictly along the rows, from above `low` up to `high` at most.
abbrev pub Ascends : ℕ → List MessageRow → ℕ → Type 0
Ascends low [] high = low ≤ high
Ascends low (m ∷ ms) high = (low < m.server_id) × Ascends m.server_id ms high

pub Ascends-append :
    (low : ℕ) (ms : List MessageRow) (high : ℕ) (row : MessageRow)
    → Ascends low ms high
    → high < row.server_id
    → Ascends low (ms ++ (row ∷ [])) row.server_id
Ascends-append low [] high row h lt = omega arith
Ascends-append low (m ∷ ms) high row h lt = (h.0, Ascends-append m.server_id ms high row h.1 lt)

pub Ascends-lower :
    (low low' : ℕ) (ms : List MessageRow) (high : ℕ)
    → low' ≤ low
    → Ascends low ms high
    → Ascends low' ms high
Ascends-lower low low' [] high le h = omega arith
Ascends-lower low low' (m ∷ ms) high le h = (omega arith, h.1)

pub Ascends-delete :
    (p : MessageRow → Bool) (low : ℕ) (ms : List MessageRow) (high : ℕ)
    → Ascends low ms high
    → Ascends low (delete p ms) high
unfolding delete
Ascends-delete p low [] high h = h
Ascends-delete p low (m ∷ ms) high h = ground (
  arith,
  Ascends-delete p m.server_id ms high h.1,
  Ascends-lower m.server_id low (delete p ms) high,
)

pub Ascends-update :
    (p : MessageRow → Bool) (f : MessageRow → MessageRow) (low : ℕ) (ms : List MessageRow)
    (high : ℕ)
    → ((m : MessageRow) → (f m).server_id ≡ m.server_id)
    → Ascends low ms high
    → Ascends low (update p f ms) high
unfolding update
Ascends-update p f low [] high same h = h
Ascends-update p f low (m ∷ ms) high same h =
    ground (arith, same m, Ascends-update p f m.server_id ms high same h.1)

pub Ascends-select :
    (p : MessageRow → Bool) (low : ℕ) (ms : List MessageRow) (high : ℕ)
    → Ascends low ms high
    → Ascends low (select p ms) high
unfolding select
Ascends-select p low [] high h = h
Ascends-select p low (m ∷ ms) high h = ground (
  arith,
  Ascends-select p m.server_id ms high h.1,
  Ascends-lower m.server_id low (select p ms) high,
)
