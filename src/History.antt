-- ===== src/History.antt =====
-- codebase/core/src/profile_store.rs: the chat history of a conversation, its pages, and the
-- `HistoryStore` port, an interface that the chat service takes.
pub mod Paging
pub mod Files
use Prim.Native.Nat.{max, min}
use safechat.Prelude.{ℕ, ◌-◌, ℤ, pos, Bool, Option, none, some, List, [], ltb, length, take, drop}
use safechat.Prelude.Bytes.{Bytes}
use safechat.Prelude.Programs.{Program, pure, ◌>>=◌}

abbrev pub profile_version : ℕ
profile_version = 1

pub record HistoryEntry : Type 0 where
  pub timestamp : ℕ
  pub sender : Bytes
  pub text : Bytes
  pub message_id : Bytes
  pub peer : Bytes
  pub ciphertext : Bytes
  pub delivery_status : Bytes
  pub transport_recipient : Bytes

pub record HistoryFile : Type 0 where
  pub version : ℕ
  pub entries : List HistoryEntry
  pub transport_cursor : ℤ

unfoldable pub empty : HistoryFile
empty = record { version = profile_version; entries = []; transport_cursor = pos 0 }

unfoldable pub new_history : List HistoryEntry → HistoryFile
unfolding empty
new_history entries = record empty { entries = entries }

unfoldable pub with_transport_cursor : HistoryFile → ℤ → HistoryFile
with_transport_cursor history cursor = record history { transport_cursor = cursor }

unfoldable pub new_entry : ℕ → Bytes → Bytes → HistoryEntry
new_entry timestamp sender text = record {
  timestamp = timestamp;
  sender = sender;
  text = text;
  message_id = [];
  peer = [];
  ciphertext = [];
  delivery_status = [];
  transport_recipient = [];
}

unfoldable pub with_message_id : HistoryEntry → Bytes → HistoryEntry
with_message_id entry id = record entry { message_id = id }

unfoldable pub with_peer : HistoryEntry → Bytes → HistoryEntry
with_peer entry peer = record entry { peer = peer }

unfoldable pub with_ciphertext : HistoryEntry → Bytes → HistoryEntry
with_ciphertext entry ciphertext = record entry { ciphertext = ciphertext }

unfoldable pub with_delivery_status : HistoryEntry → Bytes → HistoryEntry
with_delivery_status entry status = record entry { delivery_status = status }

unfoldable pub with_transport_recipient : HistoryEntry → Bytes → HistoryEntry
with_transport_recipient entry recipient = record entry { transport_recipient = recipient }

pub record HistoryPage : Type 0 where
  pub entries : List HistoryEntry
  pub cursor : ℕ
  pub has_more : Bool
  pub transport_cursor : ℤ

-- `entries[start..end]`
abbrev pub slice : {A : Type 0} → ℕ → ℕ → List A → List A
slice start end xs = take (end - start) (drop start xs)

abbrev pub page_end : HistoryFile → Option ℕ → ℕ
page_end history none = min (length history.entries) (length history.entries)
page_end history (some before) = min before (length history.entries)

-- `saturating_sub` is subtraction that stops at 0.
unfoldable pub page : HistoryFile → Option ℕ → ℕ → HistoryPage
page history before page_size =
    let end = page_end history before in
    let start = end - max page_size 1 in
    record {
      entries = slice start end history.entries;
      cursor = start;
      has_more = ltb 0 start;
      transport_cursor = history.transport_cursor;
    }

-- The port, on a store `S`.
pub record HistoryStore (S : Type 0) : Type 0 where
  pub load : Bytes → Program S HistoryFile
  pub save : Bytes → HistoryFile → Program S (Unit {0})

-- The default `delete` and `load_page` of the port.
module _ {S : Type 0} (port : HistoryStore S) where
  unfoldable pub delete_by_default : Bytes → Program S (Unit {0})
  unfolding empty
  delete_by_default conversation = port.save conversation empty

  unfoldable pub load_page : Bytes → Option ℕ → ℕ → Program S HistoryPage
  unfolding page ◌>>=◌
  load_page conversation before page_size = do
    history ← port.load conversation
    pure (page history before page_size)
