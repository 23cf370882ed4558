-- ===== src/Ui/Scroll.antt =====
-- codebase/slint-ui/src/ui_service: scrolling back through a conversation, the pages of the history
-- as the front end collects them.
use safechat.Prelude.{
  ℕ, zero, suc, ◌+◌, ◌-◌, ◌*◌, ◌≤◌, ◌≡◌, refl, sym, ap, ◌∙◌, true, false, none, some, List, [], ◌∷◌,
  ◌++◌, map, arith, ltb, length, drop, subst,
}
use safechat.Prelude.Bytes.{bytes_eq, codes}
use safechat.History.{HistoryFile, page}
use safechat.History.Paging.{page_joins, newest_page}
use safechat.Ui.State.{UiState, apply, apply_update}
use safechat.Ui.Chat.{history_page_size, render_entry, render_core_page}
use safechat.Ui.Service.{shown}

-- The front end after the history was opened and `k` older pages were asked for, each before the
-- cursor that the last one left.
unfoldable pub scroll : HistoryFile → ℕ → UiState → UiState
unfolding apply render_core_page page
scroll history zero state =
    apply
      (shown (render_core_page (page history none history_page_size)) (codes "Chat history loaded.")
        false)
      state
scroll history (suc k) state =
    let before = scroll history k state in
    apply
      (shown (render_core_page (page history (some before.history_cursor) history_page_size))
        (codes "Older messages loaded.") true)
      before

map-append : {A B : Type 0} (f : A → B) (xs ys : List A) → map f (xs ++ ys) ≡ map f xs ++ map f ys
map-append f [] ys = refl
map-append f (x ∷ xs) ys = ap (λ t. f x ∷ t) (map-append f xs ys)

-- What the state says of the history.
abbrev Shows : HistoryFile → ℕ → UiState → Type 0
Shows history cursor state =
    (state.messages ≡ map render_entry (drop cursor history.entries))
    × (state.history_cursor ≡ cursor)
    × (state.history_has_more ≡ ltb 0 cursor)

newest-Shows :
    (history : HistoryFile) (state : UiState)
    → Shows history (page history none 40).cursor (scroll history zero state)
unfolding scroll apply_update bytes_eq
newest-Shows history state = (ap (map render_entry) (newest_page history 40), refl, refl)

older-Shows :
    (history : HistoryFile) (k c : ℕ) (state : UiState)
    → c ≤ length history.entries
    → Shows history c (scroll history k state)
    → Shows history (page history (some c) 40).cursor (scroll history (suc k) state)
unfolding scroll apply_update bytes_eq
older-Shows history k c state bound (messages, cursor, more) =
    let older = page history (some c) 40 in
    rw cursor (
      ap (λ t. map render_entry older.entries ++ t) messages
          ∙ sym (map-append render_entry older.entries (drop c history.entries))
          ∙ ap (map render_entry) (page_joins history c 40 bound),
      refl,
      refl,
    )

-- The cursor after `k` older pages.
abbrev pub cursor_after : HistoryFile → ℕ → ℕ
cursor_after history k = length history.entries - 40 * (k + 1)

-- After `k` older pages the front end shows the rendered entries from one place to the end, each of
-- them once and in order: all but the oldest, of which there are 40 fewer with each page. The cursor
-- is that place, and more is offered unless it is the start.
pub scroll_shows :
    (history : HistoryFile) (k : ℕ) (state : UiState)
    → let after = scroll history k state in
      let cursor = length history.entries - 40 * (k + 1) in
      (after.messages ≡ map render_entry (drop cursor history.entries))
      × (after.history_cursor ≡ cursor)
      × (after.history_has_more ≡ ltb 0 cursor)
unfolding page
scroll_shows history zero state =
    let e : (page history none 40).cursor ≡ cursor_after history 0 = omega arith in
    subst (λ c. Shows history c (scroll history zero state)) e (newest-Shows history state)
scroll_shows history (suc k) state =
    let c = cursor_after history k in
    let e : (page history (some c) 40).cursor ≡ cursor_after history (suc k) = omega arith in
    subst (λ d. Shows history d (scroll history (suc k) state)) e
      (older-Shows history k c state (omega arith) (scroll_shows history k state))
