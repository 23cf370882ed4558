-- ===== src/History/Paging.antt =====
-- codebase/core/src/profile_store.rs: that pages of a history fit together.
use Prim.Native.Nat.{max, min}
use safechat.Prelude.{
  ℕ, zero, suc, ◌+◌, ◌-◌, ◌≤◌, ◌≡◌, refl, ap, ◌∙◌, sym, Option, none, some, List, [], ◌∷◌, ◌++◌,
  arith, length, drop, length-take, length-drop, take-append-drop, drop-drop, append-nil,
}
use safechat.History.{HistoryFile, page, page_end, slice}

-- The part from `start` on is the part up to `end` and the part from `end` on.
slice-drop :
    {A : Type 0} (start end : ℕ) (xs : List A)
    → start ≤ end
    → slice start end xs ++ drop end xs ≡ drop start xs
slice-drop start end xs h =
    ap (λ t. slice start end xs ++ t) (sym (drop-drop start (end - start) end xs (omega arith)))
    ∙ take-append-drop (end - start) (drop start xs)

length-slice :
    {A : Type 0} (start end : ℕ) (xs : List A)
    → start ≤ end
    → end ≤ length xs
    → length (slice start end xs) ≡ end - start
length-slice start end xs h k =
    omega (arith, length-take (end - start) (drop start xs), length-drop start xs)

drop-all : {A : Type 0} (n : ℕ) (xs : List A) → length xs ≤ n → drop n xs ≡ []
drop-all zero [] h = refl
drop-all zero (x ∷ xs) h = absurd (omega arith)
drop-all (suc n) [] h = refl
drop-all (suc n) (x ∷ xs) h = drop-all n xs (omega arith)

-- A page before a position no later than the end joins on to what follows that position.
pub page_joins :
    (history : HistoryFile) (before page_size : ℕ)
    → before ≤ length history.entries
    → let older = page history (some before) page_size in
      (older.entries ++ drop before history.entries ≡ drop older.cursor history.entries)
unfolding page
page_joins history before page_size within =
    let e : min before (length history.entries) ≡ before = omega arith in
    rw e (slice-drop (before - max page_size 1) before history.entries (omega arith))

-- The newest page joins on to nothing: it is the history from its cursor on.
pub newest_page :
    (history : HistoryFile) (page_size : ℕ)
    → let newest = page history none page_size in
      newest.entries ≡ drop newest.cursor history.entries
unfolding page
newest_page history page_size =
    let n = length history.entries in
    let e : min n n ≡ n = omega arith in
    rw e (
      sym (append-nil _)
      ∙ ap (λ t. slice (n - max page_size 1) n history.entries ++ t)
          (sym (drop-all n history.entries (omega arith)))
      ∙ slice-drop (n - max page_size 1) n history.entries (omega arith))

page_end-le :
    (history : HistoryFile) (before : Option ℕ) → page_end history before ≤ length history.entries
page_end-le history none = omega arith
page_end-le history (some before) = omega arith

-- A page ends where the one after it begins, or at the end of the history, and has as many entries
-- as were asked for, or all that there are.
pub page_full :
    (history : HistoryFile) (before : Option ℕ) (page_size : ℕ)
    → let shown = page history before page_size in
      (shown.cursor + length shown.entries ≡ page_end history before)
      × (length shown.entries ≡ min (max page_size 1) (page_end history before))
unfolding page
page_full history before page_size =
    let end = page_end history before in
    let start = end - max page_size 1 in
    let l = length-slice start end history.entries (omega arith) (page_end-le history before) in
    (omega (arith, l), omega (arith, l))
