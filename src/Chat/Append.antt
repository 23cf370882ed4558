-- ===== src/Chat/Append.antt =====
-- codebase/application/src/chat_service.rs: that a poll only adds to the history.
use safechat.Prelude.{
  ◌≡◌, refl, sym, ap, ◌∙◌, ℤ, pos, negsuc, true, false, Option, none, some, List, [], ◌∷◌, ◌++◌,
  arith, leb_ℤ, Bool-cases, inl, inr,
}
use safechat.Prelude.Bytes.{Bytes, bytes_eq_comm}
use safechat.Prelude.Text.{parse_i64}
use safechat.History.{HistoryEntry, HistoryFile}
use safechat.Chat.{ChatService, World, any_id, has_id, advance_to}
use safechat.Chat.Poll.{poll}
use safechat.Chat.Rules.{SameButStatus, Updates, Stable, Keeps-poll}

-- The later entries begin with the earlier ones, in their order, each with its content unchanged;
-- only its delivery status may be another.
abbrev pub Continues : List HistoryEntry → List HistoryEntry → Type 0
Continues [] new = Unit
Continues (e ∷ es) [] = ⊥
Continues (e ∷ es) (e' ∷ es') = SameButStatus e e' × Continues es es'

-- No message id occurs twice.
abbrev pub Distinct : List HistoryEntry → Type 0
Distinct [] = Unit
Distinct (e ∷ es) = (any_id e.message_id es ≡ false) × Distinct es

-- What a history is to an earlier one.
abbrev pub Extends : HistoryFile → HistoryFile → Type 0
Extends before after =
    Continues before.entries after.entries
    × (Distinct before.entries → Distinct after.entries)
    × (leb_ℤ before.transport_cursor after.transport_cursor ≡ true)

Continues-refl : (es : List HistoryEntry) → Continues es es
Continues-refl [] = tt
Continues-refl (e ∷ es) = (refl, Continues-refl es)

Continues-append : (as' bs cs : List HistoryEntry) → Continues as' bs → Continues as' (bs ++ cs)
Continues-append [] bs cs h = tt
Continues-append (a ∷ as') [] cs h = absurd h
Continues-append (a ∷ as') (b ∷ bs) cs h = (h.0, Continues-append as' bs cs h.1)

SameButStatus-trans :
    (a b c : HistoryEntry) → SameButStatus a b → SameButStatus b c → SameButStatus a c
SameButStatus-trans a b c h k = cc

Continues-Updates :
    (as' bs cs : List HistoryEntry) → Continues as' bs → Updates bs cs → Continues as' cs
Continues-Updates [] bs cs h k = tt
Continues-Updates (a ∷ as') [] cs h k = absurd h
Continues-Updates (a ∷ as') (b ∷ bs) [] h k = absurd k
Continues-Updates (a ∷ as') (b ∷ bs) (c ∷ cs) h k =
    (SameButStatus-trans a b c h.0 k.0, Continues-Updates as' bs cs h.1 k.1)

any_id-Updates :
    (id : Bytes) (as' bs : List HistoryEntry) → Updates as' bs → any_id id as' ≡ any_id id bs
unfolding any_id
any_id-Updates id [] [] h = refl
any_id-Updates id [] (b ∷ bs) h = absurd h
any_id-Updates id (a ∷ as') [] h = absurd h
any_id-Updates id (a ∷ as') (b ∷ bs) h =
    let ids : a.message_id ≡ b.message_id = ap (λ (e : HistoryEntry). e.message_id) h.0 in
    rw (ids, any_id-Updates id as' bs h.1)

Distinct-Updates : (as' bs : List HistoryEntry) → Updates as' bs → Distinct as' → Distinct bs
Distinct-Updates [] [] h d = tt
Distinct-Updates [] (b ∷ bs) h d = absurd h
Distinct-Updates (a ∷ as') [] h d = absurd h
Distinct-Updates (a ∷ as') (b ∷ bs) h d =
    let ids : a.message_id ≡ b.message_id = ap (λ (e : HistoryEntry). e.message_id) h.0 in
    (
      sym (any_id-Updates b.message_id as' bs h.1) ∙ ap (λ id. any_id id as') (sym ids) ∙ d.0,
      Distinct-Updates as' bs h.1 d.1,
    )

any_id-push :
    (id : Bytes) (es : List HistoryEntry) (e : HistoryEntry)
    → any_id id es ≡ false
    → has_id id e ≡ false
    → any_id id (es ++ (e ∷ [])) ≡ false
unfolding any_id
any_id-push id [] e h k = rw k refl
any_id-push id (x ∷ es) e h k = ground (arith, any_id-push id es e)

leb_ℤ-refl : (z : ℤ) → leb_ℤ z z ≡ true
leb_ℤ-refl (pos n) = ground arith
leb_ℤ-refl (negsuc n) = ground arith

leb_ℤ-trans : (x y z : ℤ) → leb_ℤ x y ≡ true → leb_ℤ y z ≡ true → leb_ℤ x z ≡ true
leb_ℤ-trans (pos a) (pos b) (pos c) h k = ground arith
leb_ℤ-trans (pos a) (pos b) (negsuc c) h k = cc
leb_ℤ-trans (pos a) (negsuc b) z h k = cc
leb_ℤ-trans (negsuc a) y (pos c) h k = refl
leb_ℤ-trans (negsuc a) (pos b) (negsuc c) h k = cc
leb_ℤ-trans (negsuc a) (negsuc b) (negsuc c) h k = ground arith

advance_to-le : (cursor : ℤ) (o : Option ℤ) → leb_ℤ cursor (advance_to cursor o) ≡ true
unfolding advance_to
advance_to-le cursor none = leb_ℤ-refl cursor
advance_to-le cursor (some n) = elim (Bool-cases (leb_ℤ cursor n)) [
  | inl e ↦ rw e e
  | inr e ↦ rw e (leb_ℤ-refl cursor)
]

Distinct-push :
    (es : List HistoryEntry) (e : HistoryEntry)
    → any_id e.message_id es ≡ false
    → Distinct es
    → Distinct (es ++ (e ∷ []))
unfolding any_id
Distinct-push [] e h d = (refl, tt)
Distinct-push (x ∷ es) e h d =
    let apart : (has_id e.message_id x ≡ false) × (any_id e.message_id es ≡ false) = ground arith in
    (
      any_id-push x.message_id es e d.0 (bytes_eq_comm e.message_id x.message_id ∙ apart.0),
      Distinct-push es e apart.1 d.1,
    )

Extends-Stable : (before : HistoryFile) → Stable (Extends before)
Extends-Stable before = record {
  updated = λ h es u p. (
    Continues-Updates before.entries h.entries es p.0 u,
    λ d. Distinct-Updates h.entries es u (p.1 d),
    p.2,
  );
  pushed = λ h e new p. (
    Continues-append before.entries h.entries (e ∷ []) p.0,
    λ d. Distinct-push h.entries e new (p.1 d),
    p.2,
  );
  moved = λ h id p. (
    p.0,
    p.1,
    leb_ℤ-trans before.transport_cursor h.transport_cursor
        (advance_to h.transport_cursor (parse_i64 id)) p.2
        (advance_to-le h.transport_cursor (parse_i64 id)),
  );
}

module _ {S B T H : Type 0} (service : ChatService S B T H) where
  -- Whether a poll returns or fails, the history afterwards begins with the entries that it had
  -- before, in their order and unchanged but for their delivery statuses; a history in which no
  -- message id occurs twice stays one; and the cursor does not go back.
  pub poll-Extends :
      (peer : B) (relay_sender_id : Option Bytes) (w : World S T H)
      → Extends w.history (poll service peer relay_sender_id w).1.history
  poll-Extends peer relay_sender_id w =
      (Keeps-poll service (Extends w.history) (Extends-Stable w.history) peer relay_sender_id).at w
        (Continues-refl w.history.entries, λ d. d, leb_ℤ-refl w.history.transport_cursor)
