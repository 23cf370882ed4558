-- ===== src/Chat/Outbox.antt =====
-- codebase/application/src/chat_service.rs: that a message whose submission failed is submitted
-- again as it was.
use safechat.Prelude.{
  ◌≡◌, refl, if◌then◌else◌, true, false, Bool, List, [], ◌∷◌, ◌++◌, ok, err, none, inl, inr, ◌⊎◌,
  Result-cases, Bool-cases, ap,
}
use safechat.Prelude.Bytes.{Bytes, bytes_eq, bytes_eq_iff, codes}
use safechat.Prelude.Text.{trim}
use safechat.History.{HistoryEntry}
use safechat.Prelude.Programs.{◌>>=◌}
use safechat.Transport.{encode_text}
use safechat.Transport.RoundTrip.{Base64Laws, decode_text-trimmed}
use safechat.Chat.{ChatService, World, save, now, mark_sent, any_id, has_id}
use safechat.Chat.Send.{queued_entry, queue_and_submit, submit_and_mark, send_text}
use safechat.Chat.Poll.{outbox, retry, submit_decoded, after_submission}
use safechat.Chat.Durable.{with_queued}

prepended :
    {A : Type 0} (b : Bool) (x : A) (xs ys : List A)
    → (if b then x ∷ (xs ++ ys) else xs ++ ys) ≡ (if b then x ∷ xs else xs) ++ ys
prepended true x xs ys = refl
prepended false x xs ys = refl

outbox-append : (es fs : List HistoryEntry) → outbox (es ++ fs) ≡ outbox es ++ outbox fs
unfolding outbox
outbox-append [] fs = refl
outbox-append (e ∷ es) fs = rw (outbox-append es fs) (prepended _ _ (outbox es) (outbox fs))

-- The later entries are the earlier ones but for the first with this id, which is now sent; without
-- one they are the same.
abbrev pub Marked : Bytes → List HistoryEntry → List HistoryEntry → Type 0
Marked id before after =
    ((any_id id before ≡ false) × (after ≡ before))
    ⊎ ((first : List HistoryEntry) × (entry : HistoryEntry) × (others : List HistoryEntry) × (before
          ≡ first ++ (entry ∷ others))
        × (any_id id first ≡ false)
        × (entry.message_id ≡ id)
        × (after ≡ first ++ (record entry { delivery_status = codes "sent" } ∷ others)))

mark_sent-Marked : (id : Bytes) (es : List HistoryEntry) → Marked id es (mark_sent id es)
unfolding mark_sent any_id
mark_sent-Marked id [] = inl (refl, refl)
mark_sent-Marked id (e ∷ es) = elim (Bool-cases (has_id id e)) [
  | inl same ↦ rw same (inr ([], e, es, refl, refl, (bytes_eq_iff e.message_id id).0 same, refl))
  | inr other ↦ rw other (elim (mark_sent-Marked id es) [
    | inl (none_has, kept) ↦ inl (none_has, ap (λ r. e ∷ r) kept)
    | inr (first, entry, others, is, clear, has, marked) ↦
        inr (
          e ∷ first,
          entry,
          others,
          ap (λ r. e ∷ r) is,
          rw other clear,
          has,
          ap (λ r. e ∷ r) marked,
        )
  ])
]

module _ {S B T H : Type 0} (service : ChatService S B T H) where
  -- What a retry does to a world: the very submission; if it is accepted the first entry with this
  -- id is marked as sent, and otherwise nothing else changes.
  abbrev pub Resubmits : Bytes → Bytes → Bytes → World S T H → World S T H → Type 0
  Resubmits id recipient envelope v v' =
      let answer = service.transport.send recipient id envelope none v.transport in
      (v'.transport ≡ answer.1)
      × (((answer.0 ≡ ok tt) × Marked id v.history.entries v'.history.entries)
          ⊎ ((reason : Bytes) × (answer.0 ≡ err reason) × (v' ≡ record v { transport = answer.1 })))

  submitted-Resubmits :
      (id recipient envelope : Bytes) (v : World S T H)
      → Resubmits id recipient envelope v (submit_decoded service id recipient (ok envelope) v).1
  unfolding submit_decoded after_submission save ◌>>=◌
  submitted-Resubmits id recipient envelope v =
      elim (Result-cases (service.transport.send recipient id envelope none v.transport).0) [
        | inl (done, accepted) ↦
            rw accepted (refl, inl (refl, mark_sent-Marked id v.history.entries))
        | inr (reason, refused) ↦ rw refused (refl, inr (reason, refl, refl))
      ]

module _ {S B T H : Type 0} (service : ChatService S B T H) (laws : Base64Laws service.base64) where
  -- When a text was encrypted and saved and its submission fails, sending it fails, and the outbox of
  -- the history is the one of before and one message more. Retrying that one, in any later world,
  -- submits the same envelope to the same recipient with the same id: if it is accepted the first
  -- entry with that id becomes sent and no other changes, and otherwise nothing else changes.
  pub failed_send_retried :
      (peer encryption_peer : B) (recipient plaintext id envelope reason : Bytes)
      (w v : World S T H)
      → (service.signal.encrypt_message_for encryption_peer plaintext w.state).0 ≡ ok (id, envelope)
      → (service.history_store.save service.conversation
          (with_queued service peer recipient plaintext id envelope w)
          w.store).0
        ≡ ok tt
      → (service.transport.send recipient id envelope none w.transport).0 ≡ err reason
      → let (r, w') = send_text service peer encryption_peer recipient plaintext w in
        (r ≡ err reason)
        × ((queued : Bytes × Bytes × Bytes) × (outbox w'.history.entries
              ≡ outbox w.history.entries ++ (queued ∷ []))
            × Resubmits service id recipient envelope v (retry service queued v).1)
  unfolding send_text queue_and_submit save now submit_and_mark ◌>>=◌ outbox queued_entry retry
      bytes_eq
  failed_send_retried peer encryption_peer recipient plaintext id envelope reason w v made saved
        refused =
      let kept = trim (encode_text service.base64 envelope) in
      let back = decode_text-trimmed service.base64 laws envelope in
      rw (made, saved, refused)
        (
          refl,
          (
            (id, recipient, kept),
            outbox-append w.history.entries _,
            rw back (submitted-Resubmits service id recipient envelope v),
          ),
        )
