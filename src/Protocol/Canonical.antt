-- ===== src/Protocol/Canonical.antt =====
-- The decoders of codebase/relay-protocol/src/lib.rs, from what they accept back to the encoders.
use safechat.Prelude.{
  ℕ, zero, suc, ◌+◌, ◌^◌, ◌≤◌, ◌<◌, ◌≡◌, refl, ap, sym, ◌∙◌, subst, Option, none, some, List, [],
  ◌∷◌, ◌++◌, append-nil, append_assoc, arith, Result, ok, err, ◌>>◌, bail_if, ltb, le→ltb, length,
  All, as_u64,
}
use safechat.Prelude
use safechat.Prelude.Bytes.{Bytes, IsByte, to_be_bytes}
use safechat.Prelude.Utf8.{IsText}
use safechat.Protocol.{
  kind_submit, kind_messages, max_messages, max_body, max_recipient_bytes, max_message_id_bytes,
  max_address_bytes, max_ciphertext_bytes, Submit, Message, Field, Error,
}
use safechat.Protocol.Writer.{encode_submit, encode_messages}
use safechat.Protocol.Layout.{
  header_layout, submit_layout, submit_payload, message_layout, messages_payload, messages_layout,
  messages_check, message_check, address_check, encode_submit-layout, encode_messages-layout,
}
use safechat.Protocol.Reader.{
  Reader, pure, read_bytes, read_string, read_expiry, read_submit, decode_submit, read_message,
  read_messages, read_counted, decode_messages, read_i64, read_u64, read_u32, read_address,
  new_reader,
}
use safechat.Protocol.Reads.{Holds, IsAddress}
use safechat.Protocol.Parses.{
  Takes, Takes-append, >>=-eq-ok, bail_if_ok, finish_all, new_reader_ok, read_bytes-Parses,
  read_string-Parses, read_expiry-Parses, read_address-Parses, read_i64-Parses, read_u64-Parses,
  read_u32-Parses,
}
use safechat.Protocol.RoundTrip.{IsSubmit, SubmitFits, IsMessage}

read_submit-All :
    (r r' : Reader) (s : Bytes) (v : Submit)
    → Holds r s
    → All IsByte s
    → read_submit r ≡ ok (v, r')
    → (s ≡ submit_payload v)
      × IsSubmit v
      × (length v.recipient ≤ max_recipient_bytes)
      × (length v.message_id ≤ max_message_id_bytes)
      × (length v.ciphertext ≤ max_ciphertext_bytes)
unfolding read_submit
read_submit-All r r' s v h w e =
    let (x1, q1, e1, l1) = >>=-eq-ok (read_string max_recipient_bytes Field.recipient) _ r r' v e in
    let (t1, p1) = read_string-Parses max_recipient_bytes Field.recipient r q1 s x1 h w e1 in
    let (x2, q2, e2, l2) =
      >>=-eq-ok (read_string max_message_id_bytes Field.message_id) _ q1 r' v l1 in
    let (t2, p2) =
      read_string-Parses max_message_id_bytes Field.message_id q1 q2 t1.rest x2 t1.holds t1.bytes
        e2 in
    let (x3, q3, e3, l3) = >>=-eq-ok read_expiry _ q2 r' v l2 in
    let (t3, p3) = read_expiry-Parses q2 q3 t2.rest x3 t2.holds t2.bytes e3 in
    let (x4, q4, e4, l4) =
      >>=-eq-ok (read_bytes max_ciphertext_bytes Field.ciphertext) _ q3 r' v l3 in
    let (t4, p4) =
      read_bytes-Parses max_ciphertext_bytes Field.ciphertext q3 q4 t3.rest x4 t3.holds t3.bytes
        e4 in
    let (none_left, made) = finish_all _ v q4 r' t4.rest t4.holds l4 in
    let value : Submit = record {
      recipient = x1;
      message_id = x2;
      expires_at = x3;
      ciphertext = x4;
    } in
    let whole : s ≡ submit_payload value =
      rw (t1.split, t2.split, t3.split, t4.split, none_left, append-nil) in
    subst
      (λ u.
        (s ≡ submit_payload u)
        × IsSubmit u
        × (length u.recipient ≤ max_recipient_bytes)
        × (length u.message_id ≤ max_message_id_bytes)
        × (length u.ciphertext ≤ max_ciphertext_bytes))
      made
      (
        whole,
        record { recipient_text = p1.1; message_id_text = p2.1; expiry_u64 = p3 },
        p1.0,
        p2.0,
        p4,
      )

encode_submit_fits : (v : Submit) → SubmitFits v → encode_submit v ≡ ok (submit_layout v)
encode_submit_fits v f = ground (arith, encode_submit-layout v)

-- A frame that `decode_submit` accepts holds a well-formed submission, and is the very frame that
-- `encode_submit` writes for it.
pub encode_submit-decode_submit :
    (frame : Bytes) (v : Submit)
    → All IsByte frame
    → decode_submit frame ≡ ok v
    → IsSubmit v × (encode_submit v ≡ ok frame)
unfolding decode_submit
encode_submit-decode_submit frame v w e =
    let (r, made, l1) = Prelude.>>=-eq-ok (new_reader frame kind_submit) _ e in
    let (ur, got, l2) = Prelude.>>=-eq-ok (read_submit r) _ l1 in
    let (small, rest, split, holds, bytes) = new_reader_ok frame kind_submit r w made in
    let (payload, text, f1, f2, f3) = read_submit-All r ur.1 rest ur.0 holds bytes got in
    let is_frame : frame ≡ submit_layout ur.0 =
      split ∙ ap (λ z. header_layout kind_submit ++ z) payload in
    let fits : SubmitFits ur.0 = record {
      recipient_fits = f1;
      message_id_fits = f2;
      ciphertext_fits = f3;
      body_fits = subst (λ z. length z ≤ max_body) is_frame small;
    } in
    subst (λ x. IsSubmit x × (encode_submit x ≡ ok frame)) (cc l2)
      (text, encode_submit_fits ur.0 fits ∙ ap ok (sym is_frame))

IsAddress-check : (o : Option Bytes) → IsAddress o → address_check o ≡ ok tt
IsAddress-check none h = refl
IsAddress-check (some a) h = ground arith

IsAddress-IsText : (o : Option Bytes) → IsAddress o → (a : Bytes) → o ≡ some a → IsText a
IsAddress-IsText none h a e = cc
IsAddress-IsText (some b) h a e = subst IsText (cc e) h.1

message_check_ok :
    (m : Message)
    → length m.sender ≤ max_address_bytes
    → address_check m.sender_address ≡ ok tt
    → length m.message_id ≤ max_message_id_bytes
    → length m.ciphertext ≤ max_ciphertext_bytes
    → message_check m ≡ ok tt
message_check_ok m h1 h2 h3 h4 = ground arith

pure_ok : {A : Type 0} (a b : A) (q r : Reader) → pure a q ≡ ok (b, r) → (a ≡ b) × (q ≡ r)
pure_ok a b q r e = (cc e, cc e)

-- What has been found out about a message that was read.
record Found (s : Bytes) (r : Reader) (m : Message) : Type 0 where
  taken : Takes (message_layout m) s r
  typed : IsMessage m
  checked : message_check m ≡ ok tt

read_message-Found :
    (r r' : Reader) (s : Bytes) (m : Message)
    → Holds r s
    → All IsByte s
    → read_message r ≡ ok (m, r')
    → Found s r' m
unfolding read_message
read_message-Found r r' s m h w e =
    let (x1, q1, e1, l1) = >>=-eq-ok read_i64 _ r r' m e in
    let (t1, p1) = read_i64-Parses r q1 s x1 h w e1 in
    let (x2, q2, e2, l2) = >>=-eq-ok (read_string max_address_bytes Field.sender) _ q1 r' m l1 in
    let (t2, p2) =
      read_string-Parses max_address_bytes Field.sender q1 q2 t1.rest x2 t1.holds t1.bytes e2 in
    let (x3, q3, e3, l3) = >>=-eq-ok read_address _ q2 r' m l2 in
    let (t3, p3) = read_address-Parses q2 q3 t2.rest x3 t2.holds t2.bytes e3 in
    let (x4, q4, e4, l4) =
      >>=-eq-ok (read_string max_message_id_bytes Field.message_id) _ q3 r' m l3 in
    let (t4, p4) =
      read_string-Parses max_message_id_bytes Field.message_id q3 q4 t3.rest x4 t3.holds t3.bytes
        e4 in
    let (x5, q5, e5, l5) = >>=-eq-ok read_u64 _ q4 r' m l4 in
    let (t5, p5) = read_u64-Parses q4 q5 t4.rest x5 t4.holds t4.bytes e5 in
    let (x6, q6, e6, l6) = >>=-eq-ok read_expiry _ q5 r' m l5 in
    let (t6, p6) = read_expiry-Parses q5 q6 t5.rest x6 t5.holds t5.bytes e6 in
    let (x7, q7, e7, l7) =
      >>=-eq-ok (read_bytes max_ciphertext_bytes Field.ciphertext) _ q6 r' m l6 in
    let (t7, p7) =
      read_bytes-Parses max_ciphertext_bytes Field.ciphertext q6 q7 t6.rest x7 t6.holds t6.bytes
        e7 in
    let value : Message = record {
      server_id = x1;
      sender = x2;
      sender_address = x3;
      message_id = x4;
      accepted_at = x5;
      expires_at = x6;
      ciphertext = x7;
    } in
    let (same, moved) = pure_ok value m q7 r' l7 in
    let taken : Takes (message_layout value) s q7 = Takes-append _ _ s q1 q7 t1 (
      Takes-append _ _ t1.rest q2 q7 t2 (
        Takes-append _ _ t2.rest q3 q7 t3 (
          Takes-append _ _ t3.rest q4 q7 t4
            (Takes-append _ _ t4.rest q5 q7 t5 (Takes-append _ _ t5.rest q6 q7 t6 t7))))) in
    subst (λ u. Found s u m) moved
      (subst (Found s q7) same (record {
        taken = taken;
        typed = record {
          server_id_i64 = p1;
          sender_text = p2.1;
          address_text = IsAddress-IsText x3 p3;
          message_id_text = p4.1;
          accepted_u64 = p5;
          expiry_u64 = p6;
        };
        checked = message_check_ok value p2.0 (IsAddress-check x3 p3) p4.0 p7;
      }))

read_messages_found :
    (n : ℕ) (r r' : Reader) (s : Bytes) (ms : List Message)
    → Holds r s
    → All IsByte s
    → read_messages n r ≡ ok (ms, r')
    → Takes (messages_payload ms) s r'
      × All IsMessage ms
      × (messages_check ms ≡ ok tt)
      × (length ms ≡ n)
unfolding read_messages
read_messages_found zero r r' s [] h w e = (
  subst (Takes [] s) (cc e) (record { rest = s; split = refl; holds = h; bytes = w }),
  tt,
  refl,
  refl,
)
read_messages_found zero r r' s (m ∷ ms) h w e = cc e
read_messages_found (suc n) r r' s ms h w e =
    let (x, q, e1, l1) = >>=-eq-ok read_message _ r r' ms e in
    let found = read_message-Found r q s x h w e1 in
    let t = found.taken in
    let (xs, q', e2, l2) = >>=-eq-ok (read_messages n) _ q r' ms l1 in
    let (u, typed, checked, len) = read_messages_found n q q' t.rest xs t.holds t.bytes e2 in
    let same : x ∷ xs ≡ ms = cc l2 in
    let moved : q' ≡ r' = cc l2 in
    subst
      (λ v.
        Takes (messages_payload ms) s v
        × All IsMessage ms
        × (messages_check ms ≡ ok tt)
        × (length ms ≡ suc n))
      moved
      (subst
        (λ ys.
          Takes (messages_payload ys) s q'
          × All IsMessage ys
          × (messages_check ys ≡ ok tt)
          × (length ys ≡ suc n))
        same
        (
          Takes-append (message_layout x) (messages_payload xs) s q q' t u,
          (found.typed, typed),
          rw (found.checked) checked,
          omega arith,
        ))

encode_messages_fits :
    (ms : List Message)
    → length ms ≤ max_messages
    → messages_check ms ≡ ok tt
    → length (messages_layout ms) ≤ max_body
    → encode_messages ms ≡ ok (messages_layout ms)
encode_messages_fits ms few checked fits = ground (arith, encode_messages-layout ms)

read_counted-All :
    (r r' : Reader) (s : Bytes) (ms : List Message)
    → Holds r s
    → All IsByte s
    → read_counted r ≡ ok (ms, r')
    → (s ≡ to_be_bytes 4 (length ms) ++ messages_payload ms)
      × All IsMessage ms
      × (messages_check ms ≡ ok tt)
      × (length ms ≤ max_messages)
unfolding read_counted
read_counted-All r r' s ms h w e =
    let (n, q1, e1, l1) = >>=-eq-ok read_u32 _ r r' ms e in
    let (t1, _) = read_u32-Parses r q1 s n h w e1 in
    let (few, l2) = bail_if_ok (ltb max_messages n) Error.too_many_messages q1 r' _ ms l1 in
    let (xs, q2, e2, l3) = >>=-eq-ok (read_messages n) _ q1 r' ms l2 in
    let (t2, typed, checked, len) = read_messages_found n q1 q2 t1.rest xs t1.holds t1.bytes e2 in
    let (none_left, same) = finish_all xs ms q2 r' t2.rest t2.holds l3 in
    let split : s ≡ to_be_bytes 4 (length xs) ++ messages_payload xs =
      rw (t1.split, t2.split, none_left, append-nil, len) in
    subst
      (λ ys.
        (s ≡ to_be_bytes 4 (length ys) ++ messages_payload ys)
        × All IsMessage ys
        × (messages_check ys ≡ ok tt)
        × (length ys ≤ max_messages))
      same (split, typed, checked, rw len (ground arith))

-- A frame that `decode_messages` accepts holds well-formed messages, and is the very frame that
-- `encode_messages` writes for them.
pub encode_messages-decode_messages :
    (frame : Bytes) (ms : List Message)
    → All IsByte frame
    → decode_messages frame ≡ ok ms
    → All IsMessage ms × (encode_messages ms ≡ ok frame)
unfolding decode_messages
encode_messages-decode_messages frame ms w e =
    let (r, made, l1) = Prelude.>>=-eq-ok (new_reader frame kind_messages) _ e in
    let (ur, got, l2) = Prelude.>>=-eq-ok (read_counted r) _ l1 in
    let (small, rest, split, holds, bytes) = new_reader_ok frame kind_messages r w made in
    let (payload, typed, checked, few) = read_counted-All r ur.1 rest ur.0 holds bytes got in
    let is_frame : frame ≡ messages_layout ur.0 =
      split ∙ ap (λ z. header_layout kind_messages ++ z) payload in
    subst (λ x. All IsMessage x × (encode_messages x ≡ ok frame)) (cc l2)
      (
        typed,
        encode_messages_fits ur.0 few checked (subst (λ z. length z ≤ max_body) is_frame small)
            ∙ ap ok (sym is_frame),
      )
