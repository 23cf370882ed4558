-- ===== src/Protocol/Tests.antt =====
-- Runs of the codec on small frames, and its theorems at concrete inputs.
use safechat.Prelude.{
  ◌≡◌, refl, none, some, [], ◌∷◌, arith, ok, ◌>>◌, bail_if, ltb, length, All, negsuc, as_u64,
  as_i64,
}
use safechat.Prelude.Bytes.{Bytes, codes, to_be_bytes, from_be_bytes, be_from}
use safechat.Prelude.Utf8.{is_utf8, utf8_from, lead}
use safechat.Protocol.{
  Submit, Message, Error, Field, max_recipient_bytes, max_message_id_bytes, max_ciphertext_bytes,
  max_messages, max_body,
}
use safechat.Protocol.Writer.{
  encode_submit, encode_messages, header, put_bytes, put_string, put_expiry, check_body,
  put_address, put_message, put_messages,
}
use safechat.Protocol.Reader.{
  decode_submit, decode_messages, new_reader, get_range, take, read_u8, read_u32, read_u64,
  read_i64, read_bytes, read_string, expiry_of_flag, read_expiry, finish, read_submit,
  address_of_flag, read_address, read_message, read_messages, read_counted,
}
use safechat.Protocol.Layout.{
  submit_layout, messages_layout, messages_check, encode_submit-layout, encode_messages-layout,
}
use safechat.Protocol.RoundTrip.{
  IsSubmit, IsMessage, decode_submit-encode_submit, decode_messages-encode_messages,
}
use safechat.Protocol.Canonical.{encode_submit-decode_submit, encode_messages-decode_messages}

abbrev greeting : Submit
greeting = record {
  recipient = codes "r";
  message_id = codes "m";
  expires_at = some 7;
  ciphertext = 0 ∷ 1 ∷ 255 ∷ [];
}

abbrev greeting_frame : Bytes
greeting_frame =
    0 ∷ 1 ∷ 0 ∷ 1 ∷ 1 ∷ 0 ∷ 0 ∷ 0 ∷ 1 ∷ 114 ∷ 0 ∷ 0 ∷ 0 ∷ 1 ∷ 109 ∷ 1 ∷ 0 ∷ 0 ∷ 0 ∷ 0 ∷ 0 ∷ 0 ∷ 0
    ∷ 7 ∷ 0 ∷ 0 ∷ 0 ∷ 3 ∷ 0 ∷ 1 ∷ 255 ∷ []

abbrev unread : Message
unread = record {
  server_id = negsuc 1;
  sender = codes "s";
  sender_address = some (codes "a");
  message_id = codes "m";
  accepted_at = 9;
  expires_at = none;
  ciphertext = 5 ∷ [];
}

abbrev unread_frame : Bytes
unread_frame =
    0 ∷ 1 ∷ 0 ∷ 1 ∷ 2 ∷ 0 ∷ 0 ∷ 0 ∷ 1 ∷ 255 ∷ 255 ∷ 255 ∷ 255 ∷ 255 ∷ 255 ∷ 255 ∷ 254 ∷ 0 ∷ 0 ∷ 0
    ∷ 1 ∷ 115 ∷ 1 ∷ 0 ∷ 0 ∷ 0 ∷ 1 ∷ 97 ∷ 0 ∷ 0 ∷ 0 ∷ 1 ∷ 109 ∷ 0 ∷ 0 ∷ 0 ∷ 0 ∷ 0 ∷ 0 ∷ 0 ∷ 9 ∷ 0 ∷ 0
    ∷ 0 ∷ 0 ∷ 1 ∷ 5 ∷ []

encode_greeting : encode_submit greeting ≡ ok greeting_frame
unfolding encode_submit header put_string put_bytes put_expiry check_body to_be_bytes
encode_greeting = refl

decode_greeting : decode_submit greeting_frame ≡ ok greeting
unfolding decode_submit new_reader read_submit read_string read_bytes read_expiry expiry_of_flag
    read_u8 read_u32 read_u64 take get_range finish is_utf8 utf8_from lead from_be_bytes be_from
decode_greeting = refl

encode_unread : encode_messages (unread ∷ []) ≡ ok unread_frame
unfolding encode_messages put_messages put_message put_address header put_string put_bytes
    put_expiry check_body to_be_bytes as_u64
encode_unread = refl

decode_unread : decode_messages unread_frame ≡ ok (unread ∷ [])
unfolding decode_messages new_reader read_counted read_messages read_message read_address
    address_of_flag read_i64 read_string read_bytes read_expiry expiry_of_flag read_u8 read_u32
    read_u64 take get_range finish is_utf8 utf8_from lead from_be_bytes be_from as_i64
decode_unread = refl

greeting-IsSubmit : IsSubmit greeting
unfolding is_utf8 utf8_from lead
greeting-IsSubmit = record {
  recipient_text = refl;
  message_id_text = refl;
  expiry_u64 = omega arith;
}

unread-IsMessage : IsMessage unread
unfolding is_utf8 utf8_from lead
unread-IsMessage = record {
  server_id_i64 = omega arith;
  sender_text = refl;
  address_text = λ a e. ground arith;
  message_id_text = refl;
  accepted_u64 = omega arith;
  expiry_u64 = tt;
}

decode_submit-encode_submit_example : decode_submit greeting_frame ≡ ok greeting
decode_submit-encode_submit_example =
    decode_submit-encode_submit greeting greeting_frame greeting-IsSubmit encode_greeting

decode_messages-encode_messages_example : decode_messages unread_frame ≡ ok (unread ∷ [])
decode_messages-encode_messages_example =
    decode_messages-encode_messages (unread ∷ []) unread_frame (unread-IsMessage, tt) encode_unread

encode_submit-decode_submit_example :
    IsSubmit greeting × (encode_submit greeting ≡ ok greeting_frame)
encode_submit-decode_submit_example =
    encode_submit-decode_submit greeting_frame greeting (omega arith) decode_greeting

encode_messages-decode_messages_example :
    All IsMessage (unread ∷ []) × (encode_messages (unread ∷ []) ≡ ok unread_frame)
encode_messages-decode_messages_example =
    encode_messages-decode_messages unread_frame (unread ∷ []) (omega arith) decode_unread

encode_submit-layout_example : encode_submit greeting ≡ (do
  bail_if
      (ltb max_recipient_bytes (length greeting.recipient))
      (Error.exceeds_limit Field.recipient)
  bail_if
      (ltb max_message_id_bytes (length greeting.message_id))
      (Error.exceeds_limit Field.message_id)
  bail_if
      (ltb max_ciphertext_bytes (length greeting.ciphertext))
      (Error.exceeds_limit Field.ciphertext)
  bail_if (ltb max_body (length (submit_layout greeting))) Error.body_too_large
  ok (submit_layout greeting))
encode_submit-layout_example = encode_submit-layout greeting

encode_messages-layout_example : encode_messages (unread ∷ []) ≡ (do
  bail_if (ltb max_messages (length (unread ∷ []))) Error.too_many_messages
  messages_check (unread ∷ [])
  bail_if (ltb max_body (length (messages_layout (unread ∷ [])))) Error.body_too_large
  ok (messages_layout (unread ∷ [])))
encode_messages-layout_example = encode_messages-layout (unread ∷ [])
