-- ===== src/Relay/Contacts/Decision.antt =====
-- codebase/relay/src/contacts.rs: who decides on a contact request, and how.
use safechat.Prelude.{
  ◌≡◌, refl, sym, ap, ◌∙◌, true, ◌&&◌, Option, none, some, List, [], ◌∷◌, ◌++◌, arith,
  if◌then◌else◌,
}
use mathlib.Core.Option
use safechat.Prelude.Bytes.{Bytes, codes}
use safechat.Relay.{ContactRow, ContactStatus}
use safechat.Relay.Sql.{update, query_row}
use safechat.Relay.Host.{Host, Headers}
use safechat.Relay.Service.{World}
use safechat.Relay.Service.Returns.{
  Returns, returns, bind-ok, checked-ok, or_raise-ok, query-ok, execute-ok, pure-ok,
}
use safechat.Relay.Auth.{authenticate_request}
use safechat.Relay.Auth.Genuine.{Genuine, authenticate-Genuine}
use safechat.Relay.Auth.Untouched.{authenticate_same}
use safechat.Relay.Contacts.{
  ContactRequestResponse, is_pending, is_request_to, contact_response, accept,
}

-- A pending request becomes accepted; a decision that was made before stands.
abbrev pub accepted_status : ContactStatus → ContactStatus
accepted_status ContactStatus.pending = ContactStatus.accepted
accepted_status ContactStatus.accepted = ContactStatus.accepted
accepted_status ContactStatus.rejected = ContactStatus.rejected

-- `format!("/v1/contacts/requests/{request_id}/accept")`
abbrev pub accept_path : Bytes → Bytes
accept_path id = codes "/v1/contacts/requests/" ++ (id ++ codes "/accept")

abbrev accept_rows : Bytes → Bytes → List ContactRow → List ContactRow
accept_rows id recipient rows =
    update (λ r. is_request_to id recipient r && is_pending r.status)
      (λ r. record r { status = ContactStatus.accepted }) rows

abbrev accept_row : ContactRow → ContactRow
accept_row r = record r { status = accepted_status r.status }

by_status :
    (r : ContactRow) (status : ContactStatus)
    → (if is_pending status
        then record r { status = ContactStatus.accepted }
        else record r { status = status })
      ≡ record r { status = accepted_status status }
by_status r ContactStatus.pending = refl
by_status r ContactStatus.accepted = refl
by_status r ContactStatus.rejected = refl

accept_row_lem :
    (id recipient : Bytes) (r : ContactRow)
    → is_request_to id recipient r ≡ true
    → (if is_request_to id recipient r && is_pending r.status
        then record r { status = ContactStatus.accepted }
        else r)
      ≡ accept_row r
accept_row_lem id recipient r h = rw h (by_status r r.status)

query_row-accept_rows :
    (id recipient : Bytes) (rows : List ContactRow)
    → query_row (is_request_to id recipient) (accept_rows id recipient rows)
      ≡ Option.map accept_row (query_row (is_request_to id recipient) rows)
unfolding query_row update
query_row-accept_rows id recipient [] = refl
query_row-accept_rows id recipient (r ∷ rows) =
    ground (arith, accept_row_lem id recipient r, query_row-accept_rows id recipient rows)

-- The answer is signed for by its recipient, and tells the request as the table has it, decided.
pub record Decided {Key : Type 0} (host : Host Key) (headers : Headers) (id : Bytes) (w : World)
    (x : ContactRequestResponse) (w' : World) : Type 0 where
  pub recipient : Bytes
  pub genuine : Genuine host headers (codes "POST") (accept_path id) (codes "null") w recipient
  pub row : ContactRow
  pub row_is : query_row (is_request_to id recipient) w.db.contact_requests ≡ some row
  pub answer : x ≡ contact_response host (record row { status = accepted_status row.status })
  pub stored :
      query_row (is_request_to id recipient) w'.db.contact_requests
      ≡ some (record row { status = accepted_status row.status })

map_some :
    {A B : Type 0} (f : A → B) (o : Option A) (b : B) {C : Type 0}
    → Option.map f o ≡ some b
    → ((a : A) → o ≡ some a → f a ≡ b → C)
    → C
map_some f none b e next = ground arith
map_some f (some a) b e next = next a refl (ground arith)

module _ {Key : Type 0} (host : Host Key) where
  -- An acceptance that returns was signed by the active device that the request is addressed to.
  -- The request becomes accepted if it was pending, and keeps an earlier decision otherwise, a
  -- rejection in particular; this is what is stored and what the answer says.
  pub accept-Decided :
      (headers : Headers) (id : Bytes) (w : World) (x : ContactRequestResponse) (w' : World)
      → Returns (accept host headers id) w x w'
      → Decided host headers id w x w'
  unfolding accept
  accept-Decided headers id w x w' e = checked-ok _ e λ _ _ e. checked-ok _ e λ _ _ e.
      checked-ok _ e λ _ _ e. bind-ok _ _ e λ recipient sent e. execute-ok _ _ e λ e.
        query-ok _ _ e λ e. or_raise-ok _ _ e λ found found_is e.
          let (answer, same) = pure-ok _ x _ w' e in
          let auth =
            authenticate_request host headers (codes "POST") (accept_path id) (codes "null") none in
          let v = (auth w).1 in
          let kept =
            authenticate_same host headers (codes "POST") (accept_path id) (codes "null") none w in
          let rows_same : v.db.contact_requests ≡ w.db.contact_requests =
            ap (λ db. db.contact_requests) kept in
          map_some accept_row (query_row (is_request_to id recipient) v.db.contact_requests) found
            (sym (query_row-accept_rows id recipient v.db.contact_requests) ∙ found_is)
            λ row row_is is. record {
              recipient = recipient;
              genuine =
                  (authenticate-Genuine host headers _ _ _ none w recipient v
                    (returns auth w recipient sent)).0;
              row = row;
              row_is = ap (query_row (is_request_to id recipient)) (sym rows_same) ∙ row_is;
              answer = sym answer ∙ ap (contact_response host) (sym is);
              stored =
                  ap (λ z. query_row (is_request_to id recipient) z.db.contact_requests) (sym same)
                  ∙ (found_is ∙ ap some (sym is));
            }
