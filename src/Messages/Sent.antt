-- ===== src/Messages/Sent.antt =====
-- A message that is sent is read by both parties, and only its sender changes it, for a while.
use propmatch_backend.Prelude.{
  ℕ, ◌≤◌, ◌≡◌, ◌∙◌, sym, ap, true, false, [], ◌∷◌, ◌++◌, ◌==◌, ==-refl, arith, length, filter_where,
  Occurs, Occurs-append_new, filter_where-Occurs, sort_asc, sort_asc-Occurs, map-Occurs,
}
use propmatch_backend.Text.{Text}
use propmatch_backend.Store.{Message, MatchConnection, Db, ok, bind-steps}
use propmatch_backend.Messages.{connection_for, recipient_of}
use propmatch_backend.Messages.Crypto.{
  Seal, Unseal, IsCipher, IsPlain, is_well_formed, encrypt_text, decrypt_text,
  decrypt_text-encrypt_text,
}
use propmatch_backend.Messages.Chat.{
  MessageInput, body_of, new_message, insert_message, announce_message, check_send, write_message,
  send, shown_message, conversation,
}

check_send_lem :
    (user id : ℕ) (i : MessageInput) (db d : Db) (c : MatchConnection)
    → check_send user id i db ≡ (ok c, d)
    → (d ≡ db) × (length (body_of i) ≤ 1000)
unfolding check_send connection_for
check_send_lem user id i db d c h = (ground arith, ground arith)

insert_message_lem :
    (now id user : ℕ) (i : MessageInput) (body : Text) (db db' : Db) (m : Message)
    → insert_message now id user i body db ≡ (ok m, db')
    → (m ≡ new_message db.next_id now id user i body) × (db'.messages ≡ db.messages ++ m ∷ [])
unfolding insert_message
insert_message_lem now id user i body db db' m h = (ground arith, ground arith)

announce_message_lem :
    (recipient : ℕ) (m x : Message) (body : Text) (db db' : Db)
    → announce_message recipient m body db ≡ (ok x, db')
    → (record m { body = body } ≡ x) × (db'.messages ≡ db.messages)
unfolding announce_message
announce_message_lem recipient m x body db db' h = (ground arith, ground arith)

-- The stored row of a message that was sent.
record Stored (seal : Seal) (now : ℕ) (iv : Text) (user id : ℕ) (i : MessageInput) (m : Message)
    (db db' : Db) : Type 0 where
  row : Message
  made : row ≡ new_message db.next_id now id user i (encrypt_text seal iv (body_of i))
  told : record row { body = body_of i } ≡ m
  added : db'.messages ≡ db.messages ++ row ∷ []
  short : length (body_of i) ≤ 1000

send-Stored :
    (seal : Seal) (now : ℕ) (iv : Text) (user id : ℕ) (i : MessageInput) (db db' : Db) (m : Message)
    → send seal now iv user id i db ≡ (ok m, db')
    → Stored seal now iv user id i m db db'
unfolding send write_message
send-Stored seal now iv user id i db db' m h =
    let (c, mid, checked, rest) =
      bind-steps (check_send user id i) (write_message seal now iv user id i) db db' m h in
    let (quiet, short) = check_send_lem user id i db mid c checked in
    let stored = encrypt_text seal iv (body_of i) in
    let (row, after, inserted, told) =
      bind-steps (insert_message now id user i stored)
        (λ x. announce_message (recipient_of c user) x (body_of i)) mid db' m rest in
    let (made, added) = insert_message_lem now id user i stored mid after row inserted in
    let (plain, kept) =
      announce_message_lem (recipient_of c user) row m (body_of i) after db' told in
    record {
      row = row;
      made = rw (← quiet) made;
      told = plain;
      added = kept ∙ (added ∙ ap (λ x. x.messages ++ row ∷ []) quiet);
      short = short;
    }

shown_lem :
    (seal : Seal) (unseal : Unseal) (now : ℕ) (iv : Text) (user id reader : ℕ) (i : MessageInput)
    (m : Message) (db db' : Db)
    → IsCipher seal unseal
    → IsPlain iv
    → is_well_formed false (body_of i) ≡ true
    → (s : Stored seal now iv user id i m db db')
    → shown_message unseal reader s.row ≡ record { message = m; is_mine = user == reader }
unfolding shown_message
shown_lem seal unseal now iv user id reader i m db db' cipher plain formed s =
    let back = decrypt_text-encrypt_text seal unseal iv (body_of i) cipher plain formed in
    let stored : decrypt_text unseal s.row.body ≡ body_of i = rw (ap (λ x. x.body) s.made) back in
    let sender : s.row.sender_id ≡ user = ap (λ x. x.sender_id) s.made in
    ap (λ t. record { message = record s.row { body = t }; is_mine = s.row.sender_id == reader })
      stored
    ∙ ap (λ u. record { message = record s.row { body = body_of i }; is_mine = u == reader }) sender
    ∙ ap (λ x. record { message = x; is_mine = user == reader }) s.told

-- A message of well-formed Unicode text that is sent is at most 1000 characters long and stands,
-- with the text that was typed less its outer white space, in the conversation as either party
-- reads it, to its sender as their own. The cipher opens what it has sealed, and neither it nor its
-- start value writes a colon.
pub send-Occurs :
    (seal : Seal) (unseal : Unseal) (now : ℕ) (iv : Text) (user id reader : ℕ) (i : MessageInput)
    (m : Message) (db db' : Db)
    → IsCipher seal unseal
    → IsPlain iv
    → is_well_formed false (body_of i) ≡ true
    → send seal now iv user id i db ≡ (ok m, db')
    → (m.body ≡ body_of i)
      × (length m.body ≤ 1000)
      × Occurs
          (record { message = m; is_mine = user == reader })
          (conversation unseal reader id db')
unfolding conversation
send-Occurs seal unseal now iv user id reader i m db db' cipher plain formed h =
    let s = send-Stored seal now iv user id i db db' m h in
    let body : m.body ≡ body_of i = ap (λ x. x.body) (sym s.told) in
    let here : (s.row.match_connection_id == id) ≡ true =
      ap (λ x. x.match_connection_id == id) s.made ∙ ==-refl id in
    let there : Occurs s.row db'.messages = rw s.added (Occurs-append_new db.messages s.row) in
    let mine = filter_where (λ x. x.match_connection_id == id) db'.messages in
    (
      body,
      rw body s.short,
      rw (← shown_lem seal unseal now iv user id reader i m db db' cipher plain formed s) (
          map-Occurs (shown_message unseal reader) s.row
            (sort_asc (λ x. x.created_at) (sort_asc (λ x. x.id) mine))
            (sort_asc-Occurs (λ x. x.created_at) s.row (sort_asc (λ x. x.id) mine)
              (sort_asc-Occurs (λ x. x.id) s.row mine
                (filter_where-Occurs (λ x. x.match_connection_id == id) s.row db'.messages here
                  there)))),
    )
