-- ===== src/Messages/Chat.antt =====
-- src/messages/messages.service.ts: the messages of a conversation. `iv` is the initialization vector
-- that encryption draws. An attachment's address is compared and stored only.
use propmatch_backend.Prelude.{
  ℕ, ◌+◌, ◌-◌, ◌*◌, Option, none, some, List, [], ◌∷◌, ◌++◌, map, Bool, true, not, ◌&&◌, ltb, ◌==◌,
  if◌then◌else◌, is_some, or_else, length, find?, last_by, update_where, filter_where, sort_asc,
  sort_desc, take,
}
use propmatch_backend.Text.{Text, trim}
use propmatch_backend.Store.{
  MatchConnection, Message, MessageAttachmentType, NotificationType, Effect, message_sent,
  message_edited, message_deleted, file_removed, Db, Action, pure, gets, or_throw, throw_if, modify,
  ◌>>=◌, ◌>>◌, not_found, bad_request, internal,
}
use propmatch_backend.TenantOffers.{notify_user}
use propmatch_backend.Offers.Inbox.{connection_code, shown}
use propmatch_backend.Messages.{is_party, connection_for, recipient_of}
use propmatch_backend.Messages.Crypto.{Seal, Unseal, is_empty, encrypt_text, decrypt_text}

-- The input of `send`.
pub record MessageInput : Type 0 where
  pub body : Option Text
  pub attachment_url : Option ℕ
  pub attachment_type : Option MessageAttachmentType
  pub attachment_name : Option Text
  pub attachment_duration_ms : Option ℕ

abbrev pub has_attachment : MessageInput → Bool
has_attachment i = is_some i.attachment_url && is_some i.attachment_type

-- A column that is stored only with an attachment.
abbrev pub if_attached : {A : Type 0} → MessageInput → Option A → Option A
if_attached i o = if has_attachment i then o else none

abbrev pub new_message : ℕ → ℕ → ℕ → ℕ → MessageInput → Text → Message
new_message id now conversation user i body = record {
  id = id;
  match_connection_id = conversation;
  sender_id = user;
  body = body;
  attachment_url = if_attached i i.attachment_url;
  attachment_type = if_attached i i.attachment_type;
  attachment_name = if_attached i i.attachment_name;
  attachment_duration_ms = if_attached i i.attachment_duration_ms;
  created_at = now;
  edited_at = none;
}

-- A call to a client or to a store.
abbrev pub emit : Effect → Action (Unit {0})
emit e = modify (λ db. record db { effects = db.effects ++ e ∷ [] })

-- `message.create`
unfoldable pub insert_message : ℕ → ℕ → ℕ → MessageInput → Text → Action Message
insert_message now conversation user i body = do
  id ← gets (λ db. db.next_id)
  let message = new_message id now conversation user i body
  modify (λ db. record db { messages = db.messages ++ message ∷ []; next_id = db.next_id + 1 })
  pure message

-- The push of a new message to the other party.
unfoldable pub announce_message : ℕ → Message → Text → Action Message
announce_message recipient m body = do
  emit (message_sent recipient m.id body)
  notify_user (record {
    user_id = recipient;
    type = NotificationType.new_message;
    title = "a new message";
    link = "/messages";
    price = none;
  })
  pure (record m { body = body })

abbrev pub body_of : MessageInput → Text
body_of i = trim (or_else i.body [])

-- The guards of `send`.
unfoldable pub check_send : ℕ → ℕ → MessageInput → Action MatchConnection
unfolding connection_for
check_send user id i = do
  connection ← connection_for user id
  throw_if (is_empty (body_of i) && not (has_attachment i)) (bad_request "an empty message")
  throw_if (ltb 1000 (length (body_of i))) (bad_request "the message is too long")
  pure connection

-- The write of `send` and what follows it.
unfoldable pub write_message :
    Seal → ℕ → Text → ℕ → ℕ → MessageInput → MatchConnection → Action Message
unfolding insert_message announce_message
write_message seal now iv user id i connection = do
  message ← insert_message now id user i (encrypt_text seal iv (body_of i))
  announce_message (recipient_of connection user) message (body_of i)

-- `send`: the message with its plain text.
unfoldable pub send : Seal → ℕ → Text → ℕ → ℕ → MessageInput → Action Message
unfolding check_send write_message
send seal now iv user id i = do
  connection ← check_send user id i
  write_message seal now iv user id i connection

-- The message of an edit or a removal, and the connection that it belongs to.
unfoldable pub own_message : ℕ → ℕ → Action (Message × MatchConnection)
own_message user id = do
  found ← gets (λ db. find? (λ m. m.id == id) db.messages)
  message ← or_throw found (not_found "no such message")
  joined ← gets (λ db. find? (λ c. c.id == message.match_connection_id) db.connections)
  connection ← or_throw joined (internal "no conversation")
  throw_if (not (message.sender_id == user)) (bad_request "the message is another's")
  pure (message, connection)

-- `diffMinutes > 15`
abbrev pub is_late : ℕ → Message → Bool
is_late now m = ltb (15 * 60 * 1000) (now - m.created_at)

abbrev pub edit : Text → ℕ → Message → Message
edit body now m = record m { body = body; edited_at = some now }

-- The content rules and the time limit of an edit.
unfoldable pub check_edit : ℕ → Text → Message → Action (Unit {0})
check_edit now body m = do
  throw_if (is_empty body) (bad_request "a message cannot be left empty")
  throw_if (ltb 1000 (length body)) (bad_request "the message is too long")
  throw_if (is_late now m) (bad_request "a message can be edited for 15 minutes")

-- The write of `updateMessage` and what follows it.
unfoldable pub write_edit : Seal → ℕ → Text → ℕ → ℕ → Text → Message × MatchConnection → Action Text
write_edit seal now iv user id body (m, c) = do
  modify (λ db. record db {
    messages = update_where (λ x. x.id == id) (edit (encrypt_text seal iv body) now) db.messages;
  })
  emit (message_edited (recipient_of c user) id body)
  pure body

-- `updateMessage`: the new text.
unfoldable pub update_message : Seal → ℕ → Text → ℕ → ℕ → Text → Action Text
unfolding own_message check_edit write_edit
update_message seal now iv user id raw = do
  found ← own_message user id
  check_edit now (trim raw) found.0
  write_edit seal now iv user id (trim raw) found

-- `chatUploads.deleteByUrl`, which does nothing without an address.
abbrev pub remove_file : Option ℕ → Action (Unit {0})
remove_file none = pure tt
remove_file (some url) = emit (file_removed url)

-- The removal of `deleteMessage` and what follows it.
unfoldable pub write_removal : ℕ → ℕ → Message × MatchConnection → Action (Unit {0})
write_removal user id (m, c) = do
  modify (λ db. record db { messages = filter_where (λ x. not (x.id == id)) db.messages })
  remove_file m.attachment_url
  emit (message_deleted (recipient_of c user) id)

-- `deleteMessage`
unfoldable pub delete_message : ℕ → ℕ → ℕ → Action (Unit {0})
unfolding own_message write_removal
delete_message now user id = do
  found ← own_message user id
  throw_if (is_late now found.0) (bad_request "a message can be removed for 15 minutes")
  write_removal user id found

-- A message as a party reads it: its text in plain, and whether it is the reader's own.
pub record ShownMessage : Type 0 where
  pub message : Message
  pub is_mine : Bool

unfoldable pub shown_message : Unseal → ℕ → Message → ShownMessage
shown_message unseal user m = record {
  message = record m { body = decrypt_text unseal m.body };
  is_mine = m.sender_id == user;
}

-- The messages of a conversation, the oldest first, by identifier where two have the same date.
unfoldable pub conversation : Unseal → ℕ → ℕ → Db → List ShownMessage
conversation unseal user id db = map (shown_message unseal user) (
    sort_asc (λ m. m.created_at)
      (sort_asc (λ m. m.id) (filter_where (λ m. m.match_connection_id == id) db.messages)))

-- `messages`
unfoldable pub messages_of : Unseal → ℕ → ℕ → Action (List ShownMessage)
unfolding connection_for conversation
messages_of unseal user id = do connection_for user id; gets (conversation unseal user id)

-- A row of the list of conversations.
pub record ConversationRow : Type 0 where
  pub match_connection_id : ℕ
  pub property_id : ℕ
  pub property_title : Option Text
  pub other_participant_name : Option Text
  pub agreement_reached_at : Option ℕ
  pub can_confirm_agreement : Bool
  pub last_message_preview : Option Text
  pub last_message_at : Option ℕ

unfoldable pub conversation_row : Unseal → ℕ → Db → MatchConnection → ConversationRow
conversation_row unseal user db c =
    let last = last_by (λ m. m.match_connection_id == c.id) (λ m. m.created_at) db.messages in
    let other = if c.tenant_id == user then c.owner_id else c.tenant_id in
    record {
      match_connection_id = c.id;
      property_id = c.property_id;
      property_title = shown true (λ p. p.title) (find? (λ p. p.id == c.property_id) db.properties);
      other_participant_name = shown true (λ u. u.full_name) (find? (λ u. u.id == other) db.users);
      agreement_reached_at = c.agreement_reached_at;
      can_confirm_agreement =
          not (is_some c.agreement_reached_at)
          && (if is_some c.tenant_request_id then c.tenant_id == user else c.owner_id == user);
      last_message_preview = shown true (λ m. take 100 (decrypt_text unseal m.body)) last;
      last_message_at = shown true (λ m. m.created_at) last;
    }

-- The place of a row in the list: rows without a message come last.
abbrev pub recency : Option ℕ → ℕ
recency none = 0
recency (some t) = t + 1

-- `list`
unfoldable pub conversations : Unseal → ℕ → Db → List ConversationRow
unfolding conversation_row
conversations unseal user db =
    sort_desc (λ x. recency x.last_message_at)
      (map (conversation_row unseal user db)
        (filter_where (λ c. connection_code c.status == 1 && is_party user c) db.connections))
