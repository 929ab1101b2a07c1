-- ===== src/Support.antt =====
-- src/customer-support/customer-support.service.ts: tickets and the replies to them. A realtime
-- event and a mail are recorded as calls; the preview in a notice and the assistant's stream are
-- left out.
pub mod Detail
pub mod Private
pub mod Escalated
use propmatch_backend.Prelude.{
  ℕ, ◌+◌, String, Option, none, some, List, [], ◌∷◌, ◌++◌, map, Bool, true, false, not, ◌&&◌, ◌||◌,
  ◌==◌, if◌then◌else◌, is_some, or_else, find?, last_by, update_where, filter_where,
}
use propmatch_backend.Text.{Text, trim, text_eq}
use propmatch_backend.Store.{
  User, SupportTicket, TicketStatus, SupportMessage, SupportAuthor, SupportPriority,
  MessageAttachmentType, NotificationType, Notice, Effect, ticket_announced, reply_pushed,
  reply_to_admins, reply_mailed, Db, Action, pure, gets, throw, or_throw, throw_if, modify, when,
  ◌>>=◌, ◌>>◌, not_found, forbidden, bad_request, internal, internal,
}
use propmatch_backend.TenantOffers.{notify_user}
use propmatch_backend.Messages.Chat.{emit}
use propmatch_backend.Messages.Crypto.{is_empty}
use propmatch_backend.Accounts.{role_code}

abbrev pub ticket_code : TicketStatus → ℕ
ticket_code TicketStatus.fresh = 0
ticket_code TicketStatus.assigned = 1
ticket_code TicketStatus.in_progress = 2
ticket_code TicketStatus.waiting = 3
ticket_code TicketStatus.closed = 4

abbrev pub is_closed : SupportTicket → Bool
is_closed t = ticket_code t.status == 4

abbrev pub has_ticket_id : ℕ → SupportTicket → Bool
has_ticket_id id t = t.id == id

-- `{ userId, status: { not: CLOSED } }`
abbrev pub is_open_of : ℕ → SupportTicket → Bool
is_open_of user t = t.user_id == user && not (is_closed t)

-- `SUSPENSION_APPEAL_REASON`
abbrev pub suspension_appeal_reason : Text
suspension_appeal_reason =
    1591 ∷ 1604 ∷ 1576 ∷ 32 ∷ 1605 ∷ 1585 ∷ 1575 ∷ 1580 ∷ 1593 ∷ 1577 ∷ 32 ∷ 1573 ∷ 1610 ∷ 1602
    ∷ 1575 ∷ 1601 ∷ 32 ∷ 1575 ∷ 1604 ∷ 1581 ∷ 1587 ∷ 1575 ∷ 1576 ∷ []

-- What an appeal says where its user says nothing.
abbrev pub default_appeal : Text
default_appeal =
    1571 ∷ 1591 ∷ 1604 ∷ 1576 ∷ 32 ∷ 1605 ∷ 1585 ∷ 1575 ∷ 1580 ∷ 1593 ∷ 1577 ∷ 32 ∷ 1602 ∷ 1585
    ∷ 1575 ∷ 1585 ∷ 32 ∷ 1573 ∷ 1610 ∷ 1602 ∷ 1575 ∷ 1601 ∷ 32 ∷ 1581 ∷ 1587 ∷ 1575 ∷ 1576 ∷ 1610
    ∷ 32 ∷ 1608 ∷ 1573 ∷ 1593 ∷ 1575 ∷ 1583 ∷ 1577 ∷ 32 ∷ 1578 ∷ 1601 ∷ 1593 ∷ 1610 ∷ 1604 ∷ 1607
    ∷ 32 ∷ 1573 ∷ 1584 ∷ 1575 ∷ 32 ∷ 1571 ∷ 1605 ∷ 1603 ∷ 1606 ∷ 46 ∷ []

-- The name that a reply of an administrator carries.
abbrev pub support_name : Text
support_name = 1575 ∷ 1604 ∷ 1583 ∷ 1593 ∷ 1605 ∷ 32 ∷ 1575 ∷ 1604 ∷ 1601 ∷ 1606 ∷ 1610 ∷ []

-- `supportTicket.create` with its first message.
pub record TicketData : Type 0 where
  pub user_id : ℕ
  pub priority : SupportPriority
  pub escalation_reason : Option Text
  pub ai_summary : Option Text
  pub agent_escalation_key : Option ℕ
  pub content : Text

abbrev pub new_ticket : ℕ → ℕ → TicketData → SupportTicket
new_ticket id now d = record {
  id = id;
  user_id = d.user_id;
  status = TicketStatus.fresh;
  assigned_admin_id = none;
  last_message_at = now;
  escalation_reason = d.escalation_reason;
  agent_escalation_key = d.agent_escalation_key;
  priority = d.priority;
  ai_summary = d.ai_summary;
  created_at = now;
  updated_at = now;
}

abbrev pub user_message : ℕ → ℕ → ℕ → ℕ → Text → Text → SupportMessage
user_message id now ticket user name content = record {
  id = id;
  ticket_id = ticket;
  author_type = SupportAuthor.by_user;
  author_name = name;
  author_id = some user;
  content = content;
  attachment_url = none;
  attachment_type = none;
  attachment_name = none;
  attachment_duration_ms = none;
  internal = false;
  created_at = now;
}

unfoldable pub insert_ticket : ℕ → Text → TicketData → Action SupportTicket
insert_ticket now name d = do
  id ← gets (λ db. db.next_id)
  let ticket = new_ticket id now d
  let message = user_message (id + 1) now id d.user_id name d.content
  modify (λ db. record db {
    tickets = db.tickets ++ ticket ∷ [];
    support_messages = db.support_messages ++ message ∷ [];
    next_id = db.next_id + 2;
  })
  pure ticket

abbrev pub is_reason : Option Text → Bool
is_reason none = false
is_reason (some r) = text_eq r suspension_appeal_reason

-- An open appeal of the user.
abbrev pub is_appeal : ℕ → SupportTicket → Bool
is_appeal user t = is_open_of user t && is_reason t.escalation_reason

-- `message?.trim() || ...`
abbrev pub appeal_text : Option Text → Text
appeal_text none = default_appeal
appeal_text (some m) = if is_empty (trim m) then default_appeal else trim m

abbrev pub appeal_if : ℕ → ℕ → Text → Option Text → Option SupportTicket → Action SupportTicket
appeal_if now user name message (some t) = pure t
appeal_if now user name message none = do
  ticket ← insert_ticket now name (record {
    user_id = user;
    priority = SupportPriority.high;
    escalation_reason = some suspension_appeal_reason;
    ai_summary = none;
    agent_escalation_key = none;
    content = appeal_text message;
  })
  emit (ticket_announced ticket.id)
  pure ticket

-- `createSuspensionAppeal`: the open appeal, or a new one.
unfoldable pub create_suspension_appeal : ℕ → ℕ → Text → Option Text → Action SupportTicket
unfolding insert_ticket
create_suspension_appeal now user name message = do
  existing ← gets (λ db. last_by (is_appeal user) (λ t. t.created_at) db.tickets)
  appeal_if now user name message existing

-- The input of `createAgentEscalation`.
pub record Escalation : Type 0 where
  pub agent_run_id : ℕ
  pub message : Text
  pub reason : Text
  pub priority : SupportPriority

abbrev pub has_key : ℕ → SupportTicket → Bool
has_key key t = is_some t.agent_escalation_key && or_else t.agent_escalation_key 0 == key

abbrev pub touch : TicketStatus → ℕ → SupportTicket → SupportTicket
touch status now t = record t { status = status; last_message_at = now; updated_at = now }

-- `supportTicket.update({ where: { id } })`
abbrev pub update_ticket : ℕ → (SupportTicket → SupportTicket) → Action (Unit {0})
update_ticket id f =
    modify (λ db. record db { tickets = update_where (has_ticket_id id) f db.tickets })

abbrev pub name_of : Option User → Text
name_of none = []
name_of (some u) = u.full_name

-- The escalation of a user that has an open ticket: its message joins that ticket.
unfoldable pub append_escalation : ℕ → ℕ → Escalation → SupportTicket → Action SupportTicket
append_escalation now user e t = do
  author ← gets (λ db. find? (λ u. u.id == t.user_id) db.users)
  id ← gets (λ db. db.next_id)
  let message = user_message id now t.id user (name_of author) (trim e.message)
  modify (λ db. record db {
    support_messages = db.support_messages ++ message ∷ [];
    next_id = db.next_id + 1;
  })
  update_ticket t.id (touch TicketStatus.in_progress now)
  emit (reply_to_admins t.id message.content)
  pure t

-- `{ role: 'ADMIN', isActive: true, deletedAt: null }`
abbrev pub is_active_admin : User → Bool
is_active_admin u = role_code u.role == 2 && (u.is_active && not (is_some u.deleted_at))

abbrev pub escalation_notice : User → Notice
escalation_notice u = record {
  user_id = u.id;
  type = NotificationType.support_ticket_escalated;
  title = "a new escalation";
  link = "/admin/support";
  price = none;
}

-- What follows the creation of an escalated ticket.
unfoldable pub announce_escalation : SupportTicket → Action SupportTicket
announce_escalation t = do
  emit (ticket_announced t.id)
  modify (λ db. record db {
    notices = db.notices ++ map escalation_notice (filter_where is_active_admin db.users);
  })
  pure t

-- The creation of the ticket. A key that another request has stored since is caught, by the unique
-- constraint, and that ticket is returned.
abbrev pub insert_escalation :
    ℕ → ℕ → Text → Escalation → Option SupportTicket → Action SupportTicket
insert_escalation now user name e (some t) = pure t
insert_escalation now user name e none = do
  ticket ← insert_ticket now name (record {
    user_id = user;
    priority = e.priority;
    escalation_reason = some e.reason;
    ai_summary = some e.reason;
    agent_escalation_key = some e.agent_run_id;
    content = trim e.message;
  })
  announce_escalation ticket

unfoldable pub create_escalation : (Db → Db) → ℕ → ℕ → Escalation → Action SupportTicket
unfolding insert_ticket announce_escalation
create_escalation others now user e = do
  found ← gets (λ db. find? (λ u. u.id == user) db.users)
  author ← or_throw found (not_found "no such user")
  modify others
  raced ← gets (λ db. find? (has_key e.agent_run_id) db.tickets)
  insert_escalation now user author.full_name e raced

abbrev pub join_or_create :
    (Db → Db) → ℕ → ℕ → Escalation → Option SupportTicket → Action SupportTicket
join_or_create others now user e (some t) = append_escalation now user e t
join_or_create others now user e none = create_escalation others now user e

abbrev pub escalate_if :
    (Db → Db) → ℕ → ℕ → Escalation → Option SupportTicket → Action SupportTicket
escalate_if others now user e (some t) = pure t
escalate_if others now user e none = do
  joined ← gets (λ db. last_by (is_open_of user) (λ t. t.updated_at) db.tickets)
  join_or_create others now user e joined

-- `createAgentEscalation`; `others` is what other requests commit before the creation.
unfoldable pub create_agent_escalation : (Db → Db) → ℕ → ℕ → Escalation → Action SupportTicket
unfolding append_escalation create_escalation
create_agent_escalation others now user e = do
  duplicate ← gets (λ db. find? (has_key e.agent_run_id) db.tickets)
  escalate_if others now user e duplicate

-- `CreateTicketDto`, less the subject, which is announced only.
pub record CreateTicket : Type 0 where
  pub initial_message : Text
  pub priority : Option SupportPriority
  pub escalation_reason : Option Text

-- `createTicket`
unfoldable pub create_ticket : ℕ → ℕ → CreateTicket → Action SupportTicket
unfolding insert_ticket
create_ticket now user dto = do
  found ← gets (λ db. find? (λ u. u.id == user) db.users)
  author ← or_throw found (not_found "no such user")
  ticket ← insert_ticket now author.full_name (record {
    user_id = user;
    priority = or_else dto.priority SupportPriority.normal;
    escalation_reason = dto.escalation_reason;
    ai_summary = none;
    agent_escalation_key = none;
    content = dto.initial_message;
  })
  emit (ticket_announced ticket.id)
  pure ticket

-- `PostReplyDto`
pub record PostReply : Type 0 where
  pub content : Option Text
  pub internal : Bool
  pub attachment_url : Option ℕ
  pub attachment_type : Option MessageAttachmentType
  pub attachment_name : Option Text
  pub attachment_duration_ms : Option ℕ

abbrev pub has_file : PostReply → Bool
has_file r = is_some r.attachment_url && is_some r.attachment_type

-- A column of `attachmentFields`.
abbrev pub if_filed : {A : Type 0} → PostReply → Option A → Option A
if_filed r o = if has_file r then o else none

abbrev pub reply_text : PostReply → Text
reply_text r = trim (or_else r.content [])

abbrev pub reply_row : ℕ → ℕ → ℕ → SupportAuthor → Text → ℕ → Bool → PostReply → SupportMessage
reply_row id now ticket type name author hidden r = record {
  id = id;
  ticket_id = ticket;
  author_type = type;
  author_name = name;
  author_id = some author;
  content = reply_text r;
  attachment_url = if_filed r r.attachment_url;
  attachment_type = if_filed r r.attachment_type;
  attachment_name = if_filed r r.attachment_name;
  attachment_duration_ms = if_filed r r.attachment_duration_ms;
  internal = hidden;
  created_at = now;
}

-- The stored reply, and the ticket with its new state.
unfoldable pub store_reply :
    ℕ → ℕ → SupportAuthor → Text → ℕ → Bool → TicketStatus → PostReply → Action (Unit {0})
store_reply now ticket type name author hidden status r = do
  id ← gets (λ db. db.next_id)
  let message = reply_row id now ticket type name author hidden r
  modify (λ db. record db {
    support_messages = db.support_messages ++ message ∷ [];
    next_id = db.next_id + 1;
  })
  update_ticket ticket (touch status now)

abbrev pub mail_of : Option User → Text
mail_of none = []
mail_of (some u) = u.email

-- What the user is told of a reply that is not internal.
unfoldable pub tell_user : SupportTicket → Option User → Action (Unit {0})
tell_user t owner = do
  notify_user (record {
    user_id = t.user_id;
    type = NotificationType.new_message;
    title = "a new reply of the support team";
    link = "/support/tickets";
    price = none;
  })
  emit (reply_mailed (mail_of owner) t.id)

-- The guards of `addAdminReply`.
unfoldable pub check_admin_reply : ℕ → ℕ → PostReply → Action SupportTicket
check_admin_reply id admin r = do
  found ← gets (λ db. find? (λ u. u.id == admin) db.users)
  throw_if (not (is_some found)) (not_found "no such administrator")
  stored ← gets (λ db. find? (has_ticket_id id) db.tickets)
  ticket ← or_throw stored (not_found "no such ticket")
  throw_if (is_empty (reply_text r) && not (has_file r)) (bad_request "an empty reply")
  pure ticket

-- The writes of `addAdminReply`: every reply is pushed to the user's sockets.
unfoldable pub write_admin_reply : ℕ → ℕ → ℕ → PostReply → SupportTicket → Action (Unit {0})
unfolding store_reply tell_user
write_admin_reply now id admin r t = do
  store_reply now id SupportAuthor.by_admin support_name admin r.internal
      (if r.internal then t.status else TicketStatus.waiting) r
  emit (reply_pushed t.user_id id (reply_text r) r.internal)
  owner ← gets (λ db. find? (λ u. u.id == t.user_id) db.users)
  when (not r.internal) (tell_user t owner)

-- `addAdminReply`, less the detail that it returns.
unfoldable pub add_admin_reply : ℕ → ℕ → ℕ → PostReply → Action (Unit {0})
unfolding check_admin_reply write_admin_reply
add_admin_reply now id admin r = do
  ticket ← check_admin_reply id admin r
  write_admin_reply now id admin r ticket

abbrev pub tell_assignee : Option ℕ → Action (Unit {0})
tell_assignee none = pure tt
tell_assignee (some admin) = notify_user (record {
  user_id = admin;
  type = NotificationType.new_message;
  title = "a new reply of the user";
  link = "/admin/support";
  price = none;
})

-- `addUserReply`, less the detail that it returns.
unfoldable pub add_user_reply : ℕ → ℕ → ℕ → PostReply → Action (Unit {0})
unfolding store_reply
add_user_reply now id user r = do
  stored ← gets (λ db. find? (has_ticket_id id) db.tickets)
  ticket ← or_throw stored (not_found "no such ticket")
  throw_if (not (ticket.user_id == user)) (forbidden "access denied")
  throw_if (is_empty (reply_text r) && not (has_file r)) (bad_request "an empty reply")
  author ← gets (λ db. find? (λ u. u.id == ticket.user_id) db.users)
  store_reply now id SupportAuthor.by_user (name_of author) user false TicketStatus.in_progress r
  emit (reply_to_admins id (reply_text r))
  tell_assignee ticket.assigned_admin_id

-- `assignToAdmin` and `updateStatus`; an update of no row throws.
unfoldable pub change_ticket : ℕ → (SupportTicket → SupportTicket) → Action (Unit {0})
change_ticket id f = do
  stored ← gets (λ db. find? (has_ticket_id id) db.tickets)
  or_throw stored (internal "no ticket")
  update_ticket id f

unfoldable pub assign_to_admin : ℕ → ℕ → ℕ → Action (Unit {0})
unfolding change_ticket
assign_to_admin now id admin = change_ticket id (λ t. record t {
  assigned_admin_id = some admin;
  status = TicketStatus.in_progress;
  updated_at = now;
})

unfoldable pub update_status : ℕ → ℕ → TicketStatus → Action (Unit {0})
unfolding change_ticket
update_status now id status = change_ticket id (λ t. record t { status = status; updated_at = now })
