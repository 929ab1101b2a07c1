-- ===== src/Support/Detail.antt =====
-- src/customer-support/customer-support.service.ts: what is shown of a ticket, and the queue of the
-- administrators. The filters of the queue are given as values: their spelling in a query is the
-- form's.
use propmatch_backend.Prelude.{
  ℕ, ◌+◌, ◌-◌, ◌*◌, ◌/◌, Option, none, some, List, [], ◌∷◌, map, Bool, true, false, not, ◌&&◌, ◌||◌,
  ltb, leb, ◌==◌, if◌then◌else◌, find?, first_by, length, filter_where, sort_asc, sort_desc, take,
}
use propmatch_backend.Text.{Text}
use propmatch_backend.Calendar.{day_ms}
use propmatch_backend.Catalog.{Plan, free, owner_plus, premium}
use propmatch_backend.Store.{
  User, UserQuota, SupportTicket, TicketStatus, SupportMessage, SupportAuthor, SupportPriority, Db,
  Action, gets, or_throw, ◌>>=◌, not_found, find_quota,
}
use propmatch_backend.Offers.Inbox.{shown}
use propmatch_backend.Support.{ticket_code, has_ticket_id, support_name}

abbrev pub author_code : SupportAuthor → ℕ
author_code SupportAuthor.by_ai = 0
author_code SupportAuthor.by_user = 1
author_code SupportAuthor.by_admin = 2

-- A message of a ticket as it is shown; the columns that are copied stand in `message`.
abbrev pub show_author : SupportMessage → SupportMessage
show_author m = record m {
  author_name = if author_code m.author_type == 2 then support_name else m.author_name;
}

-- `!m.internal || requestingUserId !== ticket.userId`
abbrev pub is_shown : Option ℕ → SupportTicket → SupportMessage → Bool
is_shown none t m = true
is_shown (some requester) t m = not m.internal || not (requester == t.user_id)

pub record TicketDetail : Type 0 where
  pub ticket : SupportTicket
  pub user_name : Option Text
  pub assigned_admin_name : Option Text
  pub messages : List SupportMessage

abbrev pub messages_of : ℕ → Db → List SupportMessage
messages_of ticket db =
    sort_asc (λ m. m.created_at) (filter_where (λ m. m.ticket_id == ticket) db.support_messages)

abbrev pub name_if : Option ℕ → List User → Option Text
name_if none users = none
name_if (some id) users = shown true (λ u. u.full_name) (find? (λ u. u.id == id) users)

-- `mapToTicketDetail`
unfoldable pub map_to_ticket_detail : Option ℕ → Db → SupportTicket → TicketDetail
map_to_ticket_detail requester db t = record {
  ticket = t;
  user_name = shown true (λ u. u.full_name) (find? (λ u. u.id == t.user_id) db.users);
  assigned_admin_name = name_if t.assigned_admin_id db.users;
  messages = map show_author (filter_where (is_shown requester t) (messages_of t.id db));
}

-- `getTicketDetail`
unfoldable pub get_ticket_detail : ℕ → Option ℕ → Action TicketDetail
unfolding map_to_ticket_detail
get_ticket_detail id requester = do
  stored ← gets (λ db. find? (has_ticket_id id) db.tickets)
  ticket ← or_throw stored (not_found "no such ticket")
  gets (λ db. map_to_ticket_detail requester db ticket)

-- A row of a list of tickets.
pub record TicketRow : Type 0 where
  pub ticket : SupportTicket
  pub subject : Option Text
  pub user_name : Option Text
  pub assigned_admin_name : Option Text

-- The first message of a ticket, cut to 50 characters.
abbrev pub first_words : ℕ → Db → Option Text
first_words ticket db =
    shown true (λ m. take 50 m.content)
      (first_by (λ m. m.ticket_id == ticket) (λ m. m.created_at) db.support_messages)

abbrev pub reason_or : Option Text → Option Text → Option Text
reason_or none other = other
reason_or (some r) other = some r

-- A subject of none is the general one.
unfoldable pub ticket_row : Db → SupportTicket → TicketRow
ticket_row db t = record {
  ticket = t;
  subject = reason_or t.escalation_reason (first_words t.id db);
  user_name = shown true (λ u. u.full_name) (find? (λ u. u.id == t.user_id) db.users);
  assigned_admin_name = name_if t.assigned_admin_id db.users;
}

-- `getUserTickets`
unfoldable pub get_user_tickets : ℕ → Db → List TicketRow
unfolding ticket_row
get_user_tickets user db =
    map (ticket_row db)
      (sort_desc (λ t. t.updated_at) (filter_where (λ t. t.user_id == user) db.tickets))

-- `severityWeight`
abbrev pub severity_weight : SupportPriority → ℕ
severity_weight SupportPriority.critical = 5
severity_weight SupportPriority.urgent = 4
severity_weight SupportPriority.high = 3
severity_weight SupportPriority.normal = 2
severity_weight SupportPriority.low = 1

abbrev pub is_running : ℕ → Option ℕ → Bool
is_running now none = false
is_running now (some end) = ltb now end

abbrev pub tier_of : ℕ → Option UserQuota → Plan
tier_of now none = free
tier_of now (some q) = if is_running now q.plan_expires_at then q.plan_type else free

-- `commercialTier`
abbrev pub commercial_tier : ℕ → Db → SupportTicket → Plan
commercial_tier now db t = tier_of now (find_quota t.user_id db.quotas)

-- `commercialWeight`
abbrev pub commercial_weight : Plan → ℕ
commercial_weight premium = 200
commercial_weight owner_plus = 100
commercial_weight free = 0

-- `score`: the plan, and 20 for every day that the ticket has waited.
abbrev pub ticket_score : ℕ → Db → SupportTicket → ℕ
ticket_score now db t =
    commercial_weight (commercial_tier now db t) + (now - t.created_at) / day_ms * 20

abbrev pub has_status : Option TicketStatus → SupportTicket → Bool
has_status none t = true
has_status (some s) t = ticket_code t.status == ticket_code s

abbrev pub has_tier : ℕ → Db → Option Plan → SupportTicket → Bool
has_tier now db none t = true
has_tier now db (some p) t = commercial_weight (commercial_tier now db t) == commercial_weight p

-- The queue: by severity, then by score, then the oldest first. The sorts keep the order of equals.
unfoldable pub sort_tickets : ℕ → Db → List SupportTicket → List SupportTicket
sort_tickets now db tickets =
    sort_desc (λ t. severity_weight t.priority)
      (sort_desc (ticket_score now db) (sort_asc (λ t. t.created_at) tickets))

abbrev pub drop : ℕ → List SupportTicket → List SupportTicket
drop n [] = []
drop n (t ∷ ts) = let rest = drop (n - 1) ts in if n == 0 then t ∷ ts else rest

-- `Math.max(1, page || 1)`
abbrev pub page_or_one : Option ℕ → ℕ
page_or_one none = 1
page_or_one (some n) = if n == 0 then 1 else n

-- `Math.min(50, Math.max(1, pageSize || 20))`
abbrev pub size_or_twenty : Option ℕ → ℕ
size_or_twenty none = 20
size_or_twenty (some n) = if n == 0 then 20 else if leb n 50 then n else 50

pub record TicketPage : Type 0 where
  pub items : List TicketRow
  pub total : ℕ

-- `getAdminTickets`
unfoldable pub get_admin_tickets :
    ℕ → Option TicketStatus → Option Plan → Option ℕ → Option ℕ → Db → TicketPage
unfolding ticket_row sort_tickets
get_admin_tickets now status tier page size db =
    let kept = filter_where (λ t. has_status status t && has_tier now db tier t) db.tickets in
    let sorted = sort_tickets now db kept in
    record {
      items =
          map (ticket_row db) (
            take (size_or_twenty size)
              (drop ((page_or_one page - 1) * size_or_twenty size) sorted));
      total = length sorted;
    }
