-- ===== src/Tests/Support.antt =====
-- Tickets of the landlord in the small shop.
use propmatch_backend.Prelude.{◌+◌, ◌≡◌, refl, none, some, [], ◌∷◌, ◌++◌, true, inl, Occurs}
use propmatch_backend.Text.{trim}
use propmatch_backend.Store.{
  UserRole, User, SupportPriority, SupportMessage, SupportAuthor, Db, ok, reply_pushed,
}
use propmatch_backend.TenantOffers.Market.{undisturbed}
use propmatch_backend.Support.{
  Escalation, create_agent_escalation, PostReply, reply_text, add_admin_reply,
}
use propmatch_backend.Support.Detail.{TicketDetail, get_ticket_detail}
use propmatch_backend.Support.Private.{get_ticket_detail_stranger, add_admin_reply_pushed}
use propmatch_backend.Support.Escalated.{escalated, create_agent_escalation_once}
use propmatch_backend.Tests.Shop.{now, landlord, shop}

abbrev request : Escalation
request = record {
  agent_run_id = 900;
  message = 72 ∷ [];
  reason = 82 ∷ [];
  priority = SupportPriority.high;
}

create_agent_escalation_once_example :
    let t = escalated now 7 request shop in
    let db' = (create_agent_escalation undisturbed now 7 request shop).1 in
    ((create_agent_escalation undisturbed now 7 request shop).0 ≡ ok t)
    × (db'.tickets ≡ shop.tickets ++ t ∷ [])
    × (create_agent_escalation undisturbed (now + 1) 7 request db' ≡ (ok t, db'))
create_agent_escalation_once_example =
    create_agent_escalation_once undisturbed undisturbed now (now + 1) 7 request request shop
      landlord refl refl refl refl refl

abbrev operator : User
operator = record landlord { id = 1; role = UserRole.admin }

abbrev helped : Db
helped = record shop {
  users = landlord ∷ operator ∷ [];
  tickets = escalated now 7 request shop ∷ [];
}

-- An internal note on that ticket.
abbrev secret : SupportMessage
secret = record {
  id = 300;
  ticket_id = 100;
  author_type = SupportAuthor.by_admin;
  author_name = 65 ∷ [];
  author_id = some 1;
  content = 83 ∷ [];
  attachment_url = none;
  attachment_type = none;
  attachment_name = none;
  attachment_duration_ms = none;
  internal = true;
  created_at = now;
}

abbrev guarded : Db
guarded = record helped { support_messages = secret ∷ [] }

get_ticket_detail_stranger_example :
    (d : TicketDetail) × (shown : SupportMessage) × (get_ticket_detail 100 (some 8) guarded
      ≡ (ok d, guarded))
    × (get_ticket_detail 100 none guarded ≡ (ok d, guarded))
    × (d.ticket ≡ escalated now 7 request shop)
    × Occurs shown d.messages
    × (shown.id ≡ 300)
    × (shown.content ≡ 83 ∷ [])
    × (shown.internal ≡ true)
get_ticket_detail_stranger_example =
    get_ticket_detail_stranger 100 8 guarded (escalated now 7 request shop) secret refl refl
      (inl refl) refl

abbrev note : PostReply
note = record {
  content = some (78 ∷ []);
  internal = true;
  attachment_url = none;
  attachment_type = none;
  attachment_name = none;
  attachment_duration_ms = none;
}

abbrev noted : Db
noted = (add_admin_reply now 100 1 note helped).1

notes : add_admin_reply now 100 1 note helped ≡ (ok tt, noted)
unfolding add_admin_reply trim
notes = refl

add_admin_reply_pushed_example :
    (noted.notices ≡ helped.notices)
    × (noted.effects ≡ helped.effects ++ reply_pushed 7 100 (reply_text note) true ∷ [])
add_admin_reply_pushed_example =
    add_admin_reply_pushed now 100 1 note (escalated now 7 request shop) helped noted refl refl
      notes
