-- ===== src/Support/Escalated.antt =====
-- An escalation of the assistant, and its retries.
use propmatch_backend.Prelude.{
  ℕ, ◌≡◌, ◌∙◌, refl, ap, none, some, [], ◌∷◌, ◌++◌, true, ◌==◌, arith, find?, find?-append_new,
  find?-update_none, last_by, update_where, ==-refl,
}
use propmatch_backend.Text.{trim}
use propmatch_backend.Store.{User, SupportTicket, TicketStatus, Db, ok}
use propmatch_backend.Support.{
  TicketData, new_ticket, insert_ticket, has_ticket_id, is_open_of, has_key, Escalation, touch,
  append_escalation, announce_escalation, create_escalation, create_agent_escalation,
}

-- What the ticket of an escalation is made of.
abbrev pub escalation_data : ℕ → Escalation → TicketData
escalation_data user e = record {
  user_id = user;
  priority = e.priority;
  escalation_reason = some e.reason;
  ai_summary = some e.reason;
  agent_escalation_key = some e.agent_run_id;
  content = trim e.message;
}

abbrev pub escalated : ℕ → ℕ → Escalation → Db → SupportTicket
escalated now user e db = new_ticket db.next_id now (escalation_data user e)

escalated-has_key :
    (now user : ℕ) (e : Escalation) (db : Db)
    → has_key e.agent_run_id (escalated now user e db) ≡ true
escalated-has_key now user e db = ==-refl e.agent_run_id

module _ (others : Db → Db) (now user : ℕ) (e : Escalation) (db : Db) where
  duplicate_returned :
      (t : SupportTicket)
      → find? (has_key e.agent_run_id) db.tickets ≡ some t
      → create_agent_escalation others now user e db ≡ (ok t, db)
  unfolding create_agent_escalation
  duplicate_returned t found = ground arith

  created :
      (u : User)
      → find? (has_key e.agent_run_id) db.tickets ≡ none
      → last_by (is_open_of user) (λ t. t.updated_at) db.tickets ≡ none
      → find? (λ x. x.id == user) db.users ≡ some u
      → find? (has_key e.agent_run_id) (others db).tickets ≡ none
      → ((create_agent_escalation others now user e db).0 ≡ ok (escalated now user e (others db)))
        × ((create_agent_escalation others now user e db).1.tickets
            ≡ (others db).tickets ++ escalated now user e (others db) ∷ [])
  unfolding create_agent_escalation create_escalation insert_ticket announce_escalation
  created u fresh unopened known raced = (ground arith, ground arith)

  joined :
      (t : SupportTicket)
      → find? (has_key e.agent_run_id) db.tickets ≡ none
      → last_by (is_open_of user) (λ t. t.updated_at) db.tickets ≡ some t
      → ((create_agent_escalation others now user e db).0 ≡ ok t)
        × ((create_agent_escalation others now user e db).1.tickets
            ≡ update_where (has_ticket_id t.id) (touch TicketStatus.in_progress now) db.tickets)
  unfolding create_agent_escalation append_escalation
  joined t fresh opened = (ground arith, ground arith)

-- An escalation of a user without an open ticket makes exactly one ticket, with the key of its run;
-- any retry of the run, whenever it comes and whatever it says, returns that ticket and writes
-- nothing.
pub create_agent_escalation_once :
    (others later_others : Db → Db) (now later user : ℕ) (e again : Escalation) (db : Db) (u : User)
    → find? (has_key e.agent_run_id) db.tickets ≡ none
    → last_by (is_open_of user) (λ t. t.updated_at) db.tickets ≡ none
    → find? (λ x. x.id == user) db.users ≡ some u
    → find? (has_key e.agent_run_id) (others db).tickets ≡ none
    → again.agent_run_id ≡ e.agent_run_id
    → let t = escalated now user e (others db) in
      let db' = (create_agent_escalation others now user e db).1 in
      ((create_agent_escalation others now user e db).0 ≡ ok t)
      × (db'.tickets ≡ (others db).tickets ++ t ∷ [])
      × (create_agent_escalation later_others later user again db' ≡ (ok t, db'))
create_agent_escalation_once others later_others now later user e again db u fresh unopened known
      raced same =
    let t = escalated now user e (others db) in
    let db' = (create_agent_escalation others now user e db).1 in
    let (made, tickets) = created others now user e db u fresh unopened known raced in
    let stored : find? (has_key e.agent_run_id) db'.tickets ≡ some t =
      ap (find? (has_key e.agent_run_id)) tickets
      ∙ find?-append_new (has_key e.agent_run_id) (others db).tickets t raced
          (escalated-has_key now user e (others db)) in
    (made, tickets, duplicate_returned later_others later user again db' t (rw same stored))

-- An escalation that joins an open ticket leaves no trace of its run: the ticket is returned, and no
-- ticket has the key afterwards, so a retry of the run is not recognised.
pub create_agent_escalation_keyless :
    (others : Db → Db) (now user : ℕ) (e : Escalation) (db : Db) (t : SupportTicket)
    → find? (has_key e.agent_run_id) db.tickets ≡ none
    → last_by (is_open_of user) (λ t. t.updated_at) db.tickets ≡ some t
    → let db' = (create_agent_escalation others now user e db).1 in
      ((create_agent_escalation others now user e db).0 ≡ ok t)
      × (find? (has_key e.agent_run_id) db'.tickets ≡ none)
create_agent_escalation_keyless others now user e db t fresh opened =
    let (returned, tickets) = joined others now user e db t fresh opened in
    (
      returned,
      ap (find? (has_key e.agent_run_id)) tickets
          ∙ find?-update_none (has_ticket_id t.id) (has_key e.agent_run_id)
              (touch TicketStatus.in_progress now) db.tickets (λ y. refl) fresh,
    )
