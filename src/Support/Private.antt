-- ===== src/Support/Private.antt =====
-- The internal notes of a ticket.
use propmatch_backend.Prelude.{
  Occurs, map-Occurs, filter_where-Occurs, sort_asc-Occurs, ==-refl, ℕ, ◌≡◌, ◌∙◌, refl, sym, ap,
  Option, none, some, List, [], ◌∷◌, ◌++◌, map, true, false, not, ◌==◌, find?, filter_where, All,
  Bool-cases, inl, inr, arith,
}
use propmatch_backend.Store.{SupportTicket, SupportMessage, reply_pushed, Db, ok, bind-steps}
use propmatch_backend.Support.{
  has_ticket_id, PostReply, reply_text, check_admin_reply, write_admin_reply, add_admin_reply,
  store_reply, tell_user,
}
use propmatch_backend.Support.Detail.{
  show_author, is_shown, TicketDetail, messages_of, map_to_ticket_detail, get_ticket_detail,
}

-- What the owner of a ticket may see.
abbrev pub IsPublic : SupportMessage → Type 0
IsPublic m = m.internal ≡ false

shown_to_owner :
    (t : SupportTicket) (m : SupportMessage) → is_shown (some t.user_id) t m ≡ not m.internal
shown_to_owner t m = ground arith

shown-IsPublic :
    (t : SupportTicket) (ms : List SupportMessage)
    → All IsPublic (map show_author (filter_where (is_shown (some t.user_id) t) ms))
shown-IsPublic t [] = tt
shown-IsPublic t (m ∷ ms) = elim (Bool-cases m.internal) [
  | inl hidden ↦ rw (shown_to_owner t m, hidden) (shown-IsPublic t ms)
  | inr open_note ↦ rw (shown_to_owner t m, open_note) (refl, shown-IsPublic t ms)
]

stranger_shown :
    (requester : ℕ) (t : SupportTicket) (m : SupportMessage)
    → (requester == t.user_id) ≡ false
    → is_shown (some requester) t m ≡ true
stranger_shown requester t m other = ground arith

-- A stranger's filter drops nothing.
shown_to_stranger :
    (requester : ℕ) (t : SupportTicket) (ms : List SupportMessage)
    → (requester == t.user_id) ≡ false
    → filter_where (is_shown (some requester) t) ms ≡ ms
shown_to_stranger requester t [] other = refl
shown_to_stranger requester t (m ∷ ms) other =
    rw (stranger_shown requester t m other)
      (ap (λ x. m ∷ x) (shown_to_stranger requester t ms other))

shown_to_staff :
    (t : SupportTicket) (ms : List SupportMessage) → filter_where (is_shown none t) ms ≡ ms
shown_to_staff t [] = refl
shown_to_staff t (m ∷ ms) = ap (λ x. m ∷ x) (shown_to_staff t ms)

get_ticket_detail-found :
    (id : ℕ) (requester : Option ℕ) (db : Db) (t : SupportTicket)
    → find? (has_ticket_id id) db.tickets ≡ some t
    → get_ticket_detail id requester db ≡ (ok (map_to_ticket_detail requester db t), db)
unfolding get_ticket_detail
get_ticket_detail-found id requester db t found = ground arith

-- The owner of a ticket is shown none of its internal notes.
pub get_ticket_detail-IsPublic :
    (id : ℕ) (db : Db) (t : SupportTicket)
    → find? (has_ticket_id id) db.tickets ≡ some t
    → (d : TicketDetail) × (get_ticket_detail id (some t.user_id) db ≡ (ok d, db))
      × (d.ticket ≡ t)
      × All IsPublic d.messages
unfolding map_to_ticket_detail
get_ticket_detail-IsPublic id db t found = (
  map_to_ticket_detail (some t.user_id) db t,
  get_ticket_detail-found id (some t.user_id) db t found,
  refl,
  shown-IsPublic t (messages_of t.id db),
)

detail-Occurs :
    (requester : ℕ) (db : Db) (t : SupportTicket) (m : SupportMessage)
    → (requester == t.user_id) ≡ false
    → Occurs m db.support_messages
    → m.ticket_id ≡ t.id
    → Occurs (show_author m) (map_to_ticket_detail (some requester) db t).messages
unfolding map_to_ticket_detail
detail-Occurs requester db t m other stored of_ticket =
    let mine : (m.ticket_id == t.id) ≡ true = rw of_ticket (==-refl t.id) in
    let listed : Occurs m (messages_of t.id db) =
      sort_asc-Occurs (λ x. x.created_at) m
        (filter_where (λ x. x.ticket_id == t.id) db.support_messages)
        (filter_where-Occurs (λ x. x.ticket_id == t.id) m db.support_messages mine stored) in
    map-Occurs show_author m (filter_where (is_shown (some requester) t) (messages_of t.id db)) (
      filter_where-Occurs (is_shown (some requester) t) m (messages_of t.id db)
        (stranger_shown requester t m other) listed)

shown_author :
    (m : SupportMessage)
    → ((show_author m).id ≡ m.id)
      × ((show_author m).content ≡ m.content)
      × ((show_author m).internal ≡ m.internal)
shown_author m = (refl, refl, refl)

-- A user who asks for another's ticket is not refused: the answer is that ticket, and every message
-- that is stored on it, the internal notes too, stands in the answer with its text. It is the
-- answer that is built for no requester at all.
pub get_ticket_detail_stranger :
    (id requester : ℕ) (db : Db) (t : SupportTicket) (m : SupportMessage)
    → find? (has_ticket_id id) db.tickets ≡ some t
    → (requester == t.user_id) ≡ false
    → Occurs m db.support_messages
    → m.ticket_id ≡ t.id
    → (d : TicketDetail) × (note : SupportMessage) × (get_ticket_detail id (some requester) db
        ≡ (ok d, db))
      × (get_ticket_detail id none db ≡ (ok d, db))
      × (d.ticket ≡ t)
      × Occurs note d.messages
      × (note.id ≡ m.id)
      × (note.content ≡ m.content)
      × (note.internal ≡ m.internal)
unfolding map_to_ticket_detail
get_ticket_detail_stranger id requester db t m found other stored of_ticket =
    let (named, text, hidden) = shown_author m in
    let same : map_to_ticket_detail none db t ≡ map_to_ticket_detail (some requester) db t =
      ap
        (λ ms. record {
          ticket = t;
          user_name = (map_to_ticket_detail none db t).user_name;
          assigned_admin_name = (map_to_ticket_detail none db t).assigned_admin_name;
          messages = map show_author ms;
        })
        (shown_to_staff t (messages_of t.id db)
          ∙ sym (shown_to_stranger requester t (messages_of t.id db) other)) in
    (
      map_to_ticket_detail (some requester) db t,
      show_author m,
      get_ticket_detail-found id (some requester) db t found,
      get_ticket_detail-found id none db t found ∙ ap (λ d. (ok d, db)) same,
      refl,
      detail-Occurs requester db t m other stored of_ticket,
      named,
      text,
      hidden,
    )

check_admin_reply_lem :
    (id admin : ℕ) (r : PostReply) (db d : Db) (x t : SupportTicket)
    → find? (has_ticket_id id) db.tickets ≡ some t
    → check_admin_reply id admin r db ≡ (ok x, d)
    → (x ≡ t) × (d ≡ db)
unfolding check_admin_reply
check_admin_reply_lem id admin r db d x t found h = (ground arith, ground arith)

write_internal :
    (now id admin : ℕ) (r : PostReply) (t : SupportTicket) (db db' : Db)
    → r.internal ≡ true
    → write_admin_reply now id admin r t db ≡ (ok tt, db')
    → (db'.notices ≡ db.notices)
      × (db'.effects ≡ db.effects ++ reply_pushed t.user_id id (reply_text r) true ∷ [])
unfolding write_admin_reply store_reply tell_user
write_internal now id admin r t db db' hidden h = (ground arith, ground arith)

-- An internal note of an administrator gives the user no notice and no mail, but its text is pushed
-- to the sockets of the ticket's user all the same.
pub add_admin_reply_pushed :
    (now id admin : ℕ) (r : PostReply) (t : SupportTicket) (db db' : Db)
    → find? (has_ticket_id id) db.tickets ≡ some t
    → r.internal ≡ true
    → add_admin_reply now id admin r db ≡ (ok tt, db')
    → (db'.notices ≡ db.notices)
      × (db'.effects ≡ db.effects ++ reply_pushed t.user_id id (reply_text r) true ∷ [])
unfolding add_admin_reply
add_admin_reply_pushed now id admin r t db db' found hidden h =
    let (x, d, checked, written) =
      bind-steps (check_admin_reply id admin r) (write_admin_reply now id admin r) db db' tt h in
    let (same, quiet) = check_admin_reply_lem id admin r db d x t found checked in
    let run : write_admin_reply now id admin r t db ≡ (ok tt, db') = rw (← same, ← quiet) written in
    write_internal now id admin r t db db' hidden run
