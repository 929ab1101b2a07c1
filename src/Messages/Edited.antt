-- ===== src/Messages/Edited.antt =====
-- Who may change a message, and for how long.
use propmatch_backend.Prelude.{
  ℕ, ◌-◌, ◌*◌, ◌≤◌, ◌≡◌, some, inl, inr, false, not, ◌==◌, Bool-cases, Option-cases, arith, length,
  find?, update_where, filter_where,
}
use propmatch_backend.Text.{Text, trim}
use propmatch_backend.Store.{
  Message, MatchConnection, Db, Error, ok, bad_request, throw_if, bind-steps, ◌>>◌,
}
use propmatch_backend.Messages.Crypto.{Seal, is_empty, encrypt_text}
use propmatch_backend.Messages.Chat.{
  own_message, is_late, edit, check_edit, write_edit, update_message, write_removal, delete_message,
}

-- The message is stored, was sent by this user, and is at most fifteen minutes old.
pub record IsRecent (now user id : ℕ) (m : Message) (db : Db) : Type 0 where
  pub stored : find? (λ x. x.id == id) db.messages ≡ some m
  pub own : m.sender_id ≡ user
  pub recent : now - m.created_at ≤ 15 * 60 * 1000

own_message_lem :
    (user id : ℕ) (db d : Db) (found : Message × MatchConnection)
    → own_message user id db ≡ (ok found, d)
    → (find? (λ x. x.id == id) db.messages ≡ some found.0) × (found.0.sender_id ≡ user) × (d ≡ db)
unfolding own_message
own_message_lem user id db d found h = elim (Option-cases (find? (λ x. x.id == id) db.messages)) [
  | inl unknown ↦ absurd (ground arith)
  | inr (m, stored) ↦ elim (Bool-cases (m.sender_id == user)) [
    | inr other ↦ absurd (ground arith)
    | inl own ↦
        let same : m ≡ found.0 = ground arith in
        (rw (← same) stored, rw (← same) (ground arith), ground arith)
  ]
]

check_edit_lem :
    (now : ℕ) (body : Text) (m : Message) (db d : Db)
    → check_edit now body m db ≡ (ok tt, d)
    → (is_empty body ≡ false) × (length body ≤ 1000) × (is_late now m ≡ false) × (d ≡ db)
unfolding check_edit
check_edit_lem now body m db d h = (ground arith, ground arith, ground arith, ground arith)

write_edit_lem :
    (seal : Seal) (now : ℕ) (iv : Text) (user id : ℕ) (body text : Text)
    (found : Message × MatchConnection) (db db' : Db)
    → write_edit seal now iv user id body found db ≡ (ok text, db')
    → (text ≡ body)
      × (db'.messages
          ≡ update_where (λ x. x.id == id) (edit (encrypt_text seal iv body) now) db.messages)
unfolding write_edit
write_edit_lem seal now iv user id body text (m, c) db db' h = (ground arith, ground arith)

-- An edit that goes through is of the user's own message, at most fifteen minutes after it was
-- sent, with a text that is neither empty nor longer than 1000 characters once its outer white
-- space is off; it is stored encrypted, with the time of the edit, and no other message changes.
pub update_message-IsRecent :
    (seal : Seal) (now : ℕ) (iv : Text) (user id : ℕ) (raw text : Text) (db db' : Db)
    → update_message seal now iv user id raw db ≡ (ok text, db')
    → ((m : Message) × IsRecent now user id m db)
      × (text ≡ trim raw)
      × (is_empty text ≡ false)
      × (length text ≤ 1000)
      × (db'.messages
          ≡ update_where (λ x. x.id == id) (edit (encrypt_text seal iv text) now) db.messages)
unfolding update_message
update_message-IsRecent seal now iv user id raw text db db' h =
    let (found, d, read, rest) =
      bind-steps (own_message user id)
        (λ x. check_edit now (trim raw) x.0 >> write_edit seal now iv user id (trim raw) x) db db'
        text h in
    let (stored, own, quiet) = own_message_lem user id db d found read in
    let (_, mid, checked, written) =
      bind-steps (check_edit now (trim raw) found.0)
        (λ _. write_edit seal now iv user id (trim raw) found) d db' text rest in
    let (full, short, timely, same) = check_edit_lem now (trim raw) found.0 d mid checked in
    let (plain, rows) = write_edit_lem seal now iv user id (trim raw) text found mid db' written in
    (
      (found.0, record { stored = stored; own = own; recent = ground arith }),
      plain,
      rw plain full,
      rw plain short,
      rw (plain, ← quiet, ← same) rows,
    )

check_late_lem :
    (now : ℕ) (m : Message) (e : Error) (db d : Db)
    → throw_if (is_late now m) e db ≡ (ok tt, d)
    → (now - m.created_at ≤ 15 * 60 * 1000) × (d ≡ db)
check_late_lem now m e db d h = (ground arith, ground arith)

write_removal_lem :
    (user id : ℕ) (found : Message × MatchConnection) (db db' : Db)
    → write_removal user id found db ≡ (ok tt, db')
    → db'.messages ≡ filter_where (λ x. not (x.id == id)) db.messages
unfolding write_removal
write_removal_lem user id (m, c) db db' h = elim (Option-cases m.attachment_url) [
  | inl unattached ↦ ground arith
  | inr (url, attached) ↦ ground arith
]

-- A removal that goes through is of the user's own message, at most fifteen minutes after it was
-- sent, and removes that message and no other.
pub delete_message-IsRecent :
    (now user id : ℕ) (db db' : Db)
    → delete_message now user id db ≡ (ok tt, db')
    → ((m : Message) × IsRecent now user id m db)
      × (db'.messages ≡ filter_where (λ x. not (x.id == id)) db.messages)
unfolding delete_message
delete_message-IsRecent now user id db db' h =
    let refusal : Error = bad_request "a message can be removed for 15 minutes" in
    let (found, d, read, rest) =
      bind-steps (own_message user id)
        (λ x. throw_if (is_late now x.0) refusal >> write_removal user id x) db db' tt h in
    let (stored, own, quiet) = own_message_lem user id db d found read in
    let (_, mid, checked, written) =
      bind-steps (throw_if (is_late now found.0) refusal) (λ _. write_removal user id found) d db'
        tt rest in
    let (timely, same) = check_late_lem now found.0 refusal d mid checked in
    let rows = write_removal_lem user id found mid db' written in
    ((found.0, record { stored = stored; own = own; recent = timely }), rw (← quiet, ← same) rows)
