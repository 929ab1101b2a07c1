-- ===== src/Accounts/Reactivation.antt =====
-- src/auth/auth.service.ts: `requestReactivation`, for accounts that are deleted or suspended.
use propmatch_backend.Prelude.{
  ℕ, ◌+◌, ◌≡◌, refl, Option, none, some, [], ◌∷◌, ◌++◌, map, Bool, true, false, not, ◌&&◌, ◌==◌,
  is_some, find?, last_by, filter_where, Bool-cases, Option-cases, inl, inr, arith,
}
use propmatch_backend.Text.{Text}
use propmatch_backend.Store.{
  User, ActivationRequest, ActivationRequestStatus, SupportTicket, NotificationType, Notice,
  reactivation_announced, Db, Action, pure, gets, throw, or_throw, throw_if, modify, ◌>>=◌, ◌>>◌,
  unauthorized,
}
use propmatch_backend.Messages.Chat.{emit}
use propmatch_backend.Accounts.{has_email, is_suspended, role_code}
use propmatch_backend.Support.{is_appeal, create_suspension_appeal, insert_ticket}

abbrev pub request_status_code : ActivationRequestStatus → ℕ
request_status_code ActivationRequestStatus.pending = 0
request_status_code ActivationRequestStatus.approved = 1
request_status_code ActivationRequestStatus.rejected = 2

abbrev pub is_pending_of : ℕ → ActivationRequest → Bool
is_pending_of user r = r.user_id == user && request_status_code r.status == 0

-- What a request comes to: an appeal ticket, or a request for reactivation.
pub data Reactivation : Type 0 where
  appealed : SupportTicket → Reactivation
  requested : ActivationRequest → Reactivation

-- `{ role: 'ADMIN', deletedAt: null }`
abbrev pub is_kept_admin : User → Bool
is_kept_admin u = role_code u.role == 2 && not (is_some u.deleted_at)

abbrev pub reactivation_notice : User → Notice
reactivation_notice u = record {
  user_id = u.id;
  type = NotificationType.reactivation_request;
  title = "a new request for reactivation";
  link = "/admin/reactivations";
  price = none;
}

abbrev pub new_request : ℕ → ℕ → ℕ → ActivationRequest
new_request id now user = record {
  id = id;
  user_id = user;
  status = ActivationRequestStatus.pending;
  created_at = now;
}

-- The pending request of a deleted account, or a new one, of which the administrators are told.
abbrev pub request_if : ℕ → ℕ → Option ActivationRequest → Action Reactivation
request_if now user (some r) = pure (requested r)
request_if now user none = do
  id ← gets (λ db. db.next_id)
  let r = new_request id now user
  modify (λ db. record db {
    activation_requests = db.activation_requests ++ r ∷ [];
    notices = db.notices ++ map reactivation_notice (filter_where is_kept_admin db.users);
    next_id = db.next_id + 1;
  })
  emit (reactivation_announced id)
  pure (requested r)

unfoldable pub request_for_deleted : ℕ → User → Action Reactivation
request_for_deleted now u = do
  existing ← gets (λ db. find? (is_pending_of u.id) db.activation_requests)
  request_if now u.id existing

unfoldable pub appeal_for_suspended : ℕ → User → Option Text → Action Reactivation
unfolding create_suspension_appeal
appeal_for_suspended now u message = do
  ticket ← create_suspension_appeal now u.id u.full_name message
  pure (appealed ticket)

-- The account is live: it may appeal while it is suspended.
abbrev pub appeal_while : Bool → ℕ → User → Option Text → Action Reactivation
appeal_while true now u message = appeal_for_suspended now u message
appeal_while false now u message = throw (unauthorized "INVALID_CREDENTIALS")

abbrev pub reactivate_by : Option ℕ → ℕ → User → Option Text → Action Reactivation
reactivate_by none now u message = appeal_while (is_suspended now u) now u message
reactivate_by (some deleted) now u message = request_for_deleted now u

-- `requestReactivation`
unfoldable pub request_reactivation :
    (Text → Text → Bool) → ℕ → Text → Text → Option Text → Action Reactivation
unfolding request_for_deleted appeal_for_suspended
request_reactivation compare now email password message = do
  found ← gets (λ db. find? (has_email email) db.users)
  user ← or_throw found (unauthorized "INVALID_CREDENTIALS")
  throw_if (not (compare password user.password_hash)) (unauthorized "INVALID_CREDENTIALS")
  reactivate_by user.deleted_at now user message

appeal_keeps_users :
    (now : ℕ) (u : User) (message : Option Text) (db : Db)
    → (appeal_for_suspended now u message db).1.users ≡ db.users
unfolding appeal_for_suspended create_suspension_appeal insert_ticket
appeal_keeps_users now u message db =
    elim (Option-cases (last_by (is_appeal u.id) (λ t. t.created_at) db.tickets)) [
      | inl new ↦ ground arith
      | inr (t, open_appeal) ↦ ground arith
    ]

request_keeps_users :
    (now : ℕ) (u : User) (db : Db) → (request_for_deleted now u db).1.users ≡ db.users
unfolding request_for_deleted
request_keeps_users now u db =
    elim (Option-cases (find? (is_pending_of u.id) db.activation_requests)) [
      | inl new ↦ ground arith
      | inr (r, pending) ↦ ground arith
    ]

reactivate_keeps_users :
    (deleted : Option ℕ) (now : ℕ) (u : User) (message : Option Text) (db : Db)
    → (reactivate_by deleted now u message db).1.users ≡ db.users
reactivate_keeps_users (some d) now u message db = request_keeps_users now u db
reactivate_keeps_users none now u message db = elim (Bool-cases (is_suspended now u)) [
  | inl suspended ↦ rw suspended (appeal_keeps_users now u message db)
  | inr live ↦ rw live refl
]

-- Asking for reactivation restores nothing: whatever the state of the account, no account changes.
pub request_reactivation_keeps :
    (compare : Text → Text → Bool) (now : ℕ) (email password : Text) (message : Option Text)
    (db : Db)
    → (request_reactivation compare now email password message db).1.users ≡ db.users
unfolding request_reactivation
request_reactivation_keeps compare now email password message db =
    elim (Option-cases (find? (has_email email) db.users)) [
      | inl unknown ↦ ground arith
      | inr (u, found) ↦ elim (Bool-cases (compare password u.password_hash)) [
        | inr wrong ↦ ground arith
        | inl right ↦ ground (arith, reactivate_keeps_users u.deleted_at now u message db)
      ]
    ]
