-- ===== src/Reviews/Once.antt =====
-- One review of a lease for each of its parties.
use propmatch_backend.Prelude.{
  ℕ, ◌≡◌, ◌∙◌, sym, ap, Option-cases, inl, inr, none, some, [], ◌∷◌, ◌++◌, true, find?,
  find?-append_new, arith,
}
use propmatch_backend.Store.{UserReview, Db, ok, bind-steps}
use propmatch_backend.Reviews.{
  CreateUserReview, ContractContext, is_review_of, contract_context, check_review, insert_review,
  create_review,
}

insert_review-added :
    (others : Db → Db) (now user contract : ℕ) (dto : CreateUserReview) (c : ContractContext)
    (db db' : Db) (r : UserReview)
    → insert_review others now user contract dto c db ≡ (ok r, db')
    → (find? (is_review_of contract user) (others db).user_reviews ≡ none)
      × (db'.user_reviews ≡ (others db).user_reviews ++ r ∷ [])
      × (is_review_of contract user r ≡ true)
      × (r.reviewee_id ≡ c.reviewee_id)
unfolding insert_review
insert_review-added others now user contract dto c db db' r h =
    (ground arith, ground arith, ground arith, ground arith)

check_review-first :
    (user contract : ℕ) (dto : CreateUserReview) (db d : Db) (c : ContractContext)
    → check_review user contract dto db ≡ (ok c, d)
    → (find? (is_review_of contract user) db.user_reviews ≡ none) × (d ≡ db)
unfolding check_review contract_context
check_review-first user contract dto db d c h =
    elim (Option-cases (find? (is_review_of contract user) db.user_reviews)) [
      | inl new ↦ (new, ground arith)
      | inr (r, stored) ↦ absurd (ground arith)
    ]

-- A review that is stored is the first of its author on the lease, in the state that the handler read
-- and in the one it wrote to, and is the one row that is added; after it the author is never given a
-- review of that lease again, whatever it says.
pub create_review_once :
    (others later_others : Db → Db) (now later user contract : ℕ) (dto again : CreateUserReview)
    (db db' d : Db) (r second : UserReview)
    → create_review others now user contract dto db ≡ (ok r, db')
    → (find? (is_review_of contract user) db.user_reviews ≡ none)
      × (find? (is_review_of contract user) (others db).user_reviews ≡ none)
      × (db'.user_reviews ≡ (others db).user_reviews ++ r ∷ [])
      × ¬ (create_review later_others later user contract again db' ≡ (ok second, d))
unfolding create_review
create_review_once others later_others now later user contract dto again db db' d r second h =
    let (c, mid, checked, rest) =
      bind-steps (check_review user contract dto) (insert_review others now user contract dto) db
        db' r h in
    let (first, same) = check_review-first user contract dto db mid c checked in
    let run : insert_review others now user contract dto c db ≡ (ok r, db') =
      ap (insert_review others now user contract dto c) (sym same) ∙ rest in
    let (unraced, added, mine, subject) =
      insert_review-added others now user contract dto c db db' r run in
    let stored : find? (is_review_of contract user) db'.user_reviews ≡ some r =
      ap (find? (is_review_of contract user)) added
      ∙ find?-append_new (is_review_of contract user) (others db).user_reviews r unraced mine in
    (
      first,
      unraced,
      added,
      λ h'.
          let (c', mid', checked', rest') =
            bind-steps (check_review user contract again)
              (insert_review later_others later user contract again) db' d second h' in
          let (none_yet, _) = check_review-first user contract again db' mid' c' checked' in cc,
    )
