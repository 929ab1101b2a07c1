-- ===== src/Tests/Messages.antt =====
-- The conversation that the accepted offer of Offers.antt opened.
use propmatch_backend.Prelude.{
  ℕ, ◌+◌, ◌*◌, ◌/◌, ◌≤◌, ◌≡◌, refl, ap, none, some, [], ◌∷◌, map, true, false, ◌==◌, arith, length,
  find?, count_where, update_where, Occurs,
}
use propmatch_backend.Text.{Text, trim}
use propmatch_backend.Store.{MatchConnection, Message, TenantRequestStatus, Db, ok}
use propmatch_backend.TenantOffers.Market.{undisturbed}
use propmatch_backend.Offers.{accept_offer, create_offer}
use propmatch_backend.Messages.{
  is_conversation, confirmer, is_unconfirmed, confirm, confirm_agreement,
}
use propmatch_backend.Messages.Rows.{HasRows}
use propmatch_backend.Messages.Agreement.{IsSettled}
use propmatch_backend.Messages.Confirmed.{confirm_agreement-IsSettled, confirm_agreement_late}
use propmatch_backend.Messages.Crypto.{
  Seal, Unseal, IsCipher, IsPlain, is_well_formed, is_empty, encrypt_text,
}
use propmatch_backend.Messages.Chat.{
  MessageInput, body_of, send, update_message, edit, conversation,
}
use propmatch_backend.Messages.Sent.{send-Occurs}
use propmatch_backend.Messages.Edited.{IsRecent, update_message-IsRecent}
use propmatch_backend.Tests.Shop.{now}
use propmatch_backend.Tests.Offers.{wanted, accepted, connection}

talking : find? (is_conversation 9 101) accepted.connections ≡ some connection
unfolding create_offer accept_offer
talking = refl

abbrev agreed : Db
agreed = (confirm_agreement undisturbed now 9 101 accepted).1

unconfirmed : count_where (is_unconfirmed 101) accepted.connections ≡ 1
unfolding create_offer accept_offer
unconfirmed = refl

agrees : confirm_agreement undisturbed now 9 101 accepted ≡ (ok now, agreed)
unfolding create_offer accept_offer confirm_agreement
agrees = refl

confirm_agreement-IsSettled_example :
    (9 ≡ confirmer connection)
    × (now ≡ now)
    × (agreed.connections ≡ update_where (is_unconfirmed 101) (confirm now) accepted.connections)
    × HasRows connection accepted agreed
    × IsSettled connection agreed
confirm_agreement-IsSettled_example =
    confirm_agreement-IsSettled undisturbed now 9 101 accepted agreed connection now talking refl
      unconfirmed agrees

-- The tenant confirms in two windows.
abbrev confirming : Db → Db
confirming db = (confirm_agreement undisturbed now 9 101 db).1

abbrev dated : MatchConnection
dated = confirm now connection

none_left : count_where (is_unconfirmed 101) (confirming accepted).connections ≡ 0
unfolding create_offer accept_offer confirm_agreement
none_left = refl

stored_dated : find? (λ x. x.id == 101) (confirming accepted).connections ≡ some dated
unfolding create_offer accept_offer confirm_agreement
stored_dated = refl

confirm_agreement_late_example :
    confirm_agreement confirming (now + 5) 9 101 accepted ≡ (ok now, confirming accepted)
confirm_agreement_late_example =
    confirm_agreement_late confirming (now + 5) 9 101 accepted connection dated now talking refl
      none_left stored_dated refl refl

-- The request is closed while the confirmation is on its way.
abbrev closing : Db → Db
closing db = record db { requests = record wanted { status = TenantRequestStatus.closed } ∷ [] }

closing-unconfirmed : count_where (is_unconfirmed 101) (closing accepted).connections ≡ 1
unfolding create_offer accept_offer
closing-unconfirmed = refl

-- A toy cipher: every unit is doubled and made odd, so none is a colon.
abbrev odd : ℕ → ℕ
odd c = 2 * c + 1

abbrev seal : Seal
seal iv text = ([], map odd text)

abbrev unseal : Unseal
unseal iv tag cipher = some (map (λ c. c / 2) cipher)

odd-IsPlain : (text : Text) → IsPlain (map odd text)
odd-IsPlain [] = tt
odd-IsPlain (c ∷ text) = (ground arith, odd-IsPlain text)

odd-half : (text : Text) → map (λ c. c / 2) (map odd text) ≡ text
odd-half [] = refl
odd-half (c ∷ text) = let half : (2 * c + 1) / 2 ≡ c = omega arith in rw (half, odd-half text) refl

toy-IsCipher : IsCipher seal unseal
toy-IsCipher = record {
  plain_tag = λ iv text. tt;
  plain_cipher = λ iv text. odd-IsPlain text;
  opens = λ iv text formed. ap some (odd-half text);
}

abbrev greeting : MessageInput
greeting = record {
  body = some (32 ∷ 72 ∷ []);
  attachment_url = none;
  attachment_type = none;
  attachment_name = none;
  attachment_duration_ms = none;
}

abbrev written : Message
written = record {
  id = 102;
  match_connection_id = 101;
  sender_id = 9;
  body = 72 ∷ [];
  attachment_url = none;
  attachment_type = none;
  attachment_name = none;
  attachment_duration_ms = none;
  created_at = now;
  edited_at = none;
}

abbrev spoken : Db
spoken = (send seal now (48 ∷ []) 9 101 greeting accepted).1

speaks : send seal now (48 ∷ []) 9 101 greeting accepted ≡ (ok written, spoken)
unfolding create_offer accept_offer send trim
speaks = refl

formed : is_well_formed false (body_of greeting) ≡ true
unfolding trim is_well_formed
formed = refl

send-Occurs_example :
    (written.body ≡ body_of greeting)
    × (length written.body ≤ 1000)
    × Occurs (record { message = written; is_mine = 9 == 7 }) (conversation unseal 7 101 spoken)
send-Occurs_example =
    send-Occurs seal unseal now (48 ∷ []) 9 101 7 greeting written accepted spoken toy-IsCipher
      (refl, tt) formed speaks

abbrev edited : Db
edited = (update_message seal (now + 60000) (49 ∷ []) 9 102 (73 ∷ 32 ∷ []) spoken).1

edits :
    update_message seal (now + 60000) (49 ∷ []) 9 102 (73 ∷ 32 ∷ []) spoken ≡ (ok (73 ∷ []), edited)
unfolding create_offer accept_offer send update_message trim
edits = refl

update_message-IsRecent_example :
    ((m : Message) × IsRecent (now + 60000) 9 102 m spoken)
    × (73 ∷ [] ≡ trim (73 ∷ 32 ∷ []))
    × (is_empty (73 ∷ []) ≡ false)
    × (length {A = ℕ} (73 ∷ []) ≤ 1000)
    × (edited.messages
        ≡ update_where
            (λ x. x.id == 102)
            (edit (encrypt_text seal (49 ∷ []) (73 ∷ [])) (now + 60000))
            spoken.messages)
update_message-IsRecent_example =
    update_message-IsRecent seal (now + 60000) (49 ∷ []) 9 102 (73 ∷ 32 ∷ []) (73 ∷ []) spoken
      edited edits
