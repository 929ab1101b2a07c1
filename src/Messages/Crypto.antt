-- ===== src/Messages/Crypto.antt =====
-- src/messages/crypto.util.ts: the stored form `enc:iv:tag:ciphertext` of a message. `seal` and
-- `unseal` are node's AES-256-GCM under the key of the service, with hexadecimal output; `unseal` has
-- none where node throws.
use propmatch_backend.Prelude.{
  ℕ, ◌≡◌, ◌∙◌, ap, refl, Option, some, List, [], ◌∷◌, ◌++◌, Bool, true, false, not, ◌&&◌, leb, ◌==◌,
  if◌then◌else◌, or_else, All,
}
use propmatch_backend.Text.{Text}
use propmatch_backend.Offers.Score.{starts_with}

-- The code unit of a colon.
abbrev pub colon : ℕ
colon = 58

-- 'enc:'
abbrev pub marker : Text
marker = b'e' ∷ b'n' ∷ b'c' ∷ colon ∷ []

abbrev pub add_front : ℕ → List Text → List Text
add_front c [] = (c ∷ []) ∷ []
add_front c (w ∷ ws) = (c ∷ w) ∷ ws

-- `split(':')`
unfoldable pub split_colon : Text → List Text
split_colon [] = [] ∷ []
split_colon (c ∷ s) = let rest = split_colon s in if c == colon then [] ∷ rest else add_front c rest

abbrev pub is_empty : Text → Bool
is_empty [] = true
is_empty (_ ∷ _) = false

-- A plain text, sealed with a fresh initialization vector: the authentication tag and the ciphertext.
abbrev pub Seal : Type 0
Seal = Text → Text → Text × Text

-- The plain text of an initialization vector, a tag and a ciphertext.
abbrev pub Unseal : Type 0
Unseal = Text → Text → Text → Option Text

-- `encryptText`; `iv` is what `randomBytes` gave.
unfoldable pub encrypt_text : Seal → Text → Text → Text
encrypt_text seal iv text =
    let (tag, cipher) = seal iv text in
    if is_empty text then text else marker ++ (iv ++ colon ∷ (tag ++ colon ∷ cipher))

-- The parts of a stored text, put back together, or the stored text itself.
abbrev pub open_parts : Unseal → Text → List Text → Text
open_parts unseal stored (_ ∷ iv ∷ tag ∷ cipher ∷ _) = or_else (unseal iv tag cipher) stored
open_parts unseal stored _ = stored

-- `decryptText`
unfoldable pub decrypt_text : Unseal → Text → Text
unfolding split_colon
decrypt_text unseal stored =
    let opened = open_parts unseal stored (split_colon stored) in
    if starts_with marker stored then opened else stored

-- Hexadecimal digits: no colon among them.
abbrev pub IsPlain : Text → Type 0
IsPlain = All (λ c. (c == colon) ≡ false)

abbrev pub is_high : ℕ → Bool
is_high c = leb 0xd800 c && leb c 0xdbff

abbrev pub is_low : ℕ → Bool
is_low c = leb 0xdc00 c && leb c 0xdfff

-- `isWellFormed`: surrogates come in pairs. Node writes another text as UTF-8 with replacements.
-- The first argument tells whether a low surrogate is due.
unfoldable pub is_well_formed : Bool → Text → Bool
is_well_formed due [] = not due
is_well_formed true (c ∷ s) = is_low c && is_well_formed false s
is_well_formed false (c ∷ s) = not (is_low c) && is_well_formed (is_high c) s

-- What the service relies on: the output is hexadecimal, and a well-formed text that was
-- sealed is opened again.
pub record IsCipher (seal : Seal) (unseal : Unseal) : Type 0 where
  pub plain_tag : (iv text : Text) → IsPlain (seal iv text).0
  pub plain_cipher : (iv text : Text) → IsPlain (seal iv text).1
  pub opens :
      (iv text : Text)
      → is_well_formed false text ≡ true
      → unseal iv (seal iv text).0 (seal iv text).1 ≡ some text

split_colon-plain : (w : Text) → IsPlain w → split_colon w ≡ w ∷ []
unfolding split_colon
split_colon-plain [] h = refl
split_colon-plain (c ∷ w) (p, h) = rw (split_colon-plain w h, p) refl

-- A text without a colon is the first part of what it is joined to.
split_colon-join : (w s : Text) → IsPlain w → split_colon (w ++ colon ∷ s) ≡ w ∷ split_colon s
unfolding split_colon
split_colon-join [] s h = refl
split_colon-join (c ∷ w) s (p, h) = rw (split_colon-join w s h, p) refl

-- The parts of what was stored.
split_colon-stored :
    (iv tag cipher : Text)
    → IsPlain iv
    → IsPlain tag
    → IsPlain cipher
    → split_colon (marker ++ (iv ++ colon ∷ (tag ++ colon ∷ cipher)))
      ≡ (b'e' ∷ b'n' ∷ b'c' ∷ []) ∷ iv ∷ tag ∷ cipher ∷ []
split_colon-stored iv tag cipher p q r =
    split_colon-join (b'e' ∷ b'n' ∷ b'c' ∷ []) (iv ++ colon ∷ (tag ++ colon ∷ cipher))
      (refl, (refl, (refl, tt)))
    ∙ ap (λ ws. (b'e' ∷ b'n' ∷ b'c' ∷ []) ∷ ws)
        (split_colon-join iv (tag ++ colon ∷ cipher) p
          ∙ ap (λ ws. iv ∷ ws)
              (split_colon-join tag cipher q ∙ ap (λ ws. tag ∷ ws) (split_colon-plain cipher r)))

-- A well-formed message reads back as it was written, the empty one too, when the cipher opens what
-- it seals and writes no colon.
pub decrypt_text-encrypt_text :
    (seal : Seal) (unseal : Unseal) (iv text : Text)
    → IsCipher seal unseal
    → IsPlain iv
    → is_well_formed false text ≡ true
    → decrypt_text unseal (encrypt_text seal iv text) ≡ text
unfolding decrypt_text encrypt_text
decrypt_text-encrypt_text seal unseal iv [] cipher plain formed = refl
decrypt_text-encrypt_text seal unseal iv (c ∷ text) cipher plain formed =
    let stored = encrypt_text seal iv (c ∷ text) in
    ap (open_parts unseal stored) (
      split_colon-stored iv (seal iv (c ∷ text)).0 (seal iv (c ∷ text)).1 plain
        (cipher.plain_tag iv (c ∷ text)) (cipher.plain_cipher iv (c ∷ text)))
    ∙ ap (λ o. or_else o stored) (cipher.opens iv (c ∷ text) formed)
