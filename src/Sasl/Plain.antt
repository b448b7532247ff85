-- ===== src/Sasl/Plain.antt =====
-- sasl_plain of xmpp-sasl.c.
use imcore.Prelude.{
  ℕ, ◌<◌, ◌≡◌, arith, if◌then◌else◌, Bool, true, List, ◌∷◌, ◌++◌, Option, none, some,
}
use imcore.Prelude.{Run, ok, length-append, All-append}
use imcore.Base64.Encode.{base64_encode, IsAscii}
use imcore.Base64.Decode.{base64_decode}
use imcore.Base64.RoundTrip.{base64_decode-base64_encode}

-- The message: NUL, the name, NUL, the password.
unfoldable pub plain_message : List ℕ → List ℕ → List ℕ
plain_message authid password = 0 ∷ (authid ++ 0 ∷ password)

unfoldable pub sasl_plain : Bool → Bool → List ℕ → List ℕ → Run (Option (List ℕ))
sasl_plain alloc malloc authid password =
    if alloc then base64_encode malloc (plain_message authid password) else ok none

-- For an ASCII name and password, and with its memory, the answer decodes to NUL, the name, NUL and the
-- password.
pub base64_decode-sasl_plain :
    (authid password : List ℕ)
    → IsAscii authid
    → IsAscii password
    → (text : List ℕ) × (sasl_plain true true authid password ≡ ok (some text))
      × (base64_decode true text ≡ ok (some (0 ∷ (authid ++ 0 ∷ password))))
unfolding sasl_plain plain_message
base64_decode-sasl_plain authid password a p =
    base64_decode-base64_encode (0 ∷ (authid ++ 0 ∷ password))
      (omega arith, All-append (λ c. c < 128) authid (0 ∷ password) a (omega arith, p))
      (omega (arith, length-append authid (0 ∷ password)))
