-- ===== src/Dispatcher/Signature.antt =====
-- The signature of a webhook: sign and Verify of internal/webhook/dispatcher.go, and the header.
use Prim.Native.String.{◌++◌ as text_append}
use text.Mathlib.TextLemmas.{cons-append}
use ficct_boutique_backend_g.Base.{
  ℕ, ◌≡◌, ◌↔◌, ◌∙◌, refl, ap, String, Bool, true, false, List, All, str_eq, eq_iff, Bool-cases, inl,
  inr,
}
use ficct_boutique_backend_g.Text.Base64.{IsByte}
use ficct_boutique_backend_g.Text.Hex.{hex_encode, hex_encode-injective, hex_encode-s}

-- HMAC-SHA256 of the packages hmac and sha256: the bytes for a secret and a payload.
pub record Hmac : Type 0 where
  pub mac : String → List ℕ → List ℕ

unfoldable pub sign : Hmac → String → List ℕ → String
sign H secret payload = hex_encode (H.mac secret payload)

-- hmac.Equal tells whether the two texts have the same bytes.
unfoldable pub verify : Hmac → String → List ℕ → String → Bool
verify H secret payload sig = str_eq (sign H secret payload) sig

-- req.Header.Set("X-FICCT-Signature", "sha256="+signature)
abbrev pub signature_header : Hmac → String → List ℕ → String
signature_header H secret payload = text_append "sha256=" (sign H secret payload)

not_equal : (a b : String) → (a ≡ b → ⊥) → str_eq a b ≡ false
not_equal a b apart = elim (Bool-cases (str_eq a b)) [
  | inr other ↦ other
  | inl same ↦ absurd (apart ((eq_iff a b).0 same))
]

-- What is signed is verified; a signature made of another payload, or with another secret, is
-- accepted only where its code of authentication is the same; and the value of the header, which has
-- a prefix before the signature, is never accepted as it stands, whatever it was made of.
pub verify-sign :
    (H : Hmac) (secret other_secret : String) (payload other : List ℕ)
    → All IsByte (H.mac secret payload)
    → All IsByte (H.mac other_secret other)
    → (verify H secret payload (sign H secret payload) ≡ true)
      × ((verify H secret payload (sign H other_secret other) ≡ true)
          ↔ (H.mac secret payload ≡ H.mac other_secret other))
      × (verify H secret payload (signature_header H other_secret other) ≡ false)
unfolding verify sign
verify-sign H secret other_secret payload other bytes other_bytes =
    let a = hex_encode (H.mac secret payload) in
    let b = hex_encode (H.mac other_secret other) in
    (
      (eq_iff a a).1 refl,
      (
        (λ h.
            hex_encode-injective (H.mac secret payload) (H.mac other_secret other) bytes other_bytes
              ((eq_iff a b).0 h)),
        (λ e. (eq_iff a b).1 (ap hex_encode e)),
      ),
      not_equal a (text_append "sha256=" b) (λ same.
          hex_encode-s (H.mac secret payload) (text_append "ha256=" b) bytes
            (same ∙ cons-append "s" "ha256=" b)),
    )
