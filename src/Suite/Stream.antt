-- ===== src/Suite/Stream.antt =====
-- The stream cipher over whole byte arrays (`vccrypt_stream_encrypt`, `vccrypt_stream_decrypt`).
use v_j_bc.Base.{◌∙◌, ℕ, suc, ◌+◌, ◌≡◌, refl, ap, Bytes, [], ◌∷◌, ◌++◌, length, arith}

-- The bytes `text` from `position` on, each by the cipher `f`.
pub crypt : (ℕ → ℕ → ℕ) → ℕ → Bytes → Bytes
crypt f position [] = []
crypt f position (b ∷ text) = f position b ∷ crypt f (suc position) text

pub length-crypt :
    (f : ℕ → ℕ → ℕ) (position : ℕ) (text : Bytes) → length (crypt f position text) ≡ length text
unfolding crypt
length-crypt f position [] = refl
length-crypt f position (b ∷ text) = ap suc (length-crypt f (suc position) text)

-- Two ciphertexts with adjacent positions are the ciphertext of the whole.
pub crypt-append :
    (f : ℕ → ℕ → ℕ) (position : ℕ) (a b : Bytes)
    → crypt f position (a ++ b) ≡ crypt f position a ++ crypt f (position + length a) b
unfolding crypt
crypt-append f position [] b = ap (λ n. crypt f n b) (omega arith)
crypt-append f position (x ∷ a) b =
    ap (λ t. f position x ∷ t)
      (crypt-append f (suc position) a b
        ∙ ap (λ n. crypt f (suc position) a ++ crypt f n b) (omega arith))

pub crypt-crypt :
    (f g : ℕ → ℕ → ℕ)
    → ((n b : ℕ) → g n (f n b) ≡ b)
    → (position : ℕ) (text : Bytes) → crypt g position (crypt f position text) ≡ text
unfolding crypt
crypt-crypt f g inverse position [] = refl
crypt-crypt f g inverse position (b ∷ text) =
    rw (inverse position b, crypt-crypt f g inverse (suc position) text)
