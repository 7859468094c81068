-- ===== src/Streams/Envelope.antt =====
-- What is in a stream of data: the initialisation vector, if it begins there, and the ciphertext.
use v_j_bc.Base.{
  ℕ, ◌≡◌, ◌≤◌, sym, ap, ◌∙◌, false, ◌==◌, if◌then◌else◌, [], ◌++◌, Bytes, Bool, true, drop,
  take-append_eq, drop-append_eq, Option, none, some, arith, length, length-take, take,
  append_assoc,
}
use v_j_bc.Suite.{Suite, IsSuite}
use v_j_bc.Suite.Stream.{crypt, crypt-crypt, length-crypt, crypt-append}

module _ (suite : Suite) (key iv : Bytes) where
  -- The bytes `text`, which stand at `position` of the plaintext.
  abbrev pub ciphertext : ℕ → Bytes → Bytes
  ciphertext position text = crypt (suite.encrypt_byte key (take 8 iv)) position text

  -- A piece of an encrypted document. The first one begins with the initialisation vector.
  abbrev pub piece : ℕ → Bytes → Bytes
  piece position text = (if position == 0 then take 8 iv else []) ++ ciphertext position text

  pub length-ciphertext :
      (position : ℕ) (text : Bytes) → length (ciphertext position text) ≡ length text
  length-ciphertext = length-crypt (suite.encrypt_byte key (take 8 iv))

  -- Two pieces, one behind the other, are the piece of the whole.
  pub piece-append :
      (a b : Bytes) → 1 ≤ length a → piece 0 (a ++ b) ≡ piece 0 a ++ piece (length a) b
  piece-append a b some_a = rw (not_zero) (
      ap (λ t. take 8 iv ++ t) (crypt-append (suite.encrypt_byte key (take 8 iv)) 0 a b)
      ∙ ap (λ n. take 8 iv ++ (ciphertext 0 a ++ ciphertext n b)) (omega arith)
      ∙ sym (append_assoc (take 8 iv) (ciphertext 0 a) (ciphertext (length a) b)))
    where
      not_zero : (length a == 0) ≡ false
      not_zero = ground (arith, some_a)

-- An array that is not null has at least `n` bytes.
abbrev pub AtLeast : ℕ → Option Bytes → Type 0
AtLeast n none = Unit
AtLeast n (some a) = n ≤ length a

-- What a reader makes of a piece, of which the first one brings its own vector.
module _ (suite : Suite) (key iv : Bytes) where
  abbrev pub vector_of : Bool → Bytes → Bytes
  vector_of first input = if first then take 8 input else take 8 iv

  abbrev pub plaintext : Bool → ℕ → Bytes → Bytes
  plaintext first position input =
      crypt (suite.decrypt_byte key (vector_of first input)) position
        (drop (if first then 8 else 0) input)

  pub plaintext-piece :
      (laws : IsSuite suite) (first : Bool) (position : ℕ) (text : Bytes)
      → 8 ≤ length iv
      → plaintext first position
          ((if first then take 8 iv else []) ++ ciphertext suite key iv position text)
        ≡ text
  plaintext-piece laws true position text long =
      rw
        (
          take-append_eq 8 (take 8 iv) (ciphertext suite key iv position text)
              (omega (arith, length-take 8 iv)),
          drop-append_eq 8 (take 8 iv) (ciphertext suite key iv position text)
              (omega (arith, length-take 8 iv)),
        )
        (crypt-crypt (suite.encrypt_byte key (take 8 iv)) (suite.decrypt_byte key (take 8 iv))
          (laws.decrypt_byte-encrypt_byte key (take 8 iv)) position text)
  plaintext-piece laws false position text long =
      crypt-crypt (suite.encrypt_byte key (take 8 iv)) (suite.decrypt_byte key (take 8 iv))
        (laws.decrypt_byte-encrypt_byte key (take 8 iv)) position text
