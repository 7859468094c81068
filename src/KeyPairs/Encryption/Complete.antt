-- ===== src/KeyPairs/Encryption/Complete.antt =====
-- What the generation of an encryption key pair returns, in every case.
use v_j_bc.Base.{
  ℕ, ◌≡◌, refl, sym, Bool, true, false, none, some, [], Bytes, length, new_array, length-new_array,
  write_at, write_at-all,
}
use v_j_bc.Jni.{ExceptionClass, illegal_state, World, ◌>>=◌}
use v_j_bc.Jni.Point.{shape, Steps, Reason}
use v_j_bc.Jni.Rules.{Steps-bind, step_rules}
use v_j_bc.Jni.Completes.{Ends, run-Ends}
use v_j_bc.Suite.{Suite}
use v_j_bc.KeyPairs.Encryption.{
  KeyPair, cleanup, pub_dispose, pub_array_dispose, pub_key_dispose, create_pair, copy_pair,
  return_pair, generate_encryption_body, generate_encryption,
}

-- Why the generation refuses, and the class of the exception that says so.
pub data Refusal (initialized : Bool) : ExceptionClass → Type 0 where
  not_initialized : initialized ≡ false → Refusal initialized illegal_state

-- A copy into a new array is a copy.
pub copied : (a : Bytes) → write_at 0 a (new_array (length a)) ≡ a
copied a = write_at-all a (new_array (length a)) (sym (length-new_array (length a)))

module _ (suite : Suite) where
  -- The same, or a call that failed.
  abbrev pub Refused : Bool → ℕ → ℕ → ExceptionClass → Type 0
  Refused initialized = Reason suite.calls (Refusal initialized)

  -- A pair that a call of the suite creates.
  pub data IsPair (initialized : Bool) : KeyPair → Type 0 where
    is_pair : (n : ℕ) → initialized ≡ true → IsPair initialized (some (suite.key_pair n))

  -- The same, known as a pair.
  data IsCreated : Bytes × Bytes → Type 0 where
    is_created : (n : ℕ) → IsCreated (suite.key_pair n)

  ruleset reasons = (not_initialized, is_pair, is_created)

  module _ (b : Bool) where
    create_pair-Steps :
        Steps cleanup
          (λ r. r ≡ none)
          (Refused b)
          (shape [] none)
          (shape (cleanup pub_dispose) none)
          IsCreated
          (create_pair suite)
    unfolding create_pair
    create_pair-Steps = search (step_rules, reasons) depth 30

    copy_pair-Steps :
        (pair : Bytes × Bytes)
        → IsCreated pair
        → Steps cleanup
            (λ r. r ≡ none)
            (Refused b)
            (shape (cleanup pub_dispose) none)
            (shape (cleanup pub_array_dispose) none)
            IsCreated
            (copy_pair suite pair)
    unfolding copy_pair
    copy_pair-Steps pair is = search (step_rules, reasons, same) depth 30
      where
        same : IsCreated (
          write_at 0 pair.0 (new_array (length pair.0)),
          write_at 0 pair.1 (new_array (length pair.1)),
        )
        same = rw (copied pair.0, copied pair.1) is

    return_pair-Steps :
        b ≡ true
        → (pair : Bytes × Bytes) → IsCreated pair
        → Steps cleanup
            (λ r. r ≡ none)
            (Refused b)
            (shape (cleanup pub_array_dispose) none)
            (shape (cleanup pub_key_dispose) none)
            (λ p. IsPair b (some p))
            (return_pair suite pair)
    unfolding return_pair
    return_pair-Steps on _ (is_created n) = search (step_rules, reasons) depth 30

    body-Steps :
        Steps cleanup
          (λ r. r ≡ none)
          (Refused b)
          (shape [] none)
          (shape (cleanup pub_key_dispose) none)
          (λ p. IsPair b (some p))
          (generate_encryption_body suite (some b))
    unfolding generate_encryption_body
    body-Steps = search (step_rules, reasons, rest) depth 30
      where
        rest :
            b ≡ true
            → Steps cleanup
                (λ r. r ≡ none)
                (Refused b)
                (shape [] none)
                (shape (cleanup pub_key_dispose) none)
                (λ p. IsPair b (some p))
                (create_pair suite >>= λ pair.
                  copy_pair suite pair >>= λ pair. return_pair suite pair)
        rest on =
            Steps-bind _ _ create_pair-Steps
              λ p ip. Steps-bind _ _ (copy_pair-Steps p ip) λ q iq. return_pair-Steps on q iq

    -- With an instance that is not null, and whichever calls fail, the generation of an encryption
    -- key pair ends with defined behaviour and has given back all that it acquired. It returns the
    -- pair that one call of the crypto suite has created, with nothing thrown, and then the library is
    -- initialized; or it throws an exception of a class for which there is a reason, and returns
    -- NULL.
    pub generate_encryption-Ends :
        (w : World KeyPair)
        → Ends (λ r. r ≡ none) (Refused b) (IsPair b) w (generate_encryption suite (some b) w)
    unfolding generate_encryption
    generate_encryption-Ends w = run-Ends pub_key_dispose refl w some (λ a h. h) _ body-Steps
