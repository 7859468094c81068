-- ===== src/KeyPairs/Signing/Complete.antt =====
-- What the generation of a signing key pair returns, in every case.
use v_j_bc.Base.{
  ℕ, ◌≡◌, refl, Bool, true, false, ◌&&◌, if◌then◌else◌, Bool-cases, inl, inr, none, some, List, [],
  ◌∷◌, ◌++◌, Bytes, length, new_array, write_at,
}
use v_j_bc.Jni.{ExceptionClass, illegal_state, Resource, priv_key, pub_key, World, ◌>>=◌}
use v_j_bc.Jni.Point.{shape, nothing, Passes, Reason}
use v_j_bc.Jni.Remove.{clean, left, apart}
use v_j_bc.Jni.Rules.{Steps-bind, test-then, step_rules}
use v_j_bc.Jni.Completes.{Leaves, run-Leaves, Nothing-apart}
use v_j_bc.Suite.{Suite}
use v_j_bc.KeyPairs.Encryption.Complete.{copied}
use v_j_bc.KeyPairs.Signing.{
  Label, KeyPair, cleanup, pub_dispose, pub_array_dispose, priv_array_dispose, priv_dispose,
  sign_dispose, return_null, create_pair, copy_pair, return_pair, generate_signing_body,
  generate_signing,
}

-- Why the generation refuses, and the class of the exception that says so.
pub data Refusal (initialized : Bool) : ExceptionClass → Type 0 where
  not_initialized : initialized ≡ false → Refusal initialized illegal_state

-- The local references to the objects of the two keys.
abbrev pub key_objects : List Resource
key_objects = pub_key ∷ priv_key ∷ []

-- What a failure leaves: nothing, or the local reference to the object of the private key.
pub data Unreleased : List Resource → Type 0 where
  all_released : Unreleased []
  private_left : Unreleased (priv_key ∷ [])

Unreleased-apart :
    (leaked : List Resource) → Unreleased leaked → (l : Label) → apart leaked (cleanup l) ≡ true
Unreleased-apart _ all_released l = Nothing-apart cleanup [] nothing l
Unreleased-apart _ private_left pub_array_dispose = refl
Unreleased-apart _ private_left priv_array_dispose = refl
Unreleased-apart _ private_left pub_dispose = refl
Unreleased-apart _ private_left priv_dispose = refl
Unreleased-apart _ private_left sign_dispose = refl
Unreleased-apart _ private_left return_null = refl

module _ (suite : Suite) where
  -- The same, or a call that failed.
  abbrev pub Refused : Bool → ℕ → ℕ → ExceptionClass → Type 0
  Refused initialized = Reason suite.calls (Refusal initialized)

  -- A pair that a call of the suite creates, or NULL if the call that makes it fails.
  pub data IsPair (initialized : Bool) : KeyPair → Type 0 where
    is_pair : (n : ℕ) → initialized ≡ true → IsPair initialized (some (suite.signing_pair n))
    no_object : (n : ℕ) → initialized ≡ true → suite.makes n ≡ false → IsPair initialized none

  -- The same, known as a pair.
  data IsCreated : Bytes × Bytes → Type 0 where
    is_created : (n : ℕ) → IsCreated (suite.signing_pair n)

  ruleset reasons = (not_initialized, is_pair, is_created, all_released, private_left, left)

  module _ (b : Bool) where
    create_pair-Steps :
        Passes cleanup Unreleased
          (λ r. r ≡ none)
          (Refused b)
          (shape [] none)
          (shape (cleanup pub_dispose) none)
          IsCreated
          (create_pair suite)
    unfolding create_pair
    create_pair-Steps = search (step_rules, reasons) depth 30

    copy_pair-Steps :
        (pair : Bytes × Bytes)
        → IsCreated pair
        → Passes cleanup Unreleased
            (λ r. r ≡ none)
            (Refused b)
            (shape (cleanup pub_dispose) none)
            (shape (cleanup pub_array_dispose) none)
            IsCreated
            (copy_pair suite pair)
    unfolding copy_pair
    copy_pair-Steps pair is = search (step_rules, reasons, same) depth 30
      where
        same : IsCreated (
          write_at 0 pair.0 (new_array (length pair.0)),
          write_at 0 pair.1 (new_array (length pair.1)),
        )
        same = rw (copied pair.0, copied pair.1) is

    made_object :
        b ≡ true
        → (pair : Bytes × Bytes) → IsCreated pair
        → (n : ℕ) → IsPair b (if suite.makes n && true then some pair else none)
    made_object on _ (is_created m) n = elim (Bool-cases (suite.makes n)) [
      | inl p ↦ rw p (is_pair m on)
      | inr p ↦ rw p (no_object n on p)
    ]

    return_pair-Steps :
        b ≡ true
        → (pair : Bytes × Bytes) → IsCreated pair
        → Passes cleanup Unreleased
            (λ r. r ≡ none)
            (Refused b)
            (shape (cleanup pub_array_dispose) none)
            (shape (key_objects ++ cleanup pub_array_dispose) none)
            (IsPair b)
            (return_pair suite pair)
    unfolding return_pair
    return_pair-Steps on pair is =
        search (step_rules, test-then, reasons, made_object on pair is) depth 30

    body-Steps :
        Passes cleanup Unreleased
          (λ r. r ≡ none)
          (Refused b)
          (shape [] none)
          (shape (key_objects ++ cleanup pub_array_dispose) none)
          (IsPair b)
          (generate_signing_body suite (some b))
    unfolding generate_signing_body
    body-Steps = search (step_rules, reasons, rest) depth 30
      where
        rest :
            b ≡ true
            → Passes cleanup Unreleased
                (λ r. r ≡ none)
                (Refused b)
                (shape [] none)
                (shape (key_objects ++ cleanup pub_array_dispose) none)
                (IsPair b)
                (create_pair suite >>= λ pair.
                  copy_pair suite pair >>= λ pair. return_pair suite pair)
        rest on =
            Steps-bind _ _ create_pair-Steps
              λ p ip. Steps-bind _ _ (copy_pair-Steps p ip) λ q iq. return_pair-Steps on q iq

    -- With an instance that is not null, and whichever calls fail, the generation of a signing
    -- key pair ends with defined behaviour. It returns a pair that the crypto suite has created, or
    -- NULL if the object of the pair can not be made, with nothing thrown by the method itself, and
    -- has given back all that it acquired but the local references to the objects of the keys; or it
    -- throws an exception of a class for which there is a reason, returns NULL, and has given back
    -- all, or all but the local reference to the object of the private key.
    pub generate_signing-Leaves :
        (w : World KeyPair)
        → Leaves key_objects Unreleased
            (λ r. r ≡ none)
            (Refused b)
            (IsPair b)
            w
            (generate_signing suite (some b) w)
    unfolding generate_signing
    generate_signing-Leaves w =
        run-Leaves Unreleased-apart pub_array_dispose (left (left clean)) refl w (λ r. r) (λ a h. h)
          _ body-Steps
