-- ===== src/Signing/Complete.antt =====
-- What the signing returns, in every case.
use v_j_bc.Base.{
  ℕ, ◌≡◌, refl, ap, subst, ◌∙◌, Bool, true, false, Option, none, some, [], Bytes, get_or, length,
  ◌==◌, ==_iff, leb, le→leb, take, take_all, arith,
}
use v_j_bc.Jni.{ExceptionClass, illegal_state, null_pointer, Body, World, ◌>>=◌}
use v_j_bc.Jni.Point.{shape, Steps, Reason}
use v_j_bc.Jni.Rules.{Steps-bind, Steps-mono, Steps-jump, step_rules}
use v_j_bc.Jni.Completes.{Completes, run-Completes}
use v_j_bc.Suite.{Suite}
use v_j_bc.Signing.{
  Label, cleanup, return_null, cleanup_private_key_bytes, cleanup_message_bytes, cleanup_signature,
  cleanup_sign_out, read_signing_key, read_message, create_signature, return_signature, sign_body,
  sign,
}

module _ (suite : Suite) where
  -- Why the signing refuses its arguments, and the class of the exception that says so.
  pub data Refusal (initialized : Bool)
      : Option Bytes → Option (Option Bytes) → ExceptionClass → Type 0 where
    not_initialized :
        {key : Option Bytes} {message : Option (Option Bytes)}
        → initialized ≡ false
        → Refusal initialized key message illegal_state
    no_message : {key : Option Bytes} → Refusal initialized key none null_pointer
    no_message_bytes : {key : Option Bytes} → Refusal initialized key (some none) null_pointer
    no_key_bytes : {message : Option (Option Bytes)} → Refusal initialized none message null_pointer
    bad_key_size :
        {key : Bytes} {message : Option (Option Bytes)}
        → (length key == suite.signing_key_size) ≡ false
        → Refusal initialized (some key) message illegal_state

  -- The same, or a call that failed.
  abbrev pub Refused : Bool → Option Bytes → Option (Option Bytes) → ℕ → ℕ → ExceptionClass → Type 0
  Refused initialized key message = Reason suite.calls (Refusal initialized key message)

  -- What the signing accepts.
  pub data Accepted (initialized : Bool) : Option Bytes → Option (Option Bytes) → Type 0 where
    accepted :
        {key message : Bytes}
        → initialized ≡ true
        → length key ≡ suite.signing_key_size
        → Accepted initialized (some key) (some (some message))

  ruleset reasons =
      (accepted, not_initialized, no_message, no_message_bytes, no_key_bytes, bad_key_size)

  module _ (b : Bool) (key : Option Bytes) (message : Option (Option Bytes)) where
    abbrev Phase :
        {A : Type 0}
        → Label
        → Label
        → Option Bytes
        → (A → Type 0)
        → Body Label (Option Bytes) A
        → Type 0
    Phase l l' r Q m =
        Steps cleanup (λ r. r ≡ none) (Refused b key message) (shape (cleanup l) none)
          (shape (cleanup l') r) Q m

    create_signature-Steps :
        (k m : Bytes)
        → Phase cleanup_message_bytes cleanup_signature none
            (λ s. s ≡ suite.signature k m)
            (create_signature suite k m)
    unfolding create_signature
    create_signature-Steps k m = search (step_rules, reasons) depth 30

    return_signature-Steps :
        (s : Bytes)
        → Phase cleanup_signature cleanup_sign_out
            (some s)
            (λ _. Unit {0})
            (return_signature suite s)
    unfolding return_signature
    return_signature-Steps s = search (step_rules, reasons) depth 30

  module _ (b : Bool) where
    read_signing_key-Steps :
        (key : Bytes) (message : Option (Option Bytes))
        → Phase b
            (some key)
            message
            return_null
            cleanup_private_key_bytes
            none
            (λ k. (length key ≡ suite.signing_key_size) × (k ≡ key))
            (read_signing_key suite (some key))
    unfolding read_signing_key
    read_signing_key-Steps key message = search (step_rules, reasons, sized, fits, whole) depth 30
      where
        sized : (length key == suite.signing_key_size) ≡ true → length key ≡ suite.signing_key_size
        sized h = (==_iff (length key) suite.signing_key_size).0 h

        fits :
            (length key == suite.signing_key_size) ≡ true
            → leb suite.signing_key_size (length key) ≡ true
        fits h = le→leb _ _ (omega (arith, sized h))

        whole :
            (length key == suite.signing_key_size) ≡ true → take suite.signing_key_size key ≡ key
        whole h = take_all suite.signing_key_size key (sized h)

    read_message-Steps :
        (key : Option Bytes) (message : Bytes)
        → Phase b key
            (some (some message))
            cleanup_private_key_bytes
            cleanup_message_bytes
            none
            (λ m. m ≡ message)
            (read_message suite (some message))
    unfolding read_message
    read_message-Steps key message = search (step_rules, reasons) depth 30

    no_key_bytes-Steps :
        (message : Option (Option Bytes)) (r : Option Bytes)
        → Phase b none message return_null cleanup_sign_out r (λ _. ⊥) (read_signing_key suite none)
    unfolding read_signing_key
    no_key_bytes-Steps message r = search (step_rules, reasons) depth 30

    no_message_bytes-Steps :
        (key r : Option Bytes)
        → Phase b key
            (some none)
            cleanup_private_key_bytes
            cleanup_sign_out
            r
            (λ _. ⊥)
            (read_message suite none)
    unfolding read_message
    no_message_bytes-Steps key r = search (step_rules, reasons) depth 30

    rest-Steps :
        (key : Bytes) (message : Option Bytes)
        → b ≡ true
        → Phase b
            (some key)
            (some message)
            return_null
            cleanup_sign_out
            (some (suite.signature key (get_or message [])))
            (λ _. Accepted b (some key) (some message))
            (read_signing_key suite (some key) >>= λ private. read_message suite message >>= λ text.
              create_signature suite private text >>= return_signature suite)
    rest-Steps key none on =
        Steps-bind _ _ (read_signing_key-Steps key (some none))
          λ k ek. Steps-jump _ _ (no_message_bytes-Steps (some key) (some (suite.signature key [])))
    rest-Steps key (some message) on =
        Steps-bind _ _ (read_signing_key-Steps key (some (some message))) λ k ek.
          Steps-bind _ _ (read_message-Steps (some key) message) λ m em.
            Steps-bind _ _ (create_signature-Steps b (some key) (some (some message)) k m) λ s es.
              Steps-mono (λ _ _. accepted on ek.0) _
                (subst
                  (λ t.
                    Phase b (some key) (some (some message)) cleanup_signature cleanup_sign_out
                      (some t) (λ _. Unit {0}) (return_signature suite s))
                  (es ∙ ap (λ t. suite.signature t m) ek.1 ∙ ap (λ t. suite.signature key t) em)
                  (return_signature-Steps b (some key) (some (some message)) s))

    body-Steps :
        (key : Option Bytes) (message : Option (Option Bytes))
        → Phase b key message return_null cleanup_sign_out
            (some (suite.signature (get_or key []) (get_or (get_or message none) [])))
            (λ _. Accepted b key message)
            (sign_body suite (some b) key message)
    unfolding sign_body
    body-Steps key none = search (step_rules, reasons) depth 30
    body-Steps none (some message) =
        search (step_rules, reasons, Steps-jump, no_key_bytes-Steps) depth 30
    body-Steps (some key) (some message) =
        search (step_rules, reasons, rest-Steps key message) depth 30

    -- For every argument, with an instance that is not null, and whichever calls fail, the signing
    -- ends with defined behaviour and has given back all that it acquired. It returns the
    -- signature of the message with the key, with nothing thrown, and then the library is
    -- initialized, neither the message nor the bytes of key and message are null, and the key has
    -- the size of the scheme; or it throws an exception of a class for which there is a reason,
    -- and returns NULL.
    pub sign-Completes :
        (key : Option Bytes) (message : Option (Option Bytes)) (w : World (Option Bytes))
        → Completes
            (λ r. r ≡ none)
            (Refused b key message)
            (Accepted b key message)
            (some (suite.signature (get_or key []) (get_or (get_or message none) [])))
            w
            (sign suite (some b) key message w)
    unfolding sign
    sign-Completes key message w = run-Completes cleanup_sign_out refl w _ (body-Steps key message)
