-- ===== src/Agentd/SharedSecret/Complete.antt =====
-- What the computation of the secret returns, in every case.
use v_j_bc.Base.{ℕ, ◌≡◌, refl, Bool, true, false, Option, none, some, [], Bytes, get_or}
use v_j_bc.Jni.{ExceptionClass, illegal_state, null_pointer, Body, World}
use v_j_bc.Jni.Point.{shape, Steps, Reason, IsBlank, null, unwritten}
use v_j_bc.Jni.Rules.{Steps-bind, step_rules}
use v_j_bc.Jni.Completes.{Completes, run-Completes}
use v_j_bc.Suite.{Suite}
use v_j_bc.Agentd.SharedSecret.{
  Label, cleanup, done, server_public_key_buffer_dispose, client_nonce_buffer_dispose,
  key_agreement_dispose, copy_keys, copy_nonces, create_secret, return_secret,
  compute_shared_secret_body, compute_shared_secret,
}

module _ (suite : Suite) where
  -- Why the computation refuses its arguments, and the class of the exception that says so.
  pub data Refusal (initialized : Bool)
      : Option Bytes → Option Bytes → Option Bytes → Option Bytes → ExceptionClass → Type 0 where
    not_initialized :
        {private public server client : Option Bytes}
        → initialized ≡ false
        → Refusal initialized private public server client illegal_state
    no_private :
        {public server client : Option Bytes}
        → Refusal initialized none public server client null_pointer
    no_public :
        {private server client : Option Bytes}
        → Refusal initialized private none server client null_pointer
    no_server_nonce :
        {private public client : Option Bytes}
        → Refusal initialized private public none client null_pointer
    no_client_nonce :
        {private public server : Option Bytes}
        → Refusal initialized private public server none null_pointer

  -- The same, or a call that failed.
  abbrev pub Refused :
      Bool
      → Option Bytes
      → Option Bytes
      → Option Bytes
      → Option Bytes
      → ℕ
      → ℕ
      → ExceptionClass
      → Type 0
  Refused initialized private public server client =
      Reason suite.calls (Refusal initialized private public server client)

  -- What the computation accepts.
  pub data Accepted (initialized : Bool)
      : Option Bytes → Option Bytes → Option Bytes → Option Bytes → Type 0 where
    accepted :
        {private public server client : Bytes}
        → initialized ≡ true
        → Accepted initialized (some private) (some public) (some server) (some client)

  ruleset reasons = (
    accepted, null, unwritten, not_initialized, no_private, no_public, no_server_nonce,
    no_client_nonce,
  )

  module _ (b : Bool) (private public server client : Bytes) where
    abbrev Phase :
        {A : Type 0}
        → Label
        → Label
        → Option Bytes
        → (A → Type 0)
        → Body Label (Option Bytes) A
        → Type 0
    Phase l l' r Q m =
        Steps cleanup IsBlank (Refused b (some private) (some public) (some server) (some client))
          (shape (cleanup l) none) (shape (cleanup l') r) Q m

    abbrev secret : Bytes
    secret = suite.short_term_secret private public server client

    copy_keys-Steps :
        Phase done server_public_key_buffer_dispose none (λ _. Unit {0}) (copy_keys suite)
    unfolding copy_keys
    copy_keys-Steps = search (step_rules, reasons) depth 30

    copy_nonces-Steps :
        Phase server_public_key_buffer_dispose client_nonce_buffer_dispose none
          (λ _. Unit {0})
          (copy_nonces suite)
    unfolding copy_nonces
    copy_nonces-Steps = search (step_rules, reasons) depth 30

    create_secret-Steps :
        Phase client_nonce_buffer_dispose key_agreement_dispose none
          (λ s. s ≡ secret)
          (create_secret suite private public server client)
    unfolding create_secret
    create_secret-Steps = search (step_rules, reasons) depth 30

    return_secret-Steps :
        b ≡ true
        → (s : Bytes) → s ≡ secret
        → Phase key_agreement_dispose key_agreement_dispose
            (some secret)
            (λ _. Accepted b (some private) (some public) (some server) (some client))
            (return_secret suite s)
    unfolding return_secret
    return_secret-Steps on s e = rw e (search (step_rules, reasons) depth 30)

  body-Steps :
      (b : Bool) (private public server client : Option Bytes)
      → Steps cleanup IsBlank
          (Refused b private public server client)
          (shape [] none)
          (shape (cleanup key_agreement_dispose) (
            some (
              suite.short_term_secret
                (get_or private [])
                (get_or public [])
                (get_or server [])
                (get_or client []))))
          (λ _. Accepted b private public server client)
          (compute_shared_secret_body suite (some b) private public server client)
  unfolding compute_shared_secret_body
  body-Steps b none public server client = search (step_rules, reasons) depth 30
  body-Steps b (some private) none server client = search (step_rules, reasons) depth 30
  body-Steps b (some private) (some public) none client = search (step_rules, reasons) depth 30
  body-Steps b (some private) (some public) (some server) none =
      search (step_rules, reasons) depth 30
  body-Steps b (some private) (some public) (some server) (some client) =
      search
        (
          step_rules,
          reasons,
          Steps-bind,
          copy_keys-Steps b private public server client,
          copy_nonces-Steps b private public server client,
          create_secret-Steps b private public server client,
          return_secret-Steps b private public server client,
        )
        depth 30

  -- For every argument, with an instance that is not null, and whichever calls fail, the
  -- computation of the shared secret ends with defined behaviour and has given back all that it
  -- acquired. It returns the short term secret of the four arguments with nothing thrown, and
  -- then the library is initialized and no argument is null; or it throws an exception of a class
  -- for which there is a reason, and returns NULL or an array of zeros.
  pub compute_shared_secret-Completes :
      (b : Bool) (private public server client : Option Bytes) (w : World (Option Bytes))
      → Completes IsBlank
          (Refused b private public server client)
          (Accepted b private public server client)
          (some (
            suite.short_term_secret
              (get_or private [])
              (get_or public [])
              (get_or server [])
              (get_or client [])))
          w
          (compute_shared_secret suite (some b) private public server client w)
  unfolding compute_shared_secret
  compute_shared_secret-Completes b private public server client w =
      run-Completes key_agreement_dispose refl w _ (body-Steps b private public server client)
