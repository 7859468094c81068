-- ===== src/Agentd/Payload/Complete.antt =====
-- What the payload reader returns, in every case.
use v_j_bc.Base.{
  ◌-◌, ℕ, ◌≡◌, refl, sym, ◌∙◌, Bool, true, false, ◌&&◌, Option, none, some, [], ◌++◌, Bytes, arith,
  leb, le→leb, length, length-drop, get_or, take, drop, write_at, write_at-all,
}
use v_j_bc.Jni.{ExceptionClass, illegal_state, null_pointer, message_verification, World}
use v_j_bc.Jni.Point.{shape, Steps, Reason, IsBlank, null, unwritten}
use v_j_bc.Jni.Rules.{Steps-bind, step_rules}
use v_j_bc.Jni.Completes.{Completes, run-Completes}
use v_j_bc.Suite.{Suite, IsSuite}
use v_j_bc.Suite.Stream.{crypt, length-crypt}
use v_j_bc.Agentd.Payload.{
  cleanup, stream_cipher_dispose, digest_buffer_dispose, payload_buffer_dispose, copy_arguments,
  verify_packet, decrypt_verified, return_payload, decrypt_payload_body, decrypt_payload,
}

module _ (suite : Suite) where
  open suite use {mac_short_size, mac_short}

  -- The payload in the clear.
  abbrev pub plain_payload : Bytes → ℕ → Bytes → Bytes
  plain_payload secret iv payload =
      crypt (suite.decrypt_byte secret (suite.host_u64 iv)) 5 (drop mac_short_size payload)

  -- The first bytes of the payload are the authentication code of the header and the rest.
  abbrev pub authentic : (secret header payload : Bytes) → Bool
  authentic secret header payload =
      suite.crypto_memcmp_eq (take mac_short_size payload)
        (take mac_short_size (mac_short secret (header ++ drop mac_short_size payload)))

  -- Why the payload reader refuses its arguments, and the class of the exception that says so.
  pub data Refusal (initialized : Bool)
      : Option Bytes → Option Bytes → Option Bytes → ExceptionClass → Type 0 where
    not_initialized :
        {secret header payload : Option Bytes}
        → initialized ≡ false
        → Refusal initialized secret header payload illegal_state
    no_secret :
        {header payload : Option Bytes} → Refusal initialized none header payload null_pointer
    no_header :
        {secret payload : Option Bytes} → Refusal initialized secret none payload null_pointer
    no_payload :
        {secret header : Option Bytes} → Refusal initialized secret header none null_pointer
    too_short :
        {secret header payload : Bytes}
        → leb mac_short_size (length payload) ≡ false
        → Refusal initialized (some secret) (some header) (some payload) message_verification
    forged :
        {secret header payload : Bytes}
        → authentic secret header payload ≡ false
        → Refusal initialized (some secret) (some header) (some payload) message_verification

  -- The same, or a call that failed.
  abbrev pub Refused :
      Bool → Option Bytes → Option Bytes → Option Bytes → ℕ → ℕ → ExceptionClass → Type 0
  Refused initialized secret header payload =
      Reason suite.calls (Refusal initialized secret header payload)

  -- What the payload reader accepts.
  pub data Accepted (initialized : Bool) : Option Bytes → Option Bytes → Option Bytes → Type 0 where
    accepted :
        {secret header payload : Bytes}
        → initialized ≡ true
        → leb mac_short_size (length payload) ≡ true
        → authentic secret header payload ≡ true
        → Accepted initialized (some secret) (some header) (some payload)

  ruleset reasons = (
    accepted, null, unwritten, not_initialized, no_secret, no_header, no_payload, too_short, forged,
  )

  module _ (laws : IsSuite suite) (initialized : Bool) (iv : ℕ)
      (secret header payload : Bytes) where
    abbrev Refuses : ℕ → ℕ → ExceptionClass → Type 0
    Refuses = Refused initialized (some secret) (some header) (some payload)

    copy_arguments-Steps :
        Steps cleanup IsBlank Refuses
          (shape [] none)
          (shape (cleanup payload_buffer_dispose) none)
          (λ _. Unit {0})
          (copy_arguments suite)
    unfolding copy_arguments
    copy_arguments-Steps = search (step_rules, reasons) depth 30

    verify_packet-Steps :
        Steps cleanup IsBlank Refuses
          (shape (cleanup payload_buffer_dispose) none)
          (shape (cleanup digest_buffer_dispose) none)
          (λ _.
            (leb mac_short_size (length payload) ≡ true) × (authentic secret header payload ≡ true))
          (verify_packet suite secret header payload)
    unfolding verify_packet
    verify_packet-Steps = search (step_rules, reasons, readable) depth 30 fits 4000
      where
        readable :
            leb mac_short_size (length payload) ≡ true
            → (leb mac_short_size (length payload)
                && leb mac_short_size
                    (length (mac_short secret (header ++ drop mac_short_size payload))))
              ≡ true
        readable h = ground (
          arith,
          laws.mac_short_size_lem,
          laws.length-mac_short secret (header ++ drop mac_short_size payload),
        )

    decrypt_verified-Steps :
        Steps cleanup IsBlank Refuses
          (shape (cleanup digest_buffer_dispose) none)
          (shape (cleanup stream_cipher_dispose) none)
          (λ d. d ≡ plain_payload secret iv payload)
          (decrypt_verified suite secret iv payload)
    unfolding decrypt_verified
    decrypt_verified-Steps = search (step_rules, reasons, writable, filled) depth 30
      where
        writable :
            (n : ℕ)
            → leb
                (length (drop mac_short_size payload))
                (length (suite.fresh n (length payload - mac_short_size)))
              ≡ true
        writable n = le→leb _ _ (
            omega (
              arith,
              length-drop mac_short_size payload,
              laws.length-fresh n (length payload - mac_short_size),
            ))

        filled :
            (n : ℕ)
            → write_at 0
                (plain_payload secret iv payload)
                (suite.fresh n (length payload - mac_short_size))
              ≡ plain_payload secret iv payload
        filled n = write_at-all _ _ (
            length-crypt (suite.decrypt_byte secret (suite.host_u64 iv)) 5
              (drop mac_short_size payload)
            ∙ length-drop mac_short_size payload
            ∙ sym (laws.length-fresh n (length payload - mac_short_size)))

    return_payload-Steps :
        initialized ≡ true
        → (leb mac_short_size (length payload) ≡ true) × (authentic secret header payload ≡ true)
        → (d : Bytes) → d ≡ plain_payload secret iv payload
        → Steps cleanup IsBlank Refuses
            (shape (cleanup stream_cipher_dispose) none)
            (shape (cleanup stream_cipher_dispose) (some (plain_payload secret iv payload)))
            (λ _. Accepted initialized (some secret) (some header) (some payload))
            (return_payload suite d)
    unfolding return_payload
    return_payload-Steps a v d e = rw e (search (step_rules, reasons) depth 30)

  body-Steps :
      (laws : IsSuite suite) (initialized : Bool) (iv : ℕ) (secret header payload : Option Bytes)
      → Steps cleanup IsBlank
          (Refused initialized secret header payload)
          (shape [] none)
          (shape
            (cleanup stream_cipher_dispose)
            (some (plain_payload (get_or secret []) iv (get_or payload []))))
          (λ _. Accepted initialized secret header payload)
          (decrypt_payload_body suite (some initialized) secret iv header payload)
  unfolding decrypt_payload_body
  body-Steps laws b iv none header payload = search (step_rules, reasons) depth 30
  body-Steps laws b iv (some secret) none payload = search (step_rules, reasons) depth 30
  body-Steps laws b iv (some secret) (some header) none = search (step_rules, reasons) depth 30
  body-Steps laws b iv (some secret) (some header) (some payload) =
      search
        (
          step_rules,
          reasons,
          Steps-bind,
          copy_arguments-Steps laws b iv secret header payload,
          verify_packet-Steps laws b iv secret header payload,
          decrypt_verified-Steps laws b iv secret header payload,
          return_payload-Steps laws b iv secret header payload,
        )
        depth 30

  -- For every argument, with an instance that is not null, and whichever calls fail, the payload
  -- reader ends with defined behaviour and has given back all that it acquired. It returns the
  -- bytes behind the authentication code, decrypted from position 5, with nothing thrown, and
  -- then the library is initialized, no argument is null, the payload has room for the code and
  -- the code is that of the packet; or it throws an exception of a class for which there is a
  -- reason, and returns NULL or an array of zeros.
  pub decrypt_payload-Completes :
      (laws : IsSuite suite) (initialized : Bool) (iv : ℕ) (secret header payload : Option Bytes)
      (w : World (Option Bytes))
      → Completes IsBlank
          (Refused initialized secret header payload)
          (Accepted initialized secret header payload)
          (some (plain_payload (get_or secret []) iv (get_or payload [])))
          w
          (decrypt_payload suite (some initialized) secret iv header payload w)
  unfolding decrypt_payload
  decrypt_payload-Completes laws b iv secret header payload w =
      run-Completes stream_cipher_dispose refl w _ (body-Steps laws b iv secret header payload)
