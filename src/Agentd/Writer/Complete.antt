-- ===== src/Agentd/Writer/Complete.antt =====
-- What the writer returns, in every case.
use v_j_bc.Base.{
  ℕ, ◌+◌, ◌≡◌, refl, Bool, true, false, Option, none, some, [], Bytes, arith, leb, le→leb, length,
  get_or,
}
use v_j_bc.Jni.{ExceptionClass, illegal_state, null_pointer, World, ◌>>=◌}
use v_j_bc.Jni.Point.{shape, Steps, Reason, IsBlank, null, unwritten}
use v_j_bc.Jni.Rules.{Steps-bind, deref-then, step_rules}
use v_j_bc.Jni.Completes.{Completes, run-Completes}
use v_j_bc.Suite.{Suite, IsSuite}
use v_j_bc.Agentd.Envelope.{packet, packet_mac}
use v_j_bc.Agentd.Writer.{
  cleanup, payload_buffer_dispose, mac_dispose, open_packet, write_header, write_payload, seal,
  return_packet, encrypt_payload_body, encrypt_payload,
}
use v_j_bc.Agentd.Writer.Layout.{
  HasHeader, HasBody, header_written, body_written, length-HasHeader, length-HasBody, digested,
  sealed,
}

module _ (suite : Suite) where
  -- Why the writer refuses its arguments, and the class of the exception that says so.
  pub data Refusal (initialized : Bool) : Option Bytes → ExceptionClass → Type 0 where
    not_initialized :
        {secret : Option Bytes} → initialized ≡ false → Refusal initialized secret illegal_state
    no_secret : Refusal initialized none null_pointer

  -- The same, or a call that failed.
  abbrev pub Refused : Bool → Option Bytes → ℕ → ℕ → ExceptionClass → Type 0
  Refused initialized secret = Reason suite.calls (Refusal initialized secret)

  ruleset reasons = (null, unwritten, not_initialized, no_secret)

  module _ (laws : IsSuite suite) (initialized : Bool) (iv : ℕ) (secret payload : Bytes) where
    abbrev Refuses : ℕ → ℕ → ExceptionClass → Type 0
    Refuses = Refused initialized (some secret)

    open_packet-Steps :
        Steps cleanup IsBlank Refuses
          (shape [] none)
          (shape (cleanup mac_dispose) none)
          (λ p. length p ≡ 37 + length payload)
          (open_packet suite (length payload))
    unfolding open_packet
    open_packet-Steps = search (step_rules, reasons, sized) depth 30
      where
        sized : (n : ℕ) → length (suite.fresh n (37 + length payload)) ≡ 37 + length payload
        sized n = laws.length-fresh n (37 + length payload)

    write_header-Steps :
        (p : Bytes)
        → length p ≡ 37 + length payload
        → Steps cleanup IsBlank Refuses
            (shape (cleanup mac_dispose) none)
            (shape (cleanup mac_dispose) none)
            (HasHeader suite secret iv (length payload))
            (write_header suite secret iv (length payload) p)
    unfolding write_header
    write_header-Steps p h =
        search (step_rules, reasons, fits, header_written suite secret iv (length payload) p h)
          depth 30
      where
        fits : leb 5 (length p) ≡ true
        fits = le→leb _ _ (omega (arith, h))

    write_payload-Steps :
        (p : Bytes)
        → HasHeader suite secret iv (length payload) p
        → Steps cleanup IsBlank Refuses
            (shape (cleanup mac_dispose) none)
            (shape (cleanup payload_buffer_dispose) none)
            (HasBody suite secret iv payload)
            (write_payload suite secret iv payload p)
    unfolding write_payload
    write_payload-Steps p h =
        search (step_rules, reasons, fits, body_written suite secret iv payload p h) depth 30
      where
        fits : leb (37 + length payload) (length p) ≡ true
        fits = le→leb _ _ (omega (arith, length-HasHeader suite secret iv h))

    seal-Steps :
        (p : Bytes)
        → HasBody suite secret iv payload p
        → Steps cleanup IsBlank Refuses
            (shape (cleanup payload_buffer_dispose) none)
            (shape (cleanup payload_buffer_dispose) none)
            (λ q. q ≡ packet suite secret iv payload)
            (seal suite secret (length payload) p)
    unfolding seal
    seal-Steps p h = rw (digested suite secret iv laws payload p h) (
        search (step_rules, reasons, fits, fits_code, sealed suite secret iv laws payload p h) depth
          30)
      where
        fits : leb (37 + length payload) (length p) ≡ true
        fits = le→leb _ _ (omega (arith, length-HasBody suite secret iv h))

        fits_code : leb (5 + length (packet_mac suite secret iv payload)) (length p) ≡ true
        fits_code =
            le→leb _ _ (omega (arith, length-HasBody suite secret iv h, laws.length-mac_short))

    return_packet-Steps :
        initialized ≡ true
        → (p : Bytes) → p ≡ packet suite secret iv payload
        → Steps cleanup IsBlank Refuses
            (shape (cleanup payload_buffer_dispose) none)
            (shape (cleanup payload_buffer_dispose) (some (packet suite secret iv payload)))
            (λ _. initialized ≡ true)
            (return_packet suite p)
    unfolding return_packet
    return_packet-Steps on p e = rw e (search (step_rules, reasons) depth 30)

  body-Steps :
      (laws : IsSuite suite) (initialized : Bool) (iv : ℕ) (secret : Option Bytes) (payload : Bytes)
      → Steps cleanup IsBlank
          (Refused initialized secret)
          (shape [] none)
          (shape
            (cleanup payload_buffer_dispose)
            (some (packet suite (get_or secret []) iv payload)))
          (λ _. initialized ≡ true)
          (encrypt_payload_body suite (some initialized) secret iv (some payload))
  unfolding encrypt_payload_body
  body-Steps laws b iv none payload = search (step_rules, reasons, deref-then) depth 30
  body-Steps laws b iv (some secret) payload =
      search (step_rules, reasons, deref-then, rest) depth 30
    where
      rest :
          b ≡ true
          → Steps cleanup IsBlank
              (Refused b (some secret))
              (shape [] none)
              (shape (cleanup payload_buffer_dispose) (some (packet suite secret iv payload)))
              (λ _. b ≡ true)
              (open_packet suite (length payload) >>= λ p.
                write_header suite secret iv (length payload) p >>= λ p.
                write_payload suite secret iv payload p >>= λ p.
                seal suite secret (length payload) p >>= return_packet suite)
      rest on = Steps-bind _ _ (open_packet-Steps laws b iv secret payload) λ p h.
          Steps-bind _ _ (write_header-Steps laws b iv secret payload p h) λ p h.
            Steps-bind _ _ (write_payload-Steps laws b iv secret payload p h) λ p h.
              Steps-bind _ _ (seal-Steps laws b iv secret payload p h)
                (return_packet-Steps laws b iv secret payload on)

  -- For a payload that is not null, with an instance that is not null, and whichever calls fail,
  -- the writer ends with defined behaviour and has given back all that it acquired. It returns
  -- the packet of the payload with nothing thrown, and then the library is initialized; or it
  -- throws an exception of a class for which there is a reason (a call that fails, a library
  -- that is not initialized, a null secret), and returns NULL or an array of zeros.
  pub encrypt_payload-Completes :
      (laws : IsSuite suite) (initialized : Bool) (iv : ℕ) (secret : Option Bytes) (payload : Bytes)
      (w : World (Option Bytes))
      → Completes IsBlank
          (Refused initialized secret)
          (initialized ≡ true)
          (some (packet suite (get_or secret []) iv payload))
          w
          (encrypt_payload suite (some initialized) secret iv (some payload) w)
  unfolding encrypt_payload
  encrypt_payload-Completes laws b iv secret payload w =
      run-Completes payload_buffer_dispose refl w _ (body-Steps laws b iv secret payload)
