-- ===== src/Agentd/Header/Complete.antt =====
-- What the header reader returns, in every case.
use v_j_bc.Base.{
  ℕ, ◌≡◌, refl, Bool, true, false, Option, none, some, List, [], Bytes, arith, ◌==◌, ==_iff, leb,
  le→leb, length, head_or, get_or, take, drop, write_at, write_at-all, sym, ◌∙◌, ℤ, pos, minus_one,
}
use v_j_bc.Jni.{ExceptionClass, illegal_state, null_pointer, Resource, World, ◌>>=◌}
use v_j_bc.Jni.Point.{shape, Steps, Reason}
use v_j_bc.Jni.Rules.{Steps-bind, step_rules}
use v_j_bc.Jni.Completes.{Completes, run-Completes}
use v_j_bc.Suite.{Suite, IsSuite}
use v_j_bc.Suite.Stream.{crypt, length-crypt}
use v_j_bc.Agentd.Envelope.{authed_packet, max_payload_size, ntohl_bytes}
use v_j_bc.Agentd.Header.{
  cleanup, stream_cipher_dispose, decrypt_dheader, read_payload_size, decrypt_header_body,
  decrypt_header,
}

abbrev all_held : List Resource
all_held = cleanup stream_cipher_dispose

module _ (suite : Suite) where
  -- The header in the clear.
  abbrev pub plain_header : Bytes → ℕ → Bytes → Bytes
  plain_header secret iv header = crypt (suite.decrypt_byte secret (suite.host_u64 iv)) 0 header

  abbrev pub announced_size : Bytes → ℕ → Bytes → ℕ
  announced_size secret iv header = ntohl_bytes (take 4 (drop 1 (plain_header secret iv header)))

  -- Why the header reader refuses its arguments, and the class of the exception that says so.
  pub data Refusal (initialized : Bool) (iv : ℕ)
      : Option Bytes → Option Bytes → ExceptionClass → Type 0 where
    not_initialized :
        {secret header : Option Bytes}
        → initialized ≡ false
        → Refusal initialized iv secret header illegal_state
    no_secret : {header : Option Bytes} → Refusal initialized iv none header null_pointer
    no_header : {secret : Option Bytes} → Refusal initialized iv secret none null_pointer
    bad_length :
        {secret header : Bytes}
        → (length header == 5) ≡ false
        → Refusal initialized iv (some secret) (some header) illegal_state
    bad_type :
        {secret header : Bytes}
        → (authed_packet == head_or (plain_header secret iv header) 0) ≡ false
        → Refusal initialized iv (some secret) (some header) illegal_state
    bad_size :
        {secret header : Bytes}
        → leb (announced_size secret iv header) max_payload_size ≡ false
        → Refusal initialized iv (some secret) (some header) illegal_state

  -- The same, or a call that failed.
  abbrev pub Refused : Bool → ℕ → Option Bytes → Option Bytes → ℕ → ℕ → ExceptionClass → Type 0
  Refused initialized iv secret header = Reason suite.calls (Refusal initialized iv secret header)

  -- What the header reader accepts.
  pub data Accepted (initialized : Bool) (iv : ℕ) : Option Bytes → Option Bytes → Type 0 where
    accepted :
        {secret header : Bytes}
        → initialized ≡ true
        → (length header == 5) ≡ true
        → (authed_packet == head_or (plain_header secret iv header) 0) ≡ true
        → leb (announced_size secret iv header) max_payload_size ≡ true
        → Accepted initialized iv (some secret) (some header)

  ruleset reasons =
      (accepted, not_initialized, no_secret, no_header, bad_length, bad_type, bad_size)

  module _ (laws : IsSuite suite) (initialized : Bool) (iv : ℕ) (secret header : Bytes) where
    decrypt_dheader-Steps :
        (length header == 5) ≡ true
        → Steps cleanup
            (λ r. r ≡ minus_one)
            (Refused initialized iv (some secret) (some header))
            (shape [] minus_one)
            (shape all_held minus_one)
            (λ d. d ≡ plain_header secret iv header)
            (decrypt_dheader suite secret iv header)
    unfolding decrypt_dheader
    decrypt_dheader-Steps h =
        search (step_rules, reasons, in_bounds_fresh, filled) depth 30 fits 9000
      where
        in_bounds_fresh :
            (n : ℕ) → leb (length header) (length (suite.fresh n (length header))) ≡ true
        in_bounds_fresh n = le→leb _ _ (omega (arith, laws.length-fresh n (length header)))

        filled :
            (n : ℕ)
            → write_at 0 (plain_header secret iv header) (suite.fresh n (length header))
              ≡ plain_header secret iv header
        filled n = write_at-all _ _ (
            length-crypt (suite.decrypt_byte secret (suite.host_u64 iv)) 0 header
            ∙ sym (laws.length-fresh n (length header)))

  module _ (initialized : Bool) (iv : ℕ) (secret header : Bytes) where
    read_payload_size-Steps :
        (d : Bytes)
        → initialized ≡ true
        → (length header == 5) ≡ true
        → d ≡ plain_header secret iv header
        → Steps cleanup
            (λ r. r ≡ minus_one)
            (Refused initialized iv (some secret) (some header))
            (shape all_held minus_one)
            (shape all_held (pos (announced_size secret iv header)))
            (λ _. Accepted initialized iv (some secret) (some header))
            (read_payload_size d)
    unfolding read_payload_size
    read_payload_size-Steps d b h e = rw e (search (step_rules, reasons, fits) depth 30)
      where
        fits : leb 5 (length (plain_header secret iv header)) ≡ true
        fits = le→leb _ _ (
            omega (
              arith,
              length-crypt (suite.decrypt_byte secret (suite.host_u64 iv)) 0 header,
              (==_iff (length header) 5).0 h,
            ))

  body-Steps :
      (laws : IsSuite suite) (initialized : Bool) (iv : ℕ) (secret header : Option Bytes)
      → Steps cleanup
          (λ r. r ≡ minus_one)
          (Refused initialized iv secret header)
          (shape [] minus_one)
          (shape all_held (pos (announced_size (get_or secret []) iv (get_or header []))))
          (λ _. Accepted initialized iv secret header)
          (decrypt_header_body suite (some initialized) secret iv header)
  unfolding decrypt_header_body
  body-Steps laws b iv none header = search (step_rules, reasons) depth 30
  body-Steps laws b iv (some secret) none = search (step_rules, reasons) depth 30
  body-Steps laws b iv (some secret) (some header) = search (step_rules, reasons, rest) depth 30
    where
      rest :
          b ≡ true
          → (length header == 5) ≡ true
          → Steps cleanup
              (λ r. r ≡ minus_one)
              (Refused b iv (some secret) (some header))
              (shape [] minus_one)
              (shape all_held (pos (announced_size secret iv header)))
              (λ _. Accepted b iv (some secret) (some header))
              (decrypt_dheader suite secret iv header >>= read_payload_size)
      rest on h =
          Steps-bind (decrypt_dheader suite secret iv header) read_payload_size
            (decrypt_dheader-Steps laws b iv secret header h)
            (λ d e. read_payload_size-Steps b iv secret header d on h e)

  -- For every argument, with an instance that is not null, and whichever calls fail, the header
  -- reader ends with defined behaviour and has given back all that it acquired. It returns the
  -- size field of the decrypted header with nothing thrown, and then the library is initialized,
  -- no argument is null, the header has five bytes, its type is that of an authenticated packet
  -- and the size is at most 10 MB; or it throws an exception of a class for which there is a
  -- reason, and returns -1.
  pub decrypt_header-Completes :
      (laws : IsSuite suite) (initialized : Bool) (iv : ℕ) (secret header : Option Bytes)
      (w : World ℤ)
      → Completes
          (λ r. r ≡ minus_one)
          (Refused initialized iv secret header)
          (Accepted initialized iv secret header)
          (pos (announced_size (get_or secret []) iv (get_or header [])))
          w
          (decrypt_header suite (some initialized) secret iv header w)
  unfolding decrypt_header
  decrypt_header-Completes laws b iv secret header w =
      run-Completes stream_cipher_dispose refl w _ (body-Steps laws b iv secret header)
