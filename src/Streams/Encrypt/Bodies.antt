-- ===== src/Streams/Encrypt/Bodies.antt =====
-- What the bodies of the three encryptions of data do.
use v_j_bc.Base.{
  ℕ, ◌+◌, ◌≡◌, ◌≤◌, refl, subst, sym, Bool, true, false, ◌==◌, if◌then◌else◌, Option, none, some,
  [], Bytes, arith, length, length-take, leb, le→leb, take,
}
use v_j_bc.Base.Prefix.{HasPrefix, HasPrefix-nil}
use v_j_bc.Jni.{ExceptionClass, ◌>>=◌}
use v_j_bc.Jni.Rules.{Steps-mono, step_rules}
use v_j_bc.Suite.{Suite}
use v_j_bc.Streams.{
  stream_cipher_dispose, return_null, cleanup, open_stream, create_output, start_encryption,
  encrypt_stream, commit,
}
use v_j_bc.Streams.Envelope.{AtLeast}
use v_j_bc.Streams.Phases.{kept, Phase, writing, start_encryption-Passes}
use v_j_bc.Streams.Encrypt.{
  encrypt_generic_body, encrypt_certificate_body, continue_encryption, encrypt_data_body,
}
use v_j_bc.Streams.Encrypt.Phases.{
  Refusal, IsPiece, is_piece, checked, unchecked, reasons, write-Passes, whole-Passes,
}

module _ (suite : Suite) where
  module _ (b : Bool) where
    pub generic-Passes :
        (key iv input : Option Bytes)
        → AtLeast 8 iv
        → Phase suite
            (Refusal b (checked suite) key iv input)
            (cleanup return_null)
            (cleanup stream_cipher_dispose)
            (λ r. IsPiece suite b (checked suite) length 0 key iv input (some r))
            (encrypt_generic_body suite (some b) key iv input)
    unfolding encrypt_generic_body
    generic-Passes none iv input long = search (step_rules, kept, reasons) depth 30
    generic-Passes (some key) none input long = search (step_rules, kept, reasons) depth 30
    generic-Passes (some key) (some iv) none long = search (step_rules, kept, reasons) depth 30
    generic-Passes (some key) (some iv) (some input) long =
        search (step_rules, kept, reasons, rest) depth 30
      where
        rest :
            b ≡ true
            → checked suite key ≡ true
            → Phase suite
                (Refusal b (checked suite) (some key) (some iv) (some input))
                (cleanup return_null)
                (cleanup stream_cipher_dispose)
                (λ r.
                  IsPiece suite b
                    (checked suite)
                    length
                    0
                    (some key)
                    (some iv)
                    (some input)
                    (some r))
                (open_stream suite (length key) key >>= λ k.
                  create_output suite stream_cipher_dispose (8 + length input) >>= λ out.
                  start_encryption suite iv out >>= λ out.
                  encrypt_stream suite k iv 0 input 8 out >>= λ out. commit out)
        rest on right =
            Steps-mono
              (λ r e.
                subst
                  (λ t.
                    IsPiece suite b (checked suite) length 0 (some key) (some iv) (some input)
                      (some t))
                  (sym e) (is_piece on right))
              _ (whole-Passes suite _ (length key) key iv input (omega arith) long)

    pub certificate-Passes :
        (key iv input : Option Bytes)
        → AtLeast 32 key
        → AtLeast 8 iv
        → Phase suite
            (Refusal b unchecked key iv input)
            (cleanup return_null)
            (cleanup stream_cipher_dispose)
            (λ r. IsPiece suite b unchecked (λ _. 32) 0 key iv input (some r))
            (encrypt_certificate_body suite (some b) key iv input)
    unfolding encrypt_certificate_body
    certificate-Passes none iv input long long_iv = search (step_rules, kept, reasons) depth 30
    certificate-Passes (some key) none input long long_iv =
        search (step_rules, kept, reasons) depth 30
    certificate-Passes (some key) (some iv) none long long_iv =
        search (step_rules, kept, reasons) depth 30
    certificate-Passes (some key) (some iv) (some input) long long_iv =
        search (step_rules, kept, reasons, rest) depth 30
      where
        rest :
            b ≡ true
            → Phase suite
                (Refusal b unchecked (some key) (some iv) (some input))
                (cleanup return_null)
                (cleanup stream_cipher_dispose)
                (λ r.
                  IsPiece suite b unchecked (λ _. 32) 0 (some key) (some iv) (some input) (some r))
                (open_stream suite 32 key >>= λ k.
                  create_output suite stream_cipher_dispose (8 + length input) >>= λ out.
                  start_encryption suite iv out >>= λ out.
                  encrypt_stream suite k iv 0 input 8 out >>= λ out. commit out)
        rest on =
            Steps-mono
              (λ r e.
                subst
                  (λ t.
                    IsPiece suite b unchecked (λ _. 32) 0 (some key) (some iv) (some input)
                      (some t))
                  (sym e) (is_piece on refl))
              _ (whole-Passes suite _ 32 key iv input long long_iv)

    -- The start of a document, if `first`, or its continuation.
    begin-Passes :
        (X : ExceptionClass → Type 0) (iv : Bytes) (size : ℕ) (first : Bool) (out : Bytes)
        → 8 ≤ length iv
        → length out ≡ (if first then 8 else 0) + size
        → Phase suite X
            (writing suite X)
            (writing suite X)
            (HasPrefix ((if first then 8 else 0) + size) (if first then take 8 iv else []))
            (if first then start_encryption suite iv out else continue_encryption suite iv out)
    begin-Passes X iv size true out long e =
        start_encryption-Passes suite X iv out long (omega arith) e
    begin-Passes X iv size false out long e =
        unfold continue_encryption in search (step_rules, kept, fits, begins) depth 30
      where
        fits : leb 8 (length iv) ≡ true
        fits = le→leb 8 (length iv) long

        begins : HasPrefix (0 + size) [] out
        begins = subst (λ n. HasPrefix n [] out) e (HasPrefix-nil out)

    length-front :
        (iv : Bytes) (first : Bool)
        → 8 ≤ length iv
        → (if first then 8 else 0) ≡ length (if first then take 8 iv else [])
    length-front iv true long = omega (arith, length-take 8 iv)
    length-front iv false long = refl

    pub data-Passes :
        (key iv input : Option Bytes) (offset : ℕ)
        → AtLeast 32 key
        → AtLeast 8 iv
        → Phase suite
            (Refusal b unchecked key iv input)
            (cleanup return_null)
            (cleanup stream_cipher_dispose)
            (λ r. IsPiece suite b unchecked (λ _. 32) offset key iv input (some r))
            (encrypt_data_body suite (some b) key iv input offset)
    unfolding encrypt_data_body
    data-Passes none iv input offset long long_iv = search (step_rules, kept, reasons) depth 30
    data-Passes (some key) none input offset long long_iv =
        search (step_rules, kept, reasons) depth 30
    data-Passes (some key) (some iv) none offset long long_iv =
        search (step_rules, kept, reasons) depth 30
    data-Passes (some key) (some iv) (some input) offset long long_iv =
        search (step_rules, kept, reasons, rest) depth 30
      where
        rest :
            b ≡ true
            → Phase suite
                (Refusal b unchecked (some key) (some iv) (some input))
                (cleanup return_null)
                (cleanup stream_cipher_dispose)
                (λ r.
                  IsPiece suite b unchecked
                    (λ _. 32)
                    offset
                    (some key)
                    (some iv)
                    (some input)
                    (some r))
                (open_stream suite 32 key >>= λ k.
                  create_output suite stream_cipher_dispose
                    ((if offset == 0 then 8 else 0) + length input)
                  >>= λ out.
                      (if offset == 0
                        then start_encryption suite iv out
                        else continue_encryption suite iv out)
                      >>= λ out.
                          encrypt_stream suite k iv offset input (if offset == 0 then 8 else 0) out
                          >>= λ out. commit out)
        rest on =
            Steps-mono
              (λ r e.
                subst
                  (λ t.
                    IsPiece suite b unchecked (λ _. 32) offset (some key) (some iv) (some input)
                      (some t))
                  (sym e) (is_piece on refl))
              _
              (write-Passes suite _ 32 key iv offset input (if offset == 0 then take 8 iv else [])
                (if offset == 0 then 8 else 0)
                (λ out.
                  if offset == 0
                  then start_encryption suite iv out
                  else continue_encryption suite iv out)
                long (length-front iv (offset == 0) long_iv)
                (λ out e. begin-Passes _ iv (length input) (offset == 0) out long_iv e))
