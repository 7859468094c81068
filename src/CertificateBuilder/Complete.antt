-- ===== src/CertificateBuilder/Complete.antt =====
-- What the two methods that emit a certificate return, in every case.
use v_j_bc.Base.{
  ℕ, ◌+◌, ◌*◌, ◌≤◌, ◌≡◌, refl, ap, subst, ◌∙◌, Bool, true, false, ◌==◌, ==_iff, Option, none, some,
  List, [], ◌∷◌, ◌++◌, Bytes, length, length-append, leb, le→leb, arith, take, take_all,
}
use v_j_bc.Jni.{
  Body, ExceptionClass, illegal_state, illegal_argument, null_pointer, Resource, Schedule, World,
  ◌>>=◌, ◌>>◌, acquire, cert_builder,
}
use v_j_bc.Jni.Remove.{clean}
use v_j_bc.Jni.Point.{shape, Steps, Reason, AllSucceed, nothing, state_of, because}
use v_j_bc.Jni.Rules.{
  Steps-bind, Steps-mono, Steps-pure, acquire-then, guard-then, in_bounds-then, unchecked-then,
  verify_initialized-then, step_rules,
}
use v_j_bc.Jni.Completes.{Ends, run-Ends}
use v_j_bc.Suite.{Suite}
use v_j_bc.CertificateBuilder.{
  EmitLabel, Vccert, IsVccert, jsize_max, add_fields, make_certificate, emit_cleanup,
  emit_dispose_builder, emit_body, emit, cleanup, release_signer_id, dispose_builder, done,
  signed_size, sign_fields, sign_certificate_body, sign_certificate,
}
use v_j_bc.CertificateBuilder.Phases.{
  objects, total, encoded, length-encoded, IsCertificate, certificate_size-Steps, add_fields-Steps,
  make_certificate-Steps,
}

-- Why `emit` throws, and the class of the exception.
pub data EmitRefusal (initialized : Bool) : List (ℕ × Bytes) → ExceptionClass → Type 0 where
  emit_not_initialized :
      {fs : List (ℕ × Bytes)} → initialized ≡ false → EmitRefusal initialized fs illegal_state
  empty : EmitRefusal initialized [] illegal_state

-- The same of `signNative`.
pub data SignRefusal (suite : Suite) (initialized : Bool)
    : Option Bytes → Option Bytes → ExceptionClass → Type 0 where
  not_initialized :
      {signer key : Option Bytes}
      → initialized ≡ false
      → SignRefusal suite initialized signer key illegal_state
  no_signer : {key : Option Bytes} → SignRefusal suite initialized none key null_pointer
  no_key : {signer : Bytes} → SignRefusal suite initialized (some signer) none null_pointer
  bad_signer :
      {signer key : Bytes}
      → (length signer == 16) ≡ false
      → SignRefusal suite initialized (some signer) (some key) illegal_argument
  bad_key :
      {signer key : Bytes}
      → (length key == suite.signing_key_size) ≡ false
      → SignRefusal suite initialized (some signer) (some key) illegal_argument

ruleset reasons =
    (emit_not_initialized, empty, not_initialized, no_signer, no_key, bad_signer, bad_key)

module _ (suite : Suite) (vccert : Vccert) where
  -- What `emit` returns: the fields, of which there is one at least.
  pub data Emitted (initialized : Bool) : List (ℕ × Bytes) → Option Bytes → Type 0 where
    emitted :
        {f : ℕ × Bytes} {fs : List (ℕ × Bytes)} {r : Option Bytes}
        → initialized ≡ true
        → IsCertificate suite vccert (encoded suite vccert (f ∷ fs)) r
        → Emitted initialized (f ∷ fs) r

  -- The fields and the fields of the signature.
  abbrev pub certificate : List (ℕ × Bytes) → (signer key : Bytes) → Bytes
  certificate fs signer key =
      encoded suite vccert fs ++ vccert.signature_fields (encoded suite vccert fs) signer key

  pub data Signed (initialized : Bool) (fs : List (ℕ × Bytes))
      : Option Bytes → Option Bytes → Option Bytes → Type 0 where
    signed :
        {signer key : Bytes} {r : Option Bytes}
        → initialized ≡ true
        → (length signer == 16) ≡ true
        → (length key == suite.signing_key_size) ≡ true
        → IsCertificate suite vccert (certificate fs signer key) r
        → Signed initialized fs (some signer) (some key) r

  -- The size of the fields of a signature.
  abbrev pub signature_total : ℕ
  signature_total =
      vccert.field_type_size * 2 + vccert.field_size_size * 2 + 16 + suite.signature_size

module _ (suite : Suite) (vccert : Vccert) (laws : IsVccert suite vccert) (jvm : Schedule)
    (all : AllSucceed jvm) (b : Bool) where
  emit_body-Steps :
      (fs : List (ℕ × Bytes))
      → total suite vccert fs ≤ jsize_max
      → Steps emit_cleanup
          (λ r. r ≡ none)
          (Reason suite.calls (EmitRefusal b fs))
          (shape [] none)
          (shape (emit_cleanup emit_dispose_builder) none)
          (Emitted suite vccert b fs)
          (emit_body suite vccert jvm (some b) (objects fs))
  unfolding emit_body
  emit_body-Steps [] h = search (step_rules, reasons, no_rest) depth 30
    where
      no_rest :
          {m : Body EmitLabel (Option Bytes) (Option Bytes)}
          → false ≡ true
          → Steps emit_cleanup
              (λ r. r ≡ none)
              (Reason suite.calls (EmitRefusal b []))
              (shape [] none)
              (shape (emit_cleanup emit_dispose_builder) none)
              (Emitted suite vccert b [])
              m
      no_rest e = cc
  emit_body-Steps (f ∷ fs) h =
      verify_initialized-then b _ _ [] nothing clean refl
        (λ e m n. because (emit_not_initialized e))
        λ on.
          guard-then (leb 1 (length (objects (f ∷ fs)))) _ _ _ _ [] nothing clean refl
            (λ e m n. absurd (no_field e))
            λ e.
              Steps-bind _ _
                (certificate_size-Steps suite vccert _ jvm all (f ∷ fs) 0 (omega (arith, h)))
                λ size es.
                  acquire-then _ _ _ _ _ _ _ [] nothing clean refl
                    (λ m n le failed. state_of n le refl failed)
                    λ n.
                      Steps-bind _ _ (add_fields-Steps suite vccert _ jvm all _ _ (f ∷ fs) [])
                        λ text et.
                          Steps-mono
                            (λ r c. emitted on (subst (λ t. IsCertificate suite vccert t r) et c)) _
                            (make_certificate-Steps suite vccert _ jvm all _ size text (
                              ap length et
                              ∙ omega (arith, length-encoded suite vccert laws (f ∷ fs), es)))
    where
      no_field : leb 1 (length (objects (f ∷ fs))) ≡ false → ⊥
      no_field e = cc (e, le→leb 1 (length (objects (f ∷ fs))) (omega arith))

  -- Where every call of the JVM that the method does not test succeeds, for fields whose arrays are
  -- not null and whose certificate has a size of at most 2147483647, with an instance that is not
  -- null, and whichever calls fail, `emit` ends with defined behaviour and has given back all that
  -- it acquired. It returns the certificate that consists of the fields, in their order, or NULL if
  -- the object can not be made, with nothing thrown by the method itself, and then the library is
  -- initialized and there is a field; or it returns NULL and throws an exception of a
  -- class for which there is a reason (the library is not initialized, there is no field, or the
  -- last call that was made failed), and never because the certificate has another size than was
  -- computed.
  pub emit-Ends :
      (fs : List (ℕ × Bytes))
      → total suite vccert fs ≤ jsize_max
      → (w : World (Option Bytes))
      → Ends
          (λ r. r ≡ none)
          (Reason suite.calls (EmitRefusal b fs))
          (Emitted suite vccert b fs)
          w
          (emit suite vccert jvm (some b) (objects fs) w)
  unfolding emit
  emit-Ends fs h w =
      run-Ends emit_dispose_builder refl w (λ r. r) (λ a h. h) _ (emit_body-Steps fs h)

  signed_size-Steps :
      {X : ExceptionClass → Type 0} {held : List Resource} (fs : List (ℕ × Bytes))
      → total suite vccert fs + signature_total suite vccert ≤ jsize_max
      → Steps cleanup
          (λ r. r ≡ none)
          (Reason suite.calls X)
          (shape held none)
          (shape held none)
          (λ s. s ≡ total suite vccert fs + signature_total suite vccert)
          (signed_size suite vccert jvm (objects fs))
  unfolding signed_size
  signed_size-Steps {X} fs h =
      Steps-bind _ _ (certificate_size-Steps suite vccert X jvm all fs 0 (omega (arith, h)))
        λ size es.
          in_bounds-then _ _
            (le→leb (size + signature_total suite vccert) jsize_max (omega (arith, h, es)))
            (Steps-pure _ (omega (arith, es)))

  module _ (signer key : Bytes) where
    sign_fields-Steps :
        (text : Bytes)
        → Steps cleanup
            (λ r. r ≡ none)
            (Reason suite.calls (SignRefusal suite b (some signer) (some key)))
            (shape (cleanup dispose_builder) none)
            (shape (cleanup release_signer_id) none)
            (λ t.
              (t ≡ text ++ vccert.signature_fields text signer key)
              × ((length key == suite.signing_key_size) ≡ true))
            (sign_fields suite vccert jvm signer key text)
    unfolding sign_fields
    sign_fields-Steps text = search (step_rules, unchecked-then, all, reasons, whole) depth 30
      where
        whole :
            (length key == suite.signing_key_size) ≡ true
            → (text ++ vccert.signature_fields text signer (take suite.signing_key_size key)
                ≡ text ++ vccert.signature_fields text signer key)
              × ((length key == suite.signing_key_size) ≡ true)
        whole e = (
          ap (λ k. text ++ vccert.signature_fields text signer k)
              (take_all suite.signing_key_size key
                ((==_iff (length key) suite.signing_key_size).0 e)),
          e,
        )

    length-certificate :
        (fs : List (ℕ × Bytes)) (text : Bytes) (size : ℕ)
        → text ≡ certificate suite vccert fs signer key
        → size ≡ total suite vccert fs + signature_total suite vccert
        → length text ≡ size
    length-certificate fs text size et es =
        let front = encoded suite vccert fs in
        let back = vccert.signature_fields front signer key in
        ap length et
        ∙ length-append front back
        ∙ omega (
          arith,
          length-encoded suite vccert laws fs,
          laws.length-signature_fields front signer key,
          es,
        )

    rest-Steps :
        (fs : List (ℕ × Bytes))
        → total suite vccert fs + signature_total suite vccert ≤ jsize_max
        → b ≡ true
        → (length signer == 16) ≡ true
        → Steps cleanup
            (λ r. r ≡ none)
            (Reason suite.calls (SignRefusal suite b (some signer) (some key)))
            (shape [] none)
            (shape (cleanup release_signer_id) none)
            (Signed suite vccert b fs (some signer) (some key))
            (signed_size suite vccert jvm (objects fs) >>= λ size.
              acquire suite.calls cert_builder (λ _. tt) illegal_state "general error." done
              >> (add_fields suite vccert jvm "general error." dispose_builder (objects fs) []
                  >>= λ text. sign_fields suite vccert jvm signer key text >>= λ text.
                      make_certificate suite vccert jvm release_signer_id size text))
    rest-Steps fs h on sized = Steps-bind _ _ (signed_size-Steps fs h) λ size es.
        acquire-then _ _ _ _ _ _ _ [] nothing clean refl
          (λ m n le failed. state_of n le refl failed)
          λ n. Steps-bind _ _ (add_fields-Steps suite vccert _ jvm all _ _ fs []) λ front ef.
            Steps-bind _ _ (sign_fields-Steps front) λ text et.
              let whole = et.0 ∙ ap (λ t. t ++ vccert.signature_fields t signer key) ef in
              Steps-mono
                (λ r c. signed on sized et.1 (subst (λ t. IsCertificate suite vccert t r) whole c))
                _
                (make_certificate-Steps suite vccert _ jvm all _ size text
                  (length-certificate fs text size whole es))

  sign_certificate_body-Steps :
      (fs : List (ℕ × Bytes)) (signer key : Option Bytes)
      → total suite vccert fs + signature_total suite vccert ≤ jsize_max
      → Steps cleanup
          (λ r. r ≡ none)
          (Reason suite.calls (SignRefusal suite b signer key))
          (shape [] none)
          (shape (cleanup release_signer_id) none)
          (Signed suite vccert b fs signer key)
          (sign_certificate_body suite vccert jvm (some b) (objects fs) signer key)
  unfolding sign_certificate_body
  sign_certificate_body-Steps fs none key h = search (step_rules, reasons) depth 30
  sign_certificate_body-Steps fs (some signer) none h = search (step_rules, reasons) depth 30
  sign_certificate_body-Steps fs (some signer) (some key) h =
      search (step_rules, reasons, rest-Steps signer key fs h) depth 30

  -- Where every call of the JVM that the method does not test succeeds, for fields whose arrays are
  -- not null and whose certificate with the two fields of the signature has a size of at most
  -- 2147483647, with an instance that is not null, and whichever calls fail, `signNative` ends with
  -- defined behaviour and has given back all that it acquired. It returns the fields, in their
  -- order, and behind them the fields that vccert makes for the signer and the key, or NULL if the
  -- object can not be made, with nothing thrown by the method itself, and then the library is
  -- initialized, the identifier has 16 bytes and the key the size of the scheme; or it returns NULL
  -- and throws an exception of a class for which there is a reason, and never because the
  -- certificate has another size than was computed.
  pub sign_certificate-Ends :
      (fs : List (ℕ × Bytes)) (signer key : Option Bytes)
      → total suite vccert fs + signature_total suite vccert ≤ jsize_max
      → (w : World (Option Bytes))
      → Ends
          (λ r. r ≡ none)
          (Reason suite.calls (SignRefusal suite b signer key))
          (Signed suite vccert b fs signer key)
          w
          (sign_certificate suite vccert jvm (some b) (objects fs) signer key w)
  unfolding sign_certificate
  sign_certificate-Ends fs signer key h w =
      run-Ends release_signer_id refl w (λ r. r) (λ a h. h) _
        (sign_certificate_body-Steps fs signer key h)
