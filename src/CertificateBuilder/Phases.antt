-- ===== src/CertificateBuilder/Phases.antt =====
-- What the loops over the fields of a certificate compute, and the object that is returned.
use v_j_bc.Base.{
  ℕ, ◌+◌, ◌≤◌, ◌%◌, ◌≡◌, refl, sym, subst, ◌∙◌, inl, inr, true, false, Bool-cases, ◌&&◌, ◌==◌,
  ==_iff, if◌then◌else◌, Option, none, some, List, [], ◌∷◌, ◌++◌, append-nil, append_assoc, Bytes,
  String, length, length-append, le→leb, arith,
}
use v_j_bc.Jni.{ExceptionClass, illegal_state, Resource, Schedule}
use v_j_bc.Jni.Point.{shape, Steps, Reason, AllSucceed}
use v_j_bc.Jni.Rules.{deref-then, in_bounds-then, test-then, unchecked-then, Steps-pure, step_rules}
use v_j_bc.Suite.{Suite}
use v_j_bc.CertificateBuilder.{
  Vccert, IsVccert, Field, jsize_max, certificate_size, add_fields, make_certificate,
}

-- Fields none of whose arrays is null, as Java objects.
abbrev pub objects : List (ℕ × Bytes) → List Field
objects [] = []
objects (f ∷ fs) = record { kind = f.0; value = some f.1 } ∷ objects fs

module _ (suite : Suite) (vccert : Vccert) where
  -- The size of the fields, and the fields on the wire.
  abbrev pub total : List (ℕ × Bytes) → ℕ
  total [] = 0
  total (f ∷ fs) = (vccert.field_type_size + vccert.field_size_size + length f.1) + total fs

  abbrev pub encoded : List (ℕ × Bytes) → Bytes
  encoded [] = []
  encoded (f ∷ fs) = vccert.encode_field (f.0 % 65536) f.1 ++ encoded fs

  pub length-encoded :
      IsVccert suite vccert → (fs : List (ℕ × Bytes)) → length (encoded fs) ≡ total fs
  length-encoded laws [] = refl
  length-encoded laws (f ∷ fs) =
      length-append (vccert.encode_field (f.0 % 65536) f.1) (encoded fs)
      ∙ omega (arith, laws.length-encode_field (f.0 % 65536) f.1, length-encoded laws fs)

  -- A certificate, or NULL if the call that makes the object fails.
  pub data IsCertificate (text : Bytes) : Option Bytes → Type 0 where
    is_certificate : IsCertificate text (some text)
    no_object : (n : ℕ) → suite.makes n ≡ false → IsCertificate text none

  made-IsCertificate :
      (text : Bytes) (n : ℕ)
      → IsCertificate text (if suite.makes n && true then some text else none)
  made-IsCertificate text n = elim (Bool-cases (suite.makes n)) [
    | inl p ↦ rw p is_certificate
    | inr p ↦ rw p (no_object n p)
  ]

  module _ {L : Type 0} {cleanup : L → List Resource} (X : ExceptionClass → Type 0) (jvm : Schedule)
      (all : AllSucceed jvm) where
    pub certificate_size-Steps :
        {held : List Resource} (fs : List (ℕ × Bytes)) (size : ℕ)
        → size + total fs ≤ jsize_max
        → Steps cleanup
            (λ r. r ≡ none)
            (Reason suite.calls X)
            (shape held none)
            (shape held none)
            (λ s. s ≡ size + total fs)
            (certificate_size suite vccert jvm (objects fs) size)
    unfolding certificate_size
    certificate_size-Steps {held = held} [] size h = Steps-pure size (omega arith)
    certificate_size-Steps {held = held} (f ∷ fs) size h =
        let next = size + (vccert.field_type_size + vccert.field_size_size + length f.1) in
        deref-then _ _ (
          in_bounds-then _ _ (le→leb next jsize_max (omega (arith, h))) (
            subst
              (λ t.
                Steps cleanup (λ r. r ≡ none) (Reason suite.calls X) (shape held none)
                  (shape held none) (λ s. s ≡ t)
                  (certificate_size suite vccert jvm (objects fs) next))
              (omega arith) (certificate_size-Steps {held = held} fs next (omega (arith, h)))))

    pub add_fields-Steps :
        (message : String) (l : L) (fs : List (ℕ × Bytes)) (text : Bytes)
        → Steps cleanup
            (λ r. r ≡ none)
            (Reason suite.calls X)
            (shape (cleanup l) none)
            (shape (cleanup l) none)
            (λ t. t ≡ text ++ encoded fs)
            (add_fields suite vccert jvm message l (objects fs) text)
    unfolding add_fields
    add_fields-Steps message l [] text = Steps-pure text (sym (append-nil text))
    add_fields-Steps message l (f ∷ fs) text =
        let field = vccert.encode_field (f.0 % 65536) f.1 in
        let rest =
          subst
            (λ u.
              Steps cleanup (λ r. r ≡ none) (Reason suite.calls X) (shape (cleanup l) none)
                (shape (cleanup l) none) (λ t. t ≡ u)
                (add_fields suite vccert jvm message l (objects fs) (text ++ field)))
            (append_assoc text field (encoded fs))
            (add_fields-Steps message l fs (text ++ field)) in
        search (step_rules, deref-then, unchecked-then, all, rest) depth 30

    -- Where the certificate has the size that was computed.
    pub make_certificate-Steps :
        (l : L) (size : ℕ) (text : Bytes)
        → length text ≡ size
        → Steps cleanup
            (λ r. r ≡ none)
            (Reason suite.calls X)
            (shape (cleanup l) none)
            (shape (cleanup l) none)
            (IsCertificate text)
            (make_certificate suite vccert jvm l size text)
    unfolding make_certificate
    make_certificate-Steps l size text e =
        search (step_rules, test-then, unchecked-then, all, made-IsCertificate text, never) depth 30
      where
        never : (length text == size) ≡ false → (m n : ℕ) → Reason suite.calls X m n illegal_state
        never h m n = cc (h, (==_iff (length text) size).1 e)
