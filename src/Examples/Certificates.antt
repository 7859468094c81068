-- ===== src/Examples/Certificates.antt =====
-- The theorems about the emission of certificates, on two fields.
use v_j_bc.Base.{ℕ, ◌≡◌, refl, true, none, some, List, [], ◌∷◌, Bytes, arith, new_array}
use v_j_bc.Jni.Point.{Reason}
use v_j_bc.Jni.Completes.{Ends}
use v_j_bc.CertificateBuilder.{Vccert, IsVccert, emit, sign_certificate}
use v_j_bc.CertificateBuilder.Phases.{objects}
use v_j_bc.CertificateBuilder.Complete.{
  EmitRefusal, SignRefusal, Emitted, Signed, emit-Ends, sign_certificate-Ends,
}
use v_j_bc.Examples.Toy.{toy, start}

abbrev tagged : Vccert
tagged = record {
  field_type_size = 1;
  field_size_size = 1;
  encode_field = λ t value. t ∷ 0 ∷ value;
  signature_fields = λ text signer key. new_array 21;
}

tagged-IsVccert : IsVccert toy tagged
tagged-IsVccert = record {
  length-encode_field = λ t value. omega arith;
  length-signature_fields = λ text signer key. refl;
}

abbrev fields : List (ℕ × Bytes)
fields = (1, 7 ∷ 8 ∷ []) ∷ (2, []) ∷ []

abbrev signer : Bytes
signer = new_array 16

abbrev key : Bytes
key = new_array 64

emit-Ends_example :
    Ends
      (λ r. r ≡ none)
      (Reason toy.calls (EmitRefusal true fields))
      (Emitted toy tagged true fields)
      (start none)
      (emit toy tagged (λ n. true) (some true) (objects fields) (start none))
emit-Ends_example =
    emit-Ends toy tagged tagged-IsVccert (λ n. true) (λ n. refl) true fields (omega arith)
      (start none)

sign_certificate-Ends_example :
    Ends
      (λ r. r ≡ none)
      (Reason toy.calls (SignRefusal toy true (some signer) (some key)))
      (Signed toy tagged true fields (some signer) (some key))
      (start none)
      (sign_certificate toy tagged
        (λ n. true)
        (some true)
        (objects fields)
        (some signer)
        (some key)
        (start none))
sign_certificate-Ends_example =
    sign_certificate-Ends toy tagged tagged-IsVccert (λ n. true) (λ n. refl) true fields
      (some signer) (some key) (omega arith) (start none)
