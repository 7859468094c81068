-- ===== src/CertificateBuilder.antt =====
-- cert/CertificateBuilder_emit.c and cert/CertificateBuilder_signNative.c. The list of fields is
-- what the Java list of the builder holds; the local references to its elements, which the JVM gives
-- back when the method returns, are not counted.

pub mod Phases
pub mod Complete
use v_j_bc.Base.{
  ℕ, ◌+◌, ◌*◌, ◌%◌, ◌≡◌, ◌==◌, Bool, true, if◌then◌else◌, Option, none, some, List, [], ◌∷◌, ◌++◌,
  Bytes, String, length, leb, drop, take,
}
use v_j_bc.Jni.{
  illegal_state, null_pointer, illegal_argument, Resource, cert_builder, field_val, out_data, priv,
  priv_bytes, signer_id_bytes, World, Body, ◌>>=◌, ◌>>◌, pure, attempt, attempt_with, acquire,
  guard, deref, in_bounds, non_null, test, unchecked, release, set_retval, verify_initialized,
  Finish, run, Schedule,
}
use v_j_bc.Suite.{Suite}

-- What the methods use of vccert.
pub record Vccert : Type 0 where
  -- `FIELD_TYPE_SIZE` and `FIELD_SIZE_SIZE`
  pub field_type_size : ℕ
  pub field_size_size : ℕ
  -- what `vccert_builder_add_short_buffer` writes, by the `uint16_t` type and the value
  pub encode_field : ℕ → Bytes → Bytes
  -- the fields that `vccert_builder_sign` adds to the fields in front of them, by the signer and its
  -- private key
  pub signature_fields : (text signer key : Bytes) → Bytes

-- The documented behaviour that the methods rely on.
pub record IsVccert (suite : Suite) (v : Vccert) : Type 0 where
  pub length-encode_field :
      (t : ℕ) (value : Bytes)
      → length (v.encode_field t value) ≡ v.field_type_size + v.field_size_size + length value
  pub length-signature_fields :
      (text signer key : Bytes)
      → length (v.signature_fields text signer key)
        ≡ v.field_type_size * 2 + v.field_size_size * 2 + 16 + suite.signature_size

-- A pair of the list: the type, and the array, which may be null.
pub record Field : Type 0 where
  pub kind : ℕ
  pub value : Option Bytes

-- The largest value of a `jsize`.
abbrev pub jsize_max : ℕ
jsize_max = 2147483647

module _ (suite : Suite) (vccert : Vccert) (jvm : Schedule) where
  open suite use {calls, makes}
  open vccert use {field_type_size, field_size_size, encode_field}

  module _ {L : Type 0} where
    -- The loop that computes `cert_size`. A signed sum that overflows is undefined.
    pub certificate_size : List Field → ℕ → Body L (Option Bytes) ℕ
    unfolding deref in_bounds pure
    certificate_size [] size = pure size
    certificate_size (field ∷ fields) size = do
      array ← deref field.value
      in_bounds (leb (size + (field_type_size + field_size_size + length array)) jsize_max)
      certificate_size fields (size + (field_type_size + field_size_size + length array))

    -- The loop that adds each field to the builder, with what it contains. The type is passed as a
    -- `uint16_t`.
    pub add_fields : String → L → List Field → Bytes → Body L (Option Bytes) Bytes
    unfolding deref unchecked attempt_with release pure
    add_fields message dispose_builder [] text = pure text
    add_fields message dispose_builder (field ∷ fields) text = do
      array ← deref field.value
      unchecked jvm (field_val ∷ [])
      attempt_with calls field_val (λ _. tt) illegal_state message dispose_builder
      release field_val
      add_fields message dispose_builder fields (text ++ encode_field (field.kind % 65536) array)

    -- The certificate object, known by its bytes. What `fromByteArray` returns is returned with no
    -- test.
    pub make_certificate : (l : L) (size : ℕ) → Bytes → Body L (Option Bytes) (Option Bytes)
    unfolding guard unchecked release test pure
    make_certificate l size text = do
      guard (length text == size) illegal_state "emitted_size != cert_size" l
      unchecked jvm []
      unchecked jvm (out_data ∷ [])
      release out_data
      made ← test makes true
      pure (if made then some text else none)

pub data EmitLabel : Type 0 where
  emit_dispose_builder emit_done : EmitLabel

abbrev pub emit_cleanup : EmitLabel → List Resource
emit_cleanup emit_dispose_builder = cert_builder ∷ []
emit_cleanup emit_done = []

pub data Label : Type 0 where
  release_signer_id dispose_priv dispose_builder done : Label

abbrev pub label_line : Label → ℕ
label_line release_signer_id = 0
label_line dispose_priv = 1
label_line dispose_builder = 2
label_line done = 3

-- A jump runs the cleanup statements from its label to the end; `return NULL` runs none.
abbrev pub cleanup : Label → List Resource
cleanup l = drop (label_line l) (signer_id_bytes ∷ priv ∷ cert_builder ∷ [])

module _ (suite : Suite) (vccert : Vccert) (jvm : Schedule) where
  open suite use {calls, signing_key_size, signature_size}
  open vccert use {field_type_size, field_size_size, signature_fields}

  pub emit_body : Option Bool → List Field → Body EmitLabel (Option Bytes) (Option Bytes)
  unfolding verify_initialized guard acquire certificate_size add_fields make_certificate
  emit_body inst fields = do
    verify_initialized inst emit_done
    guard (leb 1 (length fields)) illegal_state "cannot emit empty certificate fragment." emit_done
    size ← certificate_size suite vccert jvm fields 0
    acquire calls cert_builder (λ _. tt) illegal_state "vccert_builder_init" emit_done
    text ←
        add_fields suite vccert jvm "vccert_builder_add_short_buffer" emit_dispose_builder fields []
    make_certificate suite vccert jvm emit_dispose_builder size text

  -- `emit`
  pub emit : Option Bool → List Field → World (Option Bytes) → Finish (Option Bytes)
  unfolding emit_body run set_retval
  emit inst fields =
      run emit_cleanup emit_dispose_builder none (emit_body inst fields >>= λ r. set_retval r)

  -- The size of the certificate with the fields of the signer and the signature.
  pub signed_size : List Field → Body Label (Option Bytes) ℕ
  unfolding certificate_size in_bounds pure
  signed_size fields = do
    size ← certificate_size suite vccert jvm fields 0
    in_bounds
        (leb (size + (field_type_size * 2 + field_size_size * 2 + 16 + signature_size)) jsize_max)
    pure (size + (field_type_size * 2 + field_size_size * 2 + 16 + signature_size))

  -- The private key, copied, and the signature.
  pub sign_fields : Bytes → Bytes → Bytes → Body Label (Option Bytes) Bytes
  unfolding acquire guard unchecked release attempt
  sign_fields signer key text = do
    acquire calls priv (λ _. tt) illegal_state "Couldn't create private key buffer" dispose_builder
    guard (length key == signing_key_size) illegal_argument "Private key is the wrong size"
        dispose_priv
    unchecked jvm (priv_bytes ∷ [])
    release priv_bytes
    unchecked jvm (signer_id_bytes ∷ [])
    attempt calls (λ _. text ++ signature_fields text signer (take signing_key_size key))
        illegal_state "signature error" release_signer_id

  pub sign_certificate_body :
      Option Bool
      → List Field
      → (signer_id private_key : Option Bytes) → Body Label (Option Bytes) (Option Bytes)
  unfolding verify_initialized non_null guard signed_size acquire add_fields sign_fields
  sign_certificate_body inst fields signer_id private_key = do
    verify_initialized inst done
    signer ← non_null signer_id null_pointer "signerId" done
    key ← non_null private_key null_pointer "privateKey" done
    guard (length signer == 16) illegal_argument "Signer ID is the wrong size" done
    size ← signed_size fields
    acquire calls cert_builder (λ _. tt) illegal_state "general error." done
    text ← add_fields suite vccert jvm "general error." dispose_builder fields []
    text ← sign_fields signer key text
    make_certificate suite vccert jvm release_signer_id size text

  -- `signNative`
  pub sign_certificate :
      Option Bool
      → List Field
      → (signer_id private_key : Option Bytes) → World (Option Bytes)
      → Finish (Option Bytes)
  unfolding sign_certificate_body run set_retval
  sign_certificate inst fields signer_id private_key =
      run cleanup release_signer_id none
        (sign_certificate_body inst fields signer_id private_key >>= λ r. set_retval r)
