-- ===== src/Init.antt =====
-- com/velopayments/blockchain/init/Initializer_blockchainInit.c: the initialisation of the library.
pub mod Layout
pub mod Launch
pub mod Covers
pub mod Complete
use Prim.Native.String.{◌++◌}
use v_j_bc.Base.{
  ℕ, ◌+◌, ◌==◌, String, Bool, true, false, if◌then◌else◌, Option, none, some, List, [], ◌∷◌,
}
use v_j_bc.Jni.{Thrown, illegal_state}
use v_j_bc.Classes.{Jvm, Registry, JavaClass, Statement, Outcome, next, returned, register}
use v_j_bc.Classes.Cert.{
  attestation_exception_class, certificate_builder_class, certificate_class,
  certificate_contract_class, certificate_parser_class, certificate_parser_delegate_class,
  entity_reference_class, unknown_artifact_exception_class, unknown_artifact_type_exception_class,
  unknown_entity_exception_class,
}
use v_j_bc.Classes.Crypt.{
  invalid_key_size_exception_class, message_authentication_exception_class, message_class,
  signature_class, simple_stream_cipher_class,
}
use v_j_bc.Classes.Keys.{
  encryption_key_pair_class, encryption_private_key_class, encryption_public_key_class, key_class,
  signing_key_pair_class, signing_private_key_class, signing_public_key_class,
}
use v_j_bc.Classes.Lang.{
  illegal_argument_exception_class, illegal_state_exception_class, integer_class,
  message_verification_exception_class, null_pointer_exception_class, transaction_status_class,
}
use v_j_bc.Classes.Lists.{linked_list_class}
use v_j_bc.Classes.Maps.{hash_map_class}
use v_j_bc.Classes.Util.{optional_class, simple_entry_class, uuid_class}

-- What the initialisation uses of the platform: the JVM, whether `malloc` returns memory, and
-- whether the options of the crypto suite and of the certificate builder can be initialized.
pub record Platform : Type 0 where
  pub jvm : Jvm
  pub memory : Bool
  pub suite_options : Bool
  pub builder_options : Bool

-- What the method leaves: the registry, the exception that it throws, whether the memory of the
-- instance is still allocated, its flag `initialized`, and whether its address is returned.
pub record Result : Type 0 where
  pub registry : Registry
  pub thrown : Option Thrown
  pub allocated : Bool
  pub initialized : Bool
  pub instance_returned : Bool

pub data Finish : Type 0 where
  finished : Result → Finish
  undefined_behaviour : Finish

-- The body goes on, or the method has ended.
pub data Launched : Type 0 where
  launched : Registry → Launched
  stopped : Finish → Launched

abbrev pub refusal : String → Registry → Result
refusal text s = record {
  registry = s;
  thrown = some (record { class = illegal_state; message = text ++ " not initialized." });
  allocated = true;
  initialized = false;
  instance_returned = false;
}

-- `ThrowNew (env, native_inst->IllegalStateException.classid, ...); return 0;`
unfoldable pub fail : String → Registry → Finish
fail text s = elim (s.globals "IllegalStateException" "classid") [
  | none ↦ undefined_behaviour
  | some h ↦ finished (refusal text s)
]

-- `if (0 != (invocation)) { ThrowNew (...); return 0; }`
abbrev pub check : String → Outcome (Unit {0}) → Launched
check text (next a s) = launched s
check text (returned n s) = if n == 0 then launched s else stopped (fail text s)

-- The macro `INIT_OR_FAIL`.
unfoldable pub init_or_fail : String → Statement (Unit {0}) → Registry → Launched
init_or_fail text m s = check text (m s)

abbrev pub and_then : Launched → (Registry → Launched) → Launched
and_then (launched s) k = k s
and_then (stopped o) k = stopped o

-- An initialisation of options, by whether it succeeds.
unfoldable pub init_options : Bool → Statement (Unit {0})
init_options b s = if b then next tt s else returned 1 s

pub record Registration : Type 0 where
  pub text : String
  pub class : JavaClass

abbrev pub registration : String → JavaClass → Registration
registration t c = record { text = t; class = c }

unfoldable pub register_all : Jvm → List Registration → Registry → Launched
register_all jvm [] s = launched s
register_all jvm (r ∷ rs) s =
    and_then (init_or_fail r.text (register jvm r.class) s) (register_all jvm rs)

abbrev pub registrations : List Registration
registrations =
    registration "AttestationException" attestation_exception_class
    ∷ registration "Certificate" certificate_class
    ∷ registration "CertificateBuilder" certificate_builder_class
    ∷ registration "CertificateContract" certificate_contract_class
    ∷ registration "CertificateParser" certificate_parser_class
    ∷ registration "CertificateParserDelegate" certificate_parser_delegate_class
    ∷ registration "EncryptionKeyPair" encryption_key_pair_class
    ∷ registration "EncryptionPrivateKey" encryption_private_key_class
    ∷ registration "EncryptionPublicKey" encryption_public_key_class
    ∷ registration "InvalidKeySizeException" invalid_key_size_exception_class
    ∷ registration "Message" message_class
    ∷ registration "MessageVerificationException" message_verification_exception_class
    ∷ registration "EntityReference" entity_reference_class
    ∷ registration "HashMap" hash_map_class
    ∷ registration "IllegalArgumentException" illegal_argument_exception_class
    ∷ registration "Integer" integer_class
    ∷ registration "Key" key_class
    ∷ registration "LinkedList" linked_list_class
    ∷ registration "MessageAuthenticationException" message_authentication_exception_class
    ∷ registration "NullPointerException" null_pointer_exception_class
    ∷ registration "Optional" optional_class
    ∷ registration "SimpleEntry" simple_entry_class
    ∷ registration "Signature" signature_class
    ∷ registration "SigningKeyPair" signing_key_pair_class
    ∷ registration "SigningPrivateKey" signing_private_key_class
    ∷ registration "SigningPublicKey" signing_public_key_class
    ∷ registration "SimpleStreamCipher" simple_stream_cipher_class
    ∷ registration "TransactionStatus" transaction_status_class
    ∷ registration "UnknownArtifactException" unknown_artifact_exception_class
    ∷ registration "UnknownArtifactTypeException" unknown_artifact_type_exception_class
    ∷ registration "UnknownEntityException" unknown_entity_exception_class
    ∷ registration "UUID" uuid_class
    ∷ []

-- The instance, with all its variables NULL, after `memset`.
abbrev pub cleared : Registry → Registry
cleared s = record s { globals = λ _ _. none }

unfoldable pub launch : Platform → Registry → Launched
launch p s = and_then (init_or_fail "vccrypt suite options" (init_options p.suite_options) s) (λ s.
    and_then (init_or_fail "vccert builder options" (init_options p.builder_options) s)
      (register_all p.jvm registrations))

-- `native_inst->initialized = true; return (jlong)native_inst;`
abbrev pub success : Registry → Result
success s = record {
  registry = s;
  thrown = none;
  allocated = true;
  initialized = true;
  instance_returned = true;
}

-- `free (native_inst); return 0;`
abbrev pub freed : Registry → Result
freed s = record {
  registry = s;
  thrown = none;
  allocated = false;
  initialized = false;
  instance_returned = false;
}

-- The end of the method, by what the registrations leave.
abbrev pub end_of : Launched → Finish
end_of (stopped o) = o
end_of (launched s) = finished (success s)

-- `if (0 != IllegalStateException_register (...)) { free (native_inst); return 0; }`
abbrev pub continue_with : (Registry → Launched) → Outcome (Unit {0}) → Finish
continue_with k (next a s) = end_of (k s)
continue_with k (returned n s) = if n == 0 then end_of (k s) else finished (freed s)

unfoldable pub blockchain_init : Platform → Registry → Finish
blockchain_init p s =
    if p.memory
    then continue_with (launch p) (register p.jvm illegal_state_exception_class (cleared s))
    else undefined_behaviour
