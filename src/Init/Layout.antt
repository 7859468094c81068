-- ===== src/Init/Layout.antt =====
-- com/velopayments/blockchain/init/init.h: the variables of the native instance, by class.
use v_j_bc.Base.{String, List, [], ◌∷◌}
use v_j_bc.Classes.Cert.{
  attestation_exception_vars, certificate_builder_vars, certificate_contract_vars,
  certificate_parser_delegate_vars, certificate_parser_vars, certificate_vars,
  entity_reference_vars, unknown_artifact_exception_vars, unknown_artifact_type_exception_vars,
  unknown_entity_exception_vars,
}
use v_j_bc.Classes.Crypt.{
  invalid_key_size_exception_vars, message_authentication_exception_vars, message_vars,
  signature_vars, simple_stream_cipher_vars,
}
use v_j_bc.Classes.Keys.{
  encryption_key_pair_vars, encryption_private_key_vars, encryption_public_key_vars, key_vars,
  signing_key_pair_vars, signing_private_key_vars, signing_public_key_vars,
}
use v_j_bc.Classes.Lang.{
  illegal_argument_exception_vars, illegal_state_exception_vars, integer_vars,
  message_verification_exception_vars, null_pointer_exception_vars, transaction_status_vars,
}
use v_j_bc.Classes.Lists.{linked_list_vars}
use v_j_bc.Classes.Maps.{hash_map_vars}
use v_j_bc.Classes.Util.{optional_vars, simple_entry_vars, uuid_vars}

pub record Declared : Type 0 where
  pub struct : String
  pub vars : List String

abbrev pub declared : String → List String → Declared
declared s v = record { struct = s; vars = v }

-- `struct vjblockchain_native_instance`, the registered classes of it.
abbrev pub native_instance : List Declared
native_instance =
    declared "AttestationException" attestation_exception_vars
    ∷ declared "Certificate" certificate_vars
    ∷ declared "CertificateBuilder" certificate_builder_vars
    ∷ declared "CertificateContract" certificate_contract_vars
    ∷ declared "CertificateParser" certificate_parser_vars
    ∷ declared "CertificateParserDelegate" certificate_parser_delegate_vars
    ∷ declared "EncryptionKeyPair" encryption_key_pair_vars
    ∷ declared "EncryptionPrivateKey" encryption_private_key_vars
    ∷ declared "EncryptionPublicKey" encryption_public_key_vars
    ∷ declared "InvalidKeySizeException" invalid_key_size_exception_vars
    ∷ declared "Message" message_vars
    ∷ declared "MessageVerificationException" message_verification_exception_vars
    ∷ declared "EntityReference" entity_reference_vars
    ∷ declared "HashMap" hash_map_vars
    ∷ declared "IllegalArgumentException" illegal_argument_exception_vars
    ∷ declared "IllegalStateException" illegal_state_exception_vars
    ∷ declared "Integer" integer_vars
    ∷ declared "Key" key_vars
    ∷ declared "LinkedList" linked_list_vars
    ∷ declared "MessageAuthenticationException" message_authentication_exception_vars
    ∷ declared "NullPointerException" null_pointer_exception_vars
    ∷ declared "Optional" optional_vars
    ∷ declared "SimpleEntry" simple_entry_vars
    ∷ declared "Signature" signature_vars
    ∷ declared "SigningKeyPair" signing_key_pair_vars
    ∷ declared "SigningPrivateKey" signing_private_key_vars
    ∷ declared "SigningPublicKey" signing_public_key_vars
    ∷ declared "SimpleStreamCipher" simple_stream_cipher_vars
    ∷ declared "TransactionStatus" transaction_status_vars
    ∷ declared "UnknownArtifactException" unknown_artifact_exception_vars
    ∷ declared "UnknownArtifactTypeException" unknown_artifact_type_exception_vars
    ∷ declared "UnknownEntityException" unknown_entity_exception_vars
    ∷ declared "UUID" uuid_vars
    ∷ []
