-- ===== src/Classes/Cert.antt =====
-- The classes of com/velopayments/blockchain/cert: the variables that the header of each
-- declares, and what its `_register` function looks up.
use v_j_bc.Base.{String, List, [], ◌∷◌}
use v_j_bc.Classes.{member, method, static_method, field, JavaClass}

abbrev pub attestation_exception_vars : List String
attestation_exception_vars = "classid" ∷ "init_String" ∷ "init_String_Throwable" ∷ []

abbrev pub attestation_exception_class : JavaClass
attestation_exception_class = record {
  struct = "AttestationException";
  class_name = "com/velopayments/blockchain/cert/AttestationException";
  members =
      member "init_String" method "<init>" "(Ljava/lang/String;)V"
      ∷ member "init_String_Throwable" method "<init>" "(Ljava/lang/String;Ljava/lang/Throwable;)V"
      ∷ [];
}

abbrev pub certificate_vars : List String
certificate_vars = "classid" ∷ "fromByteArray" ∷ "toByteArray" ∷ []

abbrev pub certificate_class : JavaClass
certificate_class = record {
  struct = "Certificate";
  class_name = "com/velopayments/blockchain/cert/Certificate";
  members =
      member "fromByteArray" static_method "fromByteArray"
        "([B)Lcom/velopayments/blockchain/cert/Certificate;"
      ∷ member "toByteArray" method "toByteArray" "()[B"
      ∷ [];
}

abbrev pub certificate_builder_vars : List String
certificate_builder_vars =
    "classid" ∷ "field_fields" ∷ "addByte" ∷ "addShort" ∷ "addInt" ∷ "addLong" ∷ "addUUID"
    ∷ "addString" ∷ "addDate" ∷ "sign" ∷ []

abbrev pub certificate_builder_class : JavaClass
certificate_builder_class = record {
  struct = "CertificateBuilder";
  class_name = "com/velopayments/blockchain/cert/CertificateBuilder";
  members =
      member "field_fields" field "fields" "Ljava/util/LinkedList;"
      ∷ member "addByte" method "addByte"
          "(IB)Lcom/velopayments/blockchain/cert/CertificateBuilder;"
      ∷ member "addShort" method "addShort"
          "(II)Lcom/velopayments/blockchain/cert/CertificateBuilder;"
      ∷ member "addInt" method "addInt" "(II)Lcom/velopayments/blockchain/cert/CertificateBuilder;"
      ∷ member "addLong" method "addLong"
          "(IJ)Lcom/velopayments/blockchain/cert/CertificateBuilder;"
      ∷ member "addUUID" method "addUUID"
          "(ILjava/util/UUID;)Lcom/velopayments/blockchain/cert/CertificateBuilder;"
      ∷ member "addString" method "addString"
          "(ILjava/lang/String;)Lcom/velopayments/blockchain/cert/CertificateBuilder;"
      ∷ member "addDate" method "addDate"
          "(ILjava/util/Date;)Lcom/velopayments/blockchain/cert/CertificateBuilder;"
      ∷ member "sign" method "sign"
          "(Ljava/util/UUID;Lcom/velopayments/blockchain/crypt/SigningPrivateKey;)Lcom/velopayments/blockchain/cert/Certificate;"
      ∷ [];
}

abbrev pub certificate_contract_vars : List String
certificate_contract_vars = "classid" ∷ "verify" ∷ []

abbrev pub certificate_contract_class : JavaClass
certificate_contract_class = record {
  struct = "CertificateContract";
  class_name = "com/velopayments/blockchain/cert/CertificateContract";
  members =
      member "verify" method "verify" "(Lcom/velopayments/blockchain/cert/CertificateParser;)Z"
      ∷ [];
}

abbrev pub certificate_parser_vars : List String
certificate_parser_vars =
    "classid" ∷ "field_certificate" ∷ "field_rawSize" ∷ "field_size" ∷ "init" ∷ "parse" ∷ "attest"
    ∷ []

abbrev pub certificate_parser_class : JavaClass
certificate_parser_class = record {
  struct = "CertificateParser";
  class_name = "com/velopayments/blockchain/cert/CertificateParser";
  members =
      member "field_certificate" field "certificate" "[B"
      ∷ member "field_rawSize" field "rawSize" "I"
      ∷ member "field_size" field "size" "I"
      ∷ member "init" method "<init>" "(Lcom/velopayments/blockchain/cert/Certificate;)V"
      ∷ member "parse" method "parse" "()Ljava/util/Map;"
      ∷ member "attest" method "attest"
          "(Lcom/velopayments/blockchain/cert/CertificateParserDelegate;JZ)Z"
      ∷ [];
}

abbrev pub certificate_parser_delegate_vars : List String
certificate_parser_delegate_vars = "classid" ∷ "resolveEntity" ∷ "resolveArtifactState" ∷ []

abbrev pub certificate_parser_delegate_class : JavaClass
certificate_parser_delegate_class = record {
  struct = "CertificateParserDelegate";
  class_name = "com/velopayments/blockchain/cert/CertificateParserDelegate";
  members =
      member "resolveEntity" method "resolveEntity"
        "(Ljava/util/UUID;J)Lcom/velopayments/blockchain/cert/EntityReference;"
      ∷ member "resolveArtifactState" method "resolveArtifactState"
          "(Ljava/util/UUID;J)Lcom/velopayments/blockchain/cert/ArtifactState;"
      ∷ [];
}

abbrev pub entity_reference_vars : List String
entity_reference_vars = "classid" ∷ "init" ∷ "getPublicEncryptionKey" ∷ "getPublicSigningKey" ∷ []

abbrev pub entity_reference_class : JavaClass
entity_reference_class = record {
  struct = "EntityReference";
  class_name = "com/velopayments/blockchain/cert/EntityReference";
  members =
      member "init" method "<init>" "([B[BLjava/util/UUID;)V"
      ∷ member "getPublicEncryptionKey" method "getPublicEncryptionKey" "()[B"
      ∷ member "getPublicSigningKey" method "getPublicSigningKey" "()[B"
      ∷ [];
}

abbrev pub unknown_artifact_exception_vars : List String
unknown_artifact_exception_vars = "classid" ∷ "init_String" ∷ "init_UUID" ∷ []

abbrev pub unknown_artifact_exception_class : JavaClass
unknown_artifact_exception_class = record {
  struct = "UnknownArtifactException";
  class_name = "com/velopayments/blockchain/cert/UnknownArtifactException";
  members =
      member "init_String" method "<init>" "(Ljava/lang/String;)V"
      ∷ member "init_UUID" method "<init>" "(Ljava/util/UUID;)V"
      ∷ [];
}

abbrev pub unknown_artifact_type_exception_vars : List String
unknown_artifact_type_exception_vars = "classid" ∷ "init_String" ∷ "init_UUID" ∷ []

abbrev pub unknown_artifact_type_exception_class : JavaClass
unknown_artifact_type_exception_class = record {
  struct = "UnknownArtifactTypeException";
  class_name = "com/velopayments/blockchain/cert/UnknownArtifactTypeException";
  members =
      member "init_String" method "<init>" "(Ljava/lang/String;)V"
      ∷ member "init_UUID" method "<init>" "(Ljava/util/UUID;)V"
      ∷ [];
}

abbrev pub unknown_entity_exception_vars : List String
unknown_entity_exception_vars = "classid" ∷ "init_String" ∷ "init_UUID" ∷ []

abbrev pub unknown_entity_exception_class : JavaClass
unknown_entity_exception_class = record {
  struct = "UnknownEntityException";
  class_name = "com/velopayments/blockchain/cert/UnknownEntityException";
  members =
      member "init_String" method "<init>" "(Ljava/lang/String;)V"
      ∷ member "init_UUID" method "<init>" "(Ljava/util/UUID;)V"
      ∷ [];
}
