-- ===== src/Classes/Keys.antt =====
-- The classes of com/velopayments/blockchain/crypt that are keys: the variables that the header of each
-- declares, and what its `_register` function looks up.
use v_j_bc.Base.{String, List, [], ◌∷◌}
use v_j_bc.Classes.{member, method, field, JavaClass}

abbrev pub encryption_key_pair_vars : List String
encryption_key_pair_vars = "classid" ∷ "init" ∷ "getPublicKey" ∷ "getPrivateKey" ∷ []

abbrev pub encryption_key_pair_class : JavaClass
encryption_key_pair_class = record {
  struct = "EncryptionKeyPair";
  class_name = "com/velopayments/blockchain/crypt/EncryptionKeyPair";
  members =
      member "init" method "<init>"
        "(Lcom/velopayments/blockchain/crypt/EncryptionPublicKey;Lcom/velopayments/blockchain/crypt/EncryptionPrivateKey;)V"
      ∷ member "getPublicKey" method "getPublicKey"
          "()Lcom/velopayments/blockchain/crypt/EncryptionPublicKey;"
      ∷ member "getPrivateKey" method "getPrivateKey"
          "()Lcom/velopayments/blockchain/crypt/EncryptionPrivateKey;"
      ∷ [];
}

abbrev pub encryption_private_key_vars : List String
encryption_private_key_vars = "classid" ∷ "init" ∷ "getRawBytes" ∷ []

abbrev pub encryption_private_key_class : JavaClass
encryption_private_key_class = record {
  struct = "EncryptionPrivateKey";
  class_name = "com/velopayments/blockchain/crypt/EncryptionPrivateKey";
  members =
      member "init" method "<init>" "([B)V" ∷ member "getRawBytes" method "getRawBytes" "()[B" ∷ [];
}

abbrev pub encryption_public_key_vars : List String
encryption_public_key_vars = "classid" ∷ "init" ∷ "getRawBytes" ∷ []

abbrev pub encryption_public_key_class : JavaClass
encryption_public_key_class = record {
  struct = "EncryptionPublicKey";
  class_name = "com/velopayments/blockchain/crypt/EncryptionPublicKey";
  members =
      member "init" method "<init>" "([B)V" ∷ member "getRawBytes" method "getRawBytes" "()[B" ∷ [];
}

abbrev pub key_vars : List String
key_vars = "classid" ∷ "init" ∷ "getRawBytes" ∷ "key" ∷ []

abbrev pub key_class : JavaClass
key_class = record {
  struct = "Key";
  class_name = "com/velopayments/blockchain/crypt/Key";
  members =
      member "init" method "<init>" "([B)V"
      ∷ member "getRawBytes" method "getRawBytes" "()[B"
      ∷ member "key" field "key" "[B"
      ∷ [];
}

abbrev pub signing_key_pair_vars : List String
signing_key_pair_vars = "classid" ∷ "init" ∷ []

abbrev pub signing_key_pair_class : JavaClass
signing_key_pair_class = record {
  struct = "SigningKeyPair";
  class_name = "com/velopayments/blockchain/crypt/SigningKeyPair";
  members =
      member "init" method "<init>"
        "(Lcom/velopayments/blockchain/crypt/SigningPublicKey;Lcom/velopayments/blockchain/crypt/SigningPrivateKey;)V"
      ∷ [];
}

abbrev pub signing_private_key_vars : List String
signing_private_key_vars = "classid" ∷ "init" ∷ "getRawBytes" ∷ []

abbrev pub signing_private_key_class : JavaClass
signing_private_key_class = record {
  struct = "SigningPrivateKey";
  class_name = "com/velopayments/blockchain/crypt/SigningPrivateKey";
  members =
      member "init" method "<init>" "([B)V" ∷ member "getRawBytes" method "getRawBytes" "()[B" ∷ [];
}

abbrev pub signing_public_key_vars : List String
signing_public_key_vars = "classid" ∷ "init" ∷ "getRawBytes" ∷ []

abbrev pub signing_public_key_class : JavaClass
signing_public_key_class = record {
  struct = "SigningPublicKey";
  class_name = "com/velopayments/blockchain/crypt/SigningPublicKey";
  members =
      member "init" method "<init>" "([B)V" ∷ member "getRawBytes" method "getRawBytes" "()[B" ∷ [];
}
