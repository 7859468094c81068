-- ===== src/Classes/Crypt.antt =====
-- The classes of com/velopayments/blockchain/crypt, the keys apart: the variables that the header of each
-- declares, and what its `_register` function looks up.
use v_j_bc.Base.{String, List, [], ◌∷◌}
use v_j_bc.Classes.{member, method, field, JavaClass}

abbrev pub invalid_key_size_exception_vars : List String
invalid_key_size_exception_vars = "classid" ∷ "init_String" ∷ "init_String_Throwable" ∷ []

abbrev pub invalid_key_size_exception_class : JavaClass
invalid_key_size_exception_class = record {
  struct = "InvalidKeySizeException";
  class_name = "com/velopayments/blockchain/crypt/InvalidKeySizeException";
  members =
      member "init_String" method "<init>" "(Ljava/lang/String;)V"
      ∷ member "init_String_Throwable" method "<init>" "(Ljava/lang/String;Ljava/lang/Throwable;)V"
      ∷ [];
}

abbrev pub message_vars : List String
message_vars = "classid" ∷ "init" ∷ "getRawBytes" ∷ []

abbrev pub message_class : JavaClass
message_class = record {
  struct = "Message";
  class_name = "com/velopayments/blockchain/crypt/Message";
  members =
      member "init" method "<init>" "([B)V" ∷ member "getRawBytes" method "getRawBytes" "()[B" ∷ [];
}

abbrev pub message_authentication_exception_vars : List String
message_authentication_exception_vars = "classid" ∷ "init_String" ∷ "init_String_Throwable" ∷ []

abbrev pub message_authentication_exception_class : JavaClass
message_authentication_exception_class = record {
  struct = "MessageAuthenticationException";
  class_name = "com/velopayments/blockchain/crypt/MessageAuthenticationException";
  members =
      member "init_String" method "<init>" "(Ljava/lang/String;)V"
      ∷ member "init_String_Throwable" method "<init>" "(Ljava/lang/String;Ljava/lang/Throwable;)V"
      ∷ [];
}

abbrev pub signature_vars : List String
signature_vars = "classid" ∷ "init" ∷ "getSignatureBytes" ∷ []

abbrev pub signature_class : JavaClass
signature_class = record {
  struct = "Signature";
  class_name = "com/velopayments/blockchain/crypt/Signature";
  members =
      member "init" method "<init>" "([B)V"
      ∷ member "getSignatureBytes" method "getSignatureBytes" "()[B"
      ∷ [];
}

abbrev pub simple_stream_cipher_vars : List String
simple_stream_cipher_vars = "classid" ∷ "init" ∷ "getKey" ∷ "encrypt" ∷ "decrypt" ∷ "field_key" ∷ []

abbrev pub simple_stream_cipher_class : JavaClass
simple_stream_cipher_class = record {
  struct = "SimpleStreamCipher";
  class_name = "com/velopayments/blockchain/crypt/SimpleStreamCipher";
  members =
      member "init" method "<init>" "(Lcom/velopayments/blockchain/crypt/Key;)V"
      ∷ member "getKey" method "getKey" "()Lcom/velopayments/blockchain/crypt/Key;"
      ∷ member "encrypt" method "encrypt" "([B)[B"
      ∷ member "decrypt" method "decrypt" "([B)[B"
      ∷ member "field_key" field "key" "Lcom/velopayments/blockchain/crypt/Key;"
      ∷ [];
}
