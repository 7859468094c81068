-- ===== src/Classes/Lang.antt =====
-- The classes of java/lang, com/velopayments/blockchain/agentd and com/velopayments/blockchain/client: the variables that the header of each
-- declares, and what its `_register` function looks up.
use v_j_bc.Base.{String, List, [], ◌∷◌}
use v_j_bc.Classes.{member, method, static_method, static_field, JavaClass}

abbrev pub message_verification_exception_vars : List String
message_verification_exception_vars = "classid" ∷ "init_String" ∷ []

abbrev pub message_verification_exception_class : JavaClass
message_verification_exception_class = record {
  struct = "MessageVerificationException";
  class_name = "com/velopayments/blockchain/agentd/MessageVerificationException";
  members = member "init_String" method "<init>" "(Ljava/lang/String;)V" ∷ [];
}

abbrev pub transaction_status_vars : List String
transaction_status_vars =
    "classid" ∷ "field_PENDING" ∷ "field_FAILED" ∷ "field_CANCELED" ∷ "field_SUCCEEDED"
    ∷ "field_UNKNOWN_DISCONNECTED" ∷ []

abbrev pub transaction_status_class : JavaClass
transaction_status_class = record {
  struct = "TransactionStatus";
  class_name = "com/velopayments/blockchain/client/TransactionStatus";
  members =
      member "field_PENDING" static_field "PENDING"
        "Lcom/velopayments/blockchain/client/TransactionStatus;"
      ∷ member "field_FAILED" static_field "FAILED"
          "Lcom/velopayments/blockchain/client/TransactionStatus;"
      ∷ member "field_CANCELED" static_field "CANCELED"
          "Lcom/velopayments/blockchain/client/TransactionStatus;"
      ∷ member "field_SUCCEEDED" static_field "SUCCEEDED"
          "Lcom/velopayments/blockchain/client/TransactionStatus;"
      ∷ member "field_UNKNOWN_DISCONNECTED" static_field "UNKNOWN_DISCONNECTED"
          "Lcom/velopayments/blockchain/client/TransactionStatus;"
      ∷ [];
}

abbrev pub illegal_argument_exception_vars : List String
illegal_argument_exception_vars =
    "classid" ∷ "init" ∷ "init_String" ∷ "init_String_Throwable" ∷ "init_Throwable" ∷ []

abbrev pub illegal_argument_exception_class : JavaClass
illegal_argument_exception_class = record {
  struct = "IllegalArgumentException";
  class_name = "java/lang/IllegalArgumentException";
  members =
      member "init" method "<init>" "()V"
      ∷ member "init_String" method "<init>" "(Ljava/lang/String;)V"
      ∷ member "init_String_Throwable" method "<init>" "(Ljava/lang/String;Ljava/lang/Throwable;)V"
      ∷ member "init_Throwable" method "<init>" "(Ljava/lang/Throwable;)V"
      ∷ [];
}

abbrev pub illegal_state_exception_vars : List String
illegal_state_exception_vars =
    "classid" ∷ "init" ∷ "init_String" ∷ "init_String_Throwable" ∷ "init_Throwable" ∷ []

abbrev pub illegal_state_exception_class : JavaClass
illegal_state_exception_class = record {
  struct = "IllegalStateException";
  class_name = "java/lang/IllegalStateException";
  members =
      member "init" method "<init>" "()V"
      ∷ member "init_String" method "<init>" "(Ljava/lang/String;)V"
      ∷ member "init_String_Throwable" method "<init>" "(Ljava/lang/String;Ljava/lang/Throwable;)V"
      ∷ member "init_Throwable" method "<init>" "(Ljava/lang/Throwable;)V"
      ∷ [];
}

abbrev pub integer_vars : List String
integer_vars = "classid" ∷ "valueOf" ∷ "intValue" ∷ []

abbrev pub integer_class : JavaClass
integer_class = record {
  struct = "Integer";
  class_name = "java/lang/Integer";
  members =
      member "valueOf" static_method "valueOf" "(I)Ljava/lang/Integer;"
      ∷ member "intValue" method "intValue" "()I"
      ∷ [];
}

abbrev pub null_pointer_exception_vars : List String
null_pointer_exception_vars = "classid" ∷ "init" ∷ "init_String" ∷ []

abbrev pub null_pointer_exception_class : JavaClass
null_pointer_exception_class = record {
  struct = "NullPointerException";
  class_name = "java/lang/NullPointerException";
  members =
      member "init" method "<init>" "()V"
      ∷ member "init_String" method "<init>" "(Ljava/lang/String;)V"
      ∷ [];
}
