-- ===== src/Classes/Util.antt =====
-- The classes of java/util, the list and the map apart: the variables that the header of each
-- declares, and what its `_register` function looks up.
use v_j_bc.Base.{String, List, [], ◌∷◌}
use v_j_bc.Classes.{member, method, static_method, JavaClass}

abbrev pub simple_entry_vars : List String
simple_entry_vars =
    "classid" ∷ "init" ∷ "init_Entry" ∷ "getKey" ∷ "getValue" ∷ "setValue" ∷ "equals" ∷ "hashCode"
    ∷ "toString" ∷ []

abbrev pub simple_entry_class : JavaClass
simple_entry_class = record {
  struct = "SimpleEntry";
  class_name = "java/util/AbstractMap$SimpleEntry";
  members =
      member "init" method "<init>" "(Ljava/lang/Object;Ljava/lang/Object;)V"
      ∷ member "init_Entry" method "<init>" "(Ljava/util/Map$Entry;)V"
      ∷ member "getKey" method "getKey" "()Ljava/lang/Object;"
      ∷ member "getValue" method "getValue" "()Ljava/lang/Object;"
      ∷ member "setValue" method "setValue" "(Ljava/lang/Object;)Ljava/lang/Object;"
      ∷ member "equals" method "equals" "(Ljava/lang/Object;)Z"
      ∷ member "hashCode" method "hashCode" "()I"
      ∷ member "toString" method "toString" "()Ljava/lang/String;"
      ∷ [];
}

abbrev pub optional_vars : List String
optional_vars =
    "classid" ∷ "empty" ∷ "of" ∷ "ofNullable" ∷ "get" ∷ "isPresent" ∷ "ifPresent" ∷ "filter" ∷ "map"
    ∷ "flatMap" ∷ "orElse" ∷ "orElseGet" ∷ "orElseThrow" ∷ "equals" ∷ "hashCode" ∷ "toString" ∷ []

abbrev pub optional_class : JavaClass
optional_class = record {
  struct = "Optional";
  class_name = "java/util/Optional";
  members =
      member "empty" static_method "empty" "()Ljava/util/Optional;"
      ∷ member "of" static_method "of" "(Ljava/lang/Object;)Ljava/util/Optional;"
      ∷ member "ofNullable" static_method "ofNullable" "(Ljava/lang/Object;)Ljava/util/Optional;"
      ∷ member "get" method "get" "()Ljava/lang/Object;"
      ∷ member "isPresent" method "isPresent" "()Z"
      ∷ member "ifPresent" method "ifPresent" "(Ljava/util/function/Consumer;)V"
      ∷ member "filter" method "filter" "(Ljava/util/function/Predicate;)Ljava/util/Optional;"
      ∷ member "map" method "map" "(Ljava/util/function/Function;)Ljava/util/Optional;"
      ∷ member "flatMap" method "flatMap" "(Ljava/util/function/Function;)Ljava/util/Optional;"
      ∷ member "orElse" method "orElse" "(Ljava/lang/Object;)Ljava/lang/Object;"
      ∷ member "orElseGet" method "orElseGet" "(Ljava/util/function/Supplier;)Ljava/lang/Object;"
      ∷ member "orElseThrow" method "orElseThrow"
          "(Ljava/util/function/Supplier;)Ljava/lang/Object;"
      ∷ member "equals" method "equals" "(Ljava/lang/Object;)Z"
      ∷ member "hashCode" method "hashCode" "()I"
      ∷ member "toString" method "toString" "()Ljava/lang/String;"
      ∷ [];
}

abbrev pub uuid_vars : List String
uuid_vars =
    "classid" ∷ "init" ∷ "randomUUID" ∷ "nameUUIDFromBytes" ∷ "fromString"
    ∷ "getLeastSignificantBits" ∷ "getMostSignificantBits" ∷ "version" ∷ "variant" ∷ "timestamp"
    ∷ "clockSequence" ∷ "node" ∷ "toString" ∷ "hashCode" ∷ "equals" ∷ "compareTo"
    ∷ "compareTo_Object" ∷ []

abbrev pub uuid_class : JavaClass
uuid_class = record {
  struct = "UUID";
  class_name = "java/util/UUID";
  members =
      member "init" method "<init>" "(JJ)V"
      ∷ member "randomUUID" static_method "randomUUID" "()Ljava/util/UUID;"
      ∷ member "nameUUIDFromBytes" static_method "nameUUIDFromBytes" "([B)Ljava/util/UUID;"
      ∷ member "fromString" static_method "fromString" "(Ljava/lang/String;)Ljava/util/UUID;"
      ∷ member "getLeastSignificantBits" method "getLeastSignificantBits" "()J"
      ∷ member "getMostSignificantBits" method "getMostSignificantBits" "()J"
      ∷ member "version" method "version" "()I"
      ∷ member "variant" method "variant" "()I"
      ∷ member "timestamp" method "timestamp" "()J"
      ∷ member "clockSequence" method "clockSequence" "()I"
      ∷ member "node" method "node" "()J"
      ∷ member "toString" method "toString" "()Ljava/lang/String;"
      ∷ member "hashCode" method "hashCode" "()I"
      ∷ member "equals" method "equals" "(Ljava/lang/Object;)Z"
      ∷ member "compareTo" method "compareTo" "(Ljava/util/UUID;)I"
      ∷ member "compareTo_Object" method "compareTo" "(Ljava/lang/Object;)I"
      ∷ [];
}
