-- ===== src/Classes/Maps.antt =====
-- The classes of java/util/HashMap: the variables that the header of each
-- declares, and what its `_register` function looks up.
use v_j_bc.Base.{String, List, [], ◌∷◌, ◌++◌}
use v_j_bc.Classes.{Member, member, method, JavaClass}

abbrev pub hash_map_vars : List String
hash_map_vars =
    "classid" ∷ "init_int_float" ∷ "init_int" ∷ "init" ∷ "init_Map" ∷ "size" ∷ "isEmpty" ∷ "get"
    ∷ "containsKey" ∷ "put" ∷ "putAll" ∷ "remove" ∷ "clear" ∷ "containsValue" ∷ "keySet" ∷ "values"
    ∷ "entrySet" ∷ "getOrDefault" ∷ "putIfAbsent" ∷ "remove_Object_Object" ∷ "replace_if"
    ∷ "replace" ∷ "computeIfAbsent" ∷ "computeIfPresent" ∷ "compute" ∷ "merge" ∷ "forEach"
    ∷ "replaceAll" ∷ "clone" ∷ []

abbrev pub hash_map_members_1 : List Member
hash_map_members_1 =
    member "init_int_float" method "<init>" "(IF)V"
    ∷ member "init_int" method "<init>" "(I)V"
    ∷ member "init" method "<init>" "()V"
    ∷ member "init_Map" method "<init>" "(Ljava/util/Map;)V"
    ∷ member "size" method "size" "()I"
    ∷ member "isEmpty" method "isEmpty" "()Z"
    ∷ member "get" method "get" "(Ljava/lang/Object;)Ljava/lang/Object;"
    ∷ member "containsKey" method "containsKey" "(Ljava/lang/Object;)Z"
    ∷ member "put" method "put" "(Ljava/lang/Object;Ljava/lang/Object;)Ljava/lang/Object;"
    ∷ member "putAll" method "putAll" "(Ljava/util/Map;)V"
    ∷ member "remove" method "remove" "(Ljava/lang/Object;)Ljava/lang/Object;"
    ∷ member "clear" method "clear" "()V"
    ∷ member "containsValue" method "containsValue" "(Ljava/lang/Object;)Z"
    ∷ member "keySet" method "keySet" "()Ljava/util/Set;"
    ∷ []

abbrev pub hash_map_members_2 : List Member
hash_map_members_2 =
    member "values" method "values" "()Ljava/util/Collection;"
    ∷ member "entrySet" method "entrySet" "()Ljava/util/Set;"
    ∷ member "getOrDefault" method "getOrDefault"
        "(Ljava/lang/Object;Ljava/lang/Object;)Ljava/lang/Object;"
    ∷ member "putIfAbsent" method "putIfAbsent"
        "(Ljava/lang/Object;Ljava/lang/Object;)Ljava/lang/Object;"
    ∷ member "remove_Object_Object" method "remove" "(Ljava/lang/Object;Ljava/lang/Object;)Z"
    ∷ member "replace_if" method "replace"
        "(Ljava/lang/Object;Ljava/lang/Object;Ljava/lang/Object;)Z"
    ∷ member "replace" method "replace" "(Ljava/lang/Object;Ljava/lang/Object;)Ljava/lang/Object;"
    ∷ member "computeIfAbsent" method "computeIfAbsent"
        "(Ljava/lang/Object;Ljava/util/function/Function;)Ljava/lang/Object;"
    ∷ member "computeIfPresent" method "computeIfPresent"
        "(Ljava/lang/Object;Ljava/util/function/BiFunction;)Ljava/lang/Object;"
    ∷ member "compute" method "compute"
        "(Ljava/lang/Object;Ljava/util/function/BiFunction;)Ljava/lang/Object;"
    ∷ member "merge" method "merge"
        "(Ljava/lang/Object;Ljava/lang/Object;Ljava/util/function/BiFunction;)Ljava/lang/Object;"
    ∷ member "forEach" method "forEach" "(Ljava/util/function/BiConsumer;)V"
    ∷ member "replaceAll" method "replaceAll" "(Ljava/util/function/BiFunction;)V"
    ∷ member "clone" method "clone" "()Ljava/lang/Object;"
    ∷ []

abbrev pub hash_map_class : JavaClass
hash_map_class = record {
  struct = "HashMap";
  class_name = "java/util/HashMap";
  members = hash_map_members_1 ++ hash_map_members_2;
}
