-- ===== src/Classes/Lists.antt =====
-- The classes of java/util/LinkedList: the variables that the header of each
-- declares, and what its `_register` function looks up.
use v_j_bc.Base.{String, List, [], ◌∷◌, ◌++◌}
use v_j_bc.Classes.{Member, member, method, JavaClass}

abbrev pub linked_list_vars : List String
linked_list_vars =
    "classid" ∷ "init" ∷ "init_Collection" ∷ "getFirst" ∷ "getLast" ∷ "removeFirst" ∷ "removeLast"
    ∷ "addFirst" ∷ "addLast" ∷ "contains" ∷ "size" ∷ "add" ∷ "remove_Object" ∷ "addAll_Collection"
    ∷ "addAll_int_Collection" ∷ "clear" ∷ "get" ∷ "set" ∷ "add_int_Object" ∷ "remove_int"
    ∷ "indexOf" ∷ "lastIndexOf" ∷ "peek" ∷ "element" ∷ "poll" ∷ "remove" ∷ "offer" ∷ "offerFirst"
    ∷ "offerLast" ∷ "peekFirst" ∷ "peekLast" ∷ "pollFirst" ∷ "pollLast" ∷ "push" ∷ "pop"
    ∷ "removeFirstOccurrence" ∷ "removeLastOccurrence" ∷ "listIterator" ∷ "descendingIterator"
    ∷ "clone" ∷ "toArray" ∷ "toArray_Object" ∷ "spliterator" ∷ []

abbrev pub linked_list_members_1 : List Member
linked_list_members_1 =
    member "init" method "<init>" "()V"
    ∷ member "init_Collection" method "<init>" "(Ljava/util/Collection;)V"
    ∷ member "getFirst" method "getFirst" "()Ljava/lang/Object;"
    ∷ member "getLast" method "getLast" "()Ljava/lang/Object;"
    ∷ member "removeFirst" method "removeFirst" "()Ljava/lang/Object;"
    ∷ member "removeLast" method "removeLast" "()Ljava/lang/Object;"
    ∷ member "addFirst" method "addFirst" "(Ljava/lang/Object;)V"
    ∷ member "addLast" method "addLast" "(Ljava/lang/Object;)V"
    ∷ member "contains" method "contains" "(Ljava/lang/Object;)Z"
    ∷ member "size" method "size" "()I"
    ∷ member "add" method "add" "(Ljava/lang/Object;)Z"
    ∷ member "remove_Object" method "remove" "(Ljava/lang/Object;)Z"
    ∷ member "addAll_Collection" method "addAll" "(Ljava/util/Collection;)Z"
    ∷ []

abbrev pub linked_list_members_2 : List Member
linked_list_members_2 =
    member "addAll_int_Collection" method "addAll" "(ILjava/util/Collection;)Z"
    ∷ member "clear" method "clear" "()V"
    ∷ member "get" method "get" "(I)Ljava/lang/Object;"
    ∷ member "set" method "set" "(ILjava/lang/Object;)Ljava/lang/Object;"
    ∷ member "add_int_Object" method "add" "(ILjava/lang/Object;)V"
    ∷ member "remove_int" method "remove" "(I)Ljava/lang/Object;"
    ∷ member "indexOf" method "indexOf" "(Ljava/lang/Object;)I"
    ∷ member "lastIndexOf" method "lastIndexOf" "(Ljava/lang/Object;)I"
    ∷ member "peek" method "peek" "()Ljava/lang/Object;"
    ∷ member "element" method "element" "()Ljava/lang/Object;"
    ∷ member "poll" method "poll" "()Ljava/lang/Object;"
    ∷ member "remove" method "remove" "()Ljava/lang/Object;"
    ∷ member "offer" method "offer" "(Ljava/lang/Object;)Z"
    ∷ member "offerFirst" method "offerFirst" "(Ljava/lang/Object;)Z"
    ∷ member "offerLast" method "offerLast" "(Ljava/lang/Object;)Z"
    ∷ member "peekFirst" method "peekFirst" "()Ljava/lang/Object;"
    ∷ member "peekLast" method "peekLast" "()Ljava/lang/Object;"
    ∷ []

abbrev pub linked_list_members_3 : List Member
linked_list_members_3 =
    member "pollFirst" method "pollFirst" "()Ljava/lang/Object;"
    ∷ member "pollLast" method "pollLast" "()Ljava/lang/Object;"
    ∷ member "push" method "push" "(Ljava/lang/Object;)V"
    ∷ member "pop" method "pop" "()Ljava/lang/Object;"
    ∷ member "removeFirstOccurrence" method "removeFirstOccurrence" "(Ljava/lang/Object;)Z"
    ∷ member "removeLastOccurrence" method "removeLastOccurrence" "(Ljava/lang/Object;)Z"
    ∷ member "listIterator" method "listIterator" "(I)Ljava/util/ListIterator;"
    ∷ member "descendingIterator" method "descendingIterator" "()Ljava/util/Iterator;"
    ∷ member "clone" method "clone" "()Ljava/lang/Object;"
    ∷ member "toArray" method "toArray" "()[Ljava/lang/Object;"
    ∷ member "toArray_Object" method "toArray" "([Ljava/lang/Object;)[Ljava/lang/Object;"
    ∷ member "spliterator" method "spliterator" "()Ljava/util/Spliterator;"
    ∷ []

abbrev pub linked_list_class : JavaClass
linked_list_class = record {
  struct = "LinkedList";
  class_name = "java/util/LinkedList";
  members = linked_list_members_1 ++ linked_list_members_2 ++ linked_list_members_3;
}
