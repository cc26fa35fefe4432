-- ===== src/Examples/Lists.antt =====
-- Lists of supertel/lib/containers.c with two elements, at the addresses 100 and 200.
use interview.Base.{ℕ, ◌+◌, ◌≡◌, refl, true, some, none, [], ◌∷◌, arith, ◌==◌, if◌then◌else◌}
use interview.LinkedList.{
  ListElement, LinkedList, Heap, list_add_after, list_add_before, list_remove_and_advance,
  list_begin,
}
use interview.LinkedList.Nodes.{nil, cons, IsList}
use interview.LinkedList.Insert.{Inserted}
use interview.LinkedList.Remove.{Removed}
use interview.LinkedList.Sequence.{walk, list_insert, list_remove, list_walk}

abbrev element_at : ℕ → ℕ → ℕ → ListElement
element_at p prev next = record { host = 10; prev = prev; next = next; content = p + 32 }

abbrev two_elements : Heap
two_elements a =
    if a == 100
    then some (element_at 100 0 200)
    else if a == 200
    then some (element_at 200 100 0)
    else none

abbrev pair : LinkedList
pair = record { self = 10; front = 100; back = 200; count = 2; inplace = true; element_size = 8 }

pair-IsList : IsList two_elements pair (100 ∷ 200 ∷ [])
pair-IsList = record {
  nodes =
      cons (record { ne_null = ground arith; content = 132; here = refl }) refl
        (cons (record { ne_null = ground arith; content = 232; here = refl }) refl nil);
  front = refl;
  back = refl;
  counted = refl;
  small = omega arith;
}

list_insert_example :
    Inserted two_elements pair (100 ∷ []) 300 (200 ∷ []) (list_add_after 300 two_elements pair 100)
    × Inserted two_elements pair [] 300 (100 ∷ 200 ∷ []) (list_add_before 300 two_elements pair 100)
list_insert_example =
    list_insert two_elements pair 300 [] 100 (200 ∷ []) (ground arith) refl pair-IsList
      (omega arith)

list_remove_example :
    Removed two_elements pair (100 ∷ []) 200 [] (list_remove_and_advance two_elements pair 200)
list_remove_example = list_remove two_elements pair (100 ∷ []) 200 [] pair-IsList

list_walk_example : walk 2 two_elements pair (list_begin pair) ≡ some (100 ∷ 200 ∷ [])
list_walk_example = list_walk two_elements pair (100 ∷ 200 ∷ []) pair-IsList
