-- ===== src/LinkedList/Sequence.antt =====
-- The operations of a list as operations on the sequence of its elements.
use interview.Base.{
  ℕ, zero, suc, ◌+◌, ◌^◌, ◌<◌, ◌≡◌, ◌≢◌, refl, ap, ◌∙◌, false, Option, none, some, List, [], ◌∷◌,
  ◌++◌, append_assoc, length, arith, ◌==◌, if◌then◌else◌, ◌>>=◌,
}
use interview.LinkedList.{
  LinkedList, null, Heap, write, load, assert_host, list_prepend, list_append, list_add_after,
  list_add_before, list_remove_and_advance, list_begin, list_end, list_next, list_prev, list_purge,
  purge_loop,
}
use interview.LinkedList.Nodes.{head_or, last_or, Nodes, cons, IsList}
use interview.LinkedList.Relink.{load-Holds, deallocate-Holds, not_null}
use interview.LinkedList.Ends.{at_el, assert_host-Holds}
use interview.LinkedList.Insert.{
  Inserted, append-Inserted, prepend-Inserted, after-Inserted, before-Inserted,
}
use interview.LinkedList.Remove.{Removed, remove-Removed}

-- `for (el = list_begin(l); el; el = list_next(l, el))` with a bound on its rounds: the elements that
-- the loop comes by
unfoldable pub walk : ℕ → Heap → LinkedList → ℕ → Option (List ℕ)
walk zero h l el = if el == null then some [] else none
walk (suc rounds) h l el =
    let rest = (do next ← list_next h l el; els ← walk rounds h l next; some (el ∷ els)) in
    if el == null then some [] else rest

load_freed : (h : Heap) (x : ℕ) → load (write h x none) x ≡ none
unfolding load write
load_freed h x = ground arith

purge_first :
    (h : Heap) (rounds x : ℕ) (xs : List ℕ) {host after before : ℕ}
    → Nodes h host after before (x ∷ xs)
    → purge_loop (suc rounds) h x ≡ none
unfolding purge_loop
purge_first h rounds x xs (cons e out rest) =
    rw (not_null e) (rw (deallocate-Holds e, ◌>>=◌) (rw (load_freed h x, ◌>>=◌) refl))

module _ (h : Heap) (l : LinkedList) where
  -- For a new element x that malloc returns, not NULL and not in use, and a list whose size does not
  -- overflow: list_append makes the list of the elements xs the list of xs followed by x, list_prepend
  -- that of x followed by xs, each returns x and writes to nothing but x and the elements of the
  -- list, and list_add_after and list_add_before at NULL do the same.
  list_ends :
      (x : ℕ) (xs : List ℕ)
      → x ≢ null
      → h x ≡ none
      → IsList h l xs
      → l.count + 1 < 2 ^ 64
      → Inserted h l xs x [] (list_append x h l)
        × Inserted h l [] x xs (list_prepend x h l)
        × (list_add_after x h l null ≡ list_prepend x h l)
        × (list_add_before x h l null ≡ list_append x h l)
  unfolding list_add_after list_add_before assert_host
  list_ends x xs ne unused v room = (
    append-Inserted h l x ne unused xs v room,
    prepend-Inserted h l x ne unused xs v room,
    refl,
    refl,
  )

  -- For an element el of a list, with the elements us in front of it and bs behind it, and a new
  -- element x that malloc returns, not NULL and not in use: list_add_after makes it the list of us,
  -- el, x and bs, and list_add_before that of us, x, el and bs, where the size does not overflow;
  -- each returns x and writes to nothing but x and the elements of the list.
  pub list_insert :
      (x : ℕ) (us : List ℕ) (el : ℕ) (bs : List ℕ)
      → x ≢ null
      → h x ≡ none
      → IsList h l (us ++ el ∷ bs)
      → l.count + 1 < 2 ^ 64
      → Inserted h l (us ++ el ∷ []) x bs (list_add_after x h l el)
        × Inserted h l us x (el ∷ bs) (list_add_before x h l el)
  list_insert x us el bs ne unused v room = (
    after-Inserted h l x ne unused us el bs v room,
    before-Inserted h l x ne unused us el bs v room,
  )

  -- For an element el of a list, with the elements us in front of it and bs behind it:
  -- list_remove_and_advance makes it the list of us and bs, frees el, returns the element behind el,
  -- or NULL for the last one, and writes to nothing but the elements of the list.
  pub list_remove :
      (us : List ℕ) (el : ℕ) (bs : List ℕ)
      → IsList h l (us ++ el ∷ bs)
      → Removed h l us el bs (list_remove_and_advance h l el)
  list_remove = remove-Removed h l

  -- For an element el of a list, with the elements us in front of it and bs behind it: list_next
  -- returns the first of bs and list_prev the last of us, and NULL where there is none; list_next
  -- of NULL is list_begin, the first element, and list_prev of NULL is list_end, the last one.
  list_neighbours :
      (us : List ℕ) (el : ℕ) (bs : List ℕ)
      → IsList h l (us ++ el ∷ bs)
      → (list_next h l el ≡ some (head_or null bs))
        × (list_prev h l el ≡ some (last_or null us))
        × (list_next h l null ≡ some (list_begin l))
        × (list_prev h l null ≡ some (list_end l))
        × (list_begin l ≡ head_or null (us ++ el ∷ bs))
        × (list_end l ≡ last_or null (us ++ el ∷ bs))
  unfolding list_next list_prev list_begin list_end assert_host
  list_neighbours us el bs v =
      let e = at_el us el bs v.nodes in
      let (ok, here) = assert_host-Holds l e in
      (
        rw (ok, ◌>>=◌) (rw here (rw (load-Holds e, ◌>>=◌) refl)),
        rw (ok, ◌>>=◌) (rw here (rw (load-Holds e, ◌>>=◌) refl)),
        refl,
        refl,
        v.front,
        v.back,
      )

  walk_from :
      (us bs : List ℕ) → IsList h l (us ++ bs) → walk (length bs) h l (head_or null bs) ≡ some bs
  unfolding walk
  walk_from us [] v = refl
  walk_from us (b ∷ bs) v =
      let (next, prev, begin, end, first, last) = list_neighbours us b bs v in
      let (ok, here) = assert_host-Holds l (at_el us b bs v.nodes) in
      let rest = walk_from (us ++ b ∷ []) bs (rw (append_assoc us (b ∷ []) bs) v) in
      rw (here) (rw (next, ◌>>=◌) (rw (rest, ◌>>=◌) refl))

  -- A walk over a list with list_next that starts at list_begin ends: as many rounds as the list
  -- has elements are enough, and it comes by every element, each once and in order.
  pub list_walk : (xs : List ℕ) → IsList h l xs → walk l.count h l (list_begin l) ≡ some xs
  unfolding list_begin
  list_walk xs v =
      ap (λ n. walk n h l l.front) v.counted ∙ ap (walk (length xs) h l) v.front ∙ walk_from [] xs v

  -- list_purge of a list with elements is a fault, since it reads the first element after it has
  -- freed it; of an empty list it sets front and back to NULL and leaves the heap as it is.
  list_purge-fault :
      (xs : List ℕ)
      → IsList h l xs
      → list_purge h l
        ≡ (if l.count == 0 then some (h, record l { front = null; back = null }) else none)
  unfolding list_purge
  list_purge-fault [] v = rw v.counted refl
  list_purge-fault (x ∷ xs) v =
      let some_left : (l.count == 0) ≡ false = ground (arith, v.counted) in
      let round : l.count + 1 ≡ suc l.count = omega arith in
      let fails =
        ap (λ n. purge_loop n h l.front) round
        ∙ ap (purge_loop (suc l.count) h) v.front
        ∙ purge_first h l.count x xs v.nodes in
      rw some_left (rw (fails, ◌>>=◌) refl)
