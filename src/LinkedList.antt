-- ===== src/LinkedList.antt =====
-- supertel/lib/containers.c, the part LIST: a doubly linked list on a heap. Addresses are numbers, 0
-- is NULL, and `none` is a fault: a failed assertion, or an access to memory that is NULL or not
-- allocated. `fresh` is what `malloc` returns for a new element.
pub mod Nodes
pub mod Relink
pub mod Weave
pub mod Ready
pub mod Ends
pub mod Insert
pub mod Remove
pub mod Sequence
use interview.Base.{
  ℕ, zero, suc, ◌+◌, ◌-◌, ◌%◌, ◌^◌, Bool, true, false, not, ◌&&◌, ◌||◌, Option, none, some, ◌==◌,
  if◌then◌else◌, ◌>>=◌,
}

abbrev pub null : ℕ
null = 0

-- `list_element_t`; `content` is the field `data`, a pointer
pub record ListElement : Type 0 where
  pub host : ℕ
  pub prev : ℕ
  pub next : ℕ
  pub content : ℕ

-- `struct list`, with its own address
pub record LinkedList : Type 0 where
  pub self : ℕ
  pub front : ℕ
  pub back : ℕ
  pub count : ℕ
  pub inplace : Bool
  pub element_size : ℕ

abbrev pub Heap : Type 0
Heap = ℕ → Option ListElement

unfoldable pub write : Heap → ℕ → Option ListElement → Heap
write h p e a = if a == p then e else h a

unfoldable pub load : Heap → ℕ → Option ListElement
load h p = if p == null then none else h p

-- `p->next = q` and `p->prev = q`
unfoldable pub set_next : Heap → ℕ → ℕ → Option Heap
set_next h p q = do e ← load h p; some (write h p (some (record e { next = q })))

unfoldable pub set_prev : Heap → ℕ → ℕ → Option Heap
set_prev h p q = do e ← load h p; some (write h p (some (record e { prev = q })))

-- `if (p) p->next = q;` and `if (p) p->prev = q;`
unfoldable pub relink_next : Heap → ℕ → ℕ → Option Heap
relink_next h p q = if p == null then some h else set_next h p q

unfoldable pub relink_prev : Heap → ℕ → ℕ → Option Heap
relink_prev h p q = if p == null then some h else set_prev h p q

-- `sizeof(list_element_t)`
abbrev element_header : ℕ
element_header = 32

-- `alloc_lel_inplace` and `alloc_lel_simple`, which write to what `malloc` returns
unfoldable pub allocate : ℕ → Heap → LinkedList → Option Heap
allocate fresh h l =
    if fresh == null
    then none
    else some (
        write h fresh (
          some (record {
            host = l.self;
            prev = null;
            next = null;
            content = if l.inplace then fresh + element_header else null;
          })))

-- the deallocators are `free`
unfoldable pub deallocate : ℕ → Heap → Option Heap
deallocate p h = do e ← load h p; some (write h p none)

unfoldable pub list_init : ℕ → Bool → ℕ → Option LinkedList
list_init self inplace size =
    if inplace && size == 0
    then none
    else some (record {
      self = self;
      front = null;
      back = null;
      count = 0;
      inplace = inplace;
      element_size = size;
    })

unfoldable pub list_size : LinkedList → ℕ
list_size l = l.count

-- `assert(!el || el->host == l)`
unfoldable pub assert_host : Heap → LinkedList → ℕ → Option (Unit {0})
assert_host h l el =
    if el == null then some tt else (do e ← load h el; if e.host == l.self then some tt else none)

abbrev count_up : LinkedList → LinkedList
count_up l = record l { count = (l.count + 1) % 2 ^ 64 }

unfoldable pub list_prepend : ℕ → Heap → LinkedList → Option (Heap × LinkedList × ℕ)
list_prepend el h l = do
  h ← allocate el h l
  h ← set_prev h el null
  h ← set_next h el l.front
  h ← relink_prev h l.front el
  some (h, count_up (record l { front = el; back = if l.back == null then el else l.back }), el)

unfoldable pub list_append : ℕ → Heap → LinkedList → Option (Heap × LinkedList × ℕ)
list_append el h l = do
  h ← allocate el h l
  h ← set_prev h el l.back
  h ← set_next h el null
  h ← relink_next h l.back el
  some (h, count_up (record l { back = el; front = if l.front == null then el else l.front }), el)

unfoldable pub list_add_after : ℕ → Heap → LinkedList → ℕ → Option (Heap × LinkedList × ℕ)
list_add_after newel h l el = do
  ok ← assert_host h l el
  if el == null then list_prepend newel h l else (do
    h ← allocate newel h l
    h ← set_prev h newel el
    e ← load h el
    h ← set_next h newel e.next
    h ← set_next h el newel
    h ← relink_prev h e.next newel
    some (
      h,
      count_up (record l {
        front = if l.front == null then newel else l.front;
        back = if (l.back == null) || (l.back == el) then newel else l.back;
      }),
      newel,
    ))

unfoldable pub list_add_before : ℕ → Heap → LinkedList → ℕ → Option (Heap × LinkedList × ℕ)
list_add_before newel h l el = do
  ok ← assert_host h l el
  if el == null then list_append newel h l else (do
    h ← allocate newel h l
    h ← set_next h newel el
    e ← load h el
    h ← set_prev h newel e.prev
    h ← set_prev h el newel
    h ← relink_next h e.prev newel
    some (
      h,
      count_up (record l {
        front = if (l.front == null) || (l.front == el) then newel else l.front;
        back = if l.back == null then newel else l.back;
      }),
      newel,
    ))

-- the end of `list_remove_and_advance`, with the `prev` and `next` that it has read
unfoldable pub unlinked : LinkedList → ℕ → ℕ → ℕ → LinkedList
unlinked l el prev next = record l {
  count = l.count - 1;
  front = if el == l.front then next else l.front;
  back = if el == l.back then prev else l.back;
}

-- `count` falls for NULL, too
unfoldable pub list_remove_and_advance : Heap → LinkedList → ℕ → Option (Heap × LinkedList × ℕ)
list_remove_and_advance h l el = do
  ok ← assert_host h l el
  if l.count == 0
      then some (h, l, null)
      else if el == null
      then some (h, unlinked l el null null, null)
      else (do
        e ← load h el
        h ← deallocate el h
        h ← relink_next h e.prev e.next
        h ← relink_prev h e.next e.prev
        some (h, unlinked l el e.prev e.next, e.next))

-- `for (el = l->front; el; el = el->next)` with a bound on its rounds: the element is freed before
-- its `next` is read
unfoldable pub purge_loop : ℕ → Heap → ℕ → Option Heap
purge_loop zero h el = none
purge_loop (suc rounds) h el =
    let rest = (do h ← deallocate el h; e ← load h el; purge_loop rounds h e.next) in
    if el == null then some h else rest

unfoldable pub list_purge : Heap → LinkedList → Option (Heap × LinkedList)
list_purge h l = if l.count == 0 then some (h, record l { front = null; back = null }) else (do
  h ← purge_loop (l.count + 1) h l.front
  some (h, record l { front = null; back = null; count = 0 }))

unfoldable pub list_begin : LinkedList → ℕ
list_begin l = l.front

unfoldable pub list_end : LinkedList → ℕ
list_end l = l.back

unfoldable pub list_next : Heap → LinkedList → ℕ → Option ℕ
list_next h l el = do
  ok ← assert_host h l el
  if el == null then some l.front else (do e ← load h el; some e.next)

unfoldable pub list_prev : Heap → LinkedList → ℕ → Option ℕ
list_prev h l el = do
  ok ← assert_host h l el
  if el == null then some l.back else (do e ← load h el; some e.prev)
