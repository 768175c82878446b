-- ===== src/LinkedList.antt =====
-- list.c and include/list.h: circular doubly linked lists of `struct list_head`. A node is its
-- address; `Links` holds the two pointers of every node, and a function that writes through a
-- pointer returns the new links. `NULL` is address 0.
pub mod Ring
pub mod Ops
pub mod Traverse
pub mod Move
use zeos.Common.{ℕ, zero, suc, ◌-◌, ◌+◌, Bool, true, false, Option, none, some, List, [], ◌∷◌, ◌==◌}
use zeos.Common.{if◌then◌else◌, u32}

abbrev pub Ptr : Type 0
Ptr = ℕ

-- struct list_head { struct list_head *next, *prev; }, for all nodes
pub record Links : Type 0 where
  pub next : Ptr → Ptr
  pub prev : Ptr → Ptr

abbrev update : (Ptr → Ptr) → Ptr → Ptr → Ptr → Ptr
update f p v a = if a == p then v else f a

-- `p->next = v`
abbrev pub set_next : Ptr → Ptr → Links → Links
set_next p v l = record l { next = update l.next p v }

-- `p->prev = v`
abbrev pub set_prev : Ptr → Ptr → Links → Links
set_prev p v l = record l { prev = update l.prev p v }

unfoldable pub init_list_head : Ptr → Links → Links
init_list_head list l = set_prev list list (set_next list list l)

-- __list_add
unfoldable pub list_add_between : (new prev next : Ptr) → Links → Links
list_add_between new prev next l =
    set_next prev new (set_prev new prev (set_next new next (set_prev next new l)))

unfoldable pub list_add : (new head : Ptr) → Links → Links
unfolding list_add_between
list_add new head l = list_add_between new head (l.next head) l

unfoldable pub list_add_tail : (new head : Ptr) → Links → Links
unfolding list_add_between
list_add_tail new head l = list_add_between new (l.prev head) head l

-- __list_del
unfoldable list_del_between : (prev next : Ptr) → Links → Links
list_del_between prev next l = set_next prev next (set_prev next prev l)

unfoldable pub list_del : (entry : Ptr) → Links → Links
unfolding list_del_between
list_del entry l =
    set_prev entry 0 (set_next entry 0 (list_del_between (l.prev entry) (l.next entry) l))

unfoldable pub list_is_last : (list head : Ptr) → Links → Bool
list_is_last list head l = l.next list == head

unfoldable pub list_empty : (head : Ptr) → Links → Bool
list_empty head l = l.next head == head

unfoldable pub list_first : (head : Ptr) → Links → Ptr
list_first head l = l.next head

-- `list_entry(ptr, type, member)`, for a member at `offset`: unsigned arithmetic on 32 bits.
unfoldable pub list_entry : (ptr offset : ℕ) → ℕ
list_entry ptr offset = u32 (ptr + 4294967296 - offset)

-- The loop of `list_for_each` from `pos` on, with the cursors that its body sees; `none` is a loop
-- that does not end in `fuel` rounds.
unfoldable pub list_for_each : (fuel : ℕ) → (pos head : Ptr) → Links → Option (List Ptr)
list_for_each zero pos head l = none
list_for_each (suc fuel) pos head l =
    let rest : Option (List Ptr) = elim (list_for_each fuel (l.next pos) head l) [
      | none ↦ none
      | some ps ↦ some (pos ∷ ps)
    ] in
    if pos == head then some [] else rest

-- `list_for_each_safe` with a body that may change the links: `n` is read before the body runs.
unfoldable pub list_for_each_safe :
    (body : Ptr → Links → Links) (fuel : ℕ) (pos n head : Ptr) → Links → Option Links
list_for_each_safe body zero pos n head l = none
list_for_each_safe body (suc fuel) pos n head l =
    let l' = body pos l in
    let rest = list_for_each_safe body fuel n (l'.next n) head l' in
    if pos == head then some l else rest
