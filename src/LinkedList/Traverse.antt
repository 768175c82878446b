-- ===== src/LinkedList/Traverse.antt =====
-- The traversal macros of list.h, and `list_entry`.
use zeos.Common.{
  ℕ, zero, suc, ◌+◌, ◌<◌, ◌≡◌, refl, sym, ap, ◌∙◌, List, [], ◌∷◌, some, arith, length,
}
use zeos.Common.{==_of_eq, ==_of_ne}
use zeos.LinkedList.{
  Ptr, Links, list_del, list_for_each, list_for_each_safe, list_entry, list_first,
}
use zeos.LinkedList.Ring.{Fresh, Chain, IsList, next-first}
use zeos.LinkedList.Ops.{list_del-IsList}

walk :
    (fuel : ℕ) (l : Links) (p pos head : Ptr) (xs : List Ptr)
    → Chain l p xs head
    → Fresh head xs
    → pos ≡ l.next p
    → length xs < fuel
    → list_for_each fuel pos head l ≡ some xs
unfolding list_for_each
walk zero l p pos head xs c f e h = elim h [ ]
walk (suc fuel) l p pos head [] c f e h = rw (==_of_eq pos head (e ∙ c.0))
walk (suc fuel) l p pos head (x ∷ xs) c f e h =
    let px : pos ≡ x = e ∙ c.0.0 in
    rw
      (
        ==_of_ne pos head (λ eq. f.0 (sym eq ∙ px)),
        walk fuel l x (l.next pos) head xs c.1 f.1 (ap l.next px) (omega arith),
      )
      (ap (λ a. some (a ∷ xs)) px)

-- With more rounds than the list has entries, `list_for_each` visits them in order and ends.
pub list_for_each_lem :
    (fuel : ℕ) (l : Links) (head : Ptr) (xs : List Ptr)
    → IsList l head xs
    → length xs < fuel
    → list_for_each fuel (list_first head l) head l ≡ some xs
unfolding list_first
list_for_each_lem fuel l head xs is h =
    walk fuel l head (l.next head) head xs is.chain is.head_out refl h

drain :
    (fuel : ℕ) (l : Links) (pos n head : Ptr) (xs : List Ptr)
    → IsList l head xs
    → pos ≡ l.next head
    → n ≡ l.next pos
    → length xs < fuel
    → (g : Links) × (list_for_each_safe list_del fuel pos n head l ≡ some g) × IsList g head []
unfolding list_for_each_safe
drain zero l pos n head xs is ep en h = elim h [ ]
drain (suc fuel) l pos n head [] is ep en h = (l, rw (==_of_eq pos head (ep ∙ is.chain.0)), is)
drain (suc fuel) l pos n head (x ∷ xs) is ep en h =
    let px : pos ≡ x = ep ∙ is.chain.0.0 in
    let del = (list_del-IsList l head x [] xs is).0 in
    let step : n ≡ (list_del x l).next head =
      en
      ∙ ap l.next px
      ∙ next-first l x head xs is.chain.1
      ∙ sym (next-first (list_del x l) head head xs del.chain) in
    let rest =
      drain fuel (list_del x l) n ((list_del x l).next n) head xs del step refl (omega arith) in
    (rest.0, rw (px, ==_of_ne x head (λ e. is.head_out.0 (sym e))) rest.1, rest.2)

-- With more rounds than the list has entries, `list_for_each_safe` with `list_del` as its body
-- ends, and leaves the list empty.
pub list_for_each_safe_drains :
    (fuel : ℕ) (l : Links) (head : Ptr) (xs : List Ptr)
    → IsList l head xs
    → length xs < fuel
    → (g : Links) × (list_for_each_safe list_del fuel (l.next head) (l.next (l.next head)) head l
        ≡ some g)
      × IsList g head []
list_for_each_safe_drains fuel l head xs is h =
    drain fuel l (l.next head) (l.next (l.next head)) head xs is refl refl h

-- `list_entry` at a member's address gives back the address of its struct.
list_entry-member : (a offset : ℕ) → a + offset < 4294967296 → list_entry (a + offset) offset ≡ a
unfolding list_entry
list_entry-member a offset h = omega arith
