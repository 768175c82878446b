-- ===== src/LinkedList/Move.antt =====
-- Two lists over the same nodes' links, as the queues of a scheduler are.
use zeos.Common.{sym, subst, List, [], ◌∷◌, ◌++◌}
use zeos.LinkedList.{Ptr, Links, list_add_tail, list_del}
use zeos.LinkedList.Ring.{
  Fresh, Distinct, Chain, IsList, last, first, prev-last, next-first, Fresh-split, Chain-split,
  Chain-set_next, Chain-set_prev,
}
use zeos.LinkedList.Ops.{list_add_tail-IsList, list_del-IsList}

-- No node of the one list is a node of the other.
abbrev pub Apart : List Ptr → List Ptr → Type 0
Apart [] ys = Unit {0}
Apart (x ∷ xs) ys = Fresh x ys × Apart xs ys

Apart-nil : (xs : List Ptr) → Apart xs []
Apart-nil [] = tt
Apart-nil (x ∷ xs) = (tt, Apart-nil xs)

Apart-cons : (y : Ptr) (xs ys : List Ptr) → Fresh y xs → Apart xs ys → Apart xs (y ∷ ys)
Apart-cons y [] ys f h = tt
Apart-cons y (x ∷ xs) ys f h = (((λ e. f.0 (sym e)), h.0), Apart-cons y xs ys f.1 h.1)

Apart-sym : (xs ys : List Ptr) → Apart xs ys → Apart ys xs
Apart-sym [] ys h = Apart-nil ys
Apart-sym (x ∷ xs) ys h = Apart-cons x ys xs h.0 (Apart-sym xs ys h.1)

Apart-split : (xs ys zs : List Ptr) → Apart (xs ++ ys) zs → Apart xs zs × Apart ys zs
Apart-split [] ys zs h = (tt, h)
Apart-split (x ∷ xs) ys zs h = let r = Apart-split xs ys zs h.1 in ((h.0, r.0), r.1)

Apart-append : (xs ys zs : List Ptr) → Apart xs zs → Apart ys zs → Apart (xs ++ ys) zs
Apart-append [] ys zs h k = k
Apart-append (x ∷ xs) ys zs h k = (h.0, Apart-append xs ys zs h.1 k)

last-Fresh : (p : Ptr) (xs zs : List Ptr) → Apart (p ∷ xs) zs → Fresh (last p xs) zs
last-Fresh p [] zs h = h.0
last-Fresh p (x ∷ xs) zs h = last-Fresh x xs zs h.1

first-Fresh : (q : Ptr) (xs zs : List Ptr) → Fresh q zs → Apart xs zs → Fresh (first xs q) zs
first-Fresh q [] zs f h = f
first-Fresh q (x ∷ xs) zs f h = h.0

prev-Fresh :
    (l : Links) (p q : Ptr) (xs zs : List Ptr)
    → Chain l p xs q
    → Apart (p ∷ xs) zs
    → Fresh (l.prev q) zs
prev-Fresh l p q xs zs c h =
    subst (λ a. Fresh a zs) (sym (prev-last l p q xs c)) (last-Fresh p xs zs h)

next-Fresh :
    (l : Links) (p q : Ptr) (xs zs : List Ptr)
    → Chain l p xs q
    → Fresh q zs
    → Apart xs zs
    → Fresh (l.next p) zs
next-Fresh l p q xs zs c f h =
    subst (λ a. Fresh a zs) (sym (next-first l p q xs c)) (first-Fresh q xs zs f h)

middle-Fresh : (e : Ptr) (xs ys : List Ptr) → Distinct (xs ++ e ∷ ys) → Fresh e (xs ++ ys)
middle-Fresh e [] ys d = d.0
middle-Fresh e (x ∷ xs) ys d =
    ((λ h. (Fresh-split x xs (e ∷ ys) d.0).1.0 (sym h)), middle-Fresh e xs ys d.1)

-- `list_del` on one list leaves a list that shares no node with it.
del-other :
    (l : Links) (e g : Ptr) (zs : List Ptr)
    → IsList l g zs
    → Fresh e (g ∷ zs)
    → Fresh (l.prev e) (g ∷ zs)
    → Fresh (l.next e) (g ∷ zs)
    → IsList (list_del e l) g zs
unfolding list_del
del-other l e g zs is fe fp fs = record {
  chain = Chain-set_prev _ e 0 g g zs fe.0 fe.1 (
      Chain-set_next _ e 0 g g zs fe.0 fe.1 (
        Chain-set_next _ (l.prev e) (l.next e) g g zs fp.0 fp.1
          (Chain-set_prev l (l.next e) (l.prev e) g g zs fs.0 fs.1 is.chain)));
  head_out = is.head_out;
  distinct = is.distinct;
}

add_tail-other :
    (l : Links) (n h g : Ptr) (zs : List Ptr)
    → IsList l g zs
    → Fresh n (g ∷ zs)
    → Fresh h (g ∷ zs)
    → Fresh (l.prev h) (g ∷ zs)
    → IsList (list_add_tail n h l) g zs
unfolding list_add_tail
add_tail-other l n h g zs is fn fh fp = record {
  chain = Chain-set_next _ (l.prev h) n g g zs fp.0 fp.1 (
      Chain-set_prev _ n (l.prev h) g g zs fn.0 fn.1
        (Chain-set_next _ n h g g zs fn.0 fn.1 (Chain-set_prev l h n g g zs fh.0 fh.1 is.chain)));
  head_out = is.head_out;
  distinct = is.distinct;
}

module _ (l : Links) (h g e : Ptr) (xs ys zs : List Ptr) (from : IsList l h (xs ++ e ∷ ys))
    (to : IsList l g zs) (apart : Apart (h ∷ xs ++ e ∷ ys) (g ∷ zs)) where
  parts : Apart xs (g ∷ zs) × Apart (e ∷ ys) (g ∷ zs)
  parts = Apart-split xs (e ∷ ys) (g ∷ zs) apart.1

  links : Chain l h xs e × Chain l e ys h
  links = Chain-split l h e h xs ys from.chain

  deleted : IsList (list_del e l) g zs
  deleted =
      del-other l e g zs to parts.1.0 (prev-Fresh l h e xs (g ∷ zs) links.0 (apart.0, parts.0))
        (next-Fresh l e h ys (g ∷ zs) links.1 apart.0 parts.1.1)

  e_out : Fresh e (h ∷ xs ++ ys)
  e_out = (
    (λ eq. (Fresh-split h xs (e ∷ ys) from.head_out).1.0 (sym eq)),
    middle-Fresh e xs ys from.distinct,
  )

  -- Deleting an entry from one list and adding it at the tail of another that shares no node with
  -- the first moves that entry: both stay well-formed lists, and change by that entry only.
  pub list_del-list_add_tail :
      IsList (list_add_tail e g (list_del e l)) h (xs ++ ys)
      × IsList (list_add_tail e g (list_del e l)) g (zs ++ e ∷ [])
  list_del-list_add_tail =
      let del = list_del-IsList l h e xs ys from in
      let other : Apart (g ∷ zs) (h ∷ xs ++ ys) =
        Apart-sym (h ∷ xs ++ ys) (g ∷ zs)
          (apart.0, Apart-append xs ys (g ∷ zs) parts.0 parts.1.1) in
      (
        add_tail-other (list_del e l) e g h (xs ++ ys) del.0 e_out other.0
            (prev-Fresh (list_del e l) g g zs (h ∷ xs ++ ys) deleted.chain other),
        list_add_tail-IsList (list_del e l) e g zs deleted parts.1.0,
      )
