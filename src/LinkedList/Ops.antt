-- ===== src/LinkedList/Ops.antt =====
-- Initialising, inserting and deleting keep the list well formed, and change it as intended.
use zeos.Common.{
  ◌≡◌, refl, sym, subst, ◌∙◌, ◌==◌, ◌≢◌, ◌↔◌, List, [], ◌∷◌, ◌++◌, true, arith, ==_of_eq, ==_iff,
}
use zeos.LinkedList.{Ptr, Links, set_next, set_prev, init_list_head, list_add_between, list_add}
use zeos.LinkedList.{list_add_tail, list_del, list_is_last, list_empty}
use zeos.LinkedList.Ring.{
  Fresh, Distinct, Chain, IsList, last, prev-last, next-first, last-ne, first-ne, Fresh-append,
  Fresh-split, Chain-split, Chain-set_next, Chain-set_prev,
}

-- `INIT_LIST_HEAD` makes the head an empty list, whatever its pointers held.
init_list_head-IsList : (l : Links) (head : Ptr) → IsList (init_list_head head l) head []
unfolding init_list_head
init_list_head-IsList l head = record { chain = ground arith; head_out = tt; distinct = tt }

add_front-Chain :
    (l : Links) (n p x q : Ptr) (xs : List Ptr)
    → Chain l x xs q
    → n ≢ x
    → n ≢ q
    → Fresh n xs
    → p ≢ x
    → Fresh p xs
    → x ≢ q
    → Fresh x xs
    → n ≢ p
    → Chain (list_add_between n p x l) p (n ∷ x ∷ xs) q
unfolding list_add_between
add_front-Chain l n p x q xs c nx nq nf px pf xq xf np = (
  ground arith,
  (
    ground arith,
    Chain-set_next _ p n x q xs px pf (
        Chain-set_prev _ n p x q xs nq nf
          (Chain-set_next _ n x x q xs nx nf (Chain-set_prev l x n x q xs xq xf c))),
  ),
)

-- `list_add` puts a node that is not in the list in front of it.
list_add-IsList :
    (l : Links) (new head : Ptr) (xs : List Ptr)
    → IsList l head xs
    → Fresh new (head ∷ xs)
    → IsList (list_add new head l) head (new ∷ xs)
unfolding list_add
list_add-IsList l new head [] is f = record {
  chain = let e = is.chain in ground arith;
  head_out = (λ e. f.0 (sym e), tt);
  distinct = (tt, tt);
}
list_add-IsList l new head (x ∷ xs) is f = record {
  chain =
      subst (λ s. Chain (list_add_between new head s l) head (new ∷ x ∷ xs) head) (sym is.chain.0.0)
        (add_front-Chain l new head x head xs is.chain.1 f.1.0 f.0 f.1.1 is.head_out.0 is.head_out.1
          (λ e. is.head_out.0 (sym e)) is.distinct.0 f.0);
  head_out = ((λ e. f.0 (sym e)), is.head_out);
  distinct = (f.1, is.distinct);
}

add_back-Chain :
    (l : Links) (n a q : Ptr) (xs : List Ptr)
    → Chain l a xs q
    → Fresh a xs
    → Distinct xs
    → Fresh q xs
    → Fresh n (a ∷ xs)
    → n ≢ q
    → Chain (list_add_between n (last a xs) q l) a (xs ++ n ∷ []) q
unfolding list_add_between
add_back-Chain l n a q [] c af d qf nf nq = ground arith
add_back-Chain l n a q (x ∷ xs) c af d qf nf nq =
    (ground (arith, last-ne a x xs af.0 af.1), add_back-Chain l n x q xs c.1 d.0 d.1 qf.1 nf.1 nq)

Fresh-swap : (a : Ptr) (x : Ptr) → a ≢ x → Fresh x (a ∷ [])
Fresh-swap a x ne = ((λ e. ne (sym e)), tt)

Distinct-snoc : (xs : List Ptr) (n : Ptr) → Distinct xs → Fresh n xs → Distinct (xs ++ n ∷ [])
Distinct-snoc [] n d f = (tt, tt)
Distinct-snoc (x ∷ xs) n d f =
    (Fresh-append x xs (n ∷ []) d.0 (Fresh-swap n x f.0), Distinct-snoc xs n d.1 f.1)

-- `list_add_tail` puts a node that is not in the list behind it.
pub list_add_tail-IsList :
    (l : Links) (new head : Ptr) (xs : List Ptr)
    → IsList l head xs
    → Fresh new (head ∷ xs)
    → IsList (list_add_tail new head l) head (xs ++ new ∷ [])
unfolding list_add_tail
list_add_tail-IsList l new head xs is f = record {
  chain =
      rw (prev-last l head head xs is.chain)
        (add_back-Chain l new head head xs is.chain is.head_out is.distinct is.head_out f f.0);
  head_out = Fresh-append head xs (new ∷ []) is.head_out (Fresh-swap new head f.0);
  distinct = Distinct-snoc xs new is.distinct f.1;
}

prev-ne :
    (l : Links) (a x e q : Ptr) (zs ys : List Ptr)
    → Chain l x (zs ++ e ∷ ys) q
    → a ≢ x
    → Fresh a (zs ++ e ∷ ys)
    → a ≢ l.prev e
prev-ne l a x e q zs ys c ne f =
    rw (prev-last l x e zs (Chain-split l x e q zs ys c).0)
      (last-ne a x zs ne (Fresh-split a zs (e ∷ ys) f).0)

next-ne :
    (l : Links) (a x e q : Ptr) (zs ys : List Ptr)
    → Chain l x (zs ++ e ∷ ys) q
    → a ≢ q
    → Fresh a (zs ++ e ∷ ys)
    → a ≢ l.next e
next-ne l a x e q zs ys c ne f =
    rw (next-first l e q ys (Chain-split l x e q zs ys c).1)
      (first-ne a q ys ne (Fresh-split a zs (e ∷ ys) f).1.1)

-- The links that `list_del` leaves, with the neighbours of the entry as variables.
abbrev unlinked : (e p s : Ptr) → Links → Links
unlinked e p s l = set_prev e 0 (set_next e 0 (set_next p s (set_prev s p l)))

del-Chain :
    (l : Links) (a e q p s : Ptr) (xs ys : List Ptr)
    → Chain l a (xs ++ e ∷ ys) q
    → l.prev e ≡ p
    → l.next e ≡ s
    → Fresh a (xs ++ e ∷ ys)
    → Distinct (xs ++ e ∷ ys)
    → Fresh q (xs ++ e ∷ ys)
    → Chain (unlinked e p s l) a (xs ++ ys) q
del-Chain l a e q p s [] [] c ep es af d qf = ground arith
del-Chain l a e q p s [] (y ∷ ys) c ep es af d qf =
    let py : p ≡ a = sym ep ∙ c.0.1 in
    let sy : s ≡ y = sym es ∙ c.1.0.0 in
    (
      ground arith,
      Chain-set_prev _ e 0 y q ys (λ h. qf.0 (sym h)) d.0.1
          (Chain-set_next _ e 0 y q ys d.0.0 d.0.1 (
            Chain-set_next _ p s y q ys (rw py af.1.0) (rw py af.1.1)
              (Chain-set_prev l s p y q ys (rw sy (λ h. qf.1.0 (sym h))) (rw sy d.1.0) c.1.1))),
    )
del-Chain l a e q p s (x ∷ xs) ys c ep es af d qf = (
  ground (
    arith,
    prev-ne l a x e q xs ys c.1 af.0 af.1,
    next-ne l x x e q xs ys c.1 (λ h. qf.0 (sym h)) d.0,
    Fresh-split x xs (e ∷ ys) d.0,
    Fresh-split a xs (e ∷ ys) af.1,
  ),
  del-Chain l x e q p s xs ys c.1 ep es d.0 d.1 qf.1,
)

Fresh-drop : (a e : Ptr) (xs ys : List Ptr) → Fresh a (xs ++ e ∷ ys) → Fresh a (xs ++ ys)
Fresh-drop a e [] ys f = f.1
Fresh-drop a e (x ∷ xs) ys f = (f.0, Fresh-drop a e xs ys f.1)

Distinct-drop : (e : Ptr) (xs ys : List Ptr) → Distinct (xs ++ e ∷ ys) → Distinct (xs ++ ys)
Distinct-drop e [] ys d = d.1
Distinct-drop e (x ∷ xs) ys d = (Fresh-drop x e xs ys d.0, Distinct-drop e xs ys d.1)

-- `list_del` takes an entry out of the list, wherever it stands, and clears its pointers.
pub list_del-IsList :
    (l : Links) (head e : Ptr) (xs ys : List Ptr)
    → IsList l head (xs ++ e ∷ ys)
    → IsList (list_del e l) head (xs ++ ys)
      × ((list_del e l).next e ≡ 0)
      × ((list_del e l).prev e ≡ 0)
unfolding list_del
list_del-IsList l head e xs ys is = (
  record {
    chain =
        del-Chain l head e head (l.prev e) (l.next e) xs ys is.chain refl refl is.head_out
          is.distinct is.head_out;
    head_out = Fresh-drop head e xs ys is.head_out;
    distinct = Distinct-drop e xs ys is.distinct;
  },
  ground arith,
  ground arith,
)

-- `list_empty` tells the empty list.
list_empty_iff :
    (l : Links) (head : Ptr) (xs : List Ptr)
    → IsList l head xs
    → (list_empty head l ≡ true) ↔ (xs ≡ [])
unfolding list_empty
list_empty_iff l head [] is = ((λ _. refl), λ _. ==_of_eq _ _ is.chain.0)
list_empty_iff l head (x ∷ xs) is =
    ((λ h. absurd (is.head_out.0 (sym ((==_iff _ _).0 h) ∙ is.chain.0.0))), λ h. cc)

-- `list_is_last` tells the last entry.
list_is_last_iff :
    (l : Links) (head e : Ptr) (xs ys : List Ptr)
    → IsList l head (xs ++ e ∷ ys)
    → (list_is_last e head l ≡ true) ↔ (ys ≡ [])
unfolding list_is_last
list_is_last_iff l head e xs ys is =
    let c = (Chain-split l head e head xs ys is.chain).1 in
    go ys c (Fresh-split head xs (e ∷ ys) is.head_out).1.1
  where
    go :
        (ys : List Ptr)
        → Chain l e ys head
        → Fresh head ys
        → ((l.next e == head) ≡ true) ↔ (ys ≡ [])
    go [] c f = ((λ _. refl), λ _. ==_of_eq _ _ c.0)
    go (y ∷ ys) c f = ((λ h. absurd (f.0 (sym ((==_iff _ _).0 h) ∙ c.0.0))), λ h. cc)
