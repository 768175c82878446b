-- ===== src/LinkedList/Ring.antt =====
-- What a list is in memory: a closed chain of `next` and `prev` pointers through distinct nodes.
use zeos.Common.{◌≡◌, ◌≢◌, List, [], ◌∷◌, ◌++◌, arith}
use zeos.LinkedList.{Ptr, Links, set_next, set_prev}

abbrev pub Fresh : Ptr → List Ptr → Type 0
Fresh a [] = Unit {0}
Fresh a (x ∷ xs) = (a ≢ x) × Fresh a xs

abbrev pub Distinct : List Ptr → Type 0
Distinct [] = Unit {0}
Distinct (x ∷ xs) = Fresh x xs × Distinct xs

abbrev Linked : Links → Ptr → Ptr → Type 0
Linked l p q = (l.next p ≡ q) × (l.prev q ≡ p)

-- From `p` the links lead through `xs` to `q`, and back.
abbrev pub Chain : Links → Ptr → List Ptr → Ptr → Type 0
Chain l p [] q = Linked l p q
Chain l p (x ∷ xs) q = Linked l p x × Chain l x xs q

pub record IsList (l : Links) (head : Ptr) (xs : List Ptr) : Type 0 where
  pub chain : Chain l head xs head
  pub head_out : Fresh head xs
  pub distinct : Distinct xs

abbrev pub last : Ptr → List Ptr → Ptr
last p [] = p
last p (x ∷ xs) = last x xs

abbrev pub first : List Ptr → Ptr → Ptr
first [] q = q
first (x ∷ xs) q = x

pub prev-last : (l : Links) (p q : Ptr) (xs : List Ptr) → Chain l p xs q → l.prev q ≡ last p xs
prev-last l p q [] c = c.1
prev-last l p q (x ∷ xs) c = prev-last l x q xs c.1

pub next-first : (l : Links) (p q : Ptr) (xs : List Ptr) → Chain l p xs q → l.next p ≡ first xs q
next-first l p q [] c = c.0
next-first l p q (x ∷ xs) c = c.0.0

pub last-ne : (a p : Ptr) (xs : List Ptr) → a ≢ p → Fresh a xs → a ≢ last p xs
last-ne a p [] ne f = ne
last-ne a p (x ∷ xs) ne f = last-ne a x xs f.0 f.1

pub first-ne : (a q : Ptr) (xs : List Ptr) → a ≢ q → Fresh a xs → a ≢ first xs q
first-ne a q [] ne f = ne
first-ne a q (x ∷ xs) ne f = f.0

pub Fresh-append : (a : Ptr) (xs ys : List Ptr) → Fresh a xs → Fresh a ys → Fresh a (xs ++ ys)
Fresh-append a [] ys f g = g
Fresh-append a (x ∷ xs) ys f g = (f.0, Fresh-append a xs ys f.1 g)

pub Fresh-split : (a : Ptr) (xs ys : List Ptr) → Fresh a (xs ++ ys) → Fresh a xs × Fresh a ys
Fresh-split a [] ys f = (tt, f)
Fresh-split a (x ∷ xs) ys f = let r = Fresh-split a xs ys f.1 in ((f.0, r.0), r.1)

pub Chain-split :
    (l : Links) (p e q : Ptr) (xs ys : List Ptr)
    → Chain l p (xs ++ e ∷ ys) q
    → Chain l p xs e × Chain l e ys q
Chain-split l p e q [] ys c = c
Chain-split l p e q (x ∷ xs) ys c = let r = Chain-split l x e q xs ys c.1 in ((c.0, r.0), r.1)

-- A chain survives a write to a pointer that it is not made of.
pub Chain-set_next :
    (l : Links) (a v p q : Ptr) (xs : List Ptr)
    → a ≢ p
    → Fresh a xs
    → Chain l p xs q
    → Chain (set_next a v l) p xs q
Chain-set_next l a v p q [] ne f c = ground arith
Chain-set_next l a v p q (x ∷ xs) ne f c = (ground arith, Chain-set_next l a v x q xs f.0 f.1 c.1)

pub Chain-set_prev :
    (l : Links) (a v p q : Ptr) (xs : List Ptr)
    → a ≢ q
    → Fresh a xs
    → Chain l p xs q
    → Chain (set_prev a v l) p xs q
Chain-set_prev l a v p q [] ne f c = ground arith
Chain-set_prev l a v p q (x ∷ xs) ne f c = (ground arith, Chain-set_prev l a v x q xs ne f.1 c.1)
