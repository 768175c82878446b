-- ===== src/Tests/Rings.antt =====
-- Runs on two queues with heads 1000 and 2000: the first holds 10, 20, 30, the second 40.
use zeos.Common.{◌≡◌, ◌==◌, if◌then◌else◌, refl, arith, some, [], ◌∷◌}
use zeos.LinkedList.{Links, list_add_tail, list_del, list_first, list_for_each, list_for_each_safe}
use zeos.LinkedList.Ring.{Fresh, IsList}
use zeos.LinkedList.Traverse.{list_for_each_lem, list_for_each_safe_drains}
use zeos.LinkedList.Move.{Apart, list_del-list_add_tail}

abbrev links : Links
links = record {
  next = λ p.
      if p == 10
      then 20
      else if p == 20
      then 30
      else if p == 30
      then 1000
      else if p == 40
      then 2000
      else if p == 1000
      then 10
      else if p == 2000
      then 40
      else 0;
  prev = λ p.
      if p == 10
      then 1000
      else if p == 20
      then 10
      else if p == 30
      then 20
      else if p == 40
      then 2000
      else if p == 1000
      then 30
      else if p == 2000
      then 40
      else 0;
}

links-IsList : IsList links 1000 (10 ∷ 20 ∷ 30 ∷ [])
links-IsList = record {
  chain = ((refl, refl), ((refl, refl), ((refl, refl), (refl, refl))));
  head_out = (ground arith, (ground arith, (ground arith, tt)));
  distinct = ((ground arith, (ground arith, tt)), ((ground arith, tt), (tt, tt)));
}

other-IsList : IsList links 2000 (40 ∷ [])
other-IsList = record {
  chain = ((refl, refl), (refl, refl));
  head_out = (ground arith, tt);
  distinct = (tt, tt);
}

queues-Apart : Apart (1000 ∷ 10 ∷ 20 ∷ 30 ∷ []) (2000 ∷ 40 ∷ [])
queues-Apart = (
  (ground arith, (ground arith, tt)),
  (
    (ground arith, (ground arith, tt)),
    ((ground arith, (ground arith, tt)), ((ground arith, (ground arith, tt)), tt)),
  ),
)

new-Fresh : Fresh 50 (1000 ∷ 10 ∷ 20 ∷ 30 ∷ [])
new-Fresh = (ground arith, (ground arith, (ground arith, (ground arith, tt))))

list_del-list_add_tail_example :
    IsList (list_add_tail 20 2000 (list_del 20 links)) 1000 (10 ∷ 30 ∷ [])
    × IsList (list_add_tail 20 2000 (list_del 20 links)) 2000 (40 ∷ 20 ∷ [])
list_del-list_add_tail_example =
    list_del-list_add_tail links 1000 2000 20 (10 ∷ []) (30 ∷ []) (40 ∷ []) links-IsList
      other-IsList queues-Apart

list_for_each_lem_example :
    list_for_each 4 (list_first 1000 links) 1000 links ≡ some (10 ∷ 20 ∷ 30 ∷ [])
list_for_each_lem_example =
    list_for_each_lem 4 links 1000 (10 ∷ 20 ∷ 30 ∷ []) links-IsList (omega arith)

list_for_each_safe_drains_example :
    (g : Links) × (list_for_each_safe list_del 4
        (links.next 1000)
        (links.next (links.next 1000))
        1000
        links
      ≡ some g)
    × IsList g 1000 []
list_for_each_safe_drains_example =
    list_for_each_safe_drains 4 links 1000 (10 ∷ 20 ∷ 30 ∷ []) links-IsList (omega arith)
