-- ===== src/Dlist/Tests.antt =====
-- The list at address 1 with the node 5, and the theorems about lists applied to it.
use cn.Common.{◌≡◌, some, [], ◌∷◌, refl, arith, update}
use cn.Dlist.{Heap, dlnode_remove, dlist_first}
use cn.Dlist.Chain.{IsList, Fresh}
use cn.Dlist.Queue.{dlist_first-dlnode_remove}

abbrev one_node : Heap
one_node = record {
  prev = update (update (λ _. 0) 1 5) 5 1;
  next = update (update (λ _. 0) 1 5) 5 1;
  owner = update (update (λ _. 0) 1 1) 5 1;
}

one_node-IsList : IsList one_node 1 (5 ∷ [])
one_node-IsList = record {
  non_null = (λ e. absurd (omega (arith, e)), (λ e. absurd (omega (arith, e)), tt));
  distinct = ((λ e. absurd (omega (arith, e)), tt), (tt, tt));
  chain = (refl, refl, tt);
  next_last = refl;
  prev_header = refl;
}

seven-Fresh : Fresh 7 (1 ∷ 5 ∷ [])
seven-Fresh = (λ e. absurd (omega (arith, e)), (λ e. absurd (omega (arith, e)), tt))

dlist_first-dlnode_remove_example :
    (h' : Heap) × (dlist_first one_node 1 ≡ some 5)
    × (dlnode_remove one_node 5 ≡ some h')
    × IsList h' 1 []
dlist_first-dlnode_remove_example = dlist_first-dlnode_remove one_node 1 5 [] one_node-IsList
