-- ===== src/Tests/KernelLists.antt =====
-- The theorems about src/lib/kernel/list.c at a list of two elements.
use cs.Common.{◌≡◌, refl, some, [], ◌∷◌, arith, ◌==◌, ltb, if◌then◌else◌}
use cs.KernelList.{Links, list_insert, list_remove}
use cs.KernelList.Editing.{IsList, SameOutside, nodes, list_insert-IsList, list_remove-IsList}
use cs.KernelList.Sorting.{list_insert_ordered}
use cs.KernelList.Walking.{insert_ordered, list_insert_ordered-insert_ordered}

-- The list at 10, with its tail at 18 and the elements 30 and 40.
abbrev links : Links
links = record {
  next = λ a. if a == 10 then 30 else if a == 30 then 40 else if a == 40 then 18 else 0;
  prev = λ a. if a == 30 then 10 else if a == 40 then 30 else if a == 18 then 40 else 0;
}

links-IsList : IsList links 10 (30 ∷ (40 ∷ []))
links-IsList = record {
  chain = (refl, refl, (refl, refl, (refl, refl, tt)));
  before_head = refl;
  after_tail = refl;
  exist = refl;
  distinct = (refl, (refl, (refl, (refl, tt))));
}

list_insert-IsList_example :
    (m' : Links) × (list_insert 40 35 links ≡ some m')
    × IsList m' 10 (30 ∷ (35 ∷ (40 ∷ [])))
    × SameOutside (35 ∷ nodes 10 (30 ∷ (40 ∷ []))) links m'
list_insert-IsList_example = list_insert-IsList links 10 35 (30 ∷ []) (40 ∷ []) links-IsList refl

list_remove-IsList_example :
    (m' : Links) × (list_remove 30 links ≡ some (40, m'))
    × IsList m' 10 (40 ∷ [])
    × SameOutside (nodes 10 (30 ∷ (40 ∷ []))) links m'
list_remove-IsList_example = list_remove-IsList links 10 30 [] (40 ∷ []) links-IsList

list_insert_ordered-insert_ordered_example :
    (m' : Links) × (list_insert_ordered ltb 3 10 35 links ≡ some m')
    × IsList m' 10 (insert_ordered ltb 35 (30 ∷ (40 ∷ [])))
    × SameOutside (35 ∷ nodes 10 (30 ∷ (40 ∷ []))) links m'
list_insert_ordered-insert_ordered_example =
    list_insert_ordered-insert_ordered ltb links 10 35 3 (30 ∷ (40 ∷ [])) links-IsList refl
      (omega arith)
