-- ===== src/KernelList/Sorting.antt =====
-- src/lib/kernel/list.c: the functions that compare elements.
use cs.Common.{
  ℕ, zero, suc, Bool, true, false, not, ◌&&◌, Option, none, some, ltb, ◌==◌, if◌then◌else◌, ◌>>=◌,
  ◌>>◌, assert,
}
use cs.KernelList.{
  Links, tail_of, is_null, list_begin, list_next, list_prev, list_insert, list_splice, list_remove,
  list_push_back, list_empty,
}

module _ (less : ℕ → ℕ → Bool) where
  -- `less (a, list_prev (a), aux)`.
  unfoldable pub less_than_prev : ℕ → Links → Option Bool
  less_than_prev a m = do b ← list_prev a m; some (less a b)

  unfoldable pub sorted_loop : ℕ → ℕ → ℕ → Links → Option Bool
  sorted_loop zero a b m = none
  sorted_loop (suc fuel) a b m = list_next a m >>= λ a.
      let rest = less_than_prev a m >>= λ down. elim down [
        | true ↦ some false
        | false ↦ sorted_loop fuel a b m
      ] in
      if a == b then some true else rest

  unfoldable pub is_sorted : ℕ → ℕ → ℕ → Links → Option Bool
  is_sorted fuel a b m = if a == b then some true else sorted_loop fuel a b m

  unfoldable pub run_loop : ℕ → ℕ → ℕ → Links → Option ℕ
  run_loop zero a b m = none
  run_loop (suc fuel) a b m = list_next a m >>= λ a.
      let rest =
        less_than_prev a m >>= λ down. elim down [ true ↦ some a | false ↦ run_loop fuel a b m ] in
      if a == b then some a else rest

  unfoldable pub find_end_of_run : ℕ → ℕ → ℕ → Links → Option ℕ
  find_end_of_run fuel a b m = do
    assert (not (is_null a))
    assert (not (is_null b))
    assert (not (a == b))
    run_loop fuel a b m

  -- The element before the new `a1b0` goes before `a0`.
  unfoldable pub merge_step : ℕ → ℕ → Links → Option (ℕ × Links)
  merge_step a0 a1b0 m = do
    a1b0 ← list_next a1b0 m
    first ← list_prev a1b0 m
    m ← list_splice a0 first a1b0 m
    some (a1b0, m)

  unfoldable pub merge_loop : ℕ → ℕ → ℕ → ℕ → Links → Option Links
  merge_loop zero a0 a1b0 b1 m = none
  merge_loop (suc fuel) a0 a1b0 b1 m =
      let forward = list_next a0 m >>= λ a0. merge_loop fuel a0 a1b0 b1 m in
      let moved = merge_step a0 a1b0 m >>= λ r. merge_loop fuel a0 (r.0) b1 (r.1) in
      if not (a0 == a1b0) && not (a1b0 == b1)
      then (if not (less a1b0 a0) then forward else moved)
      else some m

  unfoldable pub inplace_merge : ℕ → ℕ → ℕ → ℕ → Links → Option Links
  inplace_merge fuel a0 a1b0 b1 m = do
    assert (not (is_null a0))
    assert (not (is_null a1b0))
    assert (not (is_null b1))
    first ← is_sorted fuel a0 a1b0 m
    assert first
    second ← is_sorted fuel a1b0 b1 m
    assert second
    merge_loop fuel a0 a1b0 b1 m

  -- One pass: from `a0` on, each two neighbouring runs are merged. It counts the runs that it leaves.
  unfoldable pub pass_loop : ℕ → ℕ → ℕ → ℕ → Links → Option (ℕ × Links)
  pass_loop zero end a0 cnt m = none
  pass_loop (suc fuel) end a0 cnt m =
      let merged = find_end_of_run (suc fuel) a0 end m >>= λ a1b0.
      let more = find_end_of_run (suc fuel) a1b0 end m >>= λ b1.
      inplace_merge (suc fuel) a0 a1b0 b1 m >>= λ m. pass_loop fuel end b1 (suc cnt) m in
      if a1b0 == end then some (suc cnt, m) else more in
      if a0 == end then some (cnt, m) else merged

  unfoldable pub sort_loop : ℕ → ℕ → ℕ → Links → Option Links
  sort_loop zero fuel l m = none
  sort_loop (suc passes) fuel l m = list_begin l m >>= λ a0.
      pass_loop fuel (tail_of l) a0 0 m >>= λ r.
      let again = sort_loop passes fuel l (r.1) in if ltb 1 (r.0) then again else some (r.1)

  unfoldable pub list_sort : ℕ → ℕ → Links → Option Links
  list_sort fuel l m = do
    assert (not (is_null l))
    m ← sort_loop fuel fuel l m
    first ← list_begin l m
    sorted ← is_sorted fuel first (tail_of l) m
    assert sorted
    some m

  -- The first element that `elem` is less than, or the tail.
  unfoldable pub find_place : ℕ → ℕ → ℕ → ℕ → Links → Option ℕ
  find_place zero end elem e m = none
  find_place (suc fuel) end elem e m =
      let rest = list_next e m >>= λ e. find_place fuel end elem e m in
      if e == end then some e else if less elem e then some e else rest

  unfoldable pub list_insert_ordered : ℕ → ℕ → ℕ → Links → Option Links
  list_insert_ordered fuel l elem m = do
    assert (not (is_null l))
    assert (not (is_null elem))
    e ← list_begin l m
    e ← find_place fuel (tail_of l) elem e m
    list_insert e elem m

  -- A duplicate leaves its list and is appended to `duplicates`, unless that is null.
  unfoldable pub drop_duplicate : ℕ → ℕ → Links → Option Links
  drop_duplicate duplicates next m = do
    removed ← list_remove next m
    if is_null duplicates then some (removed.1) else list_push_back duplicates next (removed.1)

  unfoldable pub unique_loop : ℕ → ℕ → ℕ → ℕ → Links → Option Links
  unique_loop zero end duplicates elem m = none
  unique_loop (suc fuel) end duplicates elem m = list_next elem m >>= λ next.
      let dropped =
        drop_duplicate duplicates next m >>= λ m. unique_loop fuel end duplicates elem m in
      let kept = unique_loop fuel end duplicates next m in
      if next == end
      then some m
      else if not (less elem next) && not (less next elem)
      then dropped
      else kept

  unfoldable pub list_unique : ℕ → ℕ → ℕ → Links → Option Links
  list_unique fuel l duplicates m = do
    assert (not (is_null l))
    empty ← list_empty l m
    elem ← list_begin l m
    if empty then some m else unique_loop fuel (tail_of l) duplicates elem m

  -- The loops of `list_max` and `list_min`: `best` is the best element so far.
  unfoldable pub best_loop : (ℕ → ℕ → Bool) → ℕ → ℕ → ℕ → ℕ → Links → Option ℕ
  best_loop beats zero end best e m = none
  best_loop beats (suc fuel) end best e m =
      let rest = list_next e m >>= λ next.
      best_loop beats fuel end (if beats e best then e else best) next m in
      if e == end then some best else rest

  unfoldable pub best_of : (ℕ → ℕ → Bool) → ℕ → ℕ → Links → Option ℕ
  best_of beats fuel l m = list_begin l m >>= λ first.
      let rest = list_next first m >>= λ e. best_loop beats fuel (tail_of l) first e m in
      if first == tail_of l then some first else rest

  unfoldable pub list_max : ℕ → ℕ → Links → Option ℕ
  list_max fuel l m = best_of (λ e max. less max e) fuel l m

  unfoldable pub list_min : ℕ → ℕ → Links → Option ℕ
  list_min fuel l m = best_of (λ e min. less e min) fuel l m
