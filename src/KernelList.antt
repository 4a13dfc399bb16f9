-- ===== src/KernelList.antt =====
-- src/lib/kernel/list.c: doubly linked lists with a head and a tail element.
-- Elements lie at addresses; the head of the list at `l` is at `l` and its tail at `l + 8`. `none` is
-- a failed `ASSERT`, or a loop that goes on past its fuel. The callback `less`, with its auxiliary
-- data, is a parameter.
pub mod Sorting
pub mod Chain
pub mod Editing
pub mod Walking
use cs.Common.{
  ℕ, zero, suc, ◌+◌, Bool, true, false, not, ◌&&◌, ◌||◌, Option, none, some, ltb, ◌==◌,
  if◌then◌else◌, ◌>>=◌, ◌>>◌, assert, update, null,
}

-- The `next` and `prev` members of the elements.
pub record Links : Type 0 where
  pub next : ℕ → ℕ
  pub prev : ℕ → ℕ

abbrev pub set_next : ℕ → ℕ → Links → Links
set_next a v m = record m { next = update m.next a v }

abbrev pub set_prev : ℕ → ℕ → Links → Links
set_prev a v m = record m { prev = update m.prev a v }

abbrev pub tail_of : ℕ → ℕ
tail_of l = l + 8

abbrev pub is_null : ℕ → Bool
is_null a = a == null

unfoldable pub is_head : ℕ → Links → Bool
is_head e m = not (is_null e) && (is_null (m.prev e) && not (is_null (m.next e)))

unfoldable pub is_interior : ℕ → Links → Bool
is_interior e m = not (is_null e) && (not (is_null (m.prev e)) && not (is_null (m.next e)))

unfoldable pub is_tail : ℕ → Links → Bool
is_tail e m = not (is_null e) && (not (is_null (m.prev e)) && is_null (m.next e))

unfoldable pub list_init : ℕ → Links → Option Links
list_init l m = do
  assert (not (is_null l))
  let m₁ = set_next l (tail_of l) (set_prev l null m)
  some (set_next (tail_of l) null (set_prev (tail_of l) l m₁))

unfoldable pub list_begin : ℕ → Links → Option ℕ
list_begin l m = do assert (not (is_null l)); some (m.next l)

unfoldable pub list_next : ℕ → Links → Option ℕ
list_next e m = do assert (is_head e m || is_interior e m); some (m.next e)

unfoldable pub list_end : ℕ → Option ℕ
list_end l = do assert (not (is_null l)); some (tail_of l)

unfoldable pub list_rbegin : ℕ → Links → Option ℕ
list_rbegin l m = do assert (not (is_null l)); some (m.prev (tail_of l))

unfoldable pub list_prev : ℕ → Links → Option ℕ
list_prev e m = do assert (is_interior e m || is_tail e m); some (m.prev e)

unfoldable pub list_rend : ℕ → Option ℕ
list_rend l = do assert (not (is_null l)); some l

unfoldable pub list_head : ℕ → Option ℕ
list_head l = do assert (not (is_null l)); some l

unfoldable pub list_tail : ℕ → Option ℕ
list_tail l = do assert (not (is_null l)); some (tail_of l)

unfoldable pub list_insert : ℕ → ℕ → Links → Option Links
list_insert before elem m = do
  assert (is_interior before m || is_tail before m)
  assert (not (is_null elem))
  let m₁ = set_next elem before (set_prev elem (m.prev before) m)
  let m₂ = set_next (m₁.prev before) elem m₁
  some (set_prev before elem m₂)

-- The elements from `first` to `last`, which is now included, go before `before`.
unfoldable pub move_range : ℕ → ℕ → ℕ → Links → Links
move_range before first last m =
    let m₁ = set_next (m.prev first) (m.next last) m in
    let m₂ = set_prev (m₁.next last) (m₁.prev first) m₁ in
    let m₃ = set_next last before (set_prev first (m₂.prev before) m₂) in
    let m₄ = set_next (m₃.prev before) first m₃ in set_prev before last m₄

unfoldable pub list_splice : ℕ → ℕ → ℕ → Links → Option Links
list_splice before first last m = do
  assert (is_interior before m || is_tail before m)
  if first == last
      then some m
      else (list_prev last m >>= λ last.
          assert (is_interior first m)
          >> (assert (is_interior last m) >> some (move_range before first last m)))

unfoldable pub list_push_front : ℕ → ℕ → Links → Option Links
list_push_front l elem m = do before ← list_begin l m; list_insert before elem m

unfoldable pub list_push_back : ℕ → ℕ → Links → Option Links
list_push_back l elem m = do before ← list_end l; list_insert before elem m

unfoldable pub list_remove : ℕ → Links → Option (ℕ × Links)
list_remove elem m = do
  assert (is_interior elem m)
  let m₁ = set_next (m.prev elem) (m.next elem) m
  let m₂ = set_prev (m₁.next elem) (m₁.prev elem) m₁
  some (m₂.next elem, m₂)

unfoldable pub list_empty : ℕ → Links → Option Bool
list_empty l m = do first ← list_begin l m; last ← list_end l; some (first == last)

unfoldable pub list_front : ℕ → Links → Option ℕ
list_front l m = do empty ← list_empty l m; assert (not empty); some (m.next l)

unfoldable pub list_back : ℕ → Links → Option ℕ
list_back l m = do empty ← list_empty l m; assert (not empty); some (m.prev (tail_of l))

unfoldable pub list_pop_front : ℕ → Links → Option (ℕ × Links)
list_pop_front l m = do
  front ← list_front l m
  removed ← list_remove front m
  some (front, removed.1)

unfoldable pub list_pop_back : ℕ → Links → Option (ℕ × Links)
list_pop_back l m = do back ← list_back l m; removed ← list_remove back m; some (back, removed.1)

unfoldable pub size_loop : ℕ → ℕ → ℕ → ℕ → Links → Option ℕ
size_loop zero end e cnt m = none
size_loop (suc fuel) end e cnt m =
    let rest = list_next e m >>= λ e. size_loop fuel end e (suc cnt) m in
    if e == end then some cnt else rest

unfoldable pub list_size : ℕ → ℕ → Links → Option ℕ
list_size fuel l m = do e ← list_begin l m; end ← list_end l; size_loop fuel end e 0 m

-- `swap (&e->prev, &e->next)`.
unfoldable pub swap_links : ℕ → Links → Links
swap_links e m = set_next e (m.prev e) (set_prev e (m.next e) m)

unfoldable pub reverse_loop : ℕ → ℕ → ℕ → Links → Option Links
reverse_loop zero end e m = none
reverse_loop (suc fuel) end e m =
    let m' = swap_links e m in
    let rest = reverse_loop fuel end (m'.prev e) m' in if e == end then some m else rest

-- The last two swaps: of `head.next` and `tail.prev`, and of what the ends of the list point back to.
unfoldable pub turn_ends : ℕ → Links → Links
turn_ends l m =
    let m₁ = set_prev (tail_of l) (m.next l) (set_next l (m.prev (tail_of l)) m) in
    let first = m₁.next l in
    let last = m₁.prev (tail_of l) in
    set_next last (m₁.prev first) (set_prev first (m₁.next last) m₁)

unfoldable pub list_reverse : ℕ → ℕ → Links → Option Links
list_reverse fuel l m = do
  empty ← list_empty l m
  e ← list_begin l m
  if empty then some m else (reverse_loop fuel (tail_of l) e m >>= λ m. some (turn_ends l m))
