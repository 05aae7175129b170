-- ===== src/Malloc/FreeList.antt =====
-- sharedMalloc/src/freeList.c: the free list, its four searches, the split of a block and the
-- coalescing of neighbours. Each loop runs on fuel, one round for each node that it may visit.
use cos.Base.{ℕ, zero, suc, ◌+◌, ◌-◌, ◌*◌, Bool, ◌&&◌, ltb, leb, ◌==◌, if◌then◌else◌}
use cos.Malloc.Memory.{
  Ptr, null, Node, magic_number, sizeof_node, add_size, Cmd, out_of_fuel, pure, ◌>>=◌, ◌>>◌, load,
  update, set_next, set_size, set_head, set_next_free, get_head, get_next_free,
}

-- `if (prev != NULL) prev->next = p; else freeList->head = p;`
unfoldable pub link : Ptr → Ptr → Cmd (Unit {0})
link prev p = if prev == null then set_head p else set_next prev p

-- The end of `split`: the rover moves to the new free node, or to the head if there is none.
unfoldable pub move_rover : Ptr → Cmd (Unit {0})
move_rover new_free =
    if new_free == null then (do p ← get_head; set_next_free p) else set_next_free new_free

-- The branch of `split` for a block with room for another header.
unfoldable pub split_off : Ptr → Ptr → ℕ → Node → Cmd (Unit {0})
split_off node prev size n = do
  let rest = node + sizeof_node + size
  update rest (λ r. record r { size = n.size - size - sizeof_node; next = n.next })
  set_size node size
  link prev rest
  move_rover rest

-- The other branch: the whole block is given.
unfoldable pub take_whole : Ptr → Node → Cmd (Unit {0})
take_whole prev n = do link prev n.next; move_rover n.next

unfoldable pub split : Ptr → Ptr → ℕ → Cmd (Unit {0})
split node prev size = do
  n ← load node
  if ltb (add_size size sizeof_node) n.size then split_off node prev size n else take_whole prev n

-- What each search does with the block that it has chosen.
unfoldable pub carve : Ptr → Ptr → ℕ → Cmd Ptr
carve node prev size = do
  split node prev size
  update node (λ n. record n { magic = magic_number; is_freed = 0 })
  pure (node + sizeof_node)

-- The candidate after the visit of `current`, for `better new old`.
unfoldable pub consider :
    (ℕ → ℕ → Bool) → ℕ → Node → (current prev best best_prev : Ptr) → Cmd (Ptr × Ptr)
consider better size n current prev best best_prev =
    if leb size n.size
    then (if best == null then pure (current, prev) else do
      m ← load best
      pure (if better n.size m.size then (current, prev) else (best, best_prev)))
    else pure (best, best_prev)

-- The loop of `bestFit` and `worstFit`.
unfoldable pub extremal_loop :
    (ℕ → ℕ → Bool) → ℕ → ℕ → (current prev best best_prev : Ptr) → Cmd (Ptr × Ptr)
extremal_loop better size zero current prev best best_prev = λ _. out_of_fuel
extremal_loop better size (suc k) current prev best best_prev =
    if current == null then pure (best, best_prev) else do
      n ← load current
      (b, bp) ← consider better size n current prev best best_prev
      if n.next == null then pure (b, bp) else extremal_loop better size k n.next current b bp

unfoldable pub extremal_fit : (ℕ → ℕ → Bool) → ℕ → ℕ → Cmd Ptr
extremal_fit better fuel size = do
  p ← get_head
  (best, best_prev) ← extremal_loop better size fuel p null null null
  if best == null then pure null else carve best best_prev size

abbrev pub smaller : ℕ → ℕ → Bool
smaller new old = ltb new old

abbrev pub larger : ℕ → ℕ → Bool
larger new old = ltb old new

unfoldable pub best_fit : ℕ → ℕ → Cmd Ptr
best_fit = extremal_fit smaller

unfoldable pub worst_fit : ℕ → ℕ → Cmd Ptr
worst_fit = extremal_fit larger

-- The loop of `firstFit` and both loops of `nextFit`: from `current` up to `stop`, or to the last
-- node. The first two loops stop at NULL.
unfoldable pub first_loop : (stop : Ptr) → ℕ → ℕ → (current prev : Ptr) → Cmd (Ptr × Ptr)
first_loop stop size zero current prev = λ _. out_of_fuel
first_loop stop size (suc k) current prev = if current == stop then pure (null, null) else do
  n ← load current
  if leb size n.size
      then pure (current, prev)
      else if n.next == null
      then pure (null, null)
      else first_loop stop size k n.next current

unfoldable pub first_fit : ℕ → ℕ → Cmd Ptr
first_fit fuel size = do
  p ← get_head
  (found, prev) ← first_loop null size fuel p null
  if found == null then pure null else carve found prev size

unfoldable pub find_prev_node : Ptr → ℕ → (current prev : Ptr) → Cmd Ptr
find_prev_node node zero current prev = λ _. out_of_fuel
find_prev_node node (suc k) current prev =
    if current == null then pure null else if current == node then pure prev else do
      n ← load current
      if n.next == null then pure null else find_prev_node node k n.next current

-- The second search of `nextFit`, from the head up to the rover.
unfoldable pub wrap_fit : ℕ → ℕ → (rover : Ptr) → Cmd Ptr
wrap_fit fuel size rover = do
  p ← get_head
  (found, prev) ← first_loop rover size fuel p null
  if found == null then pure null else carve found prev size

-- `nextFit` with the rover read.
unfoldable pub next_fit_from : ℕ → ℕ → (rover : Ptr) → Cmd Ptr
next_fit_from fuel size rover = do
  p ← get_head
  prev ← find_prev_node rover fuel p null
  (found, found_prev) ← first_loop null size fuel rover prev
  if found == null then wrap_fit fuel size rover else carve found found_prev size

unfoldable pub next_fit : ℕ → ℕ → Cmd Ptr
next_fit fuel size = do rover ← get_next_free; next_fit_from fuel size rover

-- `(char*)a + a->size + sizeof(Node) == (char*)b`
abbrev pub adjoins : Ptr → Node → Ptr → Bool
adjoins a n b = a + n.size + sizeof_node == b

-- `first->size += second->size + sizeof(Node); first->next = second->next;`
unfoldable pub absorb : Ptr → Ptr → Cmd (Unit {0})
absorb first second = do
  s ← load second
  update first
      (λ n. record n { size = add_size n.size (add_size s.size sizeof_node); next = s.next })

-- The three cases of `coalesceFreeList`: no previous block, no next block, and both there.
unfoldable pub coalesce_head : Ptr → Ptr → Cmd Ptr
coalesce_head freed next = do
  b ← load freed
  if adjoins freed b next then absorb freed next else pure tt
  pure freed

unfoldable pub coalesce_last : Ptr → Ptr → Cmd Ptr
coalesce_last freed prev = do
  p ← load prev
  if adjoins prev p freed then absorb prev freed else pure tt
  pure prev

-- All three blocks become one.
unfoldable pub absorb_both : Ptr → Ptr → Ptr → Cmd (Unit {0})
absorb_both freed prev next = do
  b ← load freed
  n ← load next
  update prev (λ r. record r {
    size = add_size r.size (add_size (add_size b.size n.size) (2 * sizeof_node));
    next = n.next;
  })

unfoldable pub coalesce_between : Ptr → Ptr → Ptr → Cmd Ptr
coalesce_between freed prev next = do
  b ← load freed
  p ← load prev
  if adjoins freed b next && adjoins prev p freed
      then absorb_both freed prev next >> pure prev
      else if adjoins freed b next
      then absorb freed next >> pure prev
      else if adjoins prev p freed
      then absorb prev freed >> pure freed
      else pure null

unfoldable pub coalesce_free_list : Ptr → Ptr → Ptr → Cmd Ptr
coalesce_free_list freed prev next =
    if prev == null
    then coalesce_head freed next
    else if next == null
    then coalesce_last freed prev
    else coalesce_between freed prev next
