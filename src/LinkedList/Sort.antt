-- ===== src/LinkedList/Sort.antt =====
-- listQSort with its helpers, and the thread-safe variants of list.c. Where fuel runs out the result
-- is nothing; `le a b` is `compare(a, b) < 1`.
pub mod Array
pub mod Exchange
pub mod Pivot
pub mod Split
pub mod Range
pub mod Ordered
pub mod Places
pub mod Whole
pub mod Tests
use dictionary.Base.{
  ℕ, zero, suc, Bool, true, false, Option, none, some, Run, ok, fault, ◌>>=◌, leb, if◌then◌else◌,
}
use dictionary.LinkedList.{
  Pointer, same, Heap, LinkedList, load, set_content, add_head, add_tail, remove_head, remove_tail,
  list_find,
}

-- `pthread_mutex_lock` and `pthread_mutex_unlock`
unfoldable pub lock : LinkedList → Run LinkedList
lock l = if l.locked then fault else ok (record l { locked = true })

unfoldable pub unlock : LinkedList → LinkedList
unlock l = record l { locked = false }

module _ {D : Type 0} where
  -- The exchange of `i->data` and `j->data`
  unfoldable pub swap : Heap D → Pointer → Pointer → Run (Heap D)
  swap h i j = do
    x ← load h i
    y ← load h j
    h' ← set_content h i y.content
    set_content h' j x.content

  -- `(i == NULL) ? low : i->next`
  unfoldable pub step : Heap D → Pointer → Pointer → Run Pointer
  step h low none = ok low
  step h low (some i) = do n ← load h (some i); ok n.next

  module _ (le : D → D → Bool) where
    -- The loop of `listQSortPivot`, with `j` at a node.
    unfoldable pub pivot_loop :
        ℕ → D → Pointer → Pointer → Heap D → Pointer → Pointer → Run (Option (Heap D × Pointer))
    pivot_loop zero pivot low high h i j = ok none
    pivot_loop (suc fuel) pivot low high h i j = elim (same j high) [
      | true ↦ ok (some (h, i))
      | false ↦ load h j >>= λ node. elim (le node.content pivot) [
        | true ↦
            (step h low i >>= λ i'. swap h i' j >>= λ h'.
            load h' j >>= λ node'. pivot_loop fuel pivot low high h' i' node'.next)
        | false ↦ pivot_loop fuel pivot low high h i node.next
      ]
    ]

    -- `listQSortPivot`
    unfoldable pub sort_pivot : ℕ → Heap D → Pointer → Pointer → Run (Option (Heap D × Pointer))
    sort_pivot fuel h low high = do
      hi ← load h high
      lo ← load h low
      r ← pivot_loop fuel hi.content low high h lo.prev low
      elim r [
        | none ↦ ok none
        | some (h', i) ↦ (step h' low i >>= λ i'. swap h' i' high >>= λ h''. ok (some (h'', i')))
      ]

    -- The early return of `mboxQSortHelper`
    unfoldable pub sorted_range : Heap D → Pointer → Pointer → Bool → Run Bool
    sorted_range h low high inner =
        if same low high
        then ok true
        else if inner
        then (load h high >>= λ n. ok (same low n.next))
        else ok false

    -- `mboxQSortHelper`; `inner` is `count == 1`.
    unfoldable pub sort_helper : ℕ → Heap D → Pointer → Pointer → Bool → Run (Option (Heap D))
    sort_helper zero h low high inner = ok none
    sort_helper (suc fuel) h low high inner = sorted_range h low high inner >>= λ done. elim done [
      | true ↦ ok (some h)
      | false ↦ sort_pivot (suc fuel) h low high >>= λ r. elim r [
        | none ↦ ok none
        | some (h1, pivot) ↦ load h1 pivot >>= λ n. sort_helper fuel h1 low n.prev true >>= λ left.
            elim left [
              | none ↦ ok none
              | some h2 ↦ load h2 pivot >>= λ n'. sort_helper fuel h2 n'.next high true
            ]
      ]
    ]

  -- `listQSort`; the comparison may be NULL.
  unfoldable pub list_q_sort :
      ℕ → Option (D → D → Bool) → Heap D → LinkedList → Run (Option (Heap D × LinkedList))
  unfolding lock unlock
  list_q_sort fuel none h l = do l' ← lock l; ok (some (h, l'))
  list_q_sort fuel (some le) h l = do
    l' ← lock l
    if leb l'.len 1 then ok (some (h, l')) else (do
      root ← load h l'.root
      r ← sort_helper le fuel h l'.root root.prev false
      elim r [ none ↦ ok none | some h' ↦ ok (some (h', unlock l')) ])

  -- `listTSAddHead`, `listTSAddTail`, `listTSRemoveHead`, `listTSRemoveTail` and `listTSFind`
  unfoldable pub ts_add_head : Bool → Heap D → LinkedList → D → Run (Heap D × LinkedList)
  unfolding lock unlock
  ts_add_head memory h l val = do
    l1 ← lock l
    (h', l2) ← add_head memory h l1 val
    ok (h', unlock l2)

  unfoldable pub ts_add_tail : Bool → Heap D → LinkedList → D → Run (Heap D × LinkedList)
  unfolding lock unlock
  ts_add_tail memory h l val = do
    l1 ← lock l
    (h', l2) ← add_tail memory h l1 val
    ok (h', unlock l2)

  unfoldable pub ts_remove_head : Heap D → LinkedList → Run (Option D × Heap D × LinkedList)
  unfolding lock unlock
  ts_remove_head h l = do
    l1 ← lock l
    (retval, h', l2) ← remove_head h l1
    ok (retval, h', unlock l2)

  unfoldable pub ts_remove_tail : Heap D → LinkedList → Run (Option D × Heap D × LinkedList)
  unfolding lock unlock
  ts_remove_tail h l = do
    l1 ← lock l
    (retval, h', l2) ← remove_tail h l1
    ok (retval, h', unlock l2)

  unfoldable pub ts_find : (D → Bool) → Heap D → LinkedList → Run (Option D × LinkedList)
  unfolding lock unlock
  ts_find matches h l = do l1 ← lock l; retval ← list_find matches h l1; ok (retval, unlock l1)
