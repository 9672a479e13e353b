-- ===== src/LinkedList/Lock.antt =====
-- What listQSort leaves of the lock on a list that needs no sorting.
use dictionary.Base.{ℕ, ◌≤◌, ◌≡◌, refl, Bool, true, false, some, ok, fault, leb, arith}
use dictionary.LinkedList.{Heap, LinkedList}
use dictionary.LinkedList.Sort.{
  lock, list_q_sort, ts_add_head, ts_add_tail, ts_remove_head, ts_remove_tail, ts_find,
}

module _ {D : Type 0} (le : D → D → Bool) (matches : D → Bool) where
  -- On an unlocked list of at most one element, `listQSort` returns with the lock held: whichever
  -- thread-safe operation the thread calls next locks a second time.
  pub sort-locked :
      (fuel : ℕ) (h : Heap D) (l : LinkedList) (memory : Bool) (val : D)
      → l.len ≤ 1
      → l.locked ≡ false
      → (l' : LinkedList) × (list_q_sort fuel (some le) h l ≡ ok (some (h, l')))
        × (ts_add_head memory h l' val ≡ fault)
        × (ts_add_tail memory h l' val ≡ fault)
        × (ts_remove_head h l' ≡ fault)
        × (ts_remove_tail h l' ≡ fault)
        × (ts_find matches h l' ≡ fault)
  unfolding list_q_sort ts_add_head ts_add_tail ts_remove_head ts_remove_tail ts_find lock
  sort-locked fuel h l memory val short free =
      let small : leb l.len 1 ≡ true = ground arith in
      (record l { locked = true }, simp (free, small), refl, refl, refl, refl, refl)
