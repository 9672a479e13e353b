-- ===== src/LinkedList/Single.antt =====
-- One element through the list: added at either end of an empty list and taken out at either end.
use dictionary.Base.Block.{put-append, drop-append}
use dictionary.Base.{◌≡◌, Bool, true, none, some, [], ◌∷◌, ◌++◌, ok, ◌>>=◌, length, at-drop}
use dictionary.LinkedList.{
  Pointer, Node, Heap, LinkedList, load, store, set_next, set_prev, node_new, link_self, add_head,
  add_tail, remove_head, remove_tail, release_node,
}

module _ {D : Type 0} (h : Heap D) where
  -- The heap with one more node, and the pointer to it.
  abbrev with_node : Node D → Heap D
  with_node n = h ++ some n ∷ []

  abbrev here : Pointer
  here = some (length h)

  load-last : (n : Node D) → load (with_node n) here ≡ ok n
  unfolding load
  load-last n =
      rw (at-drop (with_node n) (length h) (some n) [] (drop-append h (some n ∷ [])), ◌>>=◌)

  store-last : (n n' : Node D) → store (with_node n) here n' ≡ ok (with_node n')
  unfolding store
  store-last n n' = put-append h (some n) [] (some n')

  set_next-last :
      (n : Node D) (q : Pointer)
      → set_next (with_node n) here q ≡ ok (with_node (record n { next = q }))
  unfolding set_next
  set_next-last n q = rw (load-last n, ◌>>=◌) (store-last n (record n { next = q }))

  set_prev-last :
      (n : Node D) (q : Pointer)
      → set_prev (with_node n) here q ≡ ok (with_node (record n { prev = q }))
  unfolding set_prev
  set_prev-last n q = rw (load-last n, ◌>>=◌) (store-last n (record n { prev = q }))

  link_self-last :
      (n : Node D)
      → link_self (with_node n) here ≡ ok (with_node (record n { prev = here; next = here }))
  unfolding link_self
  link_self-last n =
      rw (set_prev-last n here, ◌>>=◌) (set_next-last (record n { prev = here }) here)

-- A list without elements.
abbrev pub empty : Bool → Bool → LinkedList
empty locked freedata = record { len = 0; root = none; locked = locked; freedata = freedata }

module _ {D : Type 0} (h : Heap D) (locked freedata : Bool) (d : D) where
  abbrev pub single : LinkedList
  single = record { len = 1; root = some (length h); locked = locked; freedata = freedata }

  abbrev linked : Node D
  linked = record { content = d; next = some (length h); prev = some (length h) }

  add_head-single : add_head true h (empty locked freedata) d ≡ ok (h ++ some linked ∷ [], single)
  unfolding add_head node_new
  add_head-single = rw (link_self-last h (record { content = d; next = none; prev = none }), ◌>>=◌)

  add_tail-single : add_tail true h (empty locked freedata) d ≡ ok (h ++ some linked ∷ [], single)
  unfolding add_tail node_new
  add_tail-single = rw (link_self-last h (record { content = d; next = none; prev = none }), ◌>>=◌)

  remove_head-single :
      remove_head (h ++ some linked ∷ []) single
      ≡ ok (some d, h ++ none ∷ [], empty locked freedata)
  unfolding remove_head release_node
  remove_head-single =
      rw (load-last h linked, ◌>>=◌) (rw (put-append h (some linked) [] none, ◌>>=◌))

  remove_tail-single :
      remove_tail (h ++ some linked ∷ []) single
      ≡ ok (some d, h ++ none ∷ [], empty locked freedata)
  unfolding remove_tail release_node
  remove_tail-single =
      rw (load-last h linked, ◌>>=◌)
        (rw (load-last h linked, ◌>>=◌) (rw (put-append h (some linked) [] none, ◌>>=◌)))

  -- On every heap, an element that is added at the head or the tail of an empty list, where memory is
  -- found, is handed back by the removal of the head and of the tail; the list is empty again, and
  -- of the heap only the new node is written, which is freed.
  pub remove-add :
      ((add_head true h (empty locked freedata) d >>= λ r. remove_head r.0 r.1)
        ≡ ok (some d, h ++ none ∷ [], empty locked freedata))
      × ((add_head true h (empty locked freedata) d >>= λ r. remove_tail r.0 r.1)
          ≡ ok (some d, h ++ none ∷ [], empty locked freedata))
      × ((add_tail true h (empty locked freedata) d >>= λ r. remove_head r.0 r.1)
          ≡ ok (some d, h ++ none ∷ [], empty locked freedata))
      × ((add_tail true h (empty locked freedata) d >>= λ r. remove_tail r.0 r.1)
          ≡ ok (some d, h ++ none ∷ [], empty locked freedata))
  remove-add = (
    rw (add_head-single, ◌>>=◌) remove_head-single,
    rw (add_head-single, ◌>>=◌) remove_tail-single,
    rw (add_tail-single, ◌>>=◌) remove_head-single,
    rw (add_tail-single, ◌>>=◌) remove_tail-single,
  )
