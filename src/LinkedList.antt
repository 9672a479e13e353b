-- ===== src/LinkedList.antt =====
-- The circular doubly linked list of list.c and list.h on an explicit heap of nodes. A pointer is
-- nothing for NULL or a place of the heap; a place that was freed holds nothing. A lock that is taken
-- twice is undefined for the default mutex, so it is a fault like the others.
pub mod Sort
pub mod Lock
pub mod Single
pub mod Chain
pub mod Cells
pub mod Ring
pub mod Add
pub mod Remove
pub mod Walk
mod Tests
use dictionary.Base.{
  ℕ, zero, suc, ◌+◌, ◌-◌, ◌%◌, ◌^◌, Bool, true, false, ◌||◌, ◌&&◌, not, Option, none, some, List,
  [], ◌∷◌, ◌++◌, Run, ok, fault, ◌>>=◌, at, put, length, ltb, leb, ◌==◌, if◌then◌else◌,
}

abbrev pub Pointer : Type 0
Pointer = Option ℕ

-- `p == q`
abbrev pub same : Pointer → Pointer → Bool
same none none = true
same none (some q) = false
same (some p) none = false
same (some p) (some q) = p == q

-- `lNode`
pub record Node (D : Type 0) : Type 0 where
  pub content : D
  pub next : Pointer
  pub prev : Pointer

abbrev pub Heap : Type 0 → Type 0
Heap D = List (Option (Node D))

-- `list`, with `locked` for the mutex; `listNew` and `listSetFreedata` alone set `freedata`.
pub record LinkedList : Type 0 where
  pub len : ℕ
  pub root : Pointer
  pub locked : Bool
  pub freedata : Bool

abbrev u64 : ℕ
u64 = 2 ^ 64

module _ {D : Type 0} where
  -- `*p`, `p->next = q`, `p->prev = q`, `p->content = d` and `free(p)`
  unfoldable pub load : Heap D → Pointer → Run (Node D)
  load h none = fault
  load h (some p) = at h p >>= λ o. elim o [ none ↦ fault | some n ↦ ok n ]

  unfoldable pub store : Heap D → Pointer → Node D → Run (Heap D)
  store h none n = fault
  store h (some p) n = put h p (some n)

  unfoldable pub set_next : Heap D → Pointer → Pointer → Run (Heap D)
  set_next h p q = do n ← load h p; store h p (record n { next = q })

  unfoldable pub set_prev : Heap D → Pointer → Pointer → Run (Heap D)
  set_prev h p q = do n ← load h p; store h p (record n { prev = q })

  unfoldable pub set_content : Heap D → Pointer → D → Run (Heap D)
  set_content h p d = do n ← load h p; store h p (record n { content = d })

  unfoldable pub release_node : Heap D → Pointer → Run (Heap D)
  release_node h none = ok h
  release_node h (some p) = do n ← load h (some p); put h p none

  -- `lNodeNew`, where `memory` tells whether `malloc` succeeds: its result is not tested.
  unfoldable pub node_new : Bool → Heap D → D → Run (Pointer × Heap D)
  node_new memory h content =
      if memory
      then ok
          (some (length h), h ++ some (record { content = content; next = none; prev = none }) ∷ [])
      else fault

-- `listNew`; `listTSNew` initialises the mutex once more.
abbrev pub list_new : LinkedList
list_new = record { len = 0; root = none; locked = false; freedata = false }

module _ {D : Type 0} where
  -- The links that `listAddHead` and `listAddTail` both set when the list has a node.
  unfoldable pub link_before : Heap D → Pointer → Pointer → Run (Heap D)
  link_before h head n = do
    r ← load h head
    h1 ← set_next h n head
    h2 ← set_prev h1 n r.prev
    h3 ← set_next h2 r.prev n
    set_prev h3 head n

  -- The first node links to itself.
  unfoldable pub link_self : Heap D → Pointer → Run (Heap D)
  link_self h n = do h1 ← set_prev h n n; set_next h1 n n

  -- `listAddHead`
  unfoldable pub add_head : Bool → Heap D → LinkedList → D → Run (Heap D × LinkedList)
  add_head memory h l content = do
    (n, h1) ← node_new memory h content
    h2 ← elim l.root [ none ↦ link_self h1 n | some r ↦ link_before h1 (some r) n ]
    ok (h2, record l { root = n; len = (l.len + 1) % u64 })

  -- `listAddTail`
  unfoldable pub add_tail : Bool → Heap D → LinkedList → D → Run (Heap D × LinkedList)
  add_tail memory h l content = do
    (n, h1) ← node_new memory h content
    elim l.root [
      | none ↦ (link_self h1 n >>= λ h2. ok (h2, record l { root = n; len = (l.len + 1) % u64 }))
      | some r ↦ (link_before h1 (some r) n >>= λ h2. ok (h2, record l { len = (l.len + 1) % u64 }))
    ]

  -- `listRemoveHead`
  unfoldable pub remove_head : Heap D → LinkedList → Run (Option D × Heap D × LinkedList)
  remove_head h l = if l.len == 0 || same l.root none then ok (none, h, l) else do
    head ← load h l.root
    if l.len == 1
        then (do
          h' ← release_node h l.root
          ok (some head.content, h', record l { root = none; len = l.len - 1 }))
        else (do
          h1 ← set_next h head.prev head.next
          h2 ← set_prev h1 head.next head.prev
          h' ← release_node h2 l.root
          ok (some head.content, h', record l { root = head.next; len = l.len - 1 }))

  -- `listRemoveTail`
  unfoldable pub remove_tail : Heap D → LinkedList → Run (Option D × Heap D × LinkedList)
  remove_tail h l = if l.len == 0 then ok (none, h, l) else do
    head ← load h l.root
    tail ← load h head.prev
    if l.len == 1
        then (do
          h' ← release_node h head.prev
          ok (some tail.content, h', record l { root = none; len = l.len - 1 }))
        else (do
          h1 ← set_prev h l.root tail.prev
          h2 ← set_next h1 tail.prev l.root
          h' ← release_node h2 head.prev
          ok (some tail.content, h', record l { len = l.len - 1 }))

  -- `listFind`: `count` nodes are left.
  unfoldable pub find_loop : (D → Bool) → ℕ → Heap D → Pointer → Run (Option D)
  find_loop matches zero h current = ok none
  find_loop matches (suc count) h current = load h current >>= λ n. elim (matches n.content) [
    | true ↦ ok (some n.content)
    | false ↦ find_loop matches count h n.next
  ]

  unfoldable pub list_find : (D → Bool) → Heap D → LinkedList → Run (Option D)
  list_find matches h l = find_loop matches l.len h l.root

  -- The loop of `listRelease`, on fuel: what is handed to `freedata`, in order. It would not end on a
  -- list that has a length and no root.
  unfoldable pub release_nodes : ℕ → Heap D → LinkedList → Run (Option (List D × Heap D))
  release_nodes zero h l = if l.len == 0 then ok (some ([], h)) else ok none
  release_nodes (suc fuel) h l = elim (l.len == 0) [
    | true ↦ ok (some ([], h))
    | false ↦ remove_head h l >>= λ (content, h', l'). release_nodes fuel h' l' >>= λ rest.
        elim rest [
          | none ↦ ok none
          | some (given, h'') ↦ elim content [
            | none ↦ ok (some (given, h''))
            | some d ↦ ok (some (if l.freedata then d ∷ given else given, h''))
          ]
        ]
  ]

  unfoldable pub list_release : Heap D → LinkedList → Run (Option (List D × Heap D))
  list_release h l = release_nodes l.len h l

  -- `listAppendListTail`; `aux` is freed afterwards.
  unfoldable pub append_list_tail : Heap D → LinkedList → LinkedList → Run (Heap D × LinkedList)
  append_list_tail h main aux =
      if aux.len == 0
      then ok (h, main)
      else if main.len == 0
      then ok (h, record main { root = aux.root; len = (main.len + aux.len) % u64 })
      else (do
        aux_head ← load h aux.root
        head ← load h main.root
        h1 ← set_prev h aux.root head.prev
        h2 ← set_next h1 head.prev aux.root
        h3 ← set_prev h2 main.root aux_head.prev
        h4 ← set_next h3 aux_head.prev main.root
        ok (h4, record main { len = (main.len + aux.len) % u64 }))
