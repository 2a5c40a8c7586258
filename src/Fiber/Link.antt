-- ===== src/Fiber/Link.antt =====
-- StTimeoutItemLink of src/piorun/fiber/fiber.cc: the doubly linked lists of timeout items, with the
-- pointers of the items. Items and lists are told apart by numbers; a null pointer is none, and a result
-- `none` is a failed assertion or a read through a null pointer.
pub mod Seg
pub mod Keeps
pub mod Cut
pub mod Unlink
pub mod Join
pub mod Represents
pub mod Calls
pub mod Tests
use piorun.Prelude.{
  ℕ, zero, suc, Option, none, some, Bool, true, false, ◌==◌, if◌then◌else◌, ◌>>=◌, ◌>>◌, assert,
  ◌&&◌,
}

-- The pointers of a StTimeoutItem.
pub record Node : Type 0 where
  pub prev : Option ℕ
  pub next : Option ℕ
  pub link : Option ℕ

-- A StTimeoutItemLink.
pub record Ends : Type 0 where
  pub head : Option ℕ
  pub tail : Option ℕ

pub record Memory : Type 0 where
  pub item : ℕ → Node
  pub list : ℕ → Ends

abbrev pub node_at : (ℕ → Node) → ℕ → Node → ℕ → Node
node_at items x n y = if y == x then n else items y

abbrev pub set_node : Memory → ℕ → Node → Memory
set_node m x n = record m { item = node_at m.item x n }

abbrev pub set_next : Memory → ℕ → Option ℕ → Memory
set_next m x p = set_node m x (record (m.item x) { next = p })

abbrev pub set_prev : Memory → ℕ → Option ℕ → Memory
set_prev m x p = set_node m x (record (m.item x) { prev = p })

abbrev pub set_link : Memory → ℕ → Option ℕ → Memory
set_link m x p = set_node m x (record (m.item x) { link = p })

abbrev pub set_ends : Memory → ℕ → Ends → Memory
set_ends m l e = record m { list = λ k. if k == l then e else m.list k }

abbrev pub set_head : Memory → ℕ → Option ℕ → Memory
set_head m l p = set_ends m l (record (m.list l) { head = p })

abbrev pub set_tail : Memory → ℕ → Option ℕ → Memory
set_tail m l p = set_ends m l (record (m.list l) { tail = p })

abbrev pub is_null : Option ℕ → Bool
is_null none = true
is_null (some x) = false

abbrev pub same_ptr : Option ℕ → Option ℕ → Bool
same_ptr none none = true
same_ptr (some x) (some y) = x == y
same_ptr _ _ = false

-- `if (p) p->pPrev = q;`
abbrev pub set_prev_of : Memory → Option ℕ → Option ℕ → Memory
set_prev_of m none q = m
set_prev_of m (some p) q = set_prev m p q

abbrev pub set_next_of : Memory → Option ℕ → Option ℕ → Memory
set_next_of m none q = m
set_next_of m (some p) q = set_next m p q

-- AddTail behind its test, with the tail of the list.
pub append_item : Memory → ℕ → ℕ → Option ℕ → Memory
append_item m l ap (some t) =
    let m₁ = set_next m t (some ap) in
    let m₂ = set_next m₁ ap none in
    let m₃ = set_prev m₂ ap (some t) in set_link (set_tail m₃ l (some ap)) ap (some l)
append_item m l ap none =
    let m₁ = set_ends m l (record { head = some ap; tail = some ap }) in
    set_link (set_prev (set_next m₁ ap none) ap none) ap (some l)

pub add_tail : Memory → ℕ → ℕ → Memory
unfolding append_item
add_tail m l ap = if is_null (m.item ap).link then append_item m l ap (m.list l).tail else m

-- PopHead, with the head of the list.
pub pop_item : Memory → ℕ → Option ℕ → Memory
pop_item m l none = m
pop_item m l (some lp) =
    let m₁ =
      if same_ptr (some lp) (m.list l).tail
      then set_ends m l (record { head = none; tail = none })
      else set_head m l (m.item lp).next in
    let m₂ = set_node m₁ lp (record { prev = none; next = none; link = none }) in
    set_prev_of m₂ (m₂.list l).head none

pub pop_head : Memory → ℕ → Memory
unfolding pop_item
pop_head m l = pop_item m l (m.list l).head

-- `while (lp) { lp->pLink = this; lp = lp->pNext; }`, on fuel; none if it is used up.
pub relink : ℕ → Memory → ℕ → Option ℕ → Option Memory
relink zero m l p = none
relink (suc k) m l none = some m
relink (suc k) m l (some p) =
    relink k (set_link m p (some l)) l ((set_link m p (some l)).item p).next

-- Join behind its loop, with the tail of the list and the head of the other.
pub splice : Memory → ℕ → ℕ → Option ℕ → ℕ → Memory
splice m l other (some t) lp =
    let m₁ = set_prev (set_next m t (some lp)) lp (some t) in
    set_ends (set_tail m₁ l (m₁.list other).tail) other (record { head = none; tail = none })
splice m l other none lp =
    set_ends (set_ends m l (m.list other)) other (record { head = none; tail = none })

pub join_from : ℕ → Memory → ℕ → ℕ → Option ℕ → Option Memory
unfolding relink
join_from fuel m l other none = some m
join_from fuel m l other (some lp) = do
  m' ← relink fuel m l (some lp)
  some (splice m' l other (m'.list l).tail lp)

pub join : ℕ → Memory → ℕ → ℕ → Option Memory
unfolding join_from
join fuel m l other = join_from fuel m l other (m.list other).head

-- RemoveFromLink at its first `if`: the head, or the item before.
pub unlink_prev : Memory → ℕ → ℕ → Memory
unlink_prev m x l =
    if same_ptr (some x) (m.list l).head
    then set_prev_of (set_head m l (m.item x).next) (m.item x).next none
    else set_next_of m (m.item x).prev (m.item x).next

-- At its second `if`: the tail, or the item behind, which is not looked at before it is written.
pub unlink_next : Memory → ℕ → ℕ → Option Memory
unlink_next m x l =
    if same_ptr (some x) (m.list l).tail
    then some (set_next_of (set_tail m l (m.item x).prev) (m.item x).prev none)
    else elim (m.item x).next [ none ↦ none | some n ↦ some (set_prev m n (m.item x).prev) ]

pub remove_in : Memory → ℕ → Option ℕ → Option Memory
remove_in m x none = some m
remove_in m x (some l) = do
  assert
      (if is_null (m.list l).head then false else if is_null (m.list l).tail then false else true)
  m' ← unlink_next (unlink_prev m x l) x l
  some (set_node m' x (record { prev = none; next = none; link = none }))

pub remove_from_link : Memory → ℕ → Option Memory
unfolding remove_in
remove_from_link m x = remove_in m x (m.item x).link
