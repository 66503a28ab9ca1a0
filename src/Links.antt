-- ===== src/Links.antt =====
-- lib/list.h and lib/queue.h: the circular doubly linked lists that the kernel threads through its
-- structures. A `struct list_head` is its byte address; the store holds the two links of each one.
pub mod Chain
pub mod Append
pub mod Remove
pub mod Run
pub mod Refine
mod Tests
use neux_os.Prelude.{ℕ, zero, suc, ◌==◌, if◌then◌else◌, ◌+◌}
use neux_os.Prelude.Outcome.{M, looping, page_fault, done, pure, ◌>>=◌, ◌>>◌}

abbrev pub null : ℕ
null = 0

pub record Links : Type 0 where
  pub prev : ℕ → ℕ
  pub next : ℕ → ℕ

abbrev pub update : {A : Type 0} → (ℕ → A) → ℕ → A → ℕ → A
update f p v q = if q == p then v else f q

-- The four accesses `p->next`, `p->prev`, `p->next = v` and `p->prev = v`.
unfoldable pub load_next : ℕ → M Links ℕ
load_next p m = if p == null then page_fault else done (m.next p) m

unfoldable pub load_prev : ℕ → M Links ℕ
load_prev p m = if p == null then page_fault else done (m.prev p) m

unfoldable pub store_next : ℕ → ℕ → M Links (Unit {0})
store_next p v m = if p == null then page_fault else done tt (record m { next = update m.next p v })

unfoldable pub store_prev : ℕ → ℕ → M Links (Unit {0})
store_prev p v m = if p == null then page_fault else done tt (record m { prev = update m.prev p v })

-- LIST_HEAD_INIT
unfoldable pub list_head_init : ℕ → M Links (Unit {0})
unfolding store_prev store_next
list_head_init name = do store_prev name name; store_next name name

-- for (__node = node; __node->next != head; __node = __node->next);
unfoldable pub find_last : ℕ → (head node : ℕ) → M Links ℕ
find_last zero head node = λ _. looping
find_last (suc fuel) head node = do
  next ← load_next node
  if next == head then pure node else find_last fuel head next

-- LIST_ADD_TAIL, LIST_ADD and LIST_ENQUEUE
unfoldable pub list_add_tail : (fuel head node : ℕ) → M Links (Unit {0})
list_add_tail fuel head node = do
  last ← find_last fuel head head
  store_next last node
  store_prev node last
  store_next node head
  store_prev head node

-- LIST_DEL
unfoldable pub list_del : ℕ → M Links (Unit {0})
list_del node = do
  before ← load_prev node
  after ← load_next node
  store_next before after
  after ← load_next node
  before ← load_prev node
  store_prev after before
  store_prev node null
  store_next node null

-- The body of LIST_DEL_HEAD's `if`.
unfoldable pub unlink_first : ℕ → M Links (Unit {0})
unlink_first node = do
  after ← load_next node
  before ← load_prev node
  store_prev after before
  before ← load_prev node
  after ← load_next node
  store_next before after
  store_next node null
  store_prev node null

-- LIST_DEL_HEAD
unfoldable pub list_del_head : ℕ → M Links (Unit {0})
list_del_head name = do
  first ← load_next name
  if first == name then pure tt else unlink_first first

-- LIST_DEQUEUE
unfoldable pub list_dequeue : ℕ → M Links ℕ
list_dequeue head = do
  node ← load_next head
  list_del_head head
  pure (if node == head then null else node)

-- The loop of LIST_COUNT.
unfoldable pub count_from : ℕ → (head node count : ℕ) → M Links ℕ
count_from zero head node count = λ _. looping
count_from (suc fuel) head node count = do
  next ← load_next node
  if next == head then pure count else count_from fuel head next (count + 1)

-- LIST_COUNT
unfoldable pub list_count : (fuel head : ℕ) → M Links ℕ
unfolding count_from
list_count fuel head = count_from fuel head head 0
