-- ===== src/Queue.antt =====
-- The byte queue of a connection: daemon/queue.c and include/queue.h. The entries from `q_head` to
-- `q_tail` are a list. Of an entry's buffer the model keeps the bytes before `qe_addpos`, and
-- `qe_bufpos` as an offset. `budget` counts the entries that simempool_alloc can still give out.
-- `dangling` says that `q_tail` points to a freed entry. A call with a NULL pointer is not modelled.
pub mod Bytes
pub mod Fill
pub mod Add
pub mod Remove
use efnet_services.Common.{
  ℕ, zero, suc, ◌+◌, ◌-◌, ◌%◌, Bool, true, false, Option, none, some, List, [], ◌∷◌, ◌++◌, ◌==◌,
  leb, if◌then◌else◌, length, take, drop,
}
use mathlib.Core.Option

abbrev pub u32 : ℕ
u32 = 0x1_0000_0000

-- sizeof(qe->qe_buffer)
abbrev pub capacity : ℕ
capacity = 0x4000

-- struct _si_queue_entry
pub record Entry : Type 0 where
  pub bytes : List ℕ
  pub bufpos : ℕ

-- struct _si_queue
pub record Queue : Type 0 where
  pub size : ℕ
  pub entries : List Entry
  pub dangling : Bool

pub data Code : Type 0 where
  ok einval enomem enoent : Code

-- An entry as it is allocated.
abbrev pub fresh : Entry
fresh = record { bytes = []; bufpos = 0 }

-- memcpy to `qe_addpos`, which then moves on
abbrev pub copy : Entry → List ℕ → ℕ → Entry
copy qe buffer n = record qe { bytes = qe.bytes ++ take n buffer }

abbrev pub numleft : Entry → ℕ
numleft qe = capacity - length qe.bytes

-- The result of filling entries: the code, the entries from the old tail on, the bytes that were
-- copied, and the entries that can still be allocated.
pub record Filled : Type 0 where
  pub code : Code
  pub tail : List Entry
  pub copied : ℕ
  pub budget : ℕ

abbrev pub prepend : Entry → ℕ → Filled → Filled
prepend qe n f = record f { tail = qe ∷ f.tail; copied = n + f.copied }

-- The `for(;;)` of siqueue_add. Each round after the first takes an entry from the budget.
unfoldable pub add_loop : ℕ → List ℕ → ℕ → Entry → Filled
add_loop zero buffer buflen qe =
    if leb buflen (numleft qe)
    then record { code = ok; tail = copy qe buffer buflen ∷ []; copied = buflen; budget = 0 }
    else record {
      code = enomem;
      tail = copy qe buffer (numleft qe) ∷ [];
      copied = numleft qe;
      budget = 0;
    }
add_loop (suc budget) buffer buflen qe =
    let n = numleft qe in
    let rest = prepend (copy qe buffer n) n (add_loop budget buffer (buflen - n) fresh) in
    if leb buflen n
    then record {
      code = ok;
      tail = copy qe buffer buflen ∷ [];
      copied = buflen;
      budget = suc budget;
    }
    else rest

-- The entries before the tail, and the loop on the tail.
unfoldable pub add_to_tail : ℕ → List ℕ → ℕ → Entry → List Entry → Filled
add_to_tail budget buffer buflen qe [] = add_loop budget buffer buflen qe
add_to_tail budget buffer buflen qe (e ∷ es) = prepend qe 0 (add_to_tail budget buffer buflen e es)

abbrev pub store : Queue → Filled → Code × Queue × ℕ
store q f = (f.code, record q { size = (q.size + f.copied) % u32; entries = f.tail }, f.budget)

-- The entries that the loop starts from; an empty queue gets its first one.
unfoldable pub add_entries : ℕ → List ℕ → ℕ → Queue → List Entry → Code × Queue × ℕ
add_entries zero buffer buflen q [] = (enomem, q, 0)
add_entries (suc budget) buffer buflen q [] = store q (add_loop budget buffer buflen fresh)
add_entries budget buffer buflen q (e ∷ es) = store q (add_to_tail budget buffer buflen e es)

-- siqueue_add; `none` is a write to freed memory.
unfoldable pub siqueue_add : ℕ → Queue → List ℕ → ℕ → Option (Code × Queue × ℕ)
siqueue_add budget q buffer buflen =
    if buflen == 0
    then some (einval, q, budget)
    else if q.dangling
    then none
    else some (add_entries budget buffer buflen q q.entries)

abbrev pub avail : Entry → ℕ
avail qe = length qe.bytes - qe.bufpos

-- The last round of siqueue_del, at the entry that holds the `len`th byte.
unfoldable pub del_last : Entry → List Entry → ℕ → List Entry
del_last qe rest len =
    if length qe.bytes == qe.bufpos + len
    then elim rest [ [] ↦ fresh ∷ [] | e ∷ es ↦ e ∷ es ]
    else record qe { bufpos = qe.bufpos + len } ∷ rest

-- The loop of siqueue_del; `none` is the failure of its assertion.
unfoldable pub del_loop : List Entry → ℕ → Option (List Entry)
del_loop [] len = some []
del_loop (qe ∷ []) len = if leb len (avail qe) then some (del_last qe [] len) else none
del_loop (qe ∷ e ∷ es) len =
    let rest = del_loop (e ∷ es) (len - avail qe) in
    if leb len (avail qe) then some (del_last qe (e ∷ es) len) else rest

-- siqueue_del; `none` is the failure of an assertion.
unfoldable pub siqueue_del : Queue → ℕ → Option Queue
siqueue_del q len =
    if leb len q.size
    then elim q.entries [
      | [] ↦ some q
      | e ∷ es ↦
          Option.map (λ r. record q { size = q.size - len; entries = r }) (del_loop (e ∷ es) len)
    ]
    else none

-- The bytes of an entry between `qe_bufpos` and `qe_addpos`.
abbrev pub slice : Entry → List ℕ
slice qe = drop qe.bufpos qe.bytes

-- The loop of siqueue_get: at most `n` parts that are not empty.
unfoldable pub get_loop : ℕ → List Entry → List (List ℕ)
get_loop zero es = []
get_loop (suc n) [] = []
get_loop (suc n) (qe ∷ es) = elim (slice qe) [
  | [] ↦ get_loop (suc n) es
  | b ∷ bs ↦ (b ∷ bs) ∷ get_loop n es
]

-- The end of siqueue_get: ENOENT for no part.
unfoldable pub parts_code : List (List ℕ) → Code × List (List ℕ)
parts_code [] = (enoent, [])
parts_code (part ∷ parts) = (ok, part ∷ parts)

-- siqueue_get, with the parts in place of the iovec array.
unfoldable pub siqueue_get : Queue → ℕ → Code × List (List ℕ)
siqueue_get q iov_num = parts_code (get_loop iov_num q.entries)

-- siqueue_free, which leaves `q_tail` and `q_size` as they are
unfoldable pub siqueue_free : Queue → Queue
siqueue_free q = elim q.entries [ [] ↦ q | e ∷ es ↦ record q { entries = []; dangling = true } ]
