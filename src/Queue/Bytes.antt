-- ===== src/Queue/Bytes.antt =====
-- The bytes that a queue holds.
use efnet_services.Common.{ℕ, ◌≡◌, ◌≤◌, false, List, [], ◌∷◌, ◌++◌, length, All}
use efnet_services.Queue.{Queue, Entry, capacity, slice}

-- In the order in which they leave it.
unfoldable pub contents : List Entry → List ℕ
contents [] = []
contents (qe ∷ es) = slice qe ++ contents es

abbrev pub IsEntry : Entry → Type 0
IsEntry qe = (qe.bufpos ≤ length qe.bytes) × (length qe.bytes ≤ capacity)

-- The offsets of each entry are in its buffer, `q_size` counts the bytes of all, and `q_tail` is
-- good.
pub record IsQueue (q : Queue) : Type 0 where
  pub entries : All IsEntry q.entries
  pub counted : q.size ≡ length (contents q.entries)
  pub attached : q.dangling ≡ false
