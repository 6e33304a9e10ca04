-- ===== src/Tests/Queue.antt =====
-- A queue of one entry, with few bytes or with almost as many as an entry has room for.
use efnet_services.Common.{
  ℕ, ◌≡◌, refl, ap, ◌≢◌, inl, inr, ◌-◌, zero, suc, List, [], ◌∷◌, ◌++◌, some, false, take, drop,
  length, replicate, arith,
}
use efnet_services.Queue.{Queue, Entry, Code, ok, siqueue_add, siqueue_del}
use efnet_services.Queue.Bytes.{contents, IsQueue}
use efnet_services.Queue.Fill.{room, pieces, expected}
use efnet_services.Queue.Add.{Stores, spare, siqueue_add-Stores, siqueue_add-repeats}
use efnet_services.Queue.Remove.{siqueue_del-drop}

abbrev few : Queue
few = record {
  size = 3;
  entries = record { bytes = 7 ∷ 8 ∷ 9 ∷ 10 ∷ []; bufpos = 1 } ∷ [];
  dangling = false;
}

few-IsQueue : IsQueue few
unfolding contents
few-IsQueue = record { entries = ((omega arith, omega arith), tt); counted = refl; attached = refl }

abbrev bytes : List ℕ
bytes = 65 ∷ 66 ∷ []

is_entry : List Entry → ℕ
is_entry [] = 0
is_entry (e ∷ es) = 1

few-filled : few.entries ≢ []
unfolding is_entry
few-filled e = absurd (omega (arith, ap is_entry e))

siqueue_add-Stores_example :
    (r : Code × Queue × ℕ) × (siqueue_add 0 few bytes 2 ≡ some r)
    × Stores few bytes 2 few-IsQueue
        (omega arith)
        (omega arith)
        (pieces (spare 0 few.entries) bytes 2 (room few.entries))
        (expected (spare 0 few.entries) 2 (room few.entries))
        r
siqueue_add-Stores_example =
    siqueue_add-Stores few bytes 2 few-IsQueue (omega arith) (omega arith) 0 (omega arith)
      (inr few-filled)

siqueue_del-drop_example :
    (r : Queue) × (siqueue_del few 2 ≡ some r)
    × IsQueue r
    × (contents r.entries ≡ drop 2 (contents few.entries))
siqueue_del-drop_example = siqueue_del-drop few 2 few-IsQueue (omega arith)

abbrev empty : Queue
empty = record { size = 0; entries = []; dangling = false }

empty-IsQueue : IsQueue empty
unfolding contents
empty-IsQueue = record { entries = tt; counted = refl; attached = refl }

length-replicate : (n b : ℕ) → length (replicate n b) ≡ n
length-replicate zero b = refl
length-replicate (suc n) b = ap suc (length-replicate n b)

-- A buffer of one byte more than an entry has room for.
unfoldable long : List ℕ
long = replicate 0x4001 0

length-long : length long ≡ 0x4001
unfolding long
length-long = length-replicate 0x4001 0

siqueue_add-repeats_example :
    (r : Code × Queue × ℕ) × (siqueue_add 2 empty long 0x4001 ≡ some r)
    × Stores empty long 0x4001 empty-IsQueue
        (omega (arith, length-long))
        (omega arith)
        (take (room empty.entries) long ++ take (0x4001 - room empty.entries) long)
        ok
        r
siqueue_add-repeats_example =
    siqueue_add-repeats empty long 0x4001 empty-IsQueue (omega (arith, length-long)) (omega arith) 2
      (omega arith) (inl (omega arith)) (omega arith) (omega arith)
