-- ===== src/Pool/Examples.antt =====
-- appendWrite at a concrete node and buffer.
use tleveldb.Base.{ℕ, ◌+◌, ◌<◌, ◌≤◌, ◌≡◌, ◌⊎◌, true, false, List, [], ◌∷◌, arith, get_or}
use tleveldb.Pool.{Listnode, oid_null, data_size}
use tleveldb.Pool.Node.{append_write, append_write_lem}

abbrev empty_node : Listnode
empty_node = record { bytes = λ i. 0; next = oid_null }

abbrev three_bytes : List ℕ
three_bytes = 11 ∷ 12 ∷ 13 ∷ []

append_write_example :
    (((append_write 1 empty_node 10 three_bytes 3).0 ≡ true)
      × ((append_write 1 empty_node 10 three_bytes 3).2 ≡ 10 + 3)
      × (10 + 3 ≤ data_size)
      × (1 < 3
          → (append_write 1 empty_node 10 three_bytes 3).1.bytes (10 + 1) ≡ get_or three_bytes 1 0)
      × (1 < 10 → (append_write 1 empty_node 10 three_bytes 3).1.bytes 1 ≡ empty_node.bytes 1)
      × (10 + 3 ≤ 1 → (append_write 1 empty_node 10 three_bytes 3).1.bytes 1 ≡ empty_node.bytes 1)
      × ((append_write 1 empty_node 10 three_bytes 3).1.next ≡ empty_node.next))
    ⊎ ((append_write 1 empty_node 10 three_bytes 3 ≡ (false, empty_node, 10))
        × (data_size < 10 + 3))
append_write_example =
    append_write_lem 1 empty_node 10 three_bytes 3 1 (λ h. absurd (omega arith)) (omega arith)
