-- ===== src/Cache/Shard/Links/Append.antt =====
-- LRU_Append of lib/leveldb/util/cache.cc: a handle becomes the last one of the list that the links
-- make.
use tleveldb.Base.{occ, ℕ, ◌≡◌, ◌≢◌, sym, List, [], ◌∷◌, ◌++◌, arith}
use tleveldb.Cache.Shard.{LruCache}
use tleveldb.Cache.Shard.Kept.{listed}
use tleveldb.Cache.Shard.Lists.{occ-append}
use tleveldb.Cache.Shard.Links.{Links, link_before, Linked, IsLinked}

last_link : (l : Links) (a : ℕ) (list : List ℕ) (b : ℕ) → Linked l a list b → l.next (l.prev b) ≡ b
unfolding Linked
last_link l a [] b (n, p) = grind arith
last_link l a (x ∷ list) b (_, _, links) = last_link l x list b links

-- Two neighbours stay neighbours when a new handle is put before a head that is neither.
append_pair :
    (head e : ℕ) (l : Links) (x y : ℕ)
    → l.next (l.prev head) ≡ head
    → head ≢ e
    → x ≢ e
    → y ≢ e
    → y ≢ head
    → l.next x ≡ y
    → l.prev y ≡ x
    → ((link_before head e l).next x ≡ y) × ((link_before head e l).prev y ≡ x)
unfolding link_before
append_pair head e l x y ring head_e x_e y_e y_head n p = (grind arith, grind arith)

append_elsewhere :
    (head e : ℕ) (l : Links) (a : ℕ) (list : List ℕ) (b : ℕ)
    → l.next (l.prev head) ≡ head
    → head ≢ e
    → a ≢ e
    → b ≢ e
    → b ≢ head
    → occ e list ≡ 0
    → occ head list ≡ 0
    → Linked l a list b
    → Linked (link_before head e l) a list b
unfolding Linked occ
append_elsewhere head e l a [] b ring head_e a_e b_e b_head h k (n, p) =
    append_pair head e l a b ring head_e a_e b_e b_head n p
append_elsewhere head e l a (x ∷ list) b ring head_e a_e b_e b_head h k (n, p, links) =
    let x_e : x ≢ e = grind (arith, h) in
    let x_head : x ≢ head = grind (arith, k) in
    let (n', p') = append_pair head e l a x ring head_e a_e x_e x_head n p in
    let h' : occ e list ≡ 0 = omega (arith, h) in
    let k' : occ head list ≡ 0 = omega (arith, k) in
    (n', p', append_elsewhere head e l x list b ring head_e x_e b_e b_head h' k' links)

-- LRU_Append puts a handle that is not in the list at its end.
link_before-Linked :
    (head e : ℕ) (l : Links) (a : ℕ) (list : List ℕ)
    → head ≢ e
    → a ≢ e
    → occ e list ≡ 0
    → occ head list ≡ 0
    → Linked l a list head
    → Linked (link_before head e l) a (list ++ (e ∷ [])) head
unfolding Linked occ link_before
link_before-Linked head e l a [] head_e a_e h k (n, p) =
    (grind arith, grind arith, (grind arith, grind arith))
link_before-Linked head e l a (x ∷ list) head_e a_e h k (n, p, links) =
    let x_e : x ≢ e = grind (arith, h) in
    let x_head : x ≢ head = grind (arith, k) in
    let ring = last_link l x list head links in
    let (n', p') = append_pair head e l a x ring head_e a_e x_e x_head n p in
    let h' : occ e list ≡ 0 = omega (arith, h) in
    let k' : occ head list ≡ 0 = omega (arith, k) in
    (n', p', link_before-Linked head e l x list head_e x_e h' k' links)

-- LRU_Append to in_use_ on the links is what ref and Insert do to the lists.
link_before-in_use :
    (e : ℕ) (l : Links) (lru_head in_use_head : ℕ) (c : LruCache)
    → listed c e ≡ 0
    → lru_head ≢ e
    → in_use_head ≢ e
    → IsLinked l lru_head in_use_head c
    → IsLinked
        (link_before in_use_head e l)
        lru_head
        in_use_head
        (record c { in_use = c.in_use ++ (e ∷ []) })
link_before-in_use e l lru_head in_use_head c h lru_e in_use_e links =
    let ring = last_link l in_use_head c.in_use in_use_head links.in_use in
    let h_lru : occ e c.lru ≡ 0 = omega (arith, h) in
    let h_in_use : occ e c.in_use ≡ 0 = omega (arith, h) in
    let k_lru : occ in_use_head c.lru ≡ 0 = omega (arith, links.in_use_free) in
    let k_in_use : occ in_use_head c.in_use ≡ 0 = omega (arith, links.in_use_free) in
    record {
      lru =
          append_elsewhere in_use_head e l lru_head c.lru lru_head ring in_use_e lru_e lru_e
            links.apart h_lru k_lru links.lru;
      in_use =
          link_before-Linked in_use_head e l in_use_head c.in_use in_use_e in_use_e h_in_use
            k_in_use links.in_use;
      apart = links.apart;
      lru_free = ground (arith, lru_e, links.lru_free, occ-append lru_head e c.in_use);
      in_use_free = ground (arith, in_use_e, links.in_use_free, occ-append in_use_head e c.in_use);
    }

-- LRU_Append to lru_ on the links is what unref does to the lists.
link_before-lru :
    (e : ℕ) (l : Links) (lru_head in_use_head : ℕ) (c : LruCache)
    → listed c e ≡ 0
    → lru_head ≢ e
    → in_use_head ≢ e
    → IsLinked l lru_head in_use_head c
    → IsLinked
        (link_before lru_head e l)
        lru_head
        in_use_head
        (record c { lru = c.lru ++ (e ∷ []) })
link_before-lru e l lru_head in_use_head c h lru_e in_use_e links =
    let ring = last_link l lru_head c.lru lru_head links.lru in
    let h_lru : occ e c.lru ≡ 0 = omega (arith, h) in
    let h_in_use : occ e c.in_use ≡ 0 = omega (arith, h) in
    let k_lru : occ lru_head c.lru ≡ 0 = omega (arith, links.lru_free) in
    let k_in_use : occ lru_head c.in_use ≡ 0 = omega (arith, links.lru_free) in
    record {
      lru = link_before-Linked lru_head e l lru_head c.lru lru_e lru_e h_lru k_lru links.lru;
      in_use =
          append_elsewhere lru_head e l in_use_head c.in_use in_use_head ring lru_e in_use_e
            in_use_e (λ same. links.apart (sym same)) h_in_use k_in_use links.in_use;
      apart = links.apart;
      lru_free = ground (arith, lru_e, links.lru_free, occ-append lru_head e c.lru);
      in_use_free = ground (arith, in_use_e, links.in_use_free, occ-append in_use_head e c.lru);
    }
