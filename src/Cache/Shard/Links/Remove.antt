-- ===== src/Cache/Shard/Links/Remove.antt =====
-- LRU_Remove of lib/leveldb/util/cache.cc: a handle leaves the list that the links make.
use mathlib.Core.Path.{subst}
use tleveldb.Base.{occ, ℕ, ◌≤◌, ◌≡◌, ◌≢◌, ◌⊎◌, inl, inr, sym, List, [], ◌∷◌, arith}
use tleveldb.Cache.Shard.{LruCache, without, lru_remove}
use tleveldb.Cache.Shard.Kept.{listed}
use tleveldb.Cache.Shard.Lists.{without_absent, occ-without}
use tleveldb.Cache.Shard.Links.{Links, splice, Linked, IsLinked}

-- Two neighbours stay neighbours when another handle leaves.
splice_pair :
    (e : ℕ) (l : Links) (x y : ℕ)
    → l.prev (l.next e) ≡ e
    → l.next (l.prev e) ≡ e
    → x ≢ e
    → y ≢ e
    → l.next x ≡ y
    → l.prev y ≡ x
    → ((splice e l).next x ≡ y) × ((splice e l).prev y ≡ x)
unfolding splice
splice_pair e l x y forth back x_e y_e n p = (grind arith, grind arith)

same_or_other : (x e : ℕ) → (x ≡ e) ⊎ (x ≢ e)
same_or_other x e = ground arith

head_link : (l : Links) (a : ℕ) (list : List ℕ) (b : ℕ) → Linked l a list b → l.prev (l.next a) ≡ a
unfolding Linked
head_link l a [] b (n, p) = grind arith
head_link l a (x ∷ list) b (n, p, _) = grind arith

-- A handle of a list is the one behind the handle before it, and before the one behind it.
neighbours :
    (e : ℕ) (l : Links) (a : ℕ) (list : List ℕ) (b : ℕ)
    → 1 ≤ occ e list
    → Linked l a list b
    → (l.prev (l.next e) ≡ e) × (l.next (l.prev e) ≡ e)
unfolding Linked occ
neighbours e l a [] b h _ = absurd (omega (arith, h))
neighbours e l a (x ∷ list) b h (n, p, links) = elim (same_or_other x e) [
  | inl same ↦ (grind (arith, head_link l x list b links), grind arith)
  | inr other ↦ neighbours e l x list b (ground (arith, h)) links
]

-- A list that the handle is not in keeps its links.
splice_elsewhere :
    (e : ℕ) (l : Links) (a : ℕ) (list : List ℕ) (b : ℕ)
    → l.prev (l.next e) ≡ e
    → l.next (l.prev e) ≡ e
    → a ≢ e
    → b ≢ e
    → occ e list ≡ 0
    → Linked l a list b
    → Linked (splice e l) a list b
unfolding Linked occ
splice_elsewhere e l a [] b forth back a_e b_e h (n, p) = splice_pair e l a b forth back a_e b_e n p
splice_elsewhere e l a (x ∷ list) b forth back a_e b_e h (n, p, links) =
    let x_e : x ≢ e = grind (arith, h) in
    let (n', p') = splice_pair e l a x forth back a_e x_e n p in
    (n', p', splice_elsewhere e l x list b forth back x_e b_e (omega (arith, h)) links)

-- The handles around one that leaves become neighbours.
bridge :
    (e : ℕ) (l : Links) (a : ℕ) (list : List ℕ) (b : ℕ)
    → l.prev (l.next e) ≡ e
    → l.next (l.prev e) ≡ e
    → l.prev e ≡ a
    → b ≢ e
    → occ e list ≡ 0
    → Linked l e list b
    → Linked (splice e l) a list b
unfolding Linked occ splice
bridge e l a [] b forth back at b_e h (n, p) = (grind arith, grind arith)
bridge e l a (y ∷ list) b forth back at b_e h (n, p, links) = (
  grind arith,
  grind arith,
  splice_elsewhere e l y list b forth back (grind (arith, h)) b_e (omega (arith, h)) links,
)

without_here : (e x : ℕ) (list : List ℕ) → x ≡ e → occ e list ≡ 0 → without e (x ∷ list) ≡ list
unfolding without
without_here e x list same h = ground (arith, same, without_absent e list h)

without_later : (e x : ℕ) (list : List ℕ) → x ≢ e → without e (x ∷ list) ≡ x ∷ without e list
unfolding without
without_later e x list h = ground (arith, h)

-- LRU_Remove takes a handle that is in the list once out of it.
splice-Linked :
    (e : ℕ) (l : Links) (a : ℕ) (list : List ℕ) (b : ℕ)
    → a ≢ e
    → b ≢ e
    → occ e list ≡ 1
    → Linked l a list b
    → Linked (splice e l) a (without e list) b
unfolding Linked occ
splice-Linked e l a [] b a_e b_e h _ = absurd (omega (arith, h))
splice-Linked e l a (x ∷ list) b a_e b_e h (n, p, links) =
    let (forth, back) = neighbours e l a (x ∷ list) b (omega (arith, h)) (n, p, links) in
    elim (same_or_other x e) [
      | inl same ↦
          let absent : occ e list ≡ 0 = ground (arith, h, same) in
          let at_e = subst (λ z. Linked l z list b) same links in
          subst (λ zs. Linked (splice e l) a zs b) (sym (without_here e x list same absent))
            (bridge e l a list b forth back (grind (arith, p, same)) b_e absent at_e)
      | inr other ↦
          let (n', p') = splice_pair e l a x forth back a_e other n p in
          subst (λ zs. Linked (splice e l) a zs b) (sym (without_later e x list other))
            (n', p', splice-Linked e l x list b other b_e (ground (arith, h, other)) links)
    ]

-- The list of a handle loses it, and the other one stays as it is.
remove-Linked :
    (e : ℕ) (l : Links) (head : ℕ) (list : List ℕ)
    → head ≢ e
    → occ e list ≤ 1
    → l.prev (l.next e) ≡ e
    → l.next (l.prev e) ≡ e
    → Linked l head list head
    → Linked (splice e l) head (without e list) head
remove-Linked e l head list head_e h forth back links = elim (same_or_other (occ e list) 1) [
  | inl one ↦ splice-Linked e l head list head head_e head_e one links
  | inr other ↦
      let absent : occ e list ≡ 0 = omega (arith, h, other) in
      subst (λ zs. Linked (splice e l) head zs head) (sym (without_absent e list absent))
        (splice_elsewhere e l head list head forth back head_e head_e absent links)
]

held :
    (e : ℕ) (l : Links) (lru_head in_use_head : ℕ) (c : LruCache)
    → listed c e ≡ 1
    → IsLinked l lru_head in_use_head c
    → (l.prev (l.next e) ≡ e) × (l.next (l.prev e) ≡ e)
held e l lru_head in_use_head c h links = elim (same_or_other (occ e c.lru) 1) [
  | inl one ↦ neighbours e l lru_head c.lru lru_head (omega (arith, one)) links.lru
  | inr other ↦
      neighbours e l in_use_head c.in_use in_use_head (omega (arith, h, other)) links.in_use
]

-- LRU_Remove on the links is lru_remove on the lists, for a handle that is in one of them.
splice-IsLinked :
    (e : ℕ) (l : Links) (lru_head in_use_head : ℕ) (c : LruCache)
    → listed c e ≡ 1
    → IsLinked l lru_head in_use_head c
    → IsLinked (splice e l) lru_head in_use_head (lru_remove e c)
unfolding lru_remove
splice-IsLinked e l lru_head in_use_head c h links =
    let (forth, back) = held e l lru_head in_use_head c h links in
    let lru_e : lru_head ≢ e = grind (arith, h, links.lru_free) in
    let in_use_e : in_use_head ≢ e = grind (arith, h, links.in_use_free) in
    record {
      lru = remove-Linked e l lru_head c.lru lru_e (omega (arith, h)) forth back links.lru;
      in_use =
          remove-Linked e l in_use_head c.in_use in_use_e (omega (arith, h)) forth back
            links.in_use;
      apart = links.apart;
      lru_free =
          ground
            (arith, links.lru_free, occ-without lru_head e c.lru, occ-without lru_head e c.in_use);
      in_use_free = ground (
        arith,
        links.in_use_free,
        occ-without in_use_head e c.lru,
        occ-without in_use_head e c.in_use,
      );
    }
