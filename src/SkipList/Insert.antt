-- ===== src/SkipList/Insert.antt =====
-- lib/leveldb/db/skiplist.h: Insert on all levels.
use Prim.Native.Nat.{Ordering}
use tleveldb.Base.{
  ℕ, zero, suc, ◌≤◌, ◌<◌, ◌≡◌, ◌≢◌, inl, inr, refl, ap, ◌∙◌, Bool, true, false, List, [], ltb,
  Option, some, Bool-cases, if◌then◌else◌, occ, arith,
}
use tleveldb.SkipList.{
  SkipList, head_node, null, is_lt, is_eq, key_is_after_node, set_key, link_levels, raise_prev,
  random_height, insert_after, insert,
}
use tleveldb.SkipList.Chains.{Chain, last_before, place, occ-place, linked, linked-Chain}
use tleveldb.SkipList.Search.{steps_below}
use tleveldb.SkipList.Levels.{IsWeakOrder, IsSkipList, Sorted, random_height-bounds}
use tleveldb.SkipList.Find.{find_greater_or_equal-Located}
use tleveldb.SkipList.Placed.{link_levels-linked, Chain_same, Sorted-same, place-Sorted}

-- The nodes of the levels when `e` has been linked in on the first `height` ones.
abbrev pub with_node : (ℕ → Bool) → ℕ → ℕ → (ℕ → List ℕ) → ℕ → List ℕ
with_node go e height nodes i = if ltb i height then place go e (nodes i) else nodes i

-- The lists of the levels after Insert of a key at the node `e`.
pub record Linked {ℓ} {Key : Type ℓ} (cmp : Key → Key → Ordering) (e : ℕ) (new_key : Key)
    (l : SkipList Key) (nodes : ℕ → List ℕ) (result : Option (SkipList Key)) : Type ℓ where
  pub list : SkipList Key
  pub result_is : result ≡ some list
  pub whole :
      IsSkipList cmp list
        (with_node (λ n. key_is_after_node cmp new_key n l) e (random_height l.rnd).0 nodes)
  pub new_key_is : list.key e ≡ new_key
  pub old_key_is : (a : ℕ) → a ≢ e → list.key a ≡ l.key a

module _ {ℓ} {Key : Type ℓ} (cmp : Key → Key → Ordering) (o : IsWeakOrder cmp) (e : ℕ)
    (new_key : Key) (l : SkipList Key) (nodes : ℕ → List ℕ) (s : IsSkipList cmp l nodes)
    (fresh : 2 ≤ e) (unused : occ e (nodes 0) ≡ 0)
    (apart : (a : ℕ) → 1 ≤ occ a (nodes 0) → is_eq (cmp (l.key a) new_key) ≡ false) where
  abbrev go : ℕ → Bool
  go n = key_is_after_node cmp new_key n l

  abbrev height : ℕ
  height = (random_height l.rnd).0

  lowest_occ : (i a : ℕ) → occ a (nodes i) ≤ occ a (nodes 0)
  lowest_occ zero a = omega arith
  lowest_occ (suc i) a = omega (arith, lowest_occ i a, s.inside i a)

  abbrev key' : ℕ → Key
  key' = set_key e new_key l.key

  key_old : (a : ℕ) → a ≢ e → key' a ≡ l.key a
  unfolding set_key
  key_old a other = ground (arith, other)

  key_new : key' e ≡ new_key
  unfolding set_key
  key_new = ground arith

  not_new : (i a : ℕ) → 1 ≤ occ a (nodes i) → a ≢ e
  not_new i a inside same =
      absurd (omega (arith, inside, lowest_occ i a, unused, ap (λ t. occ t (nodes 0)) same))

  goes_is : (i a : ℕ) → 1 ≤ occ a (nodes i) → go a ≡ is_lt (cmp (key' a) (key' e))
  unfolding key_is_after_node
  goes_is i a inside =
      rw (key_old a (not_new i a inside), key_new) (ground (arith, s.address i a inside))

  placed-Sorted : (i : ℕ) → Sorted cmp key' (place go e (nodes i))
  placed-Sorted i =
      place-Sorted cmp o key' go e (nodes i)
        (Sorted-same cmp l.key key' (nodes i) (λ a h. key_old a (not_new i a h)) (s.sorted i))
        (goes_is i)
        (λ a h.
          rw (key_old a (not_new i a h), key_new) (apart a (omega (arith, h, lowest_occ i a))))

  old-Sorted : (i : ℕ) → Sorted cmp key' (nodes i)
  old-Sorted i =
      Sorted-same cmp l.key key' (nodes i) (λ a h. key_old a (not_new i a h)) (s.sorted i)

  module _ (prev : ℕ → ℕ)
      (before : (i : ℕ) → i < l.max_height → prev i ≡ last_before go head_node (nodes i)) where
    abbrev prev' : ℕ → ℕ
    prev' = if ltb l.max_height height then raise_prev l.max_height height prev else prev

    empty_before : (i : ℕ) → l.max_height ≤ i → last_before go head_node (nodes i) ≡ head_node
    unfolding last_before
    empty_before i h = ap (λ t. last_before go head_node t) (s.high i h)

    prev'-last_before : (i : ℕ) → i < height → prev' i ≡ last_before go head_node (nodes i)
    unfolding raise_prev
    prev'-last_before i h = ground (arith, before i, empty_before i)

    abbrev next' : ℕ → ℕ → ℕ
    next' = link_levels height e prev' l.next

    placed-Chain : (i : ℕ) → i < height → Chain (λ x. next' x i) head_node (place go e (nodes i))
    unfolding occ
    placed-Chain i h =
        Chain_same (λ x. next' x i)
          (linked (last_before go head_node (nodes i)) e (λ x. l.next x i))
          (λ z.
            link_levels-linked height e prev' l.next i z
            ∙ ap (λ (t : Bool). if t then linked (prev' i) e (λ x. l.next x i) z else l.next z i)
                {y = true} (ground (arith, h))
            ∙ ap (λ t. linked t e (λ x. l.next x i) z) (prev'-last_before i h))
          head_node (place go e (nodes i))
          (linked-Chain go (λ x. l.next x i) e head_node (nodes i) (omega (arith, fresh))
            (s.chain i) (λ b. ground (arith, s.once i b, s.address i b))
            (ground (arith, fresh, unused, lowest_occ i e)))

    old-Chain : (i : ℕ) → height ≤ i → Chain (λ x. next' x i) head_node (nodes i)
    old-Chain i h =
        Chain_same (λ x. next' x i) (λ x. l.next x i)
          (λ z.
            link_levels-linked height e prev' l.next i z
            ∙ ap (λ (t : Bool). if t then linked (prev' i) e (λ x. l.next x i) z else l.next z i)
                {y = false} (ground (arith, h)))
          head_node (nodes i) (s.chain i)

    with_node_high : (i : ℕ) → height ≤ i → l.max_height ≤ i → with_node go e height nodes i ≡ []
    with_node_high i above high =
        ap (λ (t : Bool). if t then place go e (nodes i) else nodes i) {y = false}
          (ground (arith, above))
        ∙ s.high i high

    with_node_address : (i a : ℕ) → 1 ≤ occ a (with_node go e height nodes i) → 2 ≤ a
    with_node_address i a h = ground (arith, h, occ-place go a e (nodes i), s.address i a, fresh)

    with_node_once : (i a : ℕ) → occ a (with_node go e height nodes i) ≤ 1
    with_node_once i a =
        ground (arith, occ-place go a e (nodes i), s.once i a, unused, lowest_occ i e)

    with_node_inside :
        (i a : ℕ)
        → occ a (with_node go e height nodes (suc i)) ≤ occ a (with_node go e height nodes i)
    with_node_inside i a =
        ground (arith, occ-place go a e (nodes i), occ-place go a e (nodes (suc i)), s.inside i a)

    abbrev list' : SkipList Key
    list' = insert_after cmp e new_key prev l

    list'-IsSkipList : IsSkipList cmp list' (with_node go e height nodes)
    unfolding insert_after
    list'-IsSkipList = record {
      chain = λ i. elim (Bool-cases (ltb i height)) [
        | inl linked_in ↦ rw linked_in (placed-Chain i (ground (arith, linked_in)))
        | inr above ↦ rw above (old-Chain i (ground (arith, above)))
      ];
      address = with_node_address;
      once = with_node_once;
      inside = with_node_inside;
      sorted = λ i. elim (Bool-cases (ltb i height)) [
        | inl linked_in ↦ rw linked_in (placed-Sorted i)
        | inr above ↦ rw above (old-Sorted i)
      ];
      high = λ i h. with_node_high i (ground (arith, h)) (ground (arith, h));
      low = ground (arith, s.low);
      limit = ground (arith, s.limit, random_height-bounds l.rnd);
    }

  -- With a weak order for the comparator, Insert of a key that no node's key equals, at a fresh
  -- address and with as many steps as the nodes of all levels and the levels need, ends and keeps
  -- the invariant of the skip list: on each level below the random height the new node is linked in
  -- before the first node whose key is not smaller, on the others nothing changes, each level has
  -- nodes of the one below it and all are sorted, and no other key changes.
  pub insert-Linked :
      (fuel : ℕ)
      → steps_below nodes l.max_height ≤ fuel
      → Linked cmp e new_key l nodes (insert cmp fuel e new_key l)
  unfolding insert insert_after
  insert-Linked fuel enough =
      let f = find_greater_or_equal-Located cmp o new_key l nodes s fuel enough (λ i. null) in
      record {
        list = insert_after cmp e new_key f.prev l;
        result_is = rw (insert, f.result_is) refl;
        whole = list'-IsSkipList f.prev f.before;
        new_key_is = key_new;
        old_key_is = key_old;
      }
