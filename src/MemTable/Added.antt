-- ===== src/MemTable/Added.antt =====
-- lib/leveldb/db/memtable.cc: Add.
use mathlib.Core.Path.{subst}
use tleveldb.Base.{
  ℕ, ◌+◌, ◌≤◌, ◌≡◌, ◌≢◌, inl, inr, sym, ap, ◌∙◌, Bool, true, false, Option, some, List, [],
  if◌then◌else◌, ◌==◌, ==_iff, Bool-cases, occ, arith,
}
use tleveldb.DbFormat.{UserComparator}
use tleveldb.DbFormat.Order.{key_compare, key_compare-IsOrder}
use tleveldb.Comparator.Order.{IsOrder}
use tleveldb.SkipList.{SkipList, is_eq, set_key, key_is_after_node, random_height}
use tleveldb.SkipList.Chains.{place, occ-place}
use tleveldb.SkipList.Search.{steps_below}
use tleveldb.SkipList.Levels.{random_height-bounds, new_skip_list-IsSkipList}
use tleveldb.SkipList.Contains.{is_eq-eq}
use tleveldb.SkipList.Insert.{with_node, insert-Linked}
use tleveldb.MemTable.{key_comparator, add, new_mem_table}
use tleveldb.MemTable.Entries.{
  Item, IsItem, entry_of, key_comparator-IsWeakOrder, key_comparator-entries,
}
use tleveldb.MemTable.Newest.{IsMemTable}

-- The memtable with one more item, at the node `e`.
pub record Added (user : UserComparator) (e : ℕ) (i : Item) (nodes : ℕ → List ℕ) (items : ℕ → Item)
    (result : Option (SkipList (List ℕ))) : Type 0 where
  pub table : SkipList (List ℕ)
  pub nodes_after : ℕ → List ℕ
  pub result_is : result ≡ some table
  pub whole : IsMemTable user table nodes_after (set_key e i items)
  pub one_more : (a : ℕ) → occ a (nodes_after 0) ≡ occ a (nodes 0) + (if e == a then 1 else 0)

pub new_mem_table-IsMemTable :
    (user : UserComparator) (items : ℕ → Item)
    → IsMemTable user (new_mem_table user) (λ i. []) items
unfolding new_mem_table occ
new_mem_table-IsMemTable user items = record {
  list = new_skip_list-IsSkipList (key_comparator user) [];
  item = λ a h. absurd (omega (arith, h));
  bytes = λ a h. absurd (omega (arith, h));
}

module _ (user : UserComparator) (o : IsOrder user.cmp) (table : SkipList (List ℕ))
    (nodes : ℕ → List ℕ) (items : ℕ → Item) (m : IsMemTable user table nodes items) (e : ℕ)
    (fresh : 2 ≤ e) (unused : occ e (nodes 0) ≡ 0) (i : Item) (is : IsItem i)
    (other_keys : (a : ℕ) → 1 ≤ occ a (nodes 0) → (items a).key ≢ i.key) where
  apart :
      (a : ℕ) → 1 ≤ occ a (nodes 0) → is_eq (key_comparator user (table.key a) (entry_of i)) ≡ false
  apart a inside =
      rw (m.bytes a inside, key_comparator-entries user o (items a) i (m.item a inside) is)
        (elim (Bool-cases (is_eq (key_compare user (items a).key i.key))) [
          | inl same ↦ absurd (
              other_keys a inside (
                (key_compare-IsOrder user o).eq_of_same (items a).key i.key
                  (is_eq-eq (key_compare user (items a).key i.key) same)))
          | inr different ↦ different
        ])

  abbrev nodes' : ℕ → List ℕ
  nodes' =
      with_node (λ n. key_is_after_node (key_comparator user) (entry_of i) n table) e
        (random_height table.rnd).0 nodes

  one_more_node : (a : ℕ) → occ a (nodes' 0) ≡ occ a (nodes 0) + (if e == a then 1 else 0)
  one_more_node a =
      ap (λ (t : Bool). occ a (if t then place go' e (nodes 0) else nodes 0)) {y = true}
        (ground (arith, random_height-bounds table.rnd))
      ∙ occ-place go' a e (nodes 0)
    where
      go' : ℕ → Bool
      go' n = key_is_after_node (key_comparator user) (entry_of i) n table

  item_new : (a : ℕ) → (a == e) ≡ true → set_key e i items a ≡ i
  unfolding set_key
  item_new a new = ap (λ (t : Bool). if t then i else items a) new

  item_old : (a : ℕ) → (a == e) ≡ false → set_key e i items a ≡ items a
  unfolding set_key
  item_old a old = ap (λ (t : Bool). if t then i else items a) old

  was_inside : (a : ℕ) → 1 ≤ occ a (nodes' 0) → (a == e) ≡ false → 1 ≤ occ a (nodes 0)
  was_inside a inside old = ground (arith, inside, old, one_more_node a)

  -- Add of an item whose internal key is not in the memtable, at a fresh address and with enough
  -- steps, ends and leaves a memtable that holds one item more, for a total order of the user's
  -- comparator, a key shorter than 2^32 - 8, a value shorter than 2^32 and a sequence number of 56
  -- bits.
  pub add-Added :
      (fuel : ℕ)
      → steps_below nodes table.max_height ≤ fuel
      → Added user e i nodes items
          (add user fuel e (i.key).sequence (i.key).type (i.key).user_key i.value table)
  unfolding add
  add-Added fuel enough =
      let l =
        insert-Linked (key_comparator user) (key_comparator-IsWeakOrder user o) e (entry_of i) table
          nodes m.list fresh unused apart fuel enough in
      record {
        table = l.list;
        nodes_after = nodes';
        result_is = l.result_is;
        whole = record {
          list = l.whole;
          item = λ a inside. elim (Bool-cases (a == e)) [
            | inl new ↦ subst IsItem (sym (item_new a new)) is
            | inr old ↦ subst IsItem (sym (item_old a old)) (m.item a (was_inside a inside old))
          ];
          bytes = λ a inside. elim (Bool-cases (a == e)) [
            | inl new ↦
                ap l.list.key ((==_iff a e).0 new)
                ∙ l.new_key_is
                ∙ ap entry_of (sym (item_new a new))
            | inr old ↦
                l.old_key_is a (λ same. absurd (ground (arith, old, same)))
                ∙ m.bytes a (was_inside a inside old)
                ∙ ap entry_of (sym (item_old a old))
          ];
        };
        one_more = one_more_node;
      }
