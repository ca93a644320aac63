-- ===== src/SkipList.antt =====
-- lib/leveldb/db/skiplist.h: the skip list of the memtable. A node is its address: 0 is nullptr and
-- 1 is the head. The comparator is the template's parameter.
pub mod Chains
pub mod Search
pub mod Levels
pub mod Find
pub mod Contains
pub mod Last
pub mod Placed
pub mod Insert
mod Examples
use Prim.Native.Nat.{Ordering}
use tleveldb.Base.{
  ℕ, zero, suc, ◌+◌, ◌-◌, Bool, true, false, ◌&&◌, ◌||◌, not, Option, none, some, ltb, leb, ◌==◌,
  if◌then◌else◌,
}
use tleveldb.Random.{new_random, one_in}

abbrev pub null : ℕ
null = 0

abbrev pub head_node : ℕ
head_node = 1

-- kMaxHeight.
abbrev pub max_height_limit : ℕ
max_height_limit = 12

-- The members of the list and of its nodes: `next x i` is next_[i] of the node at `x`.
pub record SkipList {ℓ} (Key : Type ℓ) : Type ℓ where
  pub key : ℕ → Key
  pub next : ℕ → ℕ → ℕ
  pub max_height : ℕ
  pub rnd : ℕ

-- RandomHeight, from `height` on and with `more` levels that may still be added.
unfoldable pub random_height_loop : ℕ → ℕ → ℕ → ℕ × ℕ
unfolding one_in
random_height_loop zero height seed = (height, seed)
random_height_loop (suc more) height seed =
    let (again, seed') = one_in seed 4 in
    let taller = random_height_loop more (height + 1) seed' in
    if again then taller else (height, seed')

unfoldable pub random_height : ℕ → ℕ × ℕ
unfolding random_height_loop
random_height seed = random_height_loop (max_height_limit - 1) 1 seed

-- `prev[level] = x`, and SetNext of a node.
unfoldable pub set_prev : ℕ → ℕ → (ℕ → ℕ) → ℕ → ℕ
set_prev level x prev i = if i == level then x else prev i

unfoldable pub set_next : ℕ → ℕ → ℕ → (ℕ → ℕ → ℕ) → ℕ → ℕ → ℕ
set_next x level y next z i = if (z == x) && (i == level) then y else next z i

-- The loop that makes the head the node before on the levels that are new.
unfoldable pub raise_prev : (max_height height : ℕ) → (ℕ → ℕ) → ℕ → ℕ
raise_prev max_height height prev i = if leb max_height i && ltb i height then head_node else prev i

-- The loop that links the node `e` in on the first `height` levels.
unfoldable pub link_levels : (height e : ℕ) → (ℕ → ℕ) → (ℕ → ℕ → ℕ) → ℕ → ℕ → ℕ
unfolding set_next
link_levels zero e prev next = next
link_levels (suc i) e prev next =
    let linked = link_levels i e prev next in
    set_next (prev i) i e (set_next e i (linked (prev i) i) linked)

unfoldable pub set_key {ℓ} : {Key : Type ℓ} → ℕ → Key → (ℕ → Key) → ℕ → Key
set_key e new_key key x = if x == e then new_key else key x

abbrev pub is_lt : Ordering → Bool
is_lt Ordering.lt = true
is_lt _ = false

abbrev pub is_eq : Ordering → Bool
is_eq Ordering.eq = true
is_eq _ = false

module _ {ℓ} {Key : Type ℓ} (cmp : Key → Key → Ordering) where
  -- The constructor; the key of the head is never read.
  unfoldable pub new_skip_list : Key → SkipList Key
  unfolding new_random
  new_skip_list any_key = record {
    key = λ x. any_key;
    next = λ x i. null;
    max_height = 1;
    rnd = new_random 0xdeadbeef;
  }

  unfoldable pub key_is_after_node : Key → ℕ → SkipList Key → Bool
  key_is_after_node target n l = not (n == null) && is_lt (cmp (l.key n) target)

  -- The loop of FindGreaterOrEqual, on fuel: the node that it returns and what it leaves in `prev`.
  unfoldable pub find_loop : ℕ → Key → SkipList Key → (x level : ℕ) → (ℕ → ℕ) → Option (ℕ × (ℕ → ℕ))
  unfolding key_is_after_node set_prev
  find_loop zero target l x level prev = none
  find_loop (suc fuel) target l x level prev =
      let next = l.next x level in
      elim (key_is_after_node target next l) [
        | true ↦ find_loop fuel target l next level prev
        | false ↦ elim level [
          | zero ↦ some (next, set_prev zero x prev)
          | suc lower ↦ find_loop fuel target l x lower (set_prev (suc lower) x prev)
        ]
      ]

  unfoldable pub find_greater_or_equal : ℕ → Key → SkipList Key → (ℕ → ℕ) → Option (ℕ × (ℕ → ℕ))
  unfolding find_loop
  find_greater_or_equal fuel target l prev =
      find_loop fuel target l head_node (l.max_height - 1) prev

  -- The loop of FindLessThan.
  unfoldable pub less_than_loop : ℕ → Key → SkipList Key → (x level : ℕ) → Option ℕ
  less_than_loop zero target l x level = none
  less_than_loop (suc fuel) target l x level =
      let next = l.next x level in
      elim ((next == null) || not (is_lt (cmp (l.key next) target))) [
        | true ↦ elim level [ zero ↦ some x | suc lower ↦ less_than_loop fuel target l x lower ]
        | false ↦ less_than_loop fuel target l next level
      ]

  unfoldable pub find_less_than : ℕ → Key → SkipList Key → Option ℕ
  unfolding less_than_loop
  find_less_than fuel target l = less_than_loop fuel target l head_node (l.max_height - 1)

  -- The loop of FindLast.
  unfoldable pub last_loop : ℕ → SkipList Key → (x level : ℕ) → Option ℕ
  last_loop zero l x level = none
  last_loop (suc fuel) l x level =
      let next = l.next x level in
      elim (next == null) [
        | true ↦ elim level [ zero ↦ some x | suc lower ↦ last_loop fuel l x lower ]
        | false ↦ last_loop fuel l next level
      ]

  unfoldable pub find_last : ℕ → SkipList Key → Option ℕ
  unfolding last_loop
  find_last fuel l = last_loop fuel l head_node (l.max_height - 1)

  -- What Insert does when the search has ended; the new node is at the address `e`.
  unfoldable pub insert_after : ℕ → Key → (ℕ → ℕ) → SkipList Key → SkipList Key
  unfolding raise_prev link_levels set_key
  insert_after e new_key prev l =
      let (height, seed) = random_height l.rnd in
      let prev' = if ltb l.max_height height then raise_prev l.max_height height prev else prev in
      record {
        key = set_key e new_key l.key;
        next = link_levels height e prev' l.next;
        max_height = if ltb l.max_height height then height else l.max_height;
        rnd = seed;
      }

  unfoldable pub insert : ℕ → ℕ → Key → SkipList Key → Option (SkipList Key)
  unfolding find_greater_or_equal insert_after
  insert fuel e new_key l = elim (find_greater_or_equal fuel new_key l (λ i. null)) [
    | none ↦ none
    | some (x, prev) ↦ some (insert_after e new_key prev l)
  ]

  unfoldable pub contains : ℕ → Key → SkipList Key → Option Bool
  unfolding find_greater_or_equal
  contains fuel target l = elim (find_greater_or_equal fuel target l (λ i. null)) [
    | none ↦ none
    | some (x, prev) ↦ some (not (x == null) && is_eq (cmp target (l.key x)))
  ]

  -- The iterator is its node.
  unfoldable pub iter_valid : ℕ → Bool
  iter_valid node = not (node == null)

  unfoldable pub iter_next : ℕ → SkipList Key → ℕ
  iter_next node l = l.next node 0

  abbrev pub not_head : ℕ → ℕ
  not_head node = if node == head_node then null else node

  unfoldable pub iter_prev : ℕ → ℕ → SkipList Key → Option ℕ
  unfolding find_less_than
  iter_prev fuel node l = elim (find_less_than fuel (l.key node) l) [
    | none ↦ none
    | some x ↦ some (not_head x)
  ]

  unfoldable pub iter_seek : ℕ → Key → SkipList Key → Option ℕ
  unfolding find_greater_or_equal
  iter_seek fuel target l = elim (find_greater_or_equal fuel target l (λ i. null)) [
    | none ↦ none
    | some (x, prev) ↦ some x
  ]

  unfoldable pub iter_seek_to_first : SkipList Key → ℕ
  iter_seek_to_first l = l.next head_node 0

  unfoldable pub iter_seek_to_last : ℕ → SkipList Key → Option ℕ
  unfolding find_last
  iter_seek_to_last fuel l = elim (find_last fuel l) [ none ↦ none | some x ↦ some (not_head x) ]
