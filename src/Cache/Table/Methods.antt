-- ===== src/Cache/Table/Methods.antt =====
-- HandleTable against the map from keys to entries that a reader sees.
use Prim.Native.Nat.{max}
use mathlib.Core.List.{flatten}
use native.Mathlib.Nat.{mod-eq_of_lt, pow-suc, mul_assoc, mul_comm}
use tleveldb.Base.{
  ℕ, zero, suc, ◌+◌, ◌-◌, ◌*◌, ◌%◌, ◌^◌, ◌≤◌, ◌<◌, ◌≡◌, refl, sym, ap, ◌∙◌, true, Option, none,
  some, [], if◌then◌else◌, inl, inr, Bool-cases, Option-cases, ltb, length, set, replicate,
  length-set, arith,
}
use tleveldb.Cache.Table.{
  CacheKey, same_key, TableEntry, Chain, HandleTable, find_pointer, replace_at, unlink_at, slot_of,
  bucket_of, double_until, resize, new_table, lookup, put_in, insert, remove,
}
use tleveldb.Cache.Table.Chains.{
  same_key-eq, one_if, count, count-replace_at, find_pointer-replace_at, count-unlink_at,
  find_pointer-unlink_at, length-replace_at, length-unlink_at,
}
use tleveldb.Cache.Table.Buckets.{
  slot_of-lt, length-flatten-set, view, IsPlaced, flatten-view, set-IsPlaced, view-set,
}
use tleveldb.Cache.Table.Moves.{replicate-Holds, move_all-Holds}

-- The invariant: chains are in place, elems_ counts them, and there is a bucket for each.
pub record IsTable (t : HandleTable) : Type 0 where
  pub wide : 4 ≤ length t.list
  pub placed : IsPlaced t.list
  pub counted : length (flatten t.list) ≡ t.elems
  pub sparse : t.elems ≤ length t.list

-- The buckets that a key is found in.
abbrev pub Reads : HandleTable → (CacheKey → Option TableEntry) → Type 0
Reads t f = (q : CacheKey) → view t.list q ≡ f q

double_until-le :
    (fuel elems n : ℕ)
    → 2 ^ 31 ≤ n * 2 ^ fuel
    → elems ≤ 2 ^ 31
    → 4 ≤ n
    → (elems ≤ double_until fuel elems n) × (4 ≤ double_until fuel elems n)
unfolding double_until
double_until-le zero elems n enough small wide = omega (arith, enough)
double_until-le (suc fuel) elems n enough small wide = elim (Bool-cases (ltb n elems)) [
  | inr done ↦ rw done (ground (arith, done), wide)
  | inl more ↦
      rw (more, mod-eq_of_lt {n = n * 2} {m = 2 ^ 32} (below more))
        (double_until-le fuel elems (n * 2) (omega (arith, enough, doubled)) small (omega arith))
]
  where
    below : ltb n elems ≡ true → n * 2 < 2 ^ 32
    below more = ground arith

    doubled : n * 2 ^ suc fuel ≡ n * 2 * 2 ^ fuel
    doubled =
        ap (λ (t : ℕ). n * t) (pow-suc 2 fuel ∙ mul_comm (2 ^ fuel) 2)
        ∙ sym (mul_assoc n 2 (2 ^ fuel))

pub resize-IsTable :
    (t : HandleTable)
    → IsPlaced t.list
    → length (flatten t.list) ≡ t.elems
    → t.elems ≤ 2 ^ 31
    → IsTable (resize t) × Reads (resize t) (view t.list)
unfolding resize
resize-IsTable t placed counted small =
    let (enough, wide) = double_until-le 29 t.elems 4 (omega arith) small (omega arith) in
    let n : ℕ = double_until 29 t.elems 4 in
    let holds =
      move_all-Holds n t.list [] (replicate n []) (replicate-Holds n) (omega arith)
        (λ q. (flatten-view t.list q placed).1) in
    (
      record {
        wide = omega (arith, holds.width);
        placed = holds.placed;
        counted = holds.size ∙ counted;
        sparse = omega (arith, holds.width);
      },
      λ q. holds.reads q ∙ (flatten-view t.list q placed).0,
    )

pub new_table-IsTable : IsTable new_table × Reads new_table (λ q. none)
unfolding new_table view count find_pointer flatten
new_table-IsTable =
    resize-IsTable (record { elems = 0; list = [] })
      (record { once = λ q i. omega arith; home = λ q i other. refl }) refl (omega arith)

pub lookup-view : (t : HandleTable) (k : CacheKey) → lookup t k ≡ view t.list k
unfolding lookup view
lookup-view t k = refl

-- What Insert has to give.
pub record Inserted (t : HandleTable) (h : TableEntry) (r : Option TableEntry × HandleTable)
    : Type 0 where
  pub old : r.0 ≡ view t.list h.key
  pub valid : IsTable r.1
  pub reads : Reads r.1 (λ q. if same_key q h.key then some h else view t.list q)
  pub elems : r.1.elems ≤ t.elems + 1

-- What Remove has to give.
pub record Removed (t : HandleTable) (k : CacheKey) (r : Option TableEntry × HandleTable)
    : Type 0 where
  pub result : r.0 ≡ view t.list k
  pub valid : IsTable r.1
  pub reads : Reads r.1 (λ q. if same_key q k then none else view t.list q)
  pub elems : r.1.elems ≤ t.elems

module _ (t : HandleTable) (table : IsTable t) (h : TableEntry) where
  put_in-lem :
      (elems : ℕ)
      → (elems ≡ (elim (view t.list h.key) as (λ _. ℕ) [ none ↦ t.elems + 1 | some old ↦ t.elems ]))
      → IsPlaced (put_in t h elems).list
        × (length (flatten (put_in t h elems).list) ≡ elems)
        × (length (put_in t h elems).list ≡ length t.list)
        × Reads (put_in t h elems) (λ q. if same_key q h.key then some h else view t.list q)
  unfolding put_in view
  put_in-lem elems e =
      let c : Chain = replace_at h (bucket_of t.list h.key) in
      let few : (q : CacheKey)
          → count q c ≤ max (one_if (same_key q h.key)) (count q (bucket_of t.list h.key)) =
        λ q. count-replace_at q h (bucket_of t.list h.key) in
      (
        set-IsPlaced t.list (omega (arith, table.wide)) table.placed h.key c few,
        ground (
          arith,
          e,
          length-flatten-set t.list (slot_of h.key (length t.list)) c
              (slot_of-lt h.key (length t.list) (omega (arith, table.wide))),
          length-replace_at h (bucket_of t.list h.key),
          table.counted,
        ),
        length-set t.list (slot_of h.key (length t.list)) c,
        view-set t.list (omega (arith, table.wide)) table.placed h.key c few (some h)
            (λ q. find_pointer-replace_at q h (bucket_of t.list h.key)),
      )

  insert-some :
      (old : TableEntry)
      → view t.list h.key ≡ some old
      → insert t h ≡ (some old, put_in t h t.elems)
  unfolding insert view
  insert-some old e = rw (insert, e) refl

  insert-none :
      view t.list h.key ≡ none
      → t.elems < 2 ^ 31
      → insert t h ≡ (
        none,
        if ltb (length t.list) (t.elems + 1)
            then resize (put_in t h (t.elems + 1))
            else put_in t h (t.elems + 1),
      )
  unfolding insert view
  insert-none e small =
      rw (insert, e, mod-eq_of_lt {n = t.elems + 1} {m = 2 ^ 32} (omega arith)) refl

  elems-resize : (u : HandleTable) → (resize u).elems ≡ u.elems
  unfolding resize
  elems-resize u = refl

  elems-put_in : (elems : ℕ) → (put_in t h elems).elems ≡ elems
  unfolding put_in
  elems-put_in elems = refl

  -- Insert of HandleTable, with fewer than 2^31 elements, gives the entry that was under the key
  -- and keeps the table's invariant, elements no more than buckets included, and then the table
  -- reads as the map before it with the key updated, also where it is resized.
  pub insert-Inserted : t.elems < 2 ^ 31 → Inserted t h (insert t h)
  insert-Inserted small = elim (Option-cases (view t.list h.key)) [
    | inr (old, found) ↦
        let (placed, counted, width, reads) = put_in-lem t.elems (rw found) in
        rw (insert-some old found) (record {
          old = sym found;
          valid = record {
            wide = omega (arith, table.wide, width);
            placed = placed;
            counted = counted ∙ sym (elems-put_in t.elems);
            sparse = omega (arith, table.sparse, width, elems-put_in t.elems);
          };
          reads = reads;
          elems = omega (arith, elems-put_in t.elems);
        })
    | inl missing ↦
        let (placed, counted, width, reads) = put_in-lem (t.elems + 1) (rw missing) in
        let same = elems-put_in (t.elems + 1) in
        elim (Bool-cases (ltb (length t.list) (t.elems + 1))) [
          | inl full ↦
              let (table', reads') =
                resize-IsTable (put_in t h (t.elems + 1)) placed (counted ∙ sym same)
                  (omega (arith, same)) in
              rw (insert-none missing small, full)
                (record {
                  old = sym missing;
                  valid = table';
                  reads = λ q. reads' q ∙ reads q;
                  elems = omega (arith, same, elems-resize (put_in t h (t.elems + 1)));
                })
          | inr room ↦
              rw (insert-none missing small, room)
                (record {
                  old = sym missing;
                  valid = record {
                    wide = omega (arith, table.wide, width);
                    placed = placed;
                    counted = counted ∙ sym same;
                    sparse = ground (arith, room, width, same);
                  };
                  reads = reads;
                  elems = omega (arith, same);
                })
        ]
  ]

module _ (t : HandleTable) (table : IsTable t) (k : CacheKey) where
  remove-some :
      (old : TableEntry)
      → view t.list k ≡ some old
      → remove t k ≡ (
        some old,
        record {
          elems = (t.elems + 2 ^ 32 - 1) % 2 ^ 32;
          list = set t.list (slot_of k (length t.list)) (unlink_at k (bucket_of t.list k));
        },
      )
  unfolding remove view
  remove-some old e = rw (remove, e) refl

  remove-none : view t.list k ≡ none → remove t k ≡ (none, t)
  unfolding remove view
  remove-none e = rw (remove, e) refl

  absent : view t.list k ≡ none → Reads t (λ q. if same_key q k then none else view t.list q)
  absent missing q = ground (arith, missing, same_key-eq q k)

  -- Remove takes the entry under a key out and gives it, and changes nothing else.
  pub remove-Removed : t.elems < 2 ^ 32 → Removed t k (remove t k)
  unfolding view
  remove-Removed small = elim (Option-cases (view t.list k)) [
    | inl missing ↦ rw (remove-none missing) (record {
      result = sym missing;
      valid = table;
      reads = absent missing;
      elems = omega arith;
    })
    | inr (old, found) ↦
        let c : Chain = unlink_at k (bucket_of t.list k) in
        let few : (q : CacheKey)
            → count q c ≤ max (one_if (same_key q k)) (count q (bucket_of t.list k)) =
          λ q. omega (arith, count-unlink_at q k (bucket_of t.list k)) in
        let shorter = length-unlink_at k (bucket_of t.list k) old found in
        let flat =
          length-flatten-set t.list (slot_of k (length t.list)) c
            (slot_of-lt k (length t.list) (omega (arith, table.wide))) in
        rw (remove-some old found) (record {
          result = sym found;
          valid = record {
            wide = omega (arith, table.wide, length-set t.list (slot_of k (length t.list)) c);
            placed = set-IsPlaced t.list (omega (arith, table.wide)) table.placed k c few;
            counted = omega (arith, table.counted, flat, shorter);
            sparse = omega (
              arith,
              table.counted,
              flat,
              shorter,
              table.sparse,
              length-set t.list (slot_of k (length t.list)) c,
            );
          };
          reads = view-set t.list (omega (arith, table.wide)) table.placed k c few none (λ q.
              find_pointer-unlink_at q k (bucket_of t.list k)
                (table.placed.once q (slot_of k (length t.list))));
          elems = omega (arith, table.counted, flat, shorter);
        })
  ]
