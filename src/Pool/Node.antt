-- ===== src/Pool/Node.antt =====
-- listnode::canFit and listnode::appendWrite of include/groupManager.h. A write at an offset of the
-- node is one to its bytes; `next` lies behind them, at offset data_size + 48. That the bytes reach
-- the medium (pmemobj_persist, pmemobj_memcpy) is not followed.
use native.Mathlib.Nat.{mod-eq_of_lt}
use tleveldb.Base.{
  ℕ, ◌⊎◌, inl, inr, Bool-cases, ◌+◌, ◌-◌, ◌%◌, ◌^◌, ◌<◌, ◌≤◌, ◌≡◌, refl, ap, Bool, true, false,
  ◌&&◌, List, ltb, leb, arith, if◌then◌else◌, get_or,
}
use tleveldb.Pool.{Listnode, data_size}

-- `off + size` is a sum of two size_t.
unfoldable pub can_fit : ℕ → ℕ → Bool
can_fit off size = leb ((off + size) % 2 ^ 64) data_size

-- The bytes after `size` bytes of `buf` are copied to `off`.
unfoldable pub write_bytes : (ℕ → ℕ) → ℕ → List ℕ → ℕ → ℕ → ℕ
write_bytes bytes off buf size i =
    if leb off i && ltb i (off + size) then get_or buf (i - off) 0 else bytes i

-- `width` is sizeof(T): an object of more than one byte is stored whole, whatever `size` says. The
-- result has the returned bool, the node and `off`.
unfoldable pub append_write : ℕ → Listnode → ℕ → List ℕ → ℕ → Bool × Listnode × ℕ
unfolding can_fit
append_write width a off buf size =
    if can_fit off size
    then (
      true,
      record a { bytes = write_bytes a.bytes off buf (if ltb 1 width then width else size) },
      (off + size) % 2 ^ 64,
    )
    else (false, a, off)

module _ (bytes : ℕ → ℕ) (off : ℕ) (buf : List ℕ) (size : ℕ) where
  write_bytes-inside :
      (i : ℕ) → i < size → write_bytes bytes off buf size (off + i) ≡ get_or buf i 0
  unfolding write_bytes
  write_bytes-inside i h = ground (arith, ap (λ (t : ℕ). get_or buf t 0) back)
    where
      back : off + i - off ≡ i
      back = omega arith

  write_bytes-before : (i : ℕ) → i < off → write_bytes bytes off buf size i ≡ bytes i
  unfolding write_bytes
  write_bytes-before i h = ground arith

  write_bytes-behind : (i : ℕ) → off + size ≤ i → write_bytes bytes off buf size i ≡ bytes i
  unfolding write_bytes
  write_bytes-behind i h = ground arith

written_size :
    (width size : ℕ) → (1 < width → width ≡ size) → (if ltb 1 width then width else size) ≡ size
written_size width size whole = ground arith

-- appendWrite, called with the size of what it writes where off + size does not wrap, either
-- returns true, with the bytes at the old offset, all others unchanged and the new offset still
-- inside data, or returns false with nothing changed where they would not fit; the next pointer
-- stays.
pub append_write_lem :
    (width : ℕ) (a : Listnode) (off : ℕ) (buf : List ℕ) (size i : ℕ)
    → (1 < width → width ≡ size)
    → off + size < 2 ^ 64
    → (((append_write width a off buf size).0 ≡ true)
        × ((append_write width a off buf size).2 ≡ off + size)
        × (off + size ≤ data_size)
        × (i < size → (append_write width a off buf size).1.bytes (off + i) ≡ get_or buf i 0)
        × (i < off → (append_write width a off buf size).1.bytes i ≡ a.bytes i)
        × (off + size ≤ i → (append_write width a off buf size).1.bytes i ≡ a.bytes i)
        × ((append_write width a off buf size).1.next ≡ a.next))
      ⊎ ((append_write width a off buf size ≡ (false, a, off)) × (data_size < off + size))
unfolding append_write
append_write_lem width a off buf size i whole small = elim (Bool-cases (can_fit off size)) [
  | inl fits ↦
      rw (fits, written_size width size whole, mod-eq_of_lt small)
        (inl (
          refl,
          refl,
          unfold can_fit in ground (arith, mod-eq_of_lt small),
          write_bytes-inside a.bytes off buf size i,
          write_bytes-before a.bytes off buf size i,
          write_bytes-behind a.bytes off buf size i,
          refl,
        ))
  | inr full ↦ rw full (inr (refl, unfold can_fit in ground (arith, mod-eq_of_lt small)))
]
