-- ===== src/Cache/Shard/Leave.antt =====
-- When a handle leaves the lists, and Erase.
use tleveldb.Base.{
  occ, ℕ, ◌+◌, ◌%◌, ◌^◌, ◌≤◌, ◌≡◌, ◌⊎◌, refl, sym, ap, ◌∙◌, true, false, List, ◌==◌, ==_iff,
  if◌then◌else◌, inl, inr, Bool-cases, arith,
}
use tleveldb.Cache.Shard.{LruHandle, LruCache, without}
use tleveldb.Cache.Shard.Lists.{occ-without, total, total-without, total_frame, without_absent}
use tleveldb.Cache.Shard.Kept.{listed, IsListed, Detached}

module _ (e : ℕ) (c c' : LruCache) (d : Detached e c c') where
  pub occ_after :
      (a : ℕ)
      → (occ a c'.lru ≡ (if a == e then 0 else occ a c.lru))
        × (occ a c'.in_use ≡ (if a == e then 0 else occ a c.in_use))
  occ_after a = (rw d.lru (occ-without a e c.lru), rw d.in_use (occ-without a e c.in_use))

  is_other : (a : ℕ) → 1 ≤ listed c' a → (a == e) ≡ false
  is_other a h = ground (arith, occ_after a)

  pub leave-IsListed : IsListed c → IsListed c'
  leave-IsListed l = record {
    once = λ a. ground (arith, occ_after a, l.once a);
    idle = λ a h.
        rw (d.other a (is_other a (omega (arith, h)))) (l.idle a (ground (arith, occ_after a)));
    busy = λ a h.
        rw (d.other a (is_other a (omega (arith, h)))) (l.busy a (ground (arith, occ_after a)));
    cached = still_cached;
    in_cache = λ a h. rw (d.other a (is_other a h)) (l.in_cache a (ground (arith, occ_after a)));
    charges = λ a h. rw (d.other a (is_other a h)) (l.charges a (ground (arith, occ_after a)));
    refs = λ a h. rw (d.other a (is_other a h)) (l.refs a (ground (arith, occ_after a)));
  }
    where
      still_cached : (a : ℕ) → (c'.handles a).in_cache ≡ true → listed c' a ≡ 1
      still_cached a h = elim (Bool-cases (a == e)) [
        | inl same ↦ cc (d.gone, ap (λ x. (c'.handles x).in_cache) ((==_iff a e).0 same), h)
        | inr other ↦ ground (
          arith,
          occ_after a,
          other,
          l.cached a (ap (λ (x : LruHandle). x.in_cache) (sym (d.other a other)) ∙ h),
        )
      ]

  same_charges :
      (list : List ℕ) → total c'.handles (without e list) ≡ total c.handles (without e list)
  same_charges list =
      total_frame c.handles c'.handles (without e list)
        (λ a h. ap (λ (x : LruHandle). x.charge) (d.other a (ground (arith, occ-without a e list))))

  total_gone :
      (list : List ℕ)
      → occ e list ≡ 1
      → total c'.handles (without e list) + (c.handles e).charge ≡ total c.handles list
  total_gone list h = omega (arith, same_charges list, total-without c.handles e list h)

  total_same :
      (list : List ℕ) → occ e list ≡ 0 → total c'.handles (without e list) ≡ total c.handles list
  total_same list h = same_charges list ∙ ap (total c.handles) (without_absent e list h)

  new_totals :
      (total c'.handles c'.lru + total c'.handles c'.in_use
        ≡ total c'.handles (without e c.lru) + total c'.handles (without e c.in_use))
  new_totals = rw (d.lru, d.in_use) refl

  pub leave_usage :
      IsListed c
      → listed c e ≡ 1
      → c.usage ≡ (total c.handles c.lru + total c.handles c.in_use) % 2 ^ 64
      → c'.usage ≡ (total c'.handles c'.lru + total c'.handles c'.in_use) % 2 ^ 64
  leave_usage l inside u = elim (one_of (occ e c.lru) (occ e c.in_use) inside) [
    | inl (here, nowhere) ↦ omega (
      arith,
      d.usage,
      u,
      new_totals,
      l.charges e (omega (arith, inside)),
      total_gone c.lru here,
      total_same c.in_use nowhere,
    )
    | inr (nowhere, here) ↦ omega (
      arith,
      d.usage,
      u,
      new_totals,
      l.charges e (omega (arith, inside)),
      total_gone c.in_use here,
      total_same c.lru nowhere,
    )
  ]
    where
      one_of : (m n : ℕ) → m + n ≡ 1 → ((m ≡ 1) × (n ≡ 0)) ⊎ ((m ≡ 0) × (n ≡ 1))
      one_of m n h = ground arith
