-- ===== src/Cache/Shard/Use.antt =====
-- Lookup and Release: a handle goes from one list to the other with its first and its last client.
use tleveldb.Base.{
  occ, ℕ, ◌+◌, ◌-◌, ◌^◌, ◌≤◌, ◌<◌, ◌≡◌, ◌⊎◌, refl, sym, ap, ◌∙◌, true, false, none, some, List, [],
  ◌∷◌, ◌++◌, ◌==◌, ==_iff, inl, inr, Bool-cases, Option-cases, arith,
}
use mathlib.Core.Path.{subst}
use native.Mathlib.Nat.{mod-eq_of_lt}
use tleveldb.Cache.Table.{CacheKey, HandleTable}
use tleveldb.Cache.Table.Buckets.{view}
use tleveldb.Cache.Table.Methods.{lookup-view}
use tleveldb.Cache.Shard.{LruCache, write_handle, without, lru_remove, ref, unref, lookup, release}
use tleveldb.Cache.Shard.Lists.{
  occ-append, occ-without, total, total-append, total-without, total_frame, without_absent,
}
use tleveldb.Cache.Shard.Kept.{listed, IsShard, one_less}

-- A state with the same handles in the cache, in whichever list, and with other counts of
-- references.
record Regrouped (c c' : LruCache) : Type 0 where
  table : c'.table ≡ c.table
  usage : c'.usage ≡ c.usage
  same : (a : ℕ) → listed c' a ≡ listed c a
  key : (a : ℕ) → (c'.handles a).key ≡ (c.handles a).key
  charge : (a : ℕ) → (c'.handles a).charge ≡ (c.handles a).charge
  in_cache : (a : ℕ) → (c'.handles a).in_cache ≡ (c.handles a).in_cache
  idle : (a : ℕ) → 1 ≤ occ a c'.lru → (c'.handles a).refs ≡ 1
  busy : (a : ℕ) → 1 ≤ occ a c'.in_use → 2 ≤ (c'.handles a).refs
  fits : (a : ℕ) → 1 ≤ listed c a → (c'.handles a).refs < 2 ^ 32
  totals :
      total c.handles c'.lru + total c.handles c'.in_use
      ≡ total c.handles c.lru + total c.handles c.in_use

Regrouped-IsShard : (c c' : LruCache) → IsShard c → Regrouped c c' → IsShard c'
Regrouped-IsShard c c' s r = record {
  lists = record {
    once = λ a. rw (r.same a) (s.lists.once a);
    idle = r.idle;
    busy = r.busy;
    cached = λ a h. rw (r.same a) (s.lists.cached a (sym (r.in_cache a) ∙ h));
    in_cache = λ a h. r.in_cache a ∙ s.lists.in_cache a (omega (arith, h, r.same a));
    charges = λ a h. rw (r.charge a) (s.lists.charges a (omega (arith, h, r.same a)));
    refs = λ a h. r.fits a (omega (arith, h, r.same a));
  };
  index = record {
    table = rw r.table s.index.table;
    few = rw r.table s.index.few;
    named = λ q t e.
        let (inside, named) =
          s.index.named q t (ap (λ (u : HandleTable). view u.list q) (sym r.table) ∙ e) in
        (r.same t.handle ∙ inside, r.key t.handle ∙ named);
    entered = λ a h. rw (r.table, r.key a) (s.index.entered a (omega (arith, h, r.same a)));
  };
  usage = omega (
    arith,
    r.usage,
    s.usage,
    r.totals,
    total_frame c.handles c'.handles c'.lru (λ a h. r.charge a),
    total_frame c.handles c'.handles c'.in_use (λ a h. r.charge a),
  );
}

-- A client gets a reference to a handle of the cache, which is in use then.
pub record Referenced (e : ℕ) (c c' : LruCache) : Type 0 where
  pub shard : IsShard c'
  pub in_use : 1 ≤ occ e c'.in_use
  pub refs : (c'.handles e).refs ≡ (c.handles e).refs + 1
  pub value : (c'.handles e).value ≡ (c.handles e).value
  pub table : c'.table ≡ c.table

-- A client gives its reference up; a handle that no client uses any more becomes the newest of those
-- that may be removed.
pub record Released (e : ℕ) (c c' : LruCache) : Type 0 where
  pub shard : IsShard c'
  pub refs : (c'.handles e).refs + 1 ≡ (c.handles e).refs
  pub table : c'.table ≡ c.table
  pub newest : (c'.lru ≡ c.lru) ⊎ (((c.handles e).refs ≡ 2) × (c'.lru ≡ c.lru ++ (e ∷ [])))

module _ (e : ℕ) (c : LruCache) (s : IsShard c) (inside : listed c e ≡ 1) where
  -- A handle that no client uses becomes one that is used.
  module _ (alone : (c.handles e).refs ≡ 1) where
    in_lru : (occ e c.lru ≡ 1) × (occ e c.in_use ≡ 0)
    in_lru = ground (arith, inside, alone, s.lists.busy e)

    abbrev taken : LruCache
    taken = record c {
      lru = without e c.lru;
      in_use = without e c.in_use ++ (e ∷ []);
      handles = write_handle c.handles e (record (c.handles e) { refs = 2 });
    }

    taken-Regrouped : Regrouped c taken
    taken-Regrouped = record {
      table = refl;
      usage = refl;
      same = λ a. ground (
        arith,
        inside,
        in_lru,
        occ-without a e c.lru,
        occ-without a e c.in_use,
        occ-append a e (without e c.in_use),
      );
      key = λ a. ground arith;
      charge = λ a. ground arith;
      in_cache = λ a. ground arith;
      idle = λ a h. ground (
        arith,
        inside,
        in_lru,
        occ-without a e c.lru,
        occ-without a e c.in_use,
        occ-append a e (without e c.in_use),
        s.lists.idle a,
      );
      busy = λ a h. ground (
        arith,
        inside,
        in_lru,
        occ-without a e c.lru,
        occ-without a e c.in_use,
        occ-append a e (without e c.in_use),
        s.lists.busy a,
      );
      fits = λ a h. ground (arith, s.lists.refs a h);
      totals = omega (
        arith,
        total-append c.handles e (without e c.in_use),
        total-without c.handles e c.lru in_lru.0,
        ap (total c.handles) (without_absent e c.in_use in_lru.1),
      );
    }

    ref-taken : (c.handles e).in_cache ≡ true → ref e c ≡ taken
    unfolding ref lru_remove
    ref-taken present = rw (ref, alone, present) refl

  -- A handle that one client used goes back to the end of the list of those that none uses.
  module _ (last : (c.handles e).refs ≡ 2) where
    in_use : (occ e c.lru ≡ 0) × (occ e c.in_use ≡ 1)
    in_use = ground (arith, inside, last, s.lists.idle e)

    abbrev returned : LruCache
    returned = record c {
      lru = without e c.lru ++ (e ∷ []);
      in_use = without e c.in_use;
      handles = write_handle c.handles e (record (c.handles e) { refs = 1 });
    }

    returned-Regrouped : Regrouped c returned
    returned-Regrouped = record {
      table = refl;
      usage = refl;
      same = λ a. ground (
        arith,
        inside,
        in_use,
        occ-without a e c.lru,
        occ-without a e c.in_use,
        occ-append a e (without e c.lru),
      );
      key = λ a. ground arith;
      charge = λ a. ground arith;
      in_cache = λ a. ground arith;
      idle = λ a h. ground (
        arith,
        inside,
        in_use,
        occ-without a e c.lru,
        occ-without a e c.in_use,
        occ-append a e (without e c.lru),
        s.lists.idle a,
      );
      busy = λ a h. ground (
        arith,
        inside,
        in_use,
        occ-without a e c.lru,
        occ-without a e c.in_use,
        occ-append a e (without e c.lru),
        s.lists.busy a,
      );
      fits = λ a h. ground (arith, s.lists.refs a h);
      totals = omega (
        arith,
        total-append c.handles e (without e c.lru),
        total-without c.handles e c.in_use in_use.1,
        ap (total c.handles) (without_absent e c.lru in_use.0),
      );
    }

    unref-returned : (c.handles e).in_cache ≡ true → unref e c ≡ returned
    unfolding unref lru_remove
    unref-returned present = rw (unref, last, present) refl

  -- A handle that clients use and go on to use.
  module _ (n : ℕ) (used : 2 ≤ (c.handles e).refs) (some_use : 2 ≤ n) (fits : n < 2 ^ 32) where
    stays_in_use : (occ e c.lru ≡ 0) × (occ e c.in_use ≡ 1)
    stays_in_use = ground (arith, inside, used, s.lists.idle e)

    abbrev counted : LruCache
    counted = record c { handles = write_handle c.handles e (record (c.handles e) { refs = n }) }

    counted-Regrouped : Regrouped c counted
    counted-Regrouped = record {
      table = refl;
      usage = refl;
      same = λ a. refl;
      key = λ a. ground arith;
      charge = λ a. ground arith;
      in_cache = λ a. ground arith;
      idle = λ a h. ground (arith, stays_in_use, s.lists.idle a);
      busy = λ a h. ground (arith, s.lists.busy a);
      fits = λ a h. ground (arith, s.lists.refs a h);
      totals = refl;
    }

  ref-counted :
      2 ≤ (c.handles e).refs
      → (c.handles e).refs + 1 < 2 ^ 32
      → ref e c ≡ record c {
        handles = write_handle c.handles e (record (c.handles e) { refs = (c.handles e).refs + 1 });
      }
  unfolding ref
  ref-counted used fits =
      rw
        (
          ref,
          not_one (c.handles e).refs used,
          mod-eq_of_lt {n = (c.handles e).refs + 1} {m = 2 ^ 32} fits,
        )
        refl
    where
      not_one : (n : ℕ) → 2 ≤ n → (n == 1) ≡ false
      not_one n h = ground arith

  unref-counted :
      3 ≤ (c.handles e).refs
      → (c.handles e).refs < 2 ^ 32
      → unref e c ≡ record c {
        handles = write_handle c.handles e (record (c.handles e) { refs = (c.handles e).refs - 1 });
      }
  unfolding unref
  unref-counted used fits =
      rw (unref, one_less (c.handles e).refs (omega arith) fits) (ground arith)

  pub ref-Referenced : (c.handles e).refs + 1 < 2 ^ 32 → Referenced e c (ref e c)
  ref-Referenced fits = elim (Bool-cases ((c.handles e).refs == 1)) [
    | inl alone ↦
        let one : (c.handles e).refs ≡ 1 = (==_iff (c.handles e).refs 1).0 alone in
        subst (Referenced e c) (sym (ref-taken one (s.lists.in_cache e (omega (arith, inside)))))
          (record {
            shard = Regrouped-IsShard c (taken one) s (taken-Regrouped one);
            in_use = ground (arith, occ-append e e (without e c.in_use));
            refs = ground (arith, one);
            value = ground arith;
            table = refl;
          })
    | inr more ↦
        let used : 2 ≤ (c.handles e).refs =
          ground (arith, more, inside, s.lists.idle e, s.lists.busy e) in
        subst (Referenced e c) (sym (ref-counted used fits)) (record {
          shard =
              Regrouped-IsShard c _ s
                (counted-Regrouped ((c.handles e).refs + 1) used (omega (arith, used)) fits);
          in_use =
              omega
                (arith, (stays_in_use ((c.handles e).refs + 1) used (omega (arith, used)) fits).1);
          refs = ground arith;
          value = ground arith;
          table = refl;
        })
  ]

  -- Release of a handle in the cache, to which a client has a reference, keeps the invariant of the
  -- shard and counts one reference less; if no client uses the handle any more it becomes the
  -- newest of those that may be removed.
  pub release-Released : 2 ≤ (c.handles e).refs → Released e c (release e c)
  unfolding release
  release-Released used = elim (Bool-cases ((c.handles e).refs == 2)) [
    | inl two ↦
        let last : (c.handles e).refs ≡ 2 = (==_iff (c.handles e).refs 2).0 two in
        subst (Released e c)
          (sym (unref-returned last (s.lists.in_cache e (omega (arith, inside)))))
          (record {
            shard = Regrouped-IsShard c (returned last) s (returned-Regrouped last);
            refs = ground (arith, last);
            table = refl;
            newest =
                inr (
                  last,
                  ap (λ (l : List ℕ). l ++ (e ∷ [])) (without_absent e c.lru (in_use last).0),
                );
          })
    | inr more ↦
        let three : 3 ≤ (c.handles e).refs = ground (arith, more, used) in
        let fits = s.lists.refs e (omega (arith, inside)) in
        subst (Released e c) (sym (unref-counted three fits)) (record {
          shard = Regrouped-IsShard c _ s (
              counted-Regrouped ((c.handles e).refs - 1) used (omega (arith, three))
                (omega (arith, fits)));
          refs = ground (arith, three);
          table = refl;
          newest = inl refl;
        })
  ]

-- Lookup of a key gives none, and changes nothing, if the table has no handle under the key; and
-- otherwise gives this handle, with one reference more.
pub lookup_lem :
    (k : CacheKey) (c : LruCache)
    → IsShard c
    → ((a : ℕ) → (c.handles a).refs + 1 < 2 ^ 32)
    → ((view c.table.list k ≡ none) × (lookup k c ≡ (none, c)))
      ⊎ ((e : ℕ) × (view c.table.list k ≡ some (record { key = k; handle = e }))
          × ((lookup k c).0 ≡ some e)
          × Referenced e c (lookup k c).1)
unfolding lookup
lookup_lem k c s fits = elim (Option-cases (view c.table.list k)) [
  | inl missing ↦ inl (missing, rw (lookup, lookup-view c.table k ∙ missing) refl)
  | inr (t, found) ↦
      let (inside, named) = s.index.named k t found in
      inr (
        t.handle,
        subst (λ q. view c.table.list q ≡ some (record { key = q; handle = t.handle })) named
            (s.index.entered t.handle (omega (arith, inside))),
        rw (lookup, lookup-view c.table k ∙ found) refl,
        rw (lookup, lookup-view c.table k ∙ found)
            (ref-Referenced t.handle c s inside (fits t.handle)),
      )
]
