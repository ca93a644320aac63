-- ===== src/VersionSet/Closed.antt =====
-- GetOverlappingInputs ends, and the files of level 0 that it gives do not reach out of a range that
-- holds the range asked for, and are all that overlap it.
use mathlib.Core.Path.{subst}
use mathlib.Core.Option.{some-injective}
use tleveldb.Base.{
  ℕ, zero, suc, ◌+◌, ◌*◌, ◌<◌, ◌≡◌, refl, ap, ◌∙◌, Bool, true, false, Option, none, some, List, [],
  ◌∷◌, All, if◌then◌else◌, length, get_elem?, inl, inr, Bool-cases, arith,
}
use tleveldb.Comparator.Order.{IsOrder}
use tleveldb.DbFormat.{UserComparator, extract_user_key}
use tleveldb.VersionEdit.{FileMetaData}
use tleveldb.VersionSet.Inputs.{
  below, above, is_skipped, inputs_loop, user_key_of_bound, get_overlapping_inputs,
}
use tleveldb.VersionSet.Rounds.{
  count_where, count_where-less, count_where-length, select, IsInside, Outcome, scan_files-Outcome,
}

module _ (user : UserComparator) where
  -- The ends of files that reach out of a range; each restart has fewer.
  outside : Option (List ℕ) → Option (List ℕ) → List FileMetaData → ℕ
  outside begin end files =
      count_where (λ f. below user (extract_user_key f.smallest) begin) files
      + count_where (λ f. above user (extract_user_key f.largest) end) files

  -- A range holds another one: what is below its begin is below that of the other, and so above.
  pub record Holds (begin end begin' end' : Option (List ℕ)) : Type 0 where
    pub low : (key : List ℕ) → below user key begin ≡ true → below user key begin' ≡ true
    pub high : (key : List ℕ) → above user key end ≡ true → above user key end' ≡ true

  -- A closed range: no file that overlaps it reaches out of it.
  abbrev pub IsClosed : List FileMetaData → Option (List ℕ) → Option (List ℕ) → Type 0
  IsClosed files begin end = All (IsInside user begin end) (select user begin end files)

  -- The least closed range that holds another one, with what the rounds give of the files.
  pub record Closure (files : List FileMetaData) (begin end : Option (List ℕ))
      (result : Option (List FileMetaData)) : Type 0 where
    pub begin' : Option (List ℕ)
    pub end' : Option (List ℕ)
    pub chosen : result ≡ some (select user begin' end' files)
    pub closed : IsClosed files begin' end'
    pub holds : Holds begin' end' begin end
    pub least :
        (b e : Option (List ℕ)) → IsClosed files b e → Holds b e begin end → Holds b e begin' end'

  module _ (order : IsOrder user.cmp) where
    below_trans :
        (key start : List ℕ) (begin : Option (List ℕ))
        → below user start begin ≡ true
        → below user key (some start) ≡ true
        → below user key begin ≡ true
    below_trans key start none e e' = e
    below_trans key start (some x) e e' = ground (arith, order.trans key start x)

    above_trans :
        (key limit : List ℕ) (end : Option (List ℕ))
        → above user limit end ≡ true
        → above user key (some limit) ≡ true
        → above user key end ≡ true
    above_trans key limit none e e' = e
    above_trans key limit (some x) e e' = ground (
      arith,
      order.trans x limit key,
      order.swap_back key limit,
      order.swap_back limit x,
      order.swap x key,
    )

    not_below_itself : (key : List ℕ) → below user key (some key) ≡ false
    not_below_itself key = ground (arith, order.same key)

    not_above_itself : (key : List ℕ) → above user key (some key) ≡ false
    not_above_itself key = ground (arith, order.same key)

    above_not_below :
        (key start : List ℕ) (begin : Option (List ℕ))
        → below user key begin ≡ true
        → below user start begin ≡ false
        → below user key (some start) ≡ true
    above_not_below key start none e e' = absurd (ground arith)
    above_not_below key start (some x) e e' =
        ground (arith, order.trans key x start, order.swap_back start x, order.eq_of_same start x)

    below_not_above :
        (key limit : List ℕ) (end : Option (List ℕ))
        → above user key end ≡ true
        → above user limit end ≡ false
        → above user key (some limit) ≡ true
    below_not_above key limit none e e' = absurd (ground arith)
    below_not_above key limit (some x) e e' = ground (
      arith,
      order.trans limit x key,
      order.swap_back key x,
      order.eq_of_same limit x,
      order.swap limit key,
    )

    -- A file that overlaps a range overlaps each range that holds it.
    still_overlaps :
        (begin end begin' end' : Option (List ℕ)) (f : FileMetaData)
        → Holds begin' end' begin end
        → is_skipped user begin end f ≡ false
        → is_skipped user begin' end' f ≡ false
    unfolding is_skipped
    still_overlaps begin end begin' end' f holds met = ground (
      arith,
      met,
      holds.low (extract_user_key f.largest),
      holds.high (extract_user_key f.smallest),
    )

    abbrev Selected :
        Option (List ℕ) → Option (List ℕ) → FileMetaData → List FileMetaData → Bool → Type 0
    Selected begin end g files skipped =
        All (IsInside user begin end)
          (if skipped then select user begin end files else g ∷ select user begin end files)

    selected-IsInside :
        (begin end : Option (List ℕ)) (files : List FileMetaData) (i : ℕ) (f : FileMetaData)
        → get_elem? files i ≡ some f
        → is_skipped user begin end f ≡ false
        → All (IsInside user begin end) (select user begin end files)
        → IsInside user begin end f
    unfolding select
    selected-IsInside begin end [] i f at met inside = absurd (ground arith)
    selected-IsInside begin end (g ∷ files) zero f at met inside =
        let same = some-injective g f at in
        subst (IsInside user begin end) same
          (subst (Selected begin end g files) (ap (is_skipped user begin end) same ∙ met) inside).0
    selected-IsInside begin end (g ∷ files) (suc i) f at met inside =
        elim (Bool-cases (is_skipped user begin end g)) [
          | inl skipped ↦
              selected-IsInside begin end files i f at met
                (subst (Selected begin end g files) skipped inside)
          | inr taken ↦
              selected-IsInside begin end files i f at met
                (subst (Selected begin end g files) taken inside).1
        ]

    lower_begin :
        (files : List FileMetaData) (begin end b e : Option (List ℕ)) (i : ℕ) (f : FileMetaData)
        → get_elem? files i ≡ some f
        → is_skipped user begin end f ≡ false
        → IsClosed files b e
        → Holds b e begin end
        → Holds b e (some (extract_user_key f.smallest)) end
    lower_begin files begin end b e i f at met closed holds = record {
      low = λ key l.
          above_not_below key (extract_user_key f.smallest) b l
            (selected-IsInside b e files i f at (still_overlaps begin end b e f holds met)
              closed).0;
      high = holds.high;
    }

    raise_end :
        (files : List FileMetaData) (begin end b e : Option (List ℕ)) (i : ℕ) (f : FileMetaData)
        → get_elem? files i ≡ some f
        → is_skipped user begin end f ≡ false
        → IsClosed files b e
        → Holds b e begin end
        → Holds b e begin (some (extract_user_key f.largest))
    raise_end files begin end b e i f at met closed holds = record {
      low = holds.low;
      high = λ key h.
          below_not_above key (extract_user_key f.largest) e h
            (selected-IsInside b e files i f at (still_overlaps begin end b e f holds met)
              closed).1;
    }

    inputs_loop-Closure :
        (fuel : ℕ) (files : List FileMetaData) (begin end : Option (List ℕ))
        → outside begin end files < fuel
        → Closure files begin end (inputs_loop user fuel true files begin end)
    unfolding inputs_loop outside Outcome
    inputs_loop-Closure zero files begin end h = absurd (omega arith)
    inputs_loop-Closure (suc fuel) files begin end h =
        elim (scan_files-Outcome user begin end files []) [
          | inl (done, inside) ↦ record {
            begin' = begin;
            end' = end;
            chosen = rw (inputs_loop, done) refl;
            closed = inside;
            holds = record { low = λ key e. e; high = λ key e. e };
            least = λ b e closed holds. holds;
          }
          | inr (i, f, at, met, inl (low, e)) ↦
              let fewer : outside (some (extract_user_key f.smallest)) end files
                  < outside begin end files =
                omega (
                  arith,
                  count_where-less
                      (λ g.
                        below user (extract_user_key g.smallest)
                          (some (extract_user_key f.smallest)))
                      (λ g. below user (extract_user_key g.smallest) begin)
                      (λ g.
                        below_trans (extract_user_key g.smallest) (extract_user_key f.smallest)
                          begin low)
                      files i f at (not_below_itself (extract_user_key f.smallest)) low,
                ) in
              let c =
                inputs_loop-Closure fuel files (some (extract_user_key f.smallest)) end
                  (omega (arith, fewer)) in
              record {
                begin' = c.begin';
                end' = c.end';
                chosen = rw (inputs_loop, e) c.chosen;
                closed = c.closed;
                holds = record {
                  low = λ key l.
                      below_trans key (extract_user_key f.smallest) begin low (c.holds.low key l);
                  high = c.holds.high;
                };
                least = λ b e closed holds.
                    c.least b e closed (lower_begin files begin end b e i f at met closed holds);
              }
          | inr (i, f, at, met, inr (high, e)) ↦
              let fewer : outside begin (some (extract_user_key f.largest)) files
                  < outside begin end files =
                omega (
                  arith,
                  count_where-less
                      (λ g.
                        above user (extract_user_key g.largest) (some (extract_user_key f.largest)))
                      (λ g. above user (extract_user_key g.largest) end)
                      (λ g.
                        above_trans (extract_user_key g.largest) (extract_user_key f.largest) end
                          high)
                      files i f at (not_above_itself (extract_user_key f.largest)) high,
                ) in
              let c =
                inputs_loop-Closure fuel files begin (some (extract_user_key f.largest))
                  (omega (arith, fewer)) in
              record {
                begin' = c.begin';
                end' = c.end';
                chosen = rw (inputs_loop, e) c.chosen;
                closed = c.closed;
                holds = record {
                  low = c.holds.low;
                  high = λ key l.
                      above_trans key (extract_user_key f.largest) end high (c.holds.high key l);
                };
                least = λ b e closed holds.
                    c.least b e closed (raise_end files begin end b e i f at met closed holds);
              }
        ]

    -- GetOverlappingInputs on level 0, with a total order for the user's comparator, ends: there is a
    -- least closed range that holds the one asked for, out of which no file that overlaps it reaches,
    -- and the inputs are the files that overlap it, in their order.
    pub get_overlapping_inputs-Closure :
        (files : List FileMetaData) (begin end : Option (List ℕ))
        → Closure files
            (user_key_of_bound user begin)
            (user_key_of_bound user end)
            (get_overlapping_inputs user 0 files begin end)
    unfolding get_overlapping_inputs outside
    get_overlapping_inputs-Closure files begin end =
        inputs_loop-Closure (2 * length files + 1) files (user_key_of_bound user begin)
          (user_key_of_bound user end)
          (omega (
            arith,
            count_where-length
                (λ f. below user (extract_user_key f.smallest) (user_key_of_bound user begin))
                files,
            count_where-length
                (λ f. above user (extract_user_key f.largest) (user_key_of_bound user end)) files,
          ))
