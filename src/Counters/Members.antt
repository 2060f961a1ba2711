-- ===== src/Counters/Members.antt =====
-- Which value `handle` of src/perf/counter/group/writer.cpp gives to which member of the metric class
-- that include/lo2s/trace/trace.hpp makes for a group, and when collections are equal.
use lo2s.Shared.{
  ℕ, suc, ◌+◌, ◌≤◌, ◌≡◌, refl, ap, sym, ◌∙◌, true, false, some, List, [], ◌∷◌, ◌++◌, map, arith, ok,
  length, get_elem?, leb, le→leb, ok_inj, Option-cases, inl, inr,
}
use lo2s.MultiReader.{attr_lt}
use lo2s.Counters.{
  Doubles, GroupReadFormat, GroupCounterBuffer, CounterAttr, CounterCollection, MetricMember,
  counter_member, time_enabled_member, time_running_member, group_members, get_scale, scaled,
  read_group, handle_group, collection_eq,
}

get_elem?-behind {ℓ} :
    {A : Type ℓ} (xs : List A) (y : A) (ys : List A) → get_elem? (xs ++ y ∷ ys) (length xs) ≡ some y
get_elem?-behind [] y ys = refl
get_elem?-behind (x ∷ xs) y ys = get_elem?-behind xs y ys

append-snoc {ℓ} :
    {A : Type ℓ} (xs : List A) (y : A) (ys : List A) → (xs ++ y ∷ []) ++ ys ≡ xs ++ y ∷ ys
append-snoc [] y ys = refl
append-snoc (x ∷ xs) y ys = ap (λ zs. x ∷ zs) (append-snoc xs y ys)

length-snoc {ℓ} : {A : Type ℓ} (xs : List A) (y : A) → length (xs ++ y ∷ []) ≡ suc (length xs)
length-snoc [] y = refl
length-snoc (x ∷ xs) y = ap suc (length-snoc xs y)

module _ {Double : Type 0} (d : Doubles Double) where
  -- A value for each member: a counter's sum by its own scale, and the two times of the sample.
  unfoldable pub expected : List (MetricMember d) → List Double → GroupReadFormat → List Double
  expected [] sums r = []
  expected (counter_member a ∷ ms) [] r = []
  expected (counter_member a ∷ ms) (sum ∷ sums) r = d.mul sum a.scale ∷ expected ms sums r
  expected (time_enabled_member ∷ ms) sums r = d.of_number r.time_enabled ∷ expected ms sums r
  expected (time_running_member ∷ ms) sums r = d.of_number r.time_running ∷ expected ms sums r

  abbrev times : List (MetricMember d)
  times = time_enabled_member ∷ time_running_member ∷ []

  abbrev counted : List (CounterAttr Double) → List (MetricMember d)
  counted more = map counter_member more ++ times

  scaled-expected :
      (c : CounterCollection Double) (r : GroupReadFormat) (before more : List (CounterAttr Double))
      (sums : List Double)
      → c.counters ≡ before ++ more
      → length sums ≡ length more
      → (vs : List Double) × (scaled d c (suc (length before)) sums ≡ ok vs)
        × (vs ++ d.of_number r.time_enabled ∷ d.of_number r.time_running ∷ []
            ≡ expected (counted more) sums r)
  unfolding scaled expected get_scale
  scaled-expected c r before [] [] e l = ([], refl, refl)
  scaled-expected c r before [] (s ∷ sums) e l = absurd (omega (arith, l))
  scaled-expected c r before (a ∷ more) [] e l = absurd (omega (arith, l))
  scaled-expected c r before (a ∷ more) (s ∷ sums) e l =
      let found : get_elem? c.counters (length before) ≡ some a =
        rw e (get_elem?-behind before a more) in
      let (vs, f, g) =
        scaled-expected c r (before ++ a ∷ []) more sums (e ∙ sym (append-snoc before a more))
          (omega (arith, l)) in
      (
        d.mul s a.scale ∷ vs,
        rw (found, get_scale) (rw (rw (length-snoc before a) at f) refl),
        ap (λ zs. d.mul s a.scale ∷ zs) g,
      )

  length-counted : (more : List (CounterAttr Double)) → length (counted more) ≡ length more + 2
  length-counted [] = omega arith
  length-counted (a ∷ more) = omega (arith, length-counted more)

  scaled_leader :
      (c : CounterCollection Double) (l : CounterAttr Double) (s : Double) (sums vs : List Double)
      → c.leader ≡ some l
      → scaled d c 1 sums ≡ ok vs
      → scaled d c 0 (s ∷ sums) ≡ ok (d.mul s l.scale ∷ vs)
  unfolding scaled get_scale
  scaled_leader c l s sums vs cl g = rw (cl, get_scale) (rw g refl)

  write_group :
      (c : CounterCollection Double) (sample : GroupReadFormat) (b b' : GroupCounterBuffer Double)
      (size : ℕ) (vs : List Double)
      → read_group d sample b ≡ ok b'
      → length b'.accumulated + 2 ≤ size
      → scaled d c 0 b'.accumulated ≡ ok vs
      → handle_group d c size sample b
        ≡ ok (
          vs ++ d.of_number b'.previous.time_enabled ∷ d.of_number b'.previous.time_running ∷ [],
          b',
        )
  unfolding handle_group
  write_group c sample b b' size vs f fits all =
      let first : leb (length b'.accumulated) size ≡ true = le→leb _ _ (omega arith) in
      rw (f, first, all, le→leb _ _ fits) refl

  -- If the collection has a leader, the sample is read into the buffer, and the buffer has a counter
  -- for the leader and for each other one, then the event that has a value for each member of
  -- the metric class is written without a fault: every counter's sum goes, with that counter's
  -- scale, to the member of that counter, and the two times of the sample to their members.
  pub handle_group-members :
      (c : CounterCollection Double) (leader : CounterAttr Double) (sample : GroupReadFormat)
      (b b' : GroupCounterBuffer Double) (members : List (MetricMember d))
      → c.leader ≡ some leader
      → group_members d c ≡ ok members
      → read_group d sample b ≡ ok b'
      → length b'.accumulated ≡ suc (length c.counters)
      → b'.previous ≡ sample
      → handle_group d c (length members) sample b ≡ ok (expected members b'.accumulated sample, b')
  unfolding handle_group group_members scaled get_scale expected
  handle_group-members c leader sample b b' members cl m f l p = by_sums b'.accumulated refl
    where
      members_lem : members ≡ counter_member leader ∷ counted c.counters
      members_lem = sym (ok_inj _ members (rw (cl, group_members) at m))

      finish :
          (s : Double) (sums : List Double)
          → b'.accumulated ≡ s ∷ sums
          → (vs : List Double) → length members ≡ length c.counters + 3
          → scaled d c 1 sums ≡ ok vs
          → (vs ++ d.of_number sample.time_enabled ∷ d.of_number sample.time_running ∷ []
              ≡ expected (counted c.counters) sums sample)
          → handle_group d c (length members) sample b
            ≡ ok (expected members b'.accumulated sample, b')
      finish s sums e vs size g h =
          write_group c sample b b' (length members) (d.mul s leader.scale ∷ vs) f
            (omega (arith, l, size)) (rw e (scaled_leader c leader s sums vs cl g))
          ∙ rw (p, members_lem, e)
              (λ i. ok (
                d.mul s leader.scale ∷ h i,
                record b' { previous = sample; accumulated = s ∷ sums },
              ))

      by_sums :
          (sums : List Double)
          → b'.accumulated ≡ sums
          → handle_group d c (length members) sample b
            ≡ ok (expected members b'.accumulated sample, b')
      by_sums [] e = absurd (omega (arith, l, ap length e))
      by_sums (s ∷ sums) e =
          let size : length members ≡ length c.counters + 3 =
            ap length members_lem ∙ omega (arith, length-counted c.counters) in
          let (vs, g, h) =
            scaled-expected c sample [] c.counters sums refl (omega (arith, l, ap length e)) in
          finish s sums e vs size g h

module _ {Double : Type 0} where
  -- `operator==` of collections holds of no collection and itself, also where both are the same
  -- object: it asks for the one leader to be less than the other.
  pub collection_eq_self : (c : CounterCollection Double) → collection_eq c c ≡ false
  unfolding collection_eq attr_lt
  collection_eq_self c = elim (Option-cases c.leader) [
    | inl n ↦ rw (n, collection_eq) refl
    | inr (l, n) ↦ rw (n, collection_eq) (ground arith)
  ]
