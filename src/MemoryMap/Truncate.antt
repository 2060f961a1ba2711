-- ===== src/MemoryMap/Truncate.antt =====
-- Steps 4.1 and 4.2 of `MemoryMap::emplace` (include/lo2s/memory_map.hpp): what becomes of an
-- entry that holds the start or the end of the new mapping.
use lo2s.Shared.{
  ◌≤◌, ◌<◌, ◌≡◌, ◌⊎◌, inl, inr, refl, sym, ◌∙◌, Bool, true, false, not, ◌&&◌, Bool-cases,
  Option-cases, Option, none, some, List, [], ◌∷◌, leb, if◌then◌else◌, Result, ok, arith,
}
use lo2s.Address.{Address, address_max, Mapping, mapping_in, point_mapping}
use lo2s.MemoryMap.{map_find, map_erase, map_emplace, emplace_new, truncate_start, truncate_end}
use lo2s.MemoryMap.Order.{holds, Apart, at, All-map_emplace}
use lo2s.MemoryMap.Lookup.{TakenOut}
use lo2s.MemoryMap.Valid.{
  object, Every, IsValid, Every-imp, Every-both, Every-map_erase, at-none-Every, find-at,
  found-TakenOut, Inserted, emplace_new-Inserted,
}

-- An entry neither inside the new mapping nor around it, and what each step leaves of it.
abbrev pub Astride : Mapping → Mapping → Type 0
Astride k n = ((mapping_in n k ≡ false) × (mapping_in k n ≡ false)) × (n.range.start ≤ n.range.end)

abbrev pub BeforeOrBeyond : Mapping → Mapping → Type 0
BeforeOrBeyond k n =
    (n.range.end ≤ k.range.start) ⊎ ((k.range.start < n.range.start) × (k.range.end < n.range.end))

Astride-step : (k n : Mapping) → Astride k n → holds k.range.start n ≡ false → BeforeOrBeyond k n
unfolding mapping_in
Astride-step k n s h = ground arith

module _ {T : Type 0} where
  pub at-Every :
      (P : Mapping → Type 0) (a : Address) (r : List (Mapping × T)) (m : Mapping) (v : T)
      → Every P r
      → at a r ≡ some (m, v)
      → P m × (holds a m ≡ true)
  unfolding at
  at-Every P a [] m v h e = cc
  at-Every P a ((n, w) ∷ r) m v h e = elim (Bool-cases (holds a n)) [
    | inl here ↦ let e' : n ≡ m = cc (rw here at e) in (rw e' at (h.0), rw e' at here)
    | inr later ↦ at-Every P a r m v h.1 (rw later at e)
  ]

  -- Whether the entry found also holds `p`.
  abbrev pub spans : Address → Option (Mapping × T) → Bool
  spans p none = false
  spans p (some (m, v)) = holds p m

  -- If no entry holds `p`, none of those found does.
  pub spans-none :
      (p a : Address) (r : List (Mapping × T)) → at p r ≡ none → spans p (at a r) ≡ false
  spans-none p a r h = elim (Option-cases (at a r)) [
    | inl e ↦ rw e
    | inr ((m, v), e) ↦ rw e (at-Every (λ n. holds p n ≡ false) a r m v (at-none-Every p r h) e).0
  ]

  -- If one does, it is the entry taken out.
  pub spans-some :
      (p a : Address) (r r' : List (Mapping × T)) (e : Mapping × T)
      → TakenOut 0 e r r'
      → holds p e.0 ≡ true
      → spans p (at a r) ≡ holds a e.0
  spans-some p a r r' e t h = elim (Bool-cases (holds a e.0)) [
    | inl inside ↦ rw (t.inside a inside, inside) h
    | inr outside ↦
        rw (outside, ← t.outside a outside)
          (elim (Option-cases (at a r')) [
            | inl f ↦ rw f
            | inr ((m, v), f) ↦
                rw f (ground (arith, (at-Every (Apart e.0) a r' m v t.apart f).0, h))
          ])
  ]

  -- What a truncation leaves: the objects outside of the entry, and the entry's own where it is kept.
  pub record Truncated (p : Address) (keep : Address → Bool) (Q : Mapping → Type 0)
      (r : List (Mapping × T)) (outcome : Result (List (Mapping × T))) : Type 0 where
    pub rest : List (Mapping × T)
    pub result : outcome ≡ ok rest
    pub valid : IsValid rest
    pub every : Every Q rest
    pub view :
        (a : Address)
        → object (at a rest) ≡ (if spans p (at a r) && not (keep a) then none else object (at a r))

  -- The entry that holds `p` is replaced by a part of it.
  replaced :
      (p : Address) (keep : Address → Bool) (P Q : Mapping → Type 0) (r : List (Mapping × T))
      (m m' : Mapping) (old : T)
      → IsValid r
      → p ≤ address_max
      → map_find (point_mapping p) r ≡ some (m, old)
      → m.range.start ≤ m'.range.start
      → m'.range.start ≤ m'.range.end
      → m'.range.end ≤ m.range.end
      → ((a : Address) → holds a m' ≡ (holds a m && keep a))
      → Every P r
      → ((n : Mapping) → P n × (holds p n ≡ false) → Q n)
      → Q m'
      → Truncated p keep Q r (emplace_new m' old (map_erase (point_mapping p) r))
  replaced p keep P Q r m m' old h b f lo o hi part every step q = record {
    rest = (map_emplace m' old r').0;
    result = ins.result;
    valid = ins.valid;
    every = All-map_emplace Q m' old r' q (
        Every-imp (λ n. P n × (holds p n ≡ false)) Q r' step
          (Every-both P (λ n. holds p n ≡ false) r' (Every-map_erase P (point_mapping p) r every)
            (at-none-Every p r' (t.gone p here))));
    view = λ a. elim (Bool-cases (holds a m)) [
      | inl inside ↦
          rw
            (
              ins.view a,
              part a,
              spans-some p a r r' (m, old) t here,
              inside,
              t.inside a inside,
              t.gone a inside,
            )
            (ground arith)
      | inr outside ↦
          rw (ins.view a, part a, spans-some p a r r' (m, old) t here, outside, t.outside a outside)
            (ground arith)
    ];
  }
    where
      r' : List (Mapping × T)
      r' = map_erase (point_mapping p) r

      t : TakenOut 0 (m, old) r r'
      t = found-TakenOut p r (m, old) h b f

      here : holds p m ≡ true
      here =
          (at-Every (λ n. n.range.end ≤ address_max) p r m old h.bounded
            (sym (find-at p r h b) ∙ f)).1

      top : m.range.end ≤ address_max
      top =
          (at-Every (λ n. n.range.end ≤ address_max) p r m old h.bounded
            (sym (find-at p r h b) ∙ f)).0

      valid' : IsValid r'
      valid' = record {
        sorted = t.sorted;
        bounded = Every-map_erase (λ n. n.range.end ≤ address_max) (point_mapping p) r h.bounded;
      }

      ins : Inserted m' old r' (map_emplace m' old r').0
      ins =
          emplace_new-Inserted m' old r' valid' o (omega (arith, top))
            (Every-imp (Apart m) (Apart m') r' (λ n a. ground (arith, a)) t.apart)

  -- Nothing holds `p`.
  untouched :
      (p : Address) (keep : Address → Bool) (P Q : Mapping → Type 0) (r : List (Mapping × T))
      → IsValid r
      → p ≤ address_max
      → map_find (point_mapping p) r ≡ none
      → Every P r
      → ((n : Mapping) → P n × (holds p n ≡ false) → Q n)
      → Truncated p keep Q r (ok r)
  untouched p keep P Q r h b f every step = record {
    rest = r;
    result = refl;
    valid = h;
    every =
        Every-imp (λ n. P n × (holds p n ≡ false)) Q r step
          (Every-both P (λ n. holds p n ≡ false) r every (at-none-Every p r nothing));
    view = λ a. rw (spans-none p a r nothing);
  }
    where
      nothing : at p r ≡ none
      nothing = sym (find-at p r h b) ∙ f

  found-holds :
      (p : Address) (r : List (Mapping × T)) (m : Mapping) (v : T)
      → IsValid r
      → p ≤ address_max
      → map_find (point_mapping p) r ≡ some (m, v)
      → (m.range.start ≤ p) × (p < m.range.end)
  found-holds p r m v h b f = ground (
    arith,
    (at-Every (λ n. n.range.end ≤ address_max) p r m v h.bounded (sym (find-at p r h b) ∙ f)).1,
  )

  pub truncate_start_lem :
      (k : Mapping) (r : List (Mapping × T))
      → IsValid r
      → k.range.start < k.range.end
      → k.range.end ≤ address_max
      → Every (Astride k) r
      → Truncated k.range.start (λ _. false) (BeforeOrBeyond k) r (truncate_start k r)
  unfolding truncate_start
  truncate_start_lem k r h o b every =
      elim (Option-cases (map_find (point_mapping k.range.start) r)) [
        | inl f ↦
            rw (f, truncate_start)
              (untouched k.range.start (λ _. false) (Astride k) (BeforeOrBeyond k) r h (omega arith)
                f every (λ n s. Astride-step k n s.0 s.1))
        | inr ((m, old), f) ↦
            let at_start = found-holds k.range.start r m old h (omega arith) f in
            rw (f, truncate_start)
              (replaced k.range.start (λ _. false) (Astride k) (BeforeOrBeyond k) r m
                (record m { range = record (m.range) { end = m.range.start } }) old h (omega arith)
                f (omega arith) (omega arith) (omega (arith, at_start)) (λ a. ground arith) every
                (λ n s. Astride-step k n s.0 s.1) (inl (omega (arith, at_start))))
      ]

  pub truncate_end_lem :
      (k : Mapping) (r : List (Mapping × T))
      → IsValid r
      → k.range.start < k.range.end
      → k.range.end ≤ address_max
      → Every (BeforeOrBeyond k) r
      → Truncated k.range.end (leb k.range.end) (Apart k) r (truncate_end k r)
  unfolding truncate_end
  truncate_end_lem k r h o b every = elim (Option-cases (map_find (point_mapping k.range.end) r)) [
    | inl f ↦
        rw (f, truncate_end)
          (untouched k.range.end (leb k.range.end) (BeforeOrBeyond k) (Apart k) r h b f every
            (λ n s. ground (arith, s)))
    | inr ((m, old), f) ↦
        let at_end = found-holds k.range.end r m old h b f in
        rw (f, truncate_end)
          (replaced k.range.end (leb k.range.end) (BeforeOrBeyond k) (Apart k) r m
            (record m { range = record (m.range) { start = k.range.end } }) old h b f
            (omega (arith, at_end)) (omega (arith, at_end)) (omega arith)
            (λ a. ground (arith, at_end)) every (λ n s. ground (arith, s)) (inr (omega arith)))
  ]
