-- ===== src/MultiReader/Read.antt =====
-- `read` of include/lo2s/perf/multi_reader.hpp: it ends with every reader empty, and the writer has
-- got the merged events.
use lo2s.Shared.{
  ℕ, zero, suc, ◌+◌, ◌≤◌, ◌≡◌, refl, sym, ◌∙◌, some, List, [], ◌∷◌, ◌++◌, get_elem?, get_elem?-lt,
  set, Result, ok, ◌>>=◌, bind_split, bind_made, arith,
}
use lo2s.MultiReader.{IoReaderIdentity, ReaderState, MultiReader, fill, read_loop, total, read}
use lo2s.MultiReader.Merge.{write_all, Merged, stay, Merged-trans, total-Merged}
use lo2s.MultiReader.Drain.{Drained, drain-Drained}
use lo2s.MultiReader.Current.{
  head_time-some, Queued, Queued-nil, Queued-rest, Queued-Ahead, first_goes,
}
use lo2s.MultiReader.Fill.{fill_all}
use lo2s.MultiReader.Ascending.{InOrder, InOrder-set, not_late}

plus_zero : (n : ℕ) → n + 0 ≡ n
plus_zero n = omega arith

plus_assoc : (a b c : ℕ) → a + b + c ≡ a + (b + c)
plus_assoc a b c = omega arith

module _ {Event Writer : Type 0} (keys : ℕ → IoReaderIdentity) (time : Event → ℕ)
    (write : ℕ → Event → Writer → Result Writer) where
  -- What reading makes of readers, with the calls of the writer.
  pub record Reads (m : MultiReader Event Writer) (outcome : Result (MultiReader Event Writer))
      : Type 0 where
    pub calls : List (ℕ × Event)
    pub lost : ℕ
    pub highest : ℕ
    pub readers : List (List Event)
    pub drained : total readers ≡ 0
    pub merged : Merged time m.highest_written m.readers calls lost highest readers
    pub calls_lem : outcome ≡ (
        write_all time write calls m.writer >>= λ w. ok (record {
          readers = readers;
          highest_written = highest;
          warnings = m.warnings + lost;
          writer = w;
        }))

  write_all_append :
      (c d : List (ℕ × Event)) (w : Writer)
      → write_all time write (c ++ d) w ≡ (write_all time write c w >>= write_all time write d)
  unfolding write_all
  write_all_append [] d w = refl
  write_all_append (x ∷ c) d w = bind_split (write (x.0) (x.1) w) _ _ _ (write_all_append c d)

  -- The loop on the same readers, whatever the writer is.
  record Loop (fuel : ℕ) (q : List ReaderState) (rs : List (List Event)) (h n : ℕ) : Type 0 where
    calls : List (ℕ × Event)
    lost : ℕ
    highest : ℕ
    left : List (List Event)
    drained : total left ≡ 0
    merged : Merged time h rs calls lost highest left
    lossless : InOrder time h rs → lost ≡ 0
    calls_lem :
        (w : Writer)
        → read_loop keys time write fuel q
            (record { readers = rs; highest_written = h; warnings = n; writer = w })
          ≡ (write_all time write calls w >>= λ w'. ok (record {
            readers = left;
            highest_written = highest;
            warnings = n + lost;
            writer = w';
          }))

  ended :
      (fuel : ℕ) (q : List ReaderState) (rs : List (List Event)) (h n : ℕ)
      → total rs ≡ 0
      → ((m : MultiReader Event Writer) → read_loop keys time write fuel q m ≡ ok m)
      → Loop fuel q rs h n
  unfolding write_all
  ended fuel q rs h n e s = record {
    calls = [];
    lost = 0;
    highest = h;
    left = rs;
    drained = e;
    merged = stay _ _ _ _ _ _ refl refl refl refl;
    lossless = λ o. refl;
    calls_lem = λ w. rw (plus_zero n) (s _);
  }

  round_lem :
      (fuel : ℕ) (s : ReaderState) (q : List ReaderState) (rs : List (List Event)) (h n : ℕ)
      (es : List Event)
      → get_elem? rs s.identity ≡ some es
      → (d : Drained keys time write s.identity q es h n rs) → (w : Writer)
      → read_loop keys time write
          (suc fuel)
          (s ∷ q)
          (record { readers = rs; highest_written = h; warnings = n; writer = w })
        ≡ (write_all time write d.calls w >>= λ w'. read_loop keys time write fuel d.queue (record {
          readers = set rs s.identity d.rest;
          highest_written = d.highest;
          warnings = n + d.lost;
          writer = w';
        }))
  unfolding read_loop
  round_lem fuel s q rs h n es g d w =
      rw (g, d.outcome w, read_loop) (bind_made (write_all time write d.calls w) _ _)

  next_round :
      (fuel : ℕ) (s : ReaderState) (q : List ReaderState) (rs : List (List Event)) (h n : ℕ)
      (es : List Event)
      → get_elem? rs s.identity ≡ some es
      → Queued time rs (s ∷ q)
      → (d : Drained keys time write s.identity q es h n rs)
      → Loop fuel d.queue (set rs s.identity d.rest) d.highest (n + d.lost)
      → Loop (suc fuel) (s ∷ q) rs h n
  next_round fuel s q rs h n es g u d l = record {
    calls = d.calls ++ l.calls;
    lost = d.lost + l.lost;
    highest = l.highest;
    left = l.left;
    drained = l.drained;
    merged = Merged-trans time _ _ _ _ _ _ _ _ _ _ d.merged l.merged;
    lossless = λ o.
        let f = d.fresh (o s.identity es g) in
        omega (
          arith,
          f.0,
          l.lossless (
              InOrder-set time h d.highest rs s q d.rest u (get_elem?-lt rs s.identity es g) o f.1
                (d.bounded (not_late time h rs s q u o))),
        );
    calls_lem = λ w.
        round_lem fuel s q rs h n es g d w
        ∙ rw (write_all_append d.calls l.calls w, sym (plus_assoc n d.lost l.lost))
            (bind_split (write_all time write d.calls w) _ _ _ l.calls_lem);
  }

  loop_lem :
      (fuel : ℕ) (q : List ReaderState) (rs : List (List Event)) (h n : ℕ)
      → total rs ≤ fuel
      → Queued time rs q
      → Loop fuel q rs h n
  unfolding read_loop
  loop_lem zero q rs h n f u = ended zero q rs h n (omega (arith, f)) (λ m. refl)
  loop_lem (suc fuel) [] rs h n f u = ended (suc fuel) [] rs h n (Queued-nil time rs u) (λ m. refl)
  loop_lem (suc fuel) (s ∷ q) rs h n f u =
      let (e, es, g, t) = head_time-some time rs s.identity s.time u.current.0 in
      let d =
        drain-Drained keys time write s.identity q (e ∷ es) h n rs g (Queued-Ahead time rs s q u) in
      let moved = d.moved e es refl (rw (sym t) at (first_goes time s q u.sorted.0)) in
      let fewer = total-Merged time _ _ _ _ _ _ d.merged in
      next_round fuel s q rs h n (e ∷ es) g u d (
        loop_lem fuel d.queue (set rs s.identity d.rest) d.highest (n + d.lost)
          (omega (arith, f, moved, fewer))
          (Queued-rest keys time rs s q d.queue d.rest u (get_elem?-lt rs s.identity _ g) d.left))

  whole_read :
      (m : MultiReader Event Writer)
      → Loop
          (total m.readers)
          (fill keys time 0 m.readers [])
          m.readers
          m.highest_written
          m.warnings
  whole_read m =
      loop_lem (total m.readers) (fill keys time 0 m.readers []) m.readers m.highest_written
        m.warnings (omega arith) (fill_all keys time m.readers)

  -- Whatever the readers hold and whatever the writer does, `read` is a sequence of calls of the
  -- writer and nothing else that can fail. The calls are a merge of the readers by time: every event
  -- taken is the first of its reader and the earliest of the first events of all readers; it is
  -- written unless it is earlier than the highest time written before, and lost and counted then.
  -- In the end every reader is empty.
  pub read-Reads : (m : MultiReader Event Writer) → Reads m (read keys time write m)
  unfolding read
  read-Reads m =
      let l = whole_read m in
      record {
        calls = l.calls;
        lost = l.lost;
        highest = l.highest;
        readers = l.left;
        drained = l.drained;
        merged = l.merged;
        calls_lem = l.calls_lem m.writer;
      }
