-- ===== src/SampleWriter/Order.antt =====
-- Sequences of records in src/perf/sample/writer.cpp: no record fails, and the time points of the
-- trace never decrease.
use lo2s.Shared.{
  ℕ, ◌≤◌, ℤ, ◌≡◌, refl, ◌∙◌, Bool, true, false, List, [], ◌∷◌, All, if◌then◌else◌, Result, ok,
  arith, negsuc, pos,
}
use lo2s.Scope.{ExecutionScope, is_cpu}
use lo2s.CctxTree.{cpuid_metric, mark, marked}
use lo2s.CctxTree.Calls.{Reached, by_mark}
use lo2s.CctxTree.Times.{more, Ordered, Ordered-Since}
use lo2s.SampleWriter.{
  SampleRecord, sample, mmap, comm, switch_cpu_wide, switch, SampleWriter, adjust_timepoints,
  at_time, with_tree, update_calling_context, write_sample, handle_record, handle_records,
}
use lo2s.SampleWriter.Steps.{Kept, Kept-trans, update-Steps, IsChain, sample-Steps}

-- The records that a writer of this scope gets.
abbrev pub Fits : ExecutionScope → Bool → SampleRecord → Type 0
Fits scope callgraph (sample time p t ip nr ips) = IsChain callgraph nr ips
Fits scope callgraph (mmap t event) = Unit {0}
Fits scope callgraph (comm p t name) = Unit {0}
Fits scope callgraph (switch_cpu_wide time p t out) = is_cpu scope ≡ true
Fits scope callgraph (switch time p t cpu out) = is_cpu scope ≡ false

-- The outcome of a record: the time does not go back.
pub record Handled (w : SampleWriter) (outcome : Result SampleWriter) : Type 0 where
  pub next : SampleWriter
  pub result : outcome ≡ ok next
  pub scope : next.scope ≡ w.scope
  pub callgraph : next.record_callgraph ≡ w.record_callgraph
  pub reached : Reached next.tree
  pub ordered : Ordered next.last_time_point next.tree.written
  pub later : w.last_time_point ≤ next.last_time_point

pub adjust_later : (tp : ℕ) (w : SampleWriter) → w.last_time_point ≤ adjust_timepoints tp w
unfolding adjust_timepoints
adjust_later tp w = ground arith

Kept-Handled :
    (tp : ℕ) (w w' : SampleWriter) (outcome : Result SampleWriter)
    → Ordered w.last_time_point w.tree.written
    → w.last_time_point ≤ tp
    → outcome ≡ ok w'
    → Kept (at_time tp w) w'
    → Handled w outcome
Kept-Handled tp w w' outcome o h e k = record {
  next = w';
  result = e;
  scope = k.scope;
  callgraph = k.callgraph;
  reached = k.reached;
  ordered =
      rw (k.time) (Ordered-Since w.last_time_point tp w.tree.written w'.tree.written o h k.since);
  later = rw (k.time) h;
}

module _ (convert : ℕ → ℕ) (time : ℕ) (p q : ℤ) (w : SampleWriter) where
  sample_lem :
      (ip nr : ℕ) (ips : List ℕ) (w1 w2 : SampleWriter)
      → update_calling_context p q
          (adjust_timepoints (convert time) w)
          false
          (at_time (adjust_timepoints (convert time) w) w)
        ≡ ok w1
      → write_sample (adjust_timepoints (convert time) w) ip nr ips w1 ≡ ok w2
      → handle_record convert (sample time p q ip nr ips) w ≡ ok w2
  unfolding handle_record
  sample_lem ip nr ips w1 w2 e f = ground arith

  cpu_wide_lem :
      (out : Bool) (w1 : SampleWriter)
      → is_cpu w.scope ≡ true
      → update_calling_context p q
          (adjust_timepoints (convert time) w)
          out
          (at_time (adjust_timepoints (convert time) w) w)
        ≡ ok w1
      → handle_record convert (switch_cpu_wide time p q out) w ≡ ok w1
  unfolding handle_record
  cpu_wide_lem out w1 e f = ground arith

  pub switch_lem :
      (cpu : ℕ) (out : Bool) (w1 : SampleWriter)
      → is_cpu w.scope ≡ false
      → update_calling_context p q
          (adjust_timepoints (convert time) w)
          out
          (at_time (adjust_timepoints (convert time) w) w)
        ≡ ok w1
      → handle_record convert (switch time p q cpu out) w
        ≡ ok (
            with_tree
              (marked
                (adjust_timepoints (convert time) w)
                (cpuid_metric (if out then negsuc 0 else pos cpu))
                w1.tree)
              w1)
  unfolding handle_record
  switch_lem cpu out w1 e f = ground arith

handle_record-Handled :
    (convert : ℕ → ℕ) (r : SampleRecord) (w : SampleWriter)
    → Fits w.scope w.record_callgraph r
    → Reached w.tree
    → Ordered w.last_time_point w.tree.written
    → Handled w (handle_record convert r w)
unfolding handle_record
handle_record-Handled convert (sample time p q ip nr ips) w f r o =
    let tp = adjust_timepoints (convert time) w in
    let (w1, e, k) = update-Steps p q false (at_time tp w) r in
    let (w2, e2, k2) = sample-Steps ip nr ips w1 k.reached (rw (k.callgraph) f) in
    Kept-Handled tp w w2 _ o (adjust_later (convert time) w)
      (sample_lem convert time p q w ip nr ips w1 w2 e (rw (k.time) at e2))
      (Kept-trans (at_time tp w) w1 w2 k k2)
handle_record-Handled convert (mmap t event) w f r o = record {
  next = _;
  result = refl;
  scope = refl;
  callgraph = refl;
  reached = r;
  ordered = o;
  later = omega arith;
}
handle_record-Handled convert (comm p t name) w f r o = record {
  next = _;
  result = refl;
  scope = refl;
  callgraph = refl;
  reached = r;
  ordered = o;
  later = omega arith;
}
handle_record-Handled convert (switch_cpu_wide time p q out) w f r o =
    let tp = adjust_timepoints (convert time) w in
    let (w1, e, k) = update-Steps p q out (at_time tp w) r in
    Kept-Handled tp w w1 _ o (adjust_later (convert time) w)
      (cpu_wide_lem convert time p q w out w1 f e) k
handle_record-Handled convert (switch time p q cpu out) w f r o =
    let tp = adjust_timepoints (convert time) w in
    let (w1, e, k) = update-Steps p q out (at_time tp w) r in
    let m = cpuid_metric (if out then negsuc 0 else pos cpu) in
    Kept-Handled tp w (with_tree (marked tp m w1.tree) w1) _ o (adjust_later (convert time) w)
      (switch_lem convert time p q w cpu out w1 f e)
      (record {
        scope = k.scope;
        callgraph = k.callgraph;
        time = k.time;
        reached = by_mark tp m w1.tree k.reached;
        since = more (mark tp m) w1.tree.written _ refl refl k.since;
      })

-- A writer whose tree calls reach, and whose trace has time points that do not decrease up to the
-- last one, handles every sequence of records that its scope gets: a switch of the kind that belongs
-- to the scope, and, if call chains are recorded, samples with at least one instruction pointer.
-- No record fails, the tree is again one that calls reach, and the time points of the trace still
-- do not decrease, in whatever order the records come.
pub handle_records-Handled :
    (convert : ℕ → ℕ) (rs : List SampleRecord) (w : SampleWriter)
    → All (Fits w.scope w.record_callgraph) rs
    → Reached w.tree
    → Ordered w.last_time_point w.tree.written
    → Handled w (handle_records convert rs w)
unfolding handle_records
handle_records-Handled convert [] w f r o = record {
  next = w;
  result = refl;
  scope = refl;
  callgraph = refl;
  reached = r;
  ordered = o;
  later = omega arith;
}
handle_records-Handled convert (x ∷ rs) w f r o =
    let a = handle_record-Handled convert x w f.0 r o in
    let b =
      handle_records-Handled convert rs a.next (rw (a.scope, a.callgraph) (f.1)) a.reached
        a.ordered in
    record {
      next = b.next;
      result = rw (a.result) (b.result);
      scope = b.scope ∙ a.scope;
      callgraph = b.callgraph ∙ a.callgraph;
      reached = b.reached;
      ordered = b.ordered;
      later = omega (arith, a.later, b.later);
    }
