-- ===== src/GpuRing.antt =====
-- include/lo2s/gpu/ringbuf.hpp, `gpu::RingbufWriter`, and what src/monitor/gpu_monitor.cpp reads of
-- its events (include/lo2s/gpu/events.hpp). A name is its bytes; `std::string(kernel->function)` ends
-- at the first byte 0.
pub mod Transport
pub mod Names
mod Tests
use lo2s.Shared.{
  ℕ, ◌+◌, ◌%◌, ◌^◌, Bool, true, false, ◌&&◌, Option, none, some, List, [], ◌∷◌, ◌++◌, ◌==◌,
  if◌then◌else◌, Result, ok, ◌>>=◌,
}
use lo2s.Rb.Offsets.{Payload}
use lo2s.Rb.Writer.{RingbufWriter, put}
use lo2s.Rb.Words.{words, word_at, drop}
use lo2s.GpuMonitor.{GpuEvent, kernel, kernel_def, unknown}

-- `std::string`'s `operator==`.
abbrev pub eq_text : List ℕ → List ℕ → Bool
eq_text [] [] = true
eq_text [] (y ∷ ys) = false
eq_text (x ∷ xs) [] = false
eq_text (x ∷ xs) (y ∷ ys) = let rest = eq_text xs ys in (x == y) && rest

-- `cctxs_.find`
abbrev pub known : List ℕ → List (List ℕ × ℕ) → Option ℕ
known f [] = none
known f ((g, id) ∷ r) = let later = known f r in if eq_text g f then some id else later

pub record GpuRingbufWriter : Type 0 where
  pub ring : RingbufWriter
  pub cctxs : List (List ℕ × ℕ)
  pub next_cctx_ref : ℕ

-- The fields behind `header.size`. The struct of a definition has one byte of the name, which
-- `reserve` makes as long as the name with a byte 0 behind it.
unfoldable pub encode_kernel_def : ℕ → List ℕ → Payload
encode_kernel_def id name = words (1 ∷ id ∷ []) (name ++ 0 ∷ [])

unfoldable pub encode_kernel : ℕ → ℕ → ℕ → Payload
encode_kernel start_tp end_tp id = words (0 ∷ start_tp ∷ end_tp ∷ id ∷ []) []

-- `kernel_def(func)`
unfoldable pub define_kernel : List ℕ → GpuRingbufWriter → Result (ℕ × GpuRingbufWriter)
define_kernel f w = elim (known f w.cctxs) [
  | some id ↦ ok (id, w)
  | none ↦ put w.ring (encode_kernel_def w.next_cctx_ref f) >>= λ r. elim r.0 [
    | false ↦ ok (0, record w { ring = r.1 })
    | true ↦ ok (
      w.next_cctx_ref,
      record {
        ring = r.1;
        cctxs = (f, w.next_cctx_ref) ∷ w.cctxs;
        next_cctx_ref = (w.next_cctx_ref + 1) % 2 ^ 64;
      },
    )
  ]
]

-- `kernel_def(func, kernel_id)` and `kernel`
unfoldable pub write_kernel_def : List ℕ → ℕ → GpuRingbufWriter → Result (Bool × GpuRingbufWriter)
write_kernel_def f id w =
    put w.ring (encode_kernel_def id f) >>= λ r. ok (r.0, record w { ring = r.1 })

unfoldable pub write_kernel : ℕ → ℕ → ℕ → GpuRingbufWriter → Result (Bool × GpuRingbufWriter)
write_kernel start_tp end_tp id w =
    put w.ring (encode_kernel start_tp end_tp id) >>= λ r. ok (r.0, record w { ring = r.1 })

-- A C string.
unfoldable pub c_string : Payload → List ℕ
c_string [] = []
c_string (b ∷ bs) = let rest = c_string bs in if b == 0 then [] else b ∷ rest

-- What the loop of the monitor takes from an event of a type.
unfoldable pub read_gpu_event : ℕ → Payload → GpuEvent
read_gpu_event type p =
    if type == 0
    then kernel (word_at 1 p) (word_at 2 p) (word_at 3 p)
    else if type == 1
    then kernel_def (word_at 1 p) (c_string (drop 8 (drop 8 p)))
    else unknown
