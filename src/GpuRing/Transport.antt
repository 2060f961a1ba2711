-- ===== src/GpuRing/Transport.antt =====
-- The events of include/lo2s/gpu/ringbuf.hpp as src/monitor/gpu_monitor.cpp reads them.
use lo2s.Shared.{ℕ, ◌<◌, ◌^◌, ◌≡◌, ◌≢◌, refl, ◌∙◌, List, [], ◌∷◌, ◌++◌, All, arith}
use lo2s.Rb.Memory.{encode_le}
use lo2s.Rb.Offsets.{Payload, type_of}
use lo2s.Rb.Words.{words, word_at, word_at-zero, word_at-suc, drop}
use lo2s.GpuMonitor.{GpuEvent, kernel, kernel_def, unknown}
use lo2s.GpuRing.{encode_kernel_def, encode_kernel, c_string, read_gpu_event}

-- Fields that are `uint64_t`, and a name without a byte 0.
abbrev pub IsGpu : GpuEvent → Type 0
IsGpu (kernel s e k) = (s < 2 ^ 64) × (e < 2 ^ 64) × (k < 2 ^ 64)
IsGpu (kernel_def k name) = (k < 2 ^ 64) × All (λ b. b ≢ 0) name
IsGpu unknown = ⊥

unfoldable pub gpu_payload : GpuEvent → Payload
gpu_payload (kernel s e k) = encode_kernel s e k
gpu_payload (kernel_def k name) = encode_kernel_def k name
gpu_payload unknown = []

c_string_append : (name : List ℕ) → All (λ b. b ≢ 0) name → c_string (name ++ 0 ∷ []) ≡ name
unfolding c_string
c_string_append [] a = refl
c_string_append (b ∷ name) a = ground (arith, a.0, c_string_append name a.1)

type_lem : (type : ℕ) (ws bs : List ℕ) → type < 2 ^ 64 → type_of (words (type ∷ ws) bs) ≡ type
unfolding words word_at
type_lem type ws bs h = word_at-zero type (words ws bs) h

first_lem : (type w : ℕ) (ws bs : List ℕ) → w < 2 ^ 64 → word_at 1 (words (type ∷ w ∷ ws) bs) ≡ w
unfolding words
first_lem type w ws bs h = word_at-suc 0 type (words (w ∷ ws) bs) ∙ word_at-zero w (words ws bs) h

second_lem :
    (type v w : ℕ) (ws bs : List ℕ) → w < 2 ^ 64 → word_at 2 (words (type ∷ v ∷ w ∷ ws) bs) ≡ w
unfolding words
second_lem type v w ws bs h = word_at-suc 1 type (words (v ∷ w ∷ ws) bs) ∙ first_lem v w ws bs h

third_lem :
    (type u v w : ℕ) (ws bs : List ℕ)
    → w < 2 ^ 64
    → word_at 3 (words (type ∷ u ∷ v ∷ w ∷ ws) bs) ≡ w
unfolding words
third_lem type u v w ws bs h =
    word_at-suc 2 type (words (u ∷ v ∷ w ∷ ws) bs) ∙ second_lem u v w ws bs h

name_lem : (type id : ℕ) (bs : List ℕ) → drop 8 (drop 8 (words (type ∷ id ∷ []) bs)) ≡ bs
unfolding words encode_le
name_lem type id bs = refl

-- What the monitor reads of a kernel, or of the definition of one whose name has no byte 0, is what
-- the library wrote.
pub read_gpu_event-gpu_payload :
    (e : GpuEvent) → IsGpu e → read_gpu_event (type_of (gpu_payload e)) (gpu_payload e) ≡ e
unfolding read_gpu_event gpu_payload encode_kernel encode_kernel_def
read_gpu_event-gpu_payload (kernel s e k) h =
    rw
      (
        type_lem 0 (s ∷ e ∷ k ∷ []) [] (omega arith),
        first_lem 0 s (e ∷ k ∷ []) [] h.0,
        second_lem 0 s e (k ∷ []) [] h.1,
        third_lem 0 s e k [] [] h.2,
      )
      refl
read_gpu_event-gpu_payload (kernel_def k name) h =
    rw
      (
        type_lem 1 (k ∷ []) (name ++ 0 ∷ []) (omega arith),
        first_lem 1 k [] (name ++ 0 ∷ []) h.0,
        name_lem 1 k (name ++ 0 ∷ []),
        c_string_append name h.1,
      )
      refl
read_gpu_event-gpu_payload unknown h = elim h [ ]
