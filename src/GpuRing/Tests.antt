-- ===== src/GpuRing/Tests.antt =====
-- A concrete ring of include/lo2s/gpu/ringbuf.hpp: one definition fits, and a second does not.
use lo2s.Shared.{ℕ, ◌≡◌, refl, inl, none, List, [], ◌∷◌, replicate, ok, arith}
use lo2s.Rb.{ShmRingbuf, round8}
use lo2s.Rb.Memory.{encode_le}
use lo2s.Rb.Offsets.{type_of, Holds, room}
use lo2s.Rb.Reader.{init}
use lo2s.Rb.Fifo.{after_put, put_lem, put_refused, after_put-Holds}
use lo2s.Rb.Session.{idle, init-Holds}
use lo2s.Rb.Words.{words}
use lo2s.GpuMonitor.{kernel_def}
use lo2s.GpuRing.{GpuRingbufWriter, encode_kernel_def, define_kernel, known, read_gpu_event}
use lo2s.GpuRing.Transport.{gpu_payload, read_gpu_event-gpu_payload}
use lo2s.GpuRing.Names.{define_kernel_refused}

abbrev ring : ShmRingbuf
ring = record {
  header = record { version = 2; size = 128; head = 0; tail = 0; pid = 0; type = 0; clockid = 4 };
  bytes = λ _. 0;
  start = 4096;
}

init_ring : init 8 4096 4 ≡ ok ring
unfolding init
init_ring = refl

empty_ring : Holds ring []
empty_ring =
    init-Holds 8 4096 4 (omega arith) (omega arith) (omega arith) (omega arith) (omega arith)
      init_ring

abbrev short_name : List ℕ
short_name = 97 ∷ []

abbrev long_name : List ℕ
long_name = replicate 100 98

read_gpu_event-gpu_payload_example :
    read_gpu_event
      (type_of (gpu_payload (kernel_def 3 short_name)))
      (gpu_payload (kernel_def 3 short_name))
    ≡ kernel_def 3 short_name
read_gpu_event-gpu_payload_example =
    read_gpu_event-gpu_payload (kernel_def 3 short_name)
      (omega arith, (λ e. absurd (omega (arith, e)), tt))

first_put-Holds :
    Holds (after_put ring (encode_kernel_def 0 short_name)) (encode_kernel_def 0 short_name ∷ [])
unfolding room round8 encode_kernel_def words encode_le
first_put-Holds =
    after_put-Holds empty_ring (encode_kernel_def 0 short_name) (omega arith, omega arith)
      (omega arith)

define_kernel_refused_example :
    (w : GpuRingbufWriter) × (define_kernel short_name
        (record { ring = idle ring; cctxs = []; next_cctx_ref = 0 })
      ≡ ok (0, w))
    × (define_kernel short_name w ≡ ok (0, w))
    × (define_kernel long_name w
        ≡ ok (0, record w { ring = idle (after_put ring (encode_kernel_def 0 short_name)) }))
    × (known long_name w.cctxs ≡ none)
unfolding room round8 encode_kernel_def words encode_le
define_kernel_refused_example =
    define_kernel_refused short_name long_name (idle ring)
      (idle (after_put ring (encode_kernel_def 0 short_name)))
      (idle (after_put ring (encode_kernel_def 0 short_name))) refl
      (put_lem empty_ring (encode_kernel_def 0 short_name) (omega arith, omega arith) (omega arith)
        (inl (omega arith)))
      (put_refused first_put-Holds (encode_kernel_def 1 long_name) (omega arith, omega arith)
        (inl (omega arith)))
