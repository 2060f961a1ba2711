-- ===== src/GpuRing/Names.antt =====
-- The numbers that include/lo2s/gpu/ringbuf.hpp gives to the names of kernels.
use lo2s.Shared.{
  ℕ, ◌+◌, ◌%◌, ◌^◌, ◌≤◌, ◌<◌, ◌≡◌, refl, true, false, none, some, List, [], ◌∷◌, ok, arith,
}
use lo2s.Rb.Writer.{RingbufWriter, put}
use lo2s.GpuRing.{eq_text, known, GpuRingbufWriter, encode_kernel_def, define_kernel}

eq_text_refl : (xs : List ℕ) → eq_text xs xs ≡ true
eq_text_refl [] = refl
eq_text_refl (x ∷ xs) = ground (arith, eq_text_refl xs)

-- The numbers of the names that are known.
abbrev pub Below : ℕ → List (List ℕ × ℕ) → Type 0
Below n [] = Unit {0}
Below n (e ∷ r) = (e.1 < n) × Below (e.1) r

Below-mono : (m n : ℕ) (r : List (List ℕ × ℕ)) → m ≤ n → Below m r → Below n r
Below-mono m n [] h b = tt
Below-mono m n (e ∷ r) h b = (omega (arith, h, b.0), b.1)

refused_lem :
    (f : List ℕ) (w : GpuRingbufWriter) (r : RingbufWriter)
    → known f w.cctxs ≡ none
    → put w.ring (encode_kernel_def w.next_cctx_ref f) ≡ ok (false, r)
    → define_kernel f w ≡ ok (0, record w { ring = r })
unfolding define_kernel
refused_lem f w r k e = rw (k, e, define_kernel) refl

written_lem :
    (f : List ℕ) (w : GpuRingbufWriter) (r : RingbufWriter)
    → known f w.cctxs ≡ none
    → put w.ring (encode_kernel_def w.next_cctx_ref f) ≡ ok (true, r)
    → define_kernel f w
      ≡ ok (
        w.next_cctx_ref,
        record {
          ring = r;
          cctxs = (f, w.next_cctx_ref) ∷ w.cctxs;
          next_cctx_ref = (w.next_cctx_ref + 1) % 2 ^ 64;
        },
      )
unfolding define_kernel
written_lem f w r k e = rw (k, e, define_kernel) refl

known_lem :
    (f : List ℕ) (w : GpuRingbufWriter) (id : ℕ)
    → known f w.cctxs ≡ some id
    → define_kernel f w ≡ ok (id, w)
unfolding define_kernel
known_lem f w id k = rw (k, define_kernel) refl

-- The first name of a writer gets the number 0, and gets it again whenever it is asked for. If the
-- ring then has no room for the definition of another name, that name is answered with 0 too, and it
-- is not remembered: what the library writes for it with that number is taken for the first kernel.
pub define_kernel_refused :
    (f g : List ℕ) (ring first second : RingbufWriter)
    → eq_text f g ≡ false
    → put ring (encode_kernel_def 0 f) ≡ ok (true, first)
    → put first (encode_kernel_def 1 g) ≡ ok (false, second)
    → (w : GpuRingbufWriter) × (define_kernel f
          (record { ring = ring; cctxs = []; next_cctx_ref = 0 })
        ≡ ok (0, w))
      × (define_kernel f w ≡ ok (0, w))
      × (define_kernel g w ≡ ok (0, record w { ring = second }))
      × (known g w.cctxs ≡ none)
define_kernel_refused f g ring first second d e h =
    let w : GpuRingbufWriter = record { ring = first; cctxs = (f, 0) ∷ []; next_cctx_ref = 1 } in
    (
      w,
      written_lem f (record { ring = ring; cctxs = []; next_cctx_ref = 0 }) first refl e,
      known_lem f w 0 (ground (arith, eq_text_refl f)),
      refused_lem g w second (ground (arith, d)) h,
      ground (arith, d),
    )
