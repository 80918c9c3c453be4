-- ===== src/Pmm/Release.antt =====
-- `free_frame` of kernel/mm/pmm.c after `alloc_frame`.
use peker_os.Common.{ℕ, ◌*◌, ◌/◌, ◌%◌, ◌^◌, ◌<◌, ◌≡◌, ap, ◌≢◌, true, false, arith, lt→ltb}
use peker_os.Pmm.{
  Pmm, frame_size, mark, bitmap_set, bitmap_clear, bitmap_test, search_limit, alloc_frame,
  free_frame,
}
use peker_os.Pmm.Bits.{bitmap_test-set, bitmap_test-clear, bitmap_set-IsBytes}
use peker_os.Pmm.Count.{count_used-le}
use peker_os.Pmm.Inv.{IsValid}
use peker_os.Pmm.Alloc.{Searched, full, got, alloc_frame-Searched}

-- The same frames are in use, and the same number of them.
abbrev pub SameUse : Pmm → Pmm → Type 0
SameUse q p =
    ((g : ℕ) → bitmap_test q.frame_bitmap g ≡ bitmap_test p.frame_bitmap g)
    × (q.used_frames_count ≡ p.used_frames_count)

module _ {p : Pmm} (v : IsValid p) (f : ℕ) (free : bitmap_test p.frame_bitmap f ≡ false) where
  test-clear-set :
      (g : ℕ)
      → bitmap_test (bitmap_clear (bitmap_set p.frame_bitmap f) f) g ≡ bitmap_test p.frame_bitmap g
  test-clear-set g =
      ground
        (arith, bitmap_test-set v.bytes f g, bitmap_test-clear (bitmap_set-IsBytes v.bytes f) f g)

  free_frame-mark : f < p.total_frames → SameUse (free_frame (mark p f) (f * frame_size)) p
  unfolding free_frame
  free_frame-mark inside =
      let e : f * 4096 / 4096 ≡ f = omega arith in
      let used : bitmap_test (bitmap_set p.frame_bitmap f) f ≡ true =
        ground (arith, bitmap_test-set v.bytes f f) in
      rw (e, lt→ltb _ _ inside, used)
        (
          test-clear-set,
          omega (arith, v.counted, v.fits, count_used-le p.frame_bitmap p.total_frames),
        )

-- In a valid state, if `alloc_frame` does not return 0, `free_frame` at the address that it returned
-- undoes it.
pub free_frame-alloc_frame :
    {p : Pmm}
    → IsValid p
    → (alloc_frame p).0 ≢ 0
    → SameUse (free_frame (alloc_frame p).1 (alloc_frame p).0) p
free_frame-alloc_frame {p} v = go (alloc_frame p) (alloc_frame-Searched p)
  where
    go :
        (out : ℕ × Pmm)
        → Searched p 0 (search_limit p) out
        → out.0 ≢ 0
        → SameUse (free_frame out.1 out.0) p
    go out (full all e) ne = absurd (ne (ap (λ (o : ℕ × Pmm). o.0) e))
    go out (got f lo hi free below e) ne =
        let inside : f < p.total_frames = ground arith in
        let small : (f * 4096) % 2 ^ 32 ≡ f * 4096 = omega (arith, v.fits) in
        rw (e, small) (free_frame-mark v f free inside)
