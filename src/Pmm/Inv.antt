-- ===== src/Pmm/Inv.antt =====
-- The invariant of kernel/mm/pmm.c: the counter is the number of frames in use, and the frames
-- fit the bitmap.
use peker_os.Common.{
  ℕ, ◌+◌, ◌/◌, ◌≤◌, ◌<◌, ◌≡◌, true, false, arith, inl, inr, ltb, ltb→lt, Bool-cases,
}
use peker_os.Common.Bytes.{IsBytes}
use peker_os.Pmm.{
  Pmm, max_frames, frame_size, mark, unmark, bitmap_test, free_frame, pmm_free_frames,
}
use peker_os.Pmm.Bits.{bitmap_set-IsBytes, bitmap_clear-IsBytes}
use peker_os.Pmm.Count.{count_used, count_used-le, count_used-set, count_used-clear}

pub record IsValid (p : Pmm) : Type 0 where
  pub bytes : IsBytes p.frame_bitmap
  pub fits : p.total_frames ≤ max_frames
  pub counted : p.used_frames_count ≡ count_used p.frame_bitmap p.total_frames

module _ {p : Pmm} (v : IsValid p) where
  pub mark-IsValid :
      (f : ℕ) → bitmap_test p.frame_bitmap f ≡ false → f < p.total_frames → IsValid (mark p f)
  mark-IsValid f free inside = record {
    bytes = bitmap_set-IsBytes v.bytes f;
    fits = v.fits;
    counted = omega (
      arith,
      v.counted,
      v.fits,
      count_used-set v.bytes f p.total_frames free inside,
      count_used-le p.frame_bitmap p.total_frames,
    );
  }

  pub unmark-IsValid :
      (f : ℕ) → bitmap_test p.frame_bitmap f ≡ true → f < p.total_frames → IsValid (unmark p f)
  unmark-IsValid f used inside = record {
    bytes = bitmap_clear-IsBytes v.bytes f;
    fits = v.fits;
    counted = omega (
      arith,
      v.counted,
      v.fits,
      count_used-clear v.bytes f p.total_frames used inside,
      count_used-le p.frame_bitmap p.total_frames,
    );
  }

  -- `free_frame` keeps the count of frames right, whatever address it is given.
  pub free_frame-IsValid : (addr : ℕ) → IsValid (free_frame p addr)
  unfolding free_frame
  free_frame-IsValid addr = elim (Bool-cases (ltb (addr / frame_size) p.total_frames)) [
    | inl inside ↦ elim (Bool-cases (bitmap_test p.frame_bitmap (addr / frame_size))) [
      | inl used ↦ rw (inside, used) (unmark-IsValid (addr / frame_size) used (ltb→lt _ _ inside))
      | inr unused ↦ rw (inside, unused) v
    ]
    | inr outside ↦ rw outside v
  ]

  -- The number of free frames that is reported and the number in use add up to the total.
  pub free_frames-add-used : pmm_free_frames p + p.used_frames_count ≡ p.total_frames
  unfolding pmm_free_frames
  free_frames-add-used =
      omega (arith, v.counted, v.fits, count_used-le p.frame_bitmap p.total_frames)
