-- ===== src/Pmm/Alloc.antt =====
-- `alloc_frame` and `free_frame` of kernel/mm/pmm.c.
use peker_os.Common.{
  ℕ, zero, suc, ◌+◌, ◌*◌, ◌%◌, ◌^◌, ◌≤◌, ◌<◌, min, ◌≡◌, ◌≢◌, refl, true, false, arith, inl, inr,
  ◌==◌, Bool-cases,
}
use peker_os.Pmm.{Pmm, frame_size, mark, bitmap_test, search_limit, alloc_loop, alloc_frame}
use peker_os.Pmm.Bits.{bitmap_test-set}
use peker_os.Pmm.Count.{count_used-le}
use peker_os.Pmm.Inv.{IsValid, mark-IsValid}

-- The frame `f` was free; in `q` it is in use and counted, and nothing else is different.
pub record Takes (p : Pmm) (f : ℕ) (q : Pmm) : Type 0 where
  pub was_free : bitmap_test p.frame_bitmap f ≡ false
  pub in_use : bitmap_test q.frame_bitmap f ≡ true
  pub others : (g : ℕ) → f ≢ g → bitmap_test q.frame_bitmap g ≡ bitmap_test p.frame_bitmap g
  pub counted : q.used_frames_count ≡ p.used_frames_count + 1
  pub total : q.total_frames ≡ p.total_frames
  pub memory : q.total_memory_kb ≡ p.total_memory_kb

-- The first free frame below `limit` is taken and its address returned, or there is none.
pub data Found (p : Pmm) (limit : ℕ) (out : ℕ × Pmm) : Type 0 where
  no_frame :
      ((g : ℕ) → g < limit → bitmap_test p.frame_bitmap g ≡ true) → out ≡ (0, p) → Found p limit out
  takes :
      (f : ℕ)
      → f < limit
      → ((g : ℕ) → g < f → bitmap_test p.frame_bitmap g ≡ true)
      → out.0 ≡ f * 4096
      → Takes p f out.1
      → Found p limit out

-- What a search of the frames from `from` to below `limit` may return.
pub data Searched (p : Pmm) (from limit : ℕ) (out : ℕ × Pmm) : Type 0 where
  full :
      ((g : ℕ) → from ≤ g → g < limit → bitmap_test p.frame_bitmap g ≡ true)
      → out ≡ (0, p)
      → Searched p from limit out
  got :
      (f : ℕ)
      → from ≤ f
      → f < limit
      → bitmap_test p.frame_bitmap f ≡ false
      → ((g : ℕ) → from ≤ g → g < f → bitmap_test p.frame_bitmap g ≡ true)
      → out ≡ ((f * frame_size) % 2 ^ 32, mark p f)
      → Searched p from limit out

-- One more used frame in front of a search.
Searched-step :
    (p : Pmm) (f limit : ℕ) (out : ℕ × Pmm)
    → bitmap_test p.frame_bitmap f ≡ true
    → Searched p (f + 1) limit out
    → Searched p f limit out
Searched-step p f limit out used (full all e) =
    full
      (λ g lo hi. elim (Bool-cases (f == g)) [
        | inl same ↦ ground (arith, used)
        | inr other ↦ all g (ground arith) hi
      ])
      e
Searched-step p f limit out used (got h lo hi free below e) =
    got h (omega arith) hi free
      (λ g lo' hi'. elim (Bool-cases (f == g)) [
        | inl same ↦ ground (arith, used)
        | inr other ↦ below g (ground arith) hi'
      ])
      e

alloc_loop-Searched :
    (p : Pmm) (n f limit : ℕ) → f + n ≡ limit → Searched p f limit (alloc_loop p n f)
unfolding alloc_loop
alloc_loop-Searched p zero f limit e = full (λ g lo hi. absurd (omega arith)) refl
alloc_loop-Searched p (suc n) f limit e = elim (Bool-cases (bitmap_test p.frame_bitmap f)) [
  | inl used ↦
      rw used (Searched-step p f limit _ used (alloc_loop-Searched p n (f + 1) limit (omega arith)))
  | inr free ↦
      rw free (got f (omega arith) (omega arith) free (λ g lo hi. absurd (omega arith)) refl)
]

pub alloc_frame-Searched : (p : Pmm) → Searched p 0 (search_limit p) (alloc_frame p)
unfolding alloc_frame
alloc_frame-Searched p = alloc_loop-Searched p (search_limit p) 0 (search_limit p) (omega arith)

mark-Takes :
    {p : Pmm} (f : ℕ) → IsValid p → bitmap_test p.frame_bitmap f ≡ false → Takes p f (mark p f)
mark-Takes {p} f v free = record {
  was_free = free;
  in_use = ground (arith, bitmap_test-set v.bytes f f);
  others = λ g ne. ground (arith, bitmap_test-set v.bytes f g);
  counted = omega (arith, v.counted, v.fits, count_used-le p.frame_bitmap p.total_frames);
  total = refl;
  memory = refl;
}

-- In a valid state `alloc_frame` takes the first free frame below the total and below 262144, the first
-- GB, and returns its address: the frame is in use and counted then, and nothing else is different. It
-- returns 0 and changes nothing if there is no such frame.
pub alloc_frame-Found : {p : Pmm} → IsValid p → Found p (min p.total_frames 262144) (alloc_frame p)
alloc_frame-Found {p} v = go (alloc_frame p) (alloc_frame-Searched p)
  where
    go :
        (out : ℕ × Pmm)
        → Searched p 0 (search_limit p) out
        → Found p (min p.total_frames 262144) out
    go out (full all e) = no_frame (λ g hi. all g (omega arith) (ground (arith, hi))) e
    go out (got f lo hi free below e) = rw e (
        takes f (ground (arith, hi)) (λ g less. below g (omega arith) less) (ground (arith, hi))
          (mark-Takes f v free))

-- `alloc_frame` keeps the invariant.
pub alloc_frame-IsValid : {p : Pmm} → IsValid p → IsValid (alloc_frame p).1
alloc_frame-IsValid {p} v = go (alloc_frame p) (alloc_frame-Searched p)
  where
    go : (out : ℕ × Pmm) → Searched p 0 (search_limit p) out → IsValid out.1
    go out (full all e) = rw e v
    go out (got f lo hi free below e) = rw e (mark-IsValid v f free (ground arith))
