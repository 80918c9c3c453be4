-- ===== src/Pmm/Contiguous.antt =====
-- `alloc_contiguous_frames` of kernel/mm/pmm.c.
use peker_os.Common.{
  ℕ, zero, suc, ◌+◌, ◌-◌, ◌*◌, ◌%◌, ◌^◌, ◌≤◌, ◌<◌, ◌≡◌, refl, ap, ◌∙◌, ◌⊎◌, true, false, arith, inl,
  inr, ◌==◌, Bool-cases, if◌then◌else◌, count_up-keeps,
}
use native.Mathlib.Decide.{dec_lt}
use peker_os.Pmm.{
  Pmm, frame_size, mark, mark_range, bitmap_test, contiguous_loop, alloc_contiguous_frames,
}
use peker_os.Pmm.Bits.{bitmap_test-set}
use peker_os.Pmm.Inv.{IsValid, mark-IsValid}

-- `q` is `p` with the frames from `lo` to below `hi` taken.
pub record Taken (p : Pmm) (lo hi : ℕ) (q : Pmm) : Type 0 where
  pub valid : IsValid q
  pub total : q.total_frames ≡ p.total_frames
  pub used : (g : ℕ) → lo ≤ g → g < hi → bitmap_test q.frame_bitmap g ≡ true
  pub others :
      (g : ℕ) → (g < lo) ⊎ (hi ≤ g) → bitmap_test q.frame_bitmap g ≡ bitmap_test p.frame_bitmap g

-- The frames from `lo` to below `hi` are free.
abbrev pub AllFree : Pmm → ℕ → ℕ → Type 0
AllFree p lo hi = (g : ℕ) → lo ≤ g → g < hi → bitmap_test p.frame_bitmap g ≡ false

module _ {p : Pmm} (lo : ℕ) where
  Taken-mark :
      (k : ℕ) (q : Pmm)
      → lo ≤ k
      → k < p.total_frames
      → bitmap_test p.frame_bitmap k ≡ false
      → Taken p lo k q
      → Taken p lo (k + 1) (mark q k)
  Taken-mark k q le inside free t = record {
    valid = mark-IsValid t.valid k (t.others k (inr (omega arith)) ∙ free) (omega (arith, t.total));
    total = t.total;
    used = λ g from to. elim (Bool-cases (k == g)) [
      | inl same ↦ ground (arith, bitmap_test-set t.valid.bytes k g)
      | inr other ↦ ground (arith, bitmap_test-set t.valid.bytes k g, t.used g)
    ];
    others = λ g out. ground (arith, bitmap_test-set t.valid.bytes k g, t.others g);
  }

  mark_range-Taken :
      (count : ℕ)
      → IsValid p
      → lo + count ≤ p.total_frames
      → AllFree p lo (lo + count)
      → Taken p lo (lo + count) (mark_range p lo count)
  unfolding mark_range
  mark_range-Taken count v inside free =
      count_up-keeps (Taken p lo) lo count (lo + count) refl
        (λ k q from to t. Taken-mark k q from (omega arith) (free k from to) t)
        (record {
          valid = v;
          total = refl;
          used = λ g from to. absurd (omega arith);
          others = λ g out. refl;
        })

-- Each run of `count` frames that ends at `f` at most holds a used frame.
abbrev pub NoRun : Pmm → ℕ → ℕ → Type 0
NoRun p count f =
    (s : ℕ)
    → s + count ≤ f
    → (g : ℕ) × (s ≤ g) × (g < s + count) × (bitmap_test p.frame_bitmap g ≡ true)

pub data FoundRun (p : Pmm) (count : ℕ) (out : ℕ × Pmm) : Type 0 where
  full : NoRun p count p.total_frames → out ≡ (0, p) → FoundRun p count out
  got :
      (s : ℕ) (q : Pmm)
      → s + count ≤ p.total_frames
      → AllFree p s (s + count)
      → Taken p s (s + count) q
      → out ≡ (s * frame_size, q)
      → FoundRun p count out

-- What the loop knows at `f`: the run of free frames that ends there is as long as it counted, and
-- the frame in front of it is used.
record Scan (p : Pmm) (count f current_count start_frame : ℕ) : Type 0 where
  short : current_count < count
  run : AllFree p (f - current_count) f
  start : (current_count ≡ 0) ⊎ (start_frame + current_count ≡ f)
  front :
      (current_count ≡ f)
      ⊎ ((current_count < f) × (bitmap_test p.frame_bitmap (f - current_count - 1) ≡ true))
  none_yet : NoRun p count f

module _ (p : Pmm) (count : ℕ) where
  NoRun-used :
      (f : ℕ)
      → 0 < count
      → bitmap_test p.frame_bitmap f ≡ true
      → NoRun p count f
      → NoRun p count (f + 1)
  NoRun-used f pos used none_yet s le = elim (dec_lt (s + count) (f + 1)) [
    | yes h ↦ none_yet s (omega arith)
    | no h ↦ (f, omega arith, omega arith, used)
  ]

  Scan-used :
      {f cc start : ℕ}
      → bitmap_test p.frame_bitmap f ≡ true
      → Scan p count f cc start
      → Scan p count (f + 1) 0 start
  Scan-used {f} used sc = record {
    short = omega (arith, sc.short);
    run = λ g lo hi. absurd (omega arith);
    start = inl refl;
    front = inr (omega arith, let e : f + 1 - 0 - 1 ≡ f = omega arith in rw e used);
    none_yet = NoRun-used f (omega (arith, sc.short)) used sc.none_yet;
  }

  -- A run that would end with the free frame at `f` is too short or holds the frame in front.
  NoRun-free : {f cc start : ℕ} → suc cc < count → Scan p count f cc start → NoRun p count (f + 1)
  NoRun-free {f} {cc} long sc s le = elim (dec_lt (s + count) (f + 1)) [
    | yes h ↦ sc.none_yet s (omega arith)
    | no h ↦ elim sc.front [
      | inl all ↦ absurd (omega arith)
      | inr (lt, used) ↦ (f - cc - 1, omega arith, omega arith, used)
    ]
  ]

  Scan-free :
      {f cc start : ℕ}
      → bitmap_test p.frame_bitmap f ≡ false
      → suc cc < count
      → Scan p count f cc start
      → Scan p count (f + 1) (cc + 1) (if cc == 0 then f else start)
  Scan-free {f} {cc} {start} free long sc =
      let e : f + 1 - (cc + 1) ≡ f - cc = omega arith in
      record {
        short = omega arith;
        run = λ g lo hi. elim (Bool-cases (f == g)) [
          | inl same ↦ ground (arith, free)
          | inr other ↦ sc.run g (omega arith) (ground arith)
        ];
        start = inr (ground (arith, sc.start));
        front = elim sc.front [
          | inl all ↦ inl (omega arith)
          | inr (lt, used) ↦ inr (omega arith, rw e used)
        ];
        none_yet = NoRun-free long sc;
      }

  -- The frame that completes a run.
  Scan-last :
      {f cc start : ℕ}
      → IsValid p
      → f < p.total_frames
      → bitmap_test p.frame_bitmap f ≡ false
      → cc + 1 ≡ count
      → Scan p count f cc start
      → (s : ℕ) → s ≡ (if cc == 0 then f else start)
      → FoundRun p count ((s * frame_size) % 2 ^ 32, mark_range p s count)
  Scan-last {f} {cc} v inside free last sc s es =
      let end : s + count ≡ f + 1 = ground (arith, sc.start) in
      let run : AllFree p s (s + count) = λ g lo hi. elim (Bool-cases (f == g)) [
        | inl same ↦ ground (arith, free)
        | inr other ↦ sc.run g (omega arith) (ground arith)
      ] in
      got s (mark_range p s count) (omega arith) run (mark_range-Taken s count v (omega arith) run)
        (ap (λ (a : ℕ). (a, mark_range p s count)) (omega (arith, v.fits, sc.short)))

  contiguous_loop-FoundRun :
      (n f cc start : ℕ)
      → IsValid p
      → f + n ≡ p.total_frames
      → Scan p count f cc start
      → FoundRun p count (contiguous_loop p count n f cc start)
  unfolding contiguous_loop
  contiguous_loop-FoundRun zero f cc start v e sc =
      let e' : f ≡ p.total_frames = omega arith in full (rw e' at sc.none_yet) refl
  contiguous_loop-FoundRun (suc n) f cc start v e sc =
      elim (Bool-cases (bitmap_test p.frame_bitmap f)) [
        | inl used ↦
            rw used (contiguous_loop-FoundRun n (f + 1) 0 start v (omega arith) (Scan-used used sc))
        | inr free ↦ elim (Bool-cases (cc + 1 == count)) [
          | inl last ↦ rw (free, last) (Scan-last v (omega arith) free (ground arith) sc _ refl)
          | inr more ↦
              rw (free, more)
                (contiguous_loop-FoundRun n (f + 1) (cc + 1) (if cc == 0 then f else start) v
                  (omega arith) (Scan-free free (ground (arith, sc.short)) sc))
        ]
      ]

-- In a valid state, for a count above 0, `alloc_contiguous_frames` takes the frames of a run that
-- was free, below the total, and changes no other frame; it returns 0 and changes nothing only if
-- there is no such run.
pub alloc_contiguous-FoundRun :
    {p : Pmm} (count : ℕ)
    → 0 < count
    → IsValid p
    → FoundRun p count (alloc_contiguous_frames p count)
unfolding alloc_contiguous_frames
alloc_contiguous-FoundRun {p} count pos v =
    contiguous_loop-FoundRun p count p.total_frames 0 0 0 v (omega arith) (record {
      short = pos;
      run = λ g lo hi. absurd (omega arith);
      start = inl refl;
      front = inl refl;
      none_yet = λ s le. absurd (omega arith);
    })
