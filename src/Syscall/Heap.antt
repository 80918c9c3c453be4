-- ===== src/Syscall/Heap.antt =====
-- `sys_sbrk` of kernel/proc/syscall.c: the heap of a task, page by page. A call of paging_map_memory is
-- an entry of a list, with the frame and the address.
use peker_os.Common.{
  ℕ, zero, suc, ◌+◌, ◌-◌, ◌*◌, ◌/◌, ◌%◌, ◌^◌, ◌≤◌, ◌<◌, ◌≡◌, refl, sym, ap, ◌∙◌, ◌≢◌, false, arith,
  ◌==◌, if◌then◌else◌, some, List, [], ◌∷◌, ◌++◌, get_elem?,
}
use mathlib.Core.List.{append-nil, append_assoc}
use peker_os.Pmm.{Pmm, alloc_frame}

-- The frames, the pages that were mapped, and the end of the heap.
pub record Heap : Type 0 where
  pub frames : Pmm
  pub maps : List (ℕ × ℕ)
  pub heap_end : ℕ

-- The rounds left, and the page.
unfoldable pub map_pages : ℕ → ℕ → Heap → Heap
map_pages zero page h = h
map_pages (suc n) page h =
    let (frame, frames) = alloc_frame h.frames in
    map_pages n (page + 1)
      (record h { frames = frames; maps = h.maps ++ ((frame, page * 4096 % 2 ^ 32) ∷ []) })

-- The number of pages up to an address.
unfoldable pub pages_to : ℕ → ℕ
pages_to a = (a + 4095) % 2 ^ 32 / 4096

-- The value in `eax`, and the state. The increment is a word; a negative one is 2 ^ 32 less.
unfoldable pub sys_sbrk : Heap → ℕ → ℕ × Heap
sys_sbrk h increment =
    if increment == 0
    then (h.heap_end, h)
    else (let new_end = (h.heap_end + increment) % 2 ^ 32 in
        let h1 = map_pages (pages_to new_end - pages_to h.heap_end) (pages_to h.heap_end) h in
        (h.heap_end, record h1 { heap_end = new_end }))

-- The addresses that are mapped one after the other.
addresses : ℕ → ℕ → List ℕ
addresses zero page = []
addresses (suc n) page = page * 4096 % 2 ^ 32 ∷ addresses n (page + 1)

pub mapped_at : List (ℕ × ℕ) → List ℕ
mapped_at [] = []
mapped_at ((frame, address) ∷ more) = address ∷ mapped_at more

mapped_at-append : (xs ys : List (ℕ × ℕ)) → mapped_at (xs ++ ys) ≡ mapped_at xs ++ mapped_at ys
unfolding mapped_at
mapped_at-append [] ys = refl
mapped_at-append ((frame, address) ∷ more) ys = ap (λ zs. address ∷ zs) (mapped_at-append more ys)

-- The pages that are mapped are those of the rounds, in order, behind the ones of before.
map_pages-addresses :
    (n page : ℕ) (h : Heap)
    → mapped_at (map_pages n page h).maps ≡ mapped_at h.maps ++ addresses n page
unfolding map_pages addresses mapped_at
map_pages-addresses zero page h = sym (append-nil (mapped_at h.maps))
map_pages-addresses (suc n) page h =
    let frame = (alloc_frame h.frames).0 in
    let frames = (alloc_frame h.frames).1 in
    map_pages-addresses n (page + 1)
      (record h { frames = frames; maps = h.maps ++ ((frame, page * 4096 % 2 ^ 32) ∷ []) })
    ∙ ap (λ zs. zs ++ addresses n (page + 1))
        (mapped_at-append h.maps ((frame, page * 4096 % 2 ^ 32) ∷ []))
    ∙ append_assoc (mapped_at h.maps) (page * 4096 % 2 ^ 32 ∷ []) (addresses n (page + 1))

get-addresses :
    (n page k : ℕ) → k < n → get_elem? (addresses n page) k ≡ some ((page + k) * 4096 % 2 ^ 32)
unfolding addresses
get-addresses zero page k lt = absurd (omega arith)
get-addresses (suc n) page zero lt =
    ap (λ p. some (p * 4096 % 2 ^ 32)) {x = page} {y = page + 0} (omega arith)
get-addresses (suc n) page (suc k) lt =
    get-addresses n (page + 1) k (omega arith)
    ∙ ap (λ p. some (p * 4096 % 2 ^ 32)) {x = page + 1 + k} {y = page + suc k} (omega arith)

-- `sys_sbrk` with an increment that keeps the end of the heap below the last page of the address space:
-- it gives the old end, the end moves by the increment, and the pages that are mapped, behind those of
-- before, hold each address of the new part that was not on a page of the old one.
module _ (h : Heap) (increment : ℕ) (some_more : increment ≢ 0)
    (fits : h.heap_end + increment + 4095 < 2 ^ 32) where
  sys_sbrk-end :
      ((sys_sbrk h increment).0 ≡ h.heap_end)
      × ((sys_sbrk h increment).1.heap_end ≡ h.heap_end + increment)
  unfolding sys_sbrk
  sys_sbrk-end = let more : increment == 0 ≡ false = ground arith in rw (more) (refl, omega arith)

  sys_sbrk-maps :
      mapped_at (sys_sbrk h increment).1.maps
      ≡ mapped_at h.maps
        ++ addresses (pages_to (h.heap_end + increment) - pages_to h.heap_end) (pages_to h.heap_end)
  unfolding sys_sbrk
  sys_sbrk-maps =
      let more : increment == 0 ≡ false = ground arith in
      let no_wrap : (h.heap_end + increment) % 2 ^ 32 ≡ h.heap_end + increment = omega arith in
      rw (more, no_wrap)
        (map_pages-addresses (pages_to (h.heap_end + increment) - pages_to h.heap_end)
          (pages_to h.heap_end) h)

  sys_sbrk-covers :
      (a : ℕ)
      → 4096 * pages_to h.heap_end ≤ a
      → a < h.heap_end + increment
      → get_elem?
          (addresses
            (pages_to (h.heap_end + increment) - pages_to h.heap_end)
            (pages_to h.heap_end))
          (a / 4096 - pages_to h.heap_end)
        ≡ some (a - a % 4096)
  unfolding pages_to
  sys_sbrk-covers a lo hi =
      get-addresses (pages_to (h.heap_end + increment) - pages_to h.heap_end) (pages_to h.heap_end)
        (a / 4096 - pages_to h.heap_end) (omega arith)
      ∙ ap some (omega arith)
