-- ===== src/Kheap/Chain.antt =====
-- The pointers of kernel/mm/kheap.c: when headers in memory stand for a list of blocks.
use peker_os.Common.{
  ℕ, ◌+◌, ◌≤◌, ◌<◌, ◌≡◌, refl, sym, ap, ◌∙◌, ◌≢◌, ◌⊎◌, arith, inl, inr, List, [], ◌∷◌, ◌++◌,
}
use peker_os.Kheap.{HeapHeader, Memory, set_prev_if}
use peker_os.Kheap.Blocks.{Block, span}

abbrev pub header : Block → ℕ → ℕ → HeapHeader
header b next prev = record { size = b.size; is_free = b.free; next = next; prev = prev }

-- Where the blocks `xs` from `a` on begin, if there are any; `stop` if there are none.
abbrev pub next_of : List Block → ℕ → ℕ → ℕ
next_of [] a stop = stop
next_of (b ∷ xs) a stop = a

-- From `a` on memory holds the headers of `xs`, one behind the other without a gap, each with the
-- address of the next (`stop` behind the last) and of the one before (`prev` for the first).
abbrev pub Chain : Memory → ℕ → ℕ → ℕ → List Block → Type 0
Chain m stop prev a [] = Unit
Chain m stop prev a (b ∷ xs) =
    (m a ≡ header b (next_of xs (a + b.size) stop) prev)
    × (16 ≤ b.size)
    × Chain m stop a (a + b.size) xs

-- A chain survives what does not touch its bytes.
pub Chain-frame :
    {m m' : Memory} (stop prev a : ℕ) (xs : List Block)
    → ((c : ℕ) → a ≤ c → c < a + span xs → m' c ≡ m c)
    → Chain m stop prev a xs
    → Chain m' stop prev a xs
Chain-frame stop prev a [] same ch = tt
Chain-frame stop prev a (b ∷ xs) same (e, big, ch) = (
  same a (omega arith) (omega arith) ∙ e,
  big,
  Chain-frame stop a (a + b.size) xs (λ c lo hi. same c (omega arith) (omega arith)) ch,
)

pub set_prev_if-other : (m : Memory) (p q c : ℕ) → c ≢ p → set_prev_if m p q c ≡ m c
set_prev_if-other m p q c ne = ground arith

-- A new predecessor of the first block, if there is one.
pub Chain-set_prev_if :
    (m : Memory) (prev a q : ℕ) (xs : List Block)
    → 0 < a
    → Chain m 0 prev a xs
    → Chain (set_prev_if m (next_of xs a 0) q) 0 q a xs
Chain-set_prev_if m prev a q [] pos ch = tt
Chain-set_prev_if m prev a q (b ∷ xs) pos (e, big, ch) = (
  ground (arith, e),
  big,
  Chain-frame 0 a (a + b.size) xs (λ c lo hi. set_prev_if-other m a q c (omega arith)) ch,
)

-- The first block of a chain and the address behind it.
pub next_of-bounds : (xs : List Block) (a : ℕ) → (next_of xs a 0 ≡ 0) ⊎ (next_of xs a 0 ≡ a)
next_of-bounds [] a = inl refl
next_of-bounds (b ∷ xs) a = inr refl

-- Writing the next block's link leaves the memory in front alone.
pub set_prev_if-front :
    (m : Memory) (q c a : ℕ) (xs : List Block) → c < a → set_prev_if m (next_of xs a 0) q c ≡ m c
set_prev_if-front m q c a [] lt = refl
set_prev_if-front m q c a (b ∷ xs) lt = set_prev_if-other m a q c (omega arith)

-- The chain of the new memory from `a` on, and the old memory in front of it.
pub record Took (m m' : Memory) (p a : ℕ) (ys : List Block) : Type 0 where
  pub chain : Chain m' 0 p a ys
  pub front : (c : ℕ) → c < a → m' c ≡ m c

-- A block in front of a chain that changed.
pub Took-cons :
    {m m' : Memory} {p a : ℕ} (b : Block) (xs : List Block) {ys : List Block}
    → Chain m 0 p a (b ∷ xs)
    → next_of ys (a + b.size) 0 ≡ next_of xs (a + b.size) 0
    → Took m m' a (a + b.size) ys
    → Took m m' p a (b ∷ ys)
Took-cons {p} {a} b xs (e, big, ch) same t = record {
  chain = (t.front a (omega arith) ∙ e ∙ ap (λ n. header b n p) (sym same), big, t.chain);
  front = λ c lt. t.front c (omega arith);
}

next_of-append :
    (pre xs ys : List Block) (a : ℕ)
    → next_of ys a 0 ≡ next_of xs a 0
    → next_of (pre ++ ys) a 0 ≡ next_of (pre ++ xs) a 0
next_of-append [] xs ys a e = e
next_of-append (b ∷ pre) xs ys a e = refl

-- Blocks in front of a chain that changed.
pub Took-append :
    {m m' : Memory} (p a t : ℕ) (pre xs ys : List Block)
    → ((c : ℕ) → next_of ys c 0 ≡ next_of xs c 0)
    → t ≡ a + span pre
    → ((q : ℕ) → Chain m 0 q t xs → Took m m' q t ys)
    → Chain m 0 p a (pre ++ xs)
    → Took m m' p a (pre ++ ys)
Took-append p a t [] xs ys same e change ch =
    let e' : t ≡ a = omega arith in rw e' at (change p (rw e' ch))
Took-append p a t (b ∷ pre) xs ys same e change ch =
    Took-cons b (pre ++ xs) ch (next_of-append pre xs ys (a + b.size) (same (a + b.size)))
      (Took-append a (a + b.size) t pre xs ys same (omega arith) change ch.2)
