-- ===== src/Pafs/Inodes.antt =====
-- The fields of the table of inodes of kernel/fs/pafs.c: a write to one leaves the others.
use peker_os.Common.{ℕ, ◌+◌, ◌*◌, ◌^◌, ◌≤◌, ◌<◌, ◌≡◌, ◌≢◌, ◌⊎◌, arith, inl, inr}
use native.Mathlib.Decide.{dec_lt}
use peker_os.Common.Words.{get32-put32_self, get32-put32_ne}
use peker_os.Pafs.{Pafs, inode_type, inode_size, inode_block, set_block, set_size, set_type}

-- Two block numbers of the table have no byte in common.
slots_apart :
    (g i h j : ℕ)
    → i < 14
    → j < 14
    → (g ≢ h) ⊎ (i ≢ j)
    → (64 * h + 8 + 4 * j + 4 ≤ 64 * g + 8 + 4 * i) ⊎ (64 * g + 8 + 4 * i + 4 ≤ 64 * h + 8 + 4 * j)
slots_apart g i h j hi hj (inl ne) = elim (dec_lt g h) [
  | yes lt ↦ inr (omega arith)
  | no ge ↦ inl (omega (arith, ne))
]
slots_apart g i h j hi hj (inr ne) = elim (dec_lt (64 * g + 8 + 4 * i) (64 * h + 8 + 4 * j)) [
  | yes lt ↦ inr (omega (arith, ne))
  | no ge ↦ inl (omega (arith, ne))
]

module _ (p : Pafs) (g i b : ℕ) (hi : i < 14) where
  pub block-set_block_self : b < 2 ^ 32 → inode_block (set_block p g i b) g i ≡ b
  block-set_block_self small = get32-put32_self p.inodes (64 * g + 8 + 4 * i) b small

  pub block-set_block_ne :
      (h j : ℕ)
      → j < 14
      → (g ≢ h) ⊎ (i ≢ j)
      → inode_block (set_block p g i b) h j ≡ inode_block p h j
  block-set_block_ne h j hj ne =
      get32-put32_ne p.inodes (64 * g + 8 + 4 * i) b (64 * h + 8 + 4 * j)
        (slots_apart g i h j hi hj ne)

  pub type-set_block : (h : ℕ) → inode_type (set_block p g i b) h ≡ inode_type p h
  type-set_block h =
      get32-put32_ne p.inodes (64 * g + 8 + 4 * i) b (64 * h)
        (elim (dec_lt g h) [ yes lt ↦ inr (omega arith) | no ge ↦ inl (omega arith) ])

  pub size-set_block : (h : ℕ) → inode_size (set_block p g i b) h ≡ inode_size p h
  size-set_block h =
      get32-put32_ne p.inodes (64 * g + 8 + 4 * i) b (64 * h + 4)
        (elim (dec_lt g h) [ yes lt ↦ inr (omega arith) | no ge ↦ inl (omega arith) ])

module _ (p : Pafs) (g v : ℕ) where
  pub size-set_size_self : v < 2 ^ 32 → inode_size (set_size p g v) g ≡ v
  size-set_size_self small = get32-put32_self p.inodes (64 * g + 4) v small

  pub size-set_size_ne : (h : ℕ) → g ≢ h → inode_size (set_size p g v) h ≡ inode_size p h
  size-set_size_ne h ne =
      get32-put32_ne p.inodes (64 * g + 4) v (64 * h + 4)
        (elim (dec_lt g h) [ yes lt ↦ inr (omega arith) | no ge ↦ inl (omega (arith, ne)) ])

  pub type-set_size : (h : ℕ) → inode_type (set_size p g v) h ≡ inode_type p h
  type-set_size h =
      get32-put32_ne p.inodes (64 * g + 4) v (64 * h)
        (elim (dec_lt g h) [ yes lt ↦ inr (omega arith) | no ge ↦ inl (omega arith) ])

  pub block-set_size : (h j : ℕ) → j < 14 → inode_block (set_size p g v) h j ≡ inode_block p h j
  block-set_size h j hj =
      get32-put32_ne p.inodes (64 * g + 4) v (64 * h + 8 + 4 * j)
        (elim (dec_lt h g) [ yes lt ↦ inl (omega arith) | no ge ↦ inr (omega arith) ])

module _ (p : Pafs) (g v : ℕ) where
  pub type-set_type_self : v < 2 ^ 32 → inode_type (set_type p g v) g ≡ v
  type-set_type_self small = get32-put32_self p.inodes (64 * g) v small

  pub type-set_type_ne : (h : ℕ) → g ≢ h → inode_type (set_type p g v) h ≡ inode_type p h
  type-set_type_ne h ne =
      get32-put32_ne p.inodes (64 * g) v (64 * h)
        (elim (dec_lt g h) [ yes lt ↦ inr (omega arith) | no ge ↦ inl (omega (arith, ne)) ])

  pub size-set_type : (h : ℕ) → inode_size (set_type p g v) h ≡ inode_size p h
  size-set_type h =
      get32-put32_ne p.inodes (64 * g) v (64 * h + 4)
        (elim (dec_lt h g) [ yes lt ↦ inl (omega arith) | no ge ↦ inr (omega arith) ])

  pub block-set_type : (h j : ℕ) → j < 14 → inode_block (set_type p g v) h j ≡ inode_block p h j
  block-set_type h j hj =
      get32-put32_ne p.inodes (64 * g) v (64 * h + 8 + 4 * j)
        (elim (dec_lt h g) [ yes lt ↦ inl (omega arith) | no ge ↦ inr (omega arith) ])
