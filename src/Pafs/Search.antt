-- ===== src/Pafs/Search.antt =====
-- The search for a name in a directory of kernel/fs/pafs.c, when part of the directory changes.
use peker_os.Common.{
  ℕ, zero, suc, ◌+◌, ◌*◌, ◌≤◌, ◌<◌, ◌≡◌, refl, sym, ap, ◌∙◌, ◌≢◌, false, not, ◌&&◌, arith, inl, inr,
  ◌==◌, Bool-cases, Option, none, some, List, [], ◌∷◌, length,
}
use mathlib.Core.Option.{some-injective, none-ne-some}
use peker_os.Common.Bytes.{Bytes}
use peker_os.Common.Words.{get32-same}
use peker_os.Pafs.{Pafs, inode_block, name_matches, scan_name, find_place, entry_inode}
use peker_os.Pafs.Same.{else_found}

name_matches-same :
    (d e : Bytes) (a : ℕ) (name : List ℕ)
    → ((x : ℕ) → a ≤ x → x ≤ a + length name → e x ≡ d x)
    → name_matches e a name ≡ name_matches d a name
unfolding name_matches
name_matches-same d e a [] same = ap (λ c. c == 0) (same a (omega arith) (omega arith))
name_matches-same d e a (c ∷ cs) same =
    rw
      (
        same a (omega arith) (omega arith),
        name_matches-same d e (a + 1) cs (λ x lo hi. same x (omega arith) (omega arith)),
      )
      refl

scan_name-from : (d : Bytes) (name : List ℕ) (n a j : ℕ) → scan_name d name n a ≡ some j → a ≤ j
unfolding scan_name
scan_name-from d name zero a j found = absurd (ground (arith, found))
scan_name-from d name (suc n) a j found =
    elim (Bool-cases (not (entry_inode d a == 0) && name_matches d (32 * a + 4) name)) [
      | inl here ↦ ground (arith, found, here)
      | inr later ↦ ground (arith, scan_name-from d name n (a + 1) j (ground (arith, found, later)))
    ]

-- A sector that is the same up to the end of the entry that is found.
module _ (d e : Bytes) (name : List ℕ) (j : ℕ) (short : length name ≤ 27)
    (same : (x : ℕ) → x < 32 * (j + 1) → e x ≡ d x) where
  pub entry-same : (a : ℕ) → a ≤ j → entry_inode e a ≡ entry_inode d a
  entry-same a le =
      get32-same e d (32 * a) (32 * a) (same (32 * a) (omega arith))
        (same (32 * a + 1) (omega arith)) (same (32 * a + 2) (omega arith))
        (same (32 * a + 3) (omega arith))

  pub scan_name-keeps : (n a : ℕ) → scan_name d name n a ≡ some j → scan_name e name n a ≡ some j
  unfolding scan_name
  scan_name-keeps zero a found = absurd (ground (arith, found))
  scan_name-keeps (suc n) a found =
      let le : a ≤ j = scan_name-from d name (suc n) a j (unfold scan_name in found) in
      let names : name_matches e (32 * a + 4) name ≡ name_matches d (32 * a + 4) name =
        name_matches-same d e (32 * a + 4) name (λ x lo hi. same x (omega arith)) in
      elim (Bool-cases (not (entry_inode d a == 0) && name_matches d (32 * a + 4) name)) [
        | inl here ↦ rw (entry-same a le, names, here) (ground (arith, found, here))
        | inr later ↦
            rw (entry-same a le, names, later)
              (scan_name-keeps n (a + 1) (ground (arith, found, later)))
      ]

-- What a search that finds an entry has found.
abbrev pub Found : Pafs → ℕ → List ℕ → ℕ → ℕ → ℕ → ℕ → Type 0
Found p dir name n i k j =
    (i ≤ k)
    × (k < i + n)
    × (inode_block p dir k ≢ 0)
    × (scan_name (p.disk (inode_block p dir k)) name 16 0 ≡ some j)

pub find_place-Found :
    (p : Pafs) (dir : ℕ) (name : List ℕ) (n i k j : ℕ)
    → find_place p dir name n i ≡ some (k, j)
    → Found p dir name n i k j
unfolding find_place
find_place-Found p dir name zero i k j found = absurd (ground (arith, found))
find_place-Found p dir name (suc n) i k j found =
    go (find_place-Found p dir name n (i + 1) k j)
      (scan_name (p.disk (inode_block p dir i)) name 16 0) refl more.1
  where
    more :
        (inode_block p dir i == 0 ≡ false)
        × (elim (scan_name (p.disk (inode_block p dir i)) name 16 0) [
          | none ↦ find_place p dir name n (i + 1)
          | some l ↦ some (i, l)
        ]
            ≡ some (k, j))
    more = else_found (inode_block p dir i == 0) _ (k, j) found

    go :
        (find_place p dir name n (i + 1) ≡ some (k, j) → Found p dir name n (i + 1) k j)
        → (o : Option ℕ) → scan_name (p.disk (inode_block p dir i)) name 16 0 ≡ o
        → elim o [ none ↦ find_place p dir name n (i + 1) | some l ↦ some (i, l) ] ≡ some (k, j)
        → Found p dir name (suc n) i k j
    go rest none here e = let (lo, hi, ne, there) = rest e in (omega arith, omega arith, ne, there)
    go rest (some l) here e =
        let pair : ◌≡◌ {A = ℕ × ℕ} (i, l) (k, j) = some-injective (i, l) (k, j) e in
        let i_is : i ≡ k = ap (λ r. r.0) pair in
        (
          omega (arith, i_is),
          omega (arith, i_is),
          λ z. ground (arith, more.0, ap (inode_block p dir) i_is),
          ap (λ b. scan_name (p.disk (inode_block p dir b)) name 16 0) (sym i_is)
              ∙ here
              ∙ ap (λ r. some (r.1)) pair,
        )

-- The search finds the same entry if the other blocks are as they were.
module _ (p q : Pafs) (dir : ℕ) (name : List ℕ) (k j : ℕ)
    (blocks : (i : ℕ) → i < 14 → inode_block q dir i ≡ inode_block p dir i)
    (others : (i : ℕ)
      → i < 14
      → i ≢ k
      → inode_block p dir i ≢ 0
      → q.disk (inode_block p dir i) ≡ p.disk (inode_block p dir i))
    (before : scan_name (p.disk (inode_block p dir k)) name 16 0 ≡ some j)
    (now : scan_name (q.disk (inode_block p dir k)) name 16 0 ≡ some j) where
  pub find_place-keeps :
      (n i : ℕ)
      → i + n ≡ 14
      → find_place p dir name n i ≡ some (k, j)
      → find_place q dir name n i ≡ some (k, j)
  unfolding find_place
  find_place-keeps zero i len found = absurd (ground (arith, found))
  find_place-keeps (suc n) i len found =
      go (find_place-keeps n (i + 1) (omega arith))
        (scan_name (p.disk (inode_block p dir i)) name 16 0) refl more.1
    where
      more :
          (inode_block p dir i == 0 ≡ false)
          × (elim (scan_name (p.disk (inode_block p dir i)) name 16 0) [
            | none ↦ find_place p dir name n (i + 1)
            | some l ↦ some (i, l)
          ]
              ≡ some (k, j))
      more = else_found (inode_block p dir i == 0) _ (k, j) found

      goes : inode_block q dir i == 0 ≡ false
      goes = ap (λ b. b == 0) (blocks i (omega arith)) ∙ more.0

      go :
          (find_place p dir name n (i + 1) ≡ some (k, j)
            → find_place q dir name n (i + 1) ≡ some (k, j))
          → (o : Option ℕ) → scan_name (p.disk (inode_block p dir i)) name 16 0 ≡ o
          → elim o [ none ↦ find_place p dir name n (i + 1) | some l ↦ some (i, l) ] ≡ some (k, j)
          → find_place q dir name (suc n) i ≡ some (k, j)
      go rest none here e =
          let other : i ≢ k = λ z.
            none-ne-some j (
              sym here ∙ ap (λ b. scan_name (p.disk (inode_block p dir b)) name 16 0) z ∙ before) in
          let sector : q.disk (inode_block p dir i) ≡ p.disk (inode_block p dir i) =
            others i (omega arith) other (ground (arith, more.0)) in
          rw (goes, blocks i (omega arith), sector, here, find_place) (rest e)
      go rest (some l) here e =
          let pair : ◌≡◌ {A = ℕ × ℕ} (i, l) (k, j) = some-injective (i, l) (k, j) e in
          let there : scan_name (q.disk (inode_block p dir i)) name 16 0 ≡ some j =
            ap (λ b. scan_name (q.disk (inode_block p dir b)) name 16 0) (ap (λ r. r.0) pair)
            ∙ now in
          rw (goes, blocks i (omega arith), there, find_place)
            (ap (λ b. some (b, j)) (ap (λ r. r.0) pair))
