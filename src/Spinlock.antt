-- ===== src/Spinlock.antt =====
-- include/spinlock.h: a lock of one processor, which turns the interrupts off. Of the flags of the
-- processor only the one that lets interrupts in is kept.
use peker_os.Common.{◌≡◌, Bool, true, false}

pub record Spinlock : Type 0 where
  pub locked : Bool
  pub flags : Bool

-- Whether the processor lets interrupts in, and the flag that was saved.
unfoldable pub irq_save : Bool → Bool × Bool
irq_save interrupts = (false, interrupts)

unfoldable pub spin_lock : Bool → Spinlock → Bool × Spinlock
spin_lock interrupts lock =
    let (off, saved) = irq_save interrupts in (off, record { locked = true; flags = saved })

unfoldable pub spin_unlock : Bool → Spinlock → Bool × Spinlock
spin_unlock interrupts lock = (lock.flags, record lock { locked = false })

-- What runs between a lock and its unlock, with the interrupts as they are then.
unfoldable pub locked_run : (Bool → Spinlock → Bool × Spinlock) → Bool → Spinlock → Bool × Spinlock
locked_run body interrupts lock =
    let (inside, taken) = spin_lock interrupts lock in
    let (after, kept) = body inside taken in spin_unlock after kept

-- A run that leaves the lock alone gives back the interrupts as they were.
pub locked_run-restores :
    (body : Bool → Spinlock → Bool × Spinlock)
    → ((i : Bool) (l : Spinlock) → (body i l).1.flags ≡ l.flags)
    → (interrupts : Bool) (lock : Spinlock) → (locked_run body interrupts lock).0 ≡ interrupts
unfolding locked_run spin_lock spin_unlock irq_save
locked_run-restores body same interrupts lock =
    same false (record { locked = true; flags = interrupts })

-- A run that takes and gives back the same lock leaves the interrupts off, however they were.
pub locked_run-nested :
    (body : Bool → Spinlock → Bool × Spinlock)
    → ((i : Bool) (l : Spinlock) → (body i l).1.flags ≡ l.flags)
    → (interrupts : Bool) (lock : Spinlock)
    → (locked_run (locked_run body) interrupts lock).0 ≡ false
unfolding locked_run spin_lock spin_unlock irq_save
locked_run-nested body same interrupts lock = same false (record { locked = true; flags = false })
