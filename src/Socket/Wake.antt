-- ===== src/Socket/Wake.antt =====
-- The state of a task that kernel/net/socket.c writes through the pointer to it.
use peker_os.Common.{
  ℕ, ◌≡◌, ◌≢◌, refl, ap, Bool, if◌then◌else◌, Option, none, some, List, get_elem?, set,
  get_elem?-set_ne, get_elem?-set_self, get_elem?-lt,
}
use peker_os.Task.{Task, ready, sleep}
use peker_os.Socket.{set_state}

pub set_state_self :
    (ts : List Task) (o : Option ℕ) (awake : Bool) (w : ℕ) (x : Task)
    → o ≡ some w
    → get_elem? ts w ≡ some x
    → get_elem? (set_state ts o awake) w
      ≡ some (record x { state = if awake then ready else sleep })
set_state_self ts o awake w x e at =
    rw (e, at, set_state)
      (get_elem?-set_self ts w (record x { state = if awake then ready else sleep })
        (get_elem?-lt ts w at))

pub set_state_other :
    (ts : List Task) (o : Option ℕ) (awake : Bool) (w : ℕ)
    → o ≢ some w
    → get_elem? (set_state ts o awake) w ≡ get_elem? ts w
set_state_other ts none awake w ne = refl
set_state_other ts (some i) awake w ne = go (get_elem? ts i)
  where
    go :
        (x : Option Task)
        → get_elem?
            (elim x [
              | none ↦ ts
              | some y ↦ set ts i (record y { state = if awake then ready else sleep })
            ])
            w
          ≡ get_elem? ts w
    go none = refl
    go (some y) =
        get_elem?-set_ne ts (record y { state = if awake then ready else sleep })
          (λ e. ne (ap some e))
