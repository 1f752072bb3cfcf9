-- ===== src/Sync/Spinlock/Exclusion.antt =====
-- Who holds a spinlock.
use lun_os.Prelude.{ℕ, ◌+◌, ◌<◌, ◌≡◌, ◌≢◌, ◌⊎◌, inl, refl, List, arith}
use lun_os.Sync.Atomic.{atomic_read, atomic_set, atomic_xchg}
use lun_os.Sync.Threads.{total, total-Replaced, total-replicate}
use lun_os.Sync.Spinlock.{Pc, Move, Reach, acquire_order}

-- One for a thread between its lock and its unlock.
abbrev pub holds : Pc → ℕ
holds Pc.holding = 1
holds _ = 0

-- The word is 0 with no holder, or 1 with one.
abbrev pub Agrees : ℕ → ℕ → Type 0
Agrees v h = ((v ≡ 0) × (h ≡ 0)) ⊎ ((v ≡ 1) × (h ≡ 1))

Move-Agrees :
    {v v' : ℕ} {p p' : Pc} (k : ℕ)
    → Move v p v' p'
    → Agrees v (holds p + k)
    → Agrees v' (holds p' + k)
unfolding atomic_read atomic_set atomic_xchg
Move-Agrees k Move.call h = h
Move-Agrees k (Move.win e) h = ground arith
Move-Agrees k (Move.lose e) h = ground arith
Move-Agrees k (Move.pause e) h = h
Move-Agrees k (Move.retry e) h = h
Move-Agrees k (Move.try_win e) h = ground arith
Move-Agrees k (Move.try_lose e) h = ground arith
Move-Agrees k Move.unlock h = ground arith

-- In every state that the threads can reach, either the lock's word is 0 and no thread holds the
-- lock, or it is 1 and exactly one does.
pub mutual_exclusion :
    (n v : ℕ) (ps : List Pc)
    → Reach n v ps
    → ((v ≡ 0) × (total holds ps ≡ 0)) ⊎ ((v ≡ 1) × (total holds ps ≡ 1))
unfolding atomic_set
mutual_exclusion n v ps Reach.start = inl (refl, total-replicate holds n Pc.outside refl)
mutual_exclusion n _ _ (Reach.later {v} {p} {ps} r moved m) =
    let (k, e, g) = total-Replaced holds moved in
    rw g (Move-Agrees k m (rw e at (mutual_exclusion n v ps r)))

-- acquire_locks_ordered takes two different locks in the order of their addresses, whichever way
-- round it is given them.
pub acquire_order_lem :
    (a b : ℕ)
    → a ≢ b
    → (acquire_order a b ≡ acquire_order b a) × ((acquire_order a b).0 < (acquire_order a b).1)
unfolding acquire_order
acquire_order_lem a b h = ground arith
