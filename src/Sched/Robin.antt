-- ===== src/Sched/Robin.antt =====
-- The order in which schedule takes tasks from a run queue.
use lun_os.Prelude.{ℕ, ◌≡◌, ◌≢◌, arith, ◌⊎◌, inl, inr, List, [], ◌∷◌, ◌++◌, All}
use lun_os.Ds.{Nodes}
use lun_os.Ds.Order.{Chain, IsList}
use lun_os.Sched.{Sched, pick_next, schedule}

-- In a list, the node after `x` is the first of those behind it, or the list's end.
abbrev pub first_of : List ℕ → ℕ → ℕ
first_of [] end = end
first_of (y ∷ ys) end = y

follows :
    (s : Nodes) (a x : ℕ) (xs ys : List ℕ) (end : ℕ)
    → Chain s a (xs ++ (x ∷ ys)) end
    → s.next x ≡ first_of ys end
unfolding Chain
follows s a x [] [] end (e, c) = c
follows s a x [] (y ∷ ys) end (e, (d, c)) = d
follows s a x (z ∷ xs) ys end (e, c) = follows s z x xs ys end c

-- What schedule goes on with is the current task after it.
pub loads_current : (cpu : ℕ) (s : Sched) → (schedule cpu s).0 ≡ (schedule cpu s).1.current cpu
unfolding schedule
loads_current cpu s = ground arith

module _ (cpu : ℕ) (s : Sched) where
  loads_next :
      (n : ℕ)
      → s.current cpu ≢ 0
      → n ≢ 0
      → n ≢ s.runqueue cpu
      → (s.nodes.next (s.current cpu) ≡ n)
        ⊎ ((s.nodes.next (s.current cpu) ≡ s.runqueue cpu) × (s.nodes.next (s.runqueue cpu) ≡ n))
      → ((schedule cpu s).0 ≡ n) × ((schedule cpu s).1.current cpu ≡ n)
  unfolding schedule pick_next
  loads_next n c z q h = ground (arith, c, z, q, h)

  -- A node of the queue is a task, and not the queue itself.
  abbrev pub IsTask : ℕ → Type 0
  IsTask x = (x ≢ 0) × (x ≢ s.runqueue cpu)

  front :
      (x : ℕ) (before after : List ℕ)
      → IsList s.nodes (s.runqueue cpu) (before ++ (x ∷ after))
      → s.nodes.next (s.runqueue cpu) ≡ first_of before x
  unfolding Chain
  front x [] after (e, c) = e
  front x (y ∷ before) after (e, c) = e

  first-IsTask : (x : ℕ) (xs : List ℕ) → IsTask x → All IsTask xs → IsTask (first_of xs x)
  first-IsTask x [] h rest = h
  first-IsTask x (y ∷ xs) h (g, rest) = g

  -- Where the run queue holds the current task, between the tasks `before` and `after`, schedule loads
  -- the task behind it, or, behind the last one, the first of the queue; that task is then the current
  -- one.
  pub schedule_lem :
      (before after : List ℕ)
      → IsList s.nodes (s.runqueue cpu) (before ++ (s.current cpu ∷ after))
      → All IsTask before
      → IsTask (s.current cpu)
      → All IsTask after
      → ((schedule cpu s).0 ≡ first_of after (first_of before (s.current cpu)))
        × ((schedule cpu s).1.current cpu ≡ first_of after (first_of before (s.current cpu)))
  schedule_lem before [] c b here a =
      let (nz, nq) = first-IsTask (s.current cpu) before here b in
      loads_next _ here.0 nz nq (
        inr (
          follows s.nodes (s.runqueue cpu) (s.current cpu) before [] (s.runqueue cpu) c,
          front (s.current cpu) before [] c,
        ))
  schedule_lem before (y ∷ ys) c b here ((nz, nq), a) =
      loads_next y here.0 nz nq
        (inl (follows s.nodes (s.runqueue cpu) (s.current cpu) before (y ∷ ys) (s.runqueue cpu) c))
