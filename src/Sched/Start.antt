-- ===== src/Sched/Start.antt =====
-- The run queues that scheduler_init leaves.
use lun_os.Prelude.{ℕ, zero, suc, ◌<◌, ◌≡◌, ◌≢◌, refl, ap, ◌∙◌, arith, [], ℕ_discrete}
use lun_os.Ds.{list_init}
use lun_os.Ds.Order.{IsList, Chain}
use lun_os.Sched.{Sched, init_cores, scheduler_init}

init_cores-runqueue : (n : ℕ) (s : Sched) → (init_cores n s).runqueue ≡ s.runqueue
unfolding init_cores
init_cores-runqueue zero s = refl
init_cores-runqueue (suc n) s = init_cores-runqueue n s

module _ (s : Sched) (apart : (i j : ℕ) → s.runqueue i ≡ s.runqueue j → i ≡ j) where
  -- The processors below `n` have an empty queue and no task.
  init_cores_lem :
      (n cpu : ℕ)
      → cpu < n
      → ((init_cores n s).nodes.next (s.runqueue cpu) ≡ s.runqueue cpu)
        × ((init_cores n s).current cpu ≡ 0)
  unfolding init_cores list_init
  init_cores_lem zero cpu h = omega (arith, h)
  init_cores_lem (suc n) cpu h =
      let q : (init_cores n s).runqueue n ≡ s.runqueue n =
        ap (λ (f : ℕ → ℕ). f n) (init_cores-runqueue n s) in
      elim (ℕ_discrete cpu n) [
        | yes e ↦ ground (arith, q, e, ap s.runqueue e)
        | no ne ↦ ground (arith, q, ne, apart cpu n, init_cores_lem n cpu (omega (arith, h, ne)))
      ]

  other_node :
      (n a : ℕ) → ((cpu : ℕ) → s.runqueue cpu ≢ a) → (init_cores n s).nodes.next a ≡ s.nodes.next a
  unfolding init_cores list_init
  other_node zero a h = refl
  other_node (suc n) a h =
      let q : (init_cores n s).runqueue n ≡ s.runqueue n =
        ap (λ (f : ℕ → ℕ). f n) (init_cores-runqueue n s) in
      ground (arith, q, h n, other_node n a h)

-- Where no two processors have the same run queue, and none of them is the list of all tasks: after
-- scheduler_init each of the 4 processors has no current task and an empty run queue, and the list of
-- all tasks is empty.
pub scheduler_init_lem :
    (all_tasks cpu : ℕ) (s : Sched)
    → ((i j : ℕ) → s.runqueue i ≡ s.runqueue j → i ≡ j)
    → ((i : ℕ) → s.runqueue i ≢ all_tasks)
    → cpu < 4
    → ((scheduler_init all_tasks s).current cpu ≡ 0)
      × IsList (scheduler_init all_tasks s).nodes (s.runqueue cpu) []
      × IsList (scheduler_init all_tasks s).nodes all_tasks []
unfolding scheduler_init Chain list_init
scheduler_init_lem all_tasks cpu s apart other h =
    let start = record s { nodes = list_init all_tasks s.nodes } in
    let (empty, free) = init_cores_lem start apart 4 cpu h in
    let kept : (init_cores 4 start).nodes.next all_tasks ≡ start.nodes.next all_tasks =
      other_node start apart 4 all_tasks other in
    (free, empty, kept ∙ ground arith)
