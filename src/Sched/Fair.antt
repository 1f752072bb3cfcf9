-- ===== src/Sched/Fair.antt =====
-- No task of a run queue waits for ever.
use lun_os.Prelude.{
  ℕ, zero, suc, ◌+◌, ◌≤◌, ◌<◌, ◌≡◌, ◌≢◌, refl, sym, ap, subst, ◌∙◌, arith, List, [], ◌∷◌, ◌++◌,
  length, All, Bool, true, false, if◌then◌else◌,
}
use lun_os.Ds.{Nodes}
use lun_os.Ds.Order.{IsList}
use lun_os.Sched.{Sched, schedule}
use lun_os.Sched.Robin.{first_of, IsTask, schedule_lem}

-- `k` calls of schedule on the processor, one after the other.
unfoldable pub run : ℕ → ℕ → Sched → Sched
run cpu zero s = s
run cpu (suc k) s = run cpu k (schedule cpu s).1

-- The task is the current one after some call, of the next `n` calls of schedule.
abbrev pub Within : ℕ → Sched → ℕ → ℕ → Type 0
Within cpu s n x = (k : ℕ) × (0 < k) × (k ≤ n) × ((run cpu k s).current cpu ≡ x)

append_assoc : (xs ys zs : List ℕ) → (xs ++ ys) ++ zs ≡ xs ++ (ys ++ zs)
append_assoc [] ys zs = refl
append_assoc (x ∷ xs) ys zs = ap (λ (l : List ℕ). x ∷ l) (append_assoc xs ys zs)

append_nil : (xs : List ℕ) → xs ++ [] ≡ xs
append_nil [] = refl
append_nil (x ∷ xs) = ap (λ (l : List ℕ). x ∷ l) (append_nil xs)

length_last : (xs : List ℕ) (x : ℕ) → length (xs ++ (x ∷ [])) ≡ suc (length xs)
length_last [] x = refl
length_last (y ∷ xs) x = ap (λ (n : ℕ). suc n) (length_last xs x)

length_middle : (xs ys : List ℕ) (x : ℕ) → suc (length ys + length xs) ≡ length (xs ++ (x ∷ ys))
length_middle [] ys x = omega arith
length_middle (y ∷ xs) ys x = omega (arith, length_middle xs ys x)

joined : (P : ℕ → Type 0) (xs ys : List ℕ) → All P xs → All P ys → All P (xs ++ ys)
joined P [] ys h k = k
joined P (x ∷ xs) ys (p, h) k = (p, joined P xs ys h k)

-- Both ways that schedule ends leave the lists alone.
abbrev either : Bool → ℕ → ℕ → (ℕ → ℕ) → Sched → ℕ × Sched
either b n c f s = if b then (n, record s { current = f }) else (c, s)

left_alone :
    (b : Bool) (n c : ℕ) (f : ℕ → ℕ) (s : Sched)
    → ((either b n c f s).1.nodes ≡ s.nodes) × ((either b n c f s).1.runqueue ≡ s.runqueue)
left_alone true n c f s = (refl, refl)
left_alone false n c f s = (refl, refl)

-- A run queue at `rq`, whose nodes are those of the tasks.
module _ (cpu : ℕ) (nodes : Nodes) (rq : ℕ) where
  schedule_kept :
      (s : Sched)
      → ((schedule cpu s).1.nodes ≡ s.nodes) × ((schedule cpu s).1.runqueue ≡ s.runqueue)
  unfolding schedule
  schedule_kept s = left_alone _ _ _ _ s

  abbrev pub IsNode : ℕ → Type 0
  IsNode x = (x ≢ 0) × (x ≢ rq)

  pub record Runs (s : Sched) (cur : ℕ) : Type 0 where
    pub same_nodes : s.nodes ≡ nodes
    pub same_queue : s.runqueue cpu ≡ rq
    pub current : s.current cpu ≡ cur

  as_tasks :
      (s : Sched) → s.runqueue cpu ≡ rq → (xs : List ℕ) → All IsNode xs → All (IsTask cpu s) xs
  as_tasks s e [] a = tt
  as_tasks s e (x ∷ xs) ((z, q), a) = ((z, rw e q), as_tasks s e xs a)

  Runs-schedule :
      (s : Sched) (before after : List ℕ) (cur : ℕ)
      → Runs s cur
      → IsList nodes rq (before ++ (cur ∷ after))
      → All IsNode before
      → IsNode cur
      → All IsNode after
      → Runs (schedule cpu s).1 (first_of after (first_of before cur))
  Runs-schedule s before after cur r l b c a =
      let (nodes_kept, queue_kept) = schedule_kept s in
      record {
        same_nodes = nodes_kept ∙ r.same_nodes;
        same_queue = ap (λ (q : ℕ → ℕ). q cpu) queue_kept ∙ r.same_queue;
        current =
            (schedule_lem cpu s before after (rw (r.same_nodes, r.same_queue, r.current) l)
              (as_tasks s r.same_queue before b) (rw (r.same_queue, r.current) c)
              (as_tasks s r.same_queue after a)).1
            ∙ ap (λ (z : ℕ). first_of after (first_of before z)) r.current;
      }

  -- A turn after `m` calls is one in a longer stretch of them.
  after_calls :
      (m n total x : ℕ) (s : Sched)
      → m + n ≤ total
      → Within cpu (run cpu m s) n x
      → Within cpu s total x
  unfolding run
  after_calls zero n total x s h (k, pos, le, e) = (k, pos, omega (arith, h, le), e)
  after_calls (suc m) n total x s h w =
      let (k, pos, le, e) : Within cpu (schedule cpu s).1 (m + n) x =
        after_calls m n (m + n) x (schedule cpu s).1 (omega arith) w in
      (suc k, omega arith, omega (arith, h, le), e)

  delayed :
      (m n total : ℕ) (s : Sched) (xs : List ℕ)
      → m + n ≤ total
      → All (Within cpu (run cpu m s) n) xs
      → All (Within cpu s total) xs
  delayed m n total s [] h a = tt
  delayed m n total s (x ∷ xs) h (w, a) =
      (after_calls m n total x s h w, delayed m n total s xs h a)

  at_once : (s : Sched) (n x : ℕ) → 0 < n → Runs (schedule cpu s).1 x → Within cpu s n x
  unfolding run
  at_once s n x h r = (1, omega arith, omega (arith, h), r.current)

  -- The tasks behind the current one have their turn, in their order.
  behind_lem :
      (ps qs before : List ℕ) (cur : ℕ) (s : Sched)
      → Runs s cur
      → IsList nodes rq (before ++ (cur ∷ (ps ++ qs)))
      → All IsNode before
      → IsNode cur
      → All IsNode (ps ++ qs)
      → All (Within cpu s (length ps)) ps
  unfolding run
  behind_lem [] qs before cur s r l b c a = tt
  behind_lem (p ∷ ps) qs before cur s r l b c (h, a) =
      let r1 = Runs-schedule s before (p ∷ (ps ++ qs)) cur r l b c (h, a) in
      (
        at_once s (suc (length ps)) p (omega arith) r1,
        delayed 1 (length ps) (suc (length ps)) s ps (omega arith) (
            behind_lem ps qs (before ++ (cur ∷ [])) p (schedule cpu s).1 r1
              (rw (append_assoc before (cur ∷ []) (p ∷ (ps ++ qs))) l)
              (joined IsNode before (cur ∷ []) b (c, tt)) h a),
      )

  first_of-append :
      (before : List ℕ) (cur p : ℕ) → first_of (before ++ (cur ∷ [])) p ≡ first_of before cur
  first_of-append [] cur p = refl
  first_of-append (b ∷ before) cur p = refl

  -- Then the first task of the queue is the current one.
  wraps :
      (ps before : List ℕ) (cur : ℕ) (s : Sched)
      → Runs s cur
      → IsList nodes rq (before ++ (cur ∷ ps))
      → All IsNode before
      → IsNode cur
      → All IsNode ps
      → Runs (run cpu (suc (length ps)) s) (first_of before cur)
  unfolding run
  wraps [] before cur s r l b c a = Runs-schedule s before [] cur r l b c a
  wraps (p ∷ ps) before cur s r l b c (h, a) =
      subst (λ (x : ℕ). Runs (run cpu (suc (suc (length ps))) s) x) (first_of-append before cur p)
        (wraps ps (before ++ (cur ∷ [])) p (schedule cpu s).1
          (Runs-schedule s before (p ∷ ps) cur r l b c (h, a))
          (rw (append_assoc before (cur ∷ []) (p ∷ ps)) l)
          (joined IsNode before (cur ∷ []) b (c, tt)) h a)

  those_behind :
      (before after : List ℕ) (cur : ℕ) (s : Sched)
      → Runs s cur
      → IsList nodes rq (before ++ (cur ∷ after))
      → All IsNode before
      → IsNode cur
      → All IsNode after
      → All (Within cpu s (length after)) after
  those_behind before after cur s r l b c a =
      behind_lem after [] before cur s r (rw (append_nil after) l) b c (rw (append_nil after) a)

  -- Every task of the queue has its turn.
  each :
      (before after : List ℕ) (cur : ℕ) (s : Sched)
      → Runs s cur
      → IsList nodes rq (before ++ (cur ∷ after))
      → All IsNode before
      → IsNode cur
      → All IsNode after
      → All (Within cpu s (suc (length after + length before))) (before ++ (cur ∷ after))
  unfolding run
  each [] after cur s r l b c a = (
    (suc (length after), omega arith, omega arith, (wraps after [] cur s r l b c a).current),
    delayed 0 (length after) (suc (length after + 0)) s after (omega arith)
        (those_behind [] after cur s r l b c a),
  )
  each (x ∷ before) after cur s r l (h, b) c a =
      let r1 = wraps after (x ∷ before) cur s r l (h, b) c a in
      let total = suc (length after + suc (length before)) in
      (
        (suc (length after), omega arith, omega arith, r1.current),
        rw (sym (append_assoc before (cur ∷ []) after)) (
            joined (Within cpu s total) (before ++ (cur ∷ [])) after
              (delayed (suc (length after)) (length (before ++ (cur ∷ []))) total s
                (before ++ (cur ∷ [])) (omega (arith, length_last before cur))
                (behind_lem (before ++ (cur ∷ [])) after [] x (run cpu (suc (length after)) s) r1
                  (rw (append_assoc before (cur ∷ []) after) l) tt h
                  (rw (append_assoc before (cur ∷ []) after)
                    (joined IsNode before (cur ∷ after) b (c, a)))))
              (delayed 0 (length after) total s after (omega arith)
                (those_behind (x ∷ before) after cur s r l (h, b) c a))),
      )

-- Where the run queue of a processor is the ring of the tasks `before`, the current task and the tasks
-- `after`, all of them other than NULL and the queue's head: every one of the n tasks of the queue is
-- the current one after some call of the next n calls of schedule on that processor.
pub schedule-fair :
    (cpu : ℕ) (s : Sched) (before after : List ℕ)
    → IsList s.nodes (s.runqueue cpu) (before ++ (s.current cpu ∷ after))
    → All (IsTask cpu s) before
    → IsTask cpu s (s.current cpu)
    → All (IsTask cpu s) after
    → All
        (Within cpu s (length (before ++ (s.current cpu ∷ after))))
        (before ++ (s.current cpu ∷ after))
schedule-fair cpu s before after l b c a =
    subst (λ (n : ℕ). All (Within cpu s n) (before ++ (s.current cpu ∷ after)))
      (length_middle before after (s.current cpu))
      (each cpu s.nodes (s.runqueue cpu) before after (s.current cpu) s
        record { same_nodes = refl; same_queue = refl; current = refl } l b c a)
