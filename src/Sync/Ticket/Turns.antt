-- ===== src/Sync/Ticket/Turns.antt =====
-- Who holds a ticket spinlock, and in which order.
use lun_os.Prelude.{
  ℕ, ◌+◌, ◌%◌, ◌≤◌, ◌<◌, ◌^◌, ◌≡◌, ◌≢◌, refl, sym, ◌∙◌, List, [], ◌∷◌, arith, leb, ltb, ◌&&◌, ◌==◌,
  if◌then◌else◌, ℕ_discrete, true, false,
}
use lun_os.Sync.Atomic.{
  atomic_read, atomic_set, atomic_inc, atomic_add_return, atomic_cmpxchg, add_word, sub_word,
  add_return,
}
use lun_os.Sync.Threads.{total, total-Replaced, total-replicate}
use lun_os.Sync.Ticket.{Pc, Move, Reach, my_ticket}

abbrev one_if : ℕ → ℕ → ℕ
one_if a b = if a == b then 1 else 0

-- The thread has the ticket `k`; it holds the lock by it; it has read it in a try.
abbrev pub has : ℕ → Pc → ℕ
has k (Pc.waiting t) = one_if t k
has k (Pc.holding t) = one_if t k
has k _ = 0

abbrev pub held : ℕ → Pc → ℕ
held k (Pc.holding t) = one_if t k
held k _ = 0

abbrev saw : ℕ → Pc → ℕ
saw k (Pc.looked s) = one_if s k
saw k (Pc.claiming s) = one_if s k
saw k _ = 0

abbrev pub holds : Pc → ℕ
holds (Pc.holding t) = 1
holds _ = 0

-- The counts of the threads, by ticket: the tickets from the served one up to the next are out, once
-- each; only the served one is held; no try has seen a ticket that is still to be served.
record Turns (next serving taken : ℕ) (having holding seen : ℕ → ℕ) : Type 0 where
  counted : next ≡ taken
  ahead : serving ≤ next
  out : (k : ℕ) → having k ≡ (if leb serving k && ltb k next then 1 else 0)
  in_turn : (k : ℕ) → k ≢ serving → holding k ≡ 0
  old : (k : ℕ) → serving < k → seen k ≡ 0

Move-Turns :
    {next serving taken next' serving' taken' : ℕ} {p p' : Pc} (a b c : ℕ → ℕ)
    → Move next serving taken p next' serving' taken' p'
    → taken' < 2 ^ 32
    → ((k : ℕ) → held k p + b k ≤ has k p + a k)
    → Turns next serving taken (λ k. has k p + a k) (λ k. held k p + b k) (λ k. saw k p + c k)
    → Turns next' serving' taken' (λ k. has k p' + a k) (λ k. held k p' + b k) (λ k. saw k p' + c k)
unfolding atomic_read atomic_set atomic_cmpxchg my_ticket sub_word atomic_inc atomic_add_return
    add_return add_word
Move-Turns {next} {serving} a b c Move.take h le v = record {
  counted = omega (arith, h, v.counted);
  ahead = omega (arith, h, v.counted, v.ahead);
  out = λ k. ground (arith, h, v.counted, v.ahead, v.out k);
  in_turn = v.in_turn;
  old = v.old;
}
Move-Turns a b c (Move.spin e) h le v = v
Move-Turns a b c (Move.enter e) h le v = record {
  counted = v.counted;
  ahead = v.ahead;
  out = v.out;
  in_turn = λ k ne. ground (arith, e, ne, v.in_turn k ne);
  old = v.old;
}
Move-Turns a b c Move.look h le v = record {
  counted = v.counted;
  ahead = v.ahead;
  out = v.out;
  in_turn = v.in_turn;
  old = λ k lt. ground (arith, lt, v.old k lt);
}
Move-Turns a b c (Move.busy e) h le v = record {
  counted = v.counted;
  ahead = v.ahead;
  out = v.out;
  in_turn = v.in_turn;
  old = λ k lt. ground (arith, v.old k lt);
}
Move-Turns a b c (Move.free e) h le v = record {
  counted = v.counted;
  ahead = v.ahead;
  out = v.out;
  in_turn = v.in_turn;
  old = λ k lt. ground (arith, e, v.old k lt);
}
Move-Turns {next} {serving} a b c (Move.win {n} e) h le v =
    let same : next ≡ n = e in
    let own : n ≡ serving = ground (arith, v.old n, same, v.ahead) in
    let wrap : (n + 1) % 2 ^ 32 ≡ n + 1 = omega (arith, same, h, v.counted) in
    let q : (next == n) ≡ true = ground (arith, same) in
    rw (q, wrap)
      (record {
        counted = omega (arith, same, v.counted);
        ahead = omega (arith, own);
        out = λ k. ground (arith, same, own, v.out k);
        in_turn = λ k ne. ground (arith, own, ne, v.in_turn k ne);
        old = λ k lt. ground (arith, v.old k lt);
      })
Move-Turns {next} {serving} a b c (Move.lose {n} e) h le v =
    let q : (next == n) ≡ false = ground (arith, e) in
    rw q (record {
      counted = v.counted;
      ahead = v.ahead;
      out = v.out;
      in_turn = v.in_turn;
      old = λ k lt. ground (arith, v.old k lt);
    })
Move-Turns {next} {serving} a b c (Move.unlock {t}) h le v =
    let own : t ≡ serving = ground (arith, v.in_turn t) in
    let taken_one : serving < next = ground (arith, own, v.out serving) in
    let wrap : (serving + 1) % 2 ^ 32 ≡ serving + 1 = omega (arith, taken_one, h, v.counted) in
    rw wrap (record {
      counted = v.counted;
      ahead = omega (arith, taken_one);
      out = λ k. ground (arith, own, v.out k);
      in_turn = λ k ne. elim (ℕ_discrete k serving) [
        | yes e ↦ ground (arith, own, e, le k, v.out k)
        | no other ↦ ground (arith, v.in_turn k other)
      ];
      old = λ k lt. ground (arith, v.old k (omega (arith, lt)));
    })

Move-taken :
    {next serving taken next' serving' taken' : ℕ} {p p' : Pc}
    → Move next serving taken p next' serving' taken' p'
    → taken ≤ taken'
Move-taken Move.take = omega arith
Move-taken (Move.spin e) = omega arith
Move-taken (Move.enter e) = omega arith
Move-taken Move.look = omega arith
Move-taken (Move.busy e) = omega arith
Move-taken (Move.free e) = omega arith
Move-taken (Move.win e) = omega arith
Move-taken (Move.lose e) = omega arith
Move-taken Move.unlock = omega arith

Turns-same :
    {next serving taken : ℕ} {h h' b b' s s' : ℕ → ℕ}
    → ((k : ℕ) → h' k ≡ h k)
    → ((k : ℕ) → b' k ≡ b k)
    → ((k : ℕ) → s' k ≡ s k)
    → Turns next serving taken h b s
    → Turns next serving taken h' b' s'
Turns-same eh eb es v = record {
  counted = v.counted;
  ahead = v.ahead;
  out = λ k. eh k ∙ v.out k;
  in_turn = λ k ne. eb k ∙ v.in_turn k ne;
  old = λ k lt. es k ∙ v.old k lt;
}

held-le-has : (k : ℕ) (p : Pc) → held k p ≤ has k p
held-le-has k Pc.outside = omega arith
held-le-has k (Pc.waiting t) = omega arith
held-le-has k (Pc.looked t) = omega arith
held-le-has k (Pc.claiming t) = omega arith
held-le-has k (Pc.holding t) = omega arith

total_mono : (f g : Pc → ℕ) → ((p : Pc) → f p ≤ g p) → (ps : List Pc) → total f ps ≤ total g ps
unfolding total
total_mono f g h [] = omega arith
total_mono f g h (p ∷ ps) = omega (arith, h p, total_mono f g h ps)

Reach-Turns :
    {n next serving taken : ℕ} {ps : List Pc}
    → Reach n next serving taken ps
    → taken < 2 ^ 32
    → Turns next serving taken
        (λ k. total (has k) ps)
        (λ k. total (held k) ps)
        (λ k. total (saw k) ps)
unfolding atomic_set
Reach-Turns {n} Reach.start h = record {
  counted = refl;
  ahead = omega arith;
  out = λ k. ground (arith, total-replicate (has k) n Pc.outside refl);
  in_turn = λ k ne. total-replicate (held k) n Pc.outside refl;
  old = λ k lt. total-replicate (saw k) n Pc.outside refl;
}
Reach-Turns (Reach.later {ps} {ps'} r moved m) h =
    let a = λ (k : ℕ). total-Replaced (has k) moved in
    let b = λ (k : ℕ). total-Replaced (held k) moved in
    let c = λ (k : ℕ). total-Replaced (saw k) moved in
    let before = Reach-Turns r (omega (arith, h, Move-taken m)) in
    Turns-same (λ k. (a k).2) (λ k. (b k).2) (λ k. (c k).2)
      (Move-Turns (λ k. (a k).0) (λ k. (b k).0) (λ k. (c k).0) m h
        (λ k. omega (arith, (a k).1, (b k).1, total_mono (held k) (has k) (held-le-has k) ps))
        (Turns-same (λ k. sym (a k).1) (λ k. sym (b k).1) (λ k. sym (c k).1) before))

-- With one ticket alone, the holders are those who hold by it.
one_ticket :
    (s : ℕ) (ps : List Pc)
    → ((k : ℕ) → k ≢ s → total (held k) ps ≡ 0)
    → total holds ps ≡ total (held s) ps
unfolding total
one_ticket s [] h = refl
one_ticket s (Pc.outside ∷ ps) h = omega (arith, one_ticket s ps (λ k ne. omega (arith, h k ne)))
one_ticket s (Pc.waiting t ∷ ps) h = omega (arith, one_ticket s ps (λ k ne. omega (arith, h k ne)))
one_ticket s (Pc.looked t ∷ ps) h = omega (arith, one_ticket s ps (λ k ne. omega (arith, h k ne)))
one_ticket s (Pc.claiming t ∷ ps) h = omega (arith, one_ticket s ps (λ k ne. omega (arith, h k ne)))
one_ticket s (Pc.holding t ∷ ps) h =
    let own : t ≡ s = ground (arith, h t) in
    let rest = one_ticket s ps (λ k ne. ground (arith, h k ne)) in ground (arith, own, rest)

-- In every state that the threads can reach from the start with fewer than 2 ^ 32 tickets taken, at most
-- one thread holds the lock, and it holds it by the ticket that is served; and each ticket from the
-- served one up to the next one is with exactly one thread that waits or holds, and no other ticket is.
pub tickets_in_turn :
    (n next serving taken : ℕ) (ps : List Pc)
    → Reach n next serving taken ps
    → taken < 2 ^ 32
    → (total holds ps ≤ 1)
      × ((k : ℕ) → k ≢ serving → total (held k) ps ≡ 0)
      × (serving ≤ next)
      × ((k : ℕ) → total (has k) ps ≡ (if leb serving k && ltb k next then 1 else 0))
tickets_in_turn n next serving taken ps r h =
    let v = Reach-Turns r h in
    let most = total_mono (held serving) (has serving) (held-le-has serving) ps in
    (
      ground (arith, one_ticket serving ps v.in_turn, most, v.out serving),
      v.in_turn,
      v.ahead,
      v.out,
    )
