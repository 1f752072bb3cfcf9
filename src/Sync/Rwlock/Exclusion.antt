-- ===== src/Sync/Rwlock/Exclusion.antt =====
-- Who holds a reader-writer lock.
use lun_os.Prelude.{
  ℕ, ◌+◌, ◌^◌, ◌≤◌, ◌<◌, ◌≡◌, ◌≢◌, ◌⊎◌, inl, refl, sym, ◌∙◌, List, length, arith, All, false,
}
use lun_os.Prelude.Bits.{bit_and-pow}
use lun_os.Sync.Atomic.{atomic_read, atomic_set, atomic_cmpxchg, atomic_dec, sub_word}
use lun_os.Sync.Threads.{
  total, total-Replaced, total-replicate, length-Replaced, length-replicate, All-Replaced,
  All-replicate, total_bound,
}
use lun_os.Sync.Rwlock.{Pc, Move, Reach, has_writer, new_val, writer_mask}

abbrev pub reads : Pc → ℕ
reads Pc.reading = 1
reads _ = 0

abbrev pub writes : Pc → ℕ
writes Pc.writing = 1
writes _ = 0

-- A thread about to compare and exchange has seen no writer.
abbrev Seen : Pc → Type 0
Seen (Pc.read_cas old) = old < 2 ^ 31
Seen (Pc.try_cas old) = old < 2 ^ 31
Seen _ = Unit

-- The word counts the readers, or it is the writer's bit and one thread writes.
abbrev pub Agrees : ℕ → ℕ → ℕ → Type 0
Agrees v r w = ((v ≡ r) × (w ≡ 0)) ⊎ ((v ≡ 2 ^ 31) × (r ≡ 0) × (w ≡ 1))

has_writer-false : (v : ℕ) → v < 2 ^ 32 → has_writer v ≡ false → v < 2 ^ 31
unfolding has_writer
has_writer-false v h e = ground (arith, bit_and-pow 31 v)

new_val_lem : (v : ℕ) → v < 2 ^ 31 → new_val v ≡ v + 1
unfolding new_val
new_val_lem v h = omega arith

module _ (k j : ℕ) where
  cas_win :
      (v old : ℕ)
      → old < 2 ^ 31
      → (atomic_cmpxchg v old (new_val old)).0 ≡ old
      → k + 1 < 2 ^ 31
      → Agrees v (0 + k) (0 + j)
      → Agrees (atomic_cmpxchg v old (new_val old)).1 (1 + k) (0 + j)
  unfolding atomic_cmpxchg
  cas_win v old h e small a = ground (arith, new_val_lem old h)

  cas_lose :
      (v old : ℕ)
      → (atomic_cmpxchg v old (new_val old)).0 ≢ old
      → Agrees v (0 + k) (0 + j)
      → Agrees (atomic_cmpxchg v old (new_val old)).1 (0 + k) (0 + j)
  unfolding atomic_cmpxchg
  cas_lose v old e a = ground arith

  write_win :
      (v : ℕ)
      → (atomic_cmpxchg v 0 writer_mask).0 ≡ 0
      → Agrees v (0 + k) (0 + j)
      → Agrees (atomic_cmpxchg v 0 writer_mask).1 (0 + k) (1 + j)
  unfolding atomic_cmpxchg
  write_win v e a = ground arith

  write_lose :
      (v : ℕ)
      → (atomic_cmpxchg v 0 writer_mask).0 ≢ 0
      → Agrees v (0 + k) (0 + j)
      → Agrees (atomic_cmpxchg v 0 writer_mask).1 (0 + k) (0 + j)
  unfolding atomic_cmpxchg
  write_lose v e a = ground arith

  release :
      (v : ℕ) → k + 1 < 2 ^ 31 → Agrees v (1 + k) (0 + j) → Agrees (atomic_dec v) (0 + k) (0 + j)
  unfolding atomic_dec sub_word
  release v small a = ground arith

  Move-Agrees :
      {v v' : ℕ} {p p' : Pc}
      → Move v p v' p'
      → Seen p
      → k + 1 < 2 ^ 31
      → Agrees v (reads p + k) (writes p + j)
      → Agrees v' (reads p' + k) (writes p' + j) × Seen p'
  unfolding atomic_read atomic_set
  Move-Agrees Move.read_call s h a = (a, tt)
  Move-Agrees (Move.read_pause e) s h a = (a, tt)
  Move-Agrees {v} (Move.read_go e) s h a = (a, has_writer-false v (ground arith) e)
  Move-Agrees {v} (Move.read_win {old} e) s h a = (cas_win v old s e h a, tt)
  Move-Agrees {v} (Move.read_lose {old} e) s h a = (cas_lose v old e a, tt)
  Move-Agrees (Move.try_busy e) s h a = (a, tt)
  Move-Agrees (Move.try_full e) s h a = (a, tt)
  Move-Agrees {v} (Move.try_go e f) s h a = (a, has_writer-false v (ground arith) e)
  Move-Agrees {v} (Move.try_win {old} e) s h a = (cas_win v old s e h a, tt)
  Move-Agrees {v} (Move.try_lose {old} e) s h a = (cas_lose v old e a, tt)
  Move-Agrees {v} Move.read_unlock s h a = (release v h a, tt)
  Move-Agrees Move.write_call s h a = (a, tt)
  Move-Agrees {v} (Move.write_win e) s h a = (write_win v e a, tt)
  Move-Agrees {v} (Move.write_lose e) s h a = (write_lose v e a, tt)
  Move-Agrees (Move.write_pause e) s h a = (a, tt)
  Move-Agrees (Move.write_retry e) s h a = (a, tt)
  Move-Agrees {v} (Move.try_write_win e) s h a = (write_win v e a, tt)
  Move-Agrees {v} (Move.try_write_lose e) s h a = (write_lose v e a, tt)
  Move-Agrees Move.write_unlock s h a = (ground arith, tt)

record IsInvariant (n v : ℕ) (ps : List Pc) : Type 0 where
  pub agrees : Agrees v (total reads ps) (total writes ps)
  pub seen : All Seen ps
  pub size : length ps ≡ n

one_each : (p : Pc) → reads p + writes p ≤ 1
one_each Pc.reading = omega arith
one_each Pc.writing = omega arith
one_each Pc.outside = omega arith
one_each Pc.read_load = omega arith
one_each (Pc.read_cas _) = omega arith
one_each (Pc.try_cas _) = omega arith
one_each Pc.write_cas = omega arith
one_each Pc.write_wait = omega arith

invariant : (n v : ℕ) (ps : List Pc) → n + 1 < 2 ^ 31 → Reach n v ps → IsInvariant n v ps
unfolding atomic_set
invariant n v ps h Reach.start = record {
  agrees =
      inl (sym (total-replicate reads n Pc.outside refl), total-replicate writes n Pc.outside refl);
  seen = All-replicate Seen n Pc.outside tt;
  size = length-replicate n Pc.outside;
}
invariant n _ _ h (Reach.later {v} {p} {ps} r moved m) =
    let old = invariant n v ps h r in
    let (k, e, g) = total-Replaced reads moved in
    let (j, d, f) = total-Replaced writes moved in
    let (s, back) = All-Replaced Seen moved old.seen in
    let small : k + 1 < 2 ^ 31 =
      omega (arith, e, old.size, h, total_bound reads writes one_each ps) in
    let (a, s') = Move-Agrees k j m s small (rw (e, d) at old.agrees) in
    record { agrees = rw (g, f) a; seen = back s'; size = length-Replaced moved ∙ old.size }

-- With fewer than 2 ^ 31 - 1 threads, in every state that they can reach, either the lock's word is
-- the number of threads that hold it for reading and none holds it for writing, or it is the writer's
-- bit, exactly one thread holds it for writing and none for reading.
pub readers_or_writer :
    (n v : ℕ) (ps : List Pc)
    → n + 1 < 2 ^ 31
    → Reach n v ps
    → ((v ≡ total reads ps) × (total writes ps ≡ 0))
      ⊎ ((v ≡ 2 ^ 31) × (total reads ps ≡ 0) × (total writes ps ≡ 1))
readers_or_writer n v ps h r = (invariant n v ps h r).agrees
