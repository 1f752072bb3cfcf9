-- ===== src/Slab/Relist.antt =====
-- Moving a slab from one list of its cache to another.
use lun_os.Prelude.{
  ℕ, suc, ◌+◌, ◌<◌, ◌≡◌, ◌≢◌, refl, arith, length, true, false, ltb, ◌==◌, if◌then◌else◌, dec_lt,
}
use lun_os.Slab.{SlabCache, occurs, unlink, slab_remove_from_list, to_full, to_partial, to_empty}
use lun_os.Slab.Lists.{sum, occurs-unlink, sum-unlink, sum_agree, sum_update, length-unlink_present}

-- How often the cache lists a slab.
unfoldable pub listed : SlabCache → ℕ → ℕ
listed c a = occurs a c.partial_slabs + occurs a c.full_slabs + occurs a c.empty_slabs

-- A quantity summed over the slabs that the cache lists.
unfoldable pub over : (ℕ → ℕ) → SlabCache → ℕ
over f c = sum f c.partial_slabs + sum f c.full_slabs + sum f c.empty_slabs

unfoldable pub slab_total : SlabCache → ℕ
slab_total c = length c.partial_slabs + length c.full_slabs + length c.empty_slabs

-- All of a cache but its lists.
pub record HasSameNumbers (c d : SlabCache) : Type 0 where
  pub size : d.object_size ≡ c.object_size
  pub per_slab : d.objects_per_slab ≡ c.objects_per_slab
  pub objects : d.total_objects ≡ c.total_objects
  pub allocated : d.allocated_objects ≡ c.allocated_objects
  pub slabs : d.total_slabs ≡ c.total_slabs

-- The slab `s` may have moved, and stands in the partial list `p` times, and so on; nothing else
-- changed.
pub record Relisted (s p f e : ℕ) (c d : SlabCache) : Type 0 where
  pub numbers : HasSameNumbers c d
  pub partial :
      (a : ℕ) → occurs a d.partial_slabs ≡ (if a == s then p else occurs a c.partial_slabs)
  pub full : (a : ℕ) → occurs a d.full_slabs ≡ (if a == s then f else occurs a c.full_slabs)
  pub empty : (a : ℕ) → occurs a d.empty_slabs ≡ (if a == s then e else occurs a c.empty_slabs)
  pub sums : (g h : ℕ → ℕ) → ((a : ℕ) → a ≢ s → h a ≡ g a) → over h d + g s ≡ over g c + h s
  pub total : slab_total d ≡ slab_total c

-- The slab has been taken off its list.
record Removed (s : ℕ) (c d : SlabCache) : Type 0 where
  pub numbers : HasSameNumbers c d
  pub partial :
      (a : ℕ) → occurs a d.partial_slabs ≡ (if a == s then 0 else occurs a c.partial_slabs)
  pub full : (a : ℕ) → occurs a d.full_slabs ≡ (if a == s then 0 else occurs a c.full_slabs)
  pub empty : (a : ℕ) → occurs a d.empty_slabs ≡ (if a == s then 0 else occurs a c.empty_slabs)
  pub sums : (g : ℕ → ℕ) → over g c ≡ g s + over g d
  pub total : slab_total c ≡ suc (slab_total d)

module _ (s : ℕ) (c : SlabCache) (once : listed c s ≡ 1) where
  abbrev c_partial : SlabCache
  c_partial = record c { partial_slabs = unlink s c.partial_slabs }

  abbrev c_full : SlabCache
  c_full = record c { full_slabs = unlink s c.full_slabs }

  abbrev c_empty : SlabCache
  c_empty = record c { empty_slabs = unlink s c.empty_slabs }

  in_partial : 0 < occurs s c.partial_slabs → Removed s c c_partial
  unfolding listed over slab_total
  in_partial h = record {
    numbers = record {
      size = refl;
      per_slab = refl;
      objects = refl;
      allocated = refl;
      slabs = refl;
    };
    partial = λ a. ground (arith, occurs-unlink a s c.partial_slabs);
    full = λ a. ground arith;
    empty = λ a. ground arith;
    sums = λ g. omega (arith, sum-unlink g s c.partial_slabs h);
    total = omega (arith, length-unlink_present s c.partial_slabs h);
  }

  in_full : 0 < occurs s c.full_slabs → Removed s c c_full
  unfolding listed over slab_total
  in_full h = record {
    numbers = record {
      size = refl;
      per_slab = refl;
      objects = refl;
      allocated = refl;
      slabs = refl;
    };
    partial = λ a. ground arith;
    full = λ a. ground (arith, occurs-unlink a s c.full_slabs);
    empty = λ a. ground arith;
    sums = λ g. omega (arith, sum-unlink g s c.full_slabs h);
    total = omega (arith, length-unlink_present s c.full_slabs h);
  }

  in_empty : 0 < occurs s c.empty_slabs → Removed s c c_empty
  unfolding listed over slab_total
  in_empty h = record {
    numbers = record {
      size = refl;
      per_slab = refl;
      objects = refl;
      allocated = refl;
      slabs = refl;
    };
    partial = λ a. ground arith;
    full = λ a. ground arith;
    empty = λ a. ground (arith, occurs-unlink a s c.empty_slabs);
    sums = λ g. omega (arith, sum-unlink g s c.empty_slabs h);
    total = omega (arith, length-unlink_present s c.empty_slabs h);
  }

  removed : Removed s c (slab_remove_from_list s c)
  unfolding slab_remove_from_list listed
  removed = elim (dec_lt 0 (occurs s c.partial_slabs)) [
    | yes p ↦
        let e : ltb 0 (occurs s c.partial_slabs) ≡ true = ground (arith, p) in rw e (in_partial p)
    | no np ↦ elim (dec_lt 0 (occurs s c.full_slabs)) [
      | yes f ↦
          let d : ltb 0 (occurs s c.partial_slabs) ≡ false = ground (arith, np) in
          let e : ltb 0 (occurs s c.full_slabs) ≡ true = ground (arith, f) in rw (d, e) (in_full f)
      | no nf ↦
          let d : ltb 0 (occurs s c.partial_slabs) ≡ false = ground (arith, np) in
          let e : ltb 0 (occurs s c.full_slabs) ≡ false = ground (arith, nf) in
          rw (d, e) (in_empty (omega arith))
    ]
  ]

  -- Where the slab is put in front of a list after that, its quantity is added again.
  readded :
      (d : SlabCache)
      → Removed s c d
      → (g h : ℕ → ℕ) → ((a : ℕ) → a ≢ s → h a ≡ g a)
      → over h d ≡ over g d
  unfolding over
  readded d r g h same =
      let p : occurs s d.partial_slabs ≡ 0 = ground (arith, r.partial s) in
      let f : occurs s d.full_slabs ≡ 0 = ground (arith, r.full s) in
      let e : occurs s d.empty_slabs ≡ 0 = ground (arith, r.empty s) in
      omega (
        arith,
        sum_agree g h s d.partial_slabs same p,
        sum_agree g h s d.full_slabs same f,
        sum_agree g h s d.empty_slabs same e,
      )

  pub to_full-Relisted : Relisted s 0 1 0 c (to_full s c)
  unfolding to_full over occurs sum slab_total
  to_full-Relisted =
      let r = removed in
      record {
        numbers = record {
          size = r.numbers.size;
          per_slab = r.numbers.per_slab;
          objects = r.numbers.objects;
          allocated = r.numbers.allocated;
          slabs = r.numbers.slabs;
        };
        partial = r.partial;
        full = λ a. ground (arith, r.full a);
        empty = r.empty;
        sums = λ g h same. omega (arith, readded _ r g h same, r.sums g);
        total = omega (arith, r.total);
      }

  pub to_partial-Relisted : Relisted s 1 0 0 c (to_partial s c)
  unfolding to_partial over occurs sum slab_total
  to_partial-Relisted =
      let r = removed in
      record {
        numbers = record {
          size = r.numbers.size;
          per_slab = r.numbers.per_slab;
          objects = r.numbers.objects;
          allocated = r.numbers.allocated;
          slabs = r.numbers.slabs;
        };
        partial = λ a. ground (arith, r.partial a);
        full = r.full;
        empty = r.empty;
        sums = λ g h same. omega (arith, readded _ r g h same, r.sums g);
        total = omega (arith, r.total);
      }

  pub to_empty-Relisted : Relisted s 0 0 1 c (to_empty s c)
  unfolding to_empty over occurs sum slab_total
  to_empty-Relisted =
      let r = removed in
      record {
        numbers = record {
          size = r.numbers.size;
          per_slab = r.numbers.per_slab;
          objects = r.numbers.objects;
          allocated = r.numbers.allocated;
          slabs = r.numbers.slabs;
        };
        partial = r.partial;
        full = r.full;
        empty = λ a. ground (arith, r.empty a);
        sums = λ g h same. omega (arith, readded _ r g h same, r.sums g);
        total = omega (arith, r.total);
      }

  -- A slab that stays where it is, in the partial list.
  pub stay-Relisted : occurs s c.partial_slabs ≡ 1 → Relisted s 1 0 0 c c
  unfolding over listed
  stay-Relisted p = record {
    numbers = record {
      size = refl;
      per_slab = refl;
      objects = refl;
      allocated = refl;
      slabs = refl;
    };
    partial = λ a. ground arith;
    full = λ a. ground arith;
    empty = λ a. ground arith;
    sums = λ g h same. omega (
      arith,
      sum_update g h s c.partial_slabs same p,
      sum_agree g h s c.full_slabs same,
      sum_agree g h s c.empty_slabs same,
    );
    total = refl;
  }
