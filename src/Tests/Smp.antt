-- ===== src/Tests/Smp.antt =====
-- Five processors, one more than there are numbers.
use lun_os.Prelude.{refl, arith, false, none, [], ◌∷◌}
use lun_os.Smp.{Smp, take_cpu_ids}
use lun_os.Smp.Ids.{Numbered, take_cpu_ids-Numbered}

abbrev unnumbered : Smp
unnumbered = record {
  percpu_processor_ids = λ i. 0;
  cpu_id_ctr = 0;
  total_cpus = 0;
  gs = λ w. none;
  started = λ w. false;
}

take_cpu_ids_example :
    Numbered 0 (20 ∷ 10 ∷ 50 ∷ 40 ∷ 30 ∷ []) (take_cpu_ids (20 ∷ 10 ∷ 50 ∷ 40 ∷ 30 ∷ []) unnumbered)
take_cpu_ids_example =
    take_cpu_ids-Numbered (20 ∷ 10 ∷ 50 ∷ 40 ∷ 30 ∷ []) unnumbered (ground arith)
      (refl, (refl, (refl, (refl, (refl, tt))))) (omega arith)
