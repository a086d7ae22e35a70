-- ===== src/Probe/CProbe/Bounds.antt =====
-- `main` of the probe for C reads inside the strings where it is called with fewer than five arguments.
use distributed_kvstore.Prelude.{
  ℕ, ◌*◌, ◌<◌, ◌≤◌, ◌≡◌, refl, false, none, some, Bool-cases, inl, inr,
}
use distributed_kvstore.Probe.{Macros, defined}
use distributed_kvstore.Probe.Arrays.{Arrays}
use distributed_kvstore.Probe.Arrays.Bounds.{prefix_at, sum_at-bounded}
use distributed_kvstore.Probe.CProbe.{c_translate, c_main, c_identify, c_version}

-- Where the source for C compiles, `main` is not void and is called with fewer than five arguments, it
-- reads inside its strings only, and returns five to ten times the byte of `INFO:` at that place.
pub c_main-bounded :
    (m : Macros) (a : Arrays) (argc : ℕ)
    → c_translate m ≡ some a
    → defined m "__18CXX" ≡ false
    → argc < 5
    → (count : ℕ) × (c_main m a argc ≡ some (some (count * prefix_at argc)))
      × (5 ≤ count)
      × (count ≤ 10)
unfolding c_translate c_main
c_main-bounded m a argc h returns lt = elim (Bool-cases (defined m "__cplusplus")) [
  | inl e ↦ let h' : none ≡ some a = rw e at h in absurd (cc)
  | inr e ↦
      let (count, read, low, high) =
        sum_at-bounded m (c_identify m) (c_version m) a argc (rw e at h) lt in
      (count, rw (returns, read) refl, low, high)
]
