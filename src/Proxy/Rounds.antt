-- ===== src/Proxy/Rounds.antt =====
-- RadosBindMsgrWorker of src/ceph_proxy/RadosWrapper.cc: the processors go round.
use ceph_global_cache_adapto.Proxy.Binding.{
  only_first, sorted, threads_named, Tasks, rados_bind_msgr_worker, rados_bind_core, bind_all,
}
use ceph_global_cache_adapto.Prelude.{
  ◌++◌, mod_below, subst, ℕ, zero, suc, ◌+◌, ◌%◌, ◌<◌, ◌≡◌, refl, Option, some, List, [], ◌∷◌,
  arith, length, get_elem?,
}
use ceph_global_cache_adapto.Prelude.Text.{codes}

-- The thread t is the k-th that is bound, and has the processor at the place p of the round.
abbrev pub At : List ℕ → List (ℕ × ℕ) → ℕ → ℕ → ℕ → Type 0
At cores bs p k t =
    (cpu : ℕ) × (get_elem? cores (p % length cores) ≡ some cpu) × (get_elem? bs k ≡ some (t, cpu))

-- The outcome binds each of the threads, the k-th at the place n + k.
abbrev pub Rounds : List ℕ → List ℕ → ℕ → Option (List (ℕ × ℕ)) → Type 0
Rounds cores ts n o =
    (bs : List (ℕ × ℕ)) × (o ≡ some bs)
    × (length bs ≡ length ts)
    × ((k t : ℕ) → get_elem? ts k ≡ some t → At cores bs (n + k) k t)

get_elem?-below : (xs : List ℕ) (i : ℕ) → i < length xs → (x : ℕ) × (get_elem? xs i ≡ some x)
get_elem?-below [] i h = absurd (omega arith)
get_elem?-below (x ∷ xs) zero h = (x, refl)
get_elem?-below (x ∷ xs) (suc i) h = get_elem?-below xs i (omega arith)

-- One thread: the processor at the place, modulo the number of them
rados_bind_core_lem :
    (cores : List ℕ) (t n : ℕ)
    → 0 < length cores
    → (cpu : ℕ) × (get_elem? cores (n % length cores) ≡ some cpu)
      × (rados_bind_core cores t n ≡ some (t, cpu))
unfolding rados_bind_core
rados_bind_core_lem [] t n h = absurd (omega arith)
rados_bind_core_lem (c ∷ cs) t n h =
    let (cpu, e) =
      get_elem?-below (c ∷ cs) (n % length (c ∷ cs)) (mod_below n (length (c ∷ cs)) h) in
    (cpu, e, ground (arith, e))

added-At :
    (cores ts : List ℕ) (bs : List (ℕ × ℕ)) (t cpu n : ℕ)
    → get_elem? cores (n % length cores) ≡ some cpu
    → ((k u : ℕ) → get_elem? ts k ≡ some u → At cores bs (suc n + k) k u)
    → (k u : ℕ) → get_elem? (t ∷ ts) k ≡ some u
    → At cores ((t, cpu) ∷ bs) (n + k) k u
added-At cores ts bs t cpu n place each zero u e =
    let same : t ≡ u = cc in
    subst (λ u. At cores ((t, cpu) ∷ bs) (n + 0) 0 u) same
      (subst (λ p. At cores ((t, cpu) ∷ bs) p 0 t) (omega arith) (cpu, place, refl))
added-At cores ts bs t cpu n place each (suc k) u e =
    subst (λ p. At cores ((t, cpu) ∷ bs) p (suc k) u) (omega arith) (each k u e)

bind_all-Rounds :
    (cores ts : List ℕ) (n : ℕ) → 0 < length cores → Rounds cores ts n (bind_all cores ts n)
unfolding bind_all
bind_all-Rounds cores [] n h = ([], refl, refl, λ k t e. absurd (ground arith))
bind_all-Rounds cores (t ∷ ts) n h =
    let (cpu, place, one) = rados_bind_core_lem cores t n h in
    let (bs, rest, size, each) = bind_all-Rounds cores ts (suc n) h in
    (
      (t, cpu) ∷ bs,
      ground (arith, one, rest),
      omega (arith, size),
      added-At cores ts bs t cpu n place each,
    )

-- RadosBindMsgrWorker over the threads that it has named
pub named-Rounds :
    (cores workers dispatchers : List ℕ) (ts : Tasks)
    → 0 < length cores
    → threads_named (codes "msgr-worker-") ts ≡ some workers
    → threads_named (codes "ms_dispatch") ts ≡ some dispatchers
    → Rounds cores
        (sorted workers ++ only_first (sorted dispatchers))
        0
        (rados_bind_msgr_worker cores (some ts))
unfolding rados_bind_msgr_worker
named-Rounds cores workers dispatchers ts h w d =
    subst (Rounds cores (sorted workers ++ only_first (sorted dispatchers)) 0) (rw (w, d))
      (bind_all-Rounds cores (sorted workers ++ only_first (sorted dispatchers)) 0 h)
