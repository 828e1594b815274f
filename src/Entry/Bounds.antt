-- ===== src/Entry/Bounds.antt =====
-- What OSA_Init of src/server_adaptor/osa.cpp starts with.
use ceph_global_cache_adapto.Prelude.{
  ◌∙◌, if◌then◌else◌, sym, ◌-◌, mod_below, subst, ℕ, zero, suc, ◌+◌, ◌%◌, ◌<◌, ◌≤◌, ◌≡◌, ◌⊎◌, refl,
  false, none, some, List, [], ◌∷◌, ◌==◌, leb, length, get_elem?, ℤ, pos, negsuc, arith, inl, inr,
  Option-cases, Bool-cases, ap,
}
use ceph_global_cache_adapto.Prelude.Text.{Text, atoi}
use ceph_global_cache_adapto.Loader.Types.{Env}
use ceph_global_cache_adapto.Loader.Handler.{rpc_init}
use ceph_global_cache_adapto.Entry.Config.{Items, ClusterControlCfg, cache_cluster_config_init}
use ceph_global_cache_adapto.Entry.Checks.{
  Machine, Settings, check_settings, check_local_ip, ports_of, cores_of, sections, numbers_refused,
  check_core_id, settings_of,
}
use ceph_global_cache_adapto.Entry.Start.{
  drop, sa_core_id, thread_cores, create_work_thread, Running, Messenger, osa_init, returned,
  divides_by_zero,
}

-- Every number is below n.
abbrev pub AllBelow : ℕ → List ℕ → Type 0
AllBelow n [] = Unit
AllBelow n (x ∷ xs) = (x < n) × AllBelow n xs

-- The ranges that are accepted
pub record InBounds (s : Settings) : Type 0 where
  pub queues : (4 ≤ s.queue_amount) × (s.queue_amount ≤ 5000)
  pub capacity : (1 ≤ s.queue_max_capacity) × (s.queue_max_capacity ≤ 1024)
  pub messengers : (3 ≤ s.msgr_amount) × (s.msgr_amount ≤ 16)
  pub cores : (s.msgr_amount + length s.ports ≤ length s.core_ids) ⊎ (s.bind_core ≡ 0)
  pub cycle : 1 ≤ s.qos.get_quota_cycle
  pub throttle :
      (s.qos.sa_op_throttle ≡ 0) ⊎ ((2000 ≤ s.qos.sa_op_throttle) × (s.qos.sa_op_throttle ≤ 30000))

numbers_refused-InBounds : (s : Settings) → numbers_refused s ≡ false → InBounds s
unfolding numbers_refused
numbers_refused-InBounds s h = record {
  queues = ground (arith, h);
  capacity = ground (arith, h);
  messengers = ground (arith, h);
  cores = elim (Bool-cases (s.bind_core == 0)) [
    | inl e ↦ inr (ground (arith, e))
    | inr e ↦ inl (ground (arith, h, e))
  ];
  cycle = ground (arith, h);
  throttle = elim (Bool-cases (s.qos.sa_op_throttle == 0)) [
    | inl e ↦ inl (ground (arith, e))
    | inr e ↦ inr (ground (arith, h, e))
  ];
}

check_core_id-lt : (cpus : ℕ) (c : ℤ) (n : ℕ) → check_core_id cpus c ≡ some n → n < cpus
unfolding check_core_id
check_core_id-lt cpus (pos m) n h = ground (arith, h)
check_core_id-lt cpus (negsuc m) n h = absurd (ground (arith, h))

cores_of-AllBelow :
    (cpus : ℕ) (ts : List Text) (xs : List ℕ) → cores_of cpus ts ≡ some xs → AllBelow cpus xs
unfolding cores_of check_core_id
cores_of-AllBelow cpus [] xs h = let e : [] ≡ xs = ground (arith, h) in subst (AllBelow cpus) e tt
cores_of-AllBelow cpus (t ∷ ts) xs h = elim (Option-cases (check_core_id cpus (atoi t))) [
  | inl e ↦ absurd (ground (arith, h, e))
  | inr (n, e) ↦ elim (Option-cases (cores_of cpus ts)) [
    | inl f ↦ absurd (ground (arith, h, e, f))
    | inr (rest, f) ↦
        let g : n ∷ rest ≡ xs = ground (arith, h, e, f) in
        subst (AllBelow cpus) g
          (check_core_id-lt cpus (atoi t) n e, cores_of-AllBelow cpus ts rest f)
  ]
]

record Accepted (m : Machine) (s : Settings) : Type 0 where
  bounds : InBounds s
  some_port : (1 ≤ length s.ports) × (length s.ports ≤ 8)
  online : AllBelow m.nprocs_onln s.core_ids

check_settings-Accepted :
    (m : Machine) (c : ClusterControlCfg) (s : Settings)
    → check_settings m c ≡ some s
    → Accepted m s
unfolding check_settings
check_settings-Accepted m c s h = elim (Bool-cases (check_local_ip c.listen_ip m)) [
  | inr a ↦ absurd (ground (arith, h, a))
  | inl a ↦ elim (Option-cases (ports_of (sections c.listen_port))) [
    | inl b ↦ absurd (ground (arith, h, a, b))
    | inr (ports, b) ↦ elim (Option-cases (cores_of m.nprocs_onln (sections c.core_number))) [
      | inl d ↦ absurd (ground (arith, h, a, b, d))
      | inr (cores, d) ↦
          let e : settings_of c ports cores ≡ s = ground (arith, h, a, b, d) in
          let n : numbers_refused (settings_of c ports cores) ≡ false =
            ground (arith, h, a, b, d) in
          let p : (1 ≤ length ports) × (length ports ≤ 8) = ground (arith, h, a, b, d) in
          subst (Accepted m) e record {
            bounds = numbers_refused-InBounds (settings_of c ports cores) n;
            some_port = p;
            online = cores_of-AllBelow m.nprocs_onln (sections c.core_number) cores d;
          }
    ]
  ]
]

AllBelow-drop : (n k : ℕ) (xs : List ℕ) → AllBelow n xs → AllBelow n (drop k xs)
AllBelow-drop n zero xs h = h
AllBelow-drop n (suc k) [] h = tt
AllBelow-drop n (suc k) (x ∷ xs) (a, h) = AllBelow-drop n k xs h

length-drop : (k : ℕ) (xs : List ℕ) → k < length xs → 0 < length (drop k xs)
length-drop zero xs h = h
length-drop (suc k) [] h = absurd (omega arith)
length-drop (suc k) (x ∷ xs) h = length-drop k xs (omega arith)

get_elem?-AllBelow :
    (n i : ℕ) (xs : List ℕ)
    → i < length xs
    → AllBelow n xs
    → (x : ℕ) × (get_elem? xs i ≡ some x) × (x < n)
get_elem?-AllBelow n i [] h a = absurd (omega arith)
get_elem?-AllBelow n zero (x ∷ xs) h (a, b) = (x, refl, a)
get_elem?-AllBelow n (suc i) (x ∷ xs) h (a, b) = get_elem?-AllBelow n i xs (omega arith) b

-- The k-th of these processors stands in the list at the place i + k, which goes round.
abbrev Placed : List ℕ → ℕ → List ℕ → Type 0
Placed cores i cpus =
    (k : ℕ) → k < length cpus → get_elem? cpus k ≡ get_elem? cores ((i + k) % length cores)

added-Placed :
    (cores : List ℕ) (x i : ℕ) (cpus : List ℕ)
    → get_elem? cores (i % length cores) ≡ some x
    → Placed cores (suc i) cpus
    → Placed cores i (x ∷ cpus)
added-Placed cores x i cpus e p zero h =
    subst (λ j. some x ≡ get_elem? cores (j % length cores)) (omega arith) (sym e)
added-Placed cores x i cpus e p (suc k) h =
    subst (λ j. get_elem? cpus k ≡ get_elem? cores (j % length cores)) (omega arith)
      (p k (omega arith))

first-Placed :
    (cores cpus : List ℕ)
    → Placed cores 0 cpus
    → (k : ℕ) → k < length cpus
    → get_elem? cpus k ≡ get_elem? cores (k % length cores)
first-Placed cores cpus p k h =
    subst (λ j. get_elem? cpus k ≡ get_elem? cores (j % length cores)) (omega arith) (p k h)

thread_cores-AllBelow :
    (n i left : ℕ) (cores : List ℕ)
    → 0 < length cores
    → AllBelow n cores
    → (cpus : List ℕ) × (thread_cores cores i left ≡ some cpus)
      × (length cpus ≡ left)
      × AllBelow n cpus
      × Placed cores i cpus
unfolding thread_cores
thread_cores-AllBelow n i zero cores h a = ([], refl, refl, tt, λ k l. absurd (omega arith))
thread_cores-AllBelow n i (suc left) [] h a = absurd (omega arith)
thread_cores-AllBelow n i (suc left) (c ∷ cs) h a =
    let (x, e, l) =
      get_elem?-AllBelow n (i % length (c ∷ cs)) (c ∷ cs) (mod_below i (length (c ∷ cs)) h) a in
    let (rest, f, k, b, p) = thread_cores-AllBelow n (suc i) left (c ∷ cs) h a in
    (x ∷ rest, ground (arith, e, f), ap suc k, (l, b), added-Placed (c ∷ cs) x i rest e p)

-- The processors that the messenger leaves: there is one if any is configured.
sa_core_id-AllBelow :
    (n bind taken : ℕ) (cores : List ℕ)
    → AllBelow n cores
    → 0 < length cores
    → (0 < length (sa_core_id bind taken cores)) × AllBelow n (sa_core_id bind taken cores)
unfolding sa_core_id
sa_core_id-AllBelow n bind taken cores a h = elim (Bool-cases (bind == 0)) [
  | inl e ↦ rw e (h, a)
  | inr e ↦ elim (Bool-cases (leb (length cores) taken)) [
    | inl f ↦ rw (e, f) (h, a)
    | inr f ↦ rw (e, f) (length-drop taken cores (ground (arith, f)), AllBelow-drop n taken cores a)
  ]
]

suc_of : (n i : ℕ) → suc (n + i) ≡ suc n + i
suc_of n i = omega arith

get_elem?-drop : (n i : ℕ) (xs : List ℕ) → get_elem? (drop n xs) i ≡ get_elem? xs (n + i)
get_elem?-drop zero i xs = ap (get_elem? xs) (omega arith)
get_elem?-drop (suc n) i [] = refl
get_elem?-drop (suc n) i (x ∷ xs) = get_elem?-drop n i xs ∙ ap (get_elem? (x ∷ xs)) (suc_of n i)

length-drop_minus : (n : ℕ) (xs : List ℕ) → length (drop n xs) ≡ length xs - n
length-drop_minus zero xs = omega arith
length-drop_minus (suc n) [] = omega arith
length-drop_minus (suc n) (x ∷ xs) = omega (arith, length-drop_minus n xs)

-- The place in the configured list of the first processor that is given to a queue: behind those
-- that the messenger takes, where it is bound and leaves any
abbrev pub first_left : Settings → ℕ
first_left s =
    if s.bind_core == 0
    then 0
    else if leb (length s.core_ids) (s.msgr_amount + length s.ports)
    then 0
    else s.msgr_amount + length s.ports

abbrev Left : List ℕ → ℕ → List ℕ → Type 0
Left cores off left =
    (length left ≡ length cores - off) × ((i : ℕ) → get_elem? left i ≡ get_elem? cores (off + i))

sa_core_id-Left :
    (s : Settings)
    → Left s.core_ids
        (first_left s)
        (sa_core_id s.bind_core (s.msgr_amount + length s.ports) s.core_ids)
unfolding sa_core_id
sa_core_id-Left s =
    let taken = s.msgr_amount + length s.ports in
    elim (Bool-cases (s.bind_core == 0)) [
      | inl e ↦ rw e (length-drop_minus 0 s.core_ids, λ i. get_elem?-drop 0 i s.core_ids)
      | inr e ↦ elim (Bool-cases (leb (length s.core_ids) taken)) [
        | inl f ↦ rw (e, f) (length-drop_minus 0 s.core_ids, λ i. get_elem?-drop 0 i s.core_ids)
        | inr f ↦
            rw (e, f) (length-drop_minus taken s.core_ids, λ i. get_elem?-drop taken i s.core_ids)
      ]
    ]

-- For settings that OSA_Init accepts, with a processor configured or the messenger bound to
-- processors, CreateWorkThread gives each queue a thread. The k-th queue has the processor that
-- stands in the configured list k places, going round, behind those that the messenger takes;
-- its number is below the number of processors that are online.
pub threads_on_cores :
    (m : Machine) (c : ClusterControlCfg) (s : Settings)
    → check_settings m c ≡ some s
    → 0 < length s.core_ids + s.bind_core
    → (cpus : List ℕ) × (create_work_thread s ≡ some cpus)
      × (length cpus ≡ s.queue_amount)
      × ((k : ℕ)
          → k < s.queue_amount
          → (cpu : ℕ) × (get_elem? cpus k ≡ some cpu)
            × (get_elem? s.core_ids (first_left s + k % (length s.core_ids - first_left s))
                ≡ some cpu)
            × (cpu < m.nprocs_onln))
unfolding create_work_thread
threads_on_cores m c s h p =
    let ok = check_settings-Accepted m c s h in
    let n : 0 < length s.core_ids = elim ok.bounds.cores [
      | inl e ↦ omega (arith, ok.bounds.messengers)
      | inr e ↦ omega (arith, e)
    ] in
    let left = sa_core_id s.bind_core (s.msgr_amount + length s.ports) s.core_ids in
    let (l, a) =
      sa_core_id-AllBelow m.nprocs_onln s.bind_core (s.msgr_amount + length s.ports) s.core_ids
        ok.online n in
    let (cpus, e, size, below, placed) =
      thread_cores-AllBelow m.nprocs_onln 0 s.queue_amount left l a in
    let (same, at) = sa_core_id-Left s in
    (
      cpus,
      e,
      size,
      λ k q.
          let (cpu, f, b) = get_elem?-AllBelow m.nprocs_onln k cpus (omega (arith, size)) below in
          let g : get_elem? left (k % (length s.core_ids - first_left s)) ≡ some cpu =
            subst (λ w. get_elem? left (k % w) ≡ some cpu) same
              (sym (first-Placed left cpus placed k (omega (arith, size))) ∙ f) in
          (cpu, f, sym (at (k % (length s.core_ids - first_left s))) ∙ g, b),
    )

thread_cores-length :
    (i left : ℕ) (cores cpus : List ℕ) → thread_cores cores i left ≡ some cpus → length cpus ≡ left
unfolding thread_cores
thread_cores-length i zero cores cpus h = ground (arith, h)
thread_cores-length i (suc left) [] cpus h = absurd (ground (arith, h))
thread_cores-length i (suc left) (c ∷ cs) cpus h =
    elim (Option-cases (get_elem? (c ∷ cs) (i % length (c ∷ cs)))) [
      | inl e ↦ absurd (ground (arith, h, e))
      | inr (x, e) ↦ elim (Option-cases (thread_cores (c ∷ cs) (suc i) left)) [
        | inl f ↦ absurd (ground (arith, h, e, f))
        | inr (rest, f) ↦
            let g : x ∷ rest ≡ cpus = ground (arith, h, e, f) in
            subst (λ ys. length ys ≡ suc left) g
              (ap suc (thread_cores-length (suc i) left (c ∷ cs) rest f))
      ]
    ]

create_work_thread-length :
    (s : Settings) (cpus : List ℕ) → create_work_thread s ≡ some cpus → length cpus ≡ s.queue_amount
unfolding create_work_thread
create_work_thread-length s cpus h =
    thread_cores-length 0 s.queue_amount
      (sa_core_id s.bind_core (s.msgr_amount + length s.ports) s.core_ids) cpus h

thread_cores-none : (i left : ℕ) → 0 < left → thread_cores [] i left ≡ none
unfolding thread_cores
thread_cores-none i zero h = absurd (omega arith)
thread_cores-none i (suc left) h = refl

create_work_thread-none :
    (s : Settings)
    → s.core_ids ≡ []
    → s.bind_core ≡ 0
    → 0 < s.queue_amount
    → create_work_thread s ≡ none
unfolding create_work_thread sa_core_id
create_work_thread-none s n b h = rw (b, n) (thread_cores-none 0 s.queue_amount h)

module _ (env : Env) (fuel : ℕ) (msgr : Messenger) (machine : Machine) (items : Items) where
  -- What OSA_Init leaves running, from nothing, has from 4 to 5000 queues with a thread for each,
  -- and the other numbers within their ranges: no quota cycle of 0, and a throttle of 0 or from
  -- 2000 to 30000.
  pub osa_init-InBounds :
      (ret : ℤ) (r : Running)
      → osa_init env fuel msgr machine items none ≡ returned ret (some r)
      → InBounds r.settings × (length r.thread_cpus ≡ r.settings.queue_amount)
  unfolding osa_init
  osa_init-InBounds ret r h = elim (Option-cases (cache_cluster_config_init items)) [
    | inl a ↦ absurd (ground (arith, h, a))
    | inr (c, a) ↦ elim (Option-cases (check_settings machine c)) [
      | inl b ↦ absurd (ground (arith, h, a, b))
      | inr (s, b) ↦ elim (Option-cases (create_work_thread s)) [
        | inl d ↦ absurd (ground (arith, h, a, b, d))
        | inr (cpus, d) ↦ elim (Option-cases (rpc_init env fuel [])) [
          | inl e ↦ absurd (ground (arith, h, a, b, d, e))
          | inr (loaded, e) ↦
              let same : record { thread_cpus = cpus; settings = s; classes = loaded.1 } ≡ r =
                ground (arith, h, a, b, d, e) in
              let ok = check_settings-Accepted machine c s b in
              subst (λ x. InBounds x.settings × (length x.thread_cpus ≡ x.settings.queue_amount))
                same (ok.bounds, create_work_thread-length s cpus d)
        ]
      ]
    ]
  ]

  -- OSA_Init divides by 0 when no processor is configured and none is to be bound: all its checks
  -- pass, and CreateWorkThread takes a remainder by the number of processors.
  pub no_cores_divides :
      (c : ClusterControlCfg) (s : Settings)
      → cache_cluster_config_init items ≡ some c
      → check_settings machine c ≡ some s
      → s.core_ids ≡ []
      → s.bind_core ≡ 0
      → osa_init env fuel msgr machine items none ≡ divides_by_zero
  unfolding osa_init
  no_cores_divides c s e h n b =
      let q = (check_settings-Accepted machine c s h).bounds.queues in
      rw (e, h, create_work_thread-none s n b (omega (arith, q))) refl
