-- ===== src/Proxy/Order.antt =====
-- Which threads RadosBindMsgrWorker of src/ceph_proxy/RadosWrapper.cc binds, and in which order.
use ceph_global_cache_adapto.Prelude.{
  ◌∙◌, ℕ, suc, ◌≤◌, ◌<◌, ◌≡◌, refl, some, List, [], ◌∷◌, ◌++◌, arith, ◌==◌, ◌&&◌, leb,
  if◌then◌else◌, length, Bool-cases, inl, inr,
}
use ceph_global_cache_adapto.Prelude.Text.{Text, codes}
use ceph_global_cache_adapto.Proxy.Binding.{
  Tasks, contains, tid_of, threads_named, insert_sorted, sorted, only_first, rados_bind_msgr_worker,
}
use ceph_global_cache_adapto.Proxy.Rounds.{Rounds, named-Rounds}

-- How often a number stands in a list
abbrev pub count : ℕ → List ℕ → ℕ
count t [] = 0
count t (x ∷ xs) = if x == t then suc (count t xs) else count t xs

-- No number of the list is above x.
abbrev pub NoneAbove : ℕ → List ℕ → Type 0
NoneAbove x [] = Unit
NoneAbove x (y ∷ ys) = (y ≤ x) × NoneAbove x ys

-- Each number is followed by none that is above it.
abbrev pub Descending : List ℕ → Type 0
Descending [] = Unit
Descending (x ∷ xs) = NoneAbove x xs × Descending xs

-- How many of the tasks have the number t and a status with the name p
abbrev pub named : Text → ℕ → List (Text × Text) → ℕ
named p t [] = 0
named p t ((name, line) ∷ rows) =
    if contains p line && tid_of name == t then suc (named p t rows) else named p t rows

-- The tasks where the status of each can be read
abbrev pub readable : List (Text × Text) → Tasks
readable [] = []
readable ((name, line) ∷ rows) = (name, some line) ∷ readable rows

NoneAbove-weaker : (x y : ℕ) (zs : List ℕ) → x ≤ y → NoneAbove x zs → NoneAbove y zs
NoneAbove-weaker x y [] l h = tt
NoneAbove-weaker x y (z ∷ zs) l (a, h) = (omega arith, NoneAbove-weaker x y zs l h)

insert_sorted-NoneAbove :
    (b x : ℕ) (xs : List ℕ) → x ≤ b → NoneAbove b xs → NoneAbove b (insert_sorted x xs)
unfolding insert_sorted
insert_sorted-NoneAbove b x [] l h = (l, tt)
insert_sorted-NoneAbove b x (y ∷ ys) l (a, h) = elim (Bool-cases (leb y x)) [
  | inl e ↦ rw e (l, (a, h))
  | inr e ↦ rw e (a, insert_sorted-NoneAbove b x ys l h)
]

insert_sorted-Descending : (x : ℕ) (xs : List ℕ) → Descending xs → Descending (insert_sorted x xs)
unfolding insert_sorted
insert_sorted-Descending x [] d = (tt, tt)
insert_sorted-Descending x (y ∷ ys) (a, d) = elim (Bool-cases (leb y x)) [
  | inl e ↦ let l : y ≤ x = ground (arith, e) in rw e ((l, NoneAbove-weaker y x ys l a), (a, d))
  | inr e ↦
      let l : x ≤ y = ground (arith, e) in
      rw e (insert_sorted-NoneAbove y x ys l a, insert_sorted-Descending x ys d)
]

sorted-Descending : (xs : List ℕ) → Descending (sorted xs)
unfolding sorted
sorted-Descending [] = tt
sorted-Descending (x ∷ xs) = insert_sorted-Descending x (sorted xs) (sorted-Descending xs)

count-insert_sorted : (t x : ℕ) (xs : List ℕ) → count t (insert_sorted x xs) ≡ count t (x ∷ xs)
unfolding insert_sorted
count-insert_sorted t x [] = refl
count-insert_sorted t x (y ∷ ys) = ground (arith, count-insert_sorted t x ys)

count-sorted : (t : ℕ) (xs : List ℕ) → count t (sorted xs) ≡ count t xs
unfolding sorted
count-sorted t [] = refl
count-sorted t (x ∷ xs) = ground (arith, count-insert_sorted t x (sorted xs), count-sorted t xs)

threads_named_lem :
    (p : Text) (rows : List (Text × Text))
    → (ts : List ℕ) × (threads_named p (readable rows) ≡ some ts)
      × ((t : ℕ) → count t ts ≡ named p t rows)
unfolding threads_named
threads_named_lem p [] = ([], refl, λ t. refl)
threads_named_lem p ((name, line) ∷ rows) =
    let (ts, e, c) = threads_named_lem p rows in
    elim (Bool-cases (contains p line)) [
      | inl h ↦ (tid_of name ∷ ts, ground (arith, e, h), λ t. ground (arith, c t, h))
      | inr h ↦ (ts, ground (arith, e, h), λ t. ground (arith, c t, h))
    ]

-- There is no dispatcher, or the one thread is a dispatcher and none has a larger number.
pub record LargestDispatcher (rows : List (Text × Text)) (ds : List ℕ) : Type 0 where
  pub at_most_one : length ds ≤ 1
  pub dispatches : (d : ℕ) → 0 < count d ds → 0 < named (codes "ms_dispatch") d rows
  pub largest : (t : ℕ) → 0 < named (codes "ms_dispatch") t rows → (d : ℕ) × (ds ≡ d ∷ []) × (t ≤ d)

count-NoneAbove : (t x : ℕ) (ys : List ℕ) → NoneAbove x ys → 0 < count t ys → t ≤ x
count-NoneAbove t x [] h c = absurd (ground arith)
count-NoneAbove t x (y ∷ ys) (a, h) c = ground (arith, count-NoneAbove t x ys h)

only_first-LargestDispatcher :
    (rows : List (Text × Text)) (xs : List ℕ)
    → Descending xs
    → ((t : ℕ) → count t xs ≡ named (codes "ms_dispatch") t rows)
    → LargestDispatcher rows (only_first xs)
only_first-LargestDispatcher rows [] d c = record {
  at_most_one = omega arith;
  dispatches = λ t h. absurd (ground arith);
  largest = λ t h. absurd (ground (arith, c t));
}
only_first-LargestDispatcher rows (x ∷ xs) (a, d) c = record {
  at_most_one = omega arith;
  dispatches = λ t h. ground (arith, c t);
  largest = λ t h. (x, refl, ground (arith, c t, count-NoneAbove t x xs a));
}

-- With at least one processor configured, and every task's status read, RadosBindMsgrWorker binds the
-- threads that are named as workers, each as often as it is named, in descending order of their
-- numbers, and after them the dispatcher with the largest number, if there is any: the k-th of these to
-- the k-th processor of the list, which starts again after its last.
pub rados_bind_msgr_worker-Descending :
    (cores : List ℕ) (rows : List (Text × Text))
    → 0 < length cores
    → (order : List ℕ) × (last : List ℕ) × Descending order
      × ((t : ℕ) → count t order ≡ named (codes "msgr-worker-") t rows)
      × LargestDispatcher rows last
      × Rounds cores (order ++ last) 0 (rados_bind_msgr_worker cores (some (readable rows)))
rados_bind_msgr_worker-Descending cores rows h =
    let (workers, e, c) = threads_named_lem (codes "msgr-worker-") rows in
    let (dispatchers, f, d) = threads_named_lem (codes "ms_dispatch") rows in
    (
      sorted workers,
      only_first (sorted dispatchers),
      sorted-Descending workers,
      λ t. count-sorted t workers ∙ c t,
      only_first-LargestDispatcher rows (sorted dispatchers) (sorted-Descending dispatchers)
          (λ t. count-sorted t dispatchers ∙ d t),
      named-Rounds cores workers dispatchers (readable rows) h e f,
    )
