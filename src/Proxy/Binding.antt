-- ===== src/Proxy/Binding.antt =====
-- RadosBindMsgrWorker and RadosBindCore of src/ceph_proxy/RadosWrapper.cc: the threads of the
-- messenger are given processors.
use ceph_global_cache_adapto.Prelude.{
  ◌&&◌, ℕ, suc, ◌%◌, Bool, true, false, Option, none, some, List, [], ◌∷◌, ◌++◌, ◌||◌, ◌==◌, leb,
  if◌then◌else◌, length, get_elem?,
}
use ceph_global_cache_adapto.Prelude.Text.{Text, codes, decimal, prefix_of, is_digit}

-- The entries of /proc/<pid>/task, each with the first line of its status; `none` where that cannot
-- be read.
abbrev pub Tasks : Type 0
Tasks = List (Text × Option Text)

-- s.find(p) at the front, and anywhere
unfoldable pub starts_with : Text → Text → Bool
starts_with [] s = true
starts_with (c ∷ p) [] = false
starts_with (c ∷ p) (d ∷ s) = c == d && starts_with p s

unfoldable pub contains : Text → Text → Bool
unfolding starts_with
contains p [] = starts_with p []
contains p (c ∷ s) = starts_with p (c ∷ s) || contains p s

-- atoll of the name of a task, which is a number
abbrev pub tid_of : Text → ℕ
tid_of name = decimal 0 (prefix_of is_digit name)

-- The threads whose status names them; `none` where one cannot be read.
unfoldable pub threads_named : Text → Tasks → Option (List ℕ)
unfolding contains
threads_named p [] = some []
threads_named p ((name, none) ∷ ts) = none
threads_named p ((name, some line) ∷ ts) = elim (threads_named p ts) [
  | none ↦ none
  | some rest ↦ some (if contains p line then tid_of name ∷ rest else rest)
]

-- sort of the reverse range: the largest first
unfoldable pub insert_sorted : ℕ → List ℕ → List ℕ
insert_sorted x [] = x ∷ []
insert_sorted x (y ∷ ys) = let rest = insert_sorted x ys in if leb y x then x ∷ y ∷ ys else y ∷ rest

unfoldable pub sorted : List ℕ → List ℕ
unfolding insert_sorted
sorted [] = []
sorted (x ∷ xs) = insert_sorted x (sorted xs)

-- RadosBindCore: a thread and its processor; `none` for a remainder by 0.
unfoldable pub rados_bind_core : List ℕ → ℕ → ℕ → Option (ℕ × ℕ)
rados_bind_core [] tid n = none
rados_bind_core (c ∷ cs) tid n = elim (get_elem? (c ∷ cs) (n % length (c ∷ cs))) [
  | none ↦ none
  | some cpu ↦ some (tid, cpu)
]

-- The threads in turn, from the n-th on
unfoldable pub bind_all : List ℕ → List ℕ → ℕ → Option (List (ℕ × ℕ))
unfolding rados_bind_core
bind_all cores [] n = some []
bind_all cores (t ∷ ts) n = elim (rados_bind_core cores t n) [
  | none ↦ none
  | some b ↦ elim (bind_all cores ts (suc n)) [ none ↦ none | some rest ↦ some (b ∷ rest) ]
]

-- The workers, and then the first of the dispatchers
abbrev pub only_first : List ℕ → List ℕ
only_first [] = []
only_first (d ∷ ds) = d ∷ []

abbrev pub bound : List ℕ → Option (List ℕ) → Option (List ℕ) → Option (List (ℕ × ℕ))
bound cores (some workers) (some dispatchers) =
    bind_all cores (sorted workers ++ only_first (sorted dispatchers)) 0
bound cores _ _ = some []

-- RadosBindMsgrWorker; `none` for the directory where it cannot be read: nothing is bound then.
unfoldable pub rados_bind_msgr_worker : List ℕ → Option Tasks → Option (List (ℕ × ℕ))
unfolding threads_named sorted bind_all
rados_bind_msgr_worker cores none = some []
rados_bind_msgr_worker cores (some ts) =
    bound cores (threads_named (codes "msgr-worker-") ts) (threads_named (codes "ms_dispatch") ts)
