-- ===== src/Throttle/Counting.antt =====
-- What the admission calls of src/server_adaptor/network_module.cpp do to their counter, for every
-- schedule of the other threads.
use ceph_global_cache_adapto.Prelude.{
  ℕ, zero, suc, ◌+◌, ◌≢◌, refl, [], ◌==◌, ltb, if◌then◌else◌, length, Bool-cases, inl, inr,
  ==_false, subst,
}
use ceph_global_cache_adapto.Prelude.Word.{add64, sub64}
use ceph_global_cache_adapto.Throttle.Cell.{Cell, fetch, rounds, after}
use ceph_global_cache_adapto.Throttle.Atomic.{
  Later, Later-trans, fetch-Later, Updated, cas_update-Updated, cas_update_total,
}
use ceph_global_cache_adapto.Throttle.Ops.{
  passed, cell_of, poll, poll_asked, get_lwt_cas, put_lwt_cas, get_counted_cas,
}

Later-refl : (c : Cell) → Later c c
unfolding after
Later-refl c = record { moves = []; split = refl; value = refl }

poll-Later : (k limit old : ℕ) (c : Cell) → Later c (cell_of (poll k limit old c))
unfolding poll
poll-Later zero limit old c = elim (Bool-cases (ltb limit old)) [
  | inl e ↦ rw e (Later-refl c)
  | inr e ↦ rw e (Later-refl c)
]
poll-Later (suc k) limit old c = elim (Bool-cases (ltb limit old)) [
  | inl e ↦ rw e (Later-trans (fetch-Later c) (poll-Later k limit (fetch c).0 (fetch c).1))
  | inr e ↦ rw e (Later-refl c)
]

poll_asked-Later :
    (k : ℕ) (ask : ℕ → ℕ) (i limit old : ℕ) (c : Cell)
    → Later c (cell_of (poll_asked k ask i limit old c))
unfolding poll_asked
poll_asked-Later zero ask i limit old c = elim (Bool-cases (ltb limit old)) [
  | inl e ↦ rw e (Later-refl c)
  | inr e ↦ rw e (Later-refl c)
]
poll_asked-Later (suc k) ask i limit old c = elim (Bool-cases (ltb limit old)) [
  | inl e ↦ elim (Bool-cases (ask i == 0)) [
    | inl z ↦ rw (e, z) (fetch-Later c)
    | inr z ↦
        rw (e, z)
          (Later-trans (fetch-Later c)
            (poll_asked-Later k ask (i + 1) (ask i) (fetch c).0 (fetch c).1))
  ]
  | inr e ↦ rw e (Later-refl c)
]

-- From `c`, the counter was updated by `f` at exactly one point of the schedule, and only the
-- others' moves came before and after.
pub record Once (f : ℕ → ℕ) (c d : Cell) : Type 0 where
  pub at : Cell
  pub before : Later c at
  pub rest : Later (record at { value = f at.value }) d

Once-of :
    (f : ℕ → ℕ) (c c1 c2 d : Cell) (old : ℕ)
    → Later c c1
    → Updated f c1 old c2
    → Later c2 d
    → Once f c d
Once-of f c c1 c2 d old p u q = record {
  at = u.at;
  before = Later-trans p u.reached;
  rest = subst (λ x. Later x d) u.written q;
}

pub get_lwt_cas-Once :
    (limit n : ℕ) (c : Cell) → limit ≢ 0 → Once (λ v. add64 v n) c (cell_of (get_lwt_cas limit n c))
unfolding get_lwt_cas
get_lwt_cas-Once limit n c h =
    let c1 = (fetch c).1 in
    let (old, c2, e) = cas_update_total (λ v. add64 v n) (fetch c).0 c1 in
    rw (==_false limit 0 h, e, get_lwt_cas)
      (Once-of (λ v. add64 v n) c c1 c2 _ old (fetch-Later c)
        (cas_update-Updated (rounds c1) (λ v. add64 v n) (fetch c).0 old c1 c2 e)
        (poll-Later (suc (length c2.others)) limit old c2))

pub put_lwt_cas-Once :
    (limit : ℕ) (c : Cell) → limit ≢ 0 → Once (λ v. sub64 v 1) c (put_lwt_cas limit c)
unfolding put_lwt_cas
put_lwt_cas-Once limit c h =
    let c1 = (fetch c).1 in
    let (old, c2, e) = cas_update_total (λ v. sub64 v 1) (fetch c).0 c1 in
    rw (==_false limit 0 h, e, put_lwt_cas)
      (Once-of (λ v. sub64 v 1) c c1 c2 c2 old (fetch-Later c)
        (cas_update-Updated (rounds c1) (λ v. sub64 v 1) (fetch c).0 old c1 c2 e) (Later-refl c2))

pub get_counted_cas-Once :
    (ask : ℕ → ℕ) (n : ℕ) (c : Cell) → Once (λ v. add64 v n) c (cell_of (get_counted_cas ask n c))
unfolding get_counted_cas
get_counted_cas-Once ask n c =
    let c1 = (fetch c).1 in
    let (old, c2, e) = cas_update_total (λ v. add64 v n) (fetch c).0 c1 in
    rw (e, get_counted_cas)
      (Once-of (λ v. add64 v n) c c1 c2 _ old (fetch-Later c)
        (cas_update-Updated (rounds c1) (λ v. add64 v n) (fetch c).0 old c1 c2 e) (asked old c2))
  where
    asked :
        (old : ℕ) (c2 : Cell)
        → Later c2 (
            cell_of (
              if ask 0 == 0
              then passed c2
              else poll_asked (suc (length c2.others)) ask 1 (ask 0) old c2))
    asked old c2 = elim (Bool-cases (ask 0 == 0)) [
      | inl z ↦ rw z (Later-refl c2)
      | inr z ↦ rw z (poll_asked-Later (suc (length c2.others)) ask 1 (ask 0) old c2)
    ]
