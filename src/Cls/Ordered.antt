-- ===== src/Cls/Ordered.antt =====
-- std::map<string, bufferlist> and std::set<string> in the order of their keys, as
-- src/server_adaptor/network_module.cpp and src/server_adaptor/class_api.cc fill and read them.
use ceph_global_cache_adapto.Prelude.{
  inr, inl, Bool-cases, ◌&&◌, ◌≡◌, refl, Bool, true, false, some, List, [], ◌∷◌, ◌++◌, ◌||◌, arith,
  if◌then◌else◌, ltb, ◌==◌,
}
use ceph_global_cache_adapto.Prelude.Dict.{Dict, find}
use ceph_global_cache_adapto.Prelude.Text.{Text, text_eq, text_eq_iff, text_key}

-- a < b on std::string
unfoldable pub text_lt : Text → Text → Bool
text_lt as' [] = false
text_lt [] (b ∷ bs) = true
text_lt (a ∷ as') (b ∷ bs) = ltb a b || (a == b && text_lt as' bs)

-- map[key] = value
unfoldable pub put : Text → Text → Dict Text Text → Dict Text Text
put k v [] = (k, v) ∷ []
put k v ((j, w) ∷ m) =
    let rest = put k v m in
    if text_eq j k then (j, v) ∷ m else if text_lt k j then (k, v) ∷ (j, w) ∷ m else (j, w) ∷ rest

-- set::insert
unfoldable pub set_add : Text → List Text → List Text
set_add k [] = k ∷ []
set_add k (j ∷ ks) =
    let rest = set_add k ks in
    if text_eq j k then j ∷ ks else if text_lt k j then k ∷ j ∷ ks else j ∷ rest

unfoldable pub has : Text → List Text → Bool
has a [] = false
has a (x ∷ xs) = text_eq x a || has a xs

pub find-put :
    (k j v : Text) (m : Dict Text Text)
    → find j (put k v m) ≡ (if text_eq k j then some v else find j m)
unfolding find put
find-put k j v [] = refl
find-put k j v ((i, w) ∷ m) =
    ground (arith, find-put k j v m, text_eq_iff i k, text_eq_iff i j, text_eq_iff k j)

pub has-set_add : (k j : Text) (ks : List Text) → has j (set_add k ks) ≡ (text_eq k j || has j ks)
unfolding has set_add
has-set_add k j [] = refl
has-set_add k j (i ∷ ks) =
    ground (arith, has-set_add k j ks, text_eq_iff i k, text_eq_iff i j, text_eq_iff k j)

pub text_lt_asymm : (a b : Text) → text_lt a b ≡ true → text_lt b a ≡ false
unfolding text_lt
text_lt_asymm as' [] h = ground arith
text_lt_asymm [] (b ∷ bs) h = refl
text_lt_asymm (a ∷ as') (b ∷ bs) h = ground (arith, text_lt_asymm as' bs)

pub text_lt_irrefl : (a : Text) → text_lt a a ≡ false
unfolding text_lt
text_lt_irrefl [] = refl
text_lt_irrefl (a ∷ as') = ground (arith, text_lt_irrefl as')

text_lt_trans : (a b c : Text) → text_lt a b ≡ true → text_lt b c ≡ true → text_lt a c ≡ true
unfolding text_lt
text_lt_trans a [] c h k = ground arith
text_lt_trans a (b ∷ bs) [] h k = ground arith
text_lt_trans [] (b ∷ bs) (c ∷ cs) h k = refl
text_lt_trans (a ∷ as') (b ∷ bs) (c ∷ cs) h k = ground (arith, text_lt_trans as' bs cs)

-- One of two different texts is less.
text_lt_total : (a b : Text) → text_eq a b ≡ false → text_lt a b ≡ false → text_lt b a ≡ true
unfolding text_lt text_eq
text_lt_total [] [] h k = ground arith
text_lt_total [] (b ∷ bs) h k = ground arith
text_lt_total (a ∷ as') [] h k = refl
text_lt_total (a ∷ as') (b ∷ bs) h k = ground (arith, text_lt_total as' bs)

-- Every key of the map is above k.
abbrev pub Above : Text → Dict Text Text → Type 0
Above k [] = Unit
Above k ((j, w) ∷ m) = (text_lt k j ≡ true) × Above k m

-- The keys go up.
abbrev pub IsOrdered : Dict Text Text → Type 0
IsOrdered [] = Unit
IsOrdered ((k, v) ∷ m) = Above k m × IsOrdered m

Above-put :
    (k j v : Text) (m : Dict Text Text) → text_lt k j ≡ true → Above k m → Above k (put j v m)
unfolding put
Above-put k j v [] h a = (h, tt)
Above-put k j v ((i, w) ∷ m) h (a, as') = elim (Bool-cases (text_eq i j)) [
  | inl e ↦ rw e (a, as')
  | inr e ↦ elim (Bool-cases (text_lt j i)) [
    | inl f ↦ rw (e, f) (h, (a, as'))
    | inr f ↦ rw (e, f) (a, Above-put k j v m h as')
  ]
]

Above-trans : (k j : Text) (m : Dict Text Text) → text_lt k j ≡ true → Above j m → Above k m
Above-trans k j [] h a = tt
Above-trans k j ((i, w) ∷ m) h (a, as') = (text_lt_trans k j i h a, Above-trans k j m h as')

pub put-IsOrdered : (k v : Text) (m : Dict Text Text) → IsOrdered m → IsOrdered (put k v m)
unfolding put
put-IsOrdered k v [] o = (tt, tt)
put-IsOrdered k v ((j, w) ∷ m) (a, o) = elim (Bool-cases (text_eq j k)) [
  | inl e ↦ rw e (a, o)
  | inr e ↦ elim (Bool-cases (text_lt k j)) [
    | inl f ↦ rw (e, f) ((f, Above-trans k j m f a), (a, o))
    | inr f ↦
        rw (e, f)
          (
            Above-put j k v m
                (text_lt_total k j (ground (arith, e, text_eq_iff j k, text_eq_iff k j)) f) a,
            put-IsOrdered k v m o,
          )
  ]
]

-- Every key of the map is below k.
abbrev pub Below : Text → Dict Text Text → Type 0
Below k [] = Unit
Below k ((j, w) ∷ m) = (text_lt j k ≡ true) × Below k m

-- Every key of the second map is above those of the first.
abbrev pub Apart : Dict Text Text → Dict Text Text → Type 0
Apart acc [] = Unit
Apart acc ((k, v) ∷ m) = Below k acc × Apart acc m

pub put_at_end :
    (k v : Text) (acc : Dict Text Text) → Below k acc → put k v acc ≡ acc ++ ((k, v) ∷ [])
unfolding put
put_at_end k v [] b = refl
put_at_end k v ((j, w) ∷ acc) (b, bs) =
    ground (arith, put_at_end k v acc bs, text_lt_asymm j k b, text_eq_iff j k, text_lt_irrefl k)

Below-append :
    (k j w : Text) (acc : Dict Text Text)
    → Below k acc
    → text_lt j k ≡ true
    → Below k (acc ++ ((j, w) ∷ []))
Below-append k j w [] b h = (h, tt)
Below-append k j w ((i, x) ∷ acc) (b, bs) h = (b, Below-append k j w acc bs h)

pub Apart-append :
    (j w : Text) (acc m : Dict Text Text) → Apart acc m → Above j m → Apart (acc ++ ((j, w) ∷ [])) m
Apart-append j w acc [] p a = tt
Apart-append j w acc ((k, v) ∷ m) (b, p) (h, a) =
    (Below-append k j w acc b h, Apart-append j w acc m p a)
