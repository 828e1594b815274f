-- ===== src/Cls/Refines.antt =====
-- The calls of src/server_adaptor/class_api.cc on an object's keys and values, over a cache that
-- keeps them, implement a map.
use ceph_global_cache_adapto.Prelude.Dict.{find, Dict}
use ceph_global_cache_adapto.Prelude.{
  append-nil, ◌<◌, ◌≡◌, refl, Option, none, some, List, [], ◌∷◌, ◌++◌, arith, length, ap, ◌∙◌, sym,
  ℤ, pos, neg, enoent, if◌then◌else◌, Option-cases, inl, inr,
}
use ceph_global_cache_adapto.Prelude.Word.{u32_mod}
use ceph_global_cache_adapto.Prelude.Text.{Text, text_eq}
use ceph_global_cache_adapto.Msg.Types.{Codec, omap_clear}
use ceph_global_cache_adapto.Cls.Ordered.{put, IsOrdered}
use ceph_global_cache_adapto.Cls.Types.{
  Wire, Documented, SaBatchKv, Slot, blank_slot, pairs_written,
}
use ceph_global_cache_adapto.Cls.Encode.{encode_omap_getvalsbykeys, collect}
use ceph_global_cache_adapto.Cls.Api.{Cache, Context, World, request_of, tell, op_on, first_out}
use ceph_global_cache_adapto.Cls.Omap.{
  cls_cxx_map_get_val, cls_cxx_map_set_val, cls_cxx_map_remove_key, cls_cxx_map_clear, get_val_op,
  set_val_op, remove_key_op, first_value,
}
use ceph_global_cache_adapto.Cls.RoundTrip.{Short, pairs_of, decode_map-encode_map}
use ceph_global_cache_adapto.Cls.Answers.{ask-answered}

-- The pairs that are found under one key
abbrev pub found_pairs : Text → Option Text → Dict Text Text
found_pairs k none = []
found_pairs k (some v) = (k, v) ∷ []

-- A cache that keeps the keys and values of the object of a request: what it holds under a key,
-- and the batch that it passes to EncodeOmapGetvalsbykeys. It succeeds in setting a value, in
-- removing a key and in clearing; and its texts have lengths of 32 bits, as have those it is given.
pub record KeepsKeys (cache : Cache) (wire : Wire) (ctx : Context) : Type 0 where
  pub held : cache.State → Text → Option Text
  pub batch : cache.State → Text → SaBatchKv
  pub batch_pairs :
      (st : cache.State) (k : Text) → pairs_of (batch st k) ≡ found_pairs k (held st k)
  pub short_key : (st : cache.State) (k v : Text) → held st k ≡ some v → length k < u32_mod
  pub short_value : (st : cache.State) (k v : Text) → held st k ≡ some v → length v < u32_mod
  pub reply : cache.State → Text → List Slot
  pub replied :
      (st : cache.State) (k : Text)
      → encode_omap_getvalsbykeys wire (some (batch st k)) 0 (some (blank_slot ∷ []))
        ≡ some (reply st k)
  pub gets :
      (st : cache.State) (k : Text)
      → cache.exec (request_of ctx (get_val_op ctx k)) (blank_slot ∷ []) st
        ≡ (pos 0, reply st k, st)
  pub after_set : Text → Text → List Slot → cache.State → List Slot × cache.State
  pub sets :
      (k v : Text) (ops : List Slot) (st : cache.State)
      → cache.exec (request_of ctx (set_val_op ctx k v)) ops st
        ≡ (pos 0, (after_set k v ops st).0, (after_set k v ops st).1)
  pub held_set :
      (k v j : Text) (ops : List Slot) (st : cache.State)
      → length k < u32_mod
      → length v < u32_mod
      → held (after_set k v ops st).1 j ≡ (if text_eq k j then some v else held st j)
  pub after_remove : Text → List Slot → cache.State → List Slot × cache.State
  pub removes :
      (k : Text) (ops : List Slot) (st : cache.State)
      → cache.exec (request_of ctx (remove_key_op ctx k)) ops st
        ≡ (pos 0, (after_remove k ops st).0, (after_remove k ops st).1)
  pub held_remove :
      (k j : Text) (ops : List Slot) (st : cache.State)
      → held (after_remove k ops st).1 j ≡ (if text_eq k j then none else held st j)
  pub after_clear : List Slot → cache.State → List Slot × cache.State
  pub clears :
      (ops : List Slot) (st : cache.State)
      → cache.exec (request_of ctx (op_on ctx omap_clear)) ops st
        ≡ (pos 0, (after_clear ops st).0, (after_clear ops st).1)
  pub held_clear :
      (j : Text) (ops : List Slot) (st : cache.State) → held (after_clear ops st).1 j ≡ none

pub data Command : Type 0 where
  get_val : Text → Command
  set_val : Text → Text → Command
  remove_key : Text → Command
  clear_map : Command

-- The texts that the commands store have lengths of 32 bits.
abbrev pub StoresShort : List Command → Type 0
StoresShort [] = Unit
StoresShort (set_val k v ∷ cs) = (length k < u32_mod) × (length v < u32_mod) × StoresShort cs
StoresShort (get_val k ∷ cs) = StoresShort cs
StoresShort (remove_key k ∷ cs) = StoresShort cs
StoresShort (clear_map ∷ cs) = StoresShort cs

-- What a call returns: its code, and the value that it has written
abbrev pub Outcome : Type 0
Outcome = ℤ × Option Text

-- The map that is implemented: a function, each command with the outcome that it promises
abbrev pub Model : Type 0
Model = Text → Option Text

abbrev pub value_outcome : Option Text → Outcome
value_outcome none = (neg enoent, none)
value_outcome (some v) = (pos 0, some v)

unfoldable pub obey : Command → Model → Outcome × Model
obey (get_val k) m = (value_outcome (m k), m)
obey (set_val k v) m = ((pos 0, none), λ j. if text_eq k j then some v else m j)
obey (remove_key k) m = ((pos 0, none), λ j. if text_eq k j then none else m j)
obey clear_map m = ((pos 0, none), λ j. none)

unfoldable pub obey_all : List Command → Model → List Outcome
unfolding obey
obey_all [] m = []
obey_all (c ∷ cs) m = (obey c m).0 ∷ obey_all cs (obey c m).1

module _ (codec : Codec) (wire : Wire) (cache : Cache) (ctx : Context) where
  abbrev pub written_only : ℤ × World cache → Outcome × World cache
  written_only (r, w) = ((r, none), w)

  abbrev pub read_only : ℤ × Option Text × World cache → Outcome × World cache
  read_only (r, v, w) = ((r, v), w)

  unfoldable pub call : Command → World cache → Outcome × World cache
  unfolding cls_cxx_map_get_val cls_cxx_map_set_val cls_cxx_map_remove_key cls_cxx_map_clear
  call (get_val k) w = read_only (cls_cxx_map_get_val cache codec wire ctx k w)
  call (set_val k v) w = written_only (cls_cxx_map_set_val cache codec wire ctx k v w)
  call (remove_key k) w = written_only (cls_cxx_map_remove_key cache codec wire ctx k w)
  call clear_map w = written_only (cls_cxx_map_clear cache codec wire ctx w)

  unfoldable pub call_all : List Command → World cache → List Outcome
  unfolding call
  call_all [] w = []
  call_all (c ∷ cs) w = (call c w).0 ∷ call_all cs (call c w).1

collect-none : (kvs : SaBatchKv) → pairs_of kvs ≡ [] → collect [] kvs ≡ []
unfolding collect
collect-none [] h = refl
collect-none ((k, v) ∷ kvs) h = cc

collect-one :
    (k v : Text) (kvs : SaBatchKv) → pairs_of kvs ≡ (k, v) ∷ [] → collect [] kvs ≡ (k, v) ∷ []
unfolding collect put find
collect-one k v [] h = cc
collect-one k v ((a, b) ∷ []) h = cc
collect-one k v ((a, b) ∷ c ∷ kvs) h = cc

some_eq : (a b : List Slot) → some a ≡ some b → a ≡ b
some_eq a b h = cc

module _ (codec : Codec) (wire : Wire) (doc : Documented codec wire) (cache : Cache) (ctx : Context)
    (law : KeepsKeys cache wire ctx) where
  answer_read :
      (st : cache.State) (k : Text) (m : Dict Text Text)
      → collect [] (law.batch st k) ≡ m
      → IsOrdered m
      → Short m
      → length m < u32_mod
      → codec.decode_map (first_out (law.reply st k)) ≡ some (m, [])
  unfolding encode_omap_getvalsbykeys
  answer_read st k m c o s l =
      let bytes : first_out (law.reply st k) ≡ wire.encode_map (collect [] (law.batch st k)) =
        ap first_out (sym (some_eq _ (law.reply st k) (law.replied st k))) in
      ap codec.decode_map (
        bytes
        ∙ rw c (doc.map_written m)
        ∙ ap (λ x. wire.encode_u32 (length m) ++ x) (sym (append-nil (pairs_written wire m))))
      ∙ decode_map-encode_map codec wire doc m [] l o s

  get_val-held :
      (k : Text) (ops : List Slot) (st : cache.State)
      → call codec wire cache ctx (get_val k) (ops, st) ≡ (value_outcome (law.held st k), (ops, st))
  unfolding call cls_cxx_map_get_val
  get_val-held k ops st =
      let decode : ℤ → Text → ℤ × Option Text = λ r o. first_value (codec.decode_map o) in
      let asked =
        ask-answered cache ctx (get_val_op ctx k) decode ops (law.reply st k) st st
          (law.gets st k) in
      elim (Option-cases (law.held st k)) [
        | inl e ↦
            let m =
              answer_read st k [] (collect-none _ (law.batch_pairs st k ∙ ap (found_pairs k) e)) tt
                tt (omega arith) in
            ground (arith, asked, m, e)
        | inr (v, e) ↦
            let m =
              answer_read st k ((k, v) ∷ [])
                (collect-one k v _ (law.batch_pairs st k ∙ ap (found_pairs k) e)) (tt, tt)
                (law.short_key st k v e, law.short_value st k v e, tt) (omega arith) in
            ground (arith, asked, m, e)
      ]

  -- One call has the outcome of its command, and leads to a state that holds what the command says.
  call-obey :
      (c : Command) (ops : List Slot) (st : cache.State) (m : Model)
      → StoresShort (c ∷ [])
      → ((k : Text) → law.held st k ≡ m k)
      → (ops' : List Slot) × (st' : cache.State) × (call codec wire cache ctx c (ops, st)
          ≡ ((obey c m).0, (ops', st')))
        × ((k : Text) → law.held st' k ≡ (obey c m).1 k)
  unfolding obey call
  call-obey (get_val k) ops st m s h = (ops, st, get_val-held k ops st ∙ rw (h k) refl, h)
  call-obey (set_val k v) ops st m (lk, lv, s) h = (
    (law.after_set k v ops st).0,
    (law.after_set k v ops st).1,
    rw (law.sets k v ops st, call, cls_cxx_map_set_val, tell) refl,
    λ j. law.held_set k v j ops st lk lv ∙ ap (λ x. if text_eq k j then some v else x) (h j),
  )
  call-obey (remove_key k) ops st m s h = (
    (law.after_remove k ops st).0,
    (law.after_remove k ops st).1,
    rw (law.removes k ops st, call, cls_cxx_map_remove_key, tell) refl,
    λ j. law.held_remove k j ops st ∙ ap (λ x. if text_eq k j then none else x) (h j),
  )
  call-obey clear_map ops st m s h = (
    (law.after_clear ops st).0,
    (law.after_clear ops st).1,
    rw (law.clears ops st, call, cls_cxx_map_clear, tell) refl,
    λ j. law.held_clear j ops st,
  )

  StoresShort-split :
      (c : Command) (cs : List Command)
      → StoresShort (c ∷ cs)
      → StoresShort (c ∷ []) × StoresShort cs
  StoresShort-split (get_val k) cs s = (tt, s)
  StoresShort-split (set_val k v) cs (a, b, s) = ((a, b, tt), s)
  StoresShort-split (remove_key k) cs s = (tt, s)
  StoresShort-split clear_map cs s = (tt, s)

  call_all-obey_all :
      (cs : List Command) (ops : List Slot) (st : cache.State) (m : Model)
      → StoresShort cs
      → ((k : Text) → law.held st k ≡ m k)
      → call_all codec wire cache ctx cs (ops, st) ≡ obey_all cs m
  unfolding call_all obey_all
  call_all-obey_all [] ops st m s h = refl
  call_all-obey_all (c ∷ cs) ops st m s h =
      let (one, rest) = StoresShort-split c cs s in
      let (ops', st', e, h') = call-obey c ops st m one h in
      rw e (ap (◌∷◌ (obey c m).0) (call_all-obey_all cs ops' st' (obey c m).1 rest h'))

  -- Whatever sequence of cls_cxx_map_get_val, _set_val, _remove_key and _clear a class calls, the
  -- codes and values that it gets are those of a map that starts with what the cache holds. The
  -- cache keeps the keys and values of the object, and answers through EncodeOmapGetvalsbykeys;
  -- the texts that are stored have lengths of 32 bits.
  pub calls_refine_map :
      (cs : List Command) (ops : List Slot) (st : cache.State)
      → StoresShort cs
      → call_all codec wire cache ctx cs (ops, st) ≡ obey_all cs (law.held st)
  calls_refine_map cs ops st s = call_all-obey_all cs ops st (law.held st) s (λ k. refl)
