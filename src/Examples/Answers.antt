-- ===== src/Examples/Answers.antt =====
-- What object classes call, src/server_adaptor/class_api.cc, over caches that answer; and the
-- copy-up of src/server_adaptor/osa.cpp.
use ceph_global_cache_adapto.Loader.Types.{Env}
use ceph_global_cache_adapto.Cls.Ordered.{text_lt, has}
use ceph_global_cache_adapto.Prelude.{
  ℕ, ◌+◌, ◌<◌, ◌≡◌, refl, Bool, true, false, Option, none, some, [], ◌∷◌, ◌++◌, length, ◌&&◌, arith,
  List, ap, ℤ, pos, neg, eio, enoent, einval, ok_code, ltb, if◌then◌else◌, is_zero,
}
use ceph_global_cache_adapto.Prelude.Word.{u32_mod}
use ceph_global_cache_adapto.Prelude.Dict.{Dict, find, insert, erase, find-insert, find-erase}
use ceph_global_cache_adapto.Prelude.Text.{Text, codes, text_eq, text_eq_iff, text_key, to_int32}
use ceph_global_cache_adapto.Msg.Types.{
  OpCode, OpRequestOps, OsdOp, call, as_string, omap_set_vals, omap_rm_keys, omap_clear,
  omap_get_vals_by_keys,
}
use ceph_global_cache_adapto.Msg.Process.{SaOpReq, blank_op, no_id}
use ceph_global_cache_adapto.Msg.Convert.{is_copy_up}
use ceph_global_cache_adapto.Cls.Types.{SaStr, SaBatchKv, SaBatchKeys, Slot, blank_slot, take}
use ceph_global_cache_adapto.Cls.Encode.{
  encode_omap_getvals, encode_omap_getkeys, encode_get_opstat, encode_omap_getvalsbykeys, at,
  append_out, collect,
}
use ceph_global_cache_adapto.Cls.Api.{Cache, Context, cls_cxx_stat, cls_cxx_stat2, cls_cxx_write}
use ceph_global_cache_adapto.Cls.Omap.{cls_cxx_map_get_vals, cls_cxx_map_get_keys, count_code}
use ceph_global_cache_adapto.Cls.RoundTrip.{pairs_of, texts_of}
use ceph_global_cache_adapto.Cls.Answers.{
  get_vals_round_trip, get_vals_empty_value, get_keys_round_trip, stat_round_trip,
}
use ceph_global_cache_adapto.Cls.Refines.{
  KeepsKeys, found_pairs, Command, get_val, set_val, remove_key, call_all, obey_all,
  calls_refine_map,
}
use ceph_global_cache_adapto.Cls.Exec.{
  ExecWorld, Plugins, returned, exec_class, header_of_call, Header,
}
use ceph_global_cache_adapto.Cls.CopyUp.{copyup_exact, here}
use ceph_global_cache_adapto.Examples.Wire.{split}
use ceph_global_cache_adapto.Examples.Encoding.{ceph_codec, ceph_wire, ceph-Documented}

abbrev str : Text → SaStr
str s = record { len = length s; buf = some s }

abbrev request : SaOpReq
request = record {
  vec_ops = blank_op (codes "x") no_id false ∷ [];
  option_type = 1;
  option_length = 0;
  op_type = 0;
  snap_id = 0;
  tid = 7;
  ops_sequence = 1;
  pt_id = 5;
  pool_id = 3;
  snap_seq = 0;
  snaps = [];
  exits_copy_up = true;
  pt_version = 0;
}

abbrev context : Context
context = record { op_req = request; op_id = 0; oid = codes "x" }

-- A cache that always gives the same answer
abbrev slots_of : Option (List Slot) → List Slot
slots_of none = []
slots_of (some ops) = ops

abbrev answering : Option (List Slot) → Cache
answering out = record { State = ℕ; exec = λ q ops st. (pos 0, slots_of out, st + 1) }

abbrev blank : Option (List Slot)
blank = some (blank_slot ∷ [])

abbrev two_pairs : SaBatchKv
two_pairs = (str (codes "a"), str (codes "1")) ∷ (str (codes "b"), str (codes "2")) ∷ []

abbrev vals_out : Option (List Slot)
vals_out = encode_omap_getvals ceph_wire (some two_pairs) 0 blank

encoded_vals : vals_out ≡ some (slots_of vals_out)
unfolding encode_omap_getvals
encoded_vals = refl

get_vals_round_trip_example :
    cls_cxx_map_get_vals (answering vals_out) ceph_codec ceph_wire context [] [] 10 ([], 0)
    ≡ (count_code two_pairs, some (pairs_of two_pairs, false), ([], 1))
unfolding text_lt
get_vals_round_trip_example =
    get_vals_round_trip ceph_codec ceph_wire ceph-Documented (answering vals_out) context [] 0 1
      (slots_of vals_out) [] [] 10 two_pairs (refl, refl, (refl, refl, tt)) ((refl, tt), (tt, tt))
      (omega arith, omega arith, (omega arith, omega arith, tt)) (omega arith) encoded_vals refl

-- The second value is empty.
abbrev front : SaBatchKv
front = (str (codes "a"), str (codes "1")) ∷ []

abbrev empty_out : Option (List Slot)
empty_out = encode_omap_getvals ceph_wire (some (front ++ ((str (codes "b"), str []) ∷ []))) 0 blank

encoded_empty : empty_out ≡ some (slots_of empty_out)
unfolding encode_omap_getvals
encoded_empty = refl

get_vals_empty_value_example :
    cls_cxx_map_get_vals (answering empty_out) ceph_codec ceph_wire context [] [] 10 ([], 0)
    ≡ (neg eio, none, ([], 1))
get_vals_empty_value_example =
    get_vals_empty_value ceph_codec ceph_wire ceph-Documented (answering empty_out) context [] 0 1
      (slots_of empty_out) [] [] 10 front (str (codes "b")) (str []) (refl, refl, tt) refl refl
      (tt, tt) (omega arith, omega arith, tt) (omega arith) (omega arith) encoded_empty refl

-- Keys out of order, one of them empty
abbrev three_keys : SaBatchKeys
three_keys = str (codes "b") ∷ str [] ∷ str (codes "a") ∷ []

abbrev keys_out : Option (List Slot)
keys_out = encode_omap_getkeys ceph_wire (some three_keys) 0 blank

encoded_keys : keys_out ≡ some (slots_of keys_out)
unfolding encode_omap_getkeys
encoded_keys = refl

get_keys_round_trip_example :
    (read : List Text) × (cls_cxx_map_get_keys
        (answering keys_out)
        ceph_codec
        ceph_wire
        context
        []
        10
        ([], 0)
      ≡ (count_code read, some (read, false), ([], 1)))
    × ((a : Text) → has a read ≡ has a (texts_of three_keys))
get_keys_round_trip_example =
    get_keys_round_trip ceph_codec ceph_wire ceph-Documented (answering keys_out) context [] 0 1
      (slots_of keys_out) [] 10 three_keys (omega arith, (omega arith, (omega arith, tt)))
      (omega arith) encoded_keys refl

-- A time beyond 32 bits
abbrev stat_out : Option (List Slot)
stat_out = encode_get_opstat ceph_wire 4096 4294967299 0 blank

encoded_stat : stat_out ≡ some (slots_of stat_out)
unfolding encode_get_opstat
encoded_stat = refl

stat_round_trip_example :
    cls_cxx_stat (answering stat_out) ceph_codec ceph_wire context ([], 0)
    ≡ (ok_code, some (4096, 3), ([], 1))
stat_round_trip_example =
    stat_round_trip ceph_codec ceph_wire ceph-Documented (answering stat_out) context [] 0 1
      (slots_of stat_out) 4096 4294967299 (omega arith) encoded_stat refl

-- A cache that keeps keys and values: its state is the map.
abbrev first_op : List OpRequestOps → Option OpRequestOps
first_op [] = none
first_op (o ∷ os) = some o

abbrev first_text : List Text → Text
first_text [] = []
first_text (k ∷ ks) = k

abbrev is_short : Text → Bool
is_short s = ltb (length s) u32_mod

abbrev short_only : Text → Option Text → Option Text
short_only k none = none
short_only k (some v) = if is_short k && is_short v then some v else none

unfoldable kept : Dict Text Text → Text → Option Text
kept m k = short_only k (find k m)

abbrev batch_of : Text → Option Text → SaBatchKv
batch_of k none = []
batch_of k (some v) = (str k, str v) ∷ []

abbrev reply_of : Dict Text Text → Text → List Slot
reply_of m k =
    at 0 (append_out (ceph_wire.encode_map (collect [] (batch_of k (kept m k))))) (blank_slot ∷ [])

abbrev by_code : OpCode → Text → Text → List Slot → Dict Text Text → ℤ × List Slot × Dict Text Text
by_code omap_get_vals_by_keys k v ops m = (pos 0, reply_of m k, m)
by_code omap_set_vals k v ops m = (pos 0, ops, insert k v m)
by_code omap_rm_keys k v ops m = (pos 0, ops, erase k m)
by_code omap_clear k v ops m = (pos 0, ops, [])
by_code _ k v ops m = (neg einval, ops, m)

abbrev by_op : Option OpRequestOps → List Slot → Dict Text Text → ℤ × List Slot × Dict Text Text
by_op none ops m = (neg einval, ops, m)
by_op (some o) ops m = by_code o.op_sub_type (first_text o.keys) (first_text o.values) ops m

abbrev keeping : Cache
keeping = record { State = Dict Text Text; exec = λ q ops m. by_op (first_op q.vec_ops) ops m }

take_all : (s : Text) → take (length s) s ≡ s
take_all [] = refl
take_all (c ∷ s) = ap (◌∷◌ c) (take_all s)

batch_lem : (k : Text) (o : Option Text) → pairs_of (batch_of k o) ≡ found_pairs k o
batch_lem k none = refl
batch_lem k (some v) = rw (take_all k, take_all v) refl

short_key_lem :
    (k v : Text) (o : Option Text)
    → short_only k o ≡ some v
    → (length k < u32_mod) × (length v < u32_mod)
short_key_lem k v none h = absurd (cc)
short_key_lem k v (some w) h = ground (arith, h)

kept_set :
    (k v j : Text) (m : Dict Text Text)
    → length k < u32_mod
    → length v < u32_mod
    → kept (insert k v m) j ≡ (if text_eq k j then some v else kept m j)
unfolding kept
kept_set k v j m a b = ground (arith, find-insert k j v m, text_eq_iff k j)

kept_remove :
    (k j : Text) (m : Dict Text Text)
    → kept (erase k m) j ≡ (if text_eq k j then none else kept m j)
unfolding kept
kept_remove k j m = ground (arith, find-erase k j m)

keeping-KeepsKeys : KeepsKeys keeping ceph_wire context
unfolding encode_omap_getvalsbykeys kept find
keeping-KeepsKeys = record {
  held = kept;
  batch = λ m k. batch_of k (kept m k);
  batch_pairs = λ m k. batch_lem k (kept m k);
  short_key = λ m k v h. (short_key_lem k v (find k m) h).0;
  short_value = λ m k v h. (short_key_lem k v (find k m) h).1;
  reply = reply_of;
  replied = λ m k. refl;
  gets = λ m k. refl;
  after_set = λ k v ops m. (ops, insert k v m);
  sets = λ k v ops m. refl;
  held_set = λ k v j ops m a b. kept_set k v j m a b;
  after_remove = λ k ops m. (ops, erase k m);
  removes = λ k ops m. refl;
  held_remove = λ k j ops m. kept_remove k j m;
  after_clear = λ ops m. (ops, []);
  clears = λ ops m. refl;
  held_clear = λ j ops m. refl;
}

abbrev commands : List Command
commands =
    set_val (codes "a") (codes "1")
    ∷ get_val (codes "a")
    ∷ remove_key (codes "a")
    ∷ get_val (codes "a")
    ∷ []

calls_refine_map_example :
    call_all ceph_codec ceph_wire keeping context commands ([], [])
    ≡ (pos 0, none) ∷ (pos 0, some (codes "1")) ∷ (pos 0, none) ∷ (neg enoent, none) ∷ []
unfolding obey_all keeping-KeepsKeys kept find text_eq
calls_refine_map_example =
    calls_refine_map ceph_codec ceph_wire ceph-Documented keeping context keeping-KeepsKeys commands
      [] [] (omega arith, omega arith, tt)

-- A copy-up with two bytes of input
abbrev copyup_op : ℕ → OsdOp
copyup_op len = record {
  op = call;
  flags = 0;
  extent_offset = 0;
  extent_length = 0;
  class_len = 3;
  method_len = 6;
  indata_len = len;
  name_len = 0;
  value_len = 0;
  cmp_op = pos 0;
  cmp_mode = as_string;
  snapid = 0;
  indata = codes "rbdcopyup42";
}

abbrev copyup_header : Header
copyup_header = record { cname = codes "rbd"; mname = codes "copyup"; indata = codes "42" }

abbrev no_plugins : Plugins keeping
no_plugins = record {
  cxx_method = λ f ctx indata w. (neg einval, [], w);
  c_method = λ f ctx indata w. (neg einval, none, w);
  prefetch = λ q o w. (neg einval, w);
}

abbrev exec_world : ExecWorld keeping
exec_world = record { world = ([], []); copyup_flag = true; classes = [] }

header_read : header_of_call ceph_codec (copyup_op 2) ≡ some copyup_header
unfolding header_of_call split
header_read = refl

marked : is_copy_up ceph_codec (copyup_op 2) ≡ true
unfolding is_copy_up split text_eq
marked = refl

-- No class is loaded by a copy-up.
abbrev no_env : Env
no_env = record {
  class_path = [];
  dlopen = λ f. none;
  stat = λ f. some 2;
  class_deps = λ h. [];
  cls_init = λ h. none;
  class_load_list = [];
  class_default_list = [];
  before = text_lt;
}

copyup_exact_example :
    (r : ℤ) × (w' : ExecWorld keeping) × (exec_class keeping no_plugins ceph_codec ceph_wire no_env
        0
        (here keeping no_plugins ceph_codec ceph_wire no_env 0 context (copyup_op 2) exec_world)
        exec_world
      ≡ returned r w')
    × (w'.copyup_flag ≡ false)
    × ((r, w'.world) ≡ (
        if is_zero (cls_cxx_stat2 keeping ceph_codec ceph_wire context ([], [])).0
        then (pos 0, (cls_cxx_stat2 keeping ceph_codec ceph_wire context ([], [])).2)
        else cls_cxx_write keeping context
            (pos 0)
            (to_int32 (pos 2))
            (codes "42")
            (cls_cxx_stat2 keeping ceph_codec ceph_wire context ([], [])).2))
copyup_exact_example =
    copyup_exact keeping no_plugins ceph_codec ceph_wire no_env 0 context (copyup_op 2) exec_world
      copyup_header header_read marked

-- The header says three bytes, and the input has two.
