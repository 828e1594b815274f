-- ===== src/Loader/Handler.antt =====
-- The calls of src/server_adaptor/ClassHandler.cc: open_class, open_all_classes,
-- add_embedded_class and shutdown; and rpc_init of src/server_adaptor/osa.cpp.
use ceph_global_cache_adapto.Prelude.{
  not, ℕ, zero, suc, ◌-◌, Bool, true, false, Option, none, some, List, [], ◌∷◌, ◌&&◌, ◌==◌,
  if◌then◌else◌, ltb, length, ℤ, neg, eperm, is_neg, is_zero, ok_code, int_beq,
}
use ceph_global_cache_adapto.Prelude.Text.{Text, codes, text_eq}
use ceph_global_cache_adapto.Loader.Types.{
  Status, class_unknown, class_initializing, Classes, Env, class_at, get_class,
}
use ceph_global_cache_adapto.Loader.Load.{set_status, load_class}

-- The class of a name that _get_class has found
abbrev pub loaded : Env → ℕ → Text → Bool × Classes → Option (ℤ × Classes)
loaded env fuel cname (false, cs) = some (neg eperm, cs)
loaded env fuel cname (true, cs) = load_class env fuel cname cs

-- open_class; _load_class begins with the same test for an open class.
unfoldable pub open_class : Env → ℕ → Text → Classes → Option (ℤ × Classes)
unfolding get_class
open_class env fuel cname cs = loaded env fuel cname (get_class env cname true cs)

abbrev take : ℕ → Text → Text
take zero s = []
take (suc n) [] = []
take (suc n) (c ∷ s) = c ∷ take n s

abbrev drop : ℕ → Text → Text
drop zero s = s
drop (suc n) [] = []
drop (suc n) (c ∷ s) = drop n s

abbrev is_hidden : Text → Bool
is_hidden [] = false
is_hidden (c ∷ s) = c == b'.'

-- The class of a file libcls_<name>.so
unfoldable pub class_of_file : Text → Option Text
unfolding text_eq
class_of_file d_name =
    if is_hidden d_name
    then none
    else if ltb 10 (length d_name)
        && (text_eq (take 7 d_name) (codes "libcls_")
            && text_eq (drop (length d_name - 3) d_name) (codes ".so"))
    then some (take (length d_name - 10) (drop 7 d_name))
    else none

-- A code other than -EPERM ends the loop.
unfoldable pub stops : ℤ → Bool
unfolding int_beq
stops r = is_neg r && not (int_beq r (neg eperm))

-- The loop of open_all_classes over the entries of the directory; `r` is the code so far.
unfoldable pub open_entries : Env → ℕ → List Text → ℤ → Classes → Option (ℤ × Classes)
unfolding open_class class_of_file
open_entries env fuel [] r cs = some (r, cs)
open_entries env fuel (d ∷ ds) r cs = elim (class_of_file d) [
  | none ↦ open_entries env fuel ds r cs
  | some cname ↦ elim (open_class env fuel cname cs) [
    | none ↦ none
    | some (r', cs') ↦
        let rest = open_entries env fuel ds r' cs' in if stops r' then some (r', cs') else rest
  ]
]

-- What opendir and readdir give: the names in the directory, or errno.
pub data Directory : Type 0 where
  entries : List Text → Directory
  unreadable : ℕ → Directory

unfoldable pub open_all_classes : Env → ℕ → Directory → Classes → Option (ℤ × Classes)
unfolding open_entries
open_all_classes env fuel (entries ds) cs = open_entries env fuel ds ok_code cs
open_all_classes env fuel (unreadable errno) cs = some (neg errno, cs)

abbrev pub is_unknown : Status → Bool
is_unknown class_unknown = true
is_unknown _ = false

-- `none` for the assertion on a class that is known already
unfoldable pub add_embedded_class : Env → Text → Classes → Option Classes
unfolding get_class set_status
add_embedded_class env cname cs =
    let cs' = (get_class env cname false cs).1 in
    if is_unknown (class_at env cname cs').status
    then some (set_status env cname class_initializing cs')
    else none

-- The handles that shutdown closes, and the classes afterwards
unfoldable pub handles : Classes → List ℕ
handles [] = []
handles ((n, c) ∷ cs) = elim c.handle [ none ↦ handles cs | some h ↦ h ∷ handles cs ]

unfoldable pub shutdown : Classes → List ℕ × Classes
unfolding handles
shutdown cs = (handles cs, [])

-- rpc_init goes on to the second class when the first is open.
abbrev then_lock : Env → ℕ → Option (ℤ × Classes) → Option (ℤ × Classes)
then_lock env fuel none = none
then_lock env fuel (some (r, cs)) =
    if is_zero r then open_class env fuel (codes "lock") cs else some (r, cs)

unfoldable pub rpc_init : Env → ℕ → Classes → Option (ℤ × Classes)
unfolding open_class
rpc_init env fuel cs = then_lock env fuel (open_class env fuel (codes "rgw") cs)

-- The calls on the handler, one after another
pub data Request : Type 0 where
  opens_class : Text → Request
  opens_all : Directory → Request
  embeds : Text → Request
  shuts : Request

abbrev pub state_of : Option (ℤ × Classes) → Option Classes
state_of none = none
state_of (some (r, cs)) = some cs

unfoldable pub serve : Env → ℕ → Request → Classes → Option Classes
unfolding open_class open_all_classes add_embedded_class shutdown
serve env fuel (opens_class n) cs = state_of (open_class env fuel n cs)
serve env fuel (opens_all dir) cs = state_of (open_all_classes env fuel dir cs)
serve env fuel (embeds n) cs = add_embedded_class env n cs
serve env fuel shuts cs = some (shutdown cs).1

unfoldable pub serve_all : Env → ℕ → List Request → Classes → Option Classes
unfolding serve
serve_all env fuel [] cs = some cs
serve_all env fuel (q ∷ qs) cs = elim (serve env fuel q cs) [
  | none ↦ none
  | some cs' ↦ serve_all env fuel qs cs'
]
