-- ===== src/Proxy/Client.antt =====
-- src/ceph_proxy/RadosWrapper.cc, lines 159-235 and 318-326: the client of librados.
use ceph_global_cache_adapto.Prelude.{
  ℕ, zero, suc, Bool, true, false, Option, none, some, ◌∷◌, if◌then◌else◌, ℤ, is_neg, is_zero,
  ok_code, error_code,
}
use ceph_global_cache_adapto.Prelude.Text.{Text, codes, text_eq, to_string}
use ceph_global_cache_adapto.Pool.Table.{Heap, release}
use ceph_global_cache_adapto.Proxy.Config.{ProxyControlCfg}

-- What librados answers: whether there is memory for the client, and the codes of its calls. The
-- n-th attempt to connect has the number n.
pub record Librados : Type 0 where
  pub allocated : Bool
  pub init : ℤ
  pub conf_read_file : Text → ℤ
  pub conf_get_auth : ℤ × Text
  pub conf_set : Text → Text → ℤ
  pub connect : ℕ → ℤ

-- A pointer that nobody has written, a null pointer, or the address of an object
pub data Pointer : Type 0 where
  unwritten null : Pointer
  object : ℕ → Pointer

-- RADOS_CONNECT_RETRY
abbrev pub connect_retry : ℕ
connect_retry = 5

-- The loop over the attempts to connect, with so many left; the code of the last one
unfoldable pub connected : Librados → ℕ → ℕ → ℤ → ℤ
connected lib attempt zero ret = ret
connected lib attempt (suc left) ret =
    let again = connected lib (suc attempt) left (lib.connect attempt) in
    if is_neg (lib.connect attempt) then again else lib.connect attempt

-- The time-outs, and the connection: whether all went well, and the code. The keyring's code is
-- tested for 0, that of the connection for a negative number.
unfoldable pub connect_client : Librados → ProxyControlCfg → Bool × ℤ
unfolding connected
connect_client lib c =
    let mon = lib.conf_set (codes "rados_mon_op_timeout") (to_string c.mon_timeout) in
    let osd = lib.conf_set (codes "rados_osd_op_timeout") (to_string c.osd_timeout) in
    let last = connected lib 0 connect_retry osd in
    if is_zero mon
    then if is_zero osd
      then if is_neg last then (false, last) else (true, ok_code)
      else (false, osd)
    else (false, mon)

unfoldable pub set_keyring : Librados → ProxyControlCfg → ℤ
unfolding text_eq
set_keyring lib c =
    if text_eq lib.conf_get_auth.1 (codes "cephx")
    then lib.conf_set (codes "keyring") c.ceph_keyring_path
    else ok_code

-- What follows rados->init
unfoldable pub configure : Librados → Text → ProxyControlCfg → Bool × ℤ
unfolding set_keyring connect_client
configure lib ceph_conf c =
    if is_neg (lib.conf_read_file ceph_conf)
    then (false, lib.conf_read_file ceph_conf)
    else if is_zero lib.conf_get_auth.0
    then if is_zero (set_keyring lib c) then connect_client lib c else (false, set_keyring lib c)
    else (false, lib.conf_get_auth.0)

abbrev pub fresh : Heap → Heap
fresh h = record { next = suc h.next; live = h.next ∷ h.live }

-- A client that is configured stays; one that fails is shut down and deleted.
abbrev pub configured : Heap → Bool × ℤ → ℤ × Pointer × Heap
configured h (true, r) = (ok_code, object h.next, fresh h)
configured h (false, r) = (r, null, release h.next (fresh h))

-- RadosClientInit: the code, the client pointer, and the heap. Where rados->init fails, the client
-- is not deleted and the pointer not written.
unfoldable pub rados_client_init :
    Librados → Text → ProxyControlCfg → Pointer → Heap → ℤ × Pointer × Heap
unfolding configure release
rados_client_init lib ceph_conf c old h =
    if lib.allocated
    then if is_neg lib.init
      then (lib.init, old, fresh h)
      else configured h (configure lib ceph_conf c)
    else (error_code, old, h)

-- RadosClientShutdown; `none` for a pointer that was never written. The caller's pointer stays.
unfoldable pub rados_client_shutdown : Pointer → Heap → Option Heap
unfolding release
rados_client_shutdown unwritten h = none
rados_client_shutdown null h = some h
rados_client_shutdown (object c) h = some (release c h)
