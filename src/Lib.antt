-- ===== src/Lib.antt =====
-- The global cache adaptors of Ceph, in C++: a server adaptor that takes client operations from
-- Ceph's messenger and gives them to a global cache, and a proxy through which the cache reaches
-- the Ceph cluster. The libraries of Ceph, the cache itself and the clock are not in the
-- repository: what the code asks of them is a parameter of the definitions that use it.
--
-- Throttle: the five counters of admission (src/server_adaptor/network_module.cpp, Get...Cas,
-- Put...Cas and the variants with a mutex). A call is a function of one counter, `Cell`: its
-- value and the schedule, that is what the other threads do to it before each of this thread's
-- accesses, so a theorem for every cell is one for every interleaving. The compare-and-swap
-- loops run on fuel, two rounds more than the schedule is long; Throttle.Atomic.cas_update_total
-- shows that this is enough, since each failed swap uses up a move of the others. A call that
-- polls when the schedule is over polls for ever: it ends in `waiting`.
--
-- Pool: the tables of I/O contexts (src/ceph_proxy/PoolContext.h) and the calls that use them
-- (src/ceph_proxy/CephProxy.cc, lines 135-233; src/ceph_proxy/RadosWrapper.cc, lines 252-316). A
-- context is its address, and `Heap` has the live ones. A lookup and the insertion that follows
-- it are two steps, since the lock is free between them.
--
-- Ccm and Monitor: the usage of the cluster's pools (src/ceph_proxy/CcmAdaptor.cc,
-- src/ceph_proxy/RadosMonitor.cc and .h). `Cluster` has the answers of the monitors and the
-- groups that std::regex_match finds in a line of the report; `Floats` is floating point. The
-- timer is a list of rounds.
--
-- Msg: the conversion of a client's operations (src/server_adaptor/msg_module.cpp; ProcessOpReq
-- and ContainWriteOp of network_module.cpp; src/dependency/include/sa_def.h). `Codec` is Ceph's
-- decoding of a buffer, and Msg.Decode.Documented what its documentation says of two operations.
-- An exception is `none`, or the ending `threw`.
--
-- Server: the request path (src/server_adaptor/client_op_queue.h; EnqueueClientop,
-- OpHandlerThread, LimitWrite, StopThread and FinishCacheOps of network_module.cpp). `World` has
-- a lane for each queue and its handler thread, the counters, and the history of what entered,
-- what was handled and what the cache was given; `Step` is what one thread does between two
-- waits, so a list of steps is an interleaving. The hash of names is a parameter. Server uses
-- Msg to convert a request and Throttle to count it. A thread that waits in the throttle for
-- ever is not held back in a lane: its steps are a subset of the ones allowed here.
-- FinishCacheOps is modelled with the module set. LimitWrite (Server.Quota) gets the readings of
-- the clock and the answers of the cache as parameters; its division by the cycle is safe since
-- the entry refuses a cycle of 0.
--
-- Worker: the proxy's worker (src/ceph_proxy/RadosWorker.cc and .h): a queue and a thread for
-- each pool. `IoWorker` has the queue, the thread's batch and place, and the history; `Step` is
-- what one thread does under the lock, or with one operation. The answers of librados are
-- parameters of the thread's step. Worker.Drain bounds the steps that the thread needs.
--
-- Loader: the loading of object classes (src/server_adaptor/ClassHandler.cc and .h, and the calls
-- that register in src/server_adaptor/class_api.cc). `Classes` is the map of classes, and a class
-- refers to others by name. `Env` is the dynamic linker, the file system and the lists of allowed
-- classes. _load_class runs on fuel: more than the rank of the class is enough when every class
-- has a greater rank than those it depends on; with a cycle no fuel is. Loader.View has what an
-- operation changes of each class, Loader.Settled the invariant, Loader.Steps and Loader.Loading
-- its preservation.
--
-- Cls: the results and the object classes. Cls.Encode has the functions by which the cache writes
-- its results into a reply (src/server_adaptor/network_module.cpp, from line 1152), Cls.Api and
-- Cls.Omap the operations that classes call (src/server_adaptor/class_api.cc), Cls.Exec the
-- execution of a method (OSA_ExecClass of src/server_adaptor/osa.cpp), which uses Loader to open
-- the class. `Wire` and `Codec` are Ceph's encoding, with Cls.Types.Documented as what is
-- documented of it; `Cache` is the handler of requests; `Plugins` is the code of the classes. A
-- std::map is a list in the order of its keys (Cls.Ordered).
--
-- Entry: the start of the server adaptor (src/server_adaptor/config_read.cpp, OSA_Init and
-- OSA_Finish of src/server_adaptor/osa.cpp, CreateWorkThread of
-- src/server_adaptor/network_module.cpp). `Items` is the configuration file, `Machine` the network
-- interfaces and processors, `Messenger` the outcome of Ceph's binding. The wait for the messenger
-- has 60 sleeps.
--
-- Proxy: the proxy as a whole: its configuration (src/ceph_proxy/ConfigRead.cc), RadosClientInit,
-- RadosClientShutdown and RadosBindMsgrWorker (src/ceph_proxy/RadosWrapper.cc), and Init and Shutdown
-- (src/ceph_proxy/CephProxy.cc), and the instance that src/ceph_proxy/CephProxyInterface.cc hands out
-- (Proxy.Interface). It uses the heap and the tables of Pool. A member that no
-- constructor writes is `unwritten`, and its use gives `none`. So does an exception.
-- Its heap has the client, the contexts, the worker with its RadosIOWorkers, and the monitor with its
-- adaptor. What the threads do that Init starts and Shutdown stops is in Worker and Monitor, and so
-- is the waiting for them. The client is tried 5 times, as in the source.
--
-- Prelude has the shared helpers: tests, lists, keys, maps, words, texts. Examples has runs of
-- the theorems at concrete inputs.
--
-- Not modelled: logging and tracing, which nothing decides by; the setting of a thread's processor;
-- random bytes and connection features of class_api.cc, which forward to Ceph; the messenger's set
-- up; the wrappers that forward to librados and librbd; the rest of the
-- proxy's C interface, which forwards; the patches of Ceph.
pub mod Prelude
pub mod Throttle
pub mod Pool
pub mod Ccm
pub mod Monitor
pub mod Msg
pub mod Server
pub mod Worker
pub mod Loader
pub mod Cls
pub mod Entry
pub mod Proxy
pub mod Examples
