-- ===== src/Lib.antt =====
-- The records of barrel, the network plugin that keeps fixed IP addresses for containers.
--
-- The program keeps two kinds of record in an etcd cluster that several hosts share: one for each
-- fixed address, with its status bits and its borrowers, and one for each container, with its
-- addresses. Most changes of a record read it and write it back by a compare-and-swap on its
-- version; a record that is new to a method is put without one, and records are deleted without one.
--
--   Types (types/): the records, the status bits as 64-bit words, and the errors as values.
--   Utils (utils/lazy.go): the getters that are meant to cache.
--   Json (utils/json.go, utils/jsonnodes.go): nodes as trees, an object as a list of members.
--   Method: a call that returns a value or an error together with the state, and how it ends.
--   Store (store/, store/etcd/): the codec interface, the etcd client as a parameter with
--     hypotheses (Store.Client), the calls of etcdStore, what each does to the contents
--     (Store.Etcd.Laws), and the transactions of PutMulti (Store.Etcd.Batch).
--   Codecs (vessel/codecs/): keys and documents of both records. Text is not modelled below the
--     document: a stored value is the document that encoding/json writes.
--   Vessel (vessel/): a call returns a value or an error together with the state (Vessel.World).
--     The Calico client is a parameter with hypotheses (Vessel.CalicoClient). Vessel.CalicoPool
--     models calicoippool.go, Vessel.FixedPool fixedippool.go (its retries in
--     Vessel.FixedPool.Rounds), Vessel.Helper helper.go (its loops in Vessel.Helper.Turns), and
--     Vessel.Agent the pollers, the match and the notifier of agent.go, where a channel is a
--     number and what a call sends is a list, and in Vessel.Agent.Loop the agent on them.
--   Driver (driver/): the address requests of driver/calico/ipam.go and driver/fixedip/ipam.go, and
--     the pools of the former, on Vessel; `net.ParseIP` is a parameter. Driver.Network models the
--     networks and endpoints of driver/calico/network.go, whose requests Driver.Requests reads,
--     over a parameter with hypotheses (Driver.Cluster) for the Calico datastore and the links of
--     the host, and Driver.FixedNetwork driver/fixedip/network.go, which tells the agent of
--     Vessel.Agent.Loop of its endpoints.
--   Proxy (proxy/docker/): the handlers of requests to the docker daemon. Proxy.Create is the
--     rewriting of a request to create a container, of create.go and helper.go, on the documents of
--     Json, and Proxy.Create.Handle its handler, with the addresses that it reserves. Proxy.Daemon
--     is what is asked of the daemon, of inspect.go and vessel/docker_network.go; its answers, the
--     reading and writing of its documents and the regular expressions of the paths are parameters.
--     Proxy.Connect models netconn.go, Proxy.Removal remove.go and netdisconn.go, where what a
--     handler leaves to a goroutine is a value that is run apart, Proxy.Inspection the handler of
--     inspect.go, and Proxy.Chain the chain of handlers of proxy/proxy.go. The state is the
--     vessel's and the daemon's. The error of a handler stands for its response of 502, and an
--     error while a response is forwarded is only logged.
--   Resources (resources/): the mounts that are removed with a container.
--   Cni (cni/): the endpoints that containers share. Cni.Store is the interface of store.go with
--     its contracts on a book of links, owners and tenants; Cni.Files is what the code uses of the
--     file system, where any call may fail but a look at a path (os.Stat, os.Lstat), which fails only
--     where the path leads nowhere; Cni.Filesystem is the store of
--     store/filesystem, a path being a directory and a name with its suffix. Cni.Base and
--     Cni.Subhandlers model subhandler/ on that interface, with docker-cni and other programs as
--     parameters (Cni.Machine), Cni.Handler models handler/, and Cni.Flock the lock file of an
--     address as steps of processes. Elsewhere in Cni no other process acts within a call.
--   Tests: clients that always answer, the theorems at concrete inputs, and runs of the code.
--
-- Concurrency: between two calls of etcd any other client may change the cluster. The state holds
-- a list with the change that is made before each call, so that a theorem about every list is a
-- theorem about every interleaving with the changes of etcd. What Calico has assigned is changed by
-- the calls of the model alone: other hosts that assign and release addresses are left out.
-- The retries of BorrowFixedIP and ReturnFixedIP are bounded by the code itself, to 3 rounds. The
-- loops of helper.go have no bound: they run on fuel, one turn for each change that another client
-- will make and one more, and a turn is repeated only if another client acted within it.
--
-- Not modelled: contexts, cancellation and logging; the goroutine that adds labels to an endpoint,
-- and the settings that the network drivers read from the environment; the handler of a prune and
-- the copying of streams in the proxy; the goroutine of the agent with its timers; and the
-- command-line tools. Of PutMulti the operations and their split into transactions are modelled,
-- not the goroutines that commit them.
pub mod Prelude
pub mod Types
pub mod Method
pub mod Utils
pub mod Json
pub mod Store
pub mod Codecs
pub mod Vessel
pub mod Driver
pub mod Resources
pub mod Proxy
pub mod Cni
pub mod Tests
