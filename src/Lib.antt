-- ===== src/Lib.antt =====
-- Verification of Go components of this collection: the network code, the configurations, the
-- builder, the graph of images with its index, the store of tags and the dependency graphs of
-- the docker daemon, the wire format of libchan, and of tsuru the action pipelines, the quotas,
-- and the teams, environment, units and creation of apps; and docker-cluster.
--
-- The parts, and where they are modelled:
-- - Network/Ip.antt: the IPv4 arithmetic of github.com/dotcloud/docker/network.go (networkRange,
--   networkOverlaps, ipToInt, intToIP, networkSize). An int32 is its bit pattern, a number below
--   2 ^ 32.
-- - Network/IpAllocator.antt: IPAllocator of network.go. The goroutine `run` becomes `prepare`,
--   the search that a round begins with, and `acquire` and `release`, the two cases of its
--   select. IpAllocator/Clients.antt is the allocator with its clients, as a step relation.
-- - Network/PortAllocator.antt: PortAllocator of network.go, with the goroutine of its fountain
--   as the next port to be sent.
-- - Network/PortMapper.antt: PortMapper of network.go. The answers of `iptables` and of the
--   sockets are a parameter, a function of the calls so far.
-- - Network/NatSpec.antt: parseNat of network.go, on bytes.
-- - Network/Manager.antt: NetworkInterface (AllocatePort, Release) and NetworkManager (Allocate)
--   of network.go, which call the four parts above. The manager is passed and returned.
-- - Data.antt and Data/Message.antt: github.com/docker/libchan/data/data.go and message.go. A
--   map is the list of its entries in the order of the iteration; `panicked` is a panic of the
--   code.
-- - Config.antt: CompareConfig and MergeConfig of github.com/dotcloud/docker/utils.go, with
--   Config of container.go; a panic is `none`.
-- - Dependencies.antt: DependencyGraph of github.com/dotcloud/docker/utils/utils.go. Names of
--   nodes are numbers, which are compared only.
-- - Names/TruncIndex.antt: TruncIndex of the same file as Names.antt; the suffix array stands
--   for a search through the bytes.
-- - Builder.antt: buildFile of github.com/dotcloud/docker/buildfile.go, in the order of its
--   parts: Builder/Create.antt (what Create of github.com/dotcloud/docker/runtime.go does to the
--   configuration of its caller), Builder/Commit.antt (commit, run and the cache),
--   Builder/Env.antt (variables), Builder/Add.antt (ADD), Builder/Instructions.antt (the other
--   instructions) and Builder/Dockerfile.antt (Build). The runtime, the server, the file system,
--   the regular expressions and JSON are parameters over a world of any type; a method takes the
--   builder and returns a result and the builder, and `panicked` is a panic of the code.
-- - TagStore.antt and TagStore/Tables.antt: TagStore of github.com/dotcloud/docker/tags.go. The
--   file and the graph of images are parameters over a world of any type.
-- - Graph.antt: Graph of github.com/dotcloud/docker/graph.go over the index of identifiers.
--   Reading, storing and renaming of images are parameters over a world of any type.
-- - Quota.antt: quota.go and lock.go of github.com/globocom/tsuru/quota. The collection of the
--   database is a parameter, `Collection`, and Quota/Documented.antt says what the code relies
--   on of it. Quota/Clients.antt has any number of goroutines in Reserve as a step relation, one
--   access to the database or to a lock at a time.
-- - App.antt: github.com/globocom/tsuru/app, in App/Teams.antt (find, Grant, Revoke and SetTeams
--   of app.go, with the binary search of Go's package sort), App/Env.antt (setEnvsToApp and
--   UnsetEnvs of app.go), App/Units.antt (unit.go, and AddUnit, RemoveUnit and RemoveUnits of
--   app.go) and App/Creation.antt with its children (the actions of actions.go that reserve
--   quotas, and CreateApp and AddUnits, which run them as the pipelines of Action.antt on the
--   quotas of Quota.antt). The provisioner, the services, the queue and the collection of the
--   apps are parameters.
-- - Cluster.antt: github.com/globocom/docker-cluster/cluster, the round robin of scheduler.go
--   and the nodes of cluster.go. Cluster/Broadcast.antt is runOnNodes as a step relation on its
--   channels, Cluster/Containers.antt the operations of container.go and image.go. The clients
--   of the nodes and the storage are parameters over a world of any type.
-- - Names.antt: ParseRelease, CompareKernelVersion, ParseRepositoryTag and TruncateID of
--   github.com/dotcloud/docker/utils/utils.go, on bytes.
-- - Action.antt: github.com/globocom/tsuru/action/action.go. The functions of the actions are
--   parameters over a world of any type, and the results live in a store by address.
-- - Base.antt and Text.antt: shared helpers; Text models what the code uses of strconv and
--   strings.
-- - the Examples modules: runs at concrete inputs.
--
-- Fuel: `from_fountain` takes fuel for its receives, and one turn of the fountain is enough if a
-- port is free; `decode_items` and `decode_entries` take the number of bytes, and every round
-- takes a byte at least; `traverse` takes the number of nodes, and every round takes a node at
-- least that is not yet in the set of processed ones. `search` of App/Teams.antt takes one more
-- round than there are teams, and every round takes a candidate at least. The search of the IP
-- allocator has the bound that its loop has.
--
-- Not modelled: what the parameters stand for, such as the runtime and the server that the
-- builder calls, whose look-up of an image is LookupImage of TagStore.antt; the bridge and the
-- routes of network.go, whose functions run commands; Message.Pretty; the logs, that of an app
-- in its collection included; the actions of CreateApp on S3, IAM, the repository and the
-- provisioner, which are any further actions of its pipeline; SetStorage of docker-cluster; the
-- Go maps' order beyond what is said above; the rest of the collection (vendored code, web
-- services, tools in other languages).
pub mod Base
pub mod Text
pub mod Action
pub mod App
pub mod Builder
pub mod Cluster
pub mod Config
pub mod Data
pub mod Dependencies
pub mod Graph
pub mod Names
pub mod Network
pub mod Quota
pub mod TagStore
