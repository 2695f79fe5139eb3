-- ===== src/Lib.antt =====
-- Faultynet: the injection of faults into emulated networks.
--
-- A fault controller is started by a starter, in a process of its own. The starter turns the
-- identifiers of a configuration (`h1`, `h1->s1`, `h1->s1:s1-eth1`) into interfaces and process ids;
-- the controller makes injectors of it. An injector runs shell commands that put a fault on an
-- interface or into a node, waits, and removes it, in bursts, in steps or once; the fault logger
-- keeps the table of the faults that are active. The network itself consists of nodes, each with
-- a shell and a table of interfaces, and gives every host an address of its subnet.
--
-- Which file models which part:
--
--   Values                   scalars of a configuration and Python's conversions of them
--   FaultLogger              mininet/faultlogger.py: `ACTIVE_FAULTS_DICT` and its operations
--   Injectors/Script         the effects of an injector's coroutine, and what they do to the shared
--                            table; `World` is the table with the commands run so far
--   Injectors/Args, Tc       mininet/fault_injectors.py: `make_nics_injection_command`
--   Injectors/Filtered       `make_filtered_nics_injection_command`
--   Injectors/Link           `LinkInjector`: `inject_nics`, the patterns, `do_injection`
--   Injectors/Nodes, Node    `NodeInjector`
--   Injectors/Multi          `MultiInjector`
--   Injectors/Traces         scripts that only touch their own tag and leave it absent
--   Injectors/Returned       the runs that return: what they have removed
--   Network                  what the starters read of a `Mininet` object
--   Controllers/Patterns     the regular expressions of mininet/fault_controllers
--   Controllers/Identifiers  BaseFaultController.py: identifiers to interfaces and process ids
--   Controllers/Targets      `get_target_arguments_from_fault_dict`
--   Controllers/ConfigFile   ConfigFileFaultController.py: `_configByFile`, `make_controller_config`
--   Controllers/ConfigFile/Gathering
--                            `go`: the coroutines of all injectors together, also where one raises
--   FaultLogger/Log          mininet/faultlogger.py: `FaultLogger`, the entries of the log and its loop
--   Controllers/Logging      `get_controller_log_dict`, `_config_logger`
--   Controllers/Starter      `BaseFaultControllerStarter`: `go`, `is_active`
--   Controllers/Runs         the pipe's messages and the loop of `go` in the controllers with runs
--   Controllers/LinkPairs    what RandomLinkFaultController.py and MostUsedLinkFaultController.py share
--   Controllers/RandomLink   RandomLinkFaultController.py: the runs over randomly chosen links
--   Controllers/AgnosticLink AgnosticLink.py: equality and hash of links
--   Controllers/MostUsedLink MostUsedLinkFaultController.py: the choice of the busiest link
--   Controllers/LogOnly      LogOnlyFaultController.py: the loop of `go`
--   Topology                 mininet/topo.py: `MultiGraph` and the nodes, links and ports of `Topo`
--   Topology/Natural         mininet/util.py: `natural`, `naturalSeq`
--   Topology/Listing         mininet/topo.py: `edges_iter`, `links`, `nodes`, `hosts`, `switches`, `port`,
--                            `linkInfo`, `setlinkInfo`; Built and Slots the topologies that calls make
--   Topology/Trees, Torus    mininet/topo.py, mininet/topolib.py: topologies built by their size
--   Addresses                mininet/util.py: `ipStr`, `ipParse`, `netParse`, `ipAdd`, `macColonHex`;
--                            mininet/net.py: `randMac` (Macs)
--   Helpers                  mininet/util.py: `retry`, `splitArgs`
--   Interfaces               mininet/node.py, mininet/link.py: the tables of a node's interfaces; Spec
--                            says what they promise
--   Shells                   mininet/node.py: `read`, `readline`, `monitor`, `waitOutput`; Pids its
--                            regular expressions, Commands `sendCmd` and `cmd`
--   CpuLimits                mininet/node.py: `CPULimitedHost`, `cfsInfo`, `rtInfo`, `setCPUFrac`
--   Emulation                mininet/net.py: the nodes of a `Mininet` object and their addresses
--   Emulation/Pings, Waiting, Cables
--                            `_parsePing` and `ping`; `waitConnected`; `removeLink`, `linksBetween`,
--                            `delLinkBetween`
--   Emulation/Building       `addLink`, `buildFromTopo`
--   Emulation/Lifecycle      `build`, `start`, `stop`, `staticArp`, `configHosts`
--   Switches                 mininet/node.py: `OVSSwitch.vsctl`, `batchStartup`
--   Placement                examples/cluster.py: `Placer` and its subclasses
--   Tests                    runs at concrete inputs, and the theorems applied to them
--
-- The state of an object is a record with the names of its attributes. A coroutine is the list of
-- its effects with the way it ends (`Script`): a value or an exception (`Exn`). A command and the
-- entry that the logger makes of its return code are one effect, since nothing else runs between
-- them. Interleavings of injectors are the relations `Merge` and `Together`; starter, listener and
-- the coroutine of `go` take turns by the relation `Step`, the last one from one `await` to the
-- next; a run of injectors returns or raises (`end_run`), and the latter ends `go`. An object that two containers hold is a reference (`MostUsedLinks`, the numbers of
-- interfaces and nodes) or is written to in both (`MultiGraph`). What a shell writes is a list of
-- the pieces that the calls of `os.read` will return; a function that blocks returns `none`.
--
-- Taken as parameters: floating-point arithmetic (`Floats`), the return codes of the shell
-- (`Shell`), `\w` of the regular expressions (`is_word`), `uuid4`, `json`, `str.format` and the
-- control group of a node (`Host`), the place of the tc binary, `random.sample`, `hash`, the order
-- in which a set lists its elements, what a counter command and ping print, whether a switch is
-- connected, the number of cores, the builtins of the shell, `randrange`, what the classes of
-- controllers return, which nodes are switches of a class with `batchStartup`, and the number of
-- terminals. `literal_eval` reads back what `repr` writes, so a target is passed as it is.
--
-- Bounds: Python's integers are unbounded here too. `show_ℕ` takes as fuel the number plus one,
-- which is more than its digits. The loops over rounds recur on the number of rounds, those over
-- lists on the list. `wait_output` and `wait_connected` have fuel for their rounds, and the theorems
-- say how much is enough; the last pass of `wait_connected` makes as many rounds as there are switches.
-- `take_pid` provides for as many reads as there are pieces and characters to come, and more change
-- nothing (Shells/Fuel).
--
-- Not modelled: log messages; Docker hosts, switch and controller processes, the commands of tc and
-- the moving of interfaces between namespaces; the settings of an interface (`setParam`, `config`);
-- `pingFull` and `iperf`, terminals, NAT; `RoundRobinPlacer` and the remote nodes of a cluster, which
-- are calls of ssh; addresses below zero; a controller over links whose configuration has no pattern;
-- edge keys that are no numbers, container topologies, the conversion to other graphs; pipes and
-- processes by themselves, YAML; ports that are texts or floats; the numerals of `int` beyond ASCII;
-- the reading of control groups; consoles, process control and installation.
pub mod Shared
pub mod Values
pub mod FaultLogger
pub mod Injectors
pub mod Network
pub mod Controllers
pub mod Addresses
pub mod Helpers
pub mod Interfaces
pub mod Shells
pub mod Emulation
pub mod CpuLimits
pub mod Switches
pub mod Placement
pub mod Topology
pub mod Tests
