-- ===== src/Lib.antt =====
-- Proxy Gateway Console: the agent in agent/, which opens a session, unlocks an encrypted profile, starts
-- and watches the LAN proxy child, and locks everything again when the recovery medium goes; and the
-- programs in runtime/proxy-stack that split the traffic of the LAN and ask about USB phone networks.
--
-- The parts. Json is the data that the code passes as `dict[str, Any]`, Outcome the exceptions.
-- SessionStore is agent/session_store.py over explicit files: an action takes the store (its directory
-- and the world) and gives what is returned or raised, and the store after it; SessionStore.Redact is
-- its redaction. ProfileSchema (with Secrets and Migrate) is agent/profile_schema.py, ProfileCrypto
-- agent/profile_crypto.py, UsbIdentity agent/usb_identity.py, PortRegistry agent/port_registry.py,
-- RuntimeLauncher (Plan, Launch, PhoneSetup) agent/runtime_launcher.py and UnlockServer
-- agent/unlock_server.py. GatewayAgent (Status, Session, Profile, Watchdog, Commands) is
-- agent/gateway_agent.py: `dispatch` is the branches of `main`, `main` the whole process.
-- LinuxLifecycle is agent/linux_lifecycle.py, RoutePolicy agent/route_policy.py and UpstreamProfile
-- agent/upstream_profile.py.
-- ProfileSchema.Spec and UsbIdentity.Trust say what is valid without the order of the checks;
-- SessionStore.Keeps is the notion of an invariant of the world that actions keep, and
-- SessionStore.Returns that of total correctness: an action returns, and leaves what it should.
-- GatewayAgent.Stop (Whole, Watch), RuntimeLauncher.Gate and UnlockServer.Expiry state what the actions
-- of stopping, watching, starting and of looking at the token leave, in a runtime directory that is
-- usable, so that the store does not move to its fallback directory.
--
-- Parameters. Host is what the code asks of the system that it runs on: clock, environment, path tests,
-- ports, random names, and the answers of kill, of the process test, of spawn and of the listener test.
-- Crypto is the cipher, the key derivation, base64, the hash, `json.dumps` and `json.loads`; Layer, with
-- IsRemoval, is pathlib and shutil. One Host stands for one command, so a command sees one time.
--
-- Loops. `allocate` runs for its 64 rounds, as in the source. The daemon runs for a number of turns;
-- without one it does not end. All other loops are over the elements of a list or a dict, the reads of
-- a socket or the answers of `select`.
--
-- SplitProxy is runtime/proxy-stack/iphone_lan_split_proxy.py: Address, Route (`choose_route`), Cache
-- (`route`, alone and as the locked blocks of many threads), Request and Handler. PhoneEgress is
-- runtime/proxy-stack/phone_egress_http_proxy.py. Both handlers are actions of Relay, which record each
-- call that reaches a socket; its answer may depend on all calls before it. Relay has the `tunnel` that
-- both share, Relay.Quiet and Relay.Keeps what such actions leave out and keep. NetworkEvents (Scan,
-- Egress, Select) is the part of runtime/proxy-stack/proxy_stack.py on USB phone networks: `Net` is its
-- two files and the commands run, `System` the clock, the commands' answers and /sys/class/net.
-- LanGateway (Nft, Coverage) is its LAN gateway: `Gate` is the nftables file, the marker and the commands
-- run, `Machine` what they answer and what `ipaddress` and the client log say.
--
-- LanBridge is runtime/proxy-stack/lan_tcp_bridge.py: the allow list and the relay.
--
-- The reads of a socket are a list of chunks or exceptions, and `select` gives a list of answers; after
-- the last one nothing comes any more, as when the timeout ends a tunnel. A read that blocks for ever is
-- not modelled. Bytes are texts of the same characters.
--
-- Not modelled: permissions of single files and errors of reading a file that is there, the HTML page, the profile file commands, doctor,
-- diagnostics, and of proxy_stack.py the hotspot, the logs and the reports. Of an event the fixed message
-- and choices are left out, and files of events that another program wrote. Numbers of JSON are integers
-- and finite doubles; `lower` and `strip` are those of ASCII text.
pub mod Prelude
pub mod Json
pub mod Outcome
pub mod ProfileSchema
pub mod SessionStore
pub mod Host
pub mod RuntimeLauncher
pub mod UsbIdentity
pub mod ProfileCrypto
pub mod PortRegistry
pub mod UnlockServer
pub mod GatewayAgent
pub mod RoutePolicy
pub mod LinuxLifecycle
pub mod UpstreamProfile
pub mod LanGateway
pub mod NetworkEvents
pub mod Relay
pub mod PhoneEgress
pub mod LanBridge
pub mod SplitProxy
pub mod Tests
