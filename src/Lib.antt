-- ===== src/Lib.antt =====
-- V2bX: a node server that takes its nodes and users from a panel, runs them on one or more proxy
-- cores, limits the users and reports their traffic and devices. The modules model its own logic;
-- the proxies that the cores run, the panel's HTTP interface and the libraries enter as arguments.
--
-- How the parts interact. A controller (branch) asks the panel for its node and users, makes a limiter
-- under the node's tag (veil), has the node and the users added to a core (field), and starts periodic
-- tasks (base/task). One task follows the panel: it compares the user lists, or loads the node again.
-- Another reports the traffic that the core counted (base/counter) and the devices that the limiter
-- saw. The cores call CheckLimit of the limiter for every connection.
--
-- Files:
--   Prelude, Dict: tests, lists and integers over the native numbers; association lists for the maps,
--     with one entry for a key (Keys).
--   Text, Time: base/format/user.go, strconv.Itoa (Decimal), base64 (Base64), prefixes of strings;
--     seconds and minutes as int64.
--   Panel: the data of mirror/panel/user.go and node.go (Types); of node.go the routes (Routes),
--     intervalToTime (Interval) and GetNodeInfo (Fetch), with checkResponse of utils.go; and GetUserList
--     of user.go (Users).
--   Config: paper/limit.go, cert.go, core.go, and Options with UnmarshalJSON of paper/node.go.
--   Limiter: veil/limiter.go, dynamic.go and rule.go. Rate is determineSpeedLimit; Devices and Check
--     are CheckLimit; Users is UpdateUser and the dynamic limits; Online is GetOnlineDevice; Rules
--     is rule.go; Registry is the package's table of limiters.
--   Selector: field/selector.go, core.go and interface.go. The parent is AddNode, Routing the calls
--     for a node that is there, Build NewSelector, NewCore and the calls for all cores.
--   Task: base/task/task.go; its goroutines are the list `loops`, and a schedule a list of events.
--   Counter: base/counter/traffic.go, and conn.go and xraytraffic.go in Conn.
--   Branch: branch/user.go (Compare, Controller/Report), cert.go (Cert), lego.go as far as the
--     environment goes (Cloudflare), task.go (Controller/Monitor, Controller/Lifecycle) and
--     controller.go (Controller/Lifecycle). Flow is the control flow of the methods: go on, return,
--     or panic. The client of the panel is a state and three requests that change it; Controller/Client
--     is the client with GetNodeInfo of Panel/Fetch, over a network that sends the replies.
--   Cores: the three cores. Traffic is the body of GetUserTrafficSlice that they share, Nodes the
--     parameters of a node of mirror/panel/node.go, Result the errors of the functions that build an
--     inbound.
--     Sing is field/sing: Sort, Inbounds and Users are user.go, Hook is hook.go, Transport, Tls and
--     Listen are node.go and utils.go, Options is paper/sing.go with the settings of the networks.
--     Xray is field/xray: Protocols and Inbound are inbound.go and outbound.go, Options paper/xray.go,
--     Accounts is vmess.go, trojan.go and ss.go, Users is user.go and node.go, and Links is
--     app/dispatcher/linkmanager.go.
--     Hysteria2 is field/hy2: Hook is hook.go and logger.go, Users is user.go, node.go and hy2.go.
--   Secret: base/secret/apikey.go.
--   Json5: base/json5/json5.go, on the list of the bytes.
--   Samples: the results applied to concrete data.
--
-- How code and model correspond. A Go function is a function from the state before to the state after
-- and its results; a function that may panic says so in its result. sync.Map and map are association
-- lists; where Go ranges over a map in any order, the model takes the order of the list. A pointer
-- into a map is the entry; the limiters of the table and the counters stand on a heap, since pointers
-- to them are kept elsewhere. int and int64 are integers, and sums and products that can overflow are
-- taken to 64 bits. `now` is the time at which a function is called.
--
-- Fuel: print_nat, the digits of a number, runs on fuel, and itoa gives it the number itself, which
-- is at least the count of the digits. The two loops of prep, prep_from and after_comma, run on fuel,
-- which is the length of the text: each round moves on by one byte at least. So do the two loops of
-- GetUserList, find_users and read_users, on one more than the bytes that the decoder has left. Every
-- other loop is structural recursion.
--
-- Not modelled: sing-box, xray-core and hysteria, which the cores call, with the code that only builds
-- their configuration from files (field/sing/sing.go, field/xray/xray.go, dns.go, and of field/hy2
-- config.go and serverConfig.go) and the dispatcher that is adapted from xray-core's
-- (field/xray/app/dispatcher); the HTTP client of the panel and the other requests of mirror/panel, the
-- certificates of lego and crypto, the loop over all nodes (branch/node.go), the commands (sprout) and
-- the helpers of base that call the system or crypto. Calls that run at the same time on one limiter,
-- core or counter are not interleaved; a task's goroutines are.
mod Prelude
mod Dict
pub mod Text
pub mod Time
pub mod Panel
pub mod Limiter
pub mod Config
pub mod Selector
pub mod Counter
pub mod Task
pub mod Cores
pub mod Secret
pub mod Json5
pub mod Branch
mod Samples
