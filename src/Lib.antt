-- ===== src/Lib.antt =====
-- The model of Davy Jones' interface: the TypeScript program under src/ of the repository, which draws
-- a project's VPNs, hosts and services as a graph and works on them through a Go server.
--
-- The parts and how they interact. `AuthProvider` (src/context/AuthContext.tsx) decides whether the
-- dashboard is shown at all and what the account may do. `Dashboard` (src/components/Dashboard.tsx)
-- holds the active project, the selection and the terminal tabs. It loads the project's data, draws
-- it with `buildGraphLayout` (src/components/Graph/layout.ts), whose hover menus come from
-- src/lib/nodeCommands.ts, and keeps the arrangement that the user has dragged together with
-- `useGraphLayout` (src/hooks/useGraphLayout.ts). A project is exported by src/lib/umlExport.ts and
-- imported again by src/components/Admin/ImportProjectDialog.tsx.
--
-- The files:
--   Prelude        lists, texts, dictionaries and tests that the parts share: `filter`, `find` and
--                  `some` of arrays, template literals, `replace` and `trim` on texts, JavaScript's
--                  `Map`, `encodeURIComponent`
--   Types          src/types.ts: the records of the data; `NodeKind`, `SelectedNode`
--   Roles          backend/roles.go: `normalizeRole`, `canRead`, `roleAllows`, which the gating of
--                  the interface mirrors
--   NodeCommands   src/lib/nodeCommands.ts: `q`, `rx`, `resolveContainers`, `hostActions`,
--                  `serviceActions`, `vpnActions`. A `run` callback is the call that it makes, as a
--                  value. NodeCommands/Shell is an independent reading of command lines (a word
--                  splitter for POSIX quoting) and of regular expressions that match one text only;
--                  NodeCommands/Quoting and NodeCommands/Commands compare the code with it.
--   Layout         src/components/Graph/layout.ts. Layout/Model has the data and the tests on links,
--                  Layout/Build the loops in the order of the code, each a function on the canvas
--                  that is built (`nodes`, `edges`, `col`, `placedServices`). Layout/Blocks, Filing,
--                  Rounds and Whole describe the result as a concatenation of blocks without any
--                  state, and show that the loops build it; the other modules prove on the blocks.
--   Auth           src/context/AuthContext.tsx: `evaluate`, `initializeSeal`, `submitShare`, `setup`,
--                  `login`, `logout` on the provider's state, `localStorage` and the request token.
--                  What the server answers is an argument: each call returns or throws.
--                  Auth/Gating has `canWrite`, `canSeeSecrets`, `isAdmin`.
--   SavedLayout    src/hooks/useGraphLayout.ts: `savePositions`, the timer, the cleanups and the load
--                  as steps on the state of the hook and its refs. The run of the loading effect is
--                  counted, and an answer carries the run that has asked for it (`cancelled`).
--   ServiceStatuses
--                  src/hooks/useServiceStatus.ts: one round of `checkAll`, and the answer of one host
--                  to the readings that are kept. The runs of the effect are counted here, too.
--   InfraData      src/hooks/useInfraData.ts: `reload`, the project switch, and the operations that
--                  change something, each as the request that it makes and the reload behind it
--   PingStatuses   src/hooks/usePingStatus.ts: the answer of one ping to the readings
--   Metrics        src/hooks/useHostMetrics.ts: `onlineIds`, `collectAll` and the runs of its effect, as
--                  steps; each request is kept with the run that made it
--   Projects       src/hooks/useProjects.ts, with `createAndSwitchProject` and
--                  `handleProjectsChanged` of src/components/Dashboard.tsx
--   Terminals      src/components/Dashboard.tsx: `openShell`, `runCommand`, `closeTerminal`, the
--                  tray's handlers, `deleteResource`, the effect on the active project, and in
--                  Terminals/Actions the hover menus that the canvas is given. Terminals/Height is
--                  the height of src/components/Terminal/TerminalTray.tsx, with its drag and keys.
--   Canvas         src/components/Graph/InfraGraph.tsx: `parseNodeId`, the effect that brings a new
--                  layout to the screen, `handleNodeDragStop`, `resetLayout`, "Reset position".
--                  Coordinates on the canvas are of a type of their own, into which those of the
--                  layout are taken by a function.
--   Menus          src/components/Graph/CanvasContextMenu.tsx and the items that InfraGraph.tsx gives
--                  it: `viewItems`, `nodeLabel`, `cascadeNote`, `armDelete`, `openPaneMenu`,
--                  `openNodeMenu`, and the listeners of the menu. What an item calls is a value.
--   Export         src/lib/umlExport.ts: `buildPlantUML`, `buildDrawIO`, `buildProjectJson`,
--                  `plantUmlSafe`, `sanitizeId`, `xmlEscape`, `drawioLabel`; Export/Dialog is the
--                  dialog of src/components/Admin/ExportUmlDialog.tsx. Export/Labels has an
--                  independent reader of XML attribute values.
--   Import         src/components/Admin/ImportProjectDialog.tsx: `dedupeName`, `handleFile`,
--                  `handleImport`. The server is a parameter, a function from the requests so far and
--                  the next one to its answer; an outcome carries the requests that were sent.
--   Ipsec          src/components/Layout/IpsecCredentialForm.tsx: `startEdit`, the checks and the
--                  payload of `handleSubmit`, `findBraceField`, with `IKE_MODES` of src/types.ts.
--                  Ipsec/Server has what backend/ipsec.go and backend/handlers_ipsec.go do with the
--                  payload: `redactIpsecCredential`, the merge of an update, `validateIpsecCredential`.
--   Forms          src/components/Layout/AddResourcesPanel.tsx: `HostForm`, `ServiceForm`,
--                  `CredentialForm` and `VpnForm`; Forms/Building is the `handleSubmit` of the last,
--                  with its requests in order. The server is a parameter on a state of its own.
--   Discovery      src/components/Layout/DiscoverServices.tsx: `handleScan`, `toggle`, `handleAdd`;
--                  whether the server answers a request is a parameter
--   Api            src/lib/api.ts: every call of `api` with its method, path and body, and `request`
--                  around a `fetch` that is a parameter. Api/Routes is the table of patterns that the
--                  Go server registers, with the guard of each (backend/handlers_*.go, main.go,
--                  middleware.go), against which the paths are compared.
--   Accounts       src/components/Auth/LoginScreen.tsx, src/components/Auth/SealScreen.tsx,
--                  src/components/Layout/ChangePasswordDialog.tsx,
--                  src/components/Admin/UsersTab.tsx and src/components/Admin/ProjectsTab.tsx, and
--                  `validateCredentials` of backend/auth.go. A text is a list of code points; Accounts/Lengths counts the
--                  UTF-16 units of JavaScript and the bytes of Go.
--   Diagnostics    src/components/Vpn/VpnDiagnostics.tsx: `refreshStatus`, `refreshLogs`,
--                  `handleStart`, `handleStop`, `handlePing`, `handleNc`. What waits at an `await` is
--                  a value, so that answers come in any order.
-- The tests of a part are in its module Tests.
--
-- Numbers. Pixel positions of the automatic layout are natural numbers, and those of the exported
-- diagram are integers, after `Math.round`; the one division of the layout is shown to leave no
-- remainder. The loops of the modelled code are recursions on a list or a text, but for two: the
-- search for a free project name runs on fuel, one round for each project, which the result on
-- `dedupe_name` shows to be enough; and the digits of a number are written with the number itself
-- as fuel. A JavaScript object with string keys and a `Map` are association lists, with a lookup
-- that finds the first entry.
--
-- Not modelled: markup and styles; `fetch`, the terminal's WebSocket and the clipboard; React's
-- scheduling beyond the order of renders, cleanups and effects; how a reading of the hosts' metrics
-- is shown, the monitoring and audit screens and the saved commands. Of the Go server only the
-- roles, the records of IPsec profiles, the table of routes and the check of new credentials are
-- modelled; what else it does is an argument of the model. The monitor is a separate program.
pub mod Prelude
pub mod Types
pub mod Roles
pub mod NodeCommands
pub mod Layout
pub mod Auth
pub mod SavedLayout
pub mod Terminals
pub mod Export
pub mod Import
pub mod Canvas
pub mod ServiceStatuses
pub mod InfraData
pub mod PingStatuses
pub mod Projects
pub mod Ipsec
pub mod Menus
pub mod Metrics
pub mod Forms
pub mod Discovery
pub mod Api
pub mod Accounts
pub mod Diagnostics
