-- ===== src/Lib.antt =====
-- Verification library of the frontend of secan, a dashboard for Elasticsearch clusters.
--
-- The library models the logic that stands under frontend/src/utils, stores and hooks and that
-- the pages share. The cluster's nodes, indices and shards come from the backend as JSON (Api,
-- after frontend/src/types/api.ts). The shard view turns them into a grid (ShardGrid), keeps the
-- grid with a cache, the relocation mode and the polling timers in a store (Store), and shows
-- shards and nodes in fixed orders (ShardOrder). The topology view groups nodes (Grouping), lays
-- them out on a canvas (Canvas), as the page of an index does with the nodes that hold its shards
-- (IndexViz), and colours them (Colors). A shard that is selected in it can be moved to another
-- node (Relocation). CanvasView gives the canvas the nodes and shards that the filters let
-- through, whose patterns Wildcard models, and ShardLists merges and counts the shards of that
-- page. The page of the shards groups them by index and node and shows and sets the allocation
-- (Management); the use of disks is coloured by thresholds from the cluster's settings
-- (Watermarks). The index pages select indices and validate bulk operations on them (Bulk). Each
-- refresh is compared (Diff) with the snapshot before it (Changes). The search parameters of the
-- address open modals (Navigation). Modals stand on a stack (Modals) and are counted
-- (ModalManager), and the REST console keeps a history (History) in a panel with a state for each
-- cluster (ConsolePanel). The preferences of the user are loaded, changed and shared between tabs
-- (Preferences). Each request goes through a client that maps errors and retries (Client); what
-- the server and the storage give is a value of Json. Fetches that may overtake each other fill
-- the flow view (Sankey) and the shards of each node (NodeShards); Refresh sets how often the
-- views fetch, Metrics and Sparkline keep what they show over time, and Routes builds and reads
-- the addresses of the pages.
--
-- Files and code:
--
--   * Base and its children: tests, lists, texts, maps in insertion order, sets, the stable
--     sort, decimal numerals.
--   * Api: frontend/src/types/api.ts with frontend/src/types/openapi.generated.ts.
--   * ShardGrid: frontend/src/utils/shard-grid-parser.ts (buildNodeIdentifierMap,
--     parseNodesWithShards, parseIndexMetadata, extractUnassignedShards, parseShardGridData,
--     getShardsForNodeAndIndex). ShardGrid/Identifiers is about the identifier map,
--     ShardGrid/Pushes and ShardGrid/Cells about the grid, ShardGrid/Belongs about references
--     and cells.
--   * Store: frontend/src/stores/shard-grid-store.ts; Store/Destinations, Store/Cache,
--     Store/Tracking and Store/Polling each take one group of actions.
--   * ShardOrder: frontend/src/utils/shardOrdering.ts (sortShards) and
--     frontend/src/utils/node-sorting.ts (sortNodesMasterFirst).
--   * Grouping: frontend/src/utils/topologyGrouping.ts; Grouping/Tags, Grouping/Groups and
--     Grouping/Coverage.
--   * Bulk: frontend/src/utils/bulk-operations.ts and frontend/src/hooks/useBulkSelection.ts;
--     Bulk/Validation and Bulk/Selection. Bulk/Confirm:
--     frontend/src/components/BulkOperationsMenu.tsx and the bulk operations of
--     frontend/src/pages/ClusterView.tsx; Bulk/Confirm/Names is about the names that are sent.
--   * Diff: frontend/src/utils/clusterDiff.ts.
--   * Changes: frontend/src/hooks/useClusterChanges.ts; Changes/Visits is about what is reported
--     while the user goes from cluster to cluster.
--   * Relocation: frontend/src/pages/ClusterView.tsx, with
--     frontend/src/components/ShardContextMenu.tsx, the relocation of a shard in the topology
--     view; Relocation/Choice is about the destinations, Relocation/Sending about the request.
--   * IndexViz: frontend/src/utils/indexVisualizationLayout.ts; IndexViz/Known is about when the
--     chart of an index can be drawn.
--   * Navigation: frontend/src/hooks/useClusterNavigation.ts; Navigation/Shown is about the
--     active modal.
--   * Modals: frontend/src/hooks/useModalStack.ts.
--   * History: frontend/src/hooks/useConsoleHistory.ts.
--   * ModalManager: frontend/src/contexts/ModalManagerContext.tsx, the provider.
--   * Sankey: frontend/src/hooks/useSankeyData.ts; Sankey/Latest is about answers that arrive
--     late.
--   * NodeShards: frontend/src/hooks/usePerNodeShards.ts; the loaders that the effect left
--     behind go on beside the new one. NodeShards/Numbering is about the abort controllers,
--     NodeShards/Loading and NodeShards/Steps about the steps of the loaders, NodeShards/Rounds
--     and NodeShards/Progress about their end, NodeShards/Staleness about late answers.
--   * Metrics: frontend/src/stores/metricsStore.ts.
--   * Refresh: frontend/src/contexts/RefreshContext.tsx.
--   * Sparkline: frontend/src/hooks/useSparklineData.ts, render by render; Sparkline/LastOf and
--     Sparkline/Window are about the points.
--   * Routes: frontend/src/routes/clusterRoutes.ts, frontend/src/utils/urlBuilders.ts and
--     frontend/src/types/tasks.ts.
--   * Client: frontend/src/api/client.ts, errors, redirects and the retry; Client/Retrying is
--     about executeWithRetry, Client/Rejection about handleError. Client/Requests and
--     Client/Queries model the requests that read, Client/Commands those on indices, shards and
--     tasks, Client/Bodies and Client/Templates those with larger bodies; Client/Addresses is
--     about the addresses.
--   * ConsolePanel: frontend/src/contexts/ConsolePanelContext.tsx; ConsolePanel/Saving and
--     ConsolePanel/Returning are about the state of each cluster, ConsolePanel/Widths about the
--     panel's width, ConsolePanel/Hiding about modals.
--   * Colors: frontend/src/utils/colors.ts and frontend/src/utils/heap.ts, with getLoadColor of
--     frontend/src/utils/formatters.ts; Colors/Naming is about the keys of index names.
--   * Canvas: frontend/src/utils/canvasLayout.ts and frontend/src/config/topologyConfig.ts;
--     Canvas/Grid and Canvas/Containers model the two layouts and Canvas/Layout the choice;
--     Canvas/Columns and Canvas/Apart are about the grid, Canvas/Inside and Canvas/Grouped about
--     the containers.
--   * Json: values that are parsed from a text or answered by the server.
--   * Preferences: frontend/src/contexts/PreferencesContext.tsx with
--     frontend/src/types/preferences.ts; Preferences/Loading is about what is loaded,
--     Preferences/Storing about what a reload and another tab get.
--   * Client/IndexFields: frontend/src/api/client.ts, getIndexFields; Client/IndexFields/Mapping
--     says what the paths of a mapping are, Client/IndexFields/Names is about their names,
--     Client/IndexFields/Paths about the list of the fields.
--   * Wildcard: frontend/src/pages/ClusterView.tsx (matchesWildcard); Wildcard/Reading is about
--     the expression that is built, Wildcard/Matching about the names that match.
--   * ShardLists: frontend/src/pages/ClusterView.tsx (mergeShardLists, the collector of
--     unassigned shards and the numbers on the cards), with paginate_vec of
--     src/routes/clusters/pagination.rs; ShardLists/Keys and ShardLists/Merging are about the
--     merged list, ShardLists/Paging about the pages, ShardLists/Stats about the numbers. The
--     pages are counted by a fuel that is larger than the number of shards, which is enough,
--     since a full page takes at least one.
--   * Management: frontend/src/pages/ShardManagement.tsx, with the allocation as
--     frontend/src/pages/ClusterView.tsx shows it, getClusterSettings of
--     frontend/src/api/client.ts and frontend/src/hooks/useShardAllocation.ts;
--     Management/Listing is about the indices that are listed, Management/Allocation about the
--     allocation that is shown, Management/Requests models the requests.
--   * CanvasView: frontend/src/components/Topology/CanvasTopologyView.tsx, the input of the
--     layout and the counts on its cards; CanvasView/Dots is about the lookup of a node's
--     shards, CanvasView/Passing writes out the filters, and CanvasView/Cards is about the dots
--     of a card.
--   * Watermarks: frontend/src/hooks/useWatermarks.ts; Watermarks/Levels is about the colours.
--   * Tests: runs of the theorems on small inputs.
--
-- Conventions. An operation that changes state is a function from the state to the state; one
-- that reads the clock takes the time; one that may throw returns an Option. Sequences of
-- operations are lists of actions or a step relation. A map or a set is a list in insertion
-- order. Numbers are natural numbers, as the server sends counts and sizes and the browser gives
-- times; differences that can be negative are written as sums. Loops are structural recursion,
-- and the loop of a loader of NodeShards is a sequence of events; NodeShards/Rounds counts the
-- rounds by the nodes that are left and one more, which is enough, since a batch takes at least
-- one node. Text positions count characters, which agrees with the source for text in the basic
-- plane.
--
-- Not modelled: React components and rendering, how the HTTP client normalises most answers, the
-- layouts in floating-point numbers, and the backend, which is written in another language.
-- Logging is left out. The comparison of strings by locale, the readers of numbers and of search
-- texts, and the answers of the server are parameters.
mod Base
mod Tests
pub mod Api
pub mod ShardGrid
pub mod Store
pub mod Bulk
pub mod Wildcard
pub mod ShardLists
pub mod Management
pub mod CanvasView
pub mod Watermarks
pub mod Json
pub mod Preferences
pub mod Canvas
pub mod IndexViz
pub mod Client
pub mod Colors
pub mod ConsolePanel
pub mod Grouping
pub mod Modals
pub mod ModalManager
pub mod Diff
pub mod Changes
pub mod Relocation
pub mod History
pub mod ShardOrder
pub mod Sankey
pub mod NodeShards
pub mod Metrics
pub mod Refresh
pub mod Sparkline
pub mod Routes
pub mod Navigation
