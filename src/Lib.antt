-- ===== src/Lib.antt =====
-- A model of goplane's BGP routing tables (internal/pkg/table), with the theorems on them.
--
-- A route is a path (path.go): its origin, and a chain of layers of path attributes, since a clone
-- points to the path that it was made from. What a peer sends is kept in its AdjRib (adj.go),
-- which counts the accepted paths. A destination (destination.go) holds the paths of one prefix.
-- `Calculate` takes a path into it: a withdrawal removes its like and frees its local identifier
-- in a bitmap, an update takes the place of its like, paths without an identifier get a free one,
-- and the list is sorted, best path first. From the lists before and after, `GetChanges` finds
-- what a peer is to be told. The AS path of an update is rewritten for and from speakers of two-
-- byte AS numbers (message.go), and a path is validated against the route origin authorizations
-- (roa.go). The policies that are assigned to a RIB or a peer accept, reject and change paths
-- (policy.go). A path that is sent gets the attributes for its peer (UpdatePathAttrs), and the
-- paths to send are packed into update messages (CreateUpdateMsgFromPaths).
--
-- Which file models what:
--   Bgp          net.IP, and what is used of the package github.com/osrg/gobgp/pkg/packet/bgp
--   Bitmap       path.go: Bitmap, Flag, Unflag, GetFlag, FindandSetZeroBit, Expand
--   RoutePath    path.go: Path, NewPath, Clone, getPathAttr, setPathAttr, delPathAttr; below it Attrs
--                (GetPathAttrs), AsPath (GetAsPath, GetAsPathLen, PrependAsn), Values (the getters),
--                Rewrite (RemovePrivateAS, removeConfedAs, ReplaceAS and the setters of
--                communities), Med (SetMed), Compare (Compare), Nexthop (GetNexthop, SetNexthop)
--                and Advertise (UpdatePathAttrs)
--   SliceStable  sort.SliceStable of Go's standard library, for lists of at most 20 elements
--   Message      message.go: UpdatePathAttrs2ByteAs, UpdatePathAttrs4ByteAs; below it Aggregator
--                (UpdatePathAggregator2ByteAs and 4ByteAs) and Packer (CreateUpdateMsgFromPaths)
--   Policy       policy.go: the conditions; below it Actions (actions, statements, ApplyPolicy), Edit
--                (the changes of a statement) and Assignments (the changes of an assignment and
--                DeletePolicy; below it Config: SetPeerPolicy, Initialize, Reset and AddPolicy);
--                Statements and Conditions say what policies and conditions mean
--   Roa          roa.go: Add, Delete, DeleteAll, Validate
--   Destination  destination.go: the comparisons of two paths, sort and computeKnownBestPath; below
--                it Calculate (Calculate, explicitWithdraw, implicitWithdraw) and Changes
--                (rsFilter, getBestPath, getMultiBestPath, GetChanges)
--   Table        table.go: the map of destinations; update of table_manager.go
--   AdjRib       adj.go: Update and Accepted, with getOrCreateDest and deleteDest of table.go; below it
--                Stale (Drop, DropStale, StaleAll, MarkLLGRStaleOrDrop, PathList, Count)
--   Prelude      shared lists, tests and integers
--   Tests        test data, and the theorems at concrete inputs
--
-- Functions have the source's names in snake case. A method that changes its receiver returns the new
-- one. A run-time panic, a nil result and an error are `none`, as each file says. Numbers are
-- natural numbers; where the code's width shows, the wrap-around is written out. A bitmap word is the
-- list of its 64 bits. Every loop is structural recursion, but for the one that cuts NLRI into
-- messages: its fuel is one more than the number of paths, which is enough because each turn but the
-- last takes a path. sort.SliceStable is written out because the comparison that it is given is not an order: on a tie it answers true both
-- ways round, and the result depends on the algorithm, which up to 20 elements is insertion sort.
-- Strings are numbers that stand for them. Pointers are values: aliasing is modelled in PrependAsn,
-- where two slices share an array, and in the assignments, where a policy is its address and its name.
-- A Go map is a list with one entry for a key; where its order shows, a theorem is up to permutation.
--
-- Parameters stand for code that is not in the repository: the length that a segment counts for in an
-- AS path and the bytes of attributes (`Packet`, `Codec`), whether an attribute is known and transitive
-- (`AttrFlags`), the tree of networks (`NetTree`), sort.Slice, regular expressions, net.IPNet, and the
-- network of an NLRI. What a configuration is read into, and validateCondition of policy.go, are
-- arguments of the methods that use them. The hypotheses on them are named where they are used.
--
-- Not modelled: logging, JSON and strings; the reports and virtual routing tables of table.go and
-- table_manager.go, the mobility of EVPN routes, the defined sets of policy.go, the reading of its
-- configuration and the methods that change statements on their own, and the reports of adj.go and
-- roa.go. The packages pkg/server, internal/pkg/zebra, internal/pkg/apiutil, internal/pkg/config
-- (but for the policies that apply to a peer) and netlink are input and output around the tables,
-- generated code, or work that is still to be done.
pub mod Prelude
pub mod Bgp
pub mod Bitmap
pub mod RoutePath
pub mod SliceStable
pub mod Message
pub mod Roa
pub mod Destination
pub mod AdjRib
pub mod Policy
pub mod Table
mod Tests
