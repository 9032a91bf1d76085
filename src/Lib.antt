-- ===== src/Lib.antt =====
-- The core of the HCP server and of its workers: who may act, what an action writes to the
-- database, what history it leaves, and how the parser service reads design files.
--
-- Prelude and its children hold Boolean tests, lists over native numbers, tables under
-- constraints, and stable sorting (ORDER BY takes ties in the order of insertion). Json models
-- `dict[str, Any]`: a dict keeps the order of its keys, and `==` on dicts ignores it. Json/Dict is a
-- Python dict with text keys.
--
-- Auth models api/app/auth/rbac.py and the role and scope checks of api/app/auth/dependencies.py.
-- Db has the tables of api/app/models/db.py that the services below read and write, each a list of
-- rows, with their unique constraints and the foreign keys of events, of parents of commits, of
-- nodes and of snapshots of objects. The other foreign keys are not in it: they refer to
-- organisations, users, projects, branches, commits and merges that the services look up before
-- they write. Of the users Db keeps the identifiers alone. The SQLAlchemy session of
-- api/app/dependencies.py has `committed`, what the database has, and `current`, what the
-- transaction sees. autoflush is off, so constraints are checked where the code flushes. Action is a
-- service method: a session to a result and a session, the `ValueError`s of the services being
-- constructors of Error. A session outlives an error. Access is the pair of checks that opens most
-- methods which write.
--
-- Events models api/app/services/events.py (EventPublisher.publish with its rollback and its
-- queries), event_emission.py (keys and hooks) and event_taxonomy.py. Collaboration models
-- api/app/services/collaboration.py: Presence, Lock and Relay (alerts and CRDT envelopes). Hnf and
-- Hnf/Rows model the part of api/app/services/hnf.py that a commit uses. Hos models
-- api/app/services/hos_version_control.py: Lca is find_lca, Diff and Comparing are diff, Merge has
-- the loops of merge and _try_finalize_merge, Commits the queries, Writing create_branch and
-- commit, Merges and Merging the rest of merge, _try_finalize_merge, list_conflicts and
-- resolve_conflict. Scene models api/app/services/scene_graph.py: Rows has identities and nodes,
-- Edges the edges, and Snapshots the snapshot of a commit, which commit calls. Objects models
-- api/app/services/lifecycle.py and audit.py, and of api/app/services/objects.py the queries,
-- promote and soft_delete. The services meet in the database and in the publisher, which most
-- writing methods call last.
--
-- Accounts has its own database of organisations, users, invitations, refresh tokens and API keys,
-- with the session and the errors of its services: Tokens models api/app/auth/jwt.py, Keys
-- api/app/auth/api_keys.py, get_current_user of api/app/auth/dependencies.py and
-- api/app/routers/auth.py, and Invites api/app/services/org_invites.py. Crypto is what is taken from
-- bcrypt, sha256 and the signing of tokens; the secrets and identifiers made afresh are arguments.
-- RateLimit models api/app/middleware/rate_limit.py with its counters in memory and in Redis, whose
-- incr and expire are parameters. It asks Accounts' safe_decode who is calling.
--
-- GraphLinks models GraphService of api/app/services/graph.py with the links that it keeps in memory
-- while Neo4j does not answer; Neo4j itself is a parameter. Boms models api/app/services/bom.py: it
-- reads versions through Objects, rows that the parser stored, and the links of GraphLinks.
--
-- Text has the methods of Python's texts and paths that the code uses; upper and lower case are
-- those of ASCII. ObjectTypes models api/app/services/object_types.py. Parser models the parser
-- service: Sexpr is parser/pral/core/sexpr.py, Schema parser/schema.py, Plugin
-- parser/pral/interfaces/parser_plugin.py, Registry parser/pral/registry.py and plugins/loader.py,
-- Kicad kicad_pcb.py and kicad_sch.py, Bom bom.py, and Stores firmware.py, raw.py and pdf.py of
-- parser/pral/core. Numbers with a point stay as they are written; what Python's float arithmetic
-- makes of them (Spread, Reading), what printing makes of a value (Show) and the rows that csv and
-- openpyxl give are parameters. Linker models graph/linker.py: the Cypher statements act on a graph
-- of nodes and edges.
--
-- Examples, and the Examples of Objects, Hos/Writing and Hos/Merging, apply the theorems to small
-- databases.
--
-- Identifiers are numbers, instants are microseconds, and numbers in JSON are integers. A method
-- takes the time and the identifiers of its new rows as arguments. Runtime is what is taken from
-- Python's uuid and str (str(uuid), str(int), uuid5), and Validation what is taken from pydantic
-- and from conversions of values (model_validate, model_dump, str, int, list, uuid.UUID). No
-- property assumes anything of them.
--
-- The two loops of find_lca run on fuel. Histories without cycles have a weight in which each
-- commit is heavier than all its parents together, and fuel as large as the weights of both commits
-- is enough. The tokens of a text are read on fuel one more than its length, and a tree on fuel one
-- more than twice its tokens, which is always enough. flat_bom nests its calls on fuel: a weight, in
-- which every object is heavier than what it contains, says how much is enough. All other loops are
-- structural. Python's limits on recursion and on the digits of an int are not modelled.
--
-- Not modelled: uploads of objects, search, the queries of Neo4j, HNF documents, the other HTTP
-- routers, the parsers of STEP and Gerber files, the worker and the tasks around the linker, which
-- are mostly calls of storage, queues and other services.
-- Concurrent transactions are not modelled either: a session sees a database that nobody else
-- changes.
pub mod Prelude
pub mod Json
pub mod Auth
pub mod Db
pub mod Action
pub mod Events
pub mod Access
pub mod Collaboration
pub mod Hnf
pub mod Hos
pub mod Examples
pub mod Objects
pub mod Parser
pub mod Scene
pub mod Text
pub mod Accounts
pub mod Linker
pub mod GraphLinks
pub mod Boms
pub mod RateLimit
pub mod ObjectTypes
