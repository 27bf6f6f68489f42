-- ===== src/Lib.antt =====
-- VizStack: the allocation of visualization resources (GPUs, X servers, input devices) in
-- python/vsapi.py and python/metascheduler.py.
--
-- A session asks the metascheduler for a list of requests. A request is a resource object whose
-- index and host may be left open. The metascheduler matches requests against copies of its free
-- resources, node by node, and allocates out of the resources that match; a resource keeps the list
-- of its owners, and may be shared up to a limit.
--
--   Prelude      shared names, tests, lists, integers, dictionaries (no code of the program)
--   Errors       exceptions as values (VizError), code that raises and mutates
--   Display      DisplayDevice: its modes (rates are natural numbers, only their order counts)
--   Resource     VizResource and its subclasses. Resource/Search: typeSearchMatch,
--                refersToTheSame, canAllocate. Resource/Sharing: doAllocate, deallocate.
--                Resource/Weight: getAllocationWeight. Resource/Scanouts: setScanout and the
--                calls around it; what it asks of the server (getTemplates) is a parameter.
--   Screen       Screen: number, GPUs, framebuffer properties
--   Server       Server: the configuration of an X server (Setters, Calls), its screens in order
--                (Screens), the combined screen of a Xinerama server (Combined). A screen is a
--                value: what is done to a screen object after addScreen is not seen
--   Tiled        TiledDisplay: its parameters, which have the type that their use asks for.
--                Tiled/Validation: doValidate. Tiled/Layout: setupXServers for GPU blocks, the tiles
--                in a block, their scanouts (Placing, Scanouts, Calls) and the blocks on the wall.
--                Tiled/Setup: from validated parameters to the layout. Tiled/Positions: the
--                positions of the blocks in an X server
--   LocalScheduler   LocalScheduler and LocalReservation of python/localscheduler.py (Live: what
--                the scheduler keeps)
--   Nodes, Normalize   expandNodes and normalizeRG of python/vsutil.py
--   Protocol     sendMessageOnSocket and readMessageFromSocket. The socket is a parameter: its calls
--                send and recv, and where messages arrive (Stream, Framing), what is documented of
--                them: a send takes a front of its bytes and returns its length, a recv gives some
--                of the bytes that are there, and no more than it asks for
--   Metascheduler/Base       Metascheduler, Allocation, the forms of a request; the schedulers
--                (python/scheduler.py) as an interface: their nodes, those that are down, and a
--                reservation of nodes
--   Metascheduler/Matching   __classifyRes, __copyWithThisNodeName, __resourceMatchDOF0 and
--                __resourceMatchDOF2, with their contract in Grants
--   Metascheduler/Ordering   __sortAvailResources, __sortReqList
--   Metascheduler/Prepare    allocate, up to the checks of the fixed requests
--   Metascheduler/Supply     allocate, the copies of the free resources
--   Metascheduler/Steps      allocate, steps 2 to 4: the search for each degree of freedom
--   Metascheduler/Commit     allocate, the checks of the answers, the reservation, the marking
--   Metascheduler/Allocate   __init__, allocate and deallocate, composed of these
--   Metascheduler/Managed, Safety               every history of calls on the whole metascheduler
--   Metascheduler/Growth, Owners, Committed     what a successful call adds
--   Metascheduler/Samples, Examples, Runs, Histories   matching, the parts of allocate, and whole
--                calls on small clusters
--
-- A method that mutates its object takes the object last and returns the result with the new
-- object; a failure is a value of Result, and what was written before it stays written. User ids and
-- indices are natural numbers, so that the type tests on them always pass; biases and weights are
-- integers. Dictionaries are association lists in order of insertion. The requests of one call are
-- distinct objects, as they are where they come out of an XML message. Loops run over lists; the
-- one over a socket has as many rounds as bytes are missing, which is enough, since each round that
-- goes on adds a byte.
--
-- Python 2 does not fix the order of a dictionary; here it is the order of insertion. list.sort is
-- stable, hence an insertion sort stands for it. A managed node has a name and an index, and what
-- an aggregate (ResourceGroup) asks for is a list of lists of resources. What allocate writes into
-- the objects of its caller's request is seen by the steps after it, and not kept after the call.
--
-- Not modelled: QuadroPlex blocks in the layout of a tiled display, whose branch reads unbound
-- variables; OpenGL coordinates, which are floating point; XML forms, processes
-- and the daemon, the SLURM and SSH schedulers, the tools that write X configurations.
pub mod Prelude
pub mod Display
pub mod Screen
pub mod Server
pub mod Tiled
pub mod Errors
pub mod Protocol
pub mod LocalScheduler
pub mod Nodes
pub mod Normalize
pub mod Resource
pub mod Metascheduler
