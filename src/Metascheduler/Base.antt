-- ===== src/Metascheduler/Base.antt =====
-- python/metascheduler.py: what the metascheduler keeps and what it is asked for.
use vizstack.Prelude.{ℕ, String, Option, List}
use vizstack.Prelude.Int.{ℤ}
use vizstack.Prelude.Dict.{Dict}
use vizstack.Errors.{Result, key_of}
use vizstack.Resource.{Resource, VizResource, Launcher}

-- vsapi.VizNode, as the metascheduler manages it: a node has a name and an index.
pub record ManagedNode : Type 0 where
  pub name : String
  pub index : ℕ
  pub allocation_bias : ℤ
  pub resources : List Resource

-- A vsapi.VizNode in a request: a whole node with at least these resources.
pub record NodeRequest : Type 0 where
  pub base : VizResource
  pub open base use *
  pub resources : List Resource

-- An item of requestedResources: a resource, a list of them, a VizNode, or another aggregate, whose
-- resources are a list of lists.
pub data Request : Type 0 where
  one : Resource → Request
  several : List Resource → Request
  whole : NodeRequest → Request
  aggregate : List (List Resource) → Request

-- An item of expandedResourceList.
pub data Requirement : Type 0 where
  group : List Resource → Requirement
  node : NodeRequest → Requirement

-- An entry of indexOfExpandedInFinal.
pub data Place : Type 0 where
  at : ℕ → Place
  span : List ℕ → Place

-- What the metascheduler relies on of a scheduler (slurmscheduler, localscheduler, sshscheduler):
-- the nodes that it manages and those that are down, and a reservation of nodes for a user.
pub record Scheduler : Type 0 where
  pub node_names : List String
  pub unusable_nodes : List String
  pub allocate : (uid gid : ℕ) → List String → Result Launcher

pub record UserInfo : Type 0 where
  pub uid : ℕ
  pub gid : ℕ

-- class Allocation. The resources are None after the deallocation.
pub record Allocation : Type 0 where
  pub launchers : Option (List Launcher)
  pub resources : Option (List Request)
  pub user : Option ℕ

pub record Metascheduler : Type 0 where
  pub info_table : Dict Resource
  pub sched_list : List Scheduler
  pub node_map : Dict ManagedNode
  pub node_weight_when_free : Dict ℤ
  pub allocations : List Allocation

-- x.getHostName(), where it has to be the name of a node.
abbrev pub host_of : Resource → Result String
host_of r = key_of r.host_name
