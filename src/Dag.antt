-- ===== src/Dag.antt =====
-- packages/workflows-core/src/types.ts and errors.ts: the workflow graph, what its validation
-- answers, and what it throws. The children model packages/workflows-core/src/parser/dagValidator.ts:
-- `Build` the maps, `Cycle` the depth-first search, `Connect` the reachability loop, `Sort` the
-- topological sort and `Validate` the exported function; the modules below them prove.
pub mod Graph
pub mod Build
pub mod Cycle
pub mod Connect
pub mod Sort
pub mod Validate
mod Examples
use birthub_360_innovation.Base.{String, Bool, List, Option}

pub data StepType : Type 0 where
  trigger_webhook trigger_cron trigger_event http_request condition code transformer
        send_notification agent_execute agent_handoff crm_upsert whatsapp_send google_event ms_event
        ai_text_extract delay :
      StepType

pub data Route : Type 0 where
  always if_true if_false on_success on_failure fallback : Route

pub record DagNode : Type 0 where
  pub id : String
  pub is_trigger : Option Bool
  pub type : Option StepType

pub record DagEdge : Type 0 where
  pub route : Option Route
  pub source : String
  pub target : String

pub record DagInput : Type 0 where
  pub edges : List DagEdge
  pub nodes : List DagNode

pub record DagOptions : Type 0 where
  pub require_connected : Option Bool
  pub require_single_trigger : Option Bool

pub record DagResult : Type 0 where
  pub root_node_ids : List String
  pub topological_order : List String

-- One constructor for each `throw`. `out_of_fuel` is the model's own.
pub data GraphError : Type 0 where
  source_missing target_missing duplicate_id : String → GraphError
  isolated many_roots cyclic : List String → GraphError
  unreachable : String → List String → GraphError
  empty_graph empty_id no_root not_sortable out_of_fuel : GraphError
