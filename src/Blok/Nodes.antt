-- ===== src/Blok/Nodes.antt =====
-- The inputs of rekuest_next/api/schema.py that a blok is made of: component nodes, their props, the calls
-- and arguments in them, and the dependencies with the states that a blok demands of them. A tuple that is
-- `None` and an empty one are treated alike by every reader, and so are a missing dynamic value and one
-- without a path.
use rekuest_next.Prelude.{String, Option, none, List}
use rekuest_next.Objects.{Object}

-- An `AgentCallInput` and a `UtilCallInput` stand in optional fields.
mutual
  pub data AgentCall : Type 0 where
    no_agent_call : AgentCall
    agent_call : (dependency operation : String) → Arguments → AgentCall

  pub data UtilCall : Type 0 where
    no_util_call : UtilCall
    util_call : (operation : String) → Arguments → UtilCall

  -- `ActionArgumentInput`
  pub data Argument : Type 0 where
    argument :
        (key : Option String) (value_literal : Option Object) (value_path : Option String)
        → AgentCall
        → UtilCall
        → (value_list value_dict : Arguments) → Argument

  pub data Arguments : Type 0 where
    no_arguments : Arguments
    also : Argument → Arguments → Arguments

-- `ComponentPropInput`
pub record Prop : Type 0 where
  pub key : String
  pub static_value : Option String
  pub declares_value : Option String
  pub dynamic_path : Option String
  pub in_agent_call : AgentCall
  pub in_util_call : UtilCall

abbrev pub plain_prop : String → Prop
plain_prop key = record {
  key = key;
  static_value = none;
  declares_value = none;
  dynamic_path = none;
  in_agent_call = no_agent_call;
  in_util_call = no_util_call;
}

-- `ComponentNodeInput`
mutual
  pub data Component : Type 0 where
    node : (id component : String) → List Prop → Components → Component

  pub data Components : Type 0 where
    no_nodes : Components
    before : Component → Components → Components

-- `PortMatchInput`, as the validation reads it
mutual
  pub data PortMatch : Type 0 where
    port_match : (key : Option String) → PortMatches → PortMatch

  pub data PortMatches : Type 0 where
    no_matches : PortMatches
    match_before : PortMatch → PortMatches → PortMatches

-- `StateDependencyInput`, with the matches of its demand
pub record StateDependency : Type 0 where
  pub key : String
  pub matches : PortMatches

-- `AgentDependencyInput`
pub record AgentDependency : Type 0 where
  pub key : String
  pub app : Option String
  pub state_dependencies : List StateDependency
