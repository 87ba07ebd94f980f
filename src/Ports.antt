-- ===== src/Ports.antt =====
-- rekuest_next/api/schema.py, the parts of a port that the models read: `PortKind` and the port
-- classes. A port with `children=None` and one with no children are treated alike by every reader.
use rekuest_next.Prelude.{String, Bool, false, Option, none, some, List, [], str_eq, if◌then◌else◌}
use rekuest_next.Objects.{Object, null}

pub data PortKind : Type 0 where
  int string structure list bool dict float date union enum model memory_structure : PortKind
  interface quantity : PortKind

pub PortKind-discrete : Discrete PortKind
PortKind-discrete = hlevel

-- The fields of a port besides its key, kind and children. `default=None` is `null`, and `choices`
-- are the values of the choices.
pub record PortInfo : Type 0 where
  pub identifier : Option String
  pub nullable : Bool
  pub default : Object
  pub choices : List String
  pub reference_unit : Option String
  pub dimension : Option String

-- the defaults of the fields
abbrev pub no_info : PortInfo
no_info = record {
  identifier = none;
  nullable = false;
  default = null;
  choices = [];
  reference_unit = none;
  dimension = none;
}

mutual
  pub data Port : Type 0 where
    port : (key : String) (kind : PortKind) (info : PortInfo) → Ports → Port

  pub data Ports : Type 0 where
    nil : Ports
    cons : Port → Ports → Ports

abbrev pub key_of : Port → String
key_of (port key kind info ps) = key

abbrev pub kind_of : Port → PortKind
kind_of (port key kind info ps) = kind

abbrev pub info_of : Port → PortInfo
info_of (port key kind info ps) = info

abbrev pub children_of : Port → Ports
children_of (port key kind info ps) = ps

-- children[0], if there is one
abbrev pub first_port : Ports → Option Port
first_port nil = none
first_port (cons p ps) = some p

-- next((port for port in search_scope if port.key == key), None)
unfoldable pub find_port : Ports → String → Option Port
find_port nil k = none
find_port (cons p ps) k = if str_eq (key_of p) k then some p else find_port ps k
