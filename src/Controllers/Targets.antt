-- ===== src/Controllers/Targets.antt =====
-- `BaseFaultController.get_target_arguments_from_fault_dict`: protocol and ports of a fault.
use faultynet.Shared.{
  String, Option, none, some, List, [], ◌∷◌, ◌==◌, any, str_eq, Result, ok, err, attribute_error,
  pos, negsuc, if◌then◌else◌,
}
use faultynet.Values.{Floats}
use faultynet.Injectors.Filtered.{Ports, absent, single, several}

-- The object under `target_traffic:`.
pub record Traffic (F : Floats) : Type 0 where
  pub protocol : Option String
  pub src_port : Ports F
  pub dst_port : Ports F

abbrev pub known_protocols : List String
known_protocols = "ICMP" ∷ "IGMP" ∷ "IP" ∷ "TCP" ∷ "UDP" ∷ "IPv6" ∷ "IPv6-ICMP" ∷ "any" ∷ []

pub record Targets (F : Floats) : Type 0 where
  pub protocol : String
  pub src_port : Ports F
  pub dst_port : Ports F

-- A protocol that is missing or unknown stands for all.
unfoldable pub protocol_of : Option String → String
protocol_of none = "any"
protocol_of (some name) = if any (str_eq name) known_protocols then name else "any"

module _ {F : Floats} where
  -- `0` stands for no port.
  unfoldable pub port_of : Ports F → Ports F
  port_of absent = absent
  port_of (single (pos n)) = if n == 0 then absent else single (pos n)
  port_of (single (negsuc n)) = single (negsuc n)
  port_of (several vs) = several vs

  -- `none` where the key is missing, `some none` where it has no value.
  unfoldable pub get_target_arguments : Option (Option (Traffic F)) → Result (Targets F)
  unfolding protocol_of port_of
  get_target_arguments none = ok (record { protocol = "any"; src_port = absent; dst_port = absent })
  get_target_arguments (some none) = err attribute_error
  get_target_arguments (some (some t)) = ok (record {
    protocol = protocol_of t.protocol;
    src_port = port_of t.src_port;
    dst_port = port_of t.dst_port;
  })
