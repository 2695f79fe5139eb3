-- ===== src/Network.antt =====
-- What the fault controllers read of a `Mininet` object (mininet/net.py, mininet/node.py,
-- mininet/link.py): the nodes by kind and the links between their interfaces.
use faultynet.Shared.{ℕ, String, List}

pub record Node : Type 0 where
  pub name : String
  pub pid : ℕ

pub record Intf : Type 0 where
  pub name : String
  pub node : Node

pub record Link : Type 0 where
  pub intf1 : Intf
  pub intf2 : Intf

pub record Net : Type 0 where
  pub hosts : List Node
  pub switches : List Node
  pub controllers : List Node
  pub links : List Link
