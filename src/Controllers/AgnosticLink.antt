-- ===== src/Controllers/AgnosticLink.antt =====
-- mininet/fault_controllers/AgnosticLink.py: a link as the controllers' process knows it, and what
-- makes two of them one element of a set.
pub mod Swapped
use faultynet.Shared.{ℕ, String, Bool, ◌&&◌, ◌||◌, ◌==◌, ℤ, str_eq}

pub record AgnosticLink : Type 0 where
  pub link1_pid : ℕ
  pub link1_name : String
  pub link1_node_name : String
  pub link2_pid : ℕ
  pub link2_name : String
  pub link2_node_name : String
  pub traffic : ℤ

-- `{a, b} != {c, d}` is false.
abbrev pub same_pair : {A : Type 0} → (A → A → Bool) → A → A → A → A → Bool
same_pair eq a b c d =
    (eq a c || eq a d) && (eq b c || eq b d) && (eq c a || eq c b) && (eq d a || eq d b)

-- `__eq__` of two links
unfoldable pub equals : AgnosticLink → AgnosticLink → Bool
equals self other =
    same_pair ◌==◌ self.link1_pid self.link2_pid other.link1_pid other.link2_pid
    && same_pair str_eq self.link1_name self.link2_name other.link1_name other.link2_name

-- The tuple that `__hash__` passes on to `hash`.
pub record HashKey : Type 0 where
  pub pid1 : ℕ
  pub name1 : String
  pub node1 : String
  pub pid2 : ℕ
  pub name2 : String
  pub node2 : String

unfoldable pub hash_key : AgnosticLink → HashKey
hash_key self = record {
  pid1 = self.link1_pid;
  name1 = self.link1_name;
  node1 = self.link1_node_name;
  pid2 = self.link2_pid;
  name2 = self.link2_name;
  node2 = self.link2_node_name;
}

module _ (hash : HashKey → ℕ) where
  -- One element of a set: the hashes agree, and so do the links.
  unfoldable pub is_same_element : AgnosticLink → AgnosticLink → Bool
  unfolding equals hash_key
  is_same_element x y = hash (hash_key x) == hash (hash_key y) && equals x y
