-- ===== src/Tests/Samples.antt =====
-- Values that stand for what the program takes from outside, and sample injectors.
use Prim.Native.Char.{Char, code}
use faultynet.Shared.{
  ℕ, ◌*◌, ◌/◌, ◌-◌, String, Bool, ◌&&◌, ◌||◌, ◌==◌, leb, ltb, none, some, List, [], ◌∷◌, pos,
  pos_part, show_ℕ, if◌then◌else◌,
}
use faultynet.Values.{Floats, null, int}
use faultynet.Injectors.Script.{Event, Shell, World}
use faultynet.Injectors.Filtered.{absent}
use faultynet.Injectors.Link.{LinkInjector}
use faultynet.Injectors.Traces.{Merge, done, mine}
use faultynet.Network.{Node, Link}

-- Numbers in thousandths, none of them negative.
abbrev pub thousandths : Floats
thousandths = record {
  Float = ℕ;
  of_int = λ n. pos_part n * 1000;
  of_text = λ s. none;
  show = show_ℕ;
  sub = λ a b. a - b;
  mul = λ a b. a * b / 1000;
  div = λ a b. if b == 0 then none else some (a * 1000 / b);
  trunc = λ a. some (pos (a / 1000));
  lt = ltb;
}

-- A letter, a digit or `_`.
abbrev pub word : Char → Bool
word c =
    let n = code c in
    (leb b'a' n && leb n b'z')
    || (leb b'A' n && leb n b'Z')
    || (leb b'0' n && leb n b'9')
    || n == b'_'

-- Every command succeeds.
abbrev pub quiet : Shell
quiet history command = pos 0

abbrev pub start : World
start = record { active = []; history = [] }

abbrev pub lossy : LinkInjector thousandths
lossy = record {
  target_interface = some "s1-eth1";
  namespace_pid = some 42;
  tag = "f@s1->h1";
  fault_target_protocol = "any";
  fault_target_dst_ports = absent;
  fault_target_src_ports = absent;
  fault_type = "loss";
  fault_pattern = "burst";
  fault_pattern_args = some (int (pos 100) ∷ int (pos 1000) ∷ []);
  fault_args = none;
  pre_injection_time = int (pos 1);
  injection_time = int (pos 3);
  post_injection_time = int (pos 0);
}

-- The same fault, persistent, with no injection time.
abbrev pub endless : LinkInjector thousandths
endless = record lossy { fault_pattern = "persistent"; injection_time = null }

-- A trace with nothing in between.
pub alone : {F : Floats} (xs : List (Event F)) → Merge xs [] xs
alone [] = done
alone (x ∷ xs) = mine (alone xs)

abbrev pub h1 : Node
h1 = record { name = "h1"; pid = 41 }

abbrev pub s1 : Node
s1 = record { name = "s1"; pid = 42 }

abbrev pub cable : String → String → Link
cable a b = record {
  intf1 = record { name = a; node = h1 };
  intf2 = record { name = b; node = s1 };
}

abbrev pub cables : List Link
cables = cable "h1-eth0" "s1-eth1" ∷ cable "h1-eth1" "s1-eth2" ∷ []
