-- ===== src/Controllers/AgnosticLink/Swapped.antt =====
-- A link and the same link with its ends exchanged.
use faultynet.Shared.{◌≡◌, ◌≢◌, refl, true, arith, eq_iff, ap, str_eq}
use faultynet.Controllers.AgnosticLink.{AgnosticLink, equals, hash_key}

abbrev pub swap : AgnosticLink → AgnosticLink
swap l = record {
  link1_pid = l.link2_pid;
  link1_name = l.link2_name;
  link1_node_name = l.link2_node_name;
  link2_pid = l.link1_pid;
  link2_name = l.link1_name;
  link2_node_name = l.link1_node_name;
  traffic = l.traffic;
}

-- A link between two processes equals the link with its ends exchanged, but what is hashed of the
-- two differs.
swap-equals-hash_key :
    (l : AgnosticLink)
    → l.link1_pid ≢ l.link2_pid
    → (equals l (swap l) ≡ true) × (hash_key l ≢ hash_key (swap l))
unfolding equals hash_key
swap-equals-hash_key l ne =
    let same1 : str_eq l.link1_name l.link1_name ≡ true =
      (eq_iff l.link1_name l.link1_name).1 refl in
    let same2 : str_eq l.link2_name l.link2_name ≡ true =
      (eq_iff l.link2_name l.link2_name).1 refl in
    (ground (arith, same1, same2), λ e. ne (ap (λ k. k.pid1) e))
