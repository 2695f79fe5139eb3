-- ===== src/Topology/Torus.antt =====
-- mininet/topolib.py: `TorusTopo`.
pub mod Built
use faultynet.Shared.{
  ℕ, zero, suc, ◌+◌, ◌*◌, ◌/◌, ◌%◌, ◌==◌, ltb, String, ◌||◌, none, [], ◌∷◌, Result, ok, err,
  exception, ◌>>=◌, cat, show_ℕ, if◌then◌else◌,
}
use faultynet.Addresses.{hex_digit}
use faultynet.Topology.{Topo, add_host, add_switch}
use faultynet.Topology.Trees.{join}

-- A round for each digit; a number has at most as many digits as its value plus one.
hex_digits : ℕ → ℕ → String → String
hex_digits zero n rest = rest
hex_digits (suc fuel) n rest =
    let done = String.◌∷◌ (hex_digit n) rest in
    let more = hex_digits fuel (n / 16) (String.◌∷◌ (hex_digit (n % 16)) rest) in
    if ltb n 16 then done else more

-- `'%x' % dpid`
unfoldable pub hex_text : ℕ → String
unfolding hex_digits
hex_text n = hex_digits (suc n) n ""

-- `'%dx%d' % ( i + 1, j + 1 )`
abbrev pub location : ℕ → ℕ → String
location i j = cat (show_ℕ (i + 1) ∷ "x" ∷ show_ℕ (j + 1) ∷ [])

abbrev pub switch_name : ℕ → ℕ → String
switch_name i j = cat ("s" ∷ location i j ∷ [])

-- `genHostName`
abbrev pub gen_host_name : ℕ → String → ℕ → String
gen_host_name n loc k =
    if n == 1 then cat ("h" ∷ loc ∷ []) else cat ("h" ∷ loc ∷ "x" ∷ show_ℕ k ∷ [])

-- The hosts of a switch from the k-th on
unfoldable pub torus_hosts : ℕ → ℕ → ℕ → ℕ → ℕ → Topo → Result Topo
unfolding add_host join
torus_hosts n i j k zero t = ok t
torus_hosts n i j k (suc m) t =
    let host = gen_host_name n (location i j) (k + 1) in
    join host (switch_name i j) none none (add_host host [] t) >>= torus_hosts n i j (suc k) m

abbrev pub dpid : ℕ → ℕ → ℕ
dpid i j = (i + 1) * 256 + (j + 1)

unfoldable pub torus_switch : ℕ → ℕ → ℕ → Topo → Result Topo
unfolding add_switch hex_text torus_hosts
torus_switch n i j t =
    torus_hosts n i j 0 n (add_switch (switch_name i j) (("dpid", hex_text (dpid i j)) ∷ []) t)

-- The interior: a row from the j-th switch on, and the rows from the i-th on.
unfoldable pub torus_row : ℕ → ℕ → ℕ → ℕ → Topo → Result Topo
unfolding torus_switch
torus_row n i j zero t = ok t
torus_row n i j (suc m) t = torus_switch n i j t >>= torus_row n i (suc j) m

unfoldable pub torus_rows : ℕ → ℕ → ℕ → ℕ → Topo → Result Topo
unfolding torus_row
torus_rows n y i zero t = ok t
torus_rows n y i (suc m) t = torus_row n i 0 y t >>= torus_rows n y (suc i) m

-- The links to the next switch in both directions.
unfoldable pub connect_row : ℕ → ℕ → ℕ → ℕ → ℕ → Topo → Result Topo
unfolding join
connect_row x y i j zero t = ok t
connect_row x y i j (suc m) t =
    join (switch_name i j) (switch_name i ((j + 1) % y)) none none t
    >>= join (switch_name i j) (switch_name ((i + 1) % x) j) none none
    >>= connect_row x y i (suc j) m

unfoldable pub connect_rows : ℕ → ℕ → ℕ → ℕ → Topo → Result Topo
unfolding connect_row
connect_rows x y i zero t = ok t
connect_rows x y i (suc m) t = connect_row x y i 0 y t >>= connect_rows x y (suc i) m

-- `TorusTopo.build`
unfoldable pub torus : ℕ → ℕ → ℕ → Topo → Result Topo
unfolding torus_rows connect_rows
torus x y n t =
    let built = torus_rows n y 0 x t >>= connect_rows x y 0 x in
    if ltb x 3 || ltb y 3 then err exception else built
