-- ===== src/Topology/Listing/Edges.antt =====
-- What a new link changes of the edges that a graph lists (mininet/topo.py).
use mathlib.Core.List.Perm
use mathlib.Core.List.{Perm, perm_middle}
use faultynet.Shared.{
  ℕ, ◌≡◌, refl, ap, ◌∙◌, String, str_eq, eq_iff, true, false, none, List, [], ◌∷◌, ◌++◌,
  append_assoc, Dict, lookup, insert, Numbered, at, put, Bool-cases, inl, inr, arith, lookup-insert,
  ◌==◌, if◌then◌else◌,
}
use faultynet.Shared.Sorting.{after, after_asym, after_irrefl, after_total}
use faultynet.Topology.{LinkInfo, entry_of, set_entry, or_empty}
use faultynet.Topology.Keys.{entry_of-set_entry}
use faultynet.Topology.Listing.{Edge, parallel, row_edges, edges_iter}

abbrev Rows : Type 0
Rows = Dict (Dict (Numbered LinkInfo))

abbrev pub edge_at : String → String → ℕ → LinkInfo → Edge
edge_at src dst k info = record { src = src; dst = dst; key = k; info = info }

put-parallel :
    (src dst : String) (k : ℕ) (info : LinkInfo) (entry : Numbered LinkInfo)
    → at k entry ≡ none
    → parallel src dst (put k info entry) ≡ parallel src dst entry ++ (edge_at src dst k info ∷ [])
unfolding parallel at put
put-parallel src dst k info [] free = refl
put-parallel src dst k info ((j, v) ∷ entry) free =
    let other : (j == k) ≡ false = ground (arith, free) in
    let rest : at k entry ≡ none = ground (arith, free, other) in
    rw other (ap (λ l. edge_at src dst j v ∷ l) (put-parallel src dst k info entry rest))

joined_after {ℓ} :
    {A : Type ℓ} (x : A) (xs ys : List A) → Perm ((xs ++ (x ∷ [])) ++ ys) (x ∷ (xs ++ ys))
joined_after x xs ys = rw (append_assoc xs (x ∷ []) ys) (perm_middle xs ys)

joined_behind {ℓ} :
    {A : Type ℓ} (x : A) (xs : List A) {ys zs : List A}
    → Perm ys (x ∷ zs)
    → Perm (xs ++ ys) (x ∷ (xs ++ zs))
joined_behind x xs h = Perm.trans (Perm.append_left xs h) (perm_middle xs _)

module _ (src dst : String) (new : Numbered LinkInfo) where
  -- The new edge stands somewhere among those of the row.
  row_added :
      (x : Edge) (row : Dict (Numbered LinkInfo))
      → after src dst ≡ false
      → parallel src dst new ≡ parallel src dst (or_empty (lookup dst row) []) ++ (x ∷ [])
      → Perm (row_edges src (insert dst new row)) (x ∷ row_edges src row)
  unfolding row_edges lookup insert parallel
  row_added x [] up e = rw (up, e) (Perm.refl _)
  row_added x ((j, entry) ∷ row) up e = elim (Bool-cases (str_eq j dst)) [
    | inl same ↦
        rw (same, (eq_iff j dst).0 same, up, (rw same at e))
          (joined_after x (parallel src dst entry) _)
    | inr other ↦
        let later = row_added x row up (rw other at e) in
        rw other (elim (Bool-cases (after src j)) [
          | inl down ↦ rw down later
          | inr shown ↦ rw shown (joined_behind x (parallel src j entry) later)
        ])
  ]

  -- An edge that is listed at the other end changes nothing here.
  row_hidden :
      (row : Dict (Numbered LinkInfo))
      → after src dst ≡ true
      → row_edges src (insert dst new row) ≡ row_edges src row
  unfolding row_edges insert
  row_hidden [] down = rw down refl
  row_hidden ((j, entry) ∷ row) down = ground (arith, eq_iff j dst, row_hidden row down)

module _ (src : String) (row1 : Dict (Numbered LinkInfo)) where
  table_added :
      (x : Edge) (edge : Rows)
      → Perm (row_edges src row1) (x ∷ row_edges src (or_empty (lookup src edge) []))
      → Perm (edges_iter (insert src row1 edge)) (x ∷ edges_iter edge)
  unfolding edges_iter lookup insert row_edges
  table_added x [] h = Perm.append_right [] h
  table_added x ((s, row) ∷ edge) h = elim (Bool-cases (str_eq s src)) [
    | inl same ↦
        let here = (eq_iff s src).0 same in
        rw (same, here) (Perm.append_right (edges_iter edge) (rw same at h))
    | inr other ↦ rw other (joined_behind x (row_edges s row) (table_added x edge (rw other at h)))
  ]

  table_same :
      (edge : Rows)
      → row_edges src row1 ≡ row_edges src (or_empty (lookup src edge) [])
      → edges_iter (insert src row1 edge) ≡ edges_iter edge
  unfolding edges_iter lookup insert row_edges
  table_same [] h = ap (λ l. l ++ []) h
  table_same ((s, row) ∷ edge) h = ground (arith, eq_iff s src, table_same edge)

-- The graph after an entry is stored at both ends, seen from the end at which it is listed.
listed_here :
    (src dst : String) (new : Numbered LinkInfo) (x : Edge) (edge : Rows)
    → after src dst ≡ false
    → parallel src dst new ≡ parallel src dst (entry_of src dst edge) ++ (x ∷ [])
    → Perm (edges_iter (set_entry src dst new edge)) (x ∷ edges_iter edge)
unfolding set_entry entry_of
listed_here src dst new x edge up e =
    table_added src _ x edge (row_added src dst new x (or_empty (lookup src edge) []) up e)

listed_there :
    (src dst : String) (new : Numbered LinkInfo) (edge : Rows)
    → after src dst ≡ true
    → edges_iter (set_entry src dst new edge) ≡ edges_iter edge
unfolding set_entry
listed_there src dst new edge down =
    table_same src _ edge (row_hidden src dst new (or_empty (lookup src edge) []) down)

insert_again {ℓ} :
    {V : Type ℓ} (k : String) (v w : V) (d : Dict V) → insert k v (insert k w d) ≡ insert k v d
unfolding insert
insert_again k v w [] = ground (arith, eq_iff k k)
insert_again k v w ((j, u) ∷ d) = ground (arith, eq_iff j k, insert_again k v w d)

-- Both ends of an edge hold the same object.
abbrev pub IsShared : Rows → Type 0
IsShared edge = (a b : String) → entry_of a b edge ≡ entry_of b a edge

-- `edge[dst][src] = edge[src][dst] = entry`
abbrev pub store_both : String → String → Numbered LinkInfo → Rows → Rows
store_both src dst entry edge = set_entry dst src entry (set_entry src dst entry edge)

module _ (src dst : String) (new : Numbered LinkInfo) (edge : Rows) where
  pub store_both-IsShared : IsShared edge → IsShared (store_both src dst new edge)
  store_both-IsShared shared a b = ground (
    arith,
    entry_of-set_entry a b dst src new (set_entry src dst new edge),
    entry_of-set_entry b a dst src new (set_entry src dst new edge),
    entry_of-set_entry a b src dst new edge,
    entry_of-set_entry b a src dst new edge,
    eq_iff dst a,
    eq_iff dst b,
    eq_iff src a,
    eq_iff src b,
    shared a b,
  )

store_twice :
    (a : String) (new : Numbered LinkInfo) (edge : Rows)
    → store_both a a new edge ≡ set_entry a a new edge
unfolding set_entry
store_twice a new edge =
    let row = insert a new (or_empty (lookup a edge) []) in
    rw
      (
        lookup-insert a a row edge,
        (eq_iff a a).1 refl,
        insert_again a new new (or_empty (lookup a edge) []),
        insert_again a row row edge,
      )
      refl

stored_once :
    (a b : String) (new : Numbered LinkInfo) (edge : Rows)
    → a ≡ b
    → store_both a b new edge ≡ set_entry a b new edge
stored_once a b new edge same = rw (← same) (store_twice a new edge)

other_entry :
    (src dst : String) (new : Numbered LinkInfo) (edge : Rows)
    → after src dst ≡ true
    → entry_of dst src (set_entry src dst new edge) ≡ entry_of dst src edge
other_entry src dst new edge down =
    let differ : str_eq src dst ≡ false =
      ground (arith, eq_iff src dst, after_irrefl src, λ (same : src ≡ dst). ap (after src) same) in
    ground (arith, entry_of-set_entry dst src src dst new edge, differ)

-- What the new edge shows of itself, at whichever end it is listed.
abbrev pub end_order : String → String → ℕ → LinkInfo → Edge
end_order src dst k info = if after src dst then edge_at dst src k info else edge_at src dst k info

-- An entry with a new key that is stored at both ends adds one edge to those of the graph.
pub stored_edges :
    (src dst : String) (k : ℕ) (info : LinkInfo) (edge : Rows)
    → IsShared edge
    → at k (entry_of src dst edge) ≡ none
    → Perm
        (edges_iter (store_both src dst (put k info (entry_of src dst edge)) edge))
        (end_order src dst k info ∷ edges_iter edge)
stored_edges src dst k info edge shared free = elim (Bool-cases (after src dst)) [
  | inl down ↦
      let new = put k info (entry_of src dst edge) in
      let there = after_asym src dst down in
      let more = put-parallel dst src k info (entry_of src dst edge) free in
      let old : entry_of dst src (set_entry src dst new edge) ≡ entry_of src dst edge =
        other_entry src dst new edge down ∙ shared dst src in
      rw (down, ← listed_there src dst new edge down)
        (listed_here dst src new _ (set_entry src dst new edge) there (rw old more))
  | inr up ↦
      let new = put k info (entry_of src dst edge) in
      let more = put-parallel src dst k info (entry_of src dst edge) free in
      let here = listed_here src dst new _ edge up more in
      elim (Bool-cases (after dst src)) [
        | inl down ↦ rw (up, listed_there dst src new (set_entry src dst new edge) down) here
        | inr level ↦
            let same = after_total src dst up level in
            let once : store_both src dst new edge ≡ set_entry src dst new edge =
              stored_once src dst new edge same in
            rw (up, once) here
      ]
]
