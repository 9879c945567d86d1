-- ===== src/Boxoffice/Nodes/Replies.antt =====
-- When the wait for the replies of all nodes comes to its end.
use flocksy.Prelude.{
  ◌≡◌, ◌≢◌, ◌↔◌, ◌⊎◌, refl, sym, inl, inr, true, false, ℕ, List, [], ◌∷◌, Bool-cases,
}
use flocksy.Bytes.{bytes_eq, bytes_eq_iff}
use flocksy.Boxoffice.Nodes.{NodeMap, update_node, mark_replied, clear_replied, all_replied}

-- The marks after replies of these nodes, in this order.
abbrev pub replies : List (List ℕ) → NodeMap → NodeMap
replies [] nodes = nodes
replies (hash ∷ hashes) nodes = replies hashes (mark_replied hash nodes)

abbrev pub Named : List ℕ → List (List ℕ) → Type 0
Named key [] = ⊥
Named key (hash ∷ hashes) = (key ≡ hash) ⊎ Named key hashes

-- Every node of the map is among these.
abbrev pub AllNamed : List (List ℕ) → NodeMap → Type 0
AllNamed hashes [] = Unit {0}
AllNamed hashes ((key, node) ∷ nodes) = Named key hashes × AllNamed hashes nodes

abbrev Absent : List ℕ → NodeMap → Type 0
Absent hash [] = Unit {0}
Absent hash ((key, node) ∷ nodes) = (key ≢ hash) × Absent hash nodes

-- No two entries have the same key, as in every map.
abbrev pub Distinct : NodeMap → Type 0
Distinct [] = Unit {0}
Distinct ((key, node) ∷ nodes) = Absent key nodes × Distinct nodes

-- Every node has replied or is among these.
abbrev Answered : List (List ℕ) → NodeMap → Type 0
Answered hashes [] = Unit {0}
Answered hashes ((key, node) ∷ nodes) =
    ((node.replied ≡ true) ⊎ Named key hashes) × Answered hashes nodes

bytes_eq-same : (key hash : List ℕ) → key ≡ hash → bytes_eq key hash ≡ true
bytes_eq-same key hash e = (bytes_eq_iff key hash).1 e

bytes_eq-differ : (key hash : List ℕ) → bytes_eq key hash ≡ false → key ≢ hash
bytes_eq-differ key hash h e = cc (bytes_eq-same key hash e)

module _ (hash : List ℕ) where
  Absent-mark :
      (key : List ℕ) (nodes : NodeMap)
      → key ≢ hash
      → Absent key nodes
      → Absent key (mark_replied hash nodes)
  unfolding update_node
  Absent-mark key [] h a = (λ e. h (sym e), tt)
  Absent-mark key ((k, node) ∷ nodes) h (a, as') = elim (Bool-cases (bytes_eq k hash)) [
    | inl same ↦ rw same (a, as')
    | inr other ↦ rw other (a, Absent-mark key nodes h as')
  ]

  Distinct-mark : (nodes : NodeMap) → Distinct nodes → Distinct (mark_replied hash nodes)
  unfolding update_node
  Distinct-mark [] d = (tt, tt)
  Distinct-mark ((k, node) ∷ nodes) (a, d) = elim (Bool-cases (bytes_eq k hash)) [
    | inl same ↦ rw same (a, d)
    | inr other ↦
        rw other (Absent-mark k nodes (bytes_eq-differ k hash other) a, Distinct-mark nodes d)
  ]

  -- A name that no entry has makes no difference.
  Answered-Absent :
      (hashes : List (List ℕ)) (nodes : NodeMap)
      → Absent hash nodes
      → Answered (hash ∷ hashes) nodes ↔ Answered hashes nodes
  Answered-Absent hashes [] a = (λ x. x, λ x. x)
  Answered-Absent hashes ((k, node) ∷ nodes) (a, as') =
      let (to, from) = Answered-Absent hashes nodes as' in
      (
        λ (x, xs). (
          elim x [ inl r ↦ inl r | inr n ↦ elim n [ inl e ↦ absurd (a e) | inr n' ↦ inr n' ] ],
          to xs,
        ),
        λ (x, xs). (elim x [ inl r ↦ inl r | inr n ↦ inr (inr n) ], from xs),
      )

  Answered-mark :
      (hashes : List (List ℕ)) (nodes : NodeMap)
      → Distinct nodes
      → Answered hashes (mark_replied hash nodes) ↔ Answered (hash ∷ hashes) nodes
  unfolding update_node
  Answered-mark hashes [] d = (λ _. tt, λ _. (inl refl, tt))
  Answered-mark hashes ((k, node) ∷ nodes) (a, d) = elim (Bool-cases (bytes_eq k hash)) [
    | inl same ↦
        let e : k ≡ hash = (bytes_eq_iff k hash).0 same in
        let (to, from) = Answered-Absent hashes nodes (rw (← e) a) in
        rw same (λ (x, xs). (inr (inl e), from xs), λ (x, xs). (inl refl, to xs))
    | inr other ↦
        let (to, from) = Answered-mark hashes nodes d in
        rw other (
          λ (x, xs). (elim x [ inl r ↦ inl r | inr n ↦ inr (inr n) ], to xs),
          λ (x, xs). (
            elim x [
              | inl r ↦ inl r
              | inr n ↦ elim n [ inl e ↦ absurd (bytes_eq-differ k hash other e) | inr n' ↦ inr n' ]
            ],
            from xs,
          ),
        )
  ]

all_replied-Answered : (nodes : NodeMap) → (all_replied nodes ≡ true) ↔ Answered [] nodes
unfolding all_replied
all_replied-Answered [] = (λ _. tt, λ _. refl)
all_replied-Answered ((key, node) ∷ nodes) =
    let (to, from) = all_replied-Answered nodes in
    elim (Bool-cases node.replied) [
      | inl yes' ↦ rw yes' (λ h. (inl refl, to h), λ (x, xs). from xs)
      | inr no' ↦ rw no' (λ h. cc, λ (x, xs). elim x [ inl h ↦ cc | inr h ↦ absurd h ])
    ]

all_replied-replies-Answered :
    (hashes : List (List ℕ)) (nodes : NodeMap)
    → Distinct nodes
    → (all_replied (replies hashes nodes) ≡ true) ↔ Answered hashes nodes
all_replied-replies-Answered [] nodes d = all_replied-Answered nodes
all_replied-replies-Answered (hash ∷ hashes) nodes d =
    let (to, from) =
      all_replied-replies-Answered hashes (mark_replied hash nodes) (Distinct-mark hash nodes d) in
    let (there, back) = Answered-mark hash hashes nodes d in (λ h. there (to h), λ h. from (back h))

Absent-clear :
    (hash : List ℕ) (nodes : NodeMap) → Absent hash nodes → Absent hash (clear_replied nodes)
unfolding clear_replied
Absent-clear hash [] a = tt
Absent-clear hash ((k, node) ∷ nodes) (a, as') = (a, Absent-clear hash nodes as')

Distinct-clear : (nodes : NodeMap) → Distinct nodes → Distinct (clear_replied nodes)
unfolding clear_replied
Distinct-clear [] d = tt
Distinct-clear ((k, node) ∷ nodes) (a, d) = (Absent-clear k nodes a, Distinct-clear nodes d)

Answered-clear :
    (hashes : List (List ℕ)) (nodes : NodeMap)
    → Answered hashes (clear_replied nodes) ↔ AllNamed hashes nodes
unfolding clear_replied
Answered-clear hashes [] = (λ x. x, λ x. x)
Answered-clear hashes ((k, node) ∷ nodes) =
    let (to, from) = Answered-clear hashes nodes in
    (λ (x, xs). (elim x [ inl r ↦ absurd cc | inr n ↦ n ], to xs), λ (n, ns). (inr n, from ns))

-- After all marks are cleared, and then nodes reply in some order, the wait for the replies is over
-- exactly when every node of the map is among those that replied: nodes that reply twice, and nodes
-- that the map did not have, make no difference.
pub replies_complete :
    (hashes : List (List ℕ)) (nodes : NodeMap)
    → Distinct nodes
    → (all_replied (replies hashes (clear_replied nodes)) ≡ true) ↔ AllNamed hashes nodes
replies_complete hashes nodes d =
    let (to, from) =
      all_replied-replies-Answered hashes (clear_replied nodes) (Distinct-clear nodes d) in
    let (there, back) = Answered-clear hashes nodes in (λ h. there (to h), λ h. from (back h))
