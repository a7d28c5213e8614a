-- ===== src/AncestryTests.antt =====
-- Runs of `checkAncestry`, and its theorem at a concrete path.
use jsonata_go.Prelude.{ℕ, ◌+◌, ◌≡◌, refl, [], ◌∷◌, codes}
use jsonata_go.Prelude.Int.{◌+ℤ◌, ◌-ℤ◌}
use jsonata_go.Syntax.{Position}
use jsonata_go.Ancestry.{Kind}
use jsonata_go.Syntax.{
  Node, name_node, parent_node, binary_node, selector, block_node, no_nodes, one_node,
}
use jsonata_go.Ancestry.Process.{accepted, rejected_at, check_ancestry}
use jsonata_go.Ancestry.Climb.{up, chain}

abbrev at : ℕ → Position
at n = record { offset = n; byte = n; line = 1; column = n + 1 }

-- a.b[%.c].d
abbrev in_predicate : Node
in_predicate =
    binary_node (codes ".")
      (selector
        (binary_node (codes ".") (name_node (codes "a") (at 0)) (name_node (codes "b") (at 2))
          (at 1))
        (binary_node (codes ".") (parent_node (at 4)) (name_node (codes "c") (at 6)) (at 5)) (at 3))
      (name_node (codes "d") (at 9)) (at 8)

-- a.(b.%.%.%)
abbrev too_high : Node
too_high =
    binary_node (codes ".") (name_node (codes "a") (at 0))
      (block_node
        (one_node (chain (codes "b") (at 3) (up (at 9) ∷ up (at 7) ∷ up (at 5) ∷ [])) no_nodes)
        (at 2))
      (at 1)

ancestry_runs :
    (check_ancestry in_predicate ≡ accepted)
    × (check_ancestry too_high ≡ rejected_at Kind.path (at 0))
    × (check_ancestry (parent_node (at 0)) ≡ rejected_at Kind.parent (at 0))
unfolding check_ancestry ◌+ℤ◌ ◌-ℤ◌
ancestry_runs = (refl, refl, refl)
