-- ===== src/Graph/Validation/Empty.antt =====
-- When the reachability checks append nothing.
use market_cell.Prelude.{
  each, is_empty-each-mem, ◌≡◌, ◌↔◌, ◌∙◌, String, true, false, not, List, is_empty, mem, arith,
  mem-sorted, keep, mem-keep,
}
use market_cell.Graph.Models.{GraphNode, vertices}
use market_cell.Graph.Closure.{dependency_closure}
use market_cell.Graph.Closure.Correct.{Reach, mem-dependency_closure}
use market_cell.Graph.Validation.{unreached, node_ids}

-- No node is unreached exactly where a walk reaches each.
pub unreached_iff :
    {I : Type 0} (f : String → List I) (roots : List String) (nodes : List GraphNode)
    → ((x : String) → is_empty (f x) ≡ false)
    → (is_empty (each f (unreached roots nodes)) ≡ true)
      ↔ ((j : String) → mem j (node_ids nodes) ≡ true → Reach roots (vertices nodes) j)
unreached_iff f roots nodes h =
    let (there, back) = is_empty-each-mem (λ x. false) f (unreached roots nodes) h in
    let closure = dependency_closure roots (vertices nodes) in
    let inside = λ (j : String).
      mem-sorted j (keep (λ id. not (mem id closure)) (node_ids nodes))
      ∙ mem-keep (λ id. not (mem id closure)) j (node_ids nodes) in
    (
      λ e j m.
          (mem-dependency_closure roots (vertices nodes) j).0 (ground (arith, inside j, there e j)),
      λ q. back (λ j m. ground (
        arith,
        inside j,
        m,
        (mem-dependency_closure roots (vertices nodes) j).1 (q j (ground (arith, inside j, m))),
      )),
    )
