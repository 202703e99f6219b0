-- ===== src/Query/Limiter.antt =====
-- `Limiter` of faststdb/query/query_processing/limiter.cc, and `parse_limit_offset` and the end of
-- `parse_processing_topology` of faststdb/query/queryparser.cc, which decide whether a query gets a
-- limiter. The node behind the limiter is a state of any type with its `put`.
pub mod Pass
use fast_stdb.Common.{
  ℕ, ◌+◌, ◌%◌, ◌^◌, Bool, true, false, Option, none, some, List, [], ◌∷◌, ltb, leb, if◌then◌else◌,
  not, ◌||◌, ◌==◌,
}

-- What `Node::put` does to a state: false interrupts the iteration.
abbrev pub Put : Type 0 → Type 0 → Type 0
Put Sample Node = Sample → Node → Bool × Node

pub record Limiter (Node : Type 0) : Type 0 where
  pub limit : ℕ
  pub offset : ℕ
  pub counter : ℕ
  pub next : Node

unfoldable pub new_limiter : {Node : Type 0} → ℕ → ℕ → Node → Limiter Node
new_limiter limit offset next = record { limit = limit; offset = offset; counter = 0; next = next }

unfoldable pub pass : {Node : Type 0} → Limiter Node → Bool × Node → Bool × Limiter Node
pass l (more, next) = (more, record l { counter = (l.counter + 1) % 2 ^ 64; next = next })

unfoldable pub put : {Sample Node : Type 0} → Put Sample Node → Put Sample (Limiter Node)
unfolding pass
put next_put sample l =
    if ltb l.counter l.offset
    then (true, l)
    else if leb l.limit l.counter
    then (false, l)
    else pass l (next_put sample l.next)

unfoldable pub complete : {Node : Type 0} → (Node → Node) → Limiter Node → Limiter Node
complete next_complete l = record l { next = next_complete l.next }

-- The loop of the executor over the samples, which a false from `put` ends.
unfoldable pub run : {Sample Node : Type 0} → Put Sample Node → List Sample → Node → Bool × Node
run node_put [] node = (true, node)
run node_put (s ∷ ss) node =
    let (more, node') = node_put s node in
    let others = run node_put ss node' in if more then others else (false, node')

-- `parse_limit_offset`, where the property tree answers with the optional values of its children.
unfoldable pub parse_limit_offset : Option ℕ → Option ℕ → ℕ × ℕ
parse_limit_offset optlimit optoffset =
    let limit : ℕ = elim optlimit [ none ↦ 0 | some value ↦ value ] in
    let limit' : ℕ = elim optoffset [ none ↦ limit | some value ↦ value ] in (limit', 0)

-- The root of the nodes of a query without functions in `apply`: a limiter before the terminal node,
-- or the terminal node alone where both numbers are zero.
pub data Topology (Node : Type 0) : Type 0 where
  direct : Node → Topology Node
  limited : Limiter Node → Topology Node

unfoldable pub attach_limiter : {Node : Type 0} → ℕ × ℕ → Node → Topology Node
unfolding new_limiter
attach_limiter limoff prev =
    if not (limoff.0 == 0) || not (limoff.1 == 0)
    then limited (new_limiter limoff.0 limoff.1 prev)
    else direct prev

unfoldable pub put_first : {Sample Node : Type 0} → Put Sample Node → Put Sample (Topology Node)
unfolding put
put_first node_put sample (direct node) =
    let (more, node') = node_put sample node in (more, direct node')
put_first node_put sample (limited l) = let (more, l') = put node_put sample l in (more, limited l')

-- The state of the terminal node.
unfoldable pub behind : {Node : Type 0} → Topology Node → Node
behind (direct node) = node
behind (limited l) = l.next
