-- ===== src/Aodv/Reply/Collect.antt =====
-- QueueRrepCandidate for the copies of a request, and SendCollectedRrep after them.
use aqua_sim_ng.Address.{address_key}
use aqua_sim_ng.Aodv.Header.{AodvHeader}
use aqua_sim_ng.Aodv.Reply.{candidate_of, is_better_rreq_candidate, queue_rrep_candidate}
use aqua_sim_ng.Aodv.Reply.Answered.{Answered}
use aqua_sim_ng.Aodv.Reply.Best.{IsAsGood}
use aqua_sim_ng.Aodv.State.{Env, Node, RequestKey, RreqCandidate, RreqCollection, request_key}
use aqua_sim_ng.Prelude.{All, List, [], if◌then◌else◌, true, ℕ, ◌∷◌, ◌≡◌, ◌⊎◌}
use aqua_sim_ng.Prelude.Map.{insert}

-- A request as it is heard: the node's surroundings, the header and the neighbour.
abbrev pub Heard : Type 0
Heard = Env × AodvHeader × ℕ

abbrev pub heard_candidate : Heard → RreqCandidate
heard_candidate x = candidate_of x.0 x.1 x.2

-- Copies of a request that are heard one after the other.
unfoldable pub hear : RequestKey → List Heard → Node → Node
hear key [] n = n
hear key (x ∷ xs) n = hear key xs (queue_rrep_candidate x.0 key x.1 x.2 n)

unfoldable pub offers : List RreqCandidate → RreqCandidate → RreqCandidate
offers [] b = b
offers (c ∷ cs) b = offers cs (if is_better_rreq_candidate c b then c else b)

abbrev pub IsOneOf : RreqCandidate → List RreqCandidate → Type 0
IsOneOf b [] = ⊥
IsOneOf b (c ∷ cs) = (b ≡ c) ⊎ IsOneOf b cs

-- As good as every candidate of the list.
abbrev pub IsBest : RreqCandidate → List RreqCandidate → Type 0
IsBest b cs = All (IsAsGood b) cs

abbrev collection : RreqCandidate → RreqCollection
collection b = record { best = b; has_candidate = true }

-- The node with a candidate in the collection.
abbrev with_best : RequestKey → RreqCandidate → Node → Node
with_best key b n = record n { rreq_collections = insert key (collection b) n.rreq_collections }

abbrev better_of : RreqCandidate → RreqCandidate → RreqCandidate
better_of c b = if is_better_rreq_candidate c b then c else b
