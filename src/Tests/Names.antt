-- ===== src/Tests/Names.antt =====
-- Named data: stores, tables and packets.
use aqua_sim_ng.Address.{address_key}
use aqua_sim_ng.Ndn.Fib.{FibEntry, best_route, interest_recv, new_fib, set_forward_strategy}
use aqua_sim_ng.Ndn.Fib.Hops.{Among, Route, add_routes, interest_recv-best_route, routes_of}
use aqua_sim_ng.Ndn.NamedData.{
  Env, NamedData, NdnPacket, fifo_store, ndn_data, ndn_discovery, ndn_interest, recv_all,
}
use aqua_sim_ng.Ndn.NamedData.Silent.{recv_all-IsSilent}
use aqua_sim_ng.Ndn.Payload.{data_payload, interest_and_data}
use aqua_sim_ng.Ndn.Payload.Split.{interest_and_data-data_payload}
use aqua_sim_ng.Ndn.Pit.{get_pit_entry, new_pit}
use aqua_sim_ng.Ndn.Pit.Requesters.{
  Ascends, Request, add_requests, add_requests-askers, askers, has,
}
use aqua_sim_ng.Ndn.Store.Fifo.{get_fifo_entry, new_fifo}
use aqua_sim_ng.Ndn.Store.Fifo.Window.{IsAnswer, add_all, get-window, window}
use aqua_sim_ng.Ndn.Store.Lru.{new_lru}
use aqua_sim_ng.Ndn.Store.Lru.Nodes.{without}
use aqua_sim_ng.Ndn.Store.Lru.Refine.{
  StoreCall, add_call, get_call, lru_run, lru_run-recent_run, recent_run,
}
use aqua_sim_ng.Packet.{default_ash}
use aqua_sim_ng.Prelude.{
  All, List, [], arith, inl, inr, length, none, refl, some, true, ℕ, ◌∷◌, ◌≡◌, ◌≤◌,
}
use aqua_sim_ng.Prelude.Map.{find}

-- Three entries, two of them of name 7.
abbrev data_added : List (ℕ × ℕ)
data_added = (7, 70) ∷ (8, 80) ∷ (7, 71) ∷ []

get-window_example :
    ((add_all data_added (new_fifo 2)).cache ≡ window 2 data_added)
    × IsAnswer 7 (window 2 data_added) (get_fifo_entry 7 (add_all data_added (new_fifo 2)))
get-window_example = get-window 2 data_added 7

-- The name asked for stays, and the other one goes.
abbrev calls : List StoreCall
calls = add_call 7 70 ∷ add_call 8 80 ∷ get_call 7 ∷ add_call 9 90 ∷ get_call 8 ∷ get_call 7 ∷ []

recent_run_run : recent_run 2 calls [] ≡ some 70 ∷ none ∷ some 70 ∷ []
unfolding recent_run find without
recent_run_run = refl

lru_run-recent_run_example : lru_run calls (new_lru 2) ≡ some (recent_run 2 calls [])
lru_run-recent_run_example = lru_run-recent_run 2 calls

-- Nodes 5, 3 and 5 ask for name 7, node 4 for name 8.
abbrev requests : List Request
requests = (1, 7, 5) ∷ (2, 8, 4) ∷ (3, 7, 3) ∷ (4, 7, 5) ∷ []

add_requests-askers_example :
    Ascends (get_pit_entry 7 (add_requests requests (new_pit 10)))
    × ((x : ℕ)
        → has x (get_pit_entry 7 (add_requests requests (new_pit 10))) ≡ has x (askers 7 requests))
add_requests-askers_example = add_requests-askers 10 7 requests

-- Two ways to name 7.
abbrev routes : List Route
routes = (7, 2, 10) ∷ (8, 4, 1) ∷ (7, 3, 20) ∷ []

interest_recv-best_route_example :
    (best : FibEntry) × (interest_recv 7
        (add_routes routes (set_forward_strategy best_route new_fib))
      ≡ best.0 ∷ [])
    × Among best ((2, 10) ∷ (3, 20) ∷ [])
    × All (λ (x : FibEntry). x.1 ≤ best.1) ((2, 10) ∷ (3, 20) ∷ [])
unfolding routes_of
interest_recv-best_route_example = interest_recv-best_route 7 routes (2, 10) ((3, 20) ∷ []) refl

interest_and_data-data_payload_example :
    (left : List ℕ) × (interest_and_data 4096 (data_payload (97 ∷ 98 ∷ []) (99 ∷ []))
      ≡ some (0, 0, left))
interest_and_data-data_payload_example =
    interest_and_data-data_payload 4096 (97 ∷ 98 ∷ []) (99 ∷ [])
      ((ground arith, ground arith), ((ground arith, ground arith), tt))

-- A buffer for each packet.
abbrev env_with : ℕ → Env
env_with p = record { now = 5; buffer = p; tx_time = λ bs. length bs }

-- A packet of node 1 for node 2.
abbrev frame : ℕ → List ℕ → NdnPacket
frame p_type bs = record {
  ash = record default_ash { s_addr = 1; d_addr = 2 };
  p_type = p_type;
  bytes = bs;
}

-- Node 2 is told of a name, is then asked for it, and gets data.
abbrev inputs : List (Env × NdnPacket)
inputs =
    (env_with 4096, frame ndn_discovery (97 ∷ 0 ∷ []))
    ∷ (env_with 8192, frame ndn_interest (97 ∷ 0 ∷ []))
    ∷ (env_with 12288, frame ndn_data (97 ∷ 124 ∷ 98 ∷ 0 ∷ []))
    ∷ []

abbrev named : NamedData
named = record {
  address = 2;
  has_cache = true;
  store = some (fifo_store (new_fifo 4));
  fib = new_fib;
  pit = new_pit 10;
  buffers = [];
  sent = [];
}

recv_all-IsSilent_example :
    (s' : NamedData) × (recv_all inputs named ≡ some s') × (s'.pit.table ≡ []) × (s'.sent ≡ [])
unfolding find
recv_all-IsSilent_example =
    recv_all-IsSilent inputs named refl refl
      (inr (inl refl), (inr (inl refl), (inr (inr (inr (inl refl))), tt)))
      (refl, (ground arith, (ground arith, tt)), (refl, (ground arith, tt), (refl, tt, tt)))
