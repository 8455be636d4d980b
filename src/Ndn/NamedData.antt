-- ===== src/Ndn/NamedData.antt =====
-- model/ndn/named-data.h and .cc, class NamedData, named-data-header.h and name-discovery.cc. A buffer is
-- its address and its bytes. none is a read past the end of a buffer, or of an iterator or a store that
-- is not there.
pub mod Silent
use aqua_sim_ng.Address.{broadcast}
use aqua_sim_ng.Ndn.Fib.{Fib, add_fib_entry, interest_recv}
use aqua_sim_ng.Ndn.Payload.{data_payload, interest_and_data, shorten_name_prefix, strlen}
use aqua_sim_ng.Ndn.Pit.{Pit, add_pit_entry, get_pit_entry, remove_pit_entry}
use aqua_sim_ng.Ndn.Store.Fifo.{CsFifo, add_fifo_entry, get_fifo_entry}
use aqua_sim_ng.Ndn.Store.Lru.{CsLru, add_lru_entry, get_lru_entry}
use aqua_sim_ng.Packet.{AquaSimHeader, default_ash, down}
use aqua_sim_ng.Prelude.{
  Bool, List, Option, [], drop, false, get_or, if◌then◌else◌, is_empty, leb, length, ltb, none, not,
  some, take, true, ℕ, ◌%◌, ◌&&◌, ◌++◌, ◌+◌, ◌-◌, ◌==◌, ◌^◌, ◌||◌, ◌∷◌,
}

-- `NamedDataHeader::pType`
abbrev pub ndn_interest : ℕ
ndn_interest = 0

abbrev pub ndn_data : ℕ
ndn_data = 1

abbrev pub ndn_discovery : ℕ
ndn_discovery = 2

-- What the layer reads of a packet: two headers, and the bytes below them.
pub record NdnPacket : Type 0 where
  pub ash : AquaSimHeader
  pub p_type : ℕ
  pub bytes : List ℕ

pub data ContentStore : Type 0 where
  fifo_store : CsFifo → ContentStore
  lru_store : CsLru → ContentStore

-- The tables, the buffers made so far, none of which is freed, and the packets handed to SendDown.
pub record NamedData : Type 0 where
  pub address : ℕ
  pub has_cache : Bool
  pub store : Option ContentStore
  pub fib : Fib
  pub pit : Pit
  pub buffers : List (ℕ × List ℕ)
  pub sent : List NdnPacket

-- The clock, the address that `new` gives, and GetTxTime of the MAC layer.
pub record Env : Type 0 where
  pub now : ℕ
  pub buffer : ℕ
  pub tx_time : List ℕ → ℕ

-- `GetEntry` of the store; 0 is the null pointer.
unfoldable pub store_get : ℕ → Option ContentStore → Option (Option ContentStore × ℕ)
unfolding get_fifo_entry get_lru_entry
store_get key none = none
store_get key (some (fifo_store c)) = some (some (fifo_store c), get_or (get_fifo_entry key c) 0)
store_get key (some (lru_store c)) = elim (get_lru_entry key c) [
  | none ↦ none
  | some (c', d) ↦ some (some (lru_store c'), get_or d 0)
]

-- `AddEntry` of the store.
unfoldable pub store_add : ℕ → ℕ → Option ContentStore → Option (Option ContentStore)
unfolding add_fifo_entry add_lru_entry
store_add key data' none = none
store_add key data' (some (fifo_store c)) = some (some (fifo_store (add_fifo_entry key data' c)))
store_add key data' (some (lru_store c)) = elim (add_lru_entry key data' c) [
  | none ↦ none
  | some c' ↦ some (some (lru_store c'))
]

-- The bytes at a pointer into some buffer.
unfoldable pub bytes_at : ℕ → List (ℕ × List ℕ) → List ℕ
bytes_at p [] = []
bytes_at p ((base, bs) ∷ buffers) =
    let older = bytes_at p buffers in
    if leb base p && ltb p (base + length bs) then drop (p - base) bs else older

-- The string at a pointer, without its NUL.
unfoldable pub string_at : ℕ → List (ℕ × List ℕ) → Option (List ℕ)
unfolding bytes_at strlen
string_at p buffers =
    let bs = bytes_at p buffers in elim (strlen bs) [ none ↦ none | some n ↦ some (take n bs) ]

-- `CreateInterest`
abbrev pub create_interest : Env → List ℕ → NdnPacket
create_interest env name = record {
  ash = record default_ash { direction = down; error_flag = false; tx_time = env.tx_time name };
  p_type = ndn_interest;
  bytes = name;
}

-- `CreateData`
abbrev pub create_data : Env → List ℕ → List ℕ → NdnPacket
create_data env name data' = record {
  ash = record default_ash {
    direction = down;
    error_flag = false;
    tx_time = env.tx_time (data_payload name data');
  };
  p_type = ndn_data;
  bytes = data_payload name data';
}

-- `CreateNameDiscovery`
abbrev pub create_name_discovery : Env → ℕ → List ℕ → NdnPacket
create_name_discovery env address name = record {
  ash = record default_ash {
    direction = down;
    error_flag = false;
    tx_time = env.tx_time name;
    s_addr = address;
  };
  p_type = ndn_discovery;
  bytes = name;
}

-- The headers that GetInterestPktStr, GetInterestAndDataStr and ProcessNameDiscovery put back.
abbrev pub default_packet : List ℕ → NdnPacket
default_packet bs = record { ash = default_ash; p_type = ndn_interest; bytes = bs }

-- The loop of `SendMultiplePackets`: a packet as it is when SendDown is called.
unfoldable pub send_multiple_packets : NdnPacket → List ℕ → List NdnPacket → List NdnPacket
send_multiple_packets pkt [] sent = sent
send_multiple_packets pkt (a ∷ addresses) sent =
    let pkt' = record pkt { ash = record pkt.ash { d_addr = a } } in
    send_multiple_packets pkt' addresses (sent ++ pkt' ∷ [])

-- `RecvCheck`
unfoldable pub recv_check : ℕ → ℕ → ℕ → Bool
recv_check address d_addr p_type =
    d_addr == address || d_addr == broadcast || p_type == ndn_discovery

-- An interest that no cached data satisfies.
unfoldable pub forward_interest : Env → ℕ → List ℕ → NamedData → NamedData × Bool
unfolding interest_recv add_pit_entry send_multiple_packets
forward_interest env s_addr bs s =
    let addresses = interest_recv env.buffer s.fib in
    if is_empty addresses
    then (s, false)
    else let (pit', added) = add_pit_entry env.now env.buffer s_addr s.pit in
      if added
      then (
        record s { pit = pit'; sent = send_multiple_packets (default_packet bs) addresses s.sent },
        true,
      )
      else (record s { pit = pit' }, true)

-- The case NDN_INTEREST of `Recv`.
unfoldable pub recv_interest : Env → ℕ → List ℕ → NamedData → Option (NamedData × Bool)
unfolding store_get string_at forward_interest
recv_interest env s_addr bs s =
    let s1 = record s { buffers = (env.buffer, bs) ∷ s.buffers } in
    if s.has_cache
    then elim (store_get env.buffer s.store) [
      | none ↦ none
      | some (store', found) ↦
          let s2 = record s1 { store = store' } in
          if found == 0
          then some (forward_interest env s_addr bs s2)
          else elim (string_at env.buffer s1.buffers) [
            | none ↦ none
            | some name ↦ elim (string_at found s1.buffers) [
              | none ↦ none
              | some data' ↦
                  some (record s2 { sent = s.sent ++ create_data env name data' ∷ [] }, true)
            ]
          ]
    ]
    else some (forward_interest env s_addr bs s1)

-- What the case NDN_DATA does with the pointers of the name and the data.
unfoldable pub satisfy : ℕ → ℕ → List ℕ → NamedData → Option (NamedData × Bool)
unfolding get_pit_entry store_add send_multiple_packets remove_pit_entry
satisfy name data' bs s =
    let addresses = get_pit_entry name s.pit in
    let stored : Option (Option ContentStore) =
      if s.has_cache then store_add name data' s.store else some s.store in
    if is_empty addresses then some (s, false) else elim stored [
      | none ↦ none
      | some store' ↦ some (
        record s {
          store = store';
          sent = send_multiple_packets (default_packet bs) addresses s.sent;
          pit = (remove_pit_entry name s.pit).0;
        },
        true,
      )
    ]

-- The case NDN_DATA of `Recv`.
unfoldable pub recv_data : Env → List ℕ → NamedData → Option (NamedData × Bool)
unfolding interest_and_data satisfy
recv_data env bs s = elim (interest_and_data env.buffer bs) [
  | none ↦ none
  | some (name, data', left) ↦
      satisfy name data' bs (record s { buffers = (env.buffer, left) ∷ s.buffers })
]

-- The case NDN_DISCOVERY of `Recv`. `ProcessNameDiscovery` gives the address of a header that it never
-- reads from the packet. AddEntry's cost is 0 by default.
unfoldable pub recv_discovery : Env → List ℕ → NamedData → Option (NamedData × Bool)
unfolding shorten_name_prefix add_fib_entry
recv_discovery env bs s = elim (shorten_name_prefix bs) [
  | none ↦ none
  | some left ↦ some (
    record s {
      buffers = (env.buffer, left) ∷ s.buffers;
      fib = add_fib_entry env.buffer default_ash.s_addr 0 s.fib;
    },
    true,
  )
]

-- `Recv`
unfoldable pub recv : Env → NdnPacket → NamedData → Option (NamedData × Bool)
unfolding recv_check recv_interest recv_data recv_discovery
recv env pkt s =
    let num_forwards = (pkt.ash.num_forwards + 1) % 2 ^ 16 in
    if pkt.ash.s_addr == s.address && ltb 1 num_forwards
    then some (s, false)
    else if not (recv_check s.address pkt.ash.d_addr pkt.p_type)
    then some (s, false)
    else if pkt.p_type == ndn_interest
    then recv_interest env pkt.ash.s_addr pkt.bytes s
    else if pkt.p_type == ndn_data
    then recv_data env pkt.bytes s
    else if pkt.p_type == ndn_discovery
    then recv_discovery env pkt.bytes s
    else some (s, false)

-- Packets received one after the other.
unfoldable pub recv_all : List (Env × NdnPacket) → NamedData → Option NamedData
unfolding recv
recv_all [] s = some s
recv_all ((env, pkt) ∷ inputs) s = elim (recv env pkt s) [
  | none ↦ none
  | some (s', b) ↦ recv_all inputs s'
]
