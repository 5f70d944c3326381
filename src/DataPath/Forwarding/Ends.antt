-- ===== src/DataPath/Forwarding/Ends.antt =====
-- The ends of the tunnels between the nodes of a path.
use Prim.Native.String.{String}
use smf_nwdaf_ext.Common.{
  ℕ, ◌≡◌, ◌≢◌, Bool, true, false, ◌&&◌, not, Option, none, some, List, [], ◌∷◌,
}
use smf_nwdaf_ext.Net.{Ip, to_4}
use smf_nwdaf_ext.Pfcp.{FTeid, OuterHeaderCreation, ForwardingParameters}
use smf_nwdaf_ext.DataPath.Forwarding.{
  UpInterfaceType, n9, PfcpType, SessionInfo, PathNode, Rules, address, address_at, up_interface,
}

abbrev pub End : Type 0
End = ℕ × Option Ip

abbrev pub end_of_header : Option OuterHeaderCreation → Option End
end_of_header none = none
end_of_header (some h) = some (h.teid, h.ipv4_address)

abbrev pub end_of_parameters : Option ForwardingParameters → Option End
end_of_parameters none = none
end_of_parameters (some p) = end_of_header p.outer_header_creation

abbrev pub end_of_fteid : Option FTeid → Option End
end_of_fteid none = none
end_of_fteid (some f) = some (f.teid, f.ipv4_address)

-- Where the FAR of a tunnel's rules sends packets to, and where their PDR takes them from.
abbrev pub sends_to : Option Rules → Option End
sends_to none = none
sends_to (some (pdr, far)) = end_of_parameters far.forwarding_parameters

abbrev pub listens_at : Option Rules → Option End
listens_at none = none
listens_at (some (pdr, far)) = end_of_fteid pdr.pdi.local_fteid

-- The FAR of a tunnel's rules forwards packets and does not drop them.
abbrev pub forwards : Option Rules → Bool
forwards none = false
forwards (some (pdr, far)) = far.apply_action.forw && not far.apply_action.drop

-- The tunnel of the access node, where its address is known.
abbrev pub access_end : ℕ → Option Ip → Option End
access_end teid none = none
access_end teid (some ip) = some (teid, to_4 ip)

-- One end for each direction, and rules that forward to it.
abbrev pub Meets : PathNode → PathNode → Type 0
Meets a b =
    ((e : End) × (sends_to a.up.rules ≡ some e)
      × (listens_at b.up.rules ≡ some e)
      × (forwards a.up.rules ≡ true))
    × ((e : End) × (sends_to b.down.rules ≡ some e)
        × (listens_at a.down.rules ≡ some e)
        × (forwards b.down.rules ≡ true))

abbrev pub Front : Option End → Option PathNode → PathNode → Type 0
Front an none node = (listens_at node.up.rules ≢ none) × (sends_to node.down.rules ≡ an)
Front an (some prev) node = Meets prev node

abbrev pub Back : PathNode → List PathNode → Type 0
Back node [] =
    (sends_to node.up.rules ≡ none)
    × (forwards node.up.rules ≡ true)
    × (listens_at node.down.rules ≡ none)
Back node (next ∷ nodes) = true ≡ true

-- Each node meets the next one, the first one listens and sends downlink packets to the access node
-- at `an`, and the last one forwards uplink packets out of the tunnels and takes downlink packets from
-- there.
abbrev pub Joined : Option End → Option PathNode → List PathNode → Type 0
Joined an prev [] = true ≡ true
Joined an prev (node ∷ nodes) = Front an prev node × Back node nodes × Joined an (some node) nodes

module _ (resolve : String → Option Ip) (T : PfcpType) (S : SessionInfo) where
  abbrev HasAddress : PathNode → UpInterfaceType → Type 0
  HasAddress node t = (ip : Option Ip) × (address_at resolve T S node.interfaces t ≡ address ip)

  abbrev Onward : PathNode → List PathNode → Type 0
  Onward node [] = true ≡ true
  Onward node (next ∷ nodes) = HasAddress node n9

  -- Every tunnel has a PDR with its FAR, and every interface that is asked for has an address: N3 at
  -- the first node, N9 at the others, and at the first too where it is not the only one.
  abbrev pub Ready : Option PathNode → List PathNode → Type 0
  Ready prev [] = true ≡ true
  Ready prev (node ∷ nodes) =
      ((r : Rules) × (node.up.rules ≡ some r))
      × ((r : Rules) × (node.down.rules ≡ some r))
      × HasAddress node (up_interface resolve T S prev)
      × Onward node nodes
      × Ready (some node) nodes

  abbrev pub At : PathNode → UpInterfaceType → Option Ip → Type 0
  At node t ip = address_at resolve T S node.interfaces t ≡ address ip
