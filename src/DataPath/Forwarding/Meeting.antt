-- ===== src/DataPath/Forwarding/Meeting.antt =====
-- The tunnels between the nodes of a path: what one end sends to, the other end listens at.
use Prim.Native.String.{String}
use smf_nwdaf_ext.Common.{◌≡◌, refl, sym, subst, Option, none, some, List, [], ◌∷◌, length, arith}
use smf_nwdaf_ext.Net.{Ip}
use smf_nwdaf_ext.DataPath.Forwarding.{
  InnerPdi, full_pdi, empty_pdi, PfcpType, SessionInfo, PathNode, Status, going, returned, crashed,
  set_up_link, set_down_link, set_up_node, set_up_path, next_step, head_of, activate_pdrs,
  activate_dc_pdrs,
}
use smf_nwdaf_ext.DataPath.Forwarding.Ends.{End, Ready, access_end, Front, Back, Joined}
use smf_nwdaf_ext.DataPath.Forwarding.Rounds.{
  up_last, up_inner, down_first_last, down_first, down_last, down_between, step_going, Facing,
}

module _ (resolve : String → Option Ip) (T : PfcpType) (S : SessionInfo) where
  abbrev an : Option End
  an = access_end S.an_teid S.an_ip

  -- What one round leaves.
  abbrev Round : Option PathNode → List PathNode → PathNode × Status → Type 0
  Round prev nodes s =
      (s.1 ≡ going) × Front an prev s.0 × Back s.0 nodes × Facing resolve T S (some s.0) nodes

  down_of_up :
      (node : PathNode) (prev next : Option PathNode)
      → ((set_up_link resolve T S node prev next).0.down ≡ node.down)
        × ((set_up_link resolve T S node prev next).0.interfaces ≡ node.interfaces)
  unfolding set_up_link
  down_of_up node prev next = (refl, refl)

  one-Round :
      (inner : InnerPdi) (prev : Option PathNode) (node : PathNode) (nodes : List PathNode)
      → Facing resolve T S prev (node ∷ nodes)
      → Ready resolve T S prev (node ∷ nodes)
      → Round prev nodes (set_up_node resolve T S inner node prev (head_of resolve T S nodes))
  unfolding set_up_node set_up_link set_down_link
  one-Round inner none node [] face ((r, u), (q, d), (ip, a), onward, rest) =
      let up = up_last resolve T S node none r ip u a in
      let s1 = set_up_link resolve T S node none none in
      let down = down_first_last resolve T S inner s1.0 q d in
      subst (Round none []) (sym (step_going resolve T S inner none none s1 up.0))
        (down.0, (λ e. ground (arith, up.1), down.2), (up.2, up.3, down.1), refl)
  one-Round inner none node (next ∷ nodes) face ((r, u), (q, d), (ip, a), (ip9, b), rest) =
      let up = up_inner resolve T S node none next r ip rest.2.0 u a rest.2.1 in
      let s1 = set_up_link resolve T S node none (some next) in
      let down = down_first resolve T S inner s1.0 next q ip9 d b in
      subst (Round none (next ∷ nodes))
        (sym (step_going resolve T S inner none (some next) s1 up.0))
        (
          down.0,
          (λ e. ground (arith, up.1), down.2),
          refl,
          ((rest.2.0, rest.2.1, up.2, up.3), (ip9, b, down.1)),
        )
  one-Round inner (some prev) node [] (facing_up, facing_down)
        ((r, u), (q, d), (ip, a), onward, rest) =
      let up = up_last resolve T S node (some prev) r facing_up.0 u facing_up.1 in
      let s1 = set_up_link resolve T S node (some prev) none in
      let down = down_last resolve T S inner s1.0 prev q facing_down.0 d facing_down.1 in
      subst (Round (some prev) []) (sym (step_going resolve T S inner (some prev) none s1 up.0)) (
        down.0,
        (
          ((node.up.teid, facing_up.0), facing_up.2, up.1, facing_up.3),
          ((prev.down.teid, facing_down.0), down.2, facing_down.2, down.3),
        ),
        (up.2, up.3, down.1),
        refl,
      )
  one-Round inner (some prev) node (next ∷ nodes) (facing_up, facing_down)
        ((r, u), (q, d), (ip, a), (ip9, b), rest) =
      let up =
        up_inner resolve T S node (some prev) next r facing_up.0 rest.2.0 u facing_up.1 rest.2.1 in
      let s1 = set_up_link resolve T S node (some prev) (some next) in
      let down =
        down_between resolve T S inner s1.0 prev next q ip9 facing_down.0 d b facing_down.1 in
      subst (Round (some prev) (next ∷ nodes))
        (sym (step_going resolve T S inner (some prev) (some next) s1 up.0))
        (
          down.0,
          (
            ((node.up.teid, facing_up.0), facing_up.2, up.1, facing_up.3),
            ((prev.down.teid, facing_down.0), down.2, facing_down.2, down.3),
          ),
          refl,
          ((rest.2.0, rest.2.1, up.2, up.3), (ip9, b, down.1)),
        )

  Ready-behind :
      (a b : PathNode) (nodes : List PathNode)
      → Ready resolve T S (some a) nodes
      → Ready resolve T S (some b) nodes
  Ready-behind a b [] ready = refl
  Ready-behind a b (node ∷ nodes) ready = ready

  abbrev Done : Option PathNode → List PathNode → List PathNode × Status → Type 0
  Done prev nodes r = (r.1 ≡ going) × (length r.0 ≡ length nodes) × Joined an prev r.0

  Back-kept :
      (node : PathNode) (nodes done : List PathNode)
      → Back node nodes
      → length done ≡ length nodes
      → Back node done
  Back-kept node [] [] back same = back
  Back-kept node [] (x ∷ done) back same = ground arith
  Back-kept node (x ∷ nodes) [] back same = ground arith
  Back-kept node (x ∷ nodes) (y ∷ done) back same = refl

  add-Round :
      (prev : Option PathNode) (node : PathNode) (nodes : List PathNode) (s : PathNode × Status)
      (more : List PathNode × Status)
      → Round prev nodes s
      → Done (some s.0) nodes more
      → Done prev (node ∷ nodes) (next_step resolve T S s.0 nodes s.1 more)
  add-Round prev node nodes (new, going) (done, status) round (fine, same, joined) =
      (fine, ground (arith, same), (round.1, Back-kept new nodes done round.2 same, joined))
  add-Round prev node nodes (new, returned) more round done = ground (arith, round.0)
  add-Round prev node nodes (new, crashed) more round done = ground (arith, round.0)

  set_up_path-Done :
      (inner : InnerPdi) (prev : Option PathNode) (nodes : List PathNode)
      → Facing resolve T S prev nodes
      → Ready resolve T S prev nodes
      → Done prev nodes (set_up_path resolve T S inner prev nodes)
  unfolding set_up_path
  set_up_path-Done inner prev [] face ready = (refl, refl, refl)
  set_up_path-Done inner prev (node ∷ nodes) face ready =
      let s = set_up_node resolve T S inner node prev (head_of resolve T S nodes) in
      let round = one-Round inner prev node nodes face ready in
      add-Round prev node nodes s (set_up_path resolve T S inner (some s.0) nodes) round
        (set_up_path-Done inner (some s.0) nodes round.3 (Ready-behind node s.0 nodes ready.4))

  -- The rules of a path forward packets from end to end. Every tunnel has a PDR with its FAR, the first
  -- node has an address on N3, the others have one on N9, and so has the first where it is not the only
  -- one. Then the loop sets up every node, for a path and for one of dual connectivity, without an
  -- error or a panic. Each node sends uplink packets to the address and the tunnel at which the next
  -- one listens, each sends downlink packets to those at which the one before listens, and these FARs
  -- forward and do not drop. The last node forwards uplink packets out of the tunnels and takes
  -- downlink packets from there. The first one has the access node's tunnel for downlink packets, once
  -- its address is known.
  pub activate_pdrs-Joined :
      (nodes : List PathNode)
      → Ready resolve T S none nodes
      → (((activate_pdrs resolve T S nodes).1 ≡ going)
          × (length (activate_pdrs resolve T S nodes).0 ≡ length nodes)
          × Joined (access_end S.an_teid S.an_ip) none (activate_pdrs resolve T S nodes).0)
        × (((activate_dc_pdrs resolve T S nodes).1 ≡ going)
            × (length (activate_dc_pdrs resolve T S nodes).0 ≡ length nodes)
            × Joined (access_end S.an_teid S.an_ip) none (activate_dc_pdrs resolve T S nodes).0)
  unfolding activate_pdrs activate_dc_pdrs
  activate_pdrs-Joined nodes ready = (
    set_up_path-Done (full_pdi resolve T S) none nodes refl ready,
    set_up_path-Done (empty_pdi resolve T S) none nodes refl ready,
  )
