-- ===== src/DataPath/Forwarding/Rounds.antt =====
-- What one round of the loop sets up for either direction.
use Prim.Native.String.{String}
use smf_nwdaf_ext.Common.{◌≡◌, refl, true, Option, none, some, List, [], ◌∷◌, arith}
use smf_nwdaf_ext.Net.{Ip}
use smf_nwdaf_ext.DataPath.Forwarding.{
  n9, InnerPdi, PfcpType, SessionInfo, PathNode, Rules, Status, going, returned, crashed,
  up_interface, set_up_link, set_down_link, down_step, to_access,
}
use smf_nwdaf_ext.DataPath.Forwarding.Ends.{
  At, end_of_parameters, sends_to, listens_at, forwards, access_end,
}

module _ (resolve : String → Option Ip) (T : PfcpType) (S : SessionInfo) where
  pub up_last :
      (node : PathNode) (prev : Option PathNode) (r : Rules) (ip : Option Ip)
      → node.up.rules ≡ some r
      → At resolve T S node (up_interface resolve T S prev) ip
      → let s = set_up_link resolve T S node prev none in
        (s.1 ≡ going)
        × (listens_at s.0.up.rules ≡ some (node.up.teid, ip))
        × (sends_to s.0.up.rules ≡ none)
        × (forwards s.0.up.rules ≡ true)
  unfolding set_up_link
  up_last node prev (pdr, far) ip u a =
      (rw (u, a) refl, rw (u, a) refl, rw (u, a) refl, rw (u, a) refl)

  pub up_inner :
      (node : PathNode) (prev : Option PathNode) (next : PathNode) (r : Rules)
      (ip onward : Option Ip)
      → node.up.rules ≡ some r
      → At resolve T S node (up_interface resolve T S prev) ip
      → At resolve T S next n9 onward
      → let s = set_up_link resolve T S node prev (some next) in
        (s.1 ≡ going)
        × (listens_at s.0.up.rules ≡ some (node.up.teid, ip))
        × (sends_to s.0.up.rules ≡ some (next.up.teid, onward))
        × (forwards s.0.up.rules ≡ true)
  unfolding set_up_link
  up_inner node prev next (pdr, far) ip onward u a b =
      (rw (u, a, b) refl, rw (u, a, b) refl, rw (u, a, b) refl, rw (u, a, b) refl)

  sends_to_access :
      (an : Option Ip)
      → end_of_parameters (some (to_access resolve T S an)) ≡ access_end S.an_teid an
  sends_to_access none = refl
  sends_to_access (some ip) = refl

  pub down_first_last :
      (inner : InnerPdi) (node : PathNode) (r : Rules)
      → node.down.rules ≡ some r
      → let s = set_down_link resolve T S inner node none none in
        (s.1 ≡ going)
        × (listens_at s.0.down.rules ≡ none)
        × (sends_to s.0.down.rules ≡ access_end S.an_teid S.an_ip)
  unfolding set_down_link
  down_first_last inner node (pdr, far) d = (rw d refl, rw d refl, rw d (sends_to_access S.an_ip))

  pub down_first :
      (inner : InnerPdi) (node next : PathNode) (r : Rules) (ip : Option Ip)
      → node.down.rules ≡ some r
      → At resolve T S node n9 ip
      → let s = set_down_link resolve T S inner node none (some next) in
        (s.1 ≡ going)
        × (listens_at s.0.down.rules ≡ some (node.down.teid, ip))
        × (sends_to s.0.down.rules ≡ access_end S.an_teid S.an_ip)
  unfolding set_down_link
  down_first inner node next (pdr, far) ip d a =
      (rw (d, a) refl, rw (d, a) refl, rw (d, a) (sends_to_access S.an_ip))

  pub down_last :
      (inner : InnerPdi) (node prev : PathNode) (r : Rules) (back : Option Ip)
      → node.down.rules ≡ some r
      → At resolve T S prev n9 back
      → let s = set_down_link resolve T S inner node (some prev) none in
        (s.1 ≡ going)
        × (listens_at s.0.down.rules ≡ none)
        × (sends_to s.0.down.rules ≡ some (prev.down.teid, back))
        × (forwards s.0.down.rules ≡ true)
  unfolding set_down_link
  down_last inner node prev (pdr, far) back d b =
      (rw (d, b) refl, rw (d, b) refl, rw (d, b) refl, rw (d, b) refl)

  pub down_between :
      (inner : InnerPdi) (node prev next : PathNode) (r : Rules) (ip back : Option Ip)
      → node.down.rules ≡ some r
      → At resolve T S node n9 ip
      → At resolve T S prev n9 back
      → let s = set_down_link resolve T S inner node (some prev) (some next) in
        (s.1 ≡ going)
        × (listens_at s.0.down.rules ≡ some (node.down.teid, ip))
        × (sends_to s.0.down.rules ≡ some (prev.down.teid, back))
        × (forwards s.0.down.rules ≡ true)
  unfolding set_down_link
  down_between inner node prev next (pdr, far) ip back d a b =
      (rw (d, a, b) refl, rw (d, a, b) refl, rw (d, a, b) refl, rw (d, a, b) refl)

  pub step_going :
      (inner : InnerPdi) (prev next : Option PathNode) (s : PathNode × Status)
      → s.1 ≡ going
      → down_step resolve T S inner prev next s ≡ set_down_link resolve T S inner s.0 prev next
  unfolding down_step
  step_going inner prev next (node, going) e = refl
  step_going inner prev next (node, returned) e = ground arith
  step_going inner prev next (node, crashed) e = ground arith

  -- What a finished node and the one that comes next have between them, where it is their turn.
  abbrev pub Facing : Option PathNode → List PathNode → Type 0
  Facing none nodes = true ≡ true
  Facing (some prev) [] = true ≡ true
  Facing (some prev) (node ∷ nodes) =
      ((ip : Option Ip) × At resolve T S node n9 ip
        × (sends_to prev.up.rules ≡ some (node.up.teid, ip))
        × (forwards prev.up.rules ≡ true))
      × ((ip : Option Ip) × At resolve T S prev n9 ip
          × (listens_at prev.down.rules ≡ some (prev.down.teid, ip)))
