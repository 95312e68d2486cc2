-- ===== src/Qnetd/Algorithm.antt =====
-- qdevices/qnetd-algorithm.h and qdevices/qnetd-algorithm.c: what the server asks of a decision
-- algorithm, and the choice of the algorithm by the number that the client asked for. `D` and `E`
-- are the types of the data that an algorithm keeps for a client and for a cluster. Arguments that
-- no algorithm modelled here reads are left out, and `none` is the end of the server.
use corosync_qdevice.Prelude.{ℕ, Bool, Option, none, some, List, [], ◌∷◌, ltb, if◌then◌else◌}
use corosync_qdevice.Tlv.Types.{RingId, Heuristics, Vote, ReplyErrorCode, internal_error}
use corosync_qdevice.NodeList.{NodeList}
use corosync_qdevice.Qnetd.Client.{Client, Cluster}

-- The reply code, `*result_vote`, and the cluster with its clients, as the callback leaves them.
pub record AlgorithmReply (D E : Type 0) : Type 0 where
  pub cluster : Cluster D E
  pub code : ReplyErrorCode
  pub vote : Vote

-- A callback is called for a client, with its cluster and the vote that `*result_vote` holds.
abbrev pub Callback : Type 0 → Type 0 → Type 0
Callback D E = Client D → Cluster D E → Vote → Option (AlgorithmReply D E)

pub record Algorithm (D E : Type 0) : Type 0 where
  pub init : Callback D E
  pub config_node_list_received : NodeList → Bool → Callback D E
  pub membership_node_list_received : RingId → NodeList → Heuristics → Callback D E
  pub quorum_node_list_received : NodeList → Callback D E
  pub ask_for_vote_received : Callback D E
  pub vote_info_reply_received : ℕ → Callback D E
  pub heuristics_change_received : Heuristics → Callback D E

-- In qdevices/corosync-qnetd.c: the test, the fifty-fifty split and the two last man standing
-- algorithms.
abbrev pub qnetd_static_supported_decision_algorithms : List ℕ
qnetd_static_supported_decision_algorithms = 0 ∷ 1 ∷ 2 ∷ 3 ∷ []

-- The array of the registered algorithms, by number.
abbrev pub Registry : Type 0 → Type 0 → Type 0
Registry D E = ℕ → Option (Algorithm D E)

module _ {D E : Type 0} where
  unfoldable pub registered : Registry D E → ℕ → Option (Algorithm D E)
  registered registry decision_algorithm =
      if ltb decision_algorithm 4 then registry decision_algorithm else none

  abbrev pub call_found : Option (Algorithm D E) → (Algorithm D E → Callback D E) → Callback D E
  call_found none callback client cluster vote =
      some (record { cluster = cluster; code = internal_error; vote = vote })
  call_found (some algorithm) callback client cluster vote = callback algorithm client cluster vote

  -- The functions `qnetd_algorithm_*`, by the callback that they call.
  unfoldable pub qnetd_algorithm : Registry D E → (Algorithm D E → Callback D E) → Callback D E
  qnetd_algorithm registry callback client =
      call_found (registered registry client.decision_algorithm) callback client
