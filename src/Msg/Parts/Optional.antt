-- ===== src/Msg/Parts/Optional.antt =====
-- The parts of a message that may be left out, and lists of nodes.
use corosync_qdevice.Prelude.{
  ℕ, ◌^◌, ◌<◌, ◌≡◌, ◌≢◌, refl, sym, Bool, true, Option, none, some, List, [], ◌∷◌, ◌++◌, map, All,
  arith, subst,
}
use mathlib.Core.List.{append_assoc, append-nil}
use corosync_qdevice.NodeList.{NodeList}
use corosync_qdevice.Tlv.Types.{RingId, Heuristics}
use corosync_qdevice.Tlv.Bytes.{Memory}
use corosync_qdevice.Tlv.Add.Numbers.{opt_config_version, opt_quorate, opt_heuristics}
use corosync_qdevice.Tlv.Walk.{TlvOption}
use corosync_qdevice.Tlv.Layout.{number_option}
use corosync_qdevice.Msg.Types.{MsgDecoded}
use corosync_qdevice.Msg.Create.{
  plain, optional, ring, node_info, heuristics_result, defined_heuristics,
}
use corosync_qdevice.Msg.Options.{
  ring_option, heuristics_option, node_option, IsNode, config_version-Adds, quorate-Adds,
  node_info-Adds, heuristics_result-Adds, config_version-reads, quorate-reads, node_info-reads,
  heuristics-reads,
}
use corosync_qdevice.Tlv.NodeInfo.{info_options-length}
use corosync_qdevice.Msg.Create.{node_list_entry_to_tlv_node_info}
use corosync_qdevice.Tlv.Add.{tlv_add_config_version, tlv_add_quorate}
use corosync_qdevice.Msg.Parts.{Part, no-Part, one-Part, both_parts, number-Part, ring-Part}

-- An argument that may be left out is as small as `P` says.
abbrev pub IfSet : {A : Type 0} → (A → Type 0) → Option A → Type 0
IfSet P none = Unit
IfSet P (some a) = P a

abbrev pub RingIdFits : RingId → Type 0
RingIdFits ring_id = (ring_id.node_id < 2 ^ 32) × (ring_id.seq < 2 ^ 64)

abbrev pub optional_options : {A : Type 0} → Option A → (A → TlvOption) → List TlvOption
optional_options none option = []
optional_options (some a) option = option a ∷ []

-- What the receiver takes heuristics for that were left out.
abbrev pub told_heuristics : Option Heuristics → Heuristics
told_heuristics none = Heuristics.undefined
told_heuristics (some heuristics) = heuristics

abbrev pub defined_options : Option Heuristics → List TlvOption
defined_options none = []
defined_options (some Heuristics.undefined) = []
defined_options (some heuristics) = heuristics_option heuristics ∷ []

module _ (memory_grants : ℕ → ℕ → Bool) (beyond : Memory) where
  pub optional-ring-Part :
      (m : MsgDecoded) (r : Option RingId)
      → m.ring_id ≡ none
      → IfSet RingIdFits r
      → Part memory_grants beyond m
          (optional r ring)
          (optional_options r ring_option)
          (record m { ring_id = r })
  optional-ring-Part m none unset fits =
      subst (λ r. Part memory_grants beyond m [] [] (record m { ring_id = r })) unset
        (no-Part memory_grants beyond m)
  optional-ring-Part m (some ring_id) unset fits =
      ring-Part memory_grants beyond m ring_id fits.0 fits.1

  pub optional_config_version-Part :
      (m : MsgDecoded) (c : Option ℕ)
      → m.config_version ≡ none
      → IfSet (λ n. n < 2 ^ 64) c
      → Part memory_grants beyond m
          (optional c (λ n. plain (λ g msg. tlv_add_config_version g msg n)))
          (optional_options c (number_option opt_config_version 8))
          (record m { config_version = c })
  optional_config_version-Part m none unset fits =
      subst (λ c. Part memory_grants beyond m [] [] (record m { config_version = c })) unset
        (no-Part memory_grants beyond m)
  optional_config_version-Part m (some n) unset fits =
      number-Part memory_grants beyond opt_config_version 8 n (omega arith) (omega arith)
        (config_version-Adds n) (λ it. config_version-reads memory_grants it beyond m n fits)

  pub optional_quorate-Part :
      (m : MsgDecoded) (q : Option ℕ)
      → m.quorate ≡ none
      → IfSet (λ n. n < 2) q
      → Part memory_grants beyond m
          (optional q (λ n. plain (λ g msg. tlv_add_quorate g msg n)))
          (optional_options q (number_option opt_quorate 1))
          (record m { quorate = q })
  optional_quorate-Part m none unset fits =
      subst (λ q. Part memory_grants beyond m [] [] (record m { quorate = q })) unset
        (no-Part memory_grants beyond m)
  optional_quorate-Part m (some n) unset fits =
      number-Part memory_grants beyond opt_quorate 1 n (omega arith) (omega arith) (quorate-Adds n)
        (λ it. quorate-reads memory_grants it beyond m n fits)

  defined-Part :
      (m : MsgDecoded) (heuristics : Heuristics)
      → heuristics ≢ Heuristics.undefined
      → Part memory_grants beyond m
          (heuristics_result heuristics ∷ [])
          (heuristics_option heuristics ∷ [])
          (record m { heuristics = heuristics })
  defined-Part m Heuristics.undefined defined = absurd (defined refl)
  defined-Part m Heuristics.pass defined =
      number-Part memory_grants beyond opt_heuristics 1 1 (omega arith) (omega arith)
        (heuristics_result-Adds Heuristics.pass defined)
        (λ it. heuristics-reads memory_grants it beyond m Heuristics.pass (omega arith) refl)
  defined-Part m Heuristics.fail defined =
      number-Part memory_grants beyond opt_heuristics 1 2 (omega arith) (omega arith)
        (heuristics_result-Adds Heuristics.fail defined)
        (λ it. heuristics-reads memory_grants it beyond m Heuristics.fail (omega arith) refl)

  pub heuristics-Part :
      (m : MsgDecoded) (h : Option Heuristics)
      → m.heuristics ≡ Heuristics.undefined
      → Part memory_grants beyond m
          (defined_heuristics h)
          (defined_options h)
          (record m { heuristics = told_heuristics h })
  heuristics-Part m none unset =
      subst (λ h. Part memory_grants beyond m [] [] (record m { heuristics = h })) unset
        (no-Part memory_grants beyond m)
  heuristics-Part m (some Heuristics.undefined) unset =
      subst (λ h. Part memory_grants beyond m [] [] (record m { heuristics = h })) unset
        (no-Part memory_grants beyond m)
  heuristics-Part m (some Heuristics.pass) unset = defined-Part m Heuristics.pass (λ e. cc)
  heuristics-Part m (some Heuristics.fail) unset = defined-Part m Heuristics.fail (λ e. cc)

  pub nodes-Part :
      (m : MsgDecoded) (nodes : NodeList)
      → ((i j : ℕ) → memory_grants i j ≡ true)
      → All IsNode nodes
      → Part memory_grants beyond m
          (map node_info nodes)
          (map node_option nodes)
          (record m { nodes = m.nodes ++ nodes })
  nodes-Part m [] given fits =
      subst (λ n. Part memory_grants beyond m [] [] (record m { nodes = n }))
        (sym (append-nil m.nodes)) (no-Part memory_grants beyond m)
  nodes-Part m (node ∷ nodes) given (fits, rest) =
      let first : Part memory_grants beyond m (node_info node ∷ []) (node_option node ∷ [])
          (record m { nodes = m.nodes ++ node ∷ [] }) =
        one-Part memory_grants beyond (node_info-Adds node)
          (omega arith, omega (arith, info_options-length (node_list_entry_to_tlv_node_info node)))
          (λ it. node_info-reads memory_grants it beyond m node (given it.current_pos 0) fits) in
      subst
        (λ n.
          Part memory_grants beyond m (map node_info (node ∷ nodes))
            (map node_option (node ∷ nodes)) (record m { nodes = n }))
        (append_assoc m.nodes (node ∷ []) nodes)
        (both_parts memory_grants beyond first
          (nodes-Part (record m { nodes = m.nodes ++ node ∷ [] }) nodes given rest))
