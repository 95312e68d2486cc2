-- ===== src/Tlv/NodeInfo.antt =====
-- A node info is an option that holds options; it is decoded as it was added.
use mathlib.Core.Path.{fun_ext}
use mathlib.Core.List.{append-nil}
use corosync_qdevice.Prelude.{
  ℕ, zero, suc, ◌+◌, ◌%◌, ◌^◌, ◌≤◌, ◌<◌, ◌≡◌, ◌≢◌, refl, sym, ap, ◌∙◌, Bool, true, some, List, [],
  ◌∷◌, ◌++◌, length, length-append, All, arith, subst, ◌==◌, Bool-cases, ==_iff, ==-ne, inl, inr,
  if◌then◌else◌,
}
use corosync_qdevice.Dynar.{Dynar, dynar_size, dynar_init}
use corosync_qdevice.Dynar.Content.{IsValid}
use corosync_qdevice.Tlv.Types.{NodeState, NodeInfo}
use corosync_qdevice.Tlv.Bytes.{Memory, memory_of, be_bytes, length-be_bytes}
use corosync_qdevice.Tlv.Add.Numbers.{
  node_state_number, opt_node_id, opt_data_center_id, opt_node_state, opt_node_info,
}
use corosync_qdevice.Tlv.Add.{
  tlv_add, tlv_add_u8, tlv_add_u32, tlv_add_node_id, tlv_add_data_center_id, add_state,
  add_data_center, tlv_add_node_info,
}
use corosync_qdevice.Tlv.Add.Content.{Appended}
use corosync_qdevice.Tlv.Iter.{TlvIterator, tlv_iter_init_str, tlv_iter_get_data}
use corosync_qdevice.Tlv.Each.{failed, bad_value, ok, then_decode, each_option}
use corosync_qdevice.Tlv.Decode.{
  node_info_option, node_info_end, node_info_loop, no_info, node_state_of,
  tlv_iter_decode_node_info,
}
use corosync_qdevice.Tlv.RoundTrip.{Finds}
use corosync_qdevice.Tlv.RoundTrip.{length-option_before}
use corosync_qdevice.Tlv.Walk.{
  TlvOption, IsShort, encode, encode-append, length-encode, Decodes, each_option-Decodes,
}
use corosync_qdevice.Tlv.Layout.{
  number_option, tlv_add_sized, Appended-then, number-Finds, enum-Finds,
}

-- The options in a node info.
abbrev pub state_options : NodeState → List TlvOption
state_options NodeState.not_set = []
state_options state = number_option opt_node_state 1 (node_state_number state) ∷ []

abbrev pub data_center_options : ℕ → List TlvOption → List TlvOption
data_center_options id options =
    if id == 0 then options else number_option opt_data_center_id 4 id ∷ options

abbrev pub info_options : NodeInfo → List TlvOption
info_options info =
    number_option opt_node_id 4 info.node_id
    ∷ data_center_options info.data_center_id (state_options info.node_state)

-- An option on the wire, with nothing after it.
pub length-number :
    (opt_type size n : ℕ) (options : List TlvOption)
    → length (encode (number_option opt_type size n ∷ options)) ≡ 4 + size + length (encode options)
length-number opt_type size n options = omega (
  arith,
  length-option_before opt_type (be_bytes size n) (encode options),
  length-be_bytes size n,
)

state_options-length : (state : NodeState) → length (encode (state_options state)) ≤ 5
state_options-length NodeState.not_set = omega arith
state_options-length NodeState.member = omega (arith, length-number opt_node_state 1 1 [])
state_options-length NodeState.dead = omega (arith, length-number opt_node_state 1 2 [])
state_options-length NodeState.leaving = omega (arith, length-number opt_node_state 1 3 [])

data_center_options-length :
    (id : ℕ) (options : List TlvOption)
    → length (encode (data_center_options id options)) ≤ 8 + length (encode options)
data_center_options-length id options = elim (Bool-cases (id == 0)) [
  | inl e ↦ rw e (omega arith)
  | inr e ↦ rw e (omega (arith, length-number opt_data_center_id 4 id options))
]

pub info_options-length : (info : NodeInfo) → length (encode (info_options info)) ≤ 21
info_options-length info = omega (
  arith,
  length-number opt_node_id 4 info.node_id
      (data_center_options info.data_center_id (state_options info.node_state)),
  data_center_options-length info.data_center_id (state_options info.node_state),
  state_options-length info.node_state,
)

module _ (grants : ℕ → ℕ → Bool) (given : (i j : ℕ) → grants i j ≡ true) where
  number-Appended :
      (i : ℕ) (msg : Dynar) (opt_type size n : ℕ)
      → IsValid msg
      → size < 2 ^ 16
      → dynar_size msg + 4 + size ≤ msg.maximum_size
      → Appended msg
          (encode (number_option opt_type size n ∷ []))
          (tlv_add (grants i) msg opt_type size (be_bytes size n))
  number-Appended i msg opt_type size n v short room =
      tlv_add_sized (grants i) msg opt_type size (be_bytes size n) (given i) v
        (length-be_bytes size n) short (omega (arith, length-be_bytes size n))

  nothing-Appended : (msg : Dynar) → IsValid msg → Appended msg [] (msg, true)
  nothing-Appended msg v = record {
    done = refl;
    content = sym (append-nil msg.bytes);
    valid = v;
    same_maximum = refl;
  }

  add_state-Appended :
      (msg : Dynar) (state : NodeState)
      → IsValid msg
      → dynar_size msg + 5 ≤ msg.maximum_size
      → Appended msg (encode (state_options state)) (add_state grants msg state)
  unfolding add_state tlv_add_u8
  add_state-Appended msg NodeState.not_set v room = nothing-Appended msg v
  add_state-Appended msg NodeState.member v room =
      number-Appended 2 msg opt_node_state 1 1 v (omega arith) (omega arith)
  add_state-Appended msg NodeState.dead v room =
      number-Appended 2 msg opt_node_state 1 2 v (omega arith) (omega arith)
  add_state-Appended msg NodeState.leaving v room =
      number-Appended 2 msg opt_node_state 1 3 v (omega arith) (omega arith)

  add_data_center-Appended :
      (msg : Dynar) (info : NodeInfo)
      → IsValid msg
      → dynar_size msg + 13 ≤ msg.maximum_size
      → Appended msg
          (encode (data_center_options info.data_center_id (state_options info.node_state)))
          (add_data_center grants msg info)
  unfolding add_data_center tlv_add_u32
  add_data_center-Appended msg info v room = elim (Bool-cases (info.data_center_id == 0)) [
    | inl e ↦ rw e (add_state-Appended msg info.node_state v (omega arith))
    | inr e ↦
        let first =
          number-Appended 1 msg opt_data_center_id 4 info.data_center_id v (omega arith)
            (omega arith) in
        let there = (tlv_add_data_center_id (grants 1) msg info.data_center_id).0 in
        let rest = add_state-Appended there info.node_state first.valid (
          omega (
            arith,
            first.same_maximum,
            ap length first.content,
            length-append msg.bytes
                (encode (number_option opt_data_center_id 4 info.data_center_id ∷ [])),
            length-number opt_data_center_id 4 info.data_center_id [],
          )) in
        rw (e, first.done)
          (subst (λ b. Appended msg b (add_state grants there info.node_state))
            (sym (
              encode-append (number_option opt_data_center_id 4 info.data_center_id ∷ [])
                (state_options info.node_state)))
            (Appended-then msg there _ (encode (state_options info.node_state)) _ first.content
              first.same_maximum rest))
  ]

  -- Where memory is granted, a node info is appended to a valid message that has room for it.
  pub tlv_add_node_info-Appended :
      (msg : Dynar) (info : NodeInfo)
      → IsValid msg
      → dynar_size msg + 4 + length (encode (info_options info)) ≤ msg.maximum_size
      → Appended msg
          (encode ((opt_node_info, encode (info_options info)) ∷ []))
          (tlv_add_node_info grants msg info)
  unfolding tlv_add_node_info dynar_init tlv_add_u32
  tlv_add_node_info-Appended msg info v room =
      let inner = dynar_init 1024 in
      let empty : IsValid inner = omega arith in
      let first =
        number-Appended 0 inner opt_node_id 4 info.node_id empty (omega arith) (omega arith) in
      let there = (tlv_add_node_id (grants 0) inner info.node_id).0 in
      let id_options = number_option opt_node_id 4 info.node_id ∷ [] in
      let others = data_center_options info.data_center_id (state_options info.node_state) in
      let rest = add_data_center-Appended there info first.valid (
        omega (
          arith,
          first.same_maximum,
          ap length first.content,
          length-number opt_node_id 4 info.node_id [],
        )) in
      let opt_value = (add_data_center grants there info).0 in
      let bytes : opt_value.bytes ≡ encode (info_options info) =
        rest.content
        ∙ ap (λ b. b ++ encode others) first.content
        ∙ sym (encode-append id_options others) in
      let short = info_options-length info in
      let len : length (encode (info_options info)) ≡ dynar_size opt_value % 2 ^ 16 =
        omega (arith, ap length bytes) in
      rw (first.done, rest.done)
        (subst
          (λ b.
            Appended msg (encode ((opt_node_info, encode (info_options info)) ∷ []))
              (tlv_add (grants 3) msg opt_node_info (dynar_size opt_value % 2 ^ 16) b))
          (sym bytes)
          (tlv_add_sized (grants 3) msg opt_node_info (dynar_size opt_value % 2 ^ 16)
            (encode (info_options info)) (given 3) v len (omega arith) room))

-- What memory holds after the bytes is chosen so that memory as a whole is known.
suc_add : (n k : ℕ) → suc (n + k) ≡ suc n + k
suc_add n k = omega arith

memory_extended :
    (bytes : List ℕ) (mem beyond : Memory)
    → ((i : ℕ) → i < length bytes → mem i ≡ memory_of bytes beyond i)
    → (i : ℕ) → mem i ≡ memory_of bytes (λ k. mem (length bytes + k)) i
unfolding memory_of
memory_extended [] mem beyond h i = ap mem (omega arith)
memory_extended (b ∷ bytes) mem beyond h zero = h 0 (omega arith)
memory_extended (b ∷ bytes) mem beyond h (suc i) =
    memory_extended bytes (λ k. mem (suc k)) beyond (λ k l. h (suc k) (omega arith)) i
    ∙ ap (λ (f : ℕ → ℕ). memory_of bytes (λ k. mem (f k)) i) (fun_ext λ k. suc_add (length bytes) k)

-- The state that the loop reaches after the options of a node info.
module _ (beyond : Memory) where
  node_id-reads :
      (info : NodeInfo) (n : ℕ) (it : TlvIterator)
      → n < 2 ^ 32
      → Finds it opt_node_id (be_bytes 4 n) beyond
      → node_info_option it info ≡ ok (record info { node_id = n })
  unfolding node_info_option
  node_id-reads info n it small found = rw found.has_type (
      ap (λ d. then_decode d (λ u32. ok (record info { node_id = u32 })))
        (number-Finds it beyond opt_node_id 4 n found (omega arith)))

  data_center-reads :
      (info : NodeInfo) (n : ℕ) (it : TlvIterator)
      → n < 2 ^ 32
      → Finds it opt_data_center_id (be_bytes 4 n) beyond
      → node_info_option it info ≡ ok (record info { data_center_id = n })
  unfolding node_info_option
  data_center-reads info n it small found = rw found.has_type (
      ap (λ d. then_decode d (λ u32. ok (record info { data_center_id = u32 })))
        (number-Finds it beyond opt_data_center_id 4 n found (omega arith)))

  state-reads :
      (info : NodeInfo) (state : NodeState) (it : TlvIterator)
      → node_state_number state < 256
      → node_state_of (node_state_number state) ≡ some state
      → Finds it opt_node_state (be_bytes 1 (node_state_number state)) beyond
      → node_info_option it info ≡ ok (record info { node_state = state })
  unfolding node_info_option
  state-reads info state it small e found = rw found.has_type (
      ap (λ d. then_decode d (λ s. ok (record info { node_state = s })))
        (enum-Finds node_state_of it beyond opt_node_state (node_state_number state) state found
          small e))

  state-Decodes :
      (info : NodeInfo) (state : NodeState)
      → info.node_state ≡ NodeState.not_set
      → Decodes node_info_option beyond info
          (state_options state)
          (record info { node_state = state })
  state-Decodes info NodeState.not_set e = ap (λ s. record info { node_state = s }) e
  state-Decodes info NodeState.member e =
      (_, (λ it. state-reads info NodeState.member it (omega arith) refl), refl)
  state-Decodes info NodeState.dead e =
      (_, (λ it. state-reads info NodeState.dead it (omega arith) refl), refl)
  state-Decodes info NodeState.leaving e =
      (_, (λ it. state-reads info NodeState.leaving it (omega arith) refl), refl)

  data_center-Decodes :
      (id dc : ℕ) (state : NodeState)
      → dc < 2 ^ 32
      → Decodes node_info_option beyond
          (record no_info { node_id = id })
          (data_center_options dc (state_options state))
          (record { node_id = id; data_center_id = dc; node_state = state })
  data_center-Decodes id dc state small = elim (Bool-cases (dc == 0)) [
    | inl e ↦ rw e (
        subst
          (λ n.
            Decodes node_info_option beyond (record no_info { node_id = id }) (state_options state)
              (record { node_id = id; data_center_id = n; node_state = state }))
          (sym ((==_iff dc 0).0 e)) (state-Decodes (record no_info { node_id = id }) state refl))
    | inr e ↦ rw e (
      record { node_id = id; data_center_id = dc; node_state = NodeState.not_set },
      (λ it. data_center-reads (record no_info { node_id = id }) dc it small),
      state-Decodes (record no_info { node_id = id; data_center_id = dc }) state refl,
    )
  ]

  info-Decodes :
      (info : NodeInfo)
      → info.node_id < 2 ^ 32
      → info.data_center_id < 2 ^ 32
      → Decodes node_info_option beyond no_info (info_options info) info
  info-Decodes info id_small small = (
    record no_info { node_id = info.node_id },
    (λ it. node_id-reads no_info info.node_id it id_small),
    data_center-Decodes info.node_id info.data_center_id info.node_state small,
  )

pub number-IsShort :
    (opt_type size n : ℕ)
    → opt_type < 2 ^ 16
    → size < 2 ^ 16
    → IsShort (number_option opt_type size n)
number-IsShort opt_type size n t s = (t, omega (arith, length-be_bytes size n))

state-IsShort : (state : NodeState) → All IsShort (state_options state)
state-IsShort NodeState.not_set = tt
state-IsShort NodeState.member = (number-IsShort opt_node_state 1 1 (omega arith) (omega arith), tt)
state-IsShort NodeState.dead = (number-IsShort opt_node_state 1 2 (omega arith) (omega arith), tt)
state-IsShort NodeState.leaving =
    (number-IsShort opt_node_state 1 3 (omega arith) (omega arith), tt)

data_center-IsShort :
    (id : ℕ) (options : List TlvOption)
    → All IsShort options
    → All IsShort (data_center_options id options)
data_center-IsShort id options h = elim (Bool-cases (id == 0)) [
  | inl e ↦ rw e h
  | inr e ↦ rw e (number-IsShort opt_data_center_id 4 id (omega arith) (omega arith), h)
]

info-IsShort : (info : NodeInfo) → All IsShort (info_options info)
info-IsShort info = (
  number-IsShort opt_node_id 4 info.node_id (omega arith) (omega arith),
  data_center-IsShort info.data_center_id (state_options info.node_state)
      (state-IsShort info.node_state),
)

-- A node info is decoded as it was encoded, from an option that an iterator finds. The node id is
-- not zero, and both ids fit in 32 bits.
pub node_info-Finds :
    (it : TlvIterator) (beyond : Memory) (info : NodeInfo)
    → info.node_id ≢ 0
    → info.node_id < 2 ^ 32
    → info.data_center_id < 2 ^ 32
    → Finds it opt_node_info (encode (info_options info)) beyond
    → tlv_iter_decode_node_info it ≡ ok info
unfolding tlv_iter_decode_node_info node_info_loop
node_info-Finds it beyond info present id_small dc_small found =
    let bytes = encode (info_options info) in
    let opt_data = tlv_iter_get_data it in
    let after : Memory = λ k. opt_data (length bytes + k) in
    let memory : opt_data ≡ memory_of bytes after =
      fun_ext (memory_extended bytes opt_data beyond found.has_data) in
    let short = info_options-length info in
    ap
      (λ n.
        node_info_end
          (each_option node_info_option (n + 2) (tlv_iter_init_str opt_data n 0) no_info))
      found.has_len
    ∙ ap
        (λ d. node_info_end (
          each_option node_info_option (length bytes + 2) (tlv_iter_init_str d (length bytes) 0)
            no_info))
        memory
    ∙ ap node_info_end (
        each_option-Decodes node_info_option after bytes (length bytes + 2) []
          (number_option opt_node_id 4 info.node_id)
          (data_center_options info.data_center_id (state_options info.node_state)) no_info info
          refl (omega arith) (info-IsShort info) (info-Decodes after info id_small dc_small)
          (omega (arith, length-encode (info_options info))))
    ∙ ap (λ b. if b then failed bad_value else ok info) (==-ne info.node_id 0 present)
